-- ===== src/Config/Defaults.antt =====
-- src/config.rs: the values that serde fills in for keys that a configuration leaves out. The parsed
-- TOML is a record of the keys that are there.
use archer_market_maker.Base.{
  ℕ, ◌≤◌, ◌<◌, ◌≡◌, ◌↔◌, ◌⊎◌, inl, inr, List, Option, none, some, Bool, true, false, All, arith,
  length, is_empty,
}
use archer_market_maker.Base.Text.{Text, codes}
use archer_market_maker.Float.{F64}
use archer_market_maker.Config.{MmConfig, valid, validate_config}
use archer_market_maker.Config.Validation.{validate_config-IsConfigured}

-- The keys of a configuration's sections; those with a default may be missing.
pub record Tables (F : Type 0) : Type 0 where
  pub market_pubkey : Text
  pub maker_keypair_path : Option Text
  pub delegate_keypair_path : Option Text
  pub maker_owner_pubkey : Option Text
  pub rpc_url : Text
  pub ws_url : Option Text
  pub binance_symbol : Text
  pub cross_symbol : Option Text
  pub binance_ws_url : Option Text
  pub staleness_timeout_ms : Option ℕ
  pub spread_levels_bps : List F
  pub inventory_pct : Option F
  pub vol_window : Option ℕ
  pub vol_baseline_bps : Option F
  pub vol_max_multiplier : Option F
  pub heartbeat_interval_ms : Option ℕ
  pub priority_fee_microlamports : Option ℕ
  pub shadow_mode : Option Bool
  pub log_level : Option Text

abbrev pub or_else : {A : Type 0} → A → Option A → A
or_else d none = d
or_else d (some a) = a

abbrev pub default_binance_ws : Text
default_binance_ws = codes "wss://stream.binance.com:9443/ws"

abbrev pub default_staleness_ms : ℕ
default_staleness_ms = 5000

abbrev pub default_vol_window : ℕ
default_vol_window = 300

abbrev pub default_heartbeat_ms : ℕ
default_heartbeat_ms = 100

abbrev pub default_priority_fee : ℕ
default_priority_fee = 100

abbrev pub default_log_level : Text
default_log_level = codes "info"

-- What holds of a key, if it is there.
abbrev pub Given : {A : Type 0} → (A → Type 0) → Option A → Type 0
Given P none = Unit
Given P (some a) = P a

-- A key for the maker that is there and not empty.
abbrev pub IsNamed : Option Text → Type 0
IsNamed none = ⊥
IsNamed (some s) = is_empty s ≡ false

or_else-Given :
    {A : Type 0} (P : A → Type 0) (d : A) (o : Option A) → P d → Given P o ↔ P (or_else d o)
or_else-Given P d none h = (λ g. h, λ p. tt)
or_else-Given P d (some a) h = (λ g. g, λ p. p)

or_else-IsNamed : (o : Option Text) → IsNamed o ↔ (is_empty (or_else (codes "") o) ≡ false)
or_else-IsNamed none = (λ n. absurd n, λ e. absurd (cc))
or_else-IsNamed (some s) = (λ n. n, λ e. e)

-- The order of the four literals that the defaults are checked against.
pub record AreOrdered (F : Type 0) ⦃fl : F64 F⦄ : Type 0 where
  pub eighty_positive : fl.lt (fl.of_u64 0) (fl.of_u64 80) ≡ true
  pub eighty_at_most : fl.le (fl.of_u64 80) (fl.of_u64 100) ≡ true
  pub five_positive : fl.lt (fl.of_u64 0) (fl.of_u64 5) ≡ true
  pub five_from_one : fl.le (fl.of_u64 1) (fl.of_u64 5) ≡ true

module _ {F : Type 0} ⦃fl : F64 F⦄ where
  open fl use {of_u64, lt, le}

  abbrev pub default_inventory_pct : F
  default_inventory_pct = of_u64 80

  abbrev pub default_vol_baseline_bps : F
  default_vol_baseline_bps = of_u64 5

  abbrev pub default_vol_max_multiplier : F
  default_vol_max_multiplier = of_u64 5

  -- What `#[serde(default)]` and `#[serde(default = "..")]` make of the keys.
  pub with_defaults : Tables F → MmConfig F Text
  with_defaults t = record {
    market = record {
      market_pubkey = t.market_pubkey;
      maker_keypair_path = or_else (codes "") t.maker_keypair_path;
      delegate_keypair_path = or_else (codes "") t.delegate_keypair_path;
      maker_owner_pubkey = or_else (codes "") t.maker_owner_pubkey;
    };
    connection = record { rpc_url = t.rpc_url; ws_url = or_else (codes "") t.ws_url };
    feed = record {
      binance_symbol = t.binance_symbol;
      cross_symbol = or_else (codes "") t.cross_symbol;
      binance_ws_url = or_else default_binance_ws t.binance_ws_url;
      staleness_timeout_ms = or_else default_staleness_ms t.staleness_timeout_ms;
    };
    strategy = record {
      spread_levels_bps = t.spread_levels_bps;
      inventory_pct = or_else default_inventory_pct t.inventory_pct;
      vol_window = or_else default_vol_window t.vol_window;
      vol_baseline_bps = or_else default_vol_baseline_bps t.vol_baseline_bps;
      vol_max_multiplier = or_else default_vol_max_multiplier t.vol_max_multiplier;
    };
    execution = record {
      heartbeat_interval_ms = or_else default_heartbeat_ms t.heartbeat_interval_ms;
      priority_fee_microlamports = or_else default_priority_fee t.priority_fee_microlamports;
      shadow_mode = or_else false t.shadow_mode;
    };
    monitoring = record { log_level = or_else default_log_level t.log_level };
  }

  -- What is asked of the keys that are there.
  abbrev pub AreValid : Tables F → Type 0
  AreValid t =
      (is_empty t.market_pubkey ≡ false)
      × (IsNamed t.maker_keypair_path ⊎ IsNamed t.maker_owner_pubkey)
      × (is_empty t.rpc_url ≡ false)
      × (is_empty t.binance_symbol ≡ false)
      × (0 < length t.spread_levels_bps)
      × (length t.spread_levels_bps ≤ 16)
      × (All (λ s. lt (of_u64 0) s ≡ true) t.spread_levels_bps)
      × Given (λ p. (lt (of_u64 0) p ≡ true) × (le p (of_u64 100) ≡ true)) t.inventory_pct
      × Given (λ w. 2 ≤ w) t.vol_window
      × Given (λ b. lt (of_u64 0) b ≡ true) t.vol_baseline_bps
      × Given (λ m. le (of_u64 1) m ≡ true) t.vol_max_multiplier

  -- A configuration passes its validation with the defaults filled in exactly if the keys that it
  -- has are right by themselves, where the float literals are ordered as the numbers they stand for:
  -- no default is ever the reason of an error, except that one of the two keys that name the maker
  -- must be there.
  pub with_defaults-AreValid :
      (t : Tables F)
      → AreOrdered F
      → (validate_config is_empty (with_defaults t) ≡ valid) ↔ AreValid t
  unfolding with_defaults
  with_defaults-AreValid t o =
      let (to, from) = validate_config-IsConfigured is_empty (with_defaults t) in
      let key = or_else-IsNamed t.maker_keypair_path in
      let name = or_else-IsNamed t.maker_owner_pubkey in
      let share =
        or_else-Given (λ p. (lt (of_u64 0) p ≡ true) × (le p (of_u64 100) ≡ true)) (of_u64 80)
          t.inventory_pct (o.eighty_positive, o.eighty_at_most) in
      let window = or_else-Given (λ w. 2 ≤ w) default_vol_window t.vol_window (omega arith) in
      let baseline =
        or_else-Given (λ b. lt (of_u64 0) b ≡ true) default_vol_baseline_bps t.vol_baseline_bps
          o.five_positive in
      let most =
        or_else-Given (λ m. le (of_u64 1) m ≡ true) default_vol_max_multiplier t.vol_max_multiplier
          o.five_from_one in
      (
        λ e.
            let i = to e in
            (
              i.has_market,
              either key.1 name.1 i.has_maker,
              i.has_rpc_url,
              i.has_symbol,
              i.some_levels,
              i.few_levels,
              i.positive_spreads,
              share.1 (i.some_inventory, i.no_more_than_all),
              window.1 i.window,
              baseline.1 i.positive_baseline,
              most.1 i.multiplier_from_one,
            ),
        λ (market, maker, url, symbol, some_levels, few, spreads, p, w, b, m). from (record {
          has_market = market;
          has_maker = either key.0 name.0 maker;
          has_rpc_url = url;
          has_symbol = symbol;
          some_levels = some_levels;
          few_levels = few;
          positive_spreads = spreads;
          some_inventory = (share.0 p).0;
          no_more_than_all = (share.0 p).1;
          window = window.0 w;
          positive_baseline = baseline.0 b;
          multiplier_from_one = most.0 m;
        }),
      )
    where
      either : {A B C D : Type 0} → (A → C) → (B → D) → A ⊎ B → C ⊎ D
      either f g (inl a) = inl (f a)
      either f g (inr b) = inr (g b)
