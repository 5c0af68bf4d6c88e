-- ===== src/Config/Validation.antt =====
-- What a validated configuration is, and whether the bot can panic on one.
use archer_market_maker.Base.{
  ℕ, ◌≤◌, ◌<◌, ◌^◌, ◌≡◌, ◌≢◌, refl, sym, ◌↔◌, ◌⊎◌, List, [], ◌∷◌, Bool, true, false, length, arith,
  All, Option, none, ◌>>=◌, leb, Bool-cases, inl, inr,
}
use mathlib.Core.Path.{subst}
use archer_market_maker.Float.{F64}
use archer_market_maker.Sdk.{QuoteMath, Encoders, Decoding}
use archer_market_maker.Volatility.{new, empty_tracker}
use archer_market_maker.Volatility.History.{empty_tracker-IsValid, new-built, new-panics}
use archer_market_maker.Feed.State.{FeedSettings, Texts, Feed, Published, Attempt, Turn}
use archer_market_maker.Feed.{run_feed}
use archer_market_maker.Feed.Backoff.{run_feed-IsPatient}
use archer_market_maker.Engine.State.{EngineConfig, Engine, Reads, panicked}
use archer_market_maker.Engine.{cycle}
use archer_market_maker.Engine.Shutdown.{cycle_no_panic}
use archer_market_maker.Config.{
  MmConfig, ConfigError, valid, ensure_all, all_of, tests, validate_config,
}

ensure_all-All :
    (ts : List (Bool × ConfigError)) → (ensure_all ts ≡ valid) ↔ All (λ t. t.0 ≡ true) ts
ensure_all-All [] = (λ e. tt, λ a. refl)
ensure_all-All ((true, error) ∷ ts) =
    let (to, from) = ensure_all-All ts in (λ e. (refl, to e), λ (h, a). from a)
ensure_all-All ((false, error) ∷ ts) = (λ e. absurd (cc), λ (h, a). absurd (cc))

all_of-All :
    {A : Type 0} (test : A → Bool) (xs : List A)
    → (all_of test xs ≡ true) ↔ All (λ x. test x ≡ true) xs
all_of-All test [] = (λ e. tt, λ a. refl)
all_of-All test (x ∷ xs) =
    let (to, from) = all_of-All test xs in
    (λ e. (ground arith, to (ground arith)), λ (h, a). let rest = from a in ground arith)

module _ {F Text : Type 0} ⦃fl : F64 F⦄ (blank : Text → Bool) where
  open fl use {of_u64, lt, le}

  -- What the validation asks of a configuration.
  pub record IsConfigured (c : MmConfig F Text) : Type 0 where
    pub has_market : blank c.market.market_pubkey ≡ false
    pub has_maker :
        (blank c.market.maker_keypair_path ≡ false) ⊎ (blank c.market.maker_owner_pubkey ≡ false)
    pub has_rpc_url : blank c.connection.rpc_url ≡ false
    pub has_symbol : blank c.feed.binance_symbol ≡ false
    pub some_levels : 0 < length c.strategy.spread_levels_bps
    pub few_levels : length c.strategy.spread_levels_bps ≤ 16
    pub positive_spreads : All (λ s. lt (of_u64 0) s ≡ true) c.strategy.spread_levels_bps
    pub some_inventory : lt (of_u64 0) c.strategy.inventory_pct ≡ true
    pub no_more_than_all : le c.strategy.inventory_pct (of_u64 100) ≡ true
    pub window : 2 ≤ c.strategy.vol_window
    pub positive_baseline : lt (of_u64 0) c.strategy.vol_baseline_bps ≡ true
    pub multiplier_from_one : le (of_u64 1) c.strategy.vol_max_multiplier ≡ true

  passes : (c : MmConfig F Text) → IsConfigured c → All (λ t. t.0 ≡ true) (tests blank c)
  unfolding tests
  passes c i = (
    ground arith,
    (
      ground arith,
      (
        ground arith,
        (
          ground arith,
          (
            ground arith,
            (
              ground arith,
              (
                (all_of-All _ c.strategy.spread_levels_bps).1 i.positive_spreads,
                (ground arith, (ground arith, (i.positive_baseline, (i.multiplier_from_one, tt)))),
              ),
            ),
          ),
        ),
      ),
    ),
  )

  passed : (c : MmConfig F Text) → All (λ t. t.0 ≡ true) (tests blank c) → IsConfigured c
  unfolding tests
  passed c (h1, (h2, (h3, (h4, (h5, (h6, (h7, (h8, (h9, (h10, (h11, _))))))))))) = record {
    has_market = ground arith;
    has_maker = ground arith;
    has_rpc_url = ground arith;
    has_symbol = ground arith;
    some_levels = ground arith;
    few_levels = ground arith;
    positive_spreads = (all_of-All _ c.strategy.spread_levels_bps).0 h7;
    some_inventory = ground arith;
    no_more_than_all = ground arith;
    window = ground arith;
    positive_baseline = h10;
    multiplier_from_one = h11;
  }

  -- A configuration is valid exactly if it names a market, a maker by key or by owner, an RPC node
  -- and a symbol; has 1 to 16 spread levels, all above zero; an inventory share above zero and at
  -- most 100; a volatility window of at least 2, a baseline above zero and a largest multiplier of
  -- at least 1.
  pub validate_config-IsConfigured :
      (c : MmConfig F Text) → (validate_config blank c ≡ valid) ↔ IsConfigured c
  unfolding validate_config
  validate_config-IsConfigured c =
      let (to, from) = ensure_all-All (tests blank c) in
      (λ e. passed c (to e), λ i. from (passes c i))

-- The feed before its first connection: its tracker is a new one, if that does not panic.
abbrev pub run_new_feed :
    {F Text : Type 0}
    → ⦃fl : F64 F⦄ → Texts F Text
    → FeedSettings Text
    → Published F
    → (vol_window : ℕ) → List (Bool × Attempt Text)
    → Option (Feed F × List Turn)
run_new_feed texts settings published vol_window attempts = new vol_window >>= λ tracker.
    run_feed texts settings (record { published = published; vol_tracker = tracker }) 100 attempts

module _ {F Market Quotes Pubkey Instruction S Text : Type 0} ⦃fl : F64 F⦄
    (sdk : QuoteMath F Market Quotes S) {enc : Encoders Pubkey Instruction S} (dec : Decoding enc)
    (market : Market) (texts : Texts F Text) where
  -- On a configuration that was validated no cycle of an engine with that strategy panics. The feed
  -- that starts from a new tracker of the configured volatility window, whatever connections it
  -- gets, panics exactly if the window has 2 ^ 60 places or more, memory taken as unlimited.
  pub validated_no_panic :
      (blank : Text → Bool) (c : MmConfig F Text) (ec : EngineConfig F Pubkey)
      → validate_config blank c ≡ valid
      → ec.strategy.config ≡ c.strategy
      → ((e : Engine) (r : Reads F) → (cycle sdk enc market ec e r).2 ≢ panicked)
        × ((published : Published F) (attempts : List (Bool × Attempt Text))
            → (run_new_feed texts c.feed published c.strategy.vol_window attempts ≡ none)
              ↔ (2 ^ 60 ≤ c.strategy.vol_window))
  validated_no_panic blank c ec ok same =
      let i = (validate_config-IsConfigured blank c).0 ok in
      let n = c.strategy.vol_window in
      (
        λ e r.
            cycle_no_panic sdk dec market ec e r
              (subst (λ s. 0 < length s.spread_levels_bps) (sym same) i.some_levels),
        λ published attempts. (
          λ panics. elim (Bool-cases (leb (2 ^ 60) n)) [
            | inl big ↦ ground arith
            | inr e ↦
                let small : n < 2 ^ 60 = ground arith in
                let window : 0 < n = omega (arith, i.window) in
                let feed : Feed F = record {
                  published = published;
                  vol_tracker = empty_tracker n;
                } in
                let (state', turns, runs, _, _) =
                  run_feed-IsPatient texts c.feed feed 100 attempts
                    (empty_tracker-IsValid n window (omega (arith, small)))
                    (omega arith, omega arith) in
                let stays = rw (new-built n small) at panics in absurd (cc (runs, stays))
          ],
          λ big. rw (new-panics n big) refl,
        ),
      )
