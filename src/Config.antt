-- ===== src/Config.antt =====
-- src/config.rs: the settings that are validated, and their validation. TOML and strings are
-- parameters.
pub mod Validation
pub mod Loading
pub mod Defaults
mod Examples
use archer_market_maker.Base.{
  ℕ, List, [], ◌∷◌, Bool, true, false, not, ◌&&◌, ◌||◌, ltb, leb, length,
}
use archer_market_maker.Float.{F64}
use archer_market_maker.Strategy.{StrategySettings}
use archer_market_maker.Feed.State.{FeedSettings}

pub record MarketSettings (Text : Type 0) : Type 0 where
  pub market_pubkey : Text
  pub maker_keypair_path : Text
  pub delegate_keypair_path : Text
  pub maker_owner_pubkey : Text

pub record ConnectionSettings (Text : Type 0) : Type 0 where
  pub rpc_url : Text
  pub ws_url : Text

pub record ExecutionSettings : Type 0 where
  pub heartbeat_interval_ms : ℕ
  pub priority_fee_microlamports : ℕ
  pub shadow_mode : Bool

pub record MonitoringSettings (Text : Type 0) : Type 0 where
  pub log_level : Text

pub record MmConfig (F Text : Type 0) : Type 0 where
  pub market : MarketSettings Text
  pub connection : ConnectionSettings Text
  pub feed : FeedSettings Text
  pub strategy : StrategySettings F
  pub execution : ExecutionSettings
  pub monitoring : MonitoringSettings Text

-- The errors of `validate_config`, in the order of its tests.
pub data ConfigError : Type 0 where
  market_pubkey_required maker_required rpc_url_required binance_symbol_required : ConfigError
  need_spread_level too_many_levels spreads_must_be_positive inventory_pct_range : ConfigError
  vol_window_too_small baseline_must_be_positive max_multiplier_too_small : ConfigError

pub data Verdict : Type 0 where
  valid : Verdict
  invalid : ConfigError → Verdict

-- `anyhow::ensure!` in sequence: the error of the first test that fails.
abbrev pub ensure_all : List (Bool × ConfigError) → Verdict
ensure_all [] = valid
ensure_all ((true, error) ∷ rest) = ensure_all rest
ensure_all ((false, error) ∷ rest) = invalid error

-- `iter().all(..)`
abbrev pub all_of : {A : Type 0} → (A → Bool) → List A → Bool
all_of test [] = true
all_of test (x ∷ xs) = test x && all_of test xs

module _ {F Text : Type 0} ⦃fl : F64 F⦄ (blank : Text → Bool) where
  open fl use {of_u64, lt, le}

  -- The tests, in the order of the source.
  pub tests : MmConfig F Text → List (Bool × ConfigError)
  tests c =
      let s = c.strategy in
      (not (blank c.market.market_pubkey), market_pubkey_required)
      ∷ (
        not (blank c.market.maker_keypair_path) || not (blank c.market.maker_owner_pubkey),
        maker_required,
      )
      ∷ (not (blank c.connection.rpc_url), rpc_url_required)
      ∷ (not (blank c.feed.binance_symbol), binance_symbol_required)
      ∷ (ltb 0 (length s.spread_levels_bps), need_spread_level)
      ∷ (leb (length s.spread_levels_bps) 16, too_many_levels)
      ∷ (all_of (λ spread. lt (of_u64 0) spread) s.spread_levels_bps, spreads_must_be_positive)
      ∷ (lt (of_u64 0) s.inventory_pct && le s.inventory_pct (of_u64 100), inventory_pct_range)
      ∷ (leb 2 s.vol_window, vol_window_too_small)
      ∷ (lt (of_u64 0) s.vol_baseline_bps, baseline_must_be_positive)
      ∷ (le (of_u64 1) s.vol_max_multiplier, max_multiplier_too_small)
      ∷ []

  unfoldable pub validate_config : MmConfig F Text → Verdict
  unfolding tests
  validate_config c = ensure_all (tests c)
