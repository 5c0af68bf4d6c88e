-- ===== src/Config/Examples.antt =====
-- A configuration that passes: a text is a number, and 0 is the empty one.
use archer_market_maker.Base.{ℕ, ◌^◌, ◌≤◌, ◌≡◌, ◌≢◌, refl, ◌↔◌, List, Bool, false, ◌==◌, none, some}
use archer_market_maker.Float.{Micro, micro}
use archer_market_maker.Feed.State.{Texts, Published, Attempt}
use archer_market_maker.Engine.State.{Engine, Reads, panicked}
use archer_market_maker.Engine.{cycle}
use archer_market_maker.Concrete.{encoders, decoding, sdk, strategy, config}
use archer_market_maker.Config.{MmConfig, valid, invalid, maker_required, validate_config}
use archer_market_maker.Base.{some, is_empty, [], ◌∷◌}
use archer_market_maker.Base.Text.{codes}
use archer_market_maker.Config.Defaults.{Tables, with_defaults, AreValid, with_defaults-AreValid}
use archer_market_maker.Config.Validation.{run_new_feed, validated_no_panic}

abbrev blank : ℕ → Bool
blank n = n == 0

abbrev settings : MmConfig Micro ℕ
settings = record {
  market = record {
    market_pubkey = 3;
    maker_keypair_path = 0;
    delegate_keypair_path = 5;
    maker_owner_pubkey = 7;
  };
  connection = record { rpc_url = 4; ws_url = 0 };
  feed = record {
    binance_symbol = 7;
    cross_symbol = 8;
    binance_ws_url = 6;
    staleness_timeout_ms = 5000;
  };
  strategy = (strategy false).config;
  execution = record {
    heartbeat_interval_ms = 100;
    priority_fee_microlamports = 100;
    shadow_mode = false;
  };
  monitoring = record { log_level = 1 };
}

-- Neither a key nor an owner.
abbrev ownerless : MmConfig Micro ℕ
ownerless = record settings { market = record settings.market { maker_owner_pubkey = 0 } }

settings_pass : validate_config blank settings ≡ valid
unfolding validate_config
settings_pass = refl

ownerless_fails : validate_config blank ownerless ≡ invalid maker_required
unfolding validate_config
ownerless_fails = refl

abbrev texts : Texts Micro ℕ
texts = record {
  from_str = λ n. some (record { s = n; b = n; a = n });
  parse_f64 = some;
  to_uppercase = λ n. n;
  same_text = λ a b. a == b;
  no_text = blank;
}

validated_no_panic_example :
    ((e : Engine) (r : Reads Micro) → (cycle sdk encoders tt (config false) e r).2 ≢ panicked)
    × ((published : Published Micro) (attempts : List (Bool × Attempt ℕ))
        → (run_new_feed texts settings.feed published 60 attempts ≡ none) ↔ (2 ^ 60 ≤ 60))
validated_no_panic_example =
    validated_no_panic sdk decoding tt texts blank settings (config false) settings_pass refl

-- A configuration without any key that has a default, but for the maker's.
abbrev tables : Tables Micro
tables = record {
  market_pubkey = codes "M";
  maker_keypair_path = some (codes "~/key.json");
  delegate_keypair_path = none;
  maker_owner_pubkey = none;
  rpc_url = codes "https://node";
  ws_url = none;
  binance_symbol = codes "S";
  cross_symbol = none;
  binance_ws_url = none;
  staleness_timeout_ms = none;
  spread_levels_bps = 5000000 ∷ [];
  inventory_pct = none;
  vol_window = none;
  vol_baseline_bps = none;
  vol_max_multiplier = none;
  heartbeat_interval_ms = none;
  priority_fee_microlamports = none;
  shadow_mode = none;
  log_level = none;
}

with_defaults-AreValid_example :
    (validate_config is_empty (with_defaults tables) ≡ valid) ↔ AreValid tables
with_defaults-AreValid_example = with_defaults-AreValid tables (record {
  eighty_positive = refl;
  eighty_at_most = refl;
  five_positive = refl;
  five_from_one = refl;
})
