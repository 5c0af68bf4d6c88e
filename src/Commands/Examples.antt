-- ===== src/Commands/Examples.antt =====
-- The commands on a concrete chain: keys are numbers, and a key file's name is its key.
use archer_market_maker.Base.{
  ℕ, ◌+◌, ◌≡◌, refl, ◌⊎◌, List, [], ◌∷◌, none, some, Bool, true, false, arith, ltb, length, ◌==◌,
  if◌then◌else◌,
}
use archer_market_maker.Base.Text.{Text, codes}
use archer_market_maker.Base.Results.{ok}
use archer_market_maker.Base.Keys.{nat_eq}
use archer_market_maker.Float.{Micro, micro}
use archer_market_maker.Sdk.{Write, update_mid}
use archer_market_maker.Concrete.{encoders, strategy}
use archer_market_maker.Client
use archer_market_maker.Client.{send_instructions, get_token_symbols, Account, Mints}
use archer_market_maker.Config.{MmConfig}
use archer_market_maker.Config.Loading.{load_config}
use archer_market_maker.Commands.Chain.{
  World, Builders, Connection, MakerBook, MarketConfig, MarketStateHeader,
}
use archer_market_maker.Commands.{Report, clear_ix, load_keypair, opened, configuration}
use archer_market_maker.Commands.Withdraw.{
  quote_balances, withdraw_ix, withdraw_instructions, cmd_withdraw,
}
use archer_market_maker.Commands.Withdraw.Plan.{IsResting, withdraw_instructions_all}
use archer_market_maker.Commands.Accepted.{IsWithdrawn, cmd_withdraw-IsWithdrawn}
use archer_market_maker.Commands.Run.{
  wait_for_feed, resolve_run_identity, Started, engine_config_of, initial_state, cmd_run,
}
use archer_market_maker.Fills.Endpoint.{ws_url_from_rpc}
use archer_market_maker.System.Trace.{shadowed, hidden, hidden-Reach}
use archer_market_maker.Commands.Run.Shadow.{shadow_run_sends_nothing}
use archer_market_maker.Commands.Run.Start.{Ends, wait_for_feed-Ends}
use archer_market_maker.Commands.Run.Identity.{IsSigner, IsOwner, resolve_run_identity-IsOwner}

-- 30 base lots, 10 of them locked; 50 quote lots, 20 of them locked once the reprice is settled.
abbrev pub book : MakerBook ℕ
book = record {
  base_free = 20;
  base_locked = 10;
  quote_free = 45;
  quote_locked = 5;
  mid_price_ticks = 101;
  mid_at_last_sync = 100;
  last_updated_sequence_number = 41;
  kind = 0;
  maker_is_archer_account = 0;
  status = 0;
  delegate = 0;
  expiry_in_slots = 0;
  last_updated_slot = 4;
  is_stale_at = λ slot. false;
  projected_quote_balances = λ fee. some (20, 30);
  is_auction_eligible = λ slot restart fee. true;
  best_bid_price = some 99;
  best_ask_price = none;
}

abbrev cfg : MarketConfig ℕ Micro
cfg = record {
  base_mint = 1;
  quote_mint = 2;
  base_token_program = 3;
  quote_token_program = 4;
  base_vault = 5;
  quote_vault = 6;
  maker_fee_ppm = 7;
  lots_to_base_factor = 1000;
  lots_to_quote_factor = 1000;
  ticks_to_price_factor = 1000;
}

abbrev pub header : ℕ → Bool → MarketStateHeader ℕ
header status is_active = record {
  status = status;
  is_active = is_active;
  base_mint = 1;
  quote_mint = 2;
  maker_fee_ppm = 7;
  taker_fee_ppm = 9;
}

abbrev builders : Builders ℕ (Write ℕ ℕ) Micro ℕ
builders = record {
  encoders = encoders;
  maker_kind_mm = 0;
  maker_kind_lo = 1;
  default_pubkey = 0;
  quote_sync_unfundable = λ b c. false;
  get_associated_token_address = λ owner mint program. owner + mint;
  build_initialize_maker_book_ix = λ maker market kind. update_mid maker market kind 0;
  build_set_delegate_ix = λ maker market delegate. update_mid maker market delegate 1;
  build_update_expiry_in_slots_ix = λ maker market slots. update_mid maker market slots 2;
  build_deposit_ix = λ maker market base quote b q c. some (update_mid maker market base quote);
  create_maker_withdraw_funds_instruction =
      λ base quote accounts. update_mid accounts.maker accounts.market base quote;
}

-- The node refuses once, then accepts.
abbrev connection : Connection ℕ ℕ (Write ℕ ℕ) ℕ (List (Write ℕ ℕ) × ℕ) ℕ ℕ Micro
connection = record {
  get_market_config = λ market. some cfg;
  get_market_header = λ market. some (header 0 true);
  get_maker_book = λ market maker. some book;
  get_maker_registry = λ market. none;
  get_slot = some 5;
  get_last_restart_slot = some 0;
  node = λ keypair. record {
    set_compute_unit_limit = λ n. update_mid 0 0 n 3;
    set_compute_unit_price = λ n. update_mid 0 0 n 4;
    new_signed_with_payer = λ instructions hash. (instructions, hash);
    latest_blockhash = some 8;
    send_and_confirm = λ n tx. if ltb n 1 then Client.err n else Client.ok 77;
  };
}

abbrev settings : MmConfig Micro Text
settings = record {
  market = record {
    market_pubkey = codes "M";
    maker_keypair_path = codes "k";
    delegate_keypair_path = codes "dd";
    maker_owner_pubkey = codes "";
  };
  connection = record { rpc_url = codes "https://node"; ws_url = codes "" };
  feed = record {
    binance_symbol = codes "S";
    cross_symbol = codes "";
    binance_ws_url = codes "w";
    staleness_timeout_ms = 5000;
  };
  strategy = (strategy false).config;
  execution = record {
    heartbeat_interval_ms = 100;
    priority_fee_microlamports = 100;
    shadow_mode = false;
  };
  monitoring = record { log_level = codes "info" };
}

abbrev pub world : World ℕ ℕ (Write ℕ ℕ) ℕ (List (Write ℕ ℕ) × ℕ) ℕ ℕ Micro ℕ
world = record {
  files = record {
    read_to_string = λ path. some path;
    from_str = λ contents. some settings;
    partial_from_str = λ contents. none;
    home = none;
  };
  read_keypair_file = λ path. some (length path);
  pubkey = λ keypair. keypair;
  parse_pubkey = λ text. some (length text);
  to_lowercase = λ text. text;
  builders = builders;
  connect = λ url. connection;
}

withdraw_instructions_all_example :
    ((withdraw_instructions world 1 1 cfg book
        ≡ clear_ix world 1 1 book ∷ withdraw_ix world 1 1 cfg 30 50 ∷ [])
      × IsResting (quote_balances 7 book).0 book)
    ⊎ ((withdraw_instructions world 1 1 cfg book ≡ withdraw_ix world 1 1 cfg 30 50 ∷ [])
        × (¬ IsResting (quote_balances 7 book).0 book)
        × (book.base_free + book.base_locked ≡ book.base_free)
        × (book.quote_free + book.quote_locked ≡ (quote_balances 7 book).1))
withdraw_instructions_all_example =
    withdraw_instructions_all world 1 1 cfg book
      (record { base_fits = omega arith; quote_fits = omega arith; settles = refl }) (omega arith)

abbrev withdrawn_77 : Report ℕ Micro ℕ
withdrawn_77 = Report.withdrawn 30000 50000 77

withdraw_runs : cmd_withdraw world (codes "c") ≡ ok withdrawn_77
unfolding cmd_withdraw load_config send_instructions
withdraw_runs = refl

cmd_withdraw-IsWithdrawn_example :
    (s : MmConfig Micro Text) × (keypair : ℕ) × (market : ℕ) × (c : MarketConfig ℕ Micro)
    × (b : MakerBook ℕ) × (opened world (codes "c") ≡ ok (s, keypair, market))
    × (connection.get_market_config market ≡ some c)
    × (connection.get_maker_book market keypair ≡ some b)
    × IsWithdrawn world s.connection.rpc_url keypair market c b withdrawn_77
cmd_withdraw-IsWithdrawn_example =
    cmd_withdraw-IsWithdrawn world (codes "c") withdrawn_77 withdraw_runs

-- The price is there at the fourth poll.
abbrev mid_at : ℕ → Micro
mid_at n = if ltb n 3 then 0 else 100000000

wait_for_feed-Ends_example : Ends mid_at ℕ ℕ 0 (wait_for_feed mid_at 151 0 0)
wait_for_feed-Ends_example = wait_for_feed-Ends mid_at ℕ ℕ

-- The delegate signs for the maker.
identity_runs : resolve_run_identity world settings.market ≡ ok (2, 1)
unfolding resolve_run_identity load_keypair
identity_runs = refl

resolve_run_identity-IsOwner_example :
    IsSigner world settings.market 2 × IsOwner world settings.market 1
resolve_run_identity-IsOwner_example =
    resolve_run_identity-IsOwner world settings.market 2 1 identity_runs

-- `run --shadow` on this chain.
abbrev run_tasks : Started ℕ ℕ Micro
run_tasks = record {
  signer = 2;
  maker = 1;
  market = 1;
  sdk_config = cfg;
  maker_book = encoders.derive_maker_book 1 1;
  ws_url = ws_url_from_rpc (codes "https://node");
  engine_config = engine_config_of settings 1 2 1 (0 == builders.maker_kind_lo);
  tx_sender = record { priority_fee = 100; shadow_mode = true };
  feed_settings = settings.feed;
  vol_window = 60;
  initial_sequence_number = 41;
  state = initial_state book (builders.quote_sync_unfundable book cfg);
  polls = 3;
}

run_starts : cmd_run world (codes "c") true mid_at ≡ ok run_tasks
unfolding cmd_run load_config configuration load_keypair
run_starts = refl

shadow_run_sends_nothing_example :
    ((hidden 60 run_tasks.state).tasks ≡ [])
    × ((hidden 60 run_tasks.state).submitted ≡ [])
    × ((hidden 60 run_tasks.state).shared.consecutive_failures ≡ 0)
shadow_run_sends_nothing_example =
    shadow_run_sends_nothing world (codes "c") mid_at run_tasks shadowed (hidden 60 run_tasks.state)
      run_starts refl (hidden-Reach 60 run_tasks.state)
