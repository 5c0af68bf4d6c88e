-- ===== src/Commands/Run.antt =====
-- src/main.rs: how `run` starts: who signs for whom, the shared state, and the wait for the price
-- feed, up to the start of the engine. The feed is there as the mid price at each poll.
pub mod Identity
pub mod Start
pub mod Shadow
use archer_market_maker.Base.{
  ℕ, zero, suc, ◌+◌, Option, none, some, Bool, true, false, not, ltb, ◌==◌, is_empty, if◌then◌else◌,
  add_u64, mul_u64,
}
use archer_market_maker.Base.Text.{Text}
use archer_market_maker.Base.Results.{Result, ok, err, ◌>>=◌, context}
use archer_market_maker.Float.{F64}
use archer_market_maker.Config.{MarketSettings, ExecutionSettings, MmConfig}
use archer_market_maker.Feed.State.{FeedSettings}
use archer_market_maker.Tx.{TxSender}
use archer_market_maker.Engine.State.{EngineConfig}
use archer_market_maker.Fills.{BookState}
use archer_market_maker.Fills.Endpoint.{ws_url_from_rpc}
use archer_market_maker.Commands.Chain.{
  World, MakerBook, MarketConfig, Failure, pubkey_error, no_maker, no_signer, market_error,
  book_error, archer_account, feed_timeout,
}
use archer_market_maker.Commands.{Outcome, configuration, load_keypair}

-- The loop that waits for a first price, after `polls` polls and `waited` milliseconds: the polls
-- that it took, or an error. The outer `none` is want of fuel.
module _ {Error Signature F : Type 0} ⦃fl : F64 F⦄ where
  pub wait_for_feed :
      (mid_at : ℕ → F) (fuel polls waited : ℕ) → Option (Result (Failure Error Signature) ℕ)
  wait_for_feed mid_at zero polls waited = none
  wait_for_feed mid_at (suc fuel) polls waited =
      let rest = wait_for_feed mid_at fuel (polls + 1) (waited + 100) in
      if fl.le (mid_at polls) (fl.of_u64 0)
      then if ltb 15000 (waited + 100) then some (err feed_timeout) else rest
      else some (ok polls)

-- What `SharedState::new` and the stores after it leave in the fields of the book.
pub initial_state : {Pubkey : Type 0} → MakerBook Pubkey → (unfundable : Bool) → BookState
initial_state book unfundable = record {
  fills_count = 0;
  fill_base_lots = 0;
  fill_quote_lots = 0;
  base_total_lots = add_u64 book.base_free book.base_locked;
  quote_total_lots = add_u64 book.quote_free book.quote_locked;
  cached_mid_ticks = book.mid_price_ticks;
  onchain_sequence_number = book.last_updated_sequence_number;
  book_resyncs = 0;
  quote_unfundable = unfundable;
}

-- What `run_engine` makes of its configuration before the loop.
pub engine_config_of :
    {F Pubkey : Type 0}
    → MmConfig F Text
    → (maker signer market : Pubkey) (is_lo : Bool) → EngineConfig F Pubkey
engine_config_of settings maker signer market is_lo = record {
  strategy = record { config = settings.strategy; is_lo = is_lo };
  authority = record { maker = maker; signer = signer };
  market_pubkey = market;
  staleness_us = mul_u64 settings.feed.staleness_timeout_ms 1000;
}

-- The sender that `cmd_run` makes, once `--shadow` is taken into account.
pub tx_sender_of : ExecutionSettings → (shadow : Bool) → TxSender
tx_sender_of execution shadow = record {
  priority_fee = execution.priority_fee_microlamports;
  shadow_mode = if shadow then true else execution.shadow_mode;
}

-- What the tasks are started with.
pub record Started (Pubkey Keypair F : Type 0) : Type 0 where
  pub signer : Keypair
  pub maker : Pubkey
  pub market : Pubkey
  pub sdk_config : MarketConfig Pubkey F
  pub maker_book : Pubkey
  pub ws_url : Text
  pub engine_config : EngineConfig F Pubkey
  pub tx_sender : TxSender
  pub feed_settings : FeedSettings Text
  pub vol_window : ℕ
  pub initial_sequence_number : ℕ
  pub state : BookState
  pub polls : ℕ

module _ {Pubkey Keypair Instruction Hash Transaction Error Signature F S : Type 0} ⦃fl : F64 F⦄
    (world : World Pubkey Keypair Instruction Hash Transaction Error Signature F S) where
  open world use {pubkey, parse_pubkey, builders, connect}

  -- The maker's key, if a path to it is set.
  pub owner_keypair : MarketSettings Text → Outcome world (Option Keypair)
  owner_keypair m =
      if is_empty m.maker_keypair_path
      then ok none
      else (do keypair ← load_keypair world m.maker_keypair_path; ok (some keypair))

  pub owner_pubkey : MarketSettings Text → Option Keypair → Outcome world Pubkey
  owner_pubkey m (some keypair) = ok (pubkey keypair)
  owner_pubkey m none =
      if is_empty m.maker_owner_pubkey
      then err no_maker
      else context pubkey_error (parse_pubkey m.maker_owner_pubkey)

  pub signer_of : MarketSettings Text → Option Keypair → Outcome world Keypair
  signer_of m owner =
      if is_empty m.delegate_keypair_path
      then context no_signer owner
      else load_keypair world m.delegate_keypair_path

  unfoldable pub resolve_run_identity : MarketSettings Text → Outcome world (Keypair × Pubkey)
  unfolding owner_keypair owner_pubkey signer_of
  resolve_run_identity m = do
    keypair ← owner_keypair m
    owner ← owner_pubkey m keypair
    signer ← signer_of m keypair
    ok (signer, owner)

  -- The end of the wait, with fuel for 151 polls.
  pub first_poll : (mid_at : ℕ → F) → Outcome world ℕ
  unfolding wait_for_feed
  first_poll mid_at = elim (wait_for_feed mid_at 151 0 0) [
    | none ↦ err feed_timeout
    | some result ↦ result
  ]

  -- `cmd_run`, up to the start of the engine.
  unfoldable pub cmd_run :
      Text → (shadow : Bool) → (mid_at : ℕ → F) → Outcome world (Started Pubkey Keypair F)
  unfolding resolve_run_identity initial_state first_poll engine_config_of tx_sender_of
  cmd_run config_path shadow mid_at = do
    settings ← configuration world config_path
    (signer, maker) ← resolve_run_identity settings.market
    market ← context pubkey_error (parse_pubkey settings.market.market_pubkey)
    let url = settings.connection.rpc_url
    cfg ← context market_error ((connect url).get_market_config market)
    header ← context market_error ((connect url).get_market_header market)
    book ← context book_error ((connect url).get_maker_book market maker)
    if not (book.maker_is_archer_account == 0) then err archer_account else do
      polls ← first_poll mid_at
      let ws_url = settings.connection.ws_url
      ok (record {
        signer = signer;
        maker = maker;
        market = market;
        sdk_config = cfg;
        maker_book = builders.encoders.derive_maker_book market maker;
        ws_url = if is_empty ws_url then ws_url_from_rpc url else ws_url;
        engine_config =
            engine_config_of settings maker (pubkey signer) market
              (book.kind == builders.maker_kind_lo);
        tx_sender = tx_sender_of settings.execution shadow;
        feed_settings = settings.feed;
        vol_window = settings.strategy.vol_window;
        initial_sequence_number = book.last_updated_sequence_number;
        state = initial_state book (builders.quote_sync_unfundable book cfg);
        polls = polls;
      })
