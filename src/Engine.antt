-- ===== src/Engine.antt =====
-- src/engine.rs: the engine as a function from one cycle to the next. Each load of the shared
-- state and each reading of the clock in a cycle is an input of its own (`Reads`), so an
-- interleaving with the feed, the account stream and the sends is a choice of inputs. The counters
-- in `Engine` are written by the engine alone.
pub mod State
pub mod Sends
pub mod Numbering
pub mod Guards
pub mod Accepted
pub mod Order
pub mod LimitOrder
pub mod Shutdown
pub mod Reprice
pub mod Resend
pub mod Drift
mod Examples
use archer_market_maker.Base.{
  ℕ, ◌-◌, List, [], ◌∷◌, ◌++◌, Option, none, some, Bool, true, false, not, ◌&&◌, ◌||◌, ltb, leb,
  ◌==◌, if◌then◌else◌, add_u64, mul_u64,
}
use archer_market_maker.Float.{F64}
use archer_market_maker.Sdk.{BookUpdate, QuoteMath, Encoders}
use archer_market_maker.Quote.{
  BookAuthority, clear_book_ix, update_mid_price_ix, update_instructions,
}
use archer_market_maker.Strategy.{
  Strategy, QuoteDecision, noop, clear_book, update_mid_only, update_full, compute,
}
use archer_market_maker.Tx.{TxPriority, normal, emergency}
use State.{
  cu_clear_book, cu_mid_only, cu_full_update, max_local_seq_lead, mid_resend_after, EngineConfig,
  Engine, Wake, cancelled, price, heartbeat, Reads, Send, fired, awaited, Flow, again, stopped,
  panicked, count_cycle,
}

-- The state before the loop.
abbrev pub start : (initial_sequence_number : ℕ) → Engine
start initial_sequence_number = record {
  last_structure_hash = 0;
  last_sent_mid_ticks = 0;
  last_sent_at_us = 0;
  needs_initial_book = true;
  local_seq = initial_sequence_number;
  engine_alive = true;
  cycles_total = 0;
  updates_sent = 0;
  mid_only_updates = 0;
  book_updates = 0;
  clear_book_sends = 0;
  heartbeat_sends = 0;
}

-- `local_seq` against the sequence number on chain.
pub resync : (local_seq onchain_seq : ℕ) → ℕ
resync local_seq onchain_seq =
    if ltb local_seq onchain_seq
    then onchain_seq
    else (if ltb max_local_seq_lead (local_seq - onchain_seq) then onchain_seq else local_seq)

-- `price_age_us > staleness_us && state.price_timestamp_us > 0`
pub is_stale : {F : Type 0} → (staleness_us : ℕ) → Reads F → Bool
is_stale staleness_us r =
    ltb staleness_us (r.now_us - r.price_timestamp_us) && ltb 0 r.price_timestamp_us_again

-- The same ticks were sent less than `MID_RESEND_AFTER` ago.
pub just_sent : Engine → (new_mid_ticks now_us : ℕ) → Bool
just_sent e new_mid_ticks now_us =
    new_mid_ticks == e.last_sent_mid_ticks && ltb (now_us - e.last_sent_at_us) mid_resend_after

module _ {F Pubkey Instruction S : Type 0} (enc : Encoders Pubkey Instruction S)
    (c : EngineConfig F Pubkey) where
  -- The arm for a cancellation.
  unfoldable pub shut_down : Engine → Engine × List (Send Instruction)
  shut_down e =
      let seq = add_u64 e.local_seq 1 in
      let ix = clear_book_ix enc c.authority c.market_pubkey seq in
      (
        record e { engine_alive = false; local_seq = seq },
        awaited (ix ∷ []) emergency cu_clear_book ∷ [],
      )

  -- What the guards on failures and on staleness have in common.
  pub clear_emergency : Engine → Engine × List (Send Instruction)
  clear_emergency e =
      let seq = add_u64 e.local_seq 1 in
      let ix = clear_book_ix enc c.authority c.market_pubkey seq in
      (
        record e {
          local_seq = seq;
          clear_book_sends = add_u64 e.clear_book_sends 1;
          needs_initial_book = true;
          last_structure_hash = 0;
        },
        fired (ix ∷ []) emergency cu_clear_book ∷ [],
      )

  -- The arm `QuoteDecision::ClearBook`.
  pub clear_normal : Engine → Engine × List (Send Instruction)
  clear_normal e =
      let seq = add_u64 e.local_seq 1 in
      let ix = clear_book_ix enc c.authority c.market_pubkey seq in
      (
        count_cycle (record e {
          local_seq = seq;
          clear_book_sends = add_u64 e.clear_book_sends 1;
          updates_sent = add_u64 e.updates_sent 1;
          last_structure_hash = 0;
          needs_initial_book = true;
        }),
        fired (ix ∷ []) normal cu_clear_book ∷ [],
      )

  -- The arm `QuoteDecision::UpdateMidOnly`, past its two early exits.
  pub send_mid :
      Engine → (is_heartbeat : Bool) (new_mid_ticks now_us : ℕ) → Engine × List (Send Instruction)
  send_mid e is_heartbeat new_mid_ticks now_us =
      let seq = add_u64 e.local_seq 1 in
      let ix = update_mid_price_ix enc c.authority c.market_pubkey new_mid_ticks seq in
      (
        count_cycle (record e {
          local_seq = seq;
          mid_only_updates = add_u64 e.mid_only_updates 1;
          updates_sent = add_u64 e.updates_sent 1;
          heartbeat_sends = if is_heartbeat then add_u64 e.heartbeat_sends 1 else e.heartbeat_sends;
          last_sent_mid_ticks = new_mid_ticks;
          last_sent_at_us = now_us;
        }),
        fired (ix ∷ []) normal cu_mid_only ∷ [],
      )

  -- The arm `QuoteDecision::UpdateFull`.
  pub send_full :
      Engine → BookUpdate S → (structure_hash now_us : ℕ) → Engine × List (Send Instruction)
  send_full e book_update structure_hash now_us =
      let (ixs, last_seq) =
        update_instructions enc c.authority c.market_pubkey book_update (add_u64 e.local_seq 1) in
      (
        count_cycle (record e {
          local_seq = last_seq;
          book_updates = add_u64 e.book_updates 1;
          updates_sent = add_u64 e.updates_sent 1;
          last_sent_mid_ticks = book_update.new_mid_price_ticks;
          last_sent_at_us = now_us;
          last_structure_hash = structure_hash;
          needs_initial_book = false;
        }),
        fired ixs normal cu_full_update ∷ [],
      )

  -- The `match` on the decision.
  pub act :
      Engine → Reads F → (is_heartbeat : Bool) → QuoteDecision S → Engine × List (Send Instruction)
  unfolding clear_normal send_mid send_full just_sent
  act e r is_heartbeat noop = (count_cycle e, [])
  act e r is_heartbeat clear_book = clear_normal e
  act e r is_heartbeat (update_mid_only new_mid_ticks) =
      if new_mid_ticks == r.cached_mid_ticks
      then (count_cycle e, [])
      else (if just_sent e new_mid_ticks r.now_us_at_send
          then (count_cycle e, [])
          else send_mid e is_heartbeat new_mid_ticks r.now_us_at_send)
  act e r is_heartbeat (update_full book_update structure_hash) =
      send_full e book_update structure_hash r.now_us_at_send

module _ {F Market Quotes Pubkey S : Type 0} ⦃fl : F64 F⦄ (sdk : QuoteMath F Market Quotes S) where
  -- `strategy.compute` with the arguments that the engine gives it.
  pub decision_of : Market → EngineConfig F Pubkey → Engine → Reads F → Option (QuoteDecision S × F)
  decision_of market c e r =
      let reference_mid =
        if ltb 0 r.cached_mid_ticks then r.cached_mid_ticks else e.last_sent_mid_ticks in
      let effective_hash = if e.needs_initial_book then 0 else e.last_structure_hash in
      compute sdk c.strategy r.mid_price reference_mid effective_hash market r.base_total_lots
        r.quote_total_lots r.volatility_bps

-- The loop goes on after a cycle only if the cycle says so.
abbrev pub and_then :
    {E Item : Type 0} → E × List Item × Flow → (E → E × List Item × Flow) → E × List Item × Flow
and_then (e, sends, again) rest = let (e', more, flow) = rest e in (e', sends ++ more, flow)
and_then (e, sends, stopped) rest = (e, sends, stopped)
and_then (e, sends, panicked) rest = (e, sends, panicked)

module _ {F Market Quotes Pubkey Instruction S : Type 0} ⦃fl : F64 F⦄
    (sdk : QuoteMath F Market Quotes S) (enc : Encoders Pubkey Instruction S) (market : Market)
    (c : EngineConfig F Pubkey) where
  open fl use {of_u64, le, is_finite}

  -- `match decision`, after a call of `compute` that did not panic.
  pub carry_out :
      Engine
      → Reads F
      → (is_heartbeat : Bool) → Option (QuoteDecision S × F)
      → Engine × List (Send Instruction) × Flow
  unfolding act
  carry_out e r is_heartbeat none = (e, [], panicked)
  carry_out e r is_heartbeat (some (decision, spread)) =
      let (e', sends) = act enc c e r is_heartbeat decision in (e', sends, again)

  -- A cycle past all its guards.
  pub quote_cycle :
      Engine → Reads F → (is_heartbeat : Bool) → Engine × List (Send Instruction) × Flow
  unfolding carry_out decision_of resync
  quote_cycle e r is_heartbeat =
      let e1 = record e { local_seq = resync e.local_seq r.onchain_sequence_number } in
      carry_out e1 r is_heartbeat (decision_of sdk market c e1 r)

  -- A cycle after the wait, unless it was cancelled.
  pub guarded_cycle :
      Engine → Reads F → (is_heartbeat : Bool) → Engine × List (Send Instruction) × Flow
  unfolding clear_emergency quote_cycle is_stale
  guarded_cycle e r is_heartbeat =
      if r.cancelled_after_wake
      then (e, [], again)
      else (if leb 10 r.consecutive_failures
          then (let (e', sends) = clear_emergency enc c e in
              (e', sends, if r.cancelled_in_sleep then stopped else again))
          else (if is_stale c.staleness_us r
              then (let (e', sends) = clear_emergency enc c e in (e', sends, again))
              else (if le r.mid_price (of_u64 0) || not (is_finite r.mid_price)
                  then (count_cycle e, [], again)
                  else quote_cycle e r is_heartbeat)))

  -- The arms of the first `select!`, and what follows each.
  unfoldable pub on_wake : Wake → Engine → Reads F → Engine × List (Send Instruction) × Flow
  unfolding shut_down guarded_cycle
  on_wake cancelled e r = let (e', sends) = shut_down enc c e in (e', sends, stopped)
  on_wake price e r = guarded_cycle e r false
  on_wake heartbeat e r = guarded_cycle e r true

  -- One round of the loop.
  unfoldable pub cycle : Engine → Reads F → Engine × List (Send Instruction) × Flow
  unfolding on_wake
  cycle e r = on_wake r.wake e r

  -- The loop over what successive cycles read, until it ends.
  unfoldable pub run : Engine → List (Reads F) → Engine × List (Send Instruction) × Flow
  unfolding cycle
  run e [] = (e, [], again)
  run e (r ∷ rs) = and_then (cycle e r) λ e1. run e1 rs
