-- ===== src/System/Numbers.antt =====
-- Sequence numbers in the running bot: those it has stored or read, and those it writes, against the
-- number of the book on chain.
use archer_market_maker.Base.{ℕ, ◌+◌, ◌^◌, ◌≤◌, ◌<◌, map, arith, All, All-mono}
use mathlib.Core.Path.{subst}
use archer_market_maker.Float.{F64}
use archer_market_maker.Sdk.{Decoding, sequence_of}
use archer_market_maker.Fills.{BookState}
use archer_market_maker.Engine.State.{price, cancelled, heartbeat}
use archer_market_maker.Engine.{cycle}
use archer_market_maker.Engine.Sends.{sent_writes}
use archer_market_maker.Engine.Accepted.{max_sequence_jump, quote_cycle-IsAccepted}
use archer_market_maker.Engine.Guards.{IsQuoting, quoting_calm, cycle_elim}
use archer_market_maker.System.Within.{
  Within, Within-mono, do_store-sequence, load-sequence, logs_stores-Within, account_stores-Within,
  text_stores-Within,
}
use archer_market_maker.System.Bot.{Setup, Bot, boot}
use archer_market_maker.System.Step.{
  Step, feed_connected, feed_dropped, feed_text, feed_store, logs_seen, account_seen, fills_store,
  chain_moves, send_completes, send_dropped, awaited_completes, awaited_dropped, engine_wakes,
  engine_loads, engine_acts, Reach, here, then_step,
}

module _ {F Text Hash Market Quotes Pubkey Instruction Transaction Signature S : Type 0}
    ⦃fl : F64 F⦄
    (setup : Setup F Text Hash Market Quotes Pubkey Instruction Transaction Signature S) where
  open setup use {sdk, enc, market, engine_config, codecs, texts, feed_settings}

  -- No number that the bot has stored, will store or has read is ahead of the chain.
  abbrev IsBehind : Bot F Instruction Transaction Signature → Type 0
  IsBehind b =
      (b.shared.onchain_sequence_number ≤ b.chain_seq)
      × (b.reads.onchain_sequence_number ≤ b.chain_seq)
      × All (Within b.chain_seq) b.feed_todo
      × All (Within b.chain_seq) b.fills_todo

  Step-IsBehind :
      {b b' : Bot F Instruction Transaction Signature} → Step setup b b' → IsBehind b → IsBehind b'
  Step-IsBehind (feed_connected b tracker started none_left) (stored, read, feed, fills) =
      (stored, read, (tt, tt), fills)
  Step-IsBehind (feed_dropped b tracker started none_left) (stored, read, feed, fills) =
      (stored, read, (tt, tt), fills)
  Step-IsBehind (feed_text b tracker txt now_us l after started none_left e)
        (stored, read, feed, fills) =
      (
        stored,
        read,
        text_stores-Within texts feed_settings b.chain_seq b.legs txt now_us after,
        fills,
      )
  Step-IsBehind (feed_store b st rest e) (stored, read, feed, fills) =
      let (now, later) = subst (All (Within b.chain_seq)) e feed in
      ((do_store-sequence b.chain_seq b.shared st now stored).1, read, later, fills)
  Step-IsBehind (logs_seen b resp none_left) (stored, read, feed, fills) =
      (stored, read, feed, logs_stores-Within F codecs b.chain_seq resp)
  Step-IsBehind (account_seen b update none_left seen) (stored, read, feed, fills) =
      (stored, read, feed, account_stores-Within F codecs b.chain_seq update seen)
  Step-IsBehind (fills_store b st rest e) (stored, read, feed, fills) =
      let (now, later) = subst (All (Within b.chain_seq)) e fills in
      ((do_store-sequence b.chain_seq b.shared st now stored).1, read, feed, later)
  Step-IsBehind (chain_moves b n le) (stored, read, feed, fills) = (
    omega arith,
    omega arith,
    All-mono (Within-mono b.chain_seq n le) b.feed_todo feed,
    All-mono (Within-mono b.chain_seq n le) b.fills_todo fills,
  )
  Step-IsBehind (send_completes b before behind task f cache e) h = h
  Step-IsBehind (send_dropped b before behind task f cache reached e) h = h
  Step-IsBehind (awaited_completes b ixs priority cu rest f cache e) h = h
  Step-IsBehind (awaited_dropped b ixs priority cu rest f cache reached e) h = h
  Step-IsBehind (engine_wakes b price at goes may) h = h
  Step-IsBehind (engine_wakes b cancelled at goes may) h = h
  Step-IsBehind (engine_wakes b heartbeat at goes may) h = h
  Step-IsBehind (engine_loads b o) (stored, read, feed, fills) = (
    stored,
    load-sequence (λ n. n ≤ b.chain_seq) b.point b.shared o b.reads stored read,
    feed,
    fills,
  )
  Step-IsBehind (engine_acts b at goes) h = h

  Reach-IsBehind :
      {first b : Bot F Instruction Transaction Signature}
      → IsBehind first
      → Reach setup first b
      → IsBehind b
  Reach-IsBehind h here = h
  Reach-IsBehind h (then_step r s) = Step-IsBehind s (Reach-IsBehind h r)

  Step-raises :
      {b b' : Bot F Instruction Transaction Signature}
      → Step setup b b'
      → IsBehind b
      → b.shared.onchain_sequence_number ≤ b'.shared.onchain_sequence_number
  Step-raises (feed_connected b tracker started none_left) h = omega arith
  Step-raises (feed_dropped b tracker started none_left) h = omega arith
  Step-raises (feed_text b tracker txt now_us l after started none_left e) h = omega arith
  Step-raises (feed_store b st rest e) (stored, read, feed, fills) =
      let now = (subst (All (Within b.chain_seq)) e feed).0 in
      (do_store-sequence b.chain_seq b.shared st now stored).0
  Step-raises (logs_seen b resp none_left) h = omega arith
  Step-raises (account_seen b update none_left seen) h = omega arith
  Step-raises (fills_store b st rest e) (stored, read, feed, fills) =
      let now = (subst (All (Within b.chain_seq)) e fills).0 in
      (do_store-sequence b.chain_seq b.shared st now stored).0
  Step-raises (chain_moves b n le) h = omega arith
  Step-raises (send_completes b before behind task f cache e) h = omega arith
  Step-raises (send_dropped b before behind task f cache reached e) h = omega arith
  Step-raises (awaited_completes b ixs priority cu rest f cache e) h = omega arith
  Step-raises (awaited_dropped b ixs priority cu rest f cache reached e) h = omega arith
  Step-raises (engine_wakes b price at goes may) h = omega arith
  Step-raises (engine_wakes b cancelled at goes may) h = omega arith
  Step-raises (engine_wakes b heartbeat at goes may) h = omega arith
  Step-raises (engine_loads b o) h = omega arith
  Step-raises (engine_acts b at goes) h = omega arith

  module _ (b : Bot F Instruction Transaction Signature) (dec : Decoding setup.enc) where
    abbrev IsWithin : ℕ → Type 0
    IsWithin n = (b.reads.onchain_sequence_number < n) × (n ≤ b.chain_seq + max_sequence_jump)

    written-IsWithin :
        IsQuoting engine_config.staleness_us b.reads
        → b.reads.onchain_sequence_number ≤ b.chain_seq
        → b.chain_seq + 5000 < 2 ^ 64
        → All IsWithin (
            map sequence_of
              (sent_writes dec (cycle sdk enc market engine_config b.engine b.reads).1))
    written-IsWithin q read small =
        cycle_elim sdk enc market engine_config
          (λ out. All IsWithin (map sequence_of (sent_writes dec out.1))) b.engine b.reads
          (λ e. absurd (q.awake e)) (λ _. tt) (λ _. tt)
          (λ emergency flow _. absurd (quoting_calm engine_config.staleness_us b.reads q emergency))
          (λ is_heartbeat _.
            All-mono (λ n (above, below). (above, omega arith)) _
              (quote_cycle-IsAccepted sdk dec market engine_config b.engine b.reads is_heartbeat
                (omega arith)))

  -- However the tasks of a running bot interleave, and whoever else writes the book, the sequence
  -- number in the shared state is never ahead of the chain, and no step lowers it. And where the
  -- engine acts on a reading that passes all its guards, every number that it writes is above the
  -- book's number as it read it, and at most 65 535 above the number on chain at that moment, so
  -- none jumps further than the program takes.
  pub numbers_within_jump :
      (vol_window_secs : ℕ) (book_state : BookState) (b : Bot F Instruction Transaction Signature)
      (dec : Decoding setup.enc)
      → Reach setup (boot vol_window_secs book_state) b
      → b.chain_seq + 5000 < 2 ^ 64
      → (b.shared.onchain_sequence_number ≤ b.chain_seq)
        × ((b' : Bot F Instruction Transaction Signature)
            → Step setup b b'
            → b.shared.onchain_sequence_number ≤ b'.shared.onchain_sequence_number)
        × (IsQuoting engine_config.staleness_us b.reads
            → All
                (λ n. (b.reads.onchain_sequence_number < n) × (n ≤ b.chain_seq + max_sequence_jump))
                (map sequence_of
                  (sent_writes dec (cycle sdk enc market engine_config b.engine b.reads).1)))
  numbers_within_jump vol_window_secs book_state b dec r small =
      let (stored, read, feed, fills) = Reach-IsBehind ((omega arith, omega arith, tt, tt)) r in
      (
        stored,
        λ b' step. Step-raises step (stored, read, feed, fills),
        λ q. written-IsWithin b dec q read small,
      )
