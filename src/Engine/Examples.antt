-- ===== src/Engine/Examples.antt =====
-- Cycles of the engine on concrete inputs.
use archer_market_maker.Base.{
  some, inl, length, ℕ, ◌≤◌, ◌≡◌, refl, ◌≢◌, ◌⊎◌, inr, [], ◌∷◌, map, true, false, arith, All,
}
use archer_market_maker.Float.{Micro, micro}
use archer_market_maker.Sdk.{sequence_of}
use archer_market_maker.Quote.{clear_book_ix, update_mid_price_ix}
use archer_market_maker.Strategy.{update_mid_only, compute}
use archer_market_maker.Tx.{normal, emergency}
use archer_market_maker.Concrete.{encoders, decoding, sdk, config, reads, stale_reads}
use archer_market_maker.Engine.State.{
  Engine, Reads, cancelled, fired, awaited, again, panicked, count_cycle, cu_clear_book,
  cu_mid_only,
}
use archer_market_maker.Engine.Sends.{sent_writes, kinds, clears}
use archer_market_maker.Engine.Guards.{IsQuoting}
use archer_market_maker.Engine.Numbering.{Numbered, IsBase, outcome, cycle_numbers}
use archer_market_maker.Engine.Accepted.{IsAccepted, quote_cycle-IsAccepted}
use archer_market_maker.Engine.Shutdown.{stopped_cases}
use archer_market_maker.Engine.Drift.{Alarms, emergencies_drift}
use archer_market_maker.Engine.Resend.{MovesMid, Asks, mid_moves_in_time}
use archer_market_maker.Engine.Reprice.{quotes_only_when_fresh, WantsMid, act_mid}
use archer_market_maker.Engine.{decision_of, start, act, quote_cycle, cycle, run}

-- The engine of a book at 41, before its first cycle.
abbrev ready : Engine
ready = start 41

-- Somebody cancels during the wait.
abbrev cancelled_reads : Reads Micro
cancelled_reads = record reads { wake = cancelled }

cycle_numbers_example :
    (base : ℕ) × IsBase sdk decoding tt (config false) ready reads base
    × Numbered decoding
        (config false)
        base
        (outcome sdk decoding tt (config false) (cycle sdk encoders tt (config false) ready reads))
cycle_numbers_example =
    cycle_numbers sdk decoding tt (config false) ready reads (omega arith) (omega arith)

quote_cycle-IsAccepted_example : All (IsAccepted 41) (
    map sequence_of
      (sent_writes decoding (quote_cycle sdk encoders tt (config false) ready reads false).1))
quote_cycle-IsAccepted_example =
    quote_cycle-IsAccepted sdk decoding tt (config false) ready reads false (omega arith)

stops : (cycle sdk encoders tt (config false) ready cancelled_reads).2 ≢ again
unfolding cycle
stops e = cc

stopped_cases_example :
    let (e', sends, flow) = cycle sdk encoders tt (config false) ready cancelled_reads in
    let ix = clear_book_ix encoders (config false).authority 3 42 in
    ((cancelled_reads.wake ≡ cancelled)
      × (sends ≡ awaited (ix ∷ []) emergency cu_clear_book ∷ [])
      × (e'.engine_alive ≡ false))
    ⊎ ((10 ≤ 0)
        × (cancelled_reads.cancelled_in_sleep ≡ true)
        × (sends ≡ fired (ix ∷ []) emergency cu_clear_book ∷ [])
        × (e'.engine_alive ≡ true))
    ⊎ (IsQuoting 5000000 cancelled_reads × (flow ≡ panicked))
stopped_cases_example = stopped_cases sdk decoding tt (config false) ready cancelled_reads stops

quotes_only_when_fresh_example :
    IsQuoting 5000000 stale_reads
    ⊎ All
        (λ k. k ≡ clears)
        (kinds decoding (cycle sdk encoders tt (config false) ready stale_reads).1)
quotes_only_when_fresh_example =
    quotes_only_when_fresh sdk decoding tt (config false) ready stale_reads

act_mid_example :
    let (e', sends) =
      act {S = ℕ} encoders (config false) ready reads false (update_mid_only 100000) in
    let ix = update_mid_price_ix encoders (config false).authority 3 100000 42 in
    (WantsMid encoders (config false) ready reads 100000
      × (sends ≡ fired (ix ∷ []) normal cu_mid_only ∷ [])
      × (e'.last_sent_mid_ticks ≡ 100000)
      × (e'.last_sent_at_us ≡ 9000100)
      × (e'.local_seq ≡ 42))
    ⊎ ((¬ WantsMid encoders (config false) ready reads 100000)
        × (sends ≡ [])
        × (e' ≡ count_cycle ready))
act_mid_example = act_mid encoders (config false) ready reads false 100000

-- Two cycles on a stale price, after the counter has run 65 533 past a book at 41.
emergencies_drift_example :
    let e = record ready { local_seq = 65574 } in
    let e' = (run sdk encoders tt (config false) e (stale_reads ∷ stale_reads ∷ [])).0 in
    (e'.local_seq ≡ 65576)
    × (length (sent_writes decoding (cycle sdk encoders tt (config false) e' stale_reads).1) ≡ 1)
    × All
        (λ w. ¬ IsAccepted 41 (sequence_of w))
        (sent_writes decoding (cycle sdk encoders tt (config false) e' stale_reads).1)
emergencies_drift_example =
    let now : Alarms sdk decoding tt (config false) stale_reads =
      (λ e. cc, refl, refl, inr (omega arith, omega arith)) in
    emergencies_drift sdk decoding tt (config false) (record ready { local_seq = 65574 })
      (stale_reads ∷ stale_reads ∷ []) stale_reads 41 (now, (now, tt)) now (omega arith)
      (omega arith)

-- The structure of the quotes is on record, and the mid of 100000 was sent at eight seconds.
abbrev standing : Engine
standing = record ready {
  needs_initial_book = false;
  last_structure_hash = 18400197166751498560;
  last_sent_mid_ticks = 100000;
  last_sent_at_us = 8000000;
}

-- A reading as before, but for the time at which it ends.
abbrev reads_at : ℕ → Reads Micro
reads_at now_us = record reads { now_us_at_send = now_us }

keeps_mid :
    decision_of sdk tt (config false) standing reads ≡ some (update_mid_only 100000, 12000000)
unfolding decision_of compute
keeps_mid = refl

Asks-mid : (now_us : ℕ) → Asks sdk encoders tt (config false) 100000 standing (reads_at now_us)
unfolding decision_of
Asks-mid now_us = (
  record {
    awake = λ e. cc;
    going = refl;
    landing = omega arith;
    fresh = inl (omega arith);
    positive = refl;
    finite = refl;
  },
  (12000000, keeps_mid),
  λ e. omega (arith, e),
)

mid_moves_in_time_example :
    MovesMid sdk encoders tt
      (config false)
      100000
      (run sdk encoders tt
        (config false)
        standing
        (reads_at 9000000 ∷ reads_at 10000000 ∷ stale_reads ∷ [])).1
mid_moves_in_time_example =
    mid_moves_in_time sdk encoders tt (config false) 100000 standing (reads_at 9000000 ∷ [])
      (reads_at 10000000) (stale_reads ∷ []) (Asks-mid 9000000, tt) (Asks-mid 10000000)
      (inr (omega arith))
