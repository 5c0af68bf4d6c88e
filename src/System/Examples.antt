-- ===== src/System/Examples.antt =====
-- What the bot of System/Trace comes to.
use archer_market_maker.Base.{
  ℕ, ◌+◌, ◌≡◌, ◌≤◌, ◌<◌, ◌↔◌, List, ◌++◌, Option, true, false, arith, All, map,
}
use archer_market_maker.Float.{micro}
use archer_market_maker.Sdk.{sequence_of}
use archer_market_maker.Concrete.{encoders, decoding, sdk, config}
use archer_market_maker.Tx.Failures.{EndsInFailures}
use archer_market_maker.Engine.{cycle}
use archer_market_maker.Engine.Sends.{sent_writes, kinds, KeepsMidZero}
use archer_market_maker.Engine.Order.{IsOrdered}
use archer_market_maker.Engine.Guards.{IsQuoting}
use archer_market_maker.Engine.Accepted.{max_sequence_jump}
use archer_market_maker.System.Refinement.{sent_in_order}
use archer_market_maker.System.Numbers.{numbers_within_jump}
use archer_market_maker.System.Failing.{failures_in_a_row}
use archer_market_maker.System.Step.{Step}
use archer_market_maker.System.Trace.{
  setup, book, ABot, full, acted, failed, full-Reach, acted-Reach, failed-Reach,
}

sent_in_order_example :
    IsOrdered false (kinds decoding acted.sent)
    × (false ≡ true → All KeepsMidZero (sent_writes decoding acted.sent))
sent_in_order_example = sent_in_order setup decoding 2 book acted acted-Reach

numbers_within_jump_example :
    (full.shared.onchain_sequence_number ≤ 44)
    × ((b' : ABot)
        → Step setup full b'
        → full.shared.onchain_sequence_number ≤ b'.shared.onchain_sequence_number)
    × (IsQuoting 5000000 full.reads
        → All
            (λ n. (full.reads.onchain_sequence_number < n) × (n ≤ 44 + max_sequence_jump))
            (map sequence_of (
              sent_writes decoding
                (cycle sdk encoders tt (config false) full.engine full.reads).1)))
numbers_within_jump_example =
    numbers_within_jump setup 2 book full decoding full-Reach (omega arith)

failures_in_a_row_example :
    ((n : ℕ) → (n ≤ failed.shared.consecutive_failures) ↔ EndsInFailures n failed.results)
    × (10 ≤ failed.reads.consecutive_failures
        → (before later : List (Option ℕ)) × (failed.results ≡ before ++ later)
          × EndsInFailures 10 before)
failures_in_a_row_example = failures_in_a_row setup 2 book failed failed-Reach (omega arith)
