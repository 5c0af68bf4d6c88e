-- ===== src/Fills/Examples.antt =====
-- Subscriptions that read two books and a fill: a text is a number.
use archer_market_maker.Base.{
  ℕ, ◌≤◌, ◌≡◌, refl, List, [], ◌∷◌, map, foldl, max, none, some, false, arith, All, length,
}
use archer_market_maker.Concrete.{codecs}
use archer_market_maker.Fills.{
  BookState, Event, cancelled, logs, account, binary, Turn, run_once, run_fills, RpcLogsResponse,
  handle_logs,
}
use archer_market_maker.Fills.Books.{last_or, inventory, inventory_of, books_in, run_once_books}
use archer_market_maker.Fills.Counts.{Counts, fills_in, handle_logs-Counts}
use archer_market_maker.Fills.Backoff.{doubling, run_fills_sleeps}

abbrev state : BookState
state = record {
  fills_count = 0;
  fill_base_lots = 0;
  fill_quote_lots = 0;
  base_total_lots = 0;
  quote_total_lots = 0;
  cached_mid_ticks = 0;
  onchain_sequence_number = 41;
  book_resyncs = 0;
  quote_unfundable = false;
}

-- A book with number 44, a fill, an older book, and the end of the account stream.
abbrev events : List (Event ℕ)
events =
    account (some (binary 44))
    ∷ logs (some (record { is_err = false; logs = 0 ∷ [] }))
    ∷ account (some (binary 43))
    ∷ account none
    ∷ []

latest_number : (run_once codecs state events).0.onchain_sequence_number ≡ 44
unfolding run_once
latest_number = refl

one_fill : (run_once codecs state events).0.fills_count ≡ 1
unfolding run_once
one_fill = refl

run_once_books_example :
    let s' = (run_once codecs state events).0 in
    (inventory s' ≡ last_or (inventory state) (map inventory_of (books_in codecs events)))
    × (s'.onchain_sequence_number
        ≡ foldl max 41 (map (λ b. b.last_updated_sequence_number) (books_in codecs events)))
    × (41 ≤ s'.onchain_sequence_number)
    × All
        (λ n. n ≤ s'.onchain_sequence_number)
        (map (λ b. b.last_updated_sequence_number) (books_in codecs events))
run_once_books_example = run_once_books codecs state events

abbrev turns : List (Turn ℕ)
turns =
    record { is_cancelled = false; connection = none; cancelled_in_sleep = false }
    ∷ record { is_cancelled = false; connection = some events; cancelled_in_sleep = false }
    ∷ record {
      is_cancelled = false;
      connection = some (cancelled ∷ []);
      cancelled_in_sleep = false;
    }
    ∷ []

run_fills_sleeps_example :
    (run_fills codecs state 200 turns).1
    ≡ doubling (length (run_fills codecs state 200 turns).1) 200
run_fills_sleeps_example = run_fills_sleeps codecs state 200 turns (omega arith)

abbrev two_fills : RpcLogsResponse ℕ
two_fills = record { is_err = false; logs = 0 ∷ 9 ∷ 0 ∷ [] }

handle_logs-Counts_example :
    Counts state (fills_in codecs (0 ∷ 9 ∷ 0 ∷ [])) (handle_logs codecs state two_fills)
handle_logs-Counts_example =
    handle_logs-Counts codecs state two_fills (omega arith, omega arith, omega arith)
