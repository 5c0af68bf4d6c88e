-- ===== src/Fills.antt =====
-- src/fills.rs: the subscriptions to the logs and to the account of the maker's book. Base64, the
-- layouts of events and accounts and the websocket are parameters; what a connection yields is a
-- list of events.
pub mod Books
pub mod Counts
pub mod Backoff
pub mod Endpoint
mod Examples
use archer_market_maker.Base.{
  ℕ, min, max, List, [], ◌∷◌, foldl, Option, none, some, Bool, true, false, not, ◌||◌, ltb, ◌==◌,
  if◌then◌else◌, ◌>>=◌, ◌&&◌, length, take, drop, add_u64, mul_u64,
}

-- The fields of a `MakerFillEvent` that are counted.
pub record MakerFillEvent : Type 0 where
  pub base_lots_filled : ℕ
  pub quote_lots_filled : ℕ

-- The fields of a `MakerBook` that are read, and whether it can fund its pending reprice.
pub record MakerBook : Type 0 where
  pub base_free : ℕ
  pub base_locked : ℕ
  pub quote_free : ℕ
  pub quote_locked : ℕ
  pub mid_price_ticks : ℕ
  pub last_updated_sequence_number : ℕ
  pub is_quote_sync_fundable : Bool

-- What the subscriptions use of base64, borsh and the sdk. Bytes are numbers.
pub record Codecs (Text : Type 0) : Type 0 where
  -- `strip_prefix("Program data: ")`
  pub program_data : Text → Option Text
  pub trim : Text → Text
  pub base64_decode : Text → Option (List ℕ)
  pub maker_fill_disc : List ℕ
  pub try_from_slice : List ℕ → Option MakerFillEvent
  pub parse_maker_book : List ℕ → Option MakerBook

-- The shared fields that the subscriptions write.
pub record BookState : Type 0 where
  pub fills_count : ℕ
  pub fill_base_lots : ℕ
  pub fill_quote_lots : ℕ
  pub base_total_lots : ℕ
  pub quote_total_lots : ℕ
  pub cached_mid_ticks : ℕ
  pub onchain_sequence_number : ℕ
  pub book_resyncs : ℕ
  pub quote_unfundable : Bool

pub record RpcLogsResponse (Text : Type 0) : Type 0 where
  pub is_err : Bool
  pub logs : List Text

pub data UiAccountData (Text : Type 0) : Type 0 where
  binary : Text → UiAccountData Text
  legacy_binary : Text → UiAccountData Text
  json : UiAccountData Text

-- What the `select!` of `run_once` yields; `none` is the end of a stream.
pub data Event (Text : Type 0) : Type 0 where
  cancelled : Event Text
  logs : Option (RpcLogsResponse Text) → Event Text
  account : Option (UiAccountData Text) → Event Text

-- How `run_once` stands: still running, cancelled, or failed.
pub data Outcome : Type 0 where
  running ok failed : Outcome

unfoldable pub record_fill : BookState → MakerFillEvent → BookState
record_fill state ev = record state {
  fills_count = add_u64 state.fills_count 1;
  fill_base_lots = add_u64 state.fill_base_lots ev.base_lots_filled;
  fill_quote_lots = add_u64 state.fill_quote_lots ev.quote_lots_filled;
}

-- The arm for a book that parses.
unfoldable pub store_book : BookState → MakerBook → BookState
store_book state book = record state {
  base_total_lots = add_u64 book.base_free book.base_locked;
  quote_total_lots = add_u64 book.quote_free book.quote_locked;
  cached_mid_ticks = book.mid_price_ticks;
  onchain_sequence_number = max state.onchain_sequence_number book.last_updated_sequence_number;
  book_resyncs = add_u64 state.book_resyncs 1;
  quote_unfundable = not book.is_quote_sync_fundable;
}

-- Equality of byte strings.
abbrev pub same_bytes : List ℕ → List ℕ → Bool
same_bytes [] [] = true
same_bytes [] (y ∷ ys) = false
same_bytes (x ∷ xs) [] = false
same_bytes (x ∷ xs) (y ∷ ys) = x == y && same_bytes xs ys

module _ {Text : Type 0} (codecs : Codecs Text) where
  open codecs use {
    program_data, trim, base64_decode, maker_fill_disc, try_from_slice, parse_maker_book,
  }

  pub decode_fill : List ℕ → Option MakerFillEvent
  decode_fill buf =
      if ltb (length buf) 8 || not (same_bytes (take 8 buf) maker_fill_disc)
      then none
      else try_from_slice (drop 8 buf)

  -- The fill in a log line, if it has one.
  pub fill_of : Text → Option MakerFillEvent
  unfolding decode_fill
  fill_of line = do b64 ← program_data line; bytes ← base64_decode (trim b64); decode_fill bytes

  -- The body of the loop over the log lines.
  unfoldable pub handle_line : BookState → Text → BookState
  unfolding fill_of record_fill
  handle_line state line = elim (fill_of line) [ none ↦ state | some ev ↦ record_fill state ev ]

  unfoldable pub handle_logs : BookState → RpcLogsResponse Text → BookState
  unfolding handle_line
  handle_logs state resp = if resp.is_err then state else foldl handle_line state resp.logs

  -- The book in an account update, if it decodes and parses.
  unfoldable pub book_of : UiAccountData Text → Option MakerBook
  book_of (binary b64) = base64_decode b64 >>= parse_maker_book
  book_of (legacy_binary b64) = base64_decode b64 >>= parse_maker_book
  book_of json = none

  unfoldable pub handle_account : BookState → UiAccountData Text → BookState
  unfolding book_of store_book
  handle_account state update = elim (book_of update) [
    | none ↦ state
    | some book ↦ store_book state book
  ]

  -- `run_once`, over the events of its connection.
  pub run_once : BookState → List (Event Text) → BookState × Outcome
  unfolding handle_logs handle_account
  run_once state [] = (state, running)
  run_once state (cancelled ∷ es) = (state, ok)
  run_once state (logs none ∷ es) = (state, failed)
  run_once state (account none ∷ es) = (state, failed)
  run_once state (logs (some resp) ∷ es) = run_once (handle_logs state resp) es
  run_once state (account (some update) ∷ es) = run_once (handle_account state update) es

-- A turn of `run_fills`: whether it finds itself cancelled, what the connection yields, `none` if
-- it fails, and whether the sleep is cancelled.
pub record Turn (Text : Type 0) : Type 0 where
  pub is_cancelled : Bool
  pub connection : Option (List (Event Text))
  pub cancelled_in_sleep : Bool

module _ {Text : Type 0} (codecs : Codecs Text) where
  -- What becomes of the state in a turn, and how `run_once` stands.
  pub try_once : BookState → Option (List (Event Text)) → BookState × Outcome
  unfolding run_once
  try_once state none = (state, failed)
  try_once state (some es) = run_once codecs state es

  -- What follows `run_once`, given what the loop does after the sleep.
  pub sleep_then :
      (backoff_ms : ℕ) (cancelled_in_sleep : Bool)
      → BookState
      → BookState × List ℕ
      → Outcome
      → BookState × List ℕ
  sleep_then backoff_ms cancelled_in_sleep state rest running = (state, [])
  sleep_then backoff_ms cancelled_in_sleep state rest ok = (state, [])
  sleep_then backoff_ms cancelled_in_sleep state (state', sleeps) failed =
      if cancelled_in_sleep then (state, backoff_ms ∷ []) else (state', backoff_ms ∷ sleeps)

  -- The loop of `run_fills`: the state, and the sleeps it began.
  pub run_fills : BookState → (backoff_ms : ℕ) → List (Turn Text) → BookState × List ℕ
  unfolding try_once sleep_then
  run_fills state backoff_ms [] = (state, [])
  run_fills state backoff_ms (t ∷ ts) =
      let (state', outcome) = try_once state t.connection in
      let rest = run_fills state' (min (mul_u64 backoff_ms 2) 5000) ts in
      if t.is_cancelled
      then (state, [])
      else sleep_then backoff_ms t.cancelled_in_sleep state' rest outcome
