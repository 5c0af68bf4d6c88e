-- ===== src/Feed/State.antt =====
-- The data of src/feed.rs: messages, settings, the fields it publishes, and how its loops go on.
use archer_market_maker.Base.{ℕ, List, Option, Bool}
use archer_market_maker.Volatility.{VolatilityTracker}

-- The fields of `BinanceBookTicker`.
pub record BinanceBookTicker (Text : Type 0) : Type 0 where
  pub s : Text
  pub b : Text
  pub a : Text

-- What the feed uses of strings and of serde_json.
pub record Texts (F Text : Type 0) : Type 0 where
  pub from_str : Text → Option (BinanceBookTicker Text)
  pub parse_f64 : Text → Option F
  pub to_uppercase : Text → Text
  pub same_text : Text → Text → Bool
  pub no_text : Text → Bool

pub record FeedSettings (Text : Type 0) : Type 0 where
  pub binance_symbol : Text
  pub cross_symbol : Text
  pub binance_ws_url : Text
  pub staleness_timeout_ms : ℕ

-- The shared fields that the feed writes; `price_notify` is whether a permit is stored.
pub record Published (F : Type 0) : Type 0 where
  pub mid_price : F
  pub price_timestamp_us : ℕ
  pub volatility_bps : F
  pub feed_alive : Bool
  pub price_notify : Bool

-- What outlives a connection: the shared fields and the tracker.
pub record Feed (F : Type 0) : Type 0 where
  pub published : Published F
  pub vol_tracker : VolatilityTracker F

-- The best prices that a connection has seen.
pub record Legs (F : Type 0) : Type 0 where
  pub primary_bid : F
  pub primary_ask : F
  pub cross_bid : F
  pub cross_ask : F

-- What the inner `select!` yields: the cancellation, or `read.next()`, a text with the time at
-- which it is handled.
pub data Event (Text : Type 0) : Type 0 where
  cancelled : Event Text
  text : Text → (now_us : ℕ) → Event Text
  ping : Event Text
  closed : Event Text
  failed : Event Text
  other : Event Text

-- How the inner loop goes on.
pub data Reading : Type 0 where
  reading disconnected returned : Reading

-- What an attempt to connect comes to.
pub data Attempt (Text : Type 0) : Type 0 where
  refused : Attempt Text
  subscribe_failed : Attempt Text
  connected : List (Event Text) → Attempt Text

-- How a turn of the outer loop ends: after a sleep, at once, by returning, or not yet.
pub data Turn : Type 0 where
  slept : (ms : ℕ) → Turn
  continued : Turn
  ended : Turn
  open_yet : Turn
