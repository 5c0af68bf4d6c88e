-- ===== src/Feed.antt =====
-- src/feed.rs: the price feed, as a function of what the exchange sends. Strings, JSON and the
-- parser of floats are parameters, and so is what each attempt to connect comes to. `none` stands
-- for a panic of the volatility tracker.
pub mod State
pub mod Publish
pub mod Messages
pub mod Backoff
mod Examples
use archer_market_maker.Base.{
  ℕ, mul_u64, min, List, [], ◌∷◌, ◌++◌, Option, none, some, Bool, true, false, ◌&&◌, ◌||◌,
  if◌then◌else◌, ◌>>=◌,
}
use archer_market_maker.Float.{F64}
use State.{
  Texts, FeedSettings, Feed, Legs, Event, cancelled, text, ping, closed, failed, other, Reading,
  reading, disconnected, returned, Attempt, refused, subscribe_failed, connected, Turn, slept,
  continued, ended, open_yet,
}
use archer_market_maker.Volatility.{VolatilityTracker, push, realized_vol_bps}

module _ {F : Type 0} ⦃fl : F64 F⦄ where
  open fl use {of_u64, half, add, mul, div, lt, le}

  unfoldable pub no_legs : Legs F
  no_legs = record {
    primary_bid = of_u64 0;
    primary_ask = of_u64 0;
    cross_bid = of_u64 0;
    cross_ask = of_u64 0;
  }

  unfoldable pub handle_tick : Feed F → (now_us : ℕ) → (bid ask : F) → Option (Feed F)
  handle_tick state now_us bid ask =
      let mid = mul (add bid ask) half in
      do
        vol_tracker ← push state.vol_tracker mid
        volatility_bps ← realized_vol_bps vol_tracker
        some (record {
          published = record state.published {
            mid_price = mid;
            price_timestamp_us = now_us;
            volatility_bps = volatility_bps;
          };
          vol_tracker = vol_tracker;
        })

  -- The two tests on the legs, and the prices, crossed or not.
  unfoldable pub prices_of : (use_cross : Bool) → Legs F → Option (F × F)
  prices_of use_cross l =
      if le l.primary_bid (of_u64 0) || le l.primary_ask (of_u64 0)
      then none
      else (if use_cross
          then (if le l.cross_bid (of_u64 0) || le l.cross_ask (of_u64 0)
              then none
              else (let cross_mid = mul (add l.cross_bid l.cross_ask) half in
                  some (div l.primary_bid cross_mid, div l.primary_ask cross_mid)))
          else some (l.primary_bid, l.primary_ask))

  -- `price_notify.notify_one()`, and the feed alive.
  unfoldable pub notify : Feed F → Feed F
  notify state = record state {
    published = record state.published { price_notify = true; feed_alive = true };
  }

  -- What follows once a leg has changed.
  unfoldable pub publish : (use_cross : Bool) → Legs F → (now_us : ℕ) → Feed F → Option (Feed F)
  unfolding prices_of handle_tick notify
  publish use_cross l now_us state = elim (prices_of use_cross l) [
    | none ↦ some state
    | some (bid, ask) ↦ (handle_tick state now_us bid ask >>= λ state'. some (notify state'))
  ]

module _ {F Text : Type 0} ⦃fl : F64 F⦄ (t : Texts F Text) where
  open fl use {of_u64, lt, le}
  open t use {from_str, parse_f64, to_uppercase, same_text, no_text}

  unfoldable pub parse_binance_book_ticker : Text → Option (Text × F × F)
  parse_binance_book_ticker txt = do
    bt ← from_str txt
    bid ← parse_f64 bt.b
    ask ← parse_f64 bt.a
    if lt (of_u64 0) bid && lt (of_u64 0) ask && le bid ask then some (bt.s, bid, ask) else none

  abbrev pub use_cross : FeedSettings Text → Bool
  use_cross c = if no_text (to_uppercase c.cross_symbol) then false else true

  -- Which leg a quote is for; `none` is the `continue` for neither.
  unfoldable pub take_quote : FeedSettings Text → Legs F → Text × F × F → Option (Legs F)
  take_quote c l (symbol, bid, ask) =
      let sym = to_uppercase symbol in
      if same_text sym (to_uppercase c.binance_symbol)
      then some (record l { primary_bid = bid; primary_ask = ask })
      else (if use_cross c && same_text sym (to_uppercase c.cross_symbol)
          then some (record l { cross_bid = bid; cross_ask = ask })
          else none)

  -- The legs after a text message, if it changes one.
  unfoldable pub legs_after : FeedSettings Text → Legs F → Text → Option (Legs F)
  unfolding parse_binance_book_ticker take_quote
  legs_after c l txt = do quote ← parse_binance_book_ticker txt; take_quote c l quote

  -- The arm for a text message.
  unfoldable pub on_text : FeedSettings Text → Legs F → Feed F → Text → ℕ → Option (Legs F × Feed F)
  unfolding legs_after publish
  on_text c l state txt now_us = elim (legs_after c l txt) [
    | none ↦ some (l, state)
    | some l' ↦ (publish (use_cross c) l' now_us state >>= λ state'. some (l', state'))
  ]

  -- The inner loop, over the events of a connection.
  pub read_loop :
      FeedSettings Text → Legs F → Feed F → List (Event Text) → Option (Feed F × Reading)
  unfolding on_text
  read_loop c l state [] = some (state, reading)
  read_loop c l state (cancelled ∷ es) = some (state, returned)
  read_loop c l state (closed ∷ es) = some (state, disconnected)
  read_loop c l state (failed ∷ es) = some (state, disconnected)
  read_loop c l state (ping ∷ es) = read_loop c l state es
  read_loop c l state (other ∷ es) = read_loop c l state es
  read_loop c l state (text txt now_us ∷ es) = do
    (l', state') ← on_text c l state txt now_us
    read_loop c l' state' es

abbrev pub goes_on : Turn → Bool
goes_on (slept ms) = true
goes_on continued = true
goes_on ended = false
goes_on open_yet = false

module _ {F : Type 0} where
  abbrev pub set_alive : Bool → Feed F → Feed F
  set_alive alive state = record state { published = record state.published { feed_alive = alive } }

  -- The sleep after an attempt, and the doubled backoff.
  pub back_off : Feed F → (backoff_ms : ℕ) → Feed F × ℕ × Turn
  back_off state backoff_ms =
      (set_alive false state, min (mul_u64 backoff_ms 2) 5000, slept backoff_ms)

  -- What follows the inner loop.
  pub after_reading : Feed F → Reading → Feed F × ℕ × Turn
  unfolding back_off
  after_reading state disconnected = back_off state 100
  after_reading state returned = (state, 100, ended)
  after_reading state reading = (state, 100, open_yet)

module _ {F Text : Type 0} ⦃fl : F64 F⦄ (t : Texts F Text) where
  -- A turn of the outer loop: the state, the backoff and the end of the turn.
  pub turn :
      FeedSettings Text
      → Feed F
      → (backoff_ms : ℕ) (is_cancelled : Bool) → Attempt Text
      → Option (Feed F × ℕ × Turn)
  unfolding read_loop no_legs after_reading back_off
  turn c state backoff_ms true attempt = some (state, backoff_ms, ended)
  turn c state backoff_ms false refused = some (back_off state backoff_ms)
  turn c state backoff_ms false subscribe_failed = some (set_alive false state, 100, continued)
  turn c state backoff_ms false (connected es) = do
    (state', how) ← read_loop t c no_legs (set_alive true state) es
    some (after_reading state' how)

  -- The outer loop, over whether it finds itself cancelled and what connecting comes to.
  pub run_feed :
      FeedSettings Text
      → Feed F
      → (backoff_ms : ℕ) → List (Bool × Attempt Text)
      → Option (Feed F × List Turn)
  unfolding turn
  run_feed c state backoff_ms [] = some (state, [])
  run_feed c state backoff_ms ((is_cancelled, attempt) ∷ rest) = do
    (state', backoff', how) ← turn c state backoff_ms is_cancelled attempt
    (state'', turns) ← if goes_on how then run_feed c state' backoff' rest else some (state', [])
    some (state'', how ∷ turns)
