-- ===== src/System/State.antt =====
-- src/state.rs: the shared state, its views by component, and the stores of src/feed.rs,
-- src/fills.rs and src/tx.rs. All of them are relaxed atomics, so each store is a step of its own.
use archer_market_maker.Base.{
  ℕ, max, List, [], ◌∷◌, ◌++◌, foldl, Option, none, some, Bool, true, false, not, if◌then◌else◌,
  add_u64,
}
use archer_market_maker.Float.{F64}
use archer_market_maker.Feed.State.{Published, Feed, FeedSettings, Legs, Texts}
use archer_market_maker.Feed.{legs_after, prices_of, use_cross}
use archer_market_maker.Fills.{
  BookState, MakerBook, MakerFillEvent, Codecs, RpcLogsResponse, UiAccountData, fill_of, book_of,
}
use archer_market_maker.Engine.State.{Engine}

pub record SharedState (F : Type 0) : Type 0 where
  pub mid_price : F
  pub price_timestamp_us : ℕ
  pub feed_alive : Bool
  -- whether a permit is stored
  pub price_notify : Bool
  pub cached_mid_ticks : ℕ
  pub base_total_lots : ℕ
  pub quote_total_lots : ℕ
  pub onchain_sequence_number : ℕ
  pub volatility_bps : F
  pub consecutive_failures : ℕ
  pub cycles_total : ℕ
  pub updates_sent : ℕ
  pub mid_only_updates : ℕ
  pub book_updates : ℕ
  pub clear_book_sends : ℕ
  pub heartbeat_sends : ℕ
  pub fills_count : ℕ
  pub fill_base_lots : ℕ
  pub fill_quote_lots : ℕ
  pub book_resyncs : ℕ
  pub quote_unfundable : Bool
  pub engine_alive : Bool

module _ {F : Type 0} ⦃fl : F64 F⦄ where
  -- `SharedState::new`
  abbrev pub new_state : SharedState F
  new_state = record {
    mid_price = fl.of_u64 0;
    price_timestamp_us = 0;
    feed_alive = false;
    price_notify = false;
    cached_mid_ticks = 0;
    base_total_lots = 0;
    quote_total_lots = 0;
    onchain_sequence_number = 0;
    volatility_bps = fl.of_u64 0;
    consecutive_failures = 0;
    cycles_total = 0;
    updates_sent = 0;
    mid_only_updates = 0;
    book_updates = 0;
    clear_book_sends = 0;
    heartbeat_sends = 0;
    fills_count = 0;
    fill_base_lots = 0;
    fill_quote_lots = 0;
    book_resyncs = 0;
    quote_unfundable = false;
    engine_alive = false;
  }

module _ {F : Type 0} where
  -- The fields that the feed writes.
  abbrev pub published_of : SharedState F → Published F
  published_of s = record {
    mid_price = s.mid_price;
    price_timestamp_us = s.price_timestamp_us;
    volatility_bps = s.volatility_bps;
    feed_alive = s.feed_alive;
    price_notify = s.price_notify;
  }

  abbrev pub with_published : Published F → SharedState F → SharedState F
  with_published p s = record s {
    mid_price = p.mid_price;
    price_timestamp_us = p.price_timestamp_us;
    volatility_bps = p.volatility_bps;
    feed_alive = p.feed_alive;
    price_notify = p.price_notify;
  }

  -- The fields that the subscriptions write.
  abbrev pub book_state_of : SharedState F → BookState
  book_state_of s = record {
    fills_count = s.fills_count;
    fill_base_lots = s.fill_base_lots;
    fill_quote_lots = s.fill_quote_lots;
    base_total_lots = s.base_total_lots;
    quote_total_lots = s.quote_total_lots;
    cached_mid_ticks = s.cached_mid_ticks;
    onchain_sequence_number = s.onchain_sequence_number;
    book_resyncs = s.book_resyncs;
    quote_unfundable = s.quote_unfundable;
  }

  abbrev pub with_book_state : BookState → SharedState F → SharedState F
  with_book_state b s = record s {
    fills_count = b.fills_count;
    fill_base_lots = b.fill_base_lots;
    fill_quote_lots = b.fill_quote_lots;
    base_total_lots = b.base_total_lots;
    quote_total_lots = b.quote_total_lots;
    cached_mid_ticks = b.cached_mid_ticks;
    onchain_sequence_number = b.onchain_sequence_number;
    book_resyncs = b.book_resyncs;
    quote_unfundable = b.quote_unfundable;
  }

  -- The fields that only the engine writes.
  abbrev pub with_counters : Engine → SharedState F → SharedState F
  with_counters e s = record s {
    engine_alive = e.engine_alive;
    cycles_total = e.cycles_total;
    updates_sent = e.updates_sent;
    mid_only_updates = e.mid_only_updates;
    book_updates = e.book_updates;
    clear_book_sends = e.clear_book_sends;
    heartbeat_sends = e.heartbeat_sends;
  }

-- A store, a `fetch_add` or a `fetch_max` of the feed or of the subscriptions.
pub data Store (F : Type 0) : Type 0 where
  store_mid_price : F → Store F
  store_price_timestamp : ℕ → Store F
  store_volatility : F → Store F
  store_feed_alive : Bool → Store F
  notify_one : Store F
  store_base_total : ℕ → Store F
  store_quote_total : ℕ → Store F
  store_cached_mid : ℕ → Store F
  max_onchain_sequence : ℕ → Store F
  add_book_resync : Store F
  store_unfundable : Bool → Store F
  add_fill : Store F
  add_fill_base : ℕ → Store F
  add_fill_quote : ℕ → Store F

module _ {F : Type 0} where
  unfoldable pub do_store : SharedState F → Store F → SharedState F
  do_store s (store_mid_price x) = record s { mid_price = x }
  do_store s (store_price_timestamp t) = record s { price_timestamp_us = t }
  do_store s (store_volatility x) = record s { volatility_bps = x }
  do_store s (store_feed_alive b) = record s { feed_alive = b }
  do_store s notify_one = record s { price_notify = true }
  do_store s (store_base_total n) = record s { base_total_lots = n }
  do_store s (store_quote_total n) = record s { quote_total_lots = n }
  do_store s (store_cached_mid n) = record s { cached_mid_ticks = n }
  do_store s (max_onchain_sequence n) = record s {
    onchain_sequence_number = max s.onchain_sequence_number n;
  }
  do_store s add_book_resync = record s { book_resyncs = add_u64 s.book_resyncs 1 }
  do_store s (store_unfundable b) = record s { quote_unfundable = b }
  do_store s add_fill = record s { fills_count = add_u64 s.fills_count 1 }
  do_store s (add_fill_base n) = record s { fill_base_lots = add_u64 s.fill_base_lots n }
  do_store s (add_fill_quote n) = record s { fill_quote_lots = add_u64 s.fill_quote_lots n }

  abbrev pub do_stores : SharedState F → List (Store F) → SharedState F
  do_stores = foldl do_store

-- The stores for a fill, if there is one.
abbrev pub fill_stores : {F : Type 0} → Option MakerFillEvent → List (Store F)
fill_stores none = []
fill_stores (some ev) =
    add_fill ∷ add_fill_base ev.base_lots_filled ∷ add_fill_quote ev.quote_lots_filled ∷ []

-- The stores for a book, if there is one.
abbrev pub book_stores : {F : Type 0} → Option MakerBook → List (Store F)
book_stores none = []
book_stores (some book) =
    store_base_total (add_u64 book.base_free book.base_locked)
    ∷ store_quote_total (add_u64 book.quote_free book.quote_locked)
    ∷ store_cached_mid book.mid_price_ticks
    ∷ max_onchain_sequence book.last_updated_sequence_number
    ∷ add_book_resync
    ∷ store_unfundable (not book.is_quote_sync_fundable)
    ∷ []

module _ {F Text : Type 0} (codecs : Codecs Text) where
  abbrev pub lines_stores : List Text → List (Store F)
  lines_stores [] = []
  lines_stores (line ∷ lines) = fill_stores (fill_of codecs line) ++ lines_stores lines

  abbrev pub logs_stores : RpcLogsResponse Text → List (Store F)
  logs_stores resp = if resp.is_err then [] else lines_stores resp.logs

  abbrev pub account_stores : UiAccountData Text → List (Store F)
  account_stores update = book_stores (book_of codecs update)

module _ {F : Type 0} ⦃fl : F64 F⦄ where
  open fl use {half, add, mul}

  -- The stores for a price, given the feed after `handle_tick`.
  unfoldable pub tick_stores : (now_us : ℕ) (bid ask : F) → Feed F → List (Store F)
  tick_stores now_us bid ask after =
      store_mid_price (mul (add bid ask) half)
      ∷ store_price_timestamp now_us
      ∷ store_volatility after.published.volatility_bps
      ∷ notify_one
      ∷ store_feed_alive true
      ∷ []

  -- The stores once a leg has changed.
  unfoldable pub publish_stores :
      (use_cross : Bool) → Legs F → (now_us : ℕ) → Feed F → List (Store F)
  publish_stores use_cross l now_us after = elim (prices_of use_cross l) [
    | none ↦ []
    | some (bid, ask) ↦ tick_stores now_us bid ask after
  ]

module _ {F Text : Type 0} ⦃fl : F64 F⦄ (t : Texts F Text) where
  -- The stores for a text message, given the feed after it.
  unfoldable pub text_stores :
      FeedSettings Text → Legs F → Text → (now_us : ℕ) → Feed F → List (Store F)
  text_stores c l txt now_us after = elim (legs_after t c l txt) [
    | none ↦ []
    | some l' ↦ publish_stores (use_cross t c) l' now_us after
  ]
