-- ===== src/System/Within.antt =====
-- The single stores and loads of a running bot, and the two fields that say what to do next: the
-- sequence number on chain and the failures in a row.
use archer_market_maker.Base.{
  ℕ, ◌≤◌, ◌≡◌, refl, List, [], ◌∷◌, Option, none, some, Bool, arith, All, All-append, Bool-cases,
  inl, inr,
}
use archer_market_maker.Float.{F64}
use archer_market_maker.Feed.State.{Feed, Legs, Texts, FeedSettings}
use archer_market_maker.Feed.{legs_after, prices_of, use_cross}
use archer_market_maker.Fills.{
  MakerBook, MakerFillEvent, Codecs, RpcLogsResponse, UiAccountData, fill_of, book_of,
}
use archer_market_maker.Engine.State.{Reads}
use archer_market_maker.System.State.{
  SharedState, Store, store_mid_price, store_price_timestamp, store_volatility, store_feed_alive,
  notify_one, store_base_total, store_quote_total, store_cached_mid, max_onchain_sequence,
  add_book_resync, store_unfundable, add_fill, add_fill_base, add_fill_quote, do_store, fill_stores,
  lines_stores, logs_stores, book_stores, account_stores, tick_stores, publish_stores, text_stores,
}
use archer_market_maker.System.Bot.{
  Outside, load, Point, at_wake, at_cancelled, at_failures, at_sleep, at_clock, at_timestamp,
  at_timestamp_again, at_mid, at_sequence, at_cached_mid, at_volatility, at_base, at_quote,
  at_send_clock, at_end,
}

module _ {F : Type 0} where
  -- A store puts no sequence number above `n`.
  abbrev pub Within : ℕ → Store F → Type 0
  Within n (store_mid_price x) = Unit
  Within n (store_price_timestamp t) = Unit
  Within n (store_volatility x) = Unit
  Within n (store_feed_alive a) = Unit
  Within n notify_one = Unit
  Within n (store_base_total m) = Unit
  Within n (store_quote_total m) = Unit
  Within n (store_cached_mid m) = Unit
  Within n (max_onchain_sequence m) = m ≤ n
  Within n add_book_resync = Unit
  Within n (store_unfundable u) = Unit
  Within n add_fill = Unit
  Within n (add_fill_base m) = Unit
  Within n (add_fill_quote m) = Unit

  pub Within-mono : (m n : ℕ) → m ≤ n → (st : Store F) → Within m st → Within n st
  Within-mono m n le (store_mid_price x) w = tt
  Within-mono m n le (store_price_timestamp t) w = tt
  Within-mono m n le (store_volatility x) w = tt
  Within-mono m n le (store_feed_alive a) w = tt
  Within-mono m n le notify_one w = tt
  Within-mono m n le (store_base_total k) w = tt
  Within-mono m n le (store_quote_total k) w = tt
  Within-mono m n le (store_cached_mid k) w = tt
  Within-mono m n le (max_onchain_sequence k) w = omega arith
  Within-mono m n le add_book_resync w = tt
  Within-mono m n le (store_unfundable u) w = tt
  Within-mono m n le add_fill w = tt
  Within-mono m n le (add_fill_base k) w = tt
  Within-mono m n le (add_fill_quote k) w = tt

  -- What a store does to the sequence number: nothing, or the larger of two.
  pub do_store-sequence :
      (n : ℕ) (s : SharedState F) (st : Store F)
      → Within n st
      → s.onchain_sequence_number ≤ n
      → (s.onchain_sequence_number ≤ (do_store s st).onchain_sequence_number)
        × ((do_store s st).onchain_sequence_number ≤ n)
  unfolding do_store
  do_store-sequence n s (store_mid_price x) w le = (omega arith, le)
  do_store-sequence n s (store_price_timestamp t) w le = (omega arith, le)
  do_store-sequence n s (store_volatility x) w le = (omega arith, le)
  do_store-sequence n s (store_feed_alive a) w le = (omega arith, le)
  do_store-sequence n s notify_one w le = (omega arith, le)
  do_store-sequence n s (store_base_total m) w le = (omega arith, le)
  do_store-sequence n s (store_quote_total m) w le = (omega arith, le)
  do_store-sequence n s (store_cached_mid m) w le = (omega arith, le)
  do_store-sequence n s (max_onchain_sequence m) w le = (omega arith, omega arith)
  do_store-sequence n s add_book_resync w le = (omega arith, le)
  do_store-sequence n s (store_unfundable u) w le = (omega arith, le)
  do_store-sequence n s add_fill w le = (omega arith, le)
  do_store-sequence n s (add_fill_base m) w le = (omega arith, le)
  do_store-sequence n s (add_fill_quote m) w le = (omega arith, le)

  pub do_store-failures :
      (s : SharedState F) (st : Store F)
      → (do_store s st).consecutive_failures ≡ s.consecutive_failures
  unfolding do_store
  do_store-failures s (store_mid_price x) = refl
  do_store-failures s (store_price_timestamp t) = refl
  do_store-failures s (store_volatility x) = refl
  do_store-failures s (store_feed_alive a) = refl
  do_store-failures s notify_one = refl
  do_store-failures s (store_base_total m) = refl
  do_store-failures s (store_quote_total m) = refl
  do_store-failures s (store_cached_mid m) = refl
  do_store-failures s (max_onchain_sequence m) = refl
  do_store-failures s add_book_resync = refl
  do_store-failures s (store_unfundable u) = refl
  do_store-failures s add_fill = refl
  do_store-failures s (add_fill_base m) = refl
  do_store-failures s (add_fill_quote m) = refl

  -- A load of the sequence number, and of the failures.
  pub load-sequence :
      (P : ℕ → Type 0) (p : Point) (s : SharedState F) (o : Outside) (r : Reads F)
      → P s.onchain_sequence_number
      → P r.onchain_sequence_number
      → P (load p s o r).onchain_sequence_number
  load-sequence P at_wake s o r hs hr = hr
  load-sequence P at_cancelled s o r hs hr = hr
  load-sequence P at_failures s o r hs hr = hr
  load-sequence P at_sleep s o r hs hr = hr
  load-sequence P at_clock s o r hs hr = hr
  load-sequence P at_timestamp s o r hs hr = hr
  load-sequence P at_timestamp_again s o r hs hr = hr
  load-sequence P at_mid s o r hs hr = hr
  load-sequence P at_sequence s o r hs hr = hs
  load-sequence P at_cached_mid s o r hs hr = hr
  load-sequence P at_volatility s o r hs hr = hr
  load-sequence P at_base s o r hs hr = hr
  load-sequence P at_quote s o r hs hr = hr
  load-sequence P at_send_clock s o r hs hr = hr
  load-sequence P at_end s o r hs hr = hr

  pub load-failures :
      (P : ℕ → Type 0) (p : Point) (s : SharedState F) (o : Outside) (r : Reads F)
      → P s.consecutive_failures
      → P r.consecutive_failures
      → P (load p s o r).consecutive_failures
  load-failures P at_wake s o r hs hr = hr
  load-failures P at_cancelled s o r hs hr = hr
  load-failures P at_failures s o r hs hr = hs
  load-failures P at_sleep s o r hs hr = hr
  load-failures P at_clock s o r hs hr = hr
  load-failures P at_timestamp s o r hs hr = hr
  load-failures P at_timestamp_again s o r hs hr = hr
  load-failures P at_mid s o r hs hr = hr
  load-failures P at_sequence s o r hs hr = hr
  load-failures P at_cached_mid s o r hs hr = hr
  load-failures P at_volatility s o r hs hr = hr
  load-failures P at_base s o r hs hr = hr
  load-failures P at_quote s o r hs hr = hr
  load-failures P at_send_clock s o r hs hr = hr
  load-failures P at_end s o r hs hr = hr

module _ (F : Type 0) {Text : Type 0} (codecs : Codecs Text) (n : ℕ) where
  fill_stores-Within : (ev : Option MakerFillEvent) → All (Within {F = F} n) (fill_stores ev)
  fill_stores-Within none = tt
  fill_stores-Within (some ev) = (tt, (tt, (tt, tt)))

  lines_stores-Within : (lines : List Text) → All (Within {F = F} n) (lines_stores codecs lines)
  lines_stores-Within [] = tt
  lines_stores-Within (line ∷ lines) =
      All-append (Within n) (fill_stores (fill_of codecs line)) (lines_stores codecs lines)
        (fill_stores-Within (fill_of codecs line)) (lines_stores-Within lines)

  pub logs_stores-Within :
      (resp : RpcLogsResponse Text) → All (Within {F = F} n) (logs_stores codecs resp)
  logs_stores-Within resp = elim (Bool-cases resp.is_err) [
    | inl e ↦ rw e tt
    | inr e ↦ rw e (lines_stores-Within resp.logs)
  ]

  pub account_stores-Within :
      (update : UiAccountData Text)
      → ((book : MakerBook)
          → book_of codecs update ≡ some book
          → book.last_updated_sequence_number ≤ n)
      → All (Within {F = F} n) (account_stores codecs update)
  account_stores-Within update = go (book_of codecs update)
    where
      go :
          (found : Option MakerBook)
          → ((book : MakerBook) → found ≡ some book → book.last_updated_sequence_number ≤ n)
          → All (Within {F = F} n) (book_stores found)
      go none h = tt
      go (some book) h = (tt, (tt, (tt, (h book refl, (tt, (tt, tt))))))

module _ {F Text : Type 0} ⦃fl : F64 F⦄ (t : Texts F Text) (c : FeedSettings Text) (n : ℕ) where
  publish_stores-Within :
      (crossed : Bool) (l : Legs F) (now_us : ℕ) (after : Feed F)
      → All (Within n) (publish_stores crossed l now_us after)
  unfolding publish_stores tick_stores
  publish_stores-Within crossed l now_us after = go (prices_of crossed l)
    where
      go :
          (prices : Option (F × F))
          → All
              (Within n)
              (elim prices [ none ↦ [] | some (bid, ask) ↦ tick_stores now_us bid ask after ])
      go none = tt
      go (some (bid, ask)) = (tt, (tt, (tt, (tt, (tt, tt)))))

  pub text_stores-Within :
      (l : Legs F) (txt : Text) (now_us : ℕ) (after : Feed F)
      → All (Within n) (text_stores t c l txt now_us after)
  unfolding text_stores
  text_stores-Within l txt now_us after = go (legs_after t c l txt)
    where
      go :
          (legs : Option (Legs F))
          → All
              (Within n)
              (elim legs [ none ↦ [] | some l1 ↦ publish_stores (use_cross t c) l1 now_us after ])
      go none = tt
      go (some l1) = publish_stores-Within (use_cross t c) l1 now_us after
