-- ===== src/System/Stores.antt =====
-- The single stores of src/feed.rs and src/fills.rs against the handlers as whole functions.
use archer_market_maker.Base.{
  ℕ, ◌≡◌, refl, ◌∙◌, ap, List, [], ◌∷◌, ◌++◌, foldl, Option, none, some, Bool, ◌>>=◌, Option-cases,
  Bool-cases, inl, inr,
}
use mathlib.Core.Option.{some-injective}
use mathlib.Core.Path.{subst}
use archer_market_maker.Float.{F64}
use archer_market_maker.Volatility.{VolatilityTracker, push, realized_vol_bps}
use archer_market_maker.Feed.State.{Feed, FeedSettings, Legs, Texts}
use archer_market_maker.Feed.{
  legs_after, prices_of, use_cross, handle_tick, notify, publish, on_text,
}
use archer_market_maker.Fills.{
  MakerFillEvent, MakerBook, Codecs, RpcLogsResponse, UiAccountData, fill_of, book_of, record_fill,
  handle_line, handle_logs, handle_account, store_book,
}
use archer_market_maker.System.State.{
  SharedState, published_of, with_published, book_state_of, with_book_state, Store, do_store,
  do_stores, fill_stores, book_stores, lines_stores, logs_stores, account_stores, tick_stores,
  publish_stores, text_stores,
}

module _ {F : Type 0} where
  do_stores-append :
      (s : SharedState F) (xs ys : List (Store F))
      → do_stores s (xs ++ ys) ≡ do_stores (do_stores s xs) ys
  do_stores-append s [] ys = refl
  do_stores-append s (x ∷ xs) ys = do_stores-append (do_store s x) xs ys

module _ {F Text : Type 0} (codecs : Codecs Text) where
  line_stores_lem :
      (s : SharedState F) (line : Text)
      → do_stores s (fill_stores (fill_of codecs line))
        ≡ with_book_state (handle_line codecs (book_state_of s) line) s
  unfolding handle_line record_fill do_store
  line_stores_lem s line = go (fill_of codecs line)
    where
      go :
          (ev : Option MakerFillEvent)
          → do_stores s (fill_stores ev)
            ≡ with_book_state
                (elim ev [ none ↦ book_state_of s | some ev' ↦ record_fill (book_state_of s) ev' ])
                s
      go none = refl
      go (some ev) = refl

  lines_stores_lem :
      (s : SharedState F) (lines : List Text)
      → do_stores s (lines_stores codecs lines)
        ≡ with_book_state (foldl (handle_line codecs) (book_state_of s) lines) s
  lines_stores_lem s [] = refl
  lines_stores_lem s (line ∷ lines) =
      do_stores-append s (fill_stores (fill_of codecs line)) (lines_stores codecs lines)
      ∙ ap (λ s'. do_stores s' (lines_stores codecs lines)) (line_stores_lem s line)
      ∙ lines_stores_lem (with_book_state (handle_line codecs (book_state_of s) line) s) lines

  account_stores_lem :
      (s : SharedState F) (update : UiAccountData Text)
      → do_stores s (account_stores codecs update)
        ≡ with_book_state (handle_account codecs (book_state_of s) update) s
  unfolding handle_account store_book do_store
  account_stores_lem s update = go (book_of codecs update)
    where
      go :
          (book : Option MakerBook)
          → do_stores s (book_stores book)
            ≡ with_book_state
                (elim book [ none ↦ book_state_of s | some b ↦ store_book (book_state_of s) b ])
                s
      go none = refl
      go (some b) = refl

  subscription_stores :
      (s : SharedState F) (resp : RpcLogsResponse Text) (update : UiAccountData Text)
      → (do_stores s (logs_stores codecs resp)
          ≡ with_book_state (handle_logs codecs (book_state_of s) resp) s)
        × (do_stores s (account_stores codecs update)
            ≡ with_book_state (handle_account codecs (book_state_of s) update) s)
  unfolding handle_logs
  subscription_stores s resp update = (
    elim (Bool-cases resp.is_err) [
      | inl e ↦ rw (e, handle_logs) refl
      | inr e ↦ rw (e, handle_logs) (lines_stores_lem s resp.logs)
    ],
    account_stores_lem s update,
  )

module _ {F : Type 0} ⦃fl : F64 F⦄ where
  open fl use {half, add, mul}

  -- The feed's state in a running bot.
  abbrev pub feed_of : SharedState F → VolatilityTracker F → Feed F
  feed_of s tracker = record { published = published_of s; vol_tracker = tracker }

  tick_stores_lem :
      (s : SharedState F) (tracker : VolatilityTracker F) (now_us : ℕ) (bid ask : F)
      (after : Feed F)
      → (handle_tick (feed_of s tracker) now_us bid ask >>= λ f. some (notify f)) ≡ some after
      → do_stores s (tick_stores now_us bid ask after) ≡ with_published after.published s
  unfolding handle_tick notify tick_stores do_store
  tick_stores_lem s tracker now_us bid ask after h =
      elim (Option-cases (push tracker (mul (add bid ask) half))) [
        | inl e ↦ let q = rw e at h in absurd (cc)
        | inr (pushed, e) ↦ elim (Option-cases (realized_vol_bps pushed)) [
          | inl e' ↦ let q = rw (e, e') at h in absurd (cc)
          | inr (v, e') ↦
              let q = rw (e, e') at h in
              subst (λ f. do_stores s (tick_stores now_us bid ask f) ≡ with_published f.published s)
                (some-injective _ _ q) refl
        ]
      ]

  publish_stores_lem :
      (s : SharedState F) (tracker : VolatilityTracker F) (crossed : Bool) (l : Legs F) (now_us : ℕ)
      (after : Feed F)
      → publish crossed l now_us (feed_of s tracker) ≡ some after
      → do_stores s (publish_stores crossed l now_us after) ≡ with_published after.published s
  unfolding publish publish_stores
  publish_stores_lem s tracker crossed l now_us after = go (prices_of crossed l)
    where
      go :
          (prices : Option (F × F))
          → elim prices [
            | none ↦ some (feed_of s tracker)
            | some (bid, ask) ↦
                (handle_tick (feed_of s tracker) now_us bid ask >>= λ f. some (notify f))
          ]
            ≡ some after
          → do_stores s
              (elim prices [ none ↦ [] | some (bid, ask) ↦ tick_stores now_us bid ask after ])
            ≡ with_published after.published s
      go none h = ap (λ f. with_published f.published s) (some-injective _ _ h)
      go (some (bid, ask)) h = tick_stores_lem s tracker now_us bid ask after h

module _ {F Text : Type 0} ⦃fl : F64 F⦄ (t : Texts F Text) (c : FeedSettings Text) where
  text_stores_lem :
      (s : SharedState F) (tracker : VolatilityTracker F) (l l' : Legs F) (txt : Text) (now_us : ℕ)
      (after : Feed F)
      → on_text t c l (feed_of s tracker) txt now_us ≡ some (l', after)
      → do_stores s (text_stores t c l txt now_us after) ≡ with_published after.published s
  unfolding on_text text_stores
  text_stores_lem s tracker l l' txt now_us after = go (legs_after t c l txt)
    where
      after_legs : Option (Legs F) → Option (Legs F × Feed F)
      after_legs none = some (l, feed_of s tracker)
      after_legs (some l1) =
          (publish (use_cross t c) l1 now_us (feed_of s tracker) >>= λ f. some (l1, f))

      go :
          (legs : Option (Legs F))
          → after_legs legs ≡ some (l', after)
          → do_stores s
              (elim legs [ none ↦ [] | some l1 ↦ publish_stores (use_cross t c) l1 now_us after ])
            ≡ with_published after.published s
      go none h =
          ap (λ (u : Legs F × Feed F). with_published u.1.published s) (some-injective _ _ h)
      go (some l1) h = elim (Option-cases (publish (use_cross t c) l1 now_us (feed_of s tracker))) [
        | inl e ↦ let q = rw e at h in absurd (cc)
        | inr (f, e) ↦
            let q = rw e at h in
            publish_stores_lem s tracker (use_cross t c) l1 now_us after
              (e ∙ ap (λ (u : Legs F × Feed F). some u.1) (some-injective _ _ q))
      ]

  -- Done one by one and with nothing in between, the stores for a text message that does not make
  -- the feed panic leave the shared state as the feed's arm for a text does, the stores for a
  -- notification of logs and for an account update leave it as the handlers of the subscriptions
  -- do; and neither touches a field of the other or of the engine.
  pub stores_come_to_handlers :
      {Line : Type 0} (codecs : Codecs Line) (s : SharedState F) (tracker : VolatilityTracker F)
      (l l' : Legs F) (txt : Text) (now_us : ℕ) (after : Feed F) (resp : RpcLogsResponse Line)
      (update : UiAccountData Line)
      → on_text t c l (feed_of s tracker) txt now_us ≡ some (l', after)
      → (do_stores s (text_stores t c l txt now_us after) ≡ with_published after.published s)
        × (do_stores s (logs_stores codecs resp)
            ≡ with_book_state (handle_logs codecs (book_state_of s) resp) s)
        × (do_stores s (account_stores codecs update)
            ≡ with_book_state (handle_account codecs (book_state_of s) update) s)
  stores_come_to_handlers codecs s tracker l l' txt now_us after resp update h =
      let (logs, account) = subscription_stores codecs s resp update in
      (text_stores_lem s tracker l l' txt now_us after h, logs, account)
