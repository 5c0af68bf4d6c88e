-- ===== src/Feed/Publish.antt =====
-- What the feed publishes, and that it never panics.
use archer_market_maker.Base.{
  ℕ, ◌≡◌, refl, ◌⊎◌, inl, inr, List, [], ◌∷◌, none, some, Bool, true, false, ◌||◌, arith,
  Bool-cases, Option-cases, ◌++◌, if◌then◌else◌, take_last,
}
use archer_market_maker.Float.{F64}
use archer_market_maker.Volatility.{is_rejected, realized_vol_bps}
use archer_market_maker.Volatility.Push.{IsValid, samples, push_refines}
use archer_market_maker.Volatility.Returns.{std_dev, realized_vol_lem}
use archer_market_maker.Feed.State.{
  Texts, FeedSettings, Feed, Legs, Event, cancelled, text, ping, closed, failed, other, Reading,
}
use archer_market_maker.Feed.{
  handle_tick, prices_of, notify, publish, legs_after, on_text, read_loop, use_cross,
}

module _ {F : Type 0} ⦃fl : F64 F⦄ where
  open fl use {of_u64, half, add, mul, div, le}

  -- What a tick does: the tracker takes the mid as its latest sample and gives up the oldest if it
  -- is full, unless it rejects the mid; and what is published is the mid, the time, and the
  -- volatility of the samples in basis points.
  abbrev pub Ticked : ℕ → F → F → Feed F → Feed F → Type 0
  Ticked now_us bid ask state state' =
      (samples state'.vol_tracker ≡ (
        if is_rejected (mul (add bid ask) half)
        then samples state.vol_tracker
        else take_last state.vol_tracker.capacity
            (samples state.vol_tracker ++ (mul (add bid ask) half ∷ []))))
      × (state'.vol_tracker.capacity ≡ state.vol_tracker.capacity)
      × (state'.published.mid_price ≡ mul (add bid ask) half)
      × (state'.published.price_timestamp_us ≡ now_us)
      × (state'.published.volatility_bps
          ≡ mul (std_dev (samples state'.vol_tracker)) (of_u64 10_000))

  handle_tick-Ticked :
      (state : Feed F) (now_us : ℕ) (bid ask : F)
      → IsValid state.vol_tracker
      → (state' : Feed F) × (handle_tick state now_us bid ask ≡ some state')
        × IsValid state'.vol_tracker
        × Ticked now_us bid ask state state'
  unfolding handle_tick realized_vol_bps
  handle_tick-Ticked state now_us bid ask v =
      let (tracker, pushed, v', same, latest) =
        push_refines state.vol_tracker (mul (add bid ask) half) v in
      (
        record {
          published = record state.published {
            mid_price = mul (add bid ask) half;
            price_timestamp_us = now_us;
            volatility_bps = mul (std_dev (samples tracker)) (of_u64 10_000);
          };
          vol_tracker = tracker;
        },
        rw (pushed, realized_vol_lem tracker v') refl,
        v',
        (latest, same, refl, refl, refl),
      )

  -- Both prices of every leg that counts are above zero.
  abbrev pub IsReady : Bool → Legs F → Type 0
  IsReady use_cross l =
      (le l.primary_bid (of_u64 0) ≡ false)
      × (le l.primary_ask (of_u64 0) ≡ false)
      × ((use_cross ≡ false)
          ⊎ ((le l.cross_bid (of_u64 0) ≡ false) × (le l.cross_ask (of_u64 0) ≡ false)))

  -- The price of the primary leg, in units of the cross leg's mid if there is one.
  abbrev pub quoted : Bool → Legs F → F → F
  quoted false l price = price
  quoted true l price = div price (mul (add l.cross_bid l.cross_ask) half)

  prices_of-IsReady :
      (use_cross : Bool) (l : Legs F)
      → (IsReady use_cross l
          × (prices_of use_cross l
              ≡ some (quoted use_cross l l.primary_bid, quoted use_cross l l.primary_ask)))
        ⊎ ((¬ IsReady use_cross l) × (prices_of use_cross l ≡ none))
  unfolding prices_of
  prices_of-IsReady use_cross l =
      elim (Bool-cases (le l.primary_bid (of_u64 0) || le l.primary_ask (of_u64 0))) [
        | inl e ↦ inr (λ r. ground arith, rw e refl)
        | inr e ↦ go use_cross e
      ]
    where
      go :
          (u : Bool)
          → (le l.primary_bid (of_u64 0) || le l.primary_ask (of_u64 0)) ≡ false
          → (IsReady u l
              × (prices_of u l ≡ some (quoted u l l.primary_bid, quoted u l l.primary_ask)))
            ⊎ ((¬ IsReady u l) × (prices_of u l ≡ none))
      go false e = inl ((ground arith, ground arith, inl refl), rw e refl)
      go true e = elim (Bool-cases (le l.cross_bid (of_u64 0) || le l.cross_ask (of_u64 0))) [
        | inl e' ↦ inr (λ r. ground arith, rw (e, e') refl)
        | inr e' ↦
            inl ((ground arith, ground arith, inr (ground arith, ground arith)), rw (e, e') refl)
      ]

  -- What becomes of the state once a leg has changed.
  abbrev pub Publishes : Bool → Legs F → ℕ → Feed F → Feed F → Type 0
  Publishes use_cross l now_us state state' =
      (IsReady use_cross l
        × Ticked now_us (quoted use_cross l l.primary_bid) (quoted use_cross l l.primary_ask) state
            state'
        × (state'.published.price_notify ≡ true)
        × (state'.published.feed_alive ≡ true))
      ⊎ ((¬ IsReady use_cross l) × (state' ≡ state))

  publish-Publishes :
      (use_cross : Bool) (l : Legs F) (now_us : ℕ) (state : Feed F)
      → IsValid state.vol_tracker
      → (state' : Feed F) × (publish use_cross l now_us state ≡ some state')
        × IsValid state'.vol_tracker
        × Publishes use_cross l now_us state state'
  unfolding publish notify
  publish-Publishes use_cross l now_us state v = elim (prices_of-IsReady use_cross l) [
    | inr (waits, e) ↦ (state, rw (e, publish) refl, v, inr (waits, refl))
    | inl (ready, e) ↦
        let (state', ticks, v', ticked) =
          handle_tick-Ticked state now_us (quoted use_cross l l.primary_bid)
            (quoted use_cross l l.primary_ask) v in
        (notify state', rw (e, ticks, publish) refl, v', inl (ready, ticked, refl, refl))
  ]

module _ {F Text : Type 0} ⦃fl : F64 F⦄ (t : Texts F Text) (c : FeedSettings Text) where
  -- On a valid tracker no text message makes the feed panic. A message that changes no leg changes
  -- nothing. After one that does, if every leg that counts has a bid and an ask above zero, the
  -- tracker takes their mid, in units of the cross leg's mid if there is one, as its latest sample,
  -- in place of the oldest if it is full and unless the mid is no finite positive number; the feed
  -- publishes the mid, the time and the volatility of the samples that the tracker then has, wakes
  -- the engine and counts as alive. Else it publishes nothing.
  pub on_text_lem :
      (l : Legs F) (state : Feed F) (txt : Text) (now_us : ℕ)
      → IsValid state.vol_tracker
      → (l' : Legs F) × (state' : Feed F) × (on_text t c l state txt now_us ≡ some (l', state'))
        × IsValid state'.vol_tracker
        × (((legs_after t c l txt ≡ none) × (l' ≡ l) × (state' ≡ state))
            ⊎ ((legs_after t c l txt ≡ some l') × Publishes (use_cross t c) l' now_us state state'))
  unfolding on_text
  on_text_lem l state txt now_us v = elim (Option-cases (legs_after t c l txt)) [
    | inl e ↦ (l, state, rw (e, on_text) refl, v, inl (e, refl, refl))
    | inr (l', e) ↦
        let (state', published, v', how) = publish-Publishes (use_cross t c) l' now_us state v in
        (l', state', rw (e, published, on_text) refl, v', inr (e, how))
  ]

  -- On a valid tracker no sequence of events makes the feed panic.
  pub read_loop-IsValid :
      (l : Legs F) (state : Feed F) (es : List (Event Text))
      → IsValid state.vol_tracker
      → (state' : Feed F) × (how : Reading) × (read_loop t c l state es ≡ some (state', how))
        × IsValid state'.vol_tracker
  unfolding read_loop
  read_loop-IsValid l state [] v = (state, _, refl, v)
  read_loop-IsValid l state (cancelled ∷ es) v = (state, _, refl, v)
  read_loop-IsValid l state (closed ∷ es) v = (state, _, refl, v)
  read_loop-IsValid l state (failed ∷ es) v = (state, _, refl, v)
  read_loop-IsValid l state (ping ∷ es) v = read_loop-IsValid l state es v
  read_loop-IsValid l state (other ∷ es) v = read_loop-IsValid l state es v
  read_loop-IsValid l state (text txt now_us ∷ es) v =
      let (l', state1, e1, v1, _) = on_text_lem l state txt now_us v in
      let (state2, how, e2, v2) = read_loop-IsValid l' state1 es v1 in (state2, how, rw e1 e2, v2)
