-- ===== src/Quote/Rebase.antt =====
-- What `build_book_update` makes of the sdk's update for a limit-order book.
use native.Mathlib.Decide.{dec_lt}
use archer_market_maker.Base.{
  ℕ, ◌+◌, ◌^◌, ◌<◌, ◌≡◌, refl, ◌⊎◌, inl, inr, List, [], ◌∷◌, map, none, some, true, false, arith,
  All, lt→ltb, ge→ltb, Option-cases,
}
use archer_market_maker.Base.Int.{pos, pos_part, neg_part, ◌+ℤ◌, checked_add, try_from_u64}
use archer_market_maker.Sdk.{Level, BookUpdate, QuoteMath}
use archer_market_maker.Quote.{rebase_level, rebase_levels, pin_to_zero, build_book_update}

try_from_u64-cases :
    (n : ℕ)
    → ((n < 2 ^ 63) × (try_from_u64 n ≡ some (pos n)))
      ⊎ ((¬ (n < 2 ^ 63)) × (try_from_u64 n ≡ none))
unfolding try_from_u64
try_from_u64-cases n = elim (dec_lt n (2 ^ 63)) [
  | yes h ↦ inl (h, rw (lt→ltb _ _ h))
  | no h ↦ inr (h, rw (ge→ltb _ _ h))
]

module _ {S : Type 0} where
  -- The absolute tick of a level is positive and an `i64`, where the sdk's mid is `mid`.
  abbrev pub Fits : ℕ → Level S → Type 0
  Fits mid l =
      let offset = l.price_offset_ticks in
      (neg_part offset < pos_part offset + mid) × (pos_part offset + mid < 2 ^ 63 + neg_part offset)

  -- A level at its absolute tick.
  abbrev pub absolute_level : ℕ → Level S → Level S
  absolute_level mid l = record l { price_offset_ticks = l.price_offset_ticks +ℤ pos mid }

  rebase_level-Fits_yes :
      (mid : ℕ) (l : Level S) → Fits mid l → rebase_level (pos mid) l ≡ some (absolute_level mid l)
  unfolding rebase_level checked_add ◌+ℤ◌
  rebase_level-Fits_yes mid l h = ground arith

  rebase_level_low :
      (mid : ℕ) (l : Level S)
      → let offset = l.price_offset_ticks in
        ¬ (neg_part offset < pos_part offset + mid) → rebase_level (pos mid) l ≡ none
  unfolding rebase_level checked_add ◌+ℤ◌
  rebase_level_low mid l h = ground arith

  rebase_level_high :
      (mid : ℕ) (l : Level S)
      → let offset = l.price_offset_ticks in
        ¬ (pos_part offset + mid < 2 ^ 63 + neg_part offset) → rebase_level (pos mid) l ≡ none
  unfolding rebase_level checked_add ◌+ℤ◌
  rebase_level_high mid l h = ground arith

  rebase_level-Fits :
      (mid : ℕ) (l : Level S)
      → (Fits mid l × (rebase_level (pos mid) l ≡ some (absolute_level mid l)))
        ⊎ ((¬ Fits mid l) × (rebase_level (pos mid) l ≡ none))
  rebase_level-Fits mid l =
      let offset = l.price_offset_ticks in
      elim (dec_lt (neg_part offset) (pos_part offset + mid)) [
        | no low ↦ inr (λ fits. low fits.0, rebase_level_low mid l low)
        | yes positive ↦ elim (dec_lt (pos_part offset + mid) (2 ^ 63 + neg_part offset)) [
          | no high ↦ inr (λ fits. high fits.1, rebase_level_high mid l high)
          | yes small ↦ inl ((positive, small), rebase_level-Fits_yes mid l (positive, small))
        ]
      ]

  rebase_levels-Fits :
      (mid : ℕ) (ls : List (Level S))
      → (All (Fits mid) ls × (rebase_levels (pos mid) ls ≡ some (map (absolute_level mid) ls)))
        ⊎ ((¬ All (Fits mid) ls) × (rebase_levels (pos mid) ls ≡ none))
  unfolding rebase_levels
  rebase_levels-Fits mid [] = inl (tt, refl)
  rebase_levels-Fits mid (l ∷ ls) = elim (rebase_level-Fits mid l) [
    | inr (bad, e) ↦ inr (λ all. bad all.0, rw e)
    | inl (good, e) ↦ elim (rebase_levels-Fits mid ls) [
      | inr (bad, e') ↦ inr (λ all. bad all.1, rw (e, e'))
      | inl (rest, e') ↦ inl ((good, rest), rw (e, e'))
    ]
  ]

  -- The mid is an `i64`, and so is every level's absolute tick, which is positive.
  abbrev pub IsAbsolutable : BookUpdate S → Type 0
  IsAbsolutable u =
      (u.new_mid_price_ticks < 2 ^ 63)
      × All (Fits u.new_mid_price_ticks) u.bid_levels
      × All (Fits u.new_mid_price_ticks) u.ask_levels

  -- The update with every level at its absolute tick, and the mid pinned to zero.
  abbrev pub absolute : BookUpdate S → BookUpdate S
  absolute u = record {
    new_mid_price_ticks = 0;
    mid_price_changed = false;
    bid_levels = map (absolute_level u.new_mid_price_ticks) u.bid_levels;
    ask_levels = map (absolute_level u.new_mid_price_ticks) u.ask_levels;
  }

  pin_to_zero_lem :
      (u : BookUpdate S)
      → (IsAbsolutable u × (pin_to_zero u ≡ some (absolute u)))
        ⊎ ((¬ IsAbsolutable u) × (pin_to_zero u ≡ none))
  unfolding pin_to_zero
  pin_to_zero_lem u = elim (try_from_u64-cases u.new_mid_price_ticks) [
    | inr (bad, e) ↦ inr (λ all. bad all.0, rw e)
    | inl (small, e) ↦ elim (rebase_levels-Fits u.new_mid_price_ticks u.bid_levels) [
      | inr (bad, e') ↦ inr (λ all. bad all.1, rw (e, e'))
      | inl (bids, e') ↦ elim (rebase_levels-Fits u.new_mid_price_ticks u.ask_levels) [
        | inr (bad, e'') ↦ inr (λ all. bad all.2, rw (e, e', e''))
        | inl (asks, e'') ↦ inl ((small, bids, asks), rw (e, e', e''))
      ]
    ]
  ]

module _ {F Market Quotes S : Type 0} (sdk : QuoteMath F Market Quotes S) where
  -- If the sdk builds an update, then for a limit-order book the result is that update with every
  -- level moved to its absolute tick, the mid zero and unchanged, and all else as before, exactly
  -- when the mid is an `i64` and every absolute tick is a positive `i64`; otherwise it is an error.
  pub build_book_update_lo :
      (quotes : Quotes) (current_mid : ℕ) (market : Market) (u : BookUpdate S)
      → sdk.build_levels quotes current_mid market ≡ some u
      → let built = build_book_update sdk quotes current_mid market true in
        (IsAbsolutable u × (built ≡ some (absolute u))) ⊎ ((¬ IsAbsolutable u) × (built ≡ none))
  unfolding build_book_update
  build_book_update_lo quotes current_mid market u e = rw e (pin_to_zero_lem u)

  -- An update for a limit-order book never moves the mid.
  pub build_book_update-mid :
      (quotes : Quotes) (current_mid : ℕ) (market : Market) {u : BookUpdate S}
      → build_book_update sdk quotes current_mid market true ≡ some u
      → (u.mid_price_changed ≡ false) × (u.new_mid_price_ticks ≡ 0)
  unfolding build_book_update
  build_book_update-mid quotes current_mid market e =
      elim (Option-cases (sdk.build_levels quotes current_mid market)) [
        | inl missing ↦ let e' = rw missing at e in (cc, cc)
        | inr (u, built) ↦ elim (pin_to_zero_lem u) [
          | inl (_, pinned) ↦ let e' = rw (built, pinned) at e in (cc, cc)
          | inr (_, failed) ↦ let e' = rw (built, failed) at e in (cc, cc)
        ]
      ]
