-- ===== src/Volatility/Push.antt =====
-- `VolatilityTracker::push` against a queue that keeps the last `capacity` prices.
use native.Mathlib.Nat.{mod-eq_of_lt, mod-eq-sub-mod}
use native.Mathlib.Numerals.{add-one}
use native.Mathlib.Decide.{dec_lt}
use archer_market_maker.Base.{
  ℕ, suc, ◌+◌, ◌-◌, ◌%◌, ◌^◌, ◌≤◌, ◌<◌, ◌≡◌, refl, sym, ap, ◌∙◌, inl, inr, true, false, some, List,
  [], ◌∷◌, ◌++◌, arith, ltb, if◌then◌else◌, length, set, drop, take_last, Bool-cases, length-set,
  length-append, drop-append, lt→ltb, ge→ltb,
}
use archer_market_maker.Float.{F64}
use archer_market_maker.Volatility.{VolatilityTracker, push, is_rejected}
use archer_market_maker.Volatility.Window.{
  window, length-window, window-set_end, next_round_ne, last_of_round,
}

-- The representation invariant. A `Vec` holds fewer than 2 ^ 63 items.
pub record IsValid {F : Type 0} (t : VolatilityTracker F) : Type 0 where
  pub storage : length t.prices ≡ t.capacity
  pub small : t.capacity < 2 ^ 63
  pub head_in : t.head < t.capacity
  pub count_in : t.count ≤ t.capacity
  pub filling : t.count < t.capacity → t.head ≡ t.count

module _ {F : Type 0} ⦃fl : F64 F⦄ where
  open fl use {of_u64}

  abbrev pub start_of : VolatilityTracker F → ℕ
  start_of t = if ltb t.count t.capacity then 0 else t.head

  -- The prices that the tracker holds, oldest first.
  abbrev pub samples : VolatilityTracker F → List F
  samples t = window (of_u64 0) t.capacity t.prices (start_of t) t.count

  -- What `push` leaves when it accepts a price.
  abbrev pub pushed : VolatilityTracker F → F → VolatilityTracker F
  pushed t p = record {
    prices = set t.prices t.head p;
    head = (t.head + 1) % t.capacity;
    count = if ltb t.count t.capacity then t.count + 1 else t.count;
    capacity = t.capacity;
  }

  push-pushed :
      (t : VolatilityTracker F) (p : F)
      → IsValid t
      → is_rejected p ≡ false
      → push t p ≡ some (pushed t p)
  unfolding push
  push-pushed t p v e =
      let room : t.capacity ≡ suc (t.capacity - 1) = omega arith in
      let inside : ltb t.head (length t.prices) ≡ true = rw v.storage (ground arith) in ground arith

  push-rejected : (t : VolatilityTracker F) (p : F) → is_rejected p ≡ true → push t p ≡ some t
  unfolding push
  push-rejected t p e = rw e

  pushed-IsValid : (t : VolatilityTracker F) (p : F) → IsValid t → IsValid (pushed t p)
  pushed-IsValid t p v =
      let kept : length (set t.prices t.head p) ≡ t.capacity =
        length-set t.prices t.head p ∙ v.storage in
      elim (dec_lt t.count t.capacity) [
        | yes h ↦ rw (lt→ltb _ _ h) (record {
          storage = kept;
          small = v.small;
          head_in = omega arith;
          count_in = omega arith;
          filling = λ below. omega (
            arith,
            v.filling h,
            mod-eq_of_lt {n = t.head + 1} {m = t.capacity} (omega (arith, v.filling h)),
          );
        })
        | no h ↦ rw (ge→ltb _ _ h) (record {
          storage = kept;
          small = v.small;
          head_in = omega arith;
          count_in = v.count_in;
          filling = λ below. absurd (h below);
        })
      ]

  -- While there is room, a price goes to the end of the samples.
  samples-filling :
      (t : VolatilityTracker F) (p : F)
      → IsValid t
      → t.count < t.capacity
      → samples (pushed t p) ≡ samples t ++ (p ∷ [])
  samples-filling t p v h =
      let at_count = v.filling h in
      rw (lt→ltb _ _ h) (
        rw (start, add-one)
          (window-set_end (of_u64 0) t.capacity t.prices t.head p 0 t.count (omega arith)
            (omega (arith, v.storage)) (here t.count h ∙ sym at_count)
            (λ k below e. omega (arith, e, here k (omega arith)))))
    where
      here : (k : ℕ) → k < t.capacity → (0 + k) % t.capacity ≡ k
      here k below = mod-eq_of_lt {n = 0 + k} {m = t.capacity} (omega arith) ∙ omega arith

      round_end : t.head + 1 ≡ t.capacity → (t.head + 1) % t.capacity ≡ 0
      round_end e = omega (
        arith,
        mod-eq-sub-mod {n = t.head + 1} {m = t.capacity} (omega arith),
        mod-eq_of_lt {n = t.head + 1 - t.capacity} {m = t.capacity} (omega arith),
      )

      start : (if ltb (t.count + 1) t.capacity then 0 else (t.head + 1) % t.capacity) ≡ 0
      start = elim (dec_lt (t.count + 1) t.capacity) [
        | yes more ↦ rw (lt→ltb _ _ more)
        | no last ↦ rw (ge→ltb _ _ last) (round_end (omega (arith, v.filling h)))
      ]

  -- A full tracker gives up its oldest price.
  samples-full :
      (t : VolatilityTracker F) (p : F)
      → IsValid t
      → ¬ (t.count < t.capacity)
      → samples (pushed t p) ≡ drop 1 (samples t) ++ (p ∷ [])
  samples-full t p v h =
      let full : t.count ≡ suc (t.capacity - 1) = omega arith in
      rw (ge→ltb _ _ h, ge→ltb _ _ h)
        (rw full (
          window-set_end (of_u64 0) t.capacity t.prices t.head p ((t.head + 1) % t.capacity)
            (t.capacity - 1) (omega arith) (omega (arith, v.storage))
            (last_of_round (of_u64 0) t.capacity t.head v.head_in)
            (λ k below. next_round_ne (of_u64 0) t.capacity t.head k v.head_in (omega arith))))

  pub length-samples : (t : VolatilityTracker F) → length (samples t) ≡ t.count
  length-samples t = length-window (of_u64 0) t.capacity t.prices (start_of t) t.count

  samples-pushed :
      (t : VolatilityTracker F) (p : F)
      → IsValid t
      → samples (pushed t p) ≡ take_last t.capacity (samples t ++ (p ∷ []))
  samples-pushed t p v = elim (dec_lt t.count t.capacity) [
    | yes h ↦ samples-filling t p v h ∙ ap (λ k. drop k (samples t ++ (p ∷ []))) (kept h)
    | no h ↦
        samples-full t p v h
        ∙ sym (drop-append 1 (samples t) (p ∷ []) (omega (arith, length-samples t)))
        ∙ ap (λ k. drop k (samples t ++ (p ∷ []))) (dropped h)
  ]
    where
      count : length (samples t ++ (p ∷ [])) ≡ t.count + 1
      count = omega (arith, length-append (samples t) (p ∷ []), length-samples t)

      kept : t.count < t.capacity → 0 ≡ length (samples t ++ (p ∷ [])) - t.capacity
      kept h = omega (arith, count)

      dropped : ¬ (t.count < t.capacity) → 1 ≡ length (samples t ++ (p ∷ [])) - t.capacity
      dropped h = omega (arith, count)

  -- On a valid tracker `push` does not panic and keeps the tracker valid. A price that is not
  -- finite or not positive changes nothing; any other becomes the newest sample, and of the samples
  -- the last `capacity` are kept.
  pub push_refines :
      (t : VolatilityTracker F) (p : F)
      → IsValid t
      → (t' : VolatilityTracker F) × (push t p ≡ some t')
        × IsValid t'
        × (t'.capacity ≡ t.capacity)
        × (samples t'
            ≡ (if is_rejected p then samples t else take_last t.capacity (samples t ++ (p ∷ []))))
  push_refines t p v = elim (Bool-cases (is_rejected p)) [
    | inl e ↦ (t, push-rejected t p e, v, refl, rw e)
    | inr e ↦
        (pushed t p, push-pushed t p v e, pushed-IsValid t p v, refl, rw e (samples-pushed t p v))
  ]
