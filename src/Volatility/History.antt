-- ===== src/Volatility/History.antt =====
-- The volatility tracker over a history of prices, from `VolatilityTracker::new` on.
use archer_market_maker.Base.{
  ℕ, ◌-◌, ◌^◌, ◌≤◌, ◌<◌, ◌≡◌, refl, sym, ap, ◌∙◌, inl, inr, Option, none, some, List, [], ◌∷◌, ◌++◌,
  arith, if◌then◌else◌, ◌>>=◌, length, drop, take_last, Bool-cases, length-append, length-replicate,
  length-drop, drop-append, drop-drop,
}
use mathlib.Core.List.{append-nil, append_assoc}
use archer_market_maker.Float.{F64}
use archer_market_maker.Volatility.{
  VolatilityTracker, empty_tracker, new, push, is_rejected, realized_vol,
}
use archer_market_maker.Volatility.Push.{IsValid, samples, push_refines, length-samples}
use archer_market_maker.Volatility.Returns.{std_dev, realized_vol_lem}

module _ {F : Type 0} ⦃fl : F64 F⦄ where
  open fl use {of_u64}

  pub empty_tracker-IsValid : (n : ℕ) → 0 < n → n < 2 ^ 63 → IsValid {F = F} (empty_tracker n)
  empty_tracker-IsValid n pos small = record {
    storage = length-replicate n (of_u64 0);
    small = small;
    head_in = pos;
    count_in = omega arith;
    filling = λ _. refl;
  }

  -- A window that a vector can hold makes a tracker, and any other panics.
  pub new-built : (n : ℕ) → n < 2 ^ 60 → new {F = F} n ≡ some (empty_tracker n)
  unfolding new
  new-built n small = ground arith

  pub new-panics : (n : ℕ) → 2 ^ 60 ≤ n → new {F = F} n ≡ none
  unfolding new
  new-panics n large = ground arith

  -- Successive calls of `push`.
  abbrev pub push_all : VolatilityTracker F → List F → Option (VolatilityTracker F)
  push_all t [] = some t
  push_all t (p ∷ ps) = push t p >>= λ t'. push_all t' ps

  -- The prices that `push` does not reject.
  abbrev pub accepted : List F → List F
  accepted [] = []
  accepted (p ∷ ps) = if is_rejected p then accepted ps else p ∷ accepted ps

  -- Keeping the last `n` on the way changes nothing about the last `n` at the end.
  take_last-take_last :
      (n : ℕ) (xs ys : List F) → take_last n (take_last n xs ++ ys) ≡ take_last n (xs ++ ys)
  take_last-take_last n xs ys =
      let k = length xs - n in
      ap (take_last n) (sym (drop-append k xs ys (omega arith)))
      ∙ drop-drop _ k (xs ++ ys)
      ∙ ap (λ m. drop m (xs ++ ys)) (omega (arith, length-drop k (xs ++ ys), length-append xs ys))

  take_last-all : (n : ℕ) (xs : List F) → length xs ≤ n → take_last n xs ≡ xs
  take_last-all n xs h = ap (λ k. drop k xs) (let e : length xs - n ≡ 0 = omega arith in e)

  after_push :
      (t : VolatilityTracker F) (p : F) (ps : List F)
      → IsValid t
      → take_last t.capacity (
          (if is_rejected p then samples t else take_last t.capacity (samples t ++ (p ∷ [])))
          ++ accepted ps)
        ≡ take_last t.capacity (samples t ++ accepted (p ∷ ps))
  after_push t p ps v = elim (Bool-cases (is_rejected p)) [
    | inl e ↦ rw e
    | inr e ↦ rw e (
        take_last-take_last t.capacity (samples t ++ (p ∷ [])) (accepted ps)
        ∙ ap (take_last t.capacity) (append_assoc (samples t) (p ∷ []) (accepted ps)))
  ]

  samples-push_all :
      (t : VolatilityTracker F) (ps : List F)
      → IsValid t
      → (t' : VolatilityTracker F) × (push_all t ps ≡ some t')
        × IsValid t'
        × (samples t' ≡ take_last t.capacity (samples t ++ accepted ps))
  samples-push_all t [] v = (
    t,
    refl,
    v,
    rw (append-nil (samples t))
        (sym (take_last-all t.capacity (samples t) (omega (arith, length-samples t, v.count_in)))),
  )
  samples-push_all t (p ∷ ps) v =
      let (t1, e1, v1, same, s1) = push_refines t p v in
      let (t2, e2, v2, s2) = samples-push_all t1 ps v1 in
      (
        t2,
        rw e1 e2,
        v2,
        s2
            ∙ ap (λ c. take_last c (samples t1 ++ accepted ps)) same
            ∙ ap (λ xs. take_last t.capacity (xs ++ accepted ps)) s1
            ∙ after_push t p ps v,
      )

  -- Over any history of prices a tracker of `n` places never panics, from `new` on, and its realized
  -- volatility is the deviation of the log returns of the last `n` prices that were finite and
  -- positive. Here `n` is above zero and below 2 ^ 60, as many places as a vector can have.
  pub realized_vol_history :
      (n : ℕ) (ps : List F)
      → 0 < n
      → n < 2 ^ 60
      → (new n >>= λ t. (push_all t ps >>= realized_vol))
        ≡ some (std_dev (take_last n (accepted ps)))
  realized_vol_history n ps pos small =
      let valid = empty_tracker-IsValid n pos (omega arith) in
      let (t, e, v, s) = samples-push_all (empty_tracker n) ps valid in
      rw (new-built n small, e) (realized_vol_lem t v ∙ ap (λ xs. some (std_dev xs)) (s ∙ at_start))
    where
      at_start :
          take_last (empty_tracker {F = F} n).capacity (samples (empty_tracker n) ++ accepted ps)
          ≡ take_last n (accepted ps)
      at_start = refl
