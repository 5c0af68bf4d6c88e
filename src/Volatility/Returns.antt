-- ===== src/Volatility/Returns.antt =====
-- `VolatilityTracker::realized_vol` against the deviation of a plain list of prices.
use archer_market_maker.Base.{
  ℕ, zero, suc, ◌+◌, ◌-◌, ◌%◌, ◌≤◌, ◌<◌, ◌≡◌, refl, sym, ap, ◌∙◌, some, List, [], ◌∷◌, arith,
  length, get_or, add_u64, lt→ltb, ge→ltb, get_elem?-eq-get_or, foldl, checked_mod, get_elem?,
}
use native.Mathlib.Nat.{mod-eq_of_lt, mod-add-mod}
use native.Mathlib.Decide.{dec_lt}
use archer_market_maker.Float.{F64}
use archer_market_maker.Volatility.{VolatilityTracker, sum_returns, deviation, realized_vol}
use archer_market_maker.Volatility.Window.{window, length-window}
use archer_market_maker.Volatility.Push.{IsValid, samples, start_of, length-samples}

checked_mod_room : (x n : ℕ) → 0 < n → checked_mod x n ≡ some (x % n)
checked_mod_room x zero h = absurd (omega arith)
checked_mod_room x (suc n) h = refl

module _ {F : Type 0} ⦃fl : F64 F⦄ where
  open fl use {of_u64, add, mul, div, ln}

  -- The log returns between neighbours of a list that begins with `prev`.
  abbrev pub log_returns : F → List F → List F
  log_returns prev [] = []
  log_returns prev (p ∷ ps) = ln (div p prev) ∷ log_returns p ps

  abbrev pub sum_squares : F → List F → F
  sum_squares = foldl (λ acc r. add acc (mul r r))

  -- The deviation of the log returns of a list of prices, or 0 if there are fewer than two.
  abbrev pub std_dev : List F → F
  std_dev [] = of_u64 0
  std_dev (p ∷ []) = of_u64 0
  std_dev (p ∷ q ∷ ps) =
      let returns = log_returns p (q ∷ ps) in
      deviation (length returns) (foldl add (of_u64 0) returns) (sum_squares (of_u64 0) returns)

  read :
      (t : VolatilityTracker F) (x : ℕ)
      → IsValid t
      → get_elem? t.prices (x % t.capacity) ≡ some (get_or t.prices (x % t.capacity) (of_u64 0))
  read t x v =
      get_elem?-eq-get_or t.prices (x % t.capacity) (of_u64 0) (omega (arith, v.storage, v.head_in))

  sum_returns_lem :
      (t : VolatilityTracker F) (rounds i start : ℕ) (prev sum sum_sq : F)
      → IsValid t
      → start < t.capacity
      → i + rounds ≤ t.capacity
      → let returns =
          log_returns prev
            (window (of_u64 0) t.capacity t.prices ((start + i) % t.capacity) rounds) in
        sum_returns t rounds i start prev sum sum_sq
        ≡ some (foldl add sum returns, sum_squares sum_sq returns)
  unfolding sum_returns
  sum_returns_lem t zero i start prev sum sum_sq v hs hi = refl
  sum_returns_lem t (suc rounds) i start prev sum sum_sq v hs hi = rw (
    no_wrap,
    checked_mod_room (start + i) t.capacity (omega (arith, v.head_in)),
    read t (start + i) v,
    sum_returns_lem t rounds (i + 1) start _ _ _ v hs (omega arith),
    next,
  )
    where
      no_wrap : add_u64 start i ≡ start + i
      no_wrap = omega (arith, v.small)

      next : (start + (i + 1)) % t.capacity ≡ ((start + i) % t.capacity + 1) % t.capacity
      next = rw mod-add-mod (ap (λ k. k % t.capacity) (omega arith))

  length-log_returns : (p : F) (ps : List F) → length (log_returns p ps) ≡ length ps
  length-log_returns p [] = refl
  length-log_returns p (q ∷ ps) = ap suc (length-log_returns q ps)

  std_dev_short : (ps : List F) → length ps < 2 → std_dev ps ≡ of_u64 0
  std_dev_short [] h = refl
  std_dev_short (p ∷ []) h = refl
  std_dev_short (p ∷ q ∷ ps) h = absurd (omega arith)

  std_dev-cons :
      (p : F) (ps : List F)
      → 0 < length ps
      → let returns = log_returns p ps in
        std_dev (p ∷ ps)
        ≡ deviation (length ps) (foldl add (of_u64 0) returns) (sum_squares (of_u64 0) returns)
  std_dev-cons p [] h = absurd (omega arith)
  std_dev-cons p (q ∷ ps) h = rw (length-log_returns q ps)

  window_of_pos :
      (t : VolatilityTracker F) (h n : ℕ)
      → 0 < n
      → window (of_u64 0) t.capacity t.prices h n
        ≡ get_or t.prices h (of_u64 0)
          ∷ window (of_u64 0) t.capacity t.prices ((h + 1) % t.capacity) (n - 1)
  window_of_pos t h zero lt = absurd (omega arith)
  window_of_pos t h (suc n) lt =
      ap (λ k. window (of_u64 0) t.capacity t.prices h (suc k)) (omega arith)

  start-lt : (t : VolatilityTracker F) → IsValid t → start_of t < t.capacity
  start-lt t v = ground (arith, v.head_in)

  realized_vol_long :
      (t : VolatilityTracker F)
      → IsValid t
      → ¬ (t.count < 2)
      → realized_vol t ≡ some (std_dev (samples t))
  unfolding realized_vol
  realized_vol_long t v h =
      let start = start_of t in
      let rest = window (of_u64 0) t.capacity t.prices ((start + 1) % t.capacity) (t.count - 1) in
      let first : start % t.capacity ≡ start = mod-eq_of_lt (start-lt t v) in
      let length_rest : length rest ≡ t.count - 1 =
        length-window (of_u64 0) t.capacity t.prices ((start + 1) % t.capacity) (t.count - 1) in
      let prev = get_or t.prices start (of_u64 0) in
      let returns = log_returns prev rest in
      let runs : realized_vol t
          ≡ some (
              deviation (t.count - 1) (foldl add (of_u64 0) returns)
                (sum_squares (of_u64 0) returns)) =
        rw
          (
            ge→ltb _ _ h,
            checked_mod_room start t.capacity (omega (arith, v.head_in)),
            read t start v,
          )
          (rw (
            sum_returns_lem t (t.count - 1) 1 start _ _ _ v (start-lt t v)
                (omega (arith, v.count_in)),
            first,
          )) in
      let spec : std_dev (samples t)
          ≡ deviation (t.count - 1) (foldl add (of_u64 0) returns)
              (sum_squares (of_u64 0) returns) =
        ap std_dev (window_of_pos t start t.count (omega arith))
        ∙ std_dev-cons prev rest (omega (arith, length_rest))
        ∙ ap (λ n. deviation n (foldl add (of_u64 0) returns) (sum_squares (of_u64 0) returns))
            length_rest in
      runs ∙ ap some (sym spec)

  -- On a valid tracker `realized_vol` does not panic: it is the deviation of the log returns of the
  -- samples in the order in which they arrived, whatever the arithmetic of floats does.
  pub realized_vol_lem :
      (t : VolatilityTracker F) → IsValid t → realized_vol t ≡ some (std_dev (samples t))
  unfolding realized_vol
  realized_vol_lem t v = elim (dec_lt t.count 2) [
    | yes h ↦ rw (lt→ltb _ _ h, std_dev_short (samples t) (omega (arith, length-samples t)))
    | no h ↦ realized_vol_long t v h
  ]
