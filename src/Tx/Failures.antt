-- ===== src/Tx/Failures.antt =====
-- `consecutive_failures` over the results of sends, in the order in which they complete.
use mathlib.Core.List.{append_assoc}
use archer_market_maker.Base.{
  ℕ, zero, suc, ◌+◌, ◌-◌, ◌^◌, ◌≤◌, ◌<◌, ◌≡◌, refl, ◌↔◌, ◌⊎◌, inl, inr, sym, ap, ◌∙◌, List, [], ◌∷◌,
  ◌++◌, Option, none, some, arith, length, length-append, replicate, length-replicate,
}
use archer_market_maker.Tx.{count_result}

module _ {Signature : Type 0} where
  -- The counter after `results`, first to last.
  abbrev pub counted : ℕ → List (Option Signature) → ℕ
  counted failures [] = failures
  counted failures (r ∷ rs) = counted (count_result r failures) rs

  -- The last `n` results are failures.
  abbrev pub EndsInFailures : ℕ → List (Option Signature) → Type 0
  EndsInFailures n results =
      (before : List (Option Signature)) × (results ≡ before ++ replicate n none)

  replicate-add :
      (m n k : ℕ) (a : Option Signature)
      → m + n ≡ k
      → replicate k a ≡ replicate m a ++ replicate n a
  replicate-add zero n k a e = ap (λ j. replicate j a) (omega arith)
  replicate-add (suc m) n zero a e = absurd (omega arith)
  replicate-add (suc m) n (suc k) a e = ap (λ xs. a ∷ xs) (replicate-add m n k a (omega arith))

  same_size : (a : Option Signature) (m n : ℕ) → m ≡ n → replicate m a ≡ replicate n a
  same_size a m n e = ap (λ j. replicate j a) e

  count_failure :
      (k : ℕ) (rs : List (Option Signature))
      → k + 1 < 2 ^ 64
      → counted k (none ∷ rs) ≡ counted (k + 1) rs
  unfolding count_result
  count_failure k rs h = ap (λ j. counted j rs) (omega arith)

  pub counted-append :
      (k : ℕ) (xs ys : List (Option Signature)) → counted k (xs ++ ys) ≡ counted (counted k xs) ys
  counted-append k [] ys = refl
  counted-append k (x ∷ xs) ys = counted-append (count_result x k) xs ys

module _ (Signature : Type 0) where
  counted-replicate :
      (k n : ℕ) → k + n < 2 ^ 64 → counted k (replicate {A = Option Signature} n none) ≡ k + n
  counted-replicate k zero h = omega arith
  counted-replicate k (suc n) h =
      count_failure k (replicate {A = Option Signature} n none) (omega arith)
      ∙ counted-replicate (k + 1) n (omega arith)
      ∙ omega arith

module _ {Signature : Type 0} where
  counted-le :
      (k : ℕ) (rs : List (Option Signature)) → k + length rs < 2 ^ 64 → counted k rs ≤ k + length rs
  unfolding count_result
  counted-le k [] h = omega arith
  counted-le k (some sig ∷ rs) h = omega (arith, counted-le 0 rs (omega arith))
  counted-le k (none ∷ rs) h =
      omega (arith, counted-le (k + 1) rs (omega arith), count_failure k rs (omega arith))

  -- Either every result is a failure, or the counter is the length of the streak at the end.
  counted-cases :
      (k : ℕ) (rs : List (Option Signature))
      → k + length rs < 2 ^ 64
      → ((rs ≡ replicate (length rs) none) × (counted k rs ≡ k + length rs))
        ⊎ EndsInFailures (counted k rs) rs
  unfolding count_result
  counted-cases k [] h = inl (refl, omega arith)
  counted-cases k (some sig ∷ rs) h = elim (counted-cases 0 rs (omega arith)) [
    | inl (failed, e) ↦ inr (
      some sig ∷ [],
      ap (λ xs. some sig ∷ xs) (failed ∙ same_size none (length rs) (counted 0 rs) (omega arith)),
    )
    | inr (before, e) ↦ inr (some sig ∷ before, ap (λ xs. some sig ∷ xs) e)
  ]
  counted-cases k (none ∷ rs) h =
      let step = count_failure k rs (omega arith) in
      elim (counted-cases (k + 1) rs (omega arith)) [
        | inl (failed, e) ↦ inl (ap (λ xs. none ∷ xs) failed, step ∙ e ∙ omega arith)
        | inr (before, e) ↦ inr (
          none ∷ before,
          ap (λ xs. none ∷ xs) (e ∙ ap (λ j. before ++ replicate j none) (sym step)),
        )
      ]

  counted-EndsInFailures :
      (rs : List (Option Signature)) → length rs < 2 ^ 64 → EndsInFailures (counted 0 rs) rs
  counted-EndsInFailures rs h = elim (counted-cases 0 rs (omega arith)) [
    | inl (failed, e) ↦ ([], failed ∙ same_size none (length rs) (counted 0 rs) (omega arith))
    | inr ends ↦ ends
  ]

  -- From a counter of zero, and over fewer than 2 ^ 64 results, the counter reaches `n` exactly if
  -- the last `n` results are failures: a success in between resets it.
  pub failures_reach :
      (n : ℕ) (rs : List (Option Signature))
      → length rs < 2 ^ 64
      → (n ≤ counted 0 rs) ↔ EndsInFailures n rs
  failures_reach n rs h = (
    λ le.
        let (before, e) = counted-EndsInFailures rs h in
        let c = counted 0 rs in
        (
          before ++ replicate (c - n) none,
          e
              ∙ ap (λ xs. before ++ xs) (replicate-add (c - n) n c none (omega arith))
              ∙ sym (append_assoc before (replicate (c - n) none) (replicate n none)),
        ),
    λ (before, e).
        let size = ap length e ∙ length-append before (replicate n none) in
        let len = length-replicate {A = Option Signature} n none in
        let bound = counted-le 0 before (omega arith) in
        let at_end = counted-replicate Signature (counted 0 before) n (omega arith) in
        let all = ap (counted 0) e ∙ counted-append 0 before (replicate n none) in omega arith,
  )
