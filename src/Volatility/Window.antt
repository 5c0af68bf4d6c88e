-- ===== src/Volatility/Window.antt =====
-- The items of a ring buffer in the order in which they were written, for src/volatility.rs.
use native.Mathlib.Nat.{mod-eq_of_lt, mod-add-mod, mod-eq-sub-mod, add-zero}
use native.Mathlib.Decide.{dec_lt}
use archer_market_maker.Base.{
  ℕ, zero, suc, ◌+◌, ◌-◌, ◌%◌, ◌<◌, ◌≡◌, refl, ap, ◌∙◌, ◌≢◌, List, [], ◌∷◌, ◌++◌, arith, length,
  get_or, set, get_or-set_ne, get_or-set_self,
}

module _ {F : Type 0} (d : F) (cap : ℕ) where
  -- The `n` items from index `h` on, going round at `cap`.
  abbrev pub window : List F → ℕ → ℕ → List F
  window buf h zero = []
  window buf h (suc n) = get_or buf h d ∷ window buf ((h + 1) % cap) n

  pub length-window : (buf : List F) (h n : ℕ) → length (window buf h n) ≡ n
  length-window buf h zero = refl
  length-window buf h (suc n) = ap suc (length-window buf ((h + 1) % cap) n)

  shift_round : (h n : ℕ) → ((h + 1) % cap + n) % cap ≡ (h + suc n) % cap
  shift_round h n = rw mod-add-mod (ap (λ k. k % cap) (omega arith))

  -- A longer window has its new item at the end.
  pub window-suc :
      (buf : List F) (h n : ℕ)
      → h < cap
      → window buf h (suc n) ≡ window buf h n ++ (get_or buf ((h + n) % cap) d ∷ [])
  window-suc buf h zero lt = rw (add-zero, mod-eq_of_lt lt)
  window-suc buf h (suc n) lt = ap (◌∷◌ (get_or buf h d)) (
      window-suc buf ((h + 1) % cap) n (omega arith)
      ∙ ap (λ k. window buf ((h + 1) % cap) n ++ (get_or buf k d ∷ [])) (shift_round h n))

  -- A write to an index that a window does not visit leaves the window alone.
  pub window-set_ne :
      (buf : List F) (i : ℕ) (v : F) (h n : ℕ)
      → h < cap
      → ((k : ℕ) → k < n → i ≢ (h + k) % cap)
      → window (set buf i v) h n ≡ window buf h n
  window-set_ne buf i v h zero lt away = refl
  window-set_ne buf i v h (suc n) lt away =
      rw (get_or-set_ne buf v d λ e. away 0 (omega arith) (e ∙ here)) (
        ap (◌∷◌ (get_or buf h d)) (
          window-set_ne buf i v ((h + 1) % cap) n (omega arith)
            λ k p e. away (suc k) (omega arith) (e ∙ shift_round h k)))
    where
      here : h ≡ (h + 0) % cap
      here = rw (add-zero, mod-eq_of_lt lt)

  -- Going on from the item after `h`, fewer than `cap` steps do not come back to `h`.
  pub next_round_ne : (h k : ℕ) → h < cap → suc k < cap → h ≢ ((h + 1) % cap + k) % cap
  next_round_ne h k hh hk e = elim (dec_lt (h + suc k) cap) [
    | yes p ↦ omega (arith, e ∙ shift_round h k, mod-eq_of_lt p)
    | no p ↦ omega (
      arith,
      e ∙ shift_round h k,
      mod-eq-sub-mod {n = h + suc k} {m = cap} (omega arith),
      mod-eq_of_lt {n = h + suc k - cap} {m = cap} (omega arith),
    )
  ]

  -- One step on and `cap - 1` more is the whole round.
  pub last_of_round : (h : ℕ) → h < cap → ((h + 1) % cap + (cap - 1)) % cap ≡ h
  last_of_round h hh =
      shift_round h (cap - 1)
      ∙ omega (
        arith,
        mod-eq-sub-mod {n = h + suc (cap - 1)} {m = cap} (omega arith),
        mod-eq_of_lt {n = h + suc (cap - 1) - cap} {m = cap} (omega arith),
      )

  -- A write just behind a window, to an index that it does not visit, puts the item at its end.
  pub window-set_end :
      (buf : List F) (i : ℕ) (v : F) (h n : ℕ)
      → h < cap
      → i < length buf
      → (h + n) % cap ≡ i
      → ((k : ℕ) → k < n → i ≢ (h + k) % cap)
      → window (set buf i v) h (suc n) ≡ window buf h n ++ (v ∷ [])
  window-set_end buf i v h n hh inside e away =
      window-suc (set buf i v) h n hh
      ∙ ap (λ xs. xs ++ (get_or (set buf i v) ((h + n) % cap) d ∷ []))
          (window-set_ne buf i v h n hh away)
      ∙ ap (λ k. window buf h n ++ (get_or (set buf i v) k d ∷ [])) e
      ∙ ap (λ x. window buf h n ++ (x ∷ [])) (get_or-set_self buf i v d inside)
