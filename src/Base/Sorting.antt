-- ===== src/Base/Sorting.antt =====
-- A stable sort and the removal of equal neighbours, as the standard library documents them.
use mathlib.Core.Path.{◌≡◌, refl, sym, ap, ◌∙◌}
use mathlib.Core.Logic.{inl, inr}
use mathlib.Core.Bool.{Bool, true, false, ◌||◌}
use mathlib.Core.List.{List, [], ◌∷◌, Perm}
use mathlib.Core.List.Perm
use native.Mathlib.Omega.{arith}
use archer_market_maker.Base.Tests.{if◌then◌else◌, Bool-cases}
use archer_market_maker.Base.Lists.{All, All-mono}
use archer_market_maker.Base.Keys.{Eq, contains}

or_swap : (a b c : Bool) → (a || (b || c)) ≡ (b || (a || c))
or_swap a b c = ground arith

or_twice : (a b : Bool) → (a || (a || b)) ≡ (a || b)
or_twice a b = ground arith

module _ {A : Type 0} (le : A → A → Bool) where
  unfoldable pub insert_by : A → List A → List A
  insert_by x [] = x ∷ []
  insert_by x (y ∷ ys) = let rest = insert_by x ys in if le x y then x ∷ y ∷ ys else y ∷ rest

  -- `sort_by`: an element goes before the first of the later ones that it is not above.
  unfoldable pub sort_by : List A → List A
  unfolding insert_by
  sort_by [] = []
  sort_by (x ∷ xs) = insert_by x (sort_by xs)

  unfoldable pub IsSorted : List A → Type 0
  IsSorted [] = Unit
  IsSorted (x ∷ xs) = All (λ y. le x y ≡ true) xs × IsSorted xs

  insert_by-perm : (x : A) (xs : List A) → Perm (insert_by x xs) (x ∷ xs)
  unfolding insert_by
  insert_by-perm x [] = Perm.rfl
  insert_by-perm x (y ∷ ys) = elim (Bool-cases (le x y)) [
    | inl e ↦ rw e Perm.rfl
    | inr e ↦ rw e (Perm.trans (Perm.cons y (insert_by-perm x ys)) (Perm.swap x y ys))
  ]

  pub sort_by-perm : (xs : List A) → Perm (sort_by xs) xs
  unfolding sort_by
  sort_by-perm [] = Perm.rfl
  sort_by-perm (x ∷ xs) = Perm.trans (insert_by-perm x (sort_by xs)) (Perm.cons x (sort_by-perm xs))

  All-insert_by : (P : A → Type 0) (x : A) (xs : List A) → P x → All P xs → All P (insert_by x xs)
  unfolding insert_by
  All-insert_by P x [] p ps = (p, tt)
  All-insert_by P x (y ∷ ys) p (q, qs) = elim (Bool-cases (le x y)) [
    | inl e ↦ rw e (p, (q, qs))
    | inr e ↦ rw e (q, All-insert_by P x ys p qs)
  ]

  module _ (total : (a b : A) → le a b ≡ false → le b a ≡ true)
      (trans : (a b c : A) → le a b ≡ true → le b c ≡ true → le a c ≡ true) where
    insert_by-IsSorted : (x : A) (xs : List A) → IsSorted xs → IsSorted (insert_by x xs)
    unfolding insert_by IsSorted
    insert_by-IsSorted x [] s = (tt, tt)
    insert_by-IsSorted x (y ∷ ys) (below, s) = elim (Bool-cases (le x y)) [
      | inl e ↦ rw e ((e, All-mono (λ z q. trans x y z e q) ys below), (below, s))
      | inr e ↦
          rw e
            (All-insert_by (λ z. le y z ≡ true) x ys (total x y e) below, insert_by-IsSorted x ys s)
    ]

    pub sort_by-IsSorted : (xs : List A) → IsSorted (sort_by xs)
    unfolding sort_by IsSorted
    sort_by-IsSorted [] = tt
    sort_by-IsSorted (x ∷ xs) = insert_by-IsSorted x (sort_by xs) (sort_by-IsSorted xs)

module _ {K : Type 0} ⦃keys : Eq K⦄ where
  unfoldable pub dedup_from : K → List K → List K
  dedup_from k [] = []
  dedup_from k (x ∷ xs) =
      let skipped = dedup_from k xs in
      let kept = dedup_from x xs in if keys.same k x then skipped else x ∷ kept

  -- `dedup`
  unfoldable pub dedup : List K → List K
  unfolding dedup_from
  dedup [] = []
  dedup (x ∷ xs) = x ∷ dedup_from x xs

  contains-insert_by :
      (le : K → K → Bool) (x : K) (xs : List K) (k : K)
      → contains (insert_by le x xs) k ≡ contains (x ∷ xs) k
  unfolding insert_by
  contains-insert_by le x [] k = refl
  contains-insert_by le x (y ∷ ys) k = elim (Bool-cases (le x y)) [
    | inl e ↦ rw e refl
    | inr e ↦
        rw (e, contains-insert_by le x ys k)
          (or_swap (keys.same y k) (keys.same x k) (contains ys k))
  ]

  pub contains-sort_by :
      (le : K → K → Bool) (xs : List K) (k : K) → contains (sort_by le xs) k ≡ contains xs k
  unfolding sort_by
  contains-sort_by le [] k = refl
  contains-sort_by le (x ∷ xs) k =
      contains-insert_by le x (sort_by le xs) k ∙ rw (contains-sort_by le xs k) refl

  contains-dedup_from :
      (x : K) (xs : List K) (k : K)
      → (keys.same x k || contains (dedup_from x xs) k) ≡ contains (x ∷ xs) k
  unfolding dedup_from
  contains-dedup_from x [] k = refl
  contains-dedup_from x (y ∷ ys) k = elim (Bool-cases (keys.same x y)) [
    | inl e ↦
        let here : keys.same y k ≡ keys.same x k =
          ap (λ z. keys.same z k) (sym ((keys.same_iff x y).0 e)) in
        rw e (contains-dedup_from x ys k ∙ rw here (sym (or_twice (keys.same x k) (contains ys k))))
    | inr e ↦ rw (e, contains-dedup_from y ys k) refl
  ]

  pub contains-dedup : (xs : List K) (k : K) → contains (dedup xs) k ≡ contains xs k
  unfolding dedup
  contains-dedup [] k = refl
  contains-dedup (x ∷ xs) k = contains-dedup_from x xs k
