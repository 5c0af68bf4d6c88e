-- ===== src/Commands/View/Best.antt =====
-- The best prices of `markets view`, under the laws of numbers.
use mathlib.Core.Path.{subst}
use archer_market_maker.Base.{
  ℕ, ◌≡◌, refl, sym, ap, ◌∙◌, ◌⊎◌, inl, inr, List, [], ◌∷◌, map, foldl, Option, none, some, true,
  All,
}
use archer_market_maker.Float.{F64}
use archer_market_maker.Commands.Chain.{MakerBook}
use archer_market_maker.Commands.View.{merge, priced, merge_book, best_prices}

-- What a choice of the better of two numbers does; `Worse a b` says that `b` is as good as `a`.
pub record IsChoice {F : Type 0} (number : F → Type 0) (Worse : F → F → Type 0) (f : F → F → F)
    : Type 0 where
  pub chooses : (a b : F) → number a → number b → (f a b ≡ a) ⊎ (f a b ≡ b)
  pub left_worse : (a b : F) → number a → number b → Worse a (f a b)
  pub right_worse : (a b : F) → number a → number b → Worse b (f a b)
  pub worse_self : (a : F) → number a → Worse a a
  pub worse_trans : (a b c : F) → Worse a b → Worse b c → Worse a c

module _ {F : Type 0} (number : F → Type 0) where
  abbrev pub IsNumber : Option F → Type 0
  IsNumber none = Unit
  IsNumber (some a) = number a

module _ {F : Type 0} (number : F → Type 0) (Worse : F → F → Type 0) where
  abbrev pub IsWorse : F → Option F → Type 0
  IsWorse b none = Unit
  IsWorse b (some a) = Worse a b

  abbrev pub Occurs : F → List (Option F) → Type 0
  Occurs b [] = ⊥
  Occurs b (o ∷ os) = (o ≡ some b) ⊎ Occurs b os

  -- That a result is the best of some optional prices: there is none where there are none, and
  -- otherwise it is one of them and none is better.
  abbrev pub IsBest : List (Option F) → Option F → Type 0
  IsBest os none = All (λ o. o ≡ none) os
  IsBest os (some b) = Occurs b os × All (IsWorse b) os

  module _ (f : F → F → F) (choice : IsChoice number Worse f) where
    open choice use {chooses, left_worse, right_worse, worse_self, worse_trans}

    merge-IsNumber :
        (acc o : Option F)
        → IsNumber number acc
        → IsNumber number o
        → IsNumber number (merge f acc o)
    merge-IsNumber acc none p q = p
    merge-IsNumber none (some a) p q = q
    merge-IsNumber (some b) (some a) p q = elim (chooses b a p q) [
      | inl e ↦ subst number (sym e) p
      | inr e ↦ subst number (sym e) q
    ]

    merge-IsBest :
        (acc o : Option F) (os : List (Option F)) (r : Option F)
        → IsNumber number acc
        → IsNumber number o
        → IsBest (merge f acc o ∷ os) r
        → IsBest (acc ∷ o ∷ os) r
    merge-IsBest acc none os none p q (e, rest) = (e, (refl, rest))
    merge-IsBest acc none os (some b) p q (inl e, (w, rest)) = (inl e, (w, (tt, rest)))
    merge-IsBest acc none os (some b) p q (inr later, (w, rest)) =
        (inr (inr later), (w, (tt, rest)))
    merge-IsBest none (some a) os none p q (e, rest) = (refl, (e, rest))
    merge-IsBest none (some a) os (some b) p q (there, (w, rest)) = (inr there, (tt, (w, rest)))
    merge-IsBest (some c) (some a) os none p q (e, rest) = absurd (cc)
    merge-IsBest (some c) (some a) os (some b) p q (inl e, (w, rest)) = (
      elim (chooses c a p q) [
        | inl same ↦ inl (ap some (sym same) ∙ e)
        | inr same ↦ inr (inl (ap some (sym same) ∙ e))
      ],
      (
        worse_trans c (f c a) b (left_worse c a p q) w,
        (worse_trans a (f c a) b (right_worse c a p q) w, rest),
      ),
    )
    merge-IsBest (some c) (some a) os (some b) p q (inr later, (w, rest)) = (
      inr (inr later),
      (
        worse_trans c (f c a) b (left_worse c a p q) w,
        (worse_trans a (f c a) b (right_worse c a p q) w, rest),
      ),
    )

    fold-IsBest :
        (acc : Option F) (os : List (Option F))
        → IsNumber number acc
        → All (IsNumber number) os
        → IsBest (acc ∷ os) (foldl (merge f) acc os)
    fold-IsBest none [] p ps = (refl, tt)
    fold-IsBest (some a) [] p ps = (inl refl, (worse_self a p, tt))
    fold-IsBest acc (o ∷ os) p (q, ps) =
        merge-IsBest acc o os (foldl (merge f) (merge f acc o) os) p q
          (fold-IsBest (merge f acc o) os (merge-IsNumber acc o p q) ps)

    IsBest-tail : (os : List (Option F)) (r : Option F) → IsBest (none ∷ os) r → IsBest os r
    IsBest-tail os none (e, rest) = rest
    IsBest-tail os (some b) (inl e, (w, rest)) = absurd (cc)
    IsBest-tail os (some b) (inr there, (w, rest)) = (there, rest)

    foldl-IsBest :
        (os : List (Option F)) → All (IsNumber number) os → IsBest os (foldl (merge f) none os)
    foldl-IsBest os ps = IsBest-tail os (foldl (merge f) none os) (fold-IsBest none os tt ps)

module _ {F : Type 0} ⦃fl : F64 F⦄ (factor : F) (number : F → Type 0)
    (prices_are_numbers : (ticks : ℕ) → number (fl.mul (fl.of_u64 ticks) factor)) where
  priced-IsNumber : (t : Option ℕ) → IsNumber number (priced factor t)
  priced-IsNumber none = tt
  priced-IsNumber (some t) = prices_are_numbers t

module _ {Pubkey F : Type 0} ⦃fl : F64 F⦄ (factor : F) (number : F → Type 0)
    (prices_are_numbers : (ticks : ℕ) → number (fl.mul (fl.of_u64 ticks) factor)) where
  open fl use {le, fmax, fmin}

  abbrev pub bid_of : MakerBook Pubkey → Option F
  bid_of book = priced factor book.best_bid_price

  abbrev pub ask_of : MakerBook Pubkey → Option F
  ask_of book = priced factor book.best_ask_price

  All-priced :
      (ticks_of : MakerBook Pubkey → Option ℕ) (books : List (MakerBook Pubkey))
      → All (IsNumber number) (map (λ book. priced factor (ticks_of book)) books)
  All-priced ticks_of [] = tt
  All-priced ticks_of (book ∷ books) =
      (priced-IsNumber factor number prices_are_numbers (ticks_of book), All-priced ticks_of books)

  foldl-merge_book :
      (books : List (MakerBook Pubkey)) (bid ask : Option F)
      → foldl (merge_book factor) (bid, ask) books
        ≡ (foldl (merge fmax) bid (map bid_of books), foldl (merge fmin) ask (map ask_of books))
  unfolding merge_book
  foldl-merge_book [] bid ask = refl
  foldl-merge_book (book ∷ books) bid ask =
      foldl-merge_book books (merge fmax bid (bid_of book)) (merge fmin ask (ask_of book))

  -- Let the price of any number of ticks be a number, and on numbers let `max` and `min` choose the
  -- greater and the smaller of two, under a reflexive and transitive order. Then the best bid of
  -- `markets view` is missing exactly where no book has a bid, and otherwise it is the bid of a book
  -- that no other bid exceeds; the best ask is missing where no book has an ask, and otherwise it is
  -- the ask of a book that no other ask is below.
  pub best_prices-IsBest :
      IsChoice number (λ a b. le a b ≡ true) fmax
      → IsChoice number (λ a b. le b a ≡ true) fmin
      → (books : List (MakerBook Pubkey))
      → IsBest number (λ a b. le a b ≡ true) (map bid_of books) (best_prices factor books).0
        × IsBest number (λ a b. le b a ≡ true) (map ask_of books) (best_prices factor books).1
  unfolding best_prices
  best_prices-IsBest greatest least books =
      let is_best = λ (r : Option F × Option F).
        IsBest number (λ a b. le a b ≡ true) (map bid_of books) r.0
        × IsBest number (λ a b. le b a ≡ true) (map ask_of books) r.1 in
      subst is_best (sym (foldl-merge_book books none none)) (
        foldl-IsBest number _ fmax greatest (map bid_of books)
            (All-priced (λ book. book.best_bid_price) books),
        foldl-IsBest number _ fmin least (map ask_of books)
            (All-priced (λ book. book.best_ask_price) books),
      )
