-- ===== src/Commands/Run/Start.antt =====
-- The wait for a price, and the state that `run` starts with.
use mathlib.Core.Path.{subst}
use archer_market_maker.Base.{
  ℕ, zero, suc, ◌+◌, ◌*◌, ◌≤◌, ◌<◌, ◌≡◌, refl, sym, ap, ◌∙◌, ◌⊎◌, inl, inr, Option, some, Bool,
  true, false, not, arith, ltb, max, Bool-cases,
}
use archer_market_maker.Base.Results.{Result, ok, err}
use archer_market_maker.Float.{F64}
use archer_market_maker.Fills
use archer_market_maker.Fills.{BookState, store_book}
use archer_market_maker.Commands.Chain.{MakerBook, Failure, feed_timeout}
use archer_market_maker.Commands.Run.{wait_for_feed, initial_state}

module _ {F : Type 0} ⦃fl : F64 F⦄ (mid_at : ℕ → F) where
  -- That a poll finds no price yet.
  abbrev pub is_closed : ℕ → Bool
  is_closed n = fl.le (mid_at n) (fl.of_u64 0)

  -- That there is no price at the polls from one up to another.
  unfoldable pub NoPrice : (from to : ℕ) → Type 0
  NoPrice from to = (n : ℕ) → from ≤ n → n < to → is_closed n ≡ true

  NoPrice-nil : (from : ℕ) → NoPrice from from
  unfolding NoPrice
  NoPrice-nil from n low high = absurd (omega arith)

  NoPrice-suc : (from to : ℕ) → is_closed from ≡ true → NoPrice (from + 1) to → NoPrice from to
  unfolding NoPrice
  NoPrice-suc from to here later n low high = elim (Bool-cases (ltb from n)) [
    | inl e ↦ later n (ground arith) high
    | inr e ↦ let same : n ≡ from = ground arith in ap is_closed same ∙ here
  ]

  module _ (Error Signature : Type 0) where
    -- How the wait ends, begun at a poll.
    unfoldable pub Ends : (from : ℕ) → Option (Result (Failure Error Signature) ℕ) → Type 0
    Ends from result =
        ((n : ℕ) × (n ≤ 150) × (is_closed n ≡ false) × NoPrice from n × (result ≡ some (ok n)))
        ⊎ (NoPrice from 151 × (result ≡ some (err feed_timeout)))

    Ends-suc :
        (from : ℕ) (result : Option (Result (Failure Error Signature) ℕ))
        → is_closed from ≡ true
        → Ends (from + 1) result
        → Ends from result
    unfolding Ends
    Ends-suc from result here (inl (n, low, there, before, e)) =
        inl (n, low, there, NoPrice-suc from n here before, e)
    Ends-suc from result here (inr (before, e)) = inr (NoPrice-suc from 151 here before, e)

    wait_from :
        (fuel polls waited : ℕ)
        → fuel + polls ≡ 151
        → waited ≡ 100 * polls
        → polls ≤ 150
        → Ends polls (wait_for_feed mid_at fuel polls waited)
    unfolding wait_for_feed Ends
    wait_from zero polls waited e w low = absurd (omega arith)
    wait_from (suc fuel) polls waited e w low = elim (Bool-cases (is_closed polls)) [
      | inl closed ↦ elim (Bool-cases (ltb 15000 (waited + 100))) [
        | inl late ↦
            let last : polls + 1 ≡ 151 = ground arith in
            let none_later = subst (NoPrice (polls + 1)) last (NoPrice-nil (polls + 1)) in
            rw (closed, late) (inr (NoPrice-suc polls 151 closed none_later, refl))
        | inr early ↦
            let more =
              wait_from fuel (polls + 1) (waited + 100) (omega arith) (omega arith)
                (ground arith) in
            rw (closed, early)
              (Ends-suc polls (wait_for_feed mid_at fuel (polls + 1) (waited + 100)) closed more)
      ]
      | inr there ↦ rw there (inl (polls, low, there, NoPrice-nil polls, refl))
    ]

    -- The wait of `run` for the price feed always ends, with fuel for 151 polls: at the first poll
    -- that finds a price, if that is one of the polls 0 to 150, and otherwise with the error that
    -- the feed did not connect.
    pub wait_for_feed-Ends : Ends 0 (wait_for_feed mid_at 151 0 0)
    wait_for_feed-Ends = wait_from 151 0 0 refl refl (omega arith)

-- That two views of a book have the same fields.
pub record IsSameBook {Pubkey : Type 0} (book : MakerBook Pubkey) (again : Fills.MakerBook)
    : Type 0 where
  pub same_base_free : again.base_free ≡ book.base_free
  pub same_base_locked : again.base_locked ≡ book.base_locked
  pub same_quote_free : again.quote_free ≡ book.quote_free
  pub same_quote_locked : again.quote_locked ≡ book.quote_locked
  pub same_mid : again.mid_price_ticks ≡ book.mid_price_ticks
  pub same_sequence : again.last_updated_sequence_number ≡ book.last_updated_sequence_number

-- The state that `run` starts with, made from the maker's book, is what the subscription makes of
-- the same book: storing that book again changes no field but the count of resyncs, if the two ways
-- to tell that the book cannot fund its reprice agree.
pub store_book-initial_state :
    {Pubkey : Type 0} (book : MakerBook Pubkey) (again : Fills.MakerBook)
    → IsSameBook book again
    → (unfundable : Bool) → unfundable ≡ not again.is_quote_sync_fundable
    → let state = initial_state book unfundable in
      store_book state again ≡ record state { book_resyncs = 1 }
unfolding initial_state store_book
store_book-initial_state book again same unfundable agree =
    let seq = book.last_updated_sequence_number in
    let newest : max seq seq ≡ seq = omega arith in
    rw
      (
        same.same_base_free,
        same.same_base_locked,
        same.same_quote_free,
        same.same_quote_locked,
        same.same_mid,
        same.same_sequence,
        newest,
        sym agree,
      )
      refl
