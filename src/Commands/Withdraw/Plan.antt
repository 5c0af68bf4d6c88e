-- ===== src/Commands/Withdraw/Plan.antt =====
-- The instructions of a withdrawal, against the lots of the book.
use archer_market_maker.Base.{
  ℕ, ◌+◌, ◌<◌, ◌≡◌, ◌≢◌, refl, sym, ◌⊎◌, inl, inr, [], ◌∷◌, true, false, ◌||◌, arith, ltb, u64_mod,
  Bool-cases,
}
use archer_market_maker.Float.{F64}
use archer_market_maker.Commands.Chain.{World, MakerBook, MarketConfig}
use archer_market_maker.Commands.{clear_ix}
use archer_market_maker.Commands.Withdraw.{
  total_base, total_quote, quote_balances, has_resting, withdrawal, withdraw_ix,
  withdraw_instructions,
}

-- That no lots are lost: the sums fit 64 bits, and settling a reprice moves quote lots between
-- locked and free only.
pub record IsConserved {Pubkey : Type 0} (fee : ℕ) (book : MakerBook Pubkey) : Type 0 where
  pub base_fits : book.base_free + book.base_locked < u64_mod
  pub quote_fits : book.quote_free + book.quote_locked < u64_mod
  pub settles :
      (quote_balances fee book).0 + (quote_balances fee book).1
      ≡ book.quote_free + book.quote_locked

-- A reprice that the book has still to settle: it has been synced, and the mid has moved since.
abbrev pub IsPending : {Pubkey : Type 0} → MakerBook Pubkey → Type 0
IsPending book = (book.mid_at_last_sync ≢ 0) × (book.mid_at_last_sync ≢ book.mid_price_ticks)

-- What has to be cleared before a withdrawal: lots that are locked, or a pending reprice.
abbrev pub IsResting : {Pubkey : Type 0} → (quote_locked : ℕ) → MakerBook Pubkey → Type 0
IsResting quote_locked book = (0 < book.base_locked) ⊎ (0 < quote_locked) ⊎ IsPending book

has_resting-IsResting :
    {Pubkey : Type 0} (locked : ℕ) (book : MakerBook Pubkey)
    → has_resting locked book ≡ true
    → IsResting locked book
has_resting-IsResting locked book e = ground arith

not-IsResting :
    {Pubkey : Type 0} (locked : ℕ) (book : MakerBook Pubkey)
    → has_resting locked book ≡ false
    → ¬ IsResting locked book
not-IsResting locked book e rests = ground arith

some_lots_test : (b q : ℕ) → 0 < b + q → (ltb 0 b || ltb 0 q) ≡ true
some_lots_test b q some_lots = ground arith

module _ {Pubkey : Type 0} (fee : ℕ) (book : MakerBook Pubkey)
    (conserved : IsConserved fee book) where
  open conserved use {base_fits, quote_fits, settles}

  nothing_locked :
      (locked : ℕ) → has_resting locked book ≡ false → (book.base_locked ≡ 0) × (locked ≡ 0)
  nothing_locked locked e = ground arith

  free_is_all :
      has_resting (quote_balances fee book).0 book ≡ false
      → (book.base_free ≡ book.base_free + book.base_locked)
        × ((quote_balances fee book).1 ≡ book.quote_free + book.quote_locked)
  free_is_all e =
      let (no_base, no_quote) = nothing_locked (quote_balances fee book).0 e in
      (omega arith, omega arith)

  withdrawal_all :
      withdrawal fee book ≡ (book.base_free + book.base_locked, book.quote_free + book.quote_locked)
  withdrawal_all = elim (Bool-cases (has_resting (quote_balances fee book).0 book)) [
    | inl e ↦
        let base : total_base book ≡ book.base_free + book.base_locked = omega arith in
        let quote : total_quote book ≡ book.quote_free + book.quote_locked = omega arith in
        rw e (cc (base, quote))
    | inr e ↦ let (base, quote) = free_is_all e in rw e (cc (base, quote))
  ]

module _ {Pubkey Keypair Instruction Hash Transaction Error Signature F S : Type 0} ⦃fl : F64 F⦄
    (world : World Pubkey Keypair Instruction Hash Transaction Error Signature F S) where
  -- Let the sums of a book's lots fit 64 bits, let settling a reprice keep the sum of its quote
  -- lots, and let there be lots at all. Then the transaction of `withdraw` takes out all base lots
  -- and all quote lots, free and locked. It clears the book first exactly if there are locked lots,
  -- the quote lots as settled, or a reprice is pending; otherwise what it takes out is what is free.
  pub withdraw_instructions_all :
      (maker market : Pubkey) (cfg : MarketConfig Pubkey F) (book : MakerBook Pubkey)
      → IsConserved cfg.maker_fee_ppm book
      → 0 < (book.base_free + book.base_locked) + (book.quote_free + book.quote_locked)
      → let (locked, free) = quote_balances cfg.maker_fee_ppm book in
        let base = book.base_free + book.base_locked in
        let quote = book.quote_free + book.quote_locked in
        let takes = withdraw_ix world maker market cfg base quote in
        let instructions = withdraw_instructions world maker market cfg book in
        ((instructions ≡ clear_ix world maker market book ∷ takes ∷ []) × IsResting locked book)
        ⊎ ((instructions ≡ takes ∷ [])
            × (¬ IsResting locked book)
            × (base ≡ book.base_free)
            × (quote ≡ free))
  unfolding withdraw_instructions
  withdraw_instructions_all maker market cfg book conserved some_lots =
      let fee = cfg.maker_fee_ppm in
      let locked = (quote_balances fee book).0 in
      let test = some_lots_test _ _ some_lots in
      let all = withdrawal_all fee book conserved in
      elim (Bool-cases (has_resting locked book)) [
        | inl e ↦ inl (rw (all, test, e) refl, has_resting-IsResting locked book e)
        | inr e ↦
            let (base, quote) = free_is_all fee book conserved e in
            inr (rw (all, test, e) refl, not-IsResting locked book e, sym base, sym quote)
      ]
