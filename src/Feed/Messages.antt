-- ===== src/Feed/Messages.antt =====
-- Which messages change a leg, and what a leg can be.
use archer_market_maker.Base.{
  ◌≡◌, refl, ◌⊎◌, inl, inr, none, some, true, ◌&&◌, arith, Bool-cases, Option-cases,
}
use mathlib.Core.Path.{subst}
use mathlib.Core.Option.{some-injective}
use archer_market_maker.Float.{F64}
use archer_market_maker.Feed.State.{BinanceBookTicker, Texts, FeedSettings, Legs}
use archer_market_maker.Feed.{no_legs, parse_binance_book_ticker, take_quote, legs_after, use_cross}

module _ {F : Type 0} ⦃fl : F64 F⦄ where
  open fl use {of_u64, lt, le}

  -- A book that is not crossed: both prices are above zero, the ask not below the bid.
  abbrev pub IsBook : F → F → Type 0
  IsBook bid ask = (lt (of_u64 0) bid ≡ true) × (lt (of_u64 0) ask ≡ true) × (le bid ask ≡ true)

  -- No quote has come yet, or the last one was a book.
  abbrev pub IsLeg : F → F → Type 0
  IsLeg bid ask = ((bid ≡ of_u64 0) × (ask ≡ of_u64 0)) ⊎ IsBook bid ask

  abbrev pub AreLegs : Legs F → Type 0
  AreLegs l = IsLeg l.primary_bid l.primary_ask × IsLeg l.cross_bid l.cross_ask

module _ {F Text : Type 0} ⦃fl : F64 F⦄ (t : Texts F Text) where
  open t use {from_str, parse_f64, to_uppercase, same_text}

  -- A message is taken exactly if it is a ticker whose two prices parse and make a book; the quote
  -- is then its symbol with those prices.
  pub parse_binance_book_ticker_lem :
      (txt : Text) (bt : BinanceBookTicker Text) (bid ask : F)
      → from_str txt ≡ some bt
      → parse_f64 bt.b ≡ some bid
      → parse_f64 bt.a ≡ some ask
      → (IsBook bid ask × (parse_binance_book_ticker t txt ≡ some (bt.s, bid, ask)))
        ⊎ ((¬ IsBook bid ask) × (parse_binance_book_ticker t txt ≡ none))
  unfolding parse_binance_book_ticker
  parse_binance_book_ticker_lem txt bt bid ask e eb ea =
      elim (Bool-cases (fl.lt (fl.of_u64 0) bid && fl.lt (fl.of_u64 0) ask && fl.le bid ask)) [
        | inl book ↦ inl ((ground arith, ground arith, ground arith), rw (e, eb, ea, book) refl)
        | inr bad ↦ inr (λ b. ground arith, rw (e, eb, ea, bad) refl)
      ]

  parse-IsBook :
      (txt sym : Text) (bid ask : F)
      → parse_binance_book_ticker t txt ≡ some (sym, bid, ask)
      → IsBook bid ask
  unfolding parse_binance_book_ticker
  parse-IsBook txt sym bid ask parsed = elim (Option-cases (from_str txt)) [
    | inl e ↦ let q = rw e at parsed in absurd (cc)
    | inr (bt, e) ↦ elim (Option-cases (parse_f64 bt.b)) [
      | inl eb ↦ let q = rw (e, eb) at parsed in absurd (cc)
      | inr (bid', eb) ↦ elim (Option-cases (parse_f64 bt.a)) [
        | inl ea ↦ let q = rw (e, eb, ea) at parsed in absurd (cc)
        | inr (ask', ea) ↦ elim (parse_binance_book_ticker_lem txt bt bid' ask' e eb ea) [
          | inl (book, e') ↦
              let q = rw e' at parsed in
              subst (λ (u : Text × F × F). IsBook u.1 u.2) (some-injective _ _ q) book
          | inr (_, e') ↦ let q = rw e' at parsed in absurd (cc)
        ]
      ]
    ]
  ]

  take_quote-AreLegs :
      (c : FeedSettings Text) (l : Legs F) (sym : Text) (bid ask : F) {l' : Legs F}
      → AreLegs l
      → IsBook bid ask
      → take_quote t c l (sym, bid, ask) ≡ some l'
      → AreLegs l'
  unfolding take_quote
  take_quote-AreLegs c l sym bid ask {l'} legs book taken =
      elim (Bool-cases (same_text (to_uppercase sym) (to_uppercase c.binance_symbol))) [
        | inl e ↦ let q = rw e at taken in subst AreLegs (some-injective _ _ q) (inr book, legs.1)
        | inr e ↦
            elim (Bool-cases
              (use_cross t c && same_text (to_uppercase sym) (to_uppercase c.cross_symbol))) [
                | inl e' ↦
                    let q = rw (e, e') at taken in
                    subst AreLegs (some-injective _ _ q) (legs.0, inr book)
                | inr e' ↦ let q = rw (e, e') at taken in absurd (cc)
              ]
      ]

  -- The legs of a connection start without a quote, at zero. If each leg is without a quote or is
  -- a book, both prices above zero and the ask not below the bid, then it still is after a message
  -- that changes one of them.
  pub legs_after-AreLegs :
      (c : FeedSettings Text) (l : Legs F) (txt : Text) {l' : Legs F}
      → AreLegs l
      → legs_after t c l txt ≡ some l'
      → AreLegs {F = F} no_legs × AreLegs l'
  unfolding legs_after no_legs
  legs_after-AreLegs c l txt legs after = (
    (inl (refl, refl), inl (refl, refl)),
    elim (Option-cases (parse_binance_book_ticker t txt)) [
      | inl e ↦ let q = rw e at after in absurd (cc)
      | inr ((sym, bid, ask), e) ↦
          take_quote-AreLegs c l sym bid ask legs (parse-IsBook txt sym bid ask e) (rw e at after)
    ],
  )
