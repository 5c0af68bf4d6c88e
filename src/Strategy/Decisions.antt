-- ===== src/Strategy/Decisions.antt =====
-- Which decisions `Strategy::compute` can take.
use mathlib.Core.Path.{subst}
use archer_market_maker.Base.{
  ℕ, ◌<◌, ◌≡◌, ◌≢◌, ◌≢◌, sym, inl, inr, List, [], ◌∷◌, Option, none, some, Bool, true, false, not,
  ◌&&◌, ◌||◌, ◌==◌, ◌>>=◌, arith, length, is_empty, get_elem?, Option-cases, Bool-cases, ◌⊎◌,
}
use archer_market_maker.Float.{F64}
use archer_market_maker.Sdk.{BookUpdate, QuoteMath}
use archer_market_maker.Quote.{build_book_update}
use archer_market_maker.Quote.Rebase.{build_book_update-mid}
use archer_market_maker.Strategy.{
  QuoteDecision, noop, clear_book, update_mid_only, update_full, Strategy, Ladder, ladder,
  keep_structure, reference_mid_ticks, two_sided, rebuild, rebuilt, hash_of, decide, compute,
  vol_multiplier,
}

module _ {S : Type 0} where
  -- The book is written anew, or cleared.
  abbrev pub Requotes : QuoteDecision S → Type 0
  Requotes noop = ⊥
  Requotes clear_book = Unit
  Requotes (update_mid_only ticks) = ⊥
  Requotes (update_full u h) = Unit

  -- The mid is left alone, and stays zero in a full update.
  abbrev pub KeepsMid : QuoteDecision S → Type 0
  KeepsMid noop = Unit
  KeepsMid clear_book = Unit
  KeepsMid (update_mid_only ticks) = ⊥
  KeepsMid (update_full u h) = (u.mid_price_changed ≡ false) × (u.new_mid_price_ticks ≡ 0)

module _ {F Market Quotes S : Type 0} ⦃fl : F64 F⦄ (sdk : QuoteMath F Market Quotes S) where
  rebuilt-Requotes : (h : ℕ) (o : Option (BookUpdate S)) → Requotes (rebuilt sdk h o)
  unfolding rebuilt
  rebuilt-Requotes h none = tt
  rebuilt-Requotes h (some u) = tt

  pub rebuild-Requotes :
      (s : Strategy F) (m : Market) (mid : F) (cached : ℕ) (l : Ladder F) (h : ℕ)
      → Requotes (rebuild sdk s m mid cached l h)
  unfolding rebuild
  rebuild-Requotes s m mid cached l h = rebuilt-Requotes h _

  module _ (s : Strategy F) (mid : F) (cached last : ℕ) (m : Market) (base quote : ℕ)
      (vol tightest : F) where
    abbrev pub unchanged : Bool
    unchanged =
        hash_of sdk s m mid (ladder sdk s m mid base quote vol) tightest == last && not (last == 0)

    -- `decide` clears the book, keeps its structure, or builds it anew, as the hashes say.
    pub decide_cases :
        let decision = decide sdk s mid cached last m base quote vol tightest in
        (decision ≡ clear_book)
        ⊎ ((unchanged ≡ true) × (decision ≡ keep_structure sdk s m mid))
        ⊎ ((unchanged ≡ false)
            × ((h : ℕ) × (l : Ladder F) × (decision ≡ rebuild sdk s m mid cached l h)))
    unfolding decide
    decide_cases =
        let l = ladder sdk s m mid base quote vol in
        elim (Bool-cases (is_empty l.bids && is_empty l.asks)) [
          | inl e ↦ inl (rw e)
          | inr e ↦ elim (Bool-cases unchanged) [
            | inl u ↦ inr (inl (u, rw (e, u)))
            | inr u ↦ inr (inr (u, (hash_of sdk s m mid l tightest, l, rw (e, u))))
          ]
        ]

  -- `compute` decides by `decide`, or clears the book.
  compute_cases :
      (s : Strategy F) (mid : F) (cached last : ℕ) (m : Market) (base quote : ℕ) (vol : F)
      {d : QuoteDecision S} {spread : F}
      → compute sdk s mid cached last m base quote vol ≡ some (d, spread)
      → (d ≡ clear_book)
        ⊎ ((tightest : F) × (d ≡ decide sdk s mid cached last m base quote vol tightest))
  unfolding compute
  compute_cases s mid cached last m base quote vol {d} {spread} e =
      elim (Bool-cases (not (fl.is_finite mid) || fl.le mid (fl.of_u64 0))) [
        | inl refused ↦ let e' = rw refused at e in inl (cc)
        | inr fine ↦ elim (Option-cases (get_elem? s.config.spread_levels_bps 0)) [
          | inl missing ↦ let e' = rw (fine, missing) at e in absurd (cc)
          | inr (t, found) ↦
              let e' = rw (fine, found) at e in inr (fl.mul t (vol_multiplier s vol), cc)
        ]
      ]

  zero_changed :
      (s : Strategy F) (mid : F) (cached : ℕ) (m : Market) (base quote : ℕ) (vol tightest : F)
      → ¬ (unchanged s mid cached 0 m base quote vol tightest ≡ true)
  zero_changed s mid cached m base quote vol tightest e = ground arith

  -- With no structure on record the decision is to write the book anew or to clear it.
  pub compute-Requotes :
      (s : Strategy F) (mid : F) (cached : ℕ) (m : Market) (base quote : ℕ) (vol : F)
      {d : QuoteDecision S} {spread : F}
      → compute sdk s mid cached 0 m base quote vol ≡ some (d, spread)
      → Requotes d
  compute-Requotes s mid cached m base quote vol {d} e =
      elim (compute_cases s mid cached 0 m base quote vol e) [
        | inl clears ↦ subst Requotes (sym clears) tt
        | inr (t, decides) ↦
            subst Requotes (sym decides) (elim (decide_cases s mid cached 0 m base quote vol t) [
              | inl clears ↦ subst Requotes (sym clears) tt
              | inr (inl (u, keeps)) ↦ absurd (zero_changed s mid cached m base quote vol t u)
              | inr (inr (u, (h, l, builds))) ↦
                  subst Requotes (sym builds) (rebuild-Requotes s m mid cached l h)
            ])
      ]

  keep_structure-KeepsMid :
      (s : Strategy F) (m : Market) (mid : F)
      → s.is_lo ≡ true
      → KeepsMid (keep_structure sdk s m mid)
  unfolding keep_structure
  keep_structure-KeepsMid s m mid lo = rw lo tt

  rebuilt-KeepsMid :
      (h : ℕ) (reference : Option ℕ) (build : ℕ → Option (BookUpdate S))
      → ((r : ℕ) (u : BookUpdate S)
          → build r ≡ some u
          → (u.mid_price_changed ≡ false) × (u.new_mid_price_ticks ≡ 0))
      → KeepsMid (rebuilt sdk h (reference >>= build))
  unfolding rebuilt
  rebuilt-KeepsMid h none build keeps = tt
  rebuilt-KeepsMid h (some r) build keeps = elim (Option-cases (build r)) [
    | inl e ↦ rw (e, rebuilt) tt
    | inr (u, e) ↦ subst (λ o. KeepsMid (rebuilt sdk h o)) (sym e) (keeps r u e)
  ]

  rebuild-KeepsMid :
      (s : Strategy F) (m : Market) (mid : F) (cached : ℕ) (l : Ladder F) (h : ℕ)
      → s.is_lo ≡ true
      → KeepsMid (rebuild sdk s m mid cached l h)
  unfolding rebuild
  rebuild-KeepsMid s m mid cached l h lo =
      rebuilt-KeepsMid h (reference_mid_ticks sdk m mid cached)
        (λ reference. build_book_update sdk (two_sided sdk l) reference m s.is_lo)
        λ r u e. build_book_update-mid sdk (two_sided sdk l) r m (rw lo at e)

  -- For a limit-order book the decision never moves the mid, alone or with a full update.
  pub compute-KeepsMid :
      (s : Strategy F) (mid : F) (cached last : ℕ) (m : Market) (base quote : ℕ) (vol : F)
      {d : QuoteDecision S} {spread : F}
      → s.is_lo ≡ true
      → compute sdk s mid cached last m base quote vol ≡ some (d, spread)
      → KeepsMid d
  compute-KeepsMid s mid cached last m base quote vol {d} lo e =
      elim (compute_cases s mid cached last m base quote vol e) [
        | inl clears ↦ subst KeepsMid (sym clears) tt
        | inr (t, decides) ↦
            subst KeepsMid (sym decides) (elim (decide_cases s mid cached last m base quote vol t) [
              | inl clears ↦ subst KeepsMid (sym clears) tt
              | inr (inl (u, keeps)) ↦
                  subst KeepsMid (sym keeps) (keep_structure-KeepsMid s m mid lo)
              | inr (inr (u, (h, l, builds))) ↦
                  subst KeepsMid (sym builds) (rebuild-KeepsMid s m mid cached l h lo)
            ])
      ]

  -- With at least one spread level `compute` does not panic.
  pub compute_total :
      (s : Strategy F) (mid : F) (cached last : ℕ) (m : Market) (base quote : ℕ) (vol : F)
      → 0 < length s.config.spread_levels_bps
      → compute {S = S} sdk s mid cached last m base quote vol ≢ none
  unfolding compute
  compute_total s mid cached last m base quote vol h none_e =
      elim (Bool-cases (not (fl.is_finite mid) || fl.le mid (fl.of_u64 0))) [
        | inl refused ↦ let e' = rw refused at none_e in cc
        | inr fine ↦ elim (Option-cases (get_elem? s.config.spread_levels_bps 0)) [
          | inl missing ↦ first_level s.config.spread_levels_bps h missing
          | inr (t, found) ↦ let e' = rw (fine, found) at none_e in cc
        ]
      ]
    where
      first_level : (xs : List F) → 0 < length xs → get_elem? xs 0 ≡ none → ⊥
      first_level [] h e = omega arith
      first_level (x ∷ xs) h e = cc
