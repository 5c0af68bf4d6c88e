-- ===== src/Strategy/Examples.antt =====
-- Decisions on concrete prices and inventories.
use archer_market_maker.Base.{◌≢◌, [], ◌∷◌}
use archer_market_maker.Strategy.Hash.{structure_hash_ne}
use archer_market_maker.Base.{
  ◌≤◌, inr, ℕ, ◌≡◌, refl, inl, Option, some, none, Bool, true, false, arith,
}
use native.Mathlib.Decide.{dec_lt}
use archer_market_maker.Float.{Micro, micro}
use archer_market_maker.Concrete.{sdk, strategy}
use archer_market_maker.Strategy.{
  vol_multiplier, QuoteDecision, clear_book, structure_hash, ladder, decide, compute,
}
use archer_market_maker.Strategy.Decisions.{Requotes}
use archer_market_maker.Strategy.Multiplier.{vol_multiplier_bounds}
use archer_market_maker.Strategy.Requote.{lo_tick_move}

-- A decision and its spread, of a call of `compute` that does not panic.
abbrev decided : Option (QuoteDecision ℕ × Micro) → QuoteDecision ℕ × Micro
decided none = (clear_book, 0)
decided (some d) = d

abbrev first : Bool → QuoteDecision ℕ × Micro
first is_lo = decided (compute sdk (strategy is_lo) 100000000 99990 0 tt 50000 5000000 12000000)

first_returns :
    compute sdk (strategy false) 100000000 99990 0 tt 50000 5000000 12000000 ≡ some (first false)
unfolding compute
first_returns = refl

first_lo_returns :
    compute sdk (strategy true) 100000000 99990 0 tt 50000 5000000 12000000 ≡ some (first true)
unfolding compute
first_lo_returns = refl

lo_tick_move_example :
    let l = ladder sdk (strategy true) tt 100000000 50000 5000000 12000000 in
    let last = structure_hash {F = Micro} 2 l.bid_sizes_q l.ask_sizes_q 12000000 99999 in
    Requotes (decide sdk (strategy true) 100000000 99990 last tt 50000 5000000 12000000 12000000)
lo_tick_move_example =
    lo_tick_move sdk (strategy true) 100000000 99990 tt 50000 5000000 12000000 12000000 100000 99999
      refl refl (omega arith) (omega arith) (λ e. omega arith) (omega arith)

-- A volatility of 50 basis points on a baseline of 10 would widen five times, and may three times.
vol_multiplier_bounds_example :
    (1000000 ≤ vol_multiplier (strategy false) 50000000)
    × (vol_multiplier (strategy false) 50000000 ≤ 3000000)
vol_multiplier_bounds_example =
    vol_multiplier_bounds (λ (a : Micro). Unit) (λ a b. a ≤ b)
      (record {
        number-one = tt;
        number-fmax = λ a b n. tt;
        le-fmax = λ a b n. omega arith;
        fmin-chooses =
            λ a b m n. elim (dec_lt a b) [ yes l ↦ inl (omega arith) | no l ↦ inr (omega arith) ];
        fmin-le = λ a b m n. omega arith;
      })
      (strategy false) 50000000 tt (omega arith)

-- The same book at an anchor of 100 000 ticks and of 99 999.
structure_hash_ne_example :
    structure_hash {F = Micro} 2 (5 ∷ 5 ∷ []) (4 ∷ 4 ∷ []) 12000000 100000
    ≢ structure_hash {F = Micro} 2 (5 ∷ 5 ∷ []) (4 ∷ 4 ∷ []) 12000000 99999
structure_hash_ne_example =
    structure_hash_ne 2 (5 ∷ 5 ∷ []) (4 ∷ 4 ∷ []) 12000000 12000000 100000 99999 (omega arith)
      (omega arith) (omega arith) (omega arith) (inr (refl, λ e. omega arith))
