-- ===== src/Commands/Table/Fits.antt =====
-- The columns of a table, and the cells that fit them.
use archer_market_maker.Base.{
  ℕ, suc, ◌≤◌, ◌≡◌, refl, sym, ap, ◌∙◌, max, List, [], ◌∷◌, map, some, length, arith, All, All-mono,
}
use archer_market_maker.Base.Text.{Text}
use archer_market_maker.Commands.Table.{widen, widen_all}

-- That a row has a cell for each column, none wider than its column.
unfoldable pub Fits : List ℕ → List Text → Type 0
Fits [] [] = Unit
Fits [] (c ∷ cells) = ⊥
Fits (w ∷ widths) [] = ⊥
Fits (w ∷ widths) (c ∷ cells) = (length c ≤ w) × Fits widths cells

-- That no column became narrower.
unfoldable pub Grows : List ℕ → List ℕ → Type 0
Grows [] [] = Unit
Grows [] (v ∷ wider) = ⊥
Grows (w ∷ widths) [] = ⊥
Grows (w ∷ widths) (v ∷ wider) = (w ≤ v) × Grows widths wider

Grows-refl : (widths : List ℕ) → Grows widths widths
unfolding Grows
Grows-refl [] = tt
Grows-refl (w ∷ widths) = (omega arith, Grows-refl widths)

Grows-trans : (a b c : List ℕ) → Grows a b → Grows b c → Grows a c
unfolding Grows
Grows-trans [] [] [] p q = tt
Grows-trans [] [] (z ∷ c) p q = elim q [ ]
Grows-trans [] (y ∷ b) c p q = elim p [ ]
Grows-trans (x ∷ a) [] c p q = elim p [ ]
Grows-trans (x ∷ a) (y ∷ b) [] p q = elim q [ ]
Grows-trans (x ∷ a) (y ∷ b) (z ∷ c) (p, ps) (q, qs) = (omega arith, Grows-trans a b c ps qs)

pub Fits-Grows : (a b : List ℕ) (cells : List Text) → Fits a cells → Grows a b → Fits b cells
unfolding Grows Fits
Fits-Grows [] [] [] f g = tt
Fits-Grows [] [] (c ∷ cells) f g = elim f [ ]
Fits-Grows [] (v ∷ b) cells f g = elim g [ ]
Fits-Grows (w ∷ a) [] cells f g = elim g [ ]
Fits-Grows (w ∷ a) (v ∷ b) [] f g = elim f [ ]
Fits-Grows (w ∷ a) (v ∷ b) (c ∷ cells) (f, fs) (g, gs) = (omega arith, Fits-Grows a b cells fs gs)

pub length-Grows : (a b : List ℕ) → Grows a b → length a ≡ length b
unfolding Grows
length-Grows [] [] g = refl
length-Grows [] (v ∷ b) g = elim g [ ]
length-Grows (w ∷ a) [] g = elim g [ ]
length-Grows (w ∷ a) (v ∷ b) (g, gs) = ap suc (length-Grows a b gs)

pub Fits-headers : (headers : List Text) → Fits (map length headers) headers
unfolding Fits
Fits-headers [] = tt
Fits-headers (h ∷ headers) = (omega arith, Fits-headers headers)

widen-Fits :
    (widths : List ℕ) (row : List Text)
    → length row ≡ length widths
    → (wider : List ℕ) × (widen widths row ≡ some wider)
      × (length wider ≡ length widths)
      × Fits wider row
      × Grows widths wider
unfolding widen Fits Grows
widen-Fits [] [] e = ([], refl, refl, tt, tt)
widen-Fits [] (c ∷ row) e = ground arith
widen-Fits (w ∷ widths) [] e = ground arith
widen-Fits (w ∷ widths) (c ∷ row) e =
    let (wider, eq, size, fits, grows) = widen-Fits widths row (omega arith) in
    (max w (length c) ∷ wider, rw eq refl, ap suc size, (omega arith, fits), (omega arith, grows))

pub widen_all-Fits :
    (widths : List ℕ) (rows : List (List Text))
    → All (λ row. length row ≡ length widths) rows
    → (wider : List ℕ) × (widen_all widths rows ≡ some wider)
      × Grows widths wider
      × All (Fits wider) rows
unfolding widen_all
widen_all-Fits widths [] even = (widths, refl, Grows-refl widths, tt)
widen_all-Fits widths (row ∷ rows) (e, even) =
    let (first, eq, size, fits, grows) = widen-Fits widths row e in
    let (wider, eqs, more, all) =
      widen_all-Fits first rows (All-mono (λ r er. er ∙ sym size) rows even) in
    (
      wider,
      rw eq eqs,
      Grows-trans widths first wider grows more,
      (Fits-Grows first wider row fits more, all),
    )
