-- ===== src/Commands/Table/Width.antt =====
-- The width of the lines of a table.
use archer_market_maker.Base.{
  ℕ, ◌+◌, ◌-◌, ◌≤◌, ◌≡◌, refl, sym, ◌∙◌, List, [], ◌∷◌, ◌++◌, map, some, Bool, true, false, ltb,
  length, arith, if◌then◌else◌, All, All-mono, All-append, le→leb, length-append, length-map,
  length-replicate,
}
use archer_market_maker.Base.Text.{Text, codes}
use archer_market_maker.Commands.Table.Fits.{
  Fits, Fits-headers, Fits-Grows, length-Grows, widen_all-Fits,
}
use archer_market_maker.Commands.Table.{
  Align, dashes, spaces, left_aligned, right_aligned, rule_columns, rule, aligned, row_cells,
  print_row, spacer_columns, print_spacer, print_rows, print_table,
}

length-dashes : (n : ℕ) → length (dashes n) ≡ n
length-dashes n = length-replicate n _

length-spaces : (n : ℕ) → length (spaces n) ≡ n
length-spaces n = length-replicate n _

-- The width of a line after its first character.
columns : List ℕ → ℕ
columns [] = 0
columns (w ∷ widths) = w + 3 + columns widths

length-rule_columns :
    (mid right : Text) (widths : List ℕ)
    → length mid ≡ 1
    → length right ≡ 1
    → length (rule_columns mid right widths) ≡ columns widths
unfolding rule_columns columns
length-rule_columns mid right [] em er = refl
length-rule_columns mid right (w ∷ []) em er =
    omega (arith, length-append (dashes (w + 2)) right, length-dashes (w + 2))
length-rule_columns mid right (w ∷ v ∷ widths) em er =
    let rest = rule_columns mid right (v ∷ widths) in
    omega (
      arith,
      length-append (dashes (w + 2)) (mid ++ rest),
      length-append mid rest,
      length-dashes (w + 2),
      length-rule_columns mid right (v ∷ widths) em er,
    )

length-aligned :
    (align : Align) (pad : ℕ) (cell : Text)
    → length (aligned align pad cell) ≡ length cell + pad + 2
unfolding aligned
length-aligned left_aligned pad cell = omega (
  arith,
  length-append cell (spaces pad ++ codes " "),
  length-append (spaces pad) (codes " "),
  length-spaces pad,
)
length-aligned right_aligned pad cell = omega (
  arith,
  length-append (spaces pad) (cell ++ codes " "),
  length-append cell (codes " "),
  length-spaces pad,
)

length-row_cells :
    (widths : List ℕ) (aligns : List Align) (cells : List Text)
    → Fits widths cells
    → length widths ≤ length aligns
    → (line : Text) × (row_cells widths aligns cells ≡ some line) × (length line ≡ columns widths)
unfolding row_cells columns Fits
length-row_cells [] aligns [] f e = ([], refl, refl)
length-row_cells [] aligns (c ∷ cells) f e = elim f [ ]
length-row_cells (w ∷ widths) aligns [] f e = elim f [ ]
length-row_cells (w ∷ widths) [] (c ∷ cells) f e = absurd (ground arith)
length-row_cells (w ∷ widths) (a ∷ aligns) (c ∷ cells) (f, fs) e =
    let (rest, eq, size) = length-row_cells widths aligns cells fs (omega arith) in
    let cell = aligned a (w - length c) c in
    let length_cell : length cell ≡ w + 2 = omega (arith, length-aligned a (w - length c) c) in
    (
      cell ++ (codes "│" ++ rest),
      rw (eq, le→leb (length c) w f) refl,
      omega (arith, length-append cell (codes "│" ++ rest)),
    )

length-spacer_columns : (widths : List ℕ) → length (spacer_columns widths) ≡ columns widths
unfolding spacer_columns columns
length-spacer_columns [] = refl
length-spacer_columns (w ∷ widths) = omega (
  arith,
  length-append (spaces (w + 2)) (codes "│" ++ spacer_columns widths),
  length-spaces (w + 2),
  length-spacer_columns widths,
)

-- That a line is as wide as the table.
IsAligned : List ℕ → Text → Type 0
IsAligned widths line = length line ≡ 1 + columns widths

rule-IsAligned :
    (widths : List ℕ) (left mid right : Text)
    → length left ≡ 1
    → length mid ≡ 1
    → length right ≡ 1
    → IsAligned widths (rule widths left mid right)
unfolding rule IsAligned
rule-IsAligned widths left mid right el em er = omega (
  arith,
  length-append left (rule_columns mid right widths),
  length-rule_columns mid right widths em er,
)

module _ (widths : List ℕ) (aligns : List Align) (enough : length widths ≤ length aligns) where
  print_row-IsAligned :
      (cells : List Text)
      → Fits widths cells
      → (line : Text) × (print_row widths aligns cells ≡ some line) × IsAligned widths line
  unfolding print_row IsAligned
  print_row-IsAligned cells fits =
      let (rest, eq, size) = length-row_cells widths aligns cells fits enough in
      (codes "│" ++ rest, rw eq refl, omega arith)

  spacers-IsAligned :
      (b : Bool) → All (IsAligned widths) (if b then print_spacer widths ∷ [] else [])
  unfolding print_spacer IsAligned
  spacers-IsAligned true = (omega (arith, length-spacer_columns widths), tt)
  spacers-IsAligned false = tt

  print_rows-IsAligned :
      (i : ℕ) (rows : List (List Text))
      → All (Fits widths) rows
      → (lines : List Text) × (print_rows widths aligns i rows ≡ some lines)
        × All (IsAligned widths) lines
  unfolding print_rows
  print_rows-IsAligned i [] fits = ([], refl, tt)
  print_rows-IsAligned i (row ∷ rows) (fit, fits) =
      let (line, eq, size) = print_row-IsAligned row fit in
      let (rest, eqs, sizes) = print_rows-IsAligned (i + 1) rows fits in
      (
        _,
        rw (eq, eqs) refl,
        All-append (IsAligned widths) _ (line ∷ rest) (spacers-IsAligned (ltb 0 i)) (size, sizes),
      )

-- Let each row have as many cells as there are headers, and let there be at least as many
-- alignments. Then `print_table` does not panic, and all the lines that it prints, the rules, the
-- rows and the spacers, have one width.
pub print_table_width :
    (headers : List Text) (aligns : List Align) (rows : List (List Text))
    → length headers ≤ length aligns
    → All (λ row. length row ≡ length headers) rows
    → (lines : List Text) × (width : ℕ) × (print_table headers aligns rows ≡ some lines)
      × All (λ line. length line ≡ width) lines
unfolding print_table IsAligned
print_table_width headers aligns rows enough even =
    let start = map length headers in
    let size = length-map length headers in
    let (widths, eq, grows, fits) =
      widen_all-Fits start rows (All-mono (λ r er. er ∙ sym size) rows even) in
    let room : length widths ≤ length aligns = omega (arith, length-Grows start widths grows) in
    let (head, eqh, head_size) =
      print_row-IsAligned widths aligns room headers
        (Fits-Grows start widths headers (Fits-headers headers) grows) in
    let (body, eqb, body_sizes) = print_rows-IsAligned widths aligns room 0 rows fits in
    let ruled = rule-IsAligned widths in
    let lines : List Text =
      rule widths (codes "┌") (codes "┬") (codes "┐")
      ∷ head
      ∷ rule widths (codes "├") (codes "┼") (codes "┤")
      ∷ (body ++ (rule widths (codes "└") (codes "┴") (codes "┘") ∷ [])) in
    (
      lines,
      1 + columns widths,
      rw (eq, eqh, eqb) refl,
      (
        ruled (codes "┌") (codes "┬") (codes "┐") refl refl refl,
        (
          head_size,
          (
            ruled (codes "├") (codes "┼") (codes "┤") refl refl refl,
            All-append (IsAligned widths) body _ body_sizes
                (ruled (codes "└") (codes "┴") (codes "┘") refl refl refl, tt),
          ),
        ),
      ),
    )
