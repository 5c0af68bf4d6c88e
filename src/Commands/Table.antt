-- ===== src/Commands/Table.antt =====
-- src/main.rs: `print_table`. A line is the list of its characters, and what is printed a list of
-- lines; `none` is a panic: an index out of bounds, or a width below its cell's.
pub mod Fits
pub mod Width
use archer_market_maker.Base.{
  ℕ, ◌+◌, ◌-◌, max, List, [], ◌∷◌, ◌++◌, map, Option, none, some, Bool, length, replicate, leb, ltb,
  if◌then◌else◌, ◌>>=◌,
}
use archer_market_maker.Base.Text.{Text, codes}

pub data Align : Type 0 where
  left_aligned right_aligned : Align

-- The loop over a row's cells: `widths[i] = widths[i].max(..)`.
pub widen : (widths : List ℕ) (row : List Text) → Option (List ℕ)
widen widths [] = some widths
widen [] (cell ∷ row) = none
widen (w ∷ widths) (cell ∷ row) = do wider ← widen widths row; some (max w (length cell) ∷ wider)

pub widen_all : (widths : List ℕ) (rows : List (List Text)) → Option (List ℕ)
unfolding widen
widen_all widths [] = some widths
widen_all widths (row ∷ rows) = do wider ← widen widths row; widen_all wider rows

-- `"─".repeat(n)`
abbrev pub dashes : ℕ → Text
dashes n = replicate n 9472

-- `" ".repeat(n)`
abbrev pub spaces : ℕ → Text
spaces n = replicate n 32

-- The loop of `rule`: the last column ends with `right`, the others with `mid`.
pub rule_columns : (mid right : Text) → List ℕ → Text
rule_columns mid right [] = []
rule_columns mid right (w ∷ []) = dashes (w + 2) ++ right
rule_columns mid right (w ∷ v ∷ widths) =
    dashes (w + 2) ++ (mid ++ rule_columns mid right (v ∷ widths))

pub rule : (widths : List ℕ) (left mid right : Text) → Text
unfolding rule_columns
rule widths left mid right = left ++ rule_columns mid right widths

-- A cell of `print_row`.
pub aligned : Align → (pad : ℕ) → Text → Text
aligned left_aligned pad cell = codes " " ++ (cell ++ (spaces pad ++ codes " "))
aligned right_aligned pad cell = codes " " ++ (spaces pad ++ (cell ++ codes " "))

-- The loop of `print_row`.
pub row_cells : List ℕ → List Align → List Text → Option Text
unfolding aligned
row_cells widths aligns [] = some []
row_cells [] aligns (cell ∷ cells) = none
row_cells (w ∷ widths) [] (cell ∷ cells) = none
row_cells (w ∷ widths) (align ∷ aligns) (cell ∷ cells) = do
  rest ← row_cells widths aligns cells
  if leb (length cell) w
      then some (aligned align (w - length cell) cell ++ (codes "│" ++ rest))
      else none

pub print_row : List ℕ → List Align → List Text → Option Text
unfolding row_cells
print_row widths aligns cells = do rest ← row_cells widths aligns cells; some (codes "│" ++ rest)

-- The loop of `print_spacer`.
pub spacer_columns : List ℕ → Text
spacer_columns [] = []
spacer_columns (w ∷ widths) = spaces (w + 2) ++ (codes "│" ++ spacer_columns widths)

pub print_spacer : List ℕ → Text
unfolding spacer_columns
print_spacer widths = codes "│" ++ spacer_columns widths

-- The loop over the rows, from row `i`: a spacer before each row but the first.
pub print_rows : List ℕ → List Align → (i : ℕ) → List (List Text) → Option (List Text)
unfolding print_row print_spacer
print_rows widths aligns i [] = some []
print_rows widths aligns i (row ∷ rows) = do
  line ← print_row widths aligns row
  rest ← print_rows widths aligns (i + 1) rows
  let spacer : List Text = if ltb 0 i then print_spacer widths ∷ [] else []
  some (spacer ++ (line ∷ rest))

pub print_table : List Text → List Align → List (List Text) → Option (List Text)
unfolding widen_all rule print_row print_rows
print_table headers aligns rows = do
  widths ← widen_all (map length headers) rows
  head ← print_row widths aligns headers
  body ← print_rows widths aligns 0 rows
  some (
      rule widths (codes "┌") (codes "┬") (codes "┐")
      ∷ head
      ∷ rule widths (codes "├") (codes "┼") (codes "┤")
      ∷ (body ++ (rule widths (codes "└") (codes "┴") (codes "┘") ∷ [])))
