-- ===== src/Client/Metadata/Rounds.antt =====
-- The rounds of the walk over the extensions of a Token-2022 mint.
use archer_market_maker.Base.{
  ℕ, zero, suc, ◌+◌, ◌/◌, ◌%◌, ◌^◌, ◌≤◌, ◌<◌, ◌≡◌, refl, ap, ◌∙◌, List, [], ◌∷◌, ◌++◌, Option, none,
  some, Bool, true, false, ltb, ◌==◌, if◌then◌else◌, arith, length, replicate, checked_add_u64,
  length-append, length-replicate, lt→ltb, ge→ltb,
}
use archer_market_maker.Client.Metadata.{
  Bytes, Text, from_le_bytes, slice, symbol_after_name, scan_extensions, after_header,
}
use archer_market_maker.Client.Metadata.Borsh.{slice_at, slice_within}

-- `to_le_bytes` of a `u16`.
abbrev pub le_u16 : ℕ → Bytes
le_u16 n = n % 256 ∷ n / 256 ∷ []

-- An extension: its type, and its value.
pub record Extension : Type 0 where
  pub ext_type : ℕ
  pub value : Bytes

-- The type and the length of the value as two bytes each, and the value.
abbrev pub extension_bytes : Extension → Bytes
extension_bytes x = le_u16 x.ext_type ++ (le_u16 (length x.value) ++ x.value)

abbrev pub extensions_bytes : List Extension → Bytes
extensions_bytes [] = []
extensions_bytes (x ∷ xs) = extension_bytes x ++ extensions_bytes xs

-- The type is not the end mark, and the fields fit their two bytes.
abbrev pub IsExtension : Extension → Type 0
IsExtension x = (0 < x.ext_type) × (x.ext_type < 2 ^ 16) × (length x.value < 2 ^ 16)

pub length_extensions : (xs : List Extension) → length xs ≤ length (extensions_bytes xs)
length_extensions [] = omega arith
length_extensions (x ∷ xs) =
    omega (arith, length_extensions xs, length-append x.value (extensions_bytes xs))

pub if_some :
    {A : Type 0} (b : Bool) (x y : A) → (if b then some x else some y) ≡ some (if b then x else y)
if_some true x y = refl
if_some false x y = refl

module _ (from_utf8_lossy : Bytes → Text) where
  after_header_end :
      (next : ℕ → Option (Option Text)) (bytes : Bytes) (val_start ext_len : ℕ)
      → after_header from_utf8_lossy next bytes val_start 0 ext_len ≡ some none
  unfolding after_header
  after_header_end next bytes val_start ext_len = refl

  after_header_value :
      (next : ℕ → Option (Option Text)) (bytes : Bytes) (val_start ext_type ext_len : ℕ)
      → 0 < ext_type
      → val_start + ext_len ≤ length bytes
      → length bytes < 2 ^ 63
      → after_header from_utf8_lossy next bytes val_start ext_type ext_len ≡ (
          if ext_type == 19
          then some
              (symbol_after_name from_utf8_lossy (slice bytes val_start (val_start + ext_len)) 64)
          else next (val_start + ext_len))
  unfolding after_header
  after_header_value next bytes val_start ext_type ext_len pos fits small =
      let type : (ext_type == 0) ≡ false = ground arith in
      let end : checked_add_u64 val_start ext_len ≡ some (val_start + ext_len) =
        rw (lt→ltb (val_start + ext_len) (2 ^ 64) (omega arith)) refl in
      let within : ltb (length bytes) (val_start + ext_len) ≡ false =
        ge→ltb (length bytes) (val_start + ext_len) (omega arith) in
      rw type (rw end (rw within refl))

  -- A round of the loop in which the type and the length are read.
  scan_round :
      (fuel : ℕ) (bytes : Bytes) (offset ext_type ext_len : ℕ)
      → offset + 4 ≤ length bytes
      → length bytes < 2 ^ 63
      → from_le_bytes (slice bytes offset (offset + 2)) ≡ ext_type
      → from_le_bytes (slice bytes (offset + 2) (offset + 4)) ≡ ext_len
      → scan_extensions from_utf8_lossy (suc fuel) bytes offset
        ≡ after_header from_utf8_lossy
            (scan_extensions from_utf8_lossy fuel bytes)
            bytes
            (offset + 4)
            ext_type
            ext_len
  unfolding scan_extensions
  scan_round fuel bytes offset ext_type ext_len fits small et el = ground (arith, et, el)

  scan_short :
      (fuel : ℕ) (bytes : Bytes) (offset : ℕ)
      → length bytes < offset + 4
      → offset ≤ length bytes
      → length bytes < 2 ^ 63
      → scan_extensions from_utf8_lossy (suc fuel) bytes offset ≡ some none
  unfolding scan_extensions
  scan_short fuel bytes offset short in_bounds small = ground arith

  -- The number in two bytes behind `front`.
  u16_at :
      (front back : Bytes) (n from to : ℕ)
      → n < 2 ^ 16
      → from ≡ length front
      → to ≡ length front + 2
      → from_le_bytes (slice (front ++ (le_u16 n ++ back)) from to) ≡ n
  u16_at front back n from to small ef et =
      ap (λ k. from_le_bytes (slice (front ++ (le_u16 n ++ back)) k to)) ef
      ∙ ap from_le_bytes (slice_at front (le_u16 n) back to et)
      ∙ omega arith

  pub scan_one :
      (fuel : ℕ) (front : Bytes) (x : Extension) (back : Bytes)
      → IsExtension x
      → length front + 4 + length x.value + length back < 2 ^ 63
      → let bytes = front ++ (extension_bytes x ++ back) in
        let rest = scan_extensions from_utf8_lossy fuel bytes (length front + 4 + length x.value) in
        scan_extensions from_utf8_lossy (suc fuel) bytes (length front)
        ≡ (if x.ext_type == 19 then some (symbol_after_name from_utf8_lossy x.value 64) else rest)
  scan_one fuel front x back (pos, small, short) fits =
      let bytes = front ++ (extension_bytes x ++ back) in
      let start = length front + 4 in
      let size : length bytes ≡ length front + 4 + length x.value + length back =
        length-append front (extension_bytes x ++ back)
        ∙ omega (arith, length-append x.value back) in
      let value : slice bytes start (start + length x.value) ≡ x.value =
        slice_within front (le_u16 x.ext_type ++ le_u16 (length x.value)) x.value back start
          (start + length x.value) (omega arith) (omega arith) in
      let len : from_le_bytes (slice bytes (length front + 2) start) ≡ length x.value =
        ap from_le_bytes (
          slice_within front (le_u16 x.ext_type) (le_u16 (length x.value)) (x.value ++ back)
            (length front + 2) start (omega arith) (omega arith))
        ∙ omega arith in
      scan_round fuel bytes (length front) x.ext_type (length x.value) (omega (arith, size))
        (omega (arith, size))
        (u16_at front (le_u16 (length x.value) ++ (x.value ++ back)) x.ext_type _ _ small refl refl)
        len
      ∙ after_header_value (scan_extensions from_utf8_lossy fuel bytes) bytes start x.ext_type
          (length x.value) pos (omega (arith, size)) (omega (arith, size))
      ∙ ap
          (λ v.
            if x.ext_type == 19
            then some (symbol_after_name from_utf8_lossy v 64)
            else scan_extensions from_utf8_lossy fuel bytes (start + length x.value))
          value

  -- The loop ends at the padding, or where no header is left.
  scan_four_zeros :
      (fuel : ℕ) (front : Bytes) (padding : ℕ)
      → length front + 4 + padding < 2 ^ 63
      → scan_extensions from_utf8_lossy
          (suc fuel)
          (front ++ (0 ∷ 0 ∷ 0 ∷ 0 ∷ replicate padding 0))
          (length front)
        ≡ some none
  scan_four_zeros fuel front padding fits =
      let back = replicate {A = ℕ} padding 0 in
      let bytes = front ++ (0 ∷ 0 ∷ 0 ∷ 0 ∷ back) in
      let size : length bytes ≡ length front + 4 + padding =
        length-append front (0 ∷ 0 ∷ 0 ∷ 0 ∷ back)
        ∙ omega (arith, length-replicate {A = ℕ} padding 0) in
      let two : Bytes = 0 ∷ 0 ∷ [] in
      scan_round fuel bytes (length front) 0 0 (omega (arith, size)) (omega (arith, size))
        (ap from_le_bytes (slice_at front two (0 ∷ 0 ∷ back) (length front + 2) (omega arith)))
        (ap from_le_bytes (
          slice_within front two two back (length front + 2) (length front + 4) (omega arith)
            (omega arith)))
      ∙ after_header_end (scan_extensions from_utf8_lossy fuel bytes) bytes (length front + 4) 0

  scan_few :
      (fuel : ℕ) (front : Bytes) (padding : ℕ)
      → padding < 4
      → length front + padding < 2 ^ 63
      → scan_extensions from_utf8_lossy (suc fuel) (front ++ replicate padding 0) (length front)
        ≡ some none
  scan_few fuel front padding few fits =
      let size : length (front ++ replicate {A = ℕ} padding 0) ≡ length front + padding =
        length-append front (replicate padding 0)
        ∙ omega (arith, length-replicate {A = ℕ} padding 0) in
      scan_short fuel (front ++ replicate padding 0) (length front) (omega (arith, size))
        (omega (arith, size)) (omega (arith, size))

  pub scan_padding :
      (fuel : ℕ) (front : Bytes) (padding : ℕ)
      → length front + padding < 2 ^ 63
      → scan_extensions from_utf8_lossy (suc fuel) (front ++ replicate padding 0) (length front)
        ≡ some none
  scan_padding fuel front (suc (suc (suc (suc padding)))) fits =
      scan_four_zeros fuel front padding (omega arith)
  scan_padding fuel front zero fits = scan_few fuel front zero (omega arith) fits
  scan_padding fuel front (suc zero) fits = scan_few fuel front (suc zero) (omega arith) fits
  scan_padding fuel front (suc (suc zero)) fits =
      scan_few fuel front (suc (suc zero)) (omega arith) fits
  scan_padding fuel front (suc (suc (suc zero))) fits =
      scan_few fuel front (suc (suc (suc zero))) (omega arith) fits
