-- ===== src/Client/Metadata/Borsh.antt =====
-- Strings as they are laid out, and the symbol of a Metaplex account.
use mathlib.Core.List.{append_assoc}
use archer_market_maker.Base.{
  ℕ, ◌+◌, ◌-◌, ◌/◌, ◌%◌, ◌^◌, ◌<◌, ◌≡◌, refl, sym, ap, ◌∙◌, [], ◌∷◌, ◌++◌, some, arith, length,
  length-append, drop-length_append, take-length_append,
}
use archer_market_maker.Client.Metadata.{
  Bytes, Text, from_le_bytes, slice, get_range, non_empty, read_u32, trimmed, read_borsh_string,
  symbol_after_name,
}

-- `to_le_bytes` of a `u32`.
abbrev pub le_u32 : ℕ → Bytes
le_u32 n = n % 256 ∷ n / 256 % 256 ∷ n / 65536 % 256 ∷ n / 16777216 ∷ []

-- A string as borsh writes it.
abbrev pub borsh_string : Bytes → Bytes
borsh_string s = le_u32 (length s) ++ s

-- What stands behind `front` is found at its length.
pub slice_at :
    (front middle back : Bytes) (to : ℕ)
    → to ≡ length front + length middle
    → slice (front ++ (middle ++ back)) (length front) to ≡ middle
slice_at front middle back to e =
    let size : to - length front ≡ length middle = omega arith in
    rw (size, drop-length_append front (middle ++ back)) (take-length_append middle back)

-- What stands behind `front` and `prefix`.
pub slice_within :
    (front prefix middle back : Bytes) (from to : ℕ)
    → from ≡ length front + length prefix
    → to ≡ length front + length prefix + length middle
    → slice (front ++ (prefix ++ (middle ++ back))) from to ≡ middle
slice_within front prefix middle back from to ef et =
    let size = length-append front prefix in
    ap (λ n. slice (front ++ (prefix ++ (middle ++ back))) n to) (ef ∙ sym size)
    ∙ ap (λ bytes. slice bytes (length (front ++ prefix)) to)
        (sym (append_assoc front prefix (middle ++ back)))
    ∙ slice_at (front ++ prefix) middle back to (omega (arith, size))

pub get_range_at :
    (front middle back : Bytes) (to : ℕ)
    → to ≡ length front + length middle
    → get_range (front ++ (middle ++ back)) (length front) to ≡ some middle
get_range_at front middle back to e = ground (
  arith,
  slice_at front middle back to,
  length-append front (middle ++ back),
  length-append middle back,
)

read_u32_at :
    (front back : Bytes) (n : ℕ)
    → n < 2 ^ 32
    → length front + 4 < 2 ^ 64
    → read_u32 (front ++ (le_u32 n ++ back)) (length front) ≡ some n
unfolding read_u32
read_u32_at front back n small fits =
    let value : from_le_bytes (le_u32 n) ≡ n = omega arith in
    ground (arith, get_range_at front (le_u32 n) back (length front + 4), value)

string_at :
    (front string back : Bytes) (to : ℕ)
    → to ≡ length front + 4 + length string
    → get_range (front ++ (borsh_string string ++ back)) (length front + 4) to ≡ some string
string_at front string back to e =
    let prefix = front ++ le_u32 (length string) in
    let size : length prefix ≡ length front + 4 =
      length-append front (le_u32 (length string)) ∙ omega arith in
    ap (λ n. get_range (front ++ (borsh_string string ++ back)) n to) (sym size)
    ∙ ap (λ bytes. get_range bytes (length prefix) to)
        (sym (append_assoc front (le_u32 (length string)) (string ++ back)))
    ∙ get_range_at prefix string back to (omega (arith, size))

module _ (from_utf8_lossy : Bytes → Text) where
  read_borsh_string_at :
      (front string back : Bytes)
      → length string < 2 ^ 32
      → length front + 4 + length string < 2 ^ 64
      → read_borsh_string from_utf8_lossy (front ++ (borsh_string string ++ back)) (length front)
        ≡ some (trimmed from_utf8_lossy string, length front + 4 + length string)
  unfolding read_borsh_string
  read_borsh_string_at front string back small fits = ground (
    arith,
    read_u32_at front (string ++ back) (length string),
    string_at front string back (length front + 4 + length string),
  )

  -- The second of two strings behind `front`.
  second_string_at :
      (front name symbol back : Bytes) (offset : ℕ)
      → offset ≡ length front + 4 + length name
      → length symbol < 2 ^ 32
      → length front + 8 + length name + length symbol < 2 ^ 64
      → read_borsh_string from_utf8_lossy
          (front ++ (borsh_string name ++ (borsh_string symbol ++ back)))
          offset
        ≡ some (trimmed from_utf8_lossy symbol, offset + 4 + length symbol)
  second_string_at front name symbol back offset e hs fits =
      let prefix = front ++ borsh_string name in
      let size : length prefix ≡ offset = length-append front (borsh_string name) ∙ omega arith in
      ap (λ bytes. read_borsh_string from_utf8_lossy bytes offset)
        (sym (append_assoc front (borsh_string name) (borsh_string symbol ++ back)))
      ∙ ap (read_borsh_string from_utf8_lossy (prefix ++ (borsh_string symbol ++ back))) (sym size)
      ∙ read_borsh_string_at prefix symbol back hs (omega (arith, size))
      ∙ ap (λ n. some (trimmed from_utf8_lossy symbol, n + 4 + length symbol)) size

  -- The symbol of a name and a symbol behind `front`.
  pub symbol_after_name_at :
      (front name symbol back : Bytes)
      → length name < 2 ^ 32
      → length symbol < 2 ^ 32
      → length front + 8 + length name + length symbol < 2 ^ 64
      → symbol_after_name from_utf8_lossy
          (front ++ (borsh_string name ++ (borsh_string symbol ++ back)))
          (length front)
        ≡ non_empty (trimmed from_utf8_lossy symbol)
  unfolding symbol_after_name
  symbol_after_name_at front name symbol back hn hs fits =
      let first = read_borsh_string_at front name (borsh_string symbol ++ back) hn (omega arith) in
      let second = second_string_at front name symbol back _ refl hs fits in rw (first, second) refl
