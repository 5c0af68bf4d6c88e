-- ===== src/Client/Metadata.antt =====
-- The parsers of token metadata in src/archer/client.rs. Bytes and characters are numbers, a string
-- is the list of its characters. `String::from_utf8_lossy` is a parameter.
pub mod Borsh
pub mod Trimming
pub mod Rounds
pub mod Extensions
pub mod Termination
use archer_market_maker.Base.{
  ℕ, zero, suc, ◌+◌, ◌-◌, ◌*◌, List, [], ◌∷◌, Option, none, some, Bool, true, false, ◌&&◌, ◌||◌,
  ltb, leb, ◌==◌, if◌then◌else◌, ◌>>=◌, length, is_empty, take, drop, add_u64, checked_add_u64,
}
pub use archer_market_maker.Base.Text.{Text}

abbrev pub Bytes : Type 0
Bytes = List ℕ

abbrev pub from_le_bytes : Bytes → ℕ
from_le_bytes [] = 0
from_le_bytes (b ∷ bs) = b + 256 * from_le_bytes bs

-- `data[from..to]`
abbrev pub slice : Bytes → (from to : ℕ) → Bytes
slice bytes from to = take (to - from) (drop from bytes)

-- `data.get(from..to)`
abbrev pub get_range : Bytes → (from to : ℕ) → Option Bytes
get_range bytes from to =
    if leb from to && leb to (length bytes) then some (slice bytes from to) else none

-- `char::is_whitespace`
abbrev pub is_whitespace : ℕ → Bool
is_whitespace c =
    (leb 9 c && leb c 13)
    || c == 32
    || c == 133
    || c == 160
    || c == 5760
    || (leb 8192 c && leb c 8202)
    || c == 8232
    || c == 8233
    || c == 8239
    || c == 8287
    || c == 12288

module _ (test : ℕ → Bool) where
  abbrev pub trim_start : Text → Text
  trim_start [] = []
  trim_start (c ∷ s) = let rest = trim_start s in if test c then rest else c ∷ s

  -- Puts a character before a text that was trimmed at its end.
  abbrev pub before_end : ℕ → Text → Text
  before_end c [] = if test c then [] else c ∷ []
  before_end c (d ∷ s) = c ∷ d ∷ s

  abbrev pub trim_end : Text → Text
  trim_end [] = []
  trim_end (c ∷ s) = before_end c (trim_end s)

  -- `trim_matches`
  abbrev pub trim_matches : Text → Text
  trim_matches s = trim_end (trim_start s)

-- `(!symbol.is_empty()).then_some(symbol)`
abbrev pub non_empty : Text → Option Text
non_empty s = if is_empty s then none else some s

pub read_u32 : Bytes → (offset : ℕ) → Option ℕ
read_u32 bytes offset = do
  end ← checked_add_u64 offset 4
  four ← get_range bytes offset end
  some (from_le_bytes four)

module _ (from_utf8_lossy : Bytes → Text) where
  -- The text of a string's bytes, without the NULs and the blanks around it.
  abbrev pub trimmed : Bytes → Text
  trimmed bytes = trim_matches is_whitespace (trim_matches (λ c. c == 0) (from_utf8_lossy bytes))

  pub read_borsh_string : Bytes → (offset : ℕ) → Option (Text × ℕ)
  unfolding read_u32
  read_borsh_string bytes offset = do
    len ← read_u32 bytes offset
    end ← checked_add_u64 (add_u64 offset 4) len
    string ← get_range bytes (add_u64 offset 4) end
    some (trimmed string, end)

  -- The second of two strings from `offset` on, if it is not empty.
  pub symbol_after_name : Bytes → (offset : ℕ) → Option Text
  unfolding read_borsh_string
  symbol_after_name bytes offset = do
    (name, after_name) ← read_borsh_string bytes offset
    (symbol, end) ← read_borsh_string bytes after_name
    non_empty symbol

  pub parse_metaplex_symbol : Bytes → Option Text
  unfolding symbol_after_name
  parse_metaplex_symbol bytes = symbol_after_name bytes 65

  -- A round of the `while` loop past the reading of an extension's type and length, given the rest
  -- of the loop.
  pub after_header :
      (next : ℕ → Option (Option Text))
      → Bytes
      → (val_start ext_type ext_len : ℕ) → Option (Option Text)
  unfolding symbol_after_name
  after_header next bytes val_start ext_type ext_len =
      if ext_type == 0 then some none else elim (checked_add_u64 val_start ext_len) [
        | none ↦ some none
        | some val_end ↦
            if ltb (length bytes) val_end
            then some none
            else (if ext_type == 19
                then some (symbol_after_name (slice bytes val_start val_end) 64)
                else next val_end)
      ]

  -- The `while` loop from `offset` on; `none` means that the fuel ran out.
  pub scan_extensions : (fuel : ℕ) → Bytes → (offset : ℕ) → Option (Option Text)
  unfolding after_header
  scan_extensions zero bytes offset = none
  scan_extensions (suc fuel) bytes offset =
      if leb (add_u64 offset 4) (length bytes)
      then after_header (scan_extensions fuel bytes) bytes (offset + 4)
          (from_le_bytes (slice bytes offset (offset + 2)))
          (from_le_bytes (slice bytes (offset + 2) (offset + 4)))
      else some none

  -- Each round takes four bytes at least, so this fuel is enough.
  pub parse_token2022_symbol : Bytes → Option (Option Text)
  unfolding scan_extensions
  parse_token2022_symbol bytes = scan_extensions (suc (length bytes)) bytes 166

  -- The symbol, if there is one; the fuel does not run out.
  pub token2022_symbol : Bytes → Option Text
  unfolding parse_token2022_symbol
  token2022_symbol bytes = elim (parse_token2022_symbol bytes) [ none ↦ none | some s ↦ s ]
