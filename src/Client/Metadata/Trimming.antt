-- ===== src/Client/Metadata/Trimming.antt =====
-- What trimming makes of a padded symbol, and the symbol of a Metaplex account.
use archer_market_maker.Base.{
  ℕ, zero, suc, ◌+◌, ◌<◌, ◌^◌, ◌≡◌, refl, sym, ap, ◌∙◌, [], ◌∷◌, ◌++◌, some, Bool, true, false,
  ◌||◌, ◌==◌, arith, length, replicate, All, All-append, length-append, length-replicate,
}
use mathlib.Core.List.{append-nil}
use archer_market_maker.Client.Metadata.{
  Bytes, Text, is_whitespace, trim_start, before_end, trim_end, trim_matches, non_empty, trimmed,
  parse_metaplex_symbol, symbol_after_name,
}
use archer_market_maker.Client.Metadata.Borsh.{borsh_string, symbol_after_name_at}

abbrev pub last : ℕ → Text → ℕ
last c [] = c
last c (d ∷ s) = last d s

-- A NUL or a blank.
abbrev pub is_trimmed_off : ℕ → Bool
is_trimmed_off c = c == 0 || is_whitespace c

-- Not empty, and no NUL or blank at either end.
abbrev pub IsTight : Text → Type 0
IsTight [] = ⊥
IsTight (c ∷ s) = (is_trimmed_off c ≡ false) × (is_trimmed_off (last c s) ≡ false)

module _ (test : ℕ → Bool) where
  trim_start_head : (c : ℕ) (s : Text) → test c ≡ false → trim_start test (c ∷ s) ≡ c ∷ s
  trim_start_head c s h = rw h refl

  trim_end-All : (zs : Text) → All (λ z. test z ≡ true) zs → trim_end test zs ≡ []
  trim_end-All [] all = refl
  trim_end-All (z ∷ zs) (h, all) = rw (trim_end-All zs all) (rw h refl)

  trim_end-append :
      (s zs : Text) → All (λ z. test z ≡ true) zs → trim_end test (s ++ zs) ≡ trim_end test s
  trim_end-append [] zs all = trim_end-All zs all
  trim_end-append (c ∷ s) zs all = ap (before_end test c) (trim_end-append s zs all)

  trim_end-last : (c : ℕ) (s : Text) → test (last c s) ≡ false → trim_end test (c ∷ s) ≡ c ∷ s
  trim_end-last c [] h = rw h refl
  trim_end-last c (d ∷ s) h = ap (before_end test c) (trim_end-last d s h)

  trim_matches_padded :
      (c : ℕ) (s zs : Text)
      → test c ≡ false
      → test (last c s) ≡ false
      → All (λ z. test z ≡ true) zs
      → trim_matches test (c ∷ s ++ zs) ≡ c ∷ s
  trim_matches_padded c s zs first end all =
      ap (trim_end test) (trim_start_head c (s ++ zs) first)
      ∙ trim_end-append (c ∷ s) zs all
      ∙ trim_end-last c s end

or_false : (a b : Bool) → (a || b) ≡ false → (a ≡ false) × (b ≡ false)
or_false a b h = ground arith

All-replicate : (n : ℕ) → All (λ z. (z == 0) ≡ true) (replicate n 0)
All-replicate zero = tt
All-replicate (suc n) = (refl, All-replicate n)

All-replicate_ascii : (n : ℕ) → All (λ b. b < 128) (replicate n 0)
All-replicate_ascii zero = tt
All-replicate_ascii (suc n) = (omega arith, All-replicate_ascii n)

module _ (from_utf8_lossy : Bytes → Text)
    (decodes_ascii : (bytes : Bytes)
      → All (λ b. b < 128) bytes
      → from_utf8_lossy bytes ≡ bytes) where
  -- Trimming takes the padding off an ASCII symbol.
  pub trimmed_padded :
      (symbol : Bytes) (padding : ℕ)
      → All (λ b. b < 128) symbol
      → IsTight symbol
      → non_empty (trimmed from_utf8_lossy (symbol ++ replicate padding 0)) ≡ some symbol
  trimmed_padded [] padding ascii tight = absurd tight
  trimmed_padded (c ∷ s) padding ascii (first, end) =
      let (first0, first_ws) = or_false (c == 0) (is_whitespace c) first in
      let (end0, end_ws) = or_false (last c s == 0) (is_whitespace (last c s)) end in
      let zeros = replicate {A = ℕ} padding 0 in
      let decoded =
        decodes_ascii (c ∷ s ++ zeros)
          (All-append (λ b. b < 128) (c ∷ s) zeros ascii (All-replicate_ascii padding)) in
      let no_nul =
        trim_matches_padded (λ d. d == 0) c s zeros first0 end0 (All-replicate padding) in
      let no_blank =
        ap (trim_matches is_whitespace) (sym (append-nil (c ∷ s)))
        ∙ trim_matches_padded is_whitespace c s [] first_ws end_ws tt in
      ap (λ bytes. non_empty (trim_matches is_whitespace (trim_matches (λ d. d == 0) bytes)))
        decoded
      ∙ ap (λ t. non_empty (trim_matches is_whitespace t)) no_nul
      ∙ ap non_empty no_blank

  -- A Metaplex account is 65 bytes, then the name and the symbol, each as a length of four bytes
  -- and its bytes, which may be padded with zeros. Where the decoder is the identity on ASCII, the
  -- parser reads back any ASCII symbol that is not empty and has no NUL or blank at its ends.
  pub parse_metaplex_symbol-borsh_string :
      (header name symbol back : Bytes) (padding : ℕ)
      → length header ≡ 65
      → length name < 2 ^ 32
      → length symbol + padding < 2 ^ 32
      → All (λ b. b < 128) symbol
      → IsTight symbol
      → parse_metaplex_symbol from_utf8_lossy
          (header ++ (borsh_string name ++ (borsh_string (symbol ++ replicate padding 0) ++ back)))
        ≡ some symbol
  unfolding parse_metaplex_symbol
  parse_metaplex_symbol-borsh_string header name symbol back padding h hn hs ascii tight =
      let zeros = replicate {A = ℕ} padding 0 in
      let size : length (symbol ++ zeros) ≡ length symbol + padding =
        length-append symbol zeros ∙ ap (λ n. length symbol + n) (length-replicate padding 0) in
      ap
        (symbol_after_name from_utf8_lossy
          (header ++ (borsh_string name ++ (borsh_string (symbol ++ zeros) ++ back))))
        (sym h)
      ∙ symbol_after_name_at from_utf8_lossy header name (symbol ++ zeros) back hn
          (omega (arith, size)) (omega (arith, size, h))
      ∙ trimmed_padded symbol padding ascii tight
