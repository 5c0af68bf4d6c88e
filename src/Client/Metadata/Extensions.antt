-- ===== src/Client/Metadata/Extensions.antt =====
-- The walk over the extensions of a Token-2022 mint.
use mathlib.Core.List.{append_assoc}
use mathlib.Core.Path.{ap₂}
use archer_market_maker.Base.{
  ℕ, zero, suc, ◌+◌, ◌^◌, ◌<◌, ◌≡◌, sym, ap, ◌∙◌, List, [], ◌∷◌, ◌++◌, Option, none, some, ◌==◌,
  if◌then◌else◌, arith, length, replicate, All, length-append, length-replicate,
}
use archer_market_maker.Client.Metadata.{
  Bytes, Text, symbol_after_name, scan_extensions, parse_token2022_symbol,
}
use archer_market_maker.Client.Metadata.Rounds.{
  Extension, extension_bytes, extensions_bytes, IsExtension, if_some, length_extensions, scan_one,
  scan_padding,
}

module _ (from_utf8_lossy : Bytes → Text) where
  -- The symbol in the first extension for token metadata.
  abbrev pub first_symbol : List Extension → Option Text
  first_symbol [] = none
  first_symbol (x ∷ xs) =
      let rest = first_symbol xs in
      if x.ext_type == 19 then symbol_after_name from_utf8_lossy x.value 64 else rest

  scan-All :
      (fuel : ℕ) (front : Bytes) (xs : List Extension) (padding : ℕ)
      → All IsExtension xs
      → length xs < fuel
      → length front + length (extensions_bytes xs) + padding < 2 ^ 63
      → scan_extensions from_utf8_lossy fuel
          (front ++ (extensions_bytes xs ++ replicate padding 0))
          (length front)
        ≡ some (first_symbol xs)
  scan-All zero front xs padding all enough fits = absurd (omega arith)
  scan-All (suc fuel) front [] padding all enough fits =
      scan_padding from_utf8_lossy fuel front padding (omega arith)
  scan-All (suc fuel) front (x ∷ xs) padding (one, all) enough fits =
      let exts = extensions_bytes xs in
      let zeros_back = replicate {A = ℕ} padding 0 in
      let back = exts ++ zeros_back in
      let next = front ++ extension_bytes x in
      let size = length-append front (extension_bytes x) in
      let back_size = length-append exts zeros_back in
      let pad_size : length zeros_back ≡ padding = length-replicate padding 0 in
      let value_size = length-append x.value exts in
      ap (λ bytes. scan_extensions from_utf8_lossy (suc fuel) (front ++ bytes) (length front))
        (append_assoc (extension_bytes x) exts zeros_back)
      ∙ scan_one from_utf8_lossy fuel front x back one (omega arith)
      ∙ ap
          (λ rest.
            if x.ext_type == 19 then some (symbol_after_name from_utf8_lossy x.value 64) else rest)
          (ap₂ (scan_extensions from_utf8_lossy fuel)
              (sym (append_assoc front (extension_bytes x) back)) (omega arith)
            ∙ scan-All fuel next xs padding all (omega arith) (omega arith))
      ∙ if_some (x.ext_type == 19) (symbol_after_name from_utf8_lossy x.value 64) (first_symbol xs)

  -- A Token-2022 mint with extensions is 166 bytes, then each extension's type and length in two
  -- bytes each and its value, then zeros. The parser comes to an end, and what it finds is what
  -- the first extension for token metadata holds: the second of the two strings behind its first 64
  -- bytes, without the NULs and blanks around it, if it is there and not empty.
  pub parse_token2022_symbol-extensions_bytes :
      (header : Bytes) (xs : List Extension) (padding : ℕ)
      → length header ≡ 166
      → All IsExtension xs
      → 166 + length (extensions_bytes xs) + padding < 2 ^ 63
      → parse_token2022_symbol from_utf8_lossy
          (header ++ (extensions_bytes xs ++ replicate padding 0))
        ≡ some (first_symbol xs)
  unfolding parse_token2022_symbol
  parse_token2022_symbol-extensions_bytes header xs padding h all fits =
      let bytes = header ++ (extensions_bytes xs ++ replicate padding 0) in
      let size = length-append header (extensions_bytes xs ++ replicate padding 0) in
      let size' = length-append (extensions_bytes xs) (replicate {A = ℕ} padding 0) in
      ap (scan_extensions from_utf8_lossy (suc (length bytes)) bytes) (sym h)
      ∙ scan-All (suc (length bytes)) header xs padding all
          (omega (arith, size, size', length_extensions xs)) (omega arith)
