-- ===== src/Client/Metadata/Termination.antt =====
-- The walk over extensions ends on any bytes.
use archer_market_maker.Base.{
  ℕ, zero, suc, ◌+◌, ◌^◌, ◌≤◌, ◌<◌, ◌≡◌, ◌≢◌, Option, none, some, ltb, leb, ◌==◌, if_elim, arith,
  length, add_u64, checked_add_u64, Option-cases, inl, inr,
}
use archer_market_maker.Client.Metadata.{
  Bytes, Text, after_header, scan_extensions, parse_token2022_symbol,
}

checked_add_some : (a b c : ℕ) → checked_add_u64 a b ≡ some c → a ≤ c
checked_add_some a b c h = ground arith

module _ (from_utf8_lossy : Bytes → Text) where
  after_header_total :
      (next : ℕ → Option (Option Text)) (bytes : Bytes) (val_start ext_type ext_len : ℕ)
      → ((n : ℕ) → val_start ≤ n → n ≤ length bytes → next n ≢ none)
      → after_header from_utf8_lossy next bytes val_start ext_type ext_len ≢ none
  unfolding after_header
  after_header_total next bytes val_start ext_type ext_len goes_on =
      if_elim (λ r. r ≢ none) (ext_type == 0) (λ _ e. cc)
        λ _. elim (Option-cases (checked_add_u64 val_start ext_len)) [
          | inl e ↦ rw e (λ h. cc)
          | inr (val_end, e) ↦ rw e (
              if_elim (λ r. r ≢ none) (ltb (length bytes) val_end) (λ _ h. cc)
                λ inside.
                  if_elim (λ r. r ≢ none) (ext_type == 19) (λ _ h. cc)
                    λ _. goes_on val_end (checked_add_some _ _ _ e) (ground arith))
        ]

  scan_total :
      (fuel : ℕ) (bytes : Bytes) (offset : ℕ)
      → length bytes < 2 ^ 63
      → offset < 2 ^ 63
      → length bytes < offset + fuel
      → scan_extensions from_utf8_lossy (suc fuel) bytes offset ≢ none
  unfolding scan_extensions
  scan_total zero bytes offset small low enough = ground arith
  scan_total (suc fuel) bytes offset small low enough =
      if_elim (λ r. r ≢ none) (leb (add_u64 offset 4) (length bytes))
        (λ _.
          after_header_total (scan_extensions from_utf8_lossy (suc fuel) bytes) bytes (offset + 4) _
            _ λ n later inside. scan_total fuel bytes n small (omega arith) (omega arith))
        λ _ h. cc

  -- Whatever the bytes are, fewer than 2 ^ 63, the walk over the extensions comes to an end.
  pub parse_token2022_symbol_total :
      (bytes : Bytes) → length bytes < 2 ^ 63 → parse_token2022_symbol from_utf8_lossy bytes ≢ none
  unfolding parse_token2022_symbol
  parse_token2022_symbol_total bytes small =
      scan_total (length bytes) bytes 166 small (omega arith) (omega arith)
