-- ===== src/Commands/Markets/Printing.antt =====
-- The table of `markets list`, and the symbols in it.
use archer_market_maker.Base.{
  ℕ, ◌+◌, ◌≤◌, ◌≡◌, refl, ap, ◌∙◌, List, [], ◌∷◌, Option, none, some, Bool, true, false, length,
  is_empty, map, ◌>>=◌, All, All-mono, arith,
}
use archer_market_maker.Base.Keys.{Eq, contains, lookup}
use archer_market_maker.Base.Text.{Text, codes}
use archer_market_maker.Base.Sorting.{sort_by, contains-sort_by, contains-dedup}
use archer_market_maker.Float.{F64}
use archer_market_maker.Client.{Account, Mints, get_token_symbols, metaplex_symbol, mint_symbol}
use archer_market_maker.Client.Symbols.{or_else, lookup-get_token_symbols}
use archer_market_maker.Commands.Table.Width.{print_table_width}
use archer_market_maker.Commands.Markets.{
  Display, Market, mints_of, sorted_mints, symbol_or_unknown, row, rows_from, headers, aligns,
  sorted_markets, kept_markets, listed, list_markets,
}

module _ {Pubkey : Type 0} ⦃keys : Eq Pubkey⦄ where
  same_self : (k : Pubkey) → keys.same k k ≡ true
  same_self k = (keys.same_iff k k).1 refl

  -- That both mints of a market are among the keys.
  Mentions : List Pubkey → Market Pubkey → Type 0
  Mentions mints m = (contains mints m.1.base_mint ≡ true) × (contains mints m.1.quote_mint ≡ true)

  mints_of-Mentions : (ms : List (Market Pubkey)) → All (Mentions (mints_of ms)) ms
  unfolding Mentions
  mints_of-Mentions [] = tt
  mints_of-Mentions (m ∷ ms) = (
    (rw (same_self m.1.base_mint) refl, rw (same_self m.1.quote_mint) (ground arith)),
    All-mono (λ n (b, q). (rw b (ground arith), rw q (ground arith))) ms (mints_of-Mentions ms),
  )

-- What stands in a table for a symbol that may be missing.
abbrev pub unknown_or : Option Text → Text
unknown_or none = codes "?"
unknown_or (some s) = s

module _ {Pubkey F : Type 0} ⦃fl : F64 F⦄ ⦃keys : Eq Pubkey⦄ (display : Display Pubkey F) where
  rows_from-length :
      (symbols : List (Pubkey × Text)) (i : ℕ) (ms : List (Market Pubkey))
      → All (λ r. length r ≡ 9) (rows_from display symbols i ms)
  unfolding rows_from row
  rows_from-length symbols i [] = tt
  rows_from-length symbols i (m ∷ ms) = (refl, rows_from-length symbols (i + 1) ms)

  -- `markets list` prints its table whenever there is a market to show: printing does not panic,
  -- and all lines of the table have one width.
  pub list_markets_prints :
      (tokens : Mints Pubkey) (all : Bool) (found : List (Market Pubkey))
      → is_empty (kept_markets all found) ≡ false
      → let markets = sorted_markets display (kept_markets all found) in
        (lines : List Text) × (width : ℕ) × (list_markets display tokens all found
          ≡ listed (length markets) (some lines))
        × All (λ line. length line ≡ width) lines
  unfolding list_markets
  list_markets_prints tokens all found some_market =
      let markets = sorted_markets display (kept_markets all found) in
      let symbols = get_token_symbols tokens (sorted_mints display markets) in
      let (lines, width, printed, same) =
        print_table_width headers aligns (rows_from display symbols 0 markets) (omega arith)
          (rows_from-length symbols 0 markets) in
      (lines, width, rw (some_market, printed) refl, same)

module _ {Pubkey F : Type 0} ⦃keys : Eq Pubkey⦄ (display : Display Pubkey F) (tokens : Mints Pubkey)
    (account_at : Pubkey → Option (Account Pubkey))
    (answers : (asked : List Pubkey)
      → length asked ≤ 100
      → tokens.get_multiple_accounts asked ≡ some (map account_at asked)) where
  -- The symbol of a mint, by its Metaplex metadata or else by its own account.
  abbrev pub symbol_of : Pubkey → Option Text
  symbol_of mint =
      or_else (account_at (tokens.metaplex_metadata_pda mint) >>= metaplex_symbol tokens)
        (account_at mint >>= mint_symbol tokens)

  lookup-sorted_mints :
      (markets : List (Market Pubkey)) (k : Pubkey)
      → contains (mints_of markets) k ≡ true
      → lookup k (get_token_symbols tokens (sorted_mints display markets)) ≡ symbol_of k
  lookup-sorted_mints markets k e =
      let among : contains (sorted_mints display markets) k ≡ true =
        contains-dedup (sort_by display.le_pubkey (mints_of markets)) k
        ∙ contains-sort_by display.le_pubkey (mints_of markets) k
        ∙ e in
      lookup-get_token_symbols tokens account_at answers (sorted_mints display markets) k
      ∙ rw among refl

  -- Let every call of the node with at most 100 keys bring the accounts at those keys. Then for the
  -- markets of the table, however many, the symbols that are looked up are those of the two tokens:
  -- from the Metaplex metadata or else from the mint's account, and unknown (`?`) if neither has one.
  pub row_symbols :
      (markets : List (Market Pubkey))
      → let symbols = get_token_symbols tokens (sorted_mints display markets) in
        let shown = λ (mint : Pubkey). symbol_or_unknown display symbols mint in
        All
          (λ m.
            (shown m.1.base_mint ≡ unknown_or (symbol_of m.1.base_mint))
            × (shown m.1.quote_mint ≡ unknown_or (symbol_of m.1.quote_mint)))
          markets
  unfolding Mentions
  row_symbols markets =
      All-mono
        (λ m (b, q). (
          ap unknown_or (lookup-sorted_mints markets m.1.base_mint b),
          ap unknown_or (lookup-sorted_mints markets m.1.quote_mint q),
        ))
        markets (mints_of-Mentions markets)
