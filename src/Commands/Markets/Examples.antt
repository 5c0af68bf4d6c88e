-- ===== src/Commands/Markets/Examples.antt =====
-- Tables, lists of markets and the top of a book on concrete data.
use archer_market_maker.Base.{All}
use archer_market_maker.Commands.Table.{left_aligned, right_aligned, print_table}
use archer_market_maker.Commands.Table.Width.{print_table_width}
use archer_market_maker.Commands.Markets.Printing.{row_symbols}
use archer_market_maker.Base.{
  ℕ, ◌+◌, ◌≤◌, ◌≡◌, refl, ◌⊎◌, inl, inr, List, [], ◌∷◌, Option, none, some, true, false, arith, max,
  min, ltb, leb, le→leb, ◌==◌, map, replicate, ◌++◌, length, if◌then◌else◌,
}
use archer_market_maker.Base.Text.{Text, codes}
use archer_market_maker.Base.Keys.{nat_eq}
use native.Mathlib.Decide.{dec_lt}
use archer_market_maker.Commands.View.{best_prices}
use archer_market_maker.Commands.View.Best.{IsChoice, IsBest, best_prices-IsBest}
use archer_market_maker.Float.{Micro, micro}
use archer_market_maker.Client.{get_token_symbols, Account, Mints}
use archer_market_maker.Client.Metadata.Borsh.{borsh_string}
use archer_market_maker.Commands.Chain.{MakerBook}
use archer_market_maker.Commands.Markets.{Display, Market, active, sorted_mints, symbol_or_unknown}
use archer_market_maker.Commands.Markets.Printing.{unknown_or, symbol_of}
use archer_market_maker.Commands.Examples.{book, header}

abbrev rows : List (List Text)
rows = (codes "SOL" ∷ codes "1" ∷ []) ∷ (codes "?" ∷ codes "200" ∷ []) ∷ []

abbrev display : Display ℕ Micro
display = record {
  to_string = λ key. key ∷ [];
  two_decimals = λ x. x ∷ [];
  le_pubkey = leb;
  from_u8 = λ n. if ltb n 1 then some active else none;
}

-- Two active markets, and a paused one.
abbrev markets : List (Market ℕ)
markets = (9, header 0 true) ∷ (4, header 1 false) ∷ (3, header 0 true) ∷ []

-- The first token's Metaplex account has the symbol `S`; the other token has none.
abbrev account_at : ℕ → Option (Account ℕ)
account_at k =
    if k == 1001
    then some (record {
      owner = 9;
      content = replicate 65 7 ++ (borsh_string (87 ∷ []) ++ borsh_string (83 ∷ []));
    })
    else none

abbrev tokens : Mints ℕ
tokens = record {
  get_multiple_accounts =
      λ asked. if leb (length asked) 100 then some (map account_at asked) else none;
  metaplex_metadata_pda = λ mint. mint + 1000;
  token_2022 = 22;
  from_utf8_lossy = λ bytes. bytes;
}

answers :
    (asked : List ℕ)
    → length asked ≤ 100
    → tokens.get_multiple_accounts asked ≡ some (map account_at asked)
answers asked small = rw (le→leb (length asked) 100 small) refl

abbrev shown : ℕ → Text
shown mint =
    symbol_or_unknown display (get_token_symbols tokens (sorted_mints display markets)) mint

abbrev known : ℕ → Text
known mint = unknown_or (symbol_of display tokens account_at answers mint)

-- Bids at 99 and 97 ticks, and no ask.
abbrev books : List (MakerBook ℕ)
books = book ∷ record book { best_bid_price = some 97 } ∷ []

max_chooses : (a b : ℕ) → (max a b ≡ a) ⊎ (max a b ≡ b)
max_chooses a b = elim (dec_lt a b) [ yes l ↦ inr (omega arith) | no l ↦ inl (omega arith) ]

min_chooses : (a b : ℕ) → (min a b ≡ a) ⊎ (min a b ≡ b)
min_chooses a b = elim (dec_lt a b) [ yes l ↦ inl (omega arith) | no l ↦ inr (omega arith) ]

leb_trans : (a b c : ℕ) → leb a b ≡ true → leb b c ≡ true → leb a c ≡ true
leb_trans a b c p q = ground arith

greatest : IsChoice (λ (a : ℕ). Unit) (λ a b. leb a b ≡ true) max
greatest = record {
  chooses = λ a b p q. max_chooses a b;
  left_worse = λ a b p q. le→leb a (max a b) (omega arith);
  right_worse = λ a b p q. le→leb b (max a b) (omega arith);
  worse_self = λ a p. le→leb a a (omega arith);
  worse_trans = leb_trans;
}

least : IsChoice (λ (a : ℕ). Unit) (λ a b. leb b a ≡ true) min
least = record {
  chooses = λ a b p q. min_chooses a b;
  left_worse = λ a b p q. le→leb (min a b) a (omega arith);
  right_worse = λ a b p q. le→leb (min a b) b (omega arith);
  worse_self = λ a p. le→leb a a (omega arith);
  worse_trans = λ a b c p q. leb_trans c b a q p;
}

best_prices-IsBest_example :
    IsBest
      (λ (a : Micro). Unit)
      (λ a b. leb a b ≡ true)
      (some 99000 ∷ some 97000 ∷ [])
      (best_prices 1000 books).0
    × IsBest
        (λ (a : Micro). Unit)
        (λ a b. leb b a ≡ true)
        (none ∷ none ∷ [])
        (best_prices 1000 books).1
best_prices-IsBest_example =
    best_prices-IsBest 1000 (λ (a : Micro). Unit) (λ ticks. tt) greatest least books

print_table_width_example :
    (lines : List Text) × (width : ℕ) × (print_table
        (codes "Base" ∷ codes "Id" ∷ [])
        (left_aligned ∷ right_aligned ∷ [])
        rows
      ≡ some lines)
    × All (λ line. length line ≡ width) lines
print_table_width_example =
    print_table_width (codes "Base" ∷ codes "Id" ∷ []) (left_aligned ∷ right_aligned ∷ []) rows
      (omega arith) (refl, (refl, tt))

row_symbols_example :
    All
      (λ m.
        (shown m.1.base_mint ≡ known m.1.base_mint) × (shown m.1.quote_mint ≡ known m.1.quote_mint))
      markets
row_symbols_example = row_symbols display tokens account_at answers markets
