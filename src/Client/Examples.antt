-- ===== src/Client/Examples.antt =====
-- A node that refuses two submissions, and two tokens: one with Metaplex metadata, one without.
use archer_market_maker.Base.{◌≢◌}
use archer_market_maker.Client.Metadata.Termination.{parse_token2022_symbol_total}
use archer_market_maker.Base.{
  ℕ, ◌+◌, ◌≤◌, ◌≡◌, refl, List, [], ◌∷◌, ◌++◌, map, Option, none, some, arith, ◌>>=◌, ltb, leb,
  ◌==◌, le→leb, length, replicate, if◌then◌else◌,
}
use archer_market_maker.Base.Keys.{nat_eq, lookup}
use archer_market_maker.Client.Metadata.{Bytes, Text, parse_metaplex_symbol, parse_token2022_symbol}
use archer_market_maker.Client.Metadata.Borsh.{borsh_string}
use archer_market_maker.Client.Metadata.Trimming.{parse_metaplex_symbol-borsh_string}
use archer_market_maker.Client.Metadata.Rounds.{Extension, extensions_bytes}
use archer_market_maker.Client.Metadata.Extensions.{
  first_symbol, parse_token2022_symbol-extensions_bytes,
}
use archer_market_maker.Client.{
  SendOptions, default_options, with_priority_fee, ok, err, Node, Account, Mints, instructions_with,
  send_instructions, get_token_symbols, metaplex_symbol, mint_symbol,
}
use archer_market_maker.Client.Sending.{Submits, send_instructions-Submits}
use archer_market_maker.Client.Symbols.{or_else, lookup-get_token_symbols}

abbrev node : Node ℕ ℕ (List ℕ × ℕ) ℕ ℕ
node = record {
  set_compute_unit_limit = λ n. n;
  set_compute_unit_price = λ n. n;
  new_signed_with_payer = λ instructions hash. (instructions, hash);
  latest_blockhash = some 8;
  send_and_confirm = λ n tx. if ltb n 2 then err n else ok 77;
}

abbrev options : SendOptions
options = with_priority_fee default_options 500

third_accepted : (send_instructions node (5 ∷ []) default_options).1 ≡ 3
unfolding send_instructions
third_accepted = refl

send_instructions-Submits_example :
    Submits node
      (instructions_with node options (5 ∷ []), 8)
      0
      (options.max_retries + 1)
      (send_instructions node (5 ∷ []) options)
send_instructions-Submits_example = send_instructions-Submits node (5 ∷ []) options 8 refl

-- `WSOL`, padded
abbrev metadata : Bytes
metadata =
    replicate 65 7
    ++ (borsh_string (87 ∷ [])
        ++ (borsh_string ((87 ∷ 83 ∷ 79 ∷ 76 ∷ []) ++ replicate 6 0) ++ (1 ∷ 2 ∷ [])))

abbrev decode : Bytes → Text
decode bytes = bytes

parse_metaplex_symbol-borsh_string_example :
    parse_metaplex_symbol decode metadata ≡ some (87 ∷ 83 ∷ 79 ∷ 76 ∷ [])
parse_metaplex_symbol-borsh_string_example =
    parse_metaplex_symbol-borsh_string decode (λ bytes ascii. refl) (replicate 65 7) (87 ∷ [])
      (87 ∷ 83 ∷ 79 ∷ 76 ∷ []) (1 ∷ 2 ∷ []) 6 refl (omega arith) (omega arith)
      (omega arith, (omega arith, (omega arith, (omega arith, tt)))) (refl, refl)

abbrev extensions : List Extension
extensions =
    record { ext_type = 3; value = 1 ∷ 2 ∷ [] }
    ∷ record {
      ext_type = 19;
      value = replicate 64 0 ++ (borsh_string (65 ∷ []) ++ borsh_string (66 ∷ []));
    }
    ∷ []

parse_token2022_symbol-extensions_bytes_example :
    parse_token2022_symbol decode
      (replicate 166 1 ++ (extensions_bytes extensions ++ replicate 2 0))
    ≡ some (first_symbol decode extensions)
parse_token2022_symbol-extensions_bytes_example =
    parse_token2022_symbol-extensions_bytes decode (replicate 166 1) extensions 2 refl
      ((omega arith, omega arith, omega arith), ((omega arith, omega arith, omega arith), tt))
      (omega arith)

abbrev account_at : ℕ → Option (Account ℕ)
account_at k = if k == 1001 then some (record { owner = 9; content = metadata }) else none

abbrev tokens : Mints ℕ
tokens = record {
  get_multiple_accounts =
      λ asked. if leb (length asked) 100 then some (map account_at asked) else none;
  metaplex_metadata_pda = λ mint. mint + 1000;
  token_2022 = 22;
  from_utf8_lossy = decode;
}

answers :
    (asked : List ℕ)
    → length asked ≤ 100
    → tokens.get_multiple_accounts asked ≡ some (map account_at asked)
answers asked small = rw (le→leb (length asked) 100 small) refl

lookup-get_token_symbols_example :
    lookup 1 (get_token_symbols tokens (1 ∷ 2 ∷ []))
    ≡ or_else (account_at 1001 >>= metaplex_symbol tokens) (account_at 1 >>= mint_symbol tokens)
lookup-get_token_symbols_example = lookup-get_token_symbols tokens account_at answers (1 ∷ 2 ∷ []) 1

-- A mint that ends within an extension's header.
abbrev cut_short : Bytes
cut_short = replicate 168 1

parse_token2022_symbol_total_example : parse_token2022_symbol decode cut_short ≢ none
parse_token2022_symbol_total_example = parse_token2022_symbol_total decode cut_short (omega arith)
