-- ===== src/Client.antt =====
-- src/archer/client.rs: the client for single commands. The RPC node, signing, the compute-budget
-- encoders and the derivation of addresses are parameters.
pub mod Metadata
pub mod Sending
pub mod Symbols
pub mod Accounts
mod Examples
use archer_market_maker.Base.{
  ℕ, zero, suc, ◌+◌, List, [], ◌∷◌, ◌++◌, map, foldl, Option, none, some, Bool, not, ◌>>=◌,
  if◌then◌else◌,
}
use archer_market_maker.Base.Keys.{Eq, insert, contains_key}
use archer_market_maker.Client.Metadata.{Bytes, Text, parse_metaplex_symbol, token2022_symbol}

pub record SendOptions : Type 0 where
  pub priority_fee_micro_lamports : Option ℕ
  pub compute_unit_limit : Option ℕ
  pub max_retries : ℕ

-- `SendOptions::default`
abbrev pub default_options : SendOptions
default_options = record {
  priority_fee_micro_lamports = none;
  compute_unit_limit = none;
  max_retries = 3;
}

pub with_priority_fee : SendOptions → ℕ → SendOptions
with_priority_fee options micro_lamports = record options {
  priority_fee_micro_lamports = some micro_lamports;
}

-- An answer of the node.
pub data Reply (Error Signature : Type 0) : Type 0 where
  ok : Signature → Reply Error Signature
  err : Error → Reply Error Signature

-- What `send_instructions` comes to; `panicked` is its `unwrap` of no error.
pub data Sent (Error Signature : Type 0) : Type 0 where
  sent : Signature → Sent Error Signature
  no_blockhash : Sent Error Signature
  failed : Error → Sent Error Signature
  panicked : Sent Error Signature

-- The node as `send_instructions` uses it. The `n`-th submission may be answered otherwise than
-- the first.
pub record Node (Hash Instruction Transaction Error Signature : Type 0) : Type 0 where
  pub set_compute_unit_limit : ℕ → Instruction
  pub set_compute_unit_price : ℕ → Instruction
  pub new_signed_with_payer : List Instruction → Hash → Transaction
  pub latest_blockhash : Option Hash
  pub send_and_confirm : ℕ → Transaction → Reply Error Signature

module _ {Hash Instruction Transaction Error Signature : Type 0}
    (node : Node Hash Instruction Transaction Error Signature) where
  open node use {
    set_compute_unit_limit, set_compute_unit_price, new_signed_with_payer, latest_blockhash,
    send_and_confirm,
  }

  pub instructions_with : SendOptions → List Instruction → List Instruction
  instructions_with options instructions =
      let limit : List Instruction = elim options.compute_unit_limit [
        | none ↦ []
        | some n ↦ set_compute_unit_limit n ∷ []
      ] in
      let fee : List Instruction = elim options.priority_fee_micro_lamports [
        | none ↦ []
        | some n ↦ set_compute_unit_price n ∷ []
      ] in
      limit ++ (fee ++ instructions)

  -- The loop, with `rounds` to go, after `done` submissions: the result and how often it submitted.
  pub submit :
      Transaction → (rounds done : ℕ) → (last_err : Option Error) → Sent Error Signature × ℕ
  submit tx zero done none = (panicked, done)
  submit tx zero done (some e) = (failed e, done)
  submit tx (suc rounds) done last_err = elim (send_and_confirm done tx) [
    | ok sig ↦ (sent sig, done + 1)
    | err e ↦ submit tx rounds (done + 1) (some e)
  ]

  unfoldable pub send_instructions : List Instruction → SendOptions → Sent Error Signature × ℕ
  unfolding instructions_with submit
  send_instructions instructions options = elim latest_blockhash [
    | none ↦ (no_blockhash, 0)
    | some blockhash ↦
        submit (new_signed_with_payer (instructions_with options instructions) blockhash)
          (suc options.max_retries) 0 none
  ]

module _ {A : Type 0} where
  -- What `chunks(MAX_MULTI_ACCOUNTS)`, chunks of 100, makes of the items that are left, with `current` taken and `room` for more.
  pub chunks_from : (room : ℕ) (current : List A) → List A → List (List A)
  chunks_from room current [] = current ∷ []
  chunks_from zero current (x ∷ xs) = current ∷ chunks_from 99 (x ∷ []) xs
  chunks_from (suc room) current (x ∷ xs) = chunks_from room (current ++ (x ∷ [])) xs

  pub chunks : List A → List (List A)
  unfolding chunks_from
  chunks [] = []
  chunks (x ∷ xs) = chunks_from 99 (x ∷ []) xs

pub record Account (Pubkey : Type 0) : Type 0 where
  pub owner : Pubkey
  pub content : Bytes

-- What `get_token_symbols` uses of the node and of the programs of tokens.
pub record Mints (Pubkey : Type 0) : Type 0 where
  pub get_multiple_accounts : List Pubkey → Option (List (Option (Account Pubkey)))
  pub metaplex_metadata_pda : Pubkey → Pubkey
  pub token_2022 : Pubkey
  pub from_utf8_lossy : Bytes → Text

module _ {Pubkey : Type 0} ⦃keys : Eq Pubkey⦄ (mints_of : Mints Pubkey) where
  open mints_of use {get_multiple_accounts, metaplex_metadata_pda, token_2022, from_utf8_lossy}

  -- The loop over the mints of a chunk and the accounts that came for them.
  pub insert_symbols :
      (Account Pubkey → Option Text)
      → List Pubkey
      → List (Option (Account Pubkey))
      → List (Pubkey × Text)
      → List (Pubkey × Text)
  insert_symbols symbol [] accounts out = out
  insert_symbols symbol (mint ∷ mints) [] out = out
  insert_symbols symbol (mint ∷ mints) (account ∷ accounts) out =
      insert_symbols symbol mints accounts
        (elim (account >>= symbol) [ none ↦ out | some s ↦ insert mint s out ])

  -- A round of the loop over the chunks: a chunk that cannot be fetched is passed over.
  pub fetch_chunk :
      (Account Pubkey → Option Text)
      → (mints addresses : List Pubkey) → List (Pubkey × Text)
      → List (Pubkey × Text)
  unfolding insert_symbols
  fetch_chunk symbol mints addresses out = elim (get_multiple_accounts addresses) [
    | none ↦ out
    | some accounts ↦ insert_symbols symbol mints accounts out
  ]

  -- The loop over the chunks, and over those of the addresses beside them.
  pub fetch_chunks :
      (Account Pubkey → Option Text)
      → (mints addresses : List (List Pubkey)) → List (Pubkey × Text)
      → List (Pubkey × Text)
  unfolding fetch_chunk
  fetch_chunks symbol [] addresses out = out
  fetch_chunks symbol (chunk ∷ mints) [] out = out
  fetch_chunks symbol (chunk ∷ mints) (asked ∷ addresses) out =
      fetch_chunks symbol mints addresses (fetch_chunk symbol chunk asked out)

  -- `mints.iter().filter(|m| !out.contains_key(m))`
  pub missing_from : List (Pubkey × Text) → List Pubkey → List Pubkey
  missing_from out [] = []
  missing_from out (mint ∷ mints) =
      let rest = missing_from out mints in if contains_key out mint then rest else mint ∷ rest

  pub metaplex_symbol : Account Pubkey → Option Text
  metaplex_symbol account = parse_metaplex_symbol from_utf8_lossy account.content

  pub mint_symbol : Account Pubkey → Option Text
  mint_symbol account =
      if keys.same account.owner token_2022
      then token2022_symbol from_utf8_lossy account.content
      else none

  pub get_token_symbols : List Pubkey → List (Pubkey × Text)
  unfolding chunks fetch_chunks missing_from metaplex_symbol mint_symbol
  get_token_symbols mints =
      let found =
        fetch_chunks metaplex_symbol (chunks mints) (chunks (map metaplex_metadata_pda mints)) [] in
      let missing = missing_from found mints in
      fetch_chunks mint_symbol (chunks missing) (chunks missing) found
