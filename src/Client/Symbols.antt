-- ===== src/Client/Symbols.antt =====
-- The symbols that `get_token_symbols` finds, against a search without chunks.
use mathlib.Core.List.{append_assoc, append-nil, map-id}
use archer_market_maker.Base.{
  ℕ, zero, suc, ◌+◌, ◌≤◌, ◌<◌, ◌≡◌, refl, sym, ap, ◌∙◌, inl, inr, List, [], ◌∷◌, ◌++◌, map, Option,
  none, some, Bool, true, false, not, arith, length, length-append, length-map, if◌then◌else◌,
  ◌>>=◌, Bool-cases,
}
use archer_market_maker.Base.Keys.{Eq, contains, lookup, insert, contains_key}
use archer_market_maker.Client.Metadata.{Text}
use archer_market_maker.Client.{
  Account, Mints, chunks_from, chunks, insert_symbols, fetch_chunk, fetch_chunks, missing_from,
  metaplex_symbol, mint_symbol, get_token_symbols,
}

-- The first of two optional values that is there.
abbrev pub or_else : {A : Type 0} → Option A → Option A → Option A
or_else none b = b
or_else (some a) b = some a

if-not : (c b : Bool) → b ≡ true → (if c then not b else false) ≡ not b
if-not true b e = refl
if-not false b e = rw e refl

module _ {A : Type 0} where
  -- A second search where the first found nothing.
  two_passes :
      (c : Bool) (a b l : Option A)
      → l ≡ (if c then or_else a none else none)
      → (if if c then not (elim l [ none ↦ false | some v ↦ true ]) else false
          then or_else b l
          else l)
        ≡ (if c then or_else a b else none)
  two_passes true none none l e = rw e refl
  two_passes true none (some b) l e = rw e refl
  two_passes true (some a) b l e = rw e refl
  two_passes false a b l e = e

  or_else_twice :
      (c : Bool) (a b : Option A)
      → (if c then or_else a (or_else a b) else or_else a b) ≡ or_else a b
  or_else_twice true none b = refl
  or_else_twice true (some a) b = refl
  or_else_twice false a b = refl

  if_same : {b : Option A} (c : Bool) → b ≡ (if c then b else b)
  if_same true = refl
  if_same false = refl

module _ {A B : Type 0} (f : A → B) where
  map-snoc : (xs : List A) (x : A) → map f (xs ++ (x ∷ [])) ≡ map f xs ++ (f x ∷ [])
  map-snoc [] x = refl
  map-snoc (y ∷ xs) x = ap (λ ys. f y ∷ ys) (map-snoc xs x)

  -- The chunks of the images are the images of the chunks.
  chunks_from-map :
      (room : ℕ) (current xs : List A)
      → chunks_from room (map f current) (map f xs) ≡ map (map f) (chunks_from room current xs)
  unfolding chunks_from
  chunks_from-map room current [] = refl
  chunks_from-map zero current (x ∷ xs) =
      ap (λ c. map f current ∷ c) (chunks_from-map 99 (x ∷ []) xs)
  chunks_from-map (suc room) current (x ∷ xs) =
      ap (λ c. chunks_from room c (map f xs)) (sym (map-snoc current x))
      ∙ chunks_from-map room (current ++ (x ∷ [])) xs

  chunks-map : (xs : List A) → chunks (map f xs) ≡ map (map f) (chunks xs)
  unfolding chunks
  chunks-map [] = refl
  chunks-map (x ∷ xs) = chunks_from-map 99 (x ∷ []) xs

module _ {Pubkey : Type 0} ⦃keys : Eq Pubkey⦄ (mints_of : Mints Pubkey)
    (account_at : Pubkey → Option (Account Pubkey))
    (answers : (asked : List Pubkey)
      → length asked ≤ 100
      → mints_of.get_multiple_accounts asked ≡ some (map account_at asked)) where
  open mints_of use {get_multiple_accounts, metaplex_metadata_pda}

  module _ (symbol : Account Pubkey → Option Text) (address : Pubkey → Pubkey) where
    -- The symbol that a mint's account has.
    abbrev symbol_at : Pubkey → Option Text
    symbol_at mint = account_at (address mint) >>= symbol

    -- The loop over mints whose accounts are all there.
    abbrev insert_all : List Pubkey → List (Pubkey × Text) → List (Pubkey × Text)
    insert_all mints out =
        insert_symbols mints_of symbol mints (map account_at (map address mints)) out

    insert_all-append :
        (xs ys : List Pubkey) (out : List (Pubkey × Text))
        → insert_all (xs ++ ys) out ≡ insert_all ys (insert_all xs out)
    unfolding insert_symbols
    insert_all-append [] ys out = refl
    insert_all-append (x ∷ xs) ys out = insert_all-append xs ys _

    fetch_chunk-insert_all :
        (chunk : List Pubkey) (out : List (Pubkey × Text))
        → length chunk ≤ 100
        → fetch_chunk mints_of symbol chunk (map address chunk) out ≡ insert_all chunk out
    unfolding fetch_chunk
    fetch_chunk-insert_all chunk out small =
        rw (answers (map address chunk) (omega (arith, length-map address chunk)), fetch_chunk) refl

    fetch_chunks_from :
        (room : ℕ) (current xs : List Pubkey) (out : List (Pubkey × Text))
        → length current + room ≤ 100
        → room < 100
        → let cs = chunks_from room current xs in
          fetch_chunks mints_of symbol cs (map (map address) cs) out
          ≡ insert_all (current ++ xs) out
    unfolding fetch_chunks chunks_from
    fetch_chunks_from room current [] out small below =
        fetch_chunk-insert_all current out (omega arith)
        ∙ ap (λ c. insert_all c out) (sym (append-nil current))
    fetch_chunks_from zero current (x ∷ xs) out small below =
        ap
          (fetch_chunks mints_of symbol (chunks_from 99 (x ∷ []) xs)
            (map (map address) (chunks_from 99 (x ∷ []) xs)))
          (fetch_chunk-insert_all current out (omega arith))
        ∙ fetch_chunks_from 99 (x ∷ []) xs (insert_all current out) (omega arith) (omega arith)
        ∙ sym (insert_all-append current (x ∷ xs) out)
    fetch_chunks_from (suc room) current (x ∷ xs) out small below =
        fetch_chunks_from room (current ++ (x ∷ [])) xs out
          (omega (arith, length-append current (x ∷ []))) (omega arith)
        ∙ ap (λ c. insert_all c out) (append_assoc current (x ∷ []) xs)

    fetch_chunks-insert_all :
        (mints : List Pubkey) (out : List (Pubkey × Text))
        → fetch_chunks mints_of symbol (chunks mints) (map (map address) (chunks mints)) out
          ≡ insert_all mints out
    unfolding fetch_chunks chunks insert_symbols
    fetch_chunks-insert_all [] out = refl
    fetch_chunks-insert_all (x ∷ xs) out =
        fetch_chunks_from 99 (x ∷ []) xs out (omega arith) (omega arith)

    fetched :
        (mints : List Pubkey) (out : List (Pubkey × Text))
        → fetch_chunks mints_of symbol (chunks mints) (chunks (map address mints)) out
          ≡ insert_all mints out
    fetched mints out = rw (chunks-map address mints) (fetch_chunks-insert_all mints out)

    -- What a round of the loop makes of a symbol that was looked up.
    lookup-insert :
        (k x : Pubkey) (found : Option Text) (out : List (Pubkey × Text))
        → lookup k (elim found [ none ↦ out | some s ↦ insert x s out ])
          ≡ (if keys.same x k then or_else found (lookup k out) else lookup k out)
    lookup-insert k x none out = if_same (keys.same x k)
    lookup-insert k x (some s) out = refl

    lookup-insert_all :
        (k : Pubkey) (xs : List Pubkey) (out : List (Pubkey × Text))
        → lookup k (insert_all xs out)
          ≡ (if contains xs k then or_else (symbol_at k) (lookup k out) else lookup k out)
    unfolding insert_symbols
    lookup-insert_all k [] out = refl
    lookup-insert_all k (x ∷ xs) out =
        let l = lookup k out in
        let c = contains xs k in
        lookup-insert_all k xs _
        ∙ rw (lookup-insert k x (symbol_at x) out) (elim (Bool-cases (keys.same x k)) [
          | inl e ↦
              let here : symbol_at x ≡ symbol_at k = ap symbol_at ((keys.same_iff x k).0 e) in
              rw (e, here) (or_else_twice c (symbol_at k) l)
          | inr e ↦ rw e refl
        ])

  contains-missing_from :
      (k : Pubkey) (out : List (Pubkey × Text)) (mints : List Pubkey)
      → contains (missing_from mints_of out mints) k
        ≡ (if contains mints k then not (contains_key out k) else false)
  unfolding missing_from
  contains-missing_from k out [] = refl
  contains-missing_from k out (x ∷ xs) =
      let rest = contains-missing_from k out xs in
      elim (Bool-cases (keys.same x k)) [
        | inl e ↦
            let here : contains_key out k ≡ contains_key out x =
              ap (contains_key out) (sym ((keys.same_iff x k).0 e)) in
            elim (Bool-cases (contains_key out x)) [
              | inl there ↦
                  rw (e, there) (rest ∙ if-not (contains xs k) (contains_key out k) (here ∙ there))
              | inr absent ↦ rw (e, here, absent, e) refl
            ]
        | inr e ↦ elim (Bool-cases (contains_key out x)) [
          | inl there ↦ rw (e, there) rest
          | inr absent ↦ rw (e, absent, e) rest
        ]
      ]

  -- What the two passes find when all mints of each come.
  passes :
      (first second : Account Pubkey → Option Text) (k : Pubkey) (mints : List Pubkey)
      → let found = insert_all first metaplex_metadata_pda mints [] in
        lookup k (insert_all second (λ m. m) (missing_from mints_of found mints) found) ≡ (
          if contains mints k
          then or_else (symbol_at first metaplex_metadata_pda k) (symbol_at second (λ m. m) k)
          else none)
  passes first second k mints =
      let found = insert_all first metaplex_metadata_pda mints [] in
      lookup-insert_all second (λ m. m) k (missing_from mints_of found mints) found
      ∙ rw (contains-missing_from k found mints) (
          two_passes (contains mints k) (symbol_at first metaplex_metadata_pda k)
            (symbol_at second (λ m. m) k) (lookup k found)
            (lookup-insert_all first metaplex_metadata_pda k mints []))

  fetched_there :
      (symbol : Account Pubkey → Option Text) (mints : List Pubkey) (out : List (Pubkey × Text))
      → fetch_chunks mints_of symbol (chunks mints) (chunks mints) out
        ≡ insert_all symbol (λ m. m) mints out
  fetched_there symbol mints out =
      ap (λ asked. fetch_chunks mints_of symbol (chunks mints) (chunks asked) out)
        (sym (map-id mints))
      ∙ fetched symbol (λ m. m) mints out

  -- Let every call of the node with at most 100 keys bring the accounts at those keys. Then
  -- `get_token_symbols` finds for a mint that was asked for the symbol in the account of its
  -- Metaplex metadata or, when there is none, the symbol in the account of the mint itself; and it
  -- finds nothing for any other key, whatever the number of mints.
  pub lookup-get_token_symbols :
      (mints : List Pubkey) (k : Pubkey)
      → lookup k (get_token_symbols mints_of mints) ≡ (
          if contains mints k
          then or_else
              (account_at (metaplex_metadata_pda k) >>= metaplex_symbol mints_of)
              (account_at k >>= mint_symbol mints_of)
          else none)
  unfolding get_token_symbols
  lookup-get_token_symbols mints k =
      rw (fetched_there, fetched (metaplex_symbol mints_of) metaplex_metadata_pda mints [])
        (passes (metaplex_symbol mints_of) (mint_symbol mints_of) k mints)
