-- ===== src/Client/Accounts.antt =====
-- src/archer/client.rs: the reads that filter the accounts of a program. The node, the parsers and
-- the discriminators of the sdk are parameters.
use archer_market_maker.Base.{
  ℕ, ◌≡◌, refl, ap, List, [], ◌∷◌, Option, none, some, Bool, true, false, ◌&&◌, ◌>>=◌,
  if◌then◌else◌, length, take, drop,
}
use archer_market_maker.Base.Text.{same_text}
use archer_market_maker.Client.Metadata.{Bytes}

-- `Memcmp`: the bytes that are to stand at an offset.
pub record Memcmp : Type 0 where
  pub offset : ℕ
  pub expected : Bytes

-- An account as it comes: its key, and its data if these decode.
abbrev pub UiAccount : Type 0 → Type 0
UiAccount Pubkey = Pubkey × Option Bytes

pub record Program (Pubkey Header Book : Type 0) : Type 0 where
  pub get_program_ui_accounts : List Memcmp → Option (List (UiAccount Pubkey))
  pub market_state_discriminator : Bytes
  pub maker_book_discriminator : Bytes
  pub to_bytes : Pubkey → Bytes
  pub parse_market_state : Bytes → Option Header
  pub parse_maker_book : Bytes → Option Book

-- The loop over the accounts: those that decode and parse, with their keys.
pub parsed : {Pubkey A : Type 0} → (Bytes → Option A) → List (UiAccount Pubkey) → List (Pubkey × A)
parsed parse [] = []
parsed parse ((key, content) ∷ accounts) =
    let rest = parsed parse accounts in
    elim (content >>= parse) [ none ↦ rest | some a ↦ (key, a) ∷ rest ]

abbrev pub values_of : {K A : Type 0} → List (K × A) → List A
values_of [] = []
values_of ((k, a) ∷ rest) = a ∷ values_of rest

module _ {Pubkey Header Book : Type 0} (program : Program Pubkey Header Book) where
  open program use {
    get_program_ui_accounts, market_state_discriminator, maker_book_discriminator, to_bytes,
    parse_market_state, parse_maker_book,
  }

  pub get_all_markets : Option (List (Pubkey × Header))
  unfolding parsed
  get_all_markets = do
    accounts ←
        get_program_ui_accounts (record { offset = 0; expected = market_state_discriminator } ∷ [])
    some (parsed parse_market_state accounts)

  pub get_maker_books_for_market : Pubkey → Option (List Book)
  unfolding parsed
  get_maker_books_for_market market = do
    accounts ← get_program_ui_accounts (
        record { offset = 0; expected = maker_book_discriminator }
        ∷ record { offset = 40; expected = to_bytes market }
        ∷ [])
    some (values_of (parsed parse_maker_book accounts))

  -- That bytes stand at an offset.
  abbrev pub matches : Memcmp → Bytes → Bool
  matches filter content =
      same_text (take (length filter.expected) (drop filter.offset content)) filter.expected

  abbrev pub matches_all : List Memcmp → Bytes → Bool
  matches_all [] content = true
  matches_all (f ∷ filters) content = matches f content && matches_all filters content

  -- What the node answers to filters, given the accounts of the program.
  abbrev pub filtered : List Memcmp → List (Pubkey × Bytes) → List (UiAccount Pubkey)
  filtered filters [] = []
  filtered filters ((key, content) ∷ stored) =
      let rest = filtered filters stored in
      if matches_all filters content then (key, some content) ∷ rest else rest

  -- The books on a market, as they stand in the accounts of the program.
  abbrev pub books_on : Pubkey → List (Pubkey × Bytes) → List Book
  books_on market [] = []
  books_on market ((key, content) ∷ stored) =
      let rest = books_on market stored in
      let is_book =
        matches (record { offset = 0; expected = maker_book_discriminator }) content
        && matches (record { offset = 40; expected = to_bytes market }) content in
      if is_book then elim (parse_maker_book content) [ none ↦ rest | some b ↦ b ∷ rest ] else rest

  values-parsed_one :
      (key : Pubkey) (o : Option Book) (rest : List (Pubkey × Book)) (books : List Book)
      → values_of rest ≡ books
      → values_of (elim o [ none ↦ rest | some a ↦ (key, a) ∷ rest ])
        ≡ elim o [ none ↦ books | some b ↦ b ∷ books ]
  values-parsed_one key none rest books e = e
  values-parsed_one key (some b) rest books e = ap (λ bs. b ∷ bs) e

  parsed-filtered_one :
      (has_disc has_market : Bool) (key : Pubkey) (content : Bytes) (rest : List (UiAccount Pubkey))
      (books : List Book)
      → values_of (parsed parse_maker_book rest) ≡ books
      → values_of (
          parsed parse_maker_book
            (if has_disc && (has_market && true) then (key, some content) ∷ rest else rest))
        ≡ (if has_disc && has_market
            then elim (parse_maker_book content) [ none ↦ books | some b ↦ b ∷ books ]
            else books)
  unfolding parsed
  parsed-filtered_one true true key content rest books e =
      values-parsed_one key (parse_maker_book content) (parsed parse_maker_book rest) books e
  parsed-filtered_one true false key content rest books e = e
  parsed-filtered_one false has_market key content rest books e = e

  parsed-filtered :
      (market : Pubkey) (stored : List (Pubkey × Bytes))
      → values_of (
          parsed parse_maker_book (
            filtered
              (record { offset = 0; expected = maker_book_discriminator }
                ∷ record { offset = 40; expected = to_bytes market }
                ∷ [])
              stored))
        ≡ books_on market stored
  unfolding parsed
  parsed-filtered market [] = refl
  parsed-filtered market ((key, content) ∷ stored) =
      let disc : Memcmp = record { offset = 0; expected = maker_book_discriminator } in
      let key_at : Memcmp = record { offset = 40; expected = to_bytes market } in
      parsed-filtered_one (matches disc content) (matches key_at content) key content
        (filtered (disc ∷ key_at ∷ []) stored) (books_on market stored)
        (parsed-filtered market stored)

  -- Let the node answer filters with the accounts of the program that have the bytes asked for, with
  -- data that decode. Then the books that `get_maker_books_for_market` returns are those in the
  -- program's accounts whose data begin with the discriminator of a book, have the market's key at
  -- offset 40, and parse; in the order of the accounts.
  pub get_maker_books_for_market_lem :
      (stored : List (Pubkey × Bytes)) (market : Pubkey)
      → ((filters : List Memcmp) → get_program_ui_accounts filters ≡ some (filtered filters stored))
      → get_maker_books_for_market market ≡ some (books_on market stored)
  unfolding get_maker_books_for_market
  get_maker_books_for_market_lem stored market answers =
      rw answers (ap some (parsed-filtered market stored))
