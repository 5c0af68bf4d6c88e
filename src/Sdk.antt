-- ===== src/Sdk.antt =====
-- What the program uses of the crate archer-sdk, which is not in the repository: the lot, tick and
-- book mathematics, and the encoders of book writes. Both are parameters of the model. `Market`,
-- `Quotes`, `Pubkey` and `Instruction` stand for the crate's `MarketConfig`, `TwoSidedQuote`,
-- `Pubkey` and `Instruction`; an `Err` is `none`.
use archer_market_maker.Base.{ℕ, ◌≡◌, List, Option, Bool}
use archer_market_maker.Base.Int.{ℤ}

-- A level of a `BookUpdate`: the field that the program rewrites, and the others together.
pub record Level (S : Type 0) : Type 0 where
  pub price_offset_ticks : ℤ
  pub rest : S

-- The fields of a `BookUpdate` that the program reads or writes.
pub record BookUpdate (S : Type 0) : Type 0 where
  pub new_mid_price_ticks : ℕ
  pub mid_price_changed : Bool
  pub bid_levels : List (Level S)
  pub ask_levels : List (Level S)

pub record QuoteMath (F Market Quotes S : Type 0) : Type 0 where
  pub base_lots_to_amount : ℕ → Market → F
  pub quote_lots_to_amount : ℕ → Market → F
  pub price_to_ticks : F → Market → Option ℕ
  -- `TwoSidedQuote::new`, `with_bid`, `with_ask`: a price and a size
  pub no_quotes : Quotes
  pub with_bid : Quotes → F → F → Quotes
  pub with_ask : Quotes → F → F → Quotes
  -- `levels::build_book_update`
  pub build_levels : Quotes → ℕ → Market → Option (BookUpdate S)

-- The encoders for a wallet-owned book. The first argument of each is the signer.
pub record Encoders (Pubkey Instruction S : Type 0) : Type 0 where
  -- market and maker
  pub derive_maker_book : Pubkey → Pubkey → Pubkey
  -- signer, book, ticks, sequence number
  pub create_update_mid_price_instruction : Pubkey → Pubkey → ℕ → ℕ → Instruction
  -- signer, book, sequence number
  pub create_clear_book_instruction : Pubkey → Pubkey → ℕ → Instruction
  -- signer, market, book, mid ticks, bids, asks, sequence number
  pub create_update_book_instruction :
      Pubkey → Pubkey → Pubkey → ℕ → List (Level S) → List (Level S) → ℕ → Instruction

-- What the Archer program reads from an instruction.
pub data Write (Pubkey S : Type 0) : Type 0 where
  update_mid : Pubkey → Pubkey → ℕ → ℕ → Write Pubkey S
  clear : Pubkey → Pubkey → ℕ → Write Pubkey S
  update_book : Pubkey → Pubkey → Pubkey → ℕ → List (Level S) → List (Level S) → ℕ → Write Pubkey S

abbrev pub sequence_of : {Pubkey S : Type 0} → Write Pubkey S → ℕ
sequence_of (update_mid signer book ticks seq) = seq
sequence_of (clear signer book seq) = seq
sequence_of (update_book signer market book mid bids asks seq) = seq

-- That an encoder writes what it is given: the program reads the arguments back.
pub record Decoding {Pubkey Instruction S : Type 0} (enc : Encoders Pubkey Instruction S)
    : Type 0 where
  pub decode : Instruction → Write Pubkey S
  pub decode-mid :
      (signer book : Pubkey) (ticks seq : ℕ)
      → decode (enc.create_update_mid_price_instruction signer book ticks seq)
        ≡ update_mid signer book ticks seq
  pub decode-clear :
      (signer book : Pubkey) (seq : ℕ)
      → decode (enc.create_clear_book_instruction signer book seq) ≡ clear signer book seq
  pub decode-book :
      (signer market book : Pubkey) (mid : ℕ) (bids asks : List (Level S)) (seq : ℕ)
      → decode (enc.create_update_book_instruction signer market book mid bids asks seq)
        ≡ update_book signer market book mid bids asks seq
