-- ===== src/Quote.antt =====
-- src/archer/quote.rs: book construction for market-maker and limit-order books, and the
-- instructions that write a wallet-owned book.
pub mod Sequence
pub mod Rebase
mod Examples
use archer_market_maker.Base.{
  ℕ, ◌≡◌, List, [], ◌∷◌, ◌++◌, Option, none, some, Bool, true, false, if◌then◌else◌, ◌>>=◌, add_u64,
}
use archer_market_maker.Base.Int.{ℤ, pos, checked_add, is_positive, try_from_u64}
use archer_market_maker.Sdk.{Level, BookUpdate, QuoteMath, Encoders}

pub record BookAuthority (Pubkey : Type 0) : Type 0 where
  pub maker : Pubkey
  pub signer : Pubkey

-- `BookAuthority::owner`
unfoldable pub owner : {Pubkey : Type 0} → Pubkey → BookAuthority Pubkey
owner maker = record { maker = maker; signer = maker }

-- The body of the `for` loop over the levels of a limit-order book.
pub rebase_level : {S : Type 0} → ℤ → Level S → Option (Level S)
unfolding checked_add
rebase_level mid level = do
  abs ← checked_add level.price_offset_ticks mid
  if is_positive abs then some (record level { price_offset_ticks = abs }) else none

-- The loop: it stops at the first level that fails.
pub rebase_levels : {S : Type 0} → ℤ → List (Level S) → Option (List (Level S))
unfolding rebase_level
rebase_levels mid [] = some []
rebase_levels mid (level ∷ levels) = do
  level' ← rebase_level mid level
  levels' ← rebase_levels mid levels
  some (level' ∷ levels')

-- What is done to a limit-order book's update.
pub pin_to_zero : {S : Type 0} → BookUpdate S → Option (BookUpdate S)
unfolding rebase_levels try_from_u64
pin_to_zero update = do
  mid ← try_from_u64 update.new_mid_price_ticks
  bids ← rebase_levels mid update.bid_levels
  asks ← rebase_levels mid update.ask_levels
  some (record {
    new_mid_price_ticks = 0;
    mid_price_changed = false;
    bid_levels = bids;
    ask_levels = asks;
  })

module _ {F Market Quotes S : Type 0} (sdk : QuoteMath F Market Quotes S) where
  pub build_book_update : Quotes → ℕ → Market → Bool → Option (BookUpdate S)
  unfolding pin_to_zero
  build_book_update quotes current_mid_price_ticks config is_lo = do
    update ← sdk.build_levels quotes current_mid_price_ticks config
    if is_lo then pin_to_zero update else some update

module _ {Pubkey Instruction S : Type 0} (enc : Encoders Pubkey Instruction S) where
  open enc use {
    derive_maker_book, create_update_mid_price_instruction, create_clear_book_instruction,
    create_update_book_instruction,
  }

  unfoldable pub book_pda : BookAuthority Pubkey → Pubkey → Pubkey
  book_pda authority market = derive_maker_book market authority.maker

  unfoldable pub update_mid_price_ix : BookAuthority Pubkey → Pubkey → ℕ → ℕ → Instruction
  unfolding book_pda
  update_mid_price_ix authority market new_mid_price_ticks sequence_number =
      create_update_mid_price_instruction authority.signer (book_pda authority market)
        new_mid_price_ticks sequence_number

  unfoldable pub clear_book_ix : BookAuthority Pubkey → Pubkey → ℕ → Instruction
  unfolding book_pda
  clear_book_ix authority market sequence_number =
      create_clear_book_instruction authority.signer (book_pda authority market) sequence_number

  unfoldable pub update_book_ix : BookAuthority Pubkey → Pubkey → BookUpdate S → ℕ → Instruction
  unfolding book_pda
  update_book_ix authority market book_update sequence_number =
      create_update_book_instruction authority.signer market (book_pda authority market)
        book_update.new_mid_price_ticks book_update.bid_levels book_update.ask_levels
        sequence_number

  -- The instructions of a full book write, and the last sequence number that they use.
  unfoldable pub update_instructions :
      BookAuthority Pubkey → Pubkey → BookUpdate S → ℕ → List Instruction × ℕ
  unfolding update_mid_price_ix update_book_ix
  update_instructions authority market book_update sequence_number =
      let moved = book_update.mid_price_changed in
      let ixs =
        if moved
        then update_mid_price_ix authority market book_update.new_mid_price_ticks sequence_number
          ∷ []
        else [] in
      let seq = if moved then add_u64 sequence_number 1 else sequence_number in
      (ixs ++ (update_book_ix authority market book_update seq ∷ []), seq)
