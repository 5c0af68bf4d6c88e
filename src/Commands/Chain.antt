-- ===== src/Commands/Chain.antt =====
-- What the commands of src/main.rs use of the configuration's files, the chain's node, key files,
-- the sdk's builders and the token programs: parameters of the model.
use archer_market_maker.Base.{ℕ, List, Option, Bool}
use archer_market_maker.Base.Text.{Text}
use archer_market_maker.Client.{Node, Sent}
use archer_market_maker.Config.Loading.{Files, LoadError}
use archer_market_maker.Sdk.{Encoders}

-- The fields and methods of a `MakerBook` that the commands read.
pub record MakerBook (Pubkey : Type 0) : Type 0 where
  pub base_free : ℕ
  pub base_locked : ℕ
  pub quote_free : ℕ
  pub quote_locked : ℕ
  pub mid_price_ticks : ℕ
  pub mid_at_last_sync : ℕ
  pub last_updated_sequence_number : ℕ
  pub kind : ℕ
  pub maker_is_archer_account : ℕ
  pub status : ℕ
  pub delegate : Pubkey
  pub expiry_in_slots : ℕ
  pub last_updated_slot : ℕ
  -- `is_stale`, given the slot
  pub is_stale_at : ℕ → Bool
  -- given the market's maker fee: locked and free quote lots, once a pending reprice is settled
  pub projected_quote_balances : ℕ → Option (ℕ × ℕ)
  -- given the slot, the last restart's slot and the maker fee
  pub is_auction_eligible : ℕ → ℕ → ℕ → Bool
  pub best_bid_price : Option ℕ
  pub best_ask_price : Option ℕ

pub record MarketConfig (Pubkey F : Type 0) : Type 0 where
  pub base_mint : Pubkey
  pub quote_mint : Pubkey
  pub base_token_program : Pubkey
  pub quote_token_program : Pubkey
  pub base_vault : Pubkey
  pub quote_vault : Pubkey
  pub maker_fee_ppm : ℕ
  pub lots_to_base_factor : F
  pub lots_to_quote_factor : F
  pub ticks_to_price_factor : F

pub record MarketStateHeader (Pubkey : Type 0) : Type 0 where
  pub status : ℕ
  pub is_active : Bool
  pub base_mint : Pubkey
  pub quote_mint : Pubkey
  pub maker_fee_ppm : ℕ
  pub taker_fee_ppm : ℕ

-- The accounts of a withdrawal, in the order of the builder's arguments.
pub record WithdrawAccounts (Pubkey : Type 0) : Type 0 where
  pub maker : Pubkey
  pub maker_book : Pubkey
  pub market : Pubkey
  pub base_mint : Pubkey
  pub quote_mint : Pubkey
  pub maker_base_ata : Pubkey
  pub maker_quote_ata : Pubkey
  pub base_vault : Pubkey
  pub quote_vault : Pubkey
  pub base_token_program : Pubkey
  pub quote_token_program : Pubkey

-- The sdk's builders of instructions and what it derives.
pub record Builders (Pubkey Instruction F S : Type 0) : Type 0 where
  pub encoders : Encoders Pubkey Instruction S
  pub maker_kind_mm : ℕ
  pub maker_kind_lo : ℕ
  pub default_pubkey : Pubkey
  -- `maker_balances(..).quote_sync_unfundable`
  pub quote_sync_unfundable : MakerBook Pubkey → MarketConfig Pubkey F → Bool
  -- owner, mint and token program
  pub get_associated_token_address : Pubkey → Pubkey → Pubkey → Pubkey
  pub build_initialize_maker_book_ix : Pubkey → Pubkey → ℕ → Instruction
  pub build_set_delegate_ix : Pubkey → Pubkey → Pubkey → Instruction
  pub build_update_expiry_in_slots_ix : Pubkey → Pubkey → ℕ → Instruction
  -- maker, market, base, quote, the two token accounts, the market's configuration
  pub build_deposit_ix :
      Pubkey → Pubkey → F → F → Pubkey → Pubkey → MarketConfig Pubkey F → Option Instruction
  -- base lots, quote lots and the accounts
  pub create_maker_withdraw_funds_instruction : ℕ → ℕ → WithdrawAccounts Pubkey → Instruction

-- A client connected to the node at an URL: what it reads, and the node for a signer.
pub record Connection (Pubkey Keypair Instruction Hash Transaction Error Signature F : Type 0)
    : Type 0 where
  pub get_market_config : Pubkey → Option (MarketConfig Pubkey F)
  pub get_market_header : Pubkey → Option (MarketStateHeader Pubkey)
  -- market and maker
  pub get_maker_book : Pubkey → Pubkey → Option (MakerBook Pubkey)
  pub get_maker_registry : Pubkey → Option (List Pubkey)
  pub get_slot : Option ℕ
  pub get_last_restart_slot : Option ℕ
  pub node : Keypair → Node Hash Instruction Transaction Error Signature

pub record World (Pubkey Keypair Instruction Hash Transaction Error Signature F S : Type 0)
    : Type 0 where
  pub files : Files F
  pub read_keypair_file : Text → Option Keypair
  pub pubkey : Keypair → Pubkey
  pub parse_pubkey : Text → Option Pubkey
  pub to_lowercase : Text → Text
  pub builders : Builders Pubkey Instruction F S
  pub connect : Text → Connection Pubkey Keypair Instruction Hash Transaction Error Signature F

-- Why a command ends without its effect.
pub data Failure (Error Signature : Type 0) : Type 0 where
  config_error : LoadError → Failure Error Signature
  keypair_error : Failure Error Signature
  pubkey_error : Failure Error Signature
  no_market_given : Failure Error Signature
  slot_error : Failure Error Signature
  books_error : Failure Error Signature
  no_maker : Failure Error Signature
  no_signer : Failure Error Signature
  invalid_kind : Failure Error Signature
  market_error : Failure Error Signature
  archer_account : Failure Error Signature
  feed_timeout : Failure Error Signature
  book_error : Failure Error Signature
  instruction_error : Failure Error Signature
  not_sent : Sent Error Signature → Failure Error Signature
