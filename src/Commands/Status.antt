-- ===== src/Commands/Status.antt =====
-- src/main.rs: `status`. What is printed is a record of what is computed for it; the balances and
-- counts of levels, which the sdk computes, are left out.
use archer_market_maker.Base.{ℕ, ◌-◌, Option, none, some, Bool, ◌==◌, if◌then◌else◌}
use archer_market_maker.Base.Keys.{Eq, contains}
use archer_market_maker.Base.Text.{Text, codes}
use archer_market_maker.Base.Results.{ok, ◌>>=◌, context}
use archer_market_maker.Float.{F64}
use archer_market_maker.Commands.Chain.{
  World, MakerBook, pubkey_error, market_error, book_error, slot_error,
}
use archer_market_maker.Commands.Markets.{Display, market_status_str}
use archer_market_maker.Commands.{Outcome, configuration, load_keypair, has_pending_reprice}

pub data MakerBookStatus : Type 0 where
  active suspended : MakerBookStatus

abbrev pub book_status_str : Option MakerBookStatus → Text
book_status_str none = codes "Unknown"
book_status_str (some active) = codes "Active"
book_status_str (some suspended) = codes "Suspended"

-- The line on the reprice: settled, pending since the mid at the last sync, or not fundable.
pub data Reprice : Type 0 where
  settled : Reprice
  pending : (mid_at_last_sync : ℕ) → Reprice
  pending_unfundable : Reprice

pub reprice_of : {Pubkey : Type 0} → MakerBook Pubkey → (unfundable : Bool) → Reprice
reprice_of book unfundable =
    if has_pending_reprice book
    then if unfundable then pending_unfundable else pending book.mid_at_last_sync
    else settled

-- The line on the expiry: none if it is disabled, or its slots, the slots since the last update, and
-- whether the book has expired.
pub expiry_of : {Pubkey : Type 0} → MakerBook Pubkey → (slot : ℕ) → Option (ℕ × ℕ × Bool)
expiry_of book slot =
    if book.expiry_in_slots == 0
    then none
    else some (book.expiry_in_slots, slot - book.last_updated_slot, book.is_stale_at slot)

pub record Status (Pubkey : Type 0) : Type 0 where
  pub market : Pubkey
  pub market_status : Text
  pub maker : Pubkey
  pub maker_book : Pubkey
  pub kind : Text
  pub book_status : Text
  -- none if the market has no registry
  pub registered : Option Bool
  pub delegate : Option Pubkey
  pub expiry : Option (ℕ × ℕ × Bool)
  pub sequence : ℕ
  pub mid_ticks : ℕ
  pub reprice : Reprice
  pub fillable_now : Bool

module _ {Pubkey Keypair Instruction Hash Transaction Error Signature F S : Type 0} ⦃fl : F64 F⦄
    ⦃keys : Eq Pubkey⦄ (display : Display Pubkey F) (book_status_of : ℕ → Option MakerBookStatus)
    (world : World Pubkey Keypair Instruction Hash Transaction Error Signature F S) where
  open world use {pubkey, parse_pubkey, builders, connect}

  pub kind_str : ℕ → Text
  kind_str kind =
      if kind == builders.maker_kind_mm
      then codes "MM"
      else (if kind == builders.maker_kind_lo then codes "LO" else codes "Unknown")

  -- Whether the market's registry lists the book, if there is a registry.
  pub check_registry : (rpc_url : Text) → (market maker_book : Pubkey) → Option Bool
  check_registry rpc_url market maker_book = elim ((connect rpc_url).get_maker_registry market) [
    | none ↦ none
    | some registry ↦ some (contains registry maker_book)
  ]

  unfoldable pub cmd_status : Text → Outcome world (Status Pubkey)
  unfolding kind_str check_registry reprice_of expiry_of
  cmd_status config_path = do
    settings ← configuration world config_path
    market ← context pubkey_error (parse_pubkey settings.market.market_pubkey)
    keypair ← load_keypair world settings.market.maker_keypair_path
    let url = settings.connection.rpc_url
    let client = connect url
    let maker = pubkey keypair
    cfg ← context market_error (client.get_market_config market)
    book ← context book_error (client.get_maker_book market maker)
    header ← context market_error (client.get_market_header market)
    slot ← context slot_error client.get_slot
    restart ← context slot_error client.get_last_restart_slot
    let maker_book = builders.encoders.derive_maker_book market maker
    ok (record {
      market = market;
      market_status = market_status_str display header.status;
      maker = maker;
      maker_book = maker_book;
      kind = kind_str book.kind;
      book_status = book_status_str (book_status_of book.status);
      registered = check_registry url market maker_book;
      delegate =
          if keys.same book.delegate builders.default_pubkey then none else some book.delegate;
      expiry = expiry_of book slot;
      sequence = book.last_updated_sequence_number;
      mid_ticks = book.mid_price_ticks;
      reprice = reprice_of book (builders.quote_sync_unfundable book cfg);
      fillable_now = book.is_auction_eligible slot restart cfg.maker_fee_ppm;
    })
