-- ===== src/Commands.antt =====
-- src/main.rs: the commands that write a book in one transaction. Output is the report that is
-- printed last; what is logged, and the lines printed on the way, are left out.
pub mod Chain
pub mod Withdraw
pub mod Table
pub mod Markets
pub mod Run
pub mod Accepted
pub mod View
pub mod Status
pub mod Cli
mod Examples
use archer_market_maker.Base.{
  ℕ, ◌+◌, List, [], ◌∷◌, ◌++◌, map, Option, none, some, Bool, true, false, not, ◌&&◌, ◌||◌, ltb,
  ◌==◌, if◌then◌else◌, add_u64, is_empty,
}
use archer_market_maker.Base.Keys.{contains}
use archer_market_maker.Base.Text.{Text, codes, text_eq}
use archer_market_maker.Base.Results.{Result, ok, err, ◌>>=◌, context, map_err}
use archer_market_maker.Float.{F64}
use archer_market_maker.Client.{
  SendOptions, default_options, with_priority_fee, Sent, sent, send_instructions,
}
use archer_market_maker.Config.{MmConfig}
use archer_market_maker.Config.Loading.{load_config, resolve_path}
use archer_market_maker.Quote.{owner, clear_book_ix}
use archer_market_maker.Commands.Chain.{
  World, MakerBook, MarketConfig, Failure, config_error, keypair_error, pubkey_error, invalid_kind,
  market_error, book_error, instruction_error, not_sent,
}

-- What a command prints in the end.
pub data Report (Pubkey F Signature : Type 0) : Type 0 where
  initialized : (is_lo : Bool) → Signature → Report Pubkey F Signature
  delegate_cleared : Signature → Report Pubkey F Signature
  delegate_set : Pubkey → Signature → Report Pubkey F Signature
  expiry_set : ℕ → Signature → Report Pubkey F Signature
  deposited : F → F → Signature → Report Pubkey F Signature
  nothing_to_withdraw : Report Pubkey F Signature
  withdrawn : F → F → Signature → Report Pubkey F Signature
  book_cleared : Signature → Report Pubkey F Signature

abbrev pub has_pending_reprice : {Pubkey : Type 0} → MakerBook Pubkey → Bool
has_pending_reprice book =
    not (book.mid_at_last_sync == 0) && not (book.mid_at_last_sync == book.mid_price_ticks)

-- `?` on what `send_instructions` returns.
pub signature_of :
    {Error Signature : Type 0} → Sent Error Signature → Result (Failure Error Signature) Signature
signature_of (sent sig) = ok sig
signature_of other = err (not_sent other)

module _ {Pubkey Keypair Instruction Hash Transaction Error Signature F S : Type 0} ⦃fl : F64 F⦄
    (world : World Pubkey Keypair Instruction Hash Transaction Error Signature F S) where
  open world use {files, read_keypair_file, pubkey, parse_pubkey, to_lowercase, builders, connect}
  open fl use {of_u64, mul}

  -- What a command comes to: an error or a report.
  abbrev pub Outcome : Type 0 → Type 0
  Outcome A = Result (Failure Error Signature) A

  pub load_keypair : Text → Outcome Keypair
  unfolding resolve_path
  load_keypair path = context keypair_error (read_keypair_file (resolve_path files path))

  pub configuration : Text → Outcome (MmConfig F Text)
  unfolding load_config
  configuration path = map_err config_error (load_config files path)

  -- The start that the commands share: the settings, the key and the market.
  pub opened : Text → Outcome (MmConfig F Text × Keypair × Pubkey)
  unfolding load_keypair configuration
  opened path = do
    settings ← configuration path
    keypair ← load_keypair settings.market.maker_keypair_path
    market ← context pubkey_error (parse_pubkey settings.market.market_pubkey)
    ok (settings, keypair, market)

  pub parse_book_kind : Text → Outcome ℕ
  parse_book_kind kind =
      let k = to_lowercase kind in
      if contains (codes "mm" ∷ codes "maker" ∷ []) k
      then ok builders.maker_kind_mm
      else if contains (codes "lo" ∷ codes "limit" ∷ codes "limit-order" ∷ []) k
      then ok builders.maker_kind_lo
      else err invalid_kind

  -- `client.send_instructions(&ixs, &[&keypair], options).await?`
  pub submit_signed : Text → Keypair → List Instruction → SendOptions → Outcome Signature
  unfolding send_instructions signature_of
  submit_signed rpc_url keypair instructions options =
      signature_of ((send_instructions ((connect rpc_url).node keypair) instructions options).0)

  pub cmd_init : Text → Text → Outcome (Report Pubkey F Signature)
  cmd_init config_path kind = do
    settings ← configuration config_path
    kind_byte ← parse_book_kind kind
    keypair ← load_keypair settings.market.maker_keypair_path
    market ← context pubkey_error (parse_pubkey settings.market.market_pubkey)
    let ix = builders.build_initialize_maker_book_ix (pubkey keypair) market kind_byte
    sig ← submit_signed settings.connection.rpc_url keypair (ix ∷ []) default_options
    ok (initialized (kind_byte == builders.maker_kind_lo) sig)

  -- Whether `set-delegate` is to clear the delegate.
  pub clears_delegate : Option Text → Bool
  clears_delegate none = true
  clears_delegate (some delegate) =
      contains (codes "clear" ∷ codes "none" ∷ codes "" ∷ []) (to_lowercase delegate)

  pub delegate_pubkey : Option Text → Outcome Pubkey
  delegate_pubkey none = ok builders.default_pubkey
  delegate_pubkey (some delegate) =
      if clears_delegate (some delegate)
      then ok builders.default_pubkey
      else context pubkey_error (parse_pubkey delegate)

  pub cmd_set_delegate : Text → Option Text → Outcome (Report Pubkey F Signature)
  cmd_set_delegate config_path delegate = do
    (settings, keypair, market) ← opened config_path
    key ← delegate_pubkey delegate
    let ix = builders.build_set_delegate_ix (pubkey keypair) market key
    sig ← submit_signed settings.connection.rpc_url keypair (ix ∷ []) default_options
    ok (if clears_delegate delegate then delegate_cleared sig else delegate_set key sig)

  pub cmd_set_expiry : Text → ℕ → Outcome (Report Pubkey F Signature)
  cmd_set_expiry config_path slots = do
    (settings, keypair, market) ← opened config_path
    let ix = builders.build_update_expiry_in_slots_ix (pubkey keypair) market slots
    sig ← submit_signed settings.connection.rpc_url keypair (ix ∷ []) default_options
    ok (expiry_set slots sig)

  pub maker_atas : Pubkey → MarketConfig Pubkey F → Pubkey × Pubkey
  maker_atas maker cfg = (
    builders.get_associated_token_address maker cfg.base_mint cfg.base_token_program,
    builders.get_associated_token_address maker cfg.quote_mint cfg.quote_token_program,
  )

  pub cmd_deposit : Text → F → F → Outcome (Report Pubkey F Signature)
  unfolding maker_atas
  cmd_deposit config_path base quote = do
    (settings, keypair, market) ← opened config_path
    let url = settings.connection.rpc_url
    cfg ← context market_error ((connect url).get_market_config market)
    let (base_ata, quote_ata) = maker_atas (pubkey keypair) cfg
    ix ←
        context instruction_error
          (builders.build_deposit_ix (pubkey keypair) market base quote base_ata quote_ata cfg)
    sig ← submit_signed url keypair (ix ∷ []) default_options
    ok (deposited base quote sig)

  -- The write that clears the book, at the sequence number after the book's.
  pub clear_ix : Pubkey → Pubkey → MakerBook Pubkey → Instruction
  clear_ix maker market book =
      clear_book_ix builders.encoders (owner maker) market
        (add_u64 book.last_updated_sequence_number 1)

  pub cmd_kill : Text → Outcome (Report Pubkey F Signature)
  cmd_kill config_path = do
    (settings, keypair, market) ← opened config_path
    let url = settings.connection.rpc_url
    book ← context book_error ((connect url).get_maker_book market (pubkey keypair))
    let ix = clear_ix (pubkey keypair) market book
    sig ← submit_signed url keypair (ix ∷ []) (with_priority_fee default_options 500000)
    ok (book_cleared sig)
