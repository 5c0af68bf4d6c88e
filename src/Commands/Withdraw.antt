-- ===== src/Commands/Withdraw.antt =====
-- src/main.rs: `cmd_withdraw`, which empties the maker's book.
pub mod Plan
use archer_market_maker.Base.{
  ℕ, ◌+◌, List, [], ◌∷◌, ◌++◌, Option, none, some, Bool, ◌&&◌, ◌||◌, ltb, ◌==◌, if◌then◌else◌,
  add_u64,
}
use archer_market_maker.Base.Text.{Text}
use archer_market_maker.Base.Results.{Result, ok, ◌>>=◌, context}
use archer_market_maker.Float.{F64}
use archer_market_maker.Client.{default_options}
use archer_market_maker.Commands.Chain.{
  World, MakerBook, MarketConfig, Builders, market_error, book_error,
}
use archer_market_maker.Commands.{
  Report, nothing_to_withdraw, withdrawn, has_pending_reprice, Outcome, opened, submit_signed,
  maker_atas, clear_ix,
}

module _ {Pubkey : Type 0} where
  abbrev pub total_base : MakerBook Pubkey → ℕ
  total_base book = add_u64 book.base_free book.base_locked

  abbrev pub total_quote : MakerBook Pubkey → ℕ
  total_quote book = add_u64 book.quote_free book.quote_locked

  -- Locked and free quote lots once a pending reprice is settled, or as they are recorded.
  abbrev pub quote_balances : (maker_fee_ppm : ℕ) → MakerBook Pubkey → ℕ × ℕ
  quote_balances fee book = elim (book.projected_quote_balances fee) [
    | none ↦ (book.quote_locked, book.quote_free)
    | some balances ↦ balances
  ]

  abbrev pub has_resting : (quote_locked : ℕ) → MakerBook Pubkey → Bool
  has_resting quote_locked book =
      ltb 0 book.base_locked || ltb 0 quote_locked || has_pending_reprice book

  -- The base and quote lots to withdraw, `wb` and `wq`.
  abbrev pub withdrawal : (maker_fee_ppm : ℕ) → MakerBook Pubkey → ℕ × ℕ
  withdrawal fee book =
      let (quote_locked, quote_free) = quote_balances fee book in
      if has_resting quote_locked book
      then (total_base book, total_quote book)
      else (book.base_free, quote_free)

module _ {Pubkey Keypair Instruction Hash Transaction Error Signature F S : Type 0} ⦃fl : F64 F⦄
    (world : World Pubkey Keypair Instruction Hash Transaction Error Signature F S) where
  open world use {pubkey, builders, connect}
  open fl use {of_u64, mul}

  pub withdraw_ix : Pubkey → Pubkey → MarketConfig Pubkey F → (wb wq : ℕ) → Instruction
  withdraw_ix maker market cfg wb wq =
      let (base_ata, quote_ata) = maker_atas world maker cfg in
      builders.create_maker_withdraw_funds_instruction wb wq (record {
        maker = maker;
        maker_book = builders.encoders.derive_maker_book market maker;
        market = market;
        base_mint = cfg.base_mint;
        quote_mint = cfg.quote_mint;
        maker_base_ata = base_ata;
        maker_quote_ata = quote_ata;
        base_vault = cfg.base_vault;
        quote_vault = cfg.quote_vault;
        base_token_program = cfg.base_token_program;
        quote_token_program = cfg.quote_token_program;
      })

  -- The instructions of the transaction, in its order.
  pub withdraw_instructions :
      Pubkey → Pubkey → MarketConfig Pubkey F → MakerBook Pubkey → List Instruction
  withdraw_instructions maker market cfg book =
      let (quote_locked, quote_free) = quote_balances cfg.maker_fee_ppm book in
      let (wb, wq) = withdrawal cfg.maker_fee_ppm book in
      let clear : List Instruction =
        if has_resting quote_locked book then clear_ix world maker market book ∷ [] else [] in
      let withdraw : List Instruction =
        if ltb 0 wb || ltb 0 wq then withdraw_ix maker market cfg wb wq ∷ [] else [] in
      clear ++ withdraw

  unfoldable pub cmd_withdraw : Text → Outcome world (Report Pubkey F Signature)
  unfolding opened submit_signed withdraw_instructions
  cmd_withdraw config_path = do
    (settings, keypair, market) ← opened world config_path
    let url = settings.connection.rpc_url
    let maker = pubkey keypair
    cfg ← context market_error ((connect url).get_market_config market)
    book ← context book_error ((connect url).get_maker_book market maker)
    if total_base book == 0 && total_quote book == 0 then ok nothing_to_withdraw else do
      let (wb, wq) = withdrawal cfg.maker_fee_ppm book
      sig ←
          submit_signed world url keypair (withdraw_instructions maker market cfg book)
            default_options
      ok (
          withdrawn (mul (of_u64 wb) cfg.lots_to_base_factor)
            (mul (of_u64 wq) cfg.lots_to_quote_factor) sig)
