-- ===== src/Commands/Run/Shadow.antt =====
-- What `run` starts, against the configuration it has read, and what `--shadow` makes of the bot
-- that it starts.
use mathlib.Core.Path.{subst}
use archer_market_maker.Base.{
  ℕ, ◌≡◌, refl, ap, ◌∙◌, [], Bool, true, not, ◌==◌, Bool-cases, inl, inr,
}
use archer_market_maker.Base.Text.{Text}
use archer_market_maker.Base.Results.{ok, bind_ok, context, ok_injective, err_not_ok}
use archer_market_maker.Float.{F64}
use archer_market_maker.Tx.{TxSender}
use archer_market_maker.Config.{MmConfig}
use archer_market_maker.Commands.Chain.{
  World, pubkey_error, market_error, book_error, archer_account,
}
use archer_market_maker.Commands.{configuration}
use archer_market_maker.Commands.Run.{
  Started, resolve_run_identity, tx_sender_of, engine_config_of, cmd_run, first_poll,
}
use archer_market_maker.System.Bot.{Setup, Bot, boot}
use archer_market_maker.System.Step.{Reach}
use archer_market_maker.System.Shadow.{shadow_submits_nothing}

module _ {Pubkey Keypair Instruction Hash Transaction Error Signature F S : Type 0} ⦃fl : F64 F⦄
    (world : World Pubkey Keypair Instruction Hash Transaction Error Signature F S) where
  open world use {pubkey, parse_pubkey, builders, connect}

  -- That tasks are started from settings that `path` holds.
  abbrev pub IsStartedFrom : Text → Bool → Started Pubkey Keypair F → MmConfig F Text → Type 0
  IsStartedFrom path shadow st settings =
      (configuration world path ≡ ok settings)
      × (resolve_run_identity world settings.market ≡ ok (st.signer, st.maker))
      × (st.engine_config.strategy.config ≡ settings.strategy)
      × (st.tx_sender ≡ tx_sender_of settings.execution shadow)
      × (st.initial_sequence_number ≡ st.state.onchain_sequence_number)

  cmd_run-IsStartedFrom :
      (path : Text) (shadow : Bool) (mid_at : ℕ → F) (st : Started Pubkey Keypair F)
      → cmd_run world path shadow mid_at ≡ ok st
      → (settings : MmConfig F Text) × IsStartedFrom path shadow st settings
  unfolding cmd_run engine_config_of tx_sender_of
  cmd_run-IsStartedFrom path shadow mid_at st e =
      let (settings, e1, f1) = bind_ok (configuration world path) _ st e in
      let url = settings.connection.rpc_url in
      let ((signer, maker), e2, f2) =
        bind_ok (resolve_run_identity world settings.market) _ st f1 in
      let (market, e3, f3) =
        bind_ok (context pubkey_error (parse_pubkey settings.market.market_pubkey)) _ st f2 in
      let (cfg, e4, f4) =
        bind_ok (context market_error ((connect url).get_market_config market)) _ st f3 in
      let (header, e5, f5) =
        bind_ok (context market_error ((connect url).get_market_header market)) _ st f4 in
      let (book, e6, f6) =
        bind_ok (context book_error ((connect url).get_maker_book market maker)) _ st f5 in
      elim (Bool-cases (not (book.maker_is_archer_account == 0))) [
        | inl archer ↦ let q = rw archer at f6 in absurd (err_not_ok archer_account st q)
        | inr own ↦
            let q = rw own at f6 in
            let (polls, e7, f7) = bind_ok (first_poll world mid_at) _ st q in
            (
              settings,
              subst (λ st'. IsStartedFrom path shadow st' settings) (ok_injective _ _ f7)
                  (e1, e2, refl, refl, refl),
            )
      ]

  -- `run --shadow` starts a bot that sends nothing: once the start succeeds, and whatever the rest
  -- of the bot's surroundings are, no send is ever in flight, no transaction is ever handed to the
  -- node, the clear at shutdown included, and no failure is counted, however the tasks interleave.
  pub shadow_run_sends_nothing :
      {Text' Market Quotes : Type 0} (path : Text) (mid_at : ℕ → F) (st : Started Pubkey Keypair F)
      (setup : Setup F Text' Hash Market Quotes Pubkey Instruction Transaction Signature S)
      (b : Bot F Instruction Transaction Signature)
      → cmd_run world path true mid_at ≡ ok st
      → setup.tx_sender ≡ st.tx_sender
      → Reach setup (boot st.vol_window st.state) b
      → (b.tasks ≡ []) × (b.submitted ≡ []) × (b.shared.consecutive_failures ≡ 0)
  unfolding tx_sender_of
  shadow_run_sends_nothing path mid_at st setup b e same r =
      let (settings, from) = cmd_run-IsStartedFrom path true mid_at st e in
      let shadow = ap (λ (tx : TxSender). tx.shadow_mode) (same ∙ from.3) in
      shadow_submits_nothing setup st.vol_window st.state b shadow r
