-- ===== src/Commands/Accepted.antt =====
-- The transactions of commands that report a signature.
use archer_market_maker.Base.{
  ℕ, ◌+◌, ◌<◌, ◌≡◌, refl, sym, ap, ◌∙◌, ◌⊎◌, inl, inr, List, [], ◌∷◌, some, Bool, true, false, ◌&&◌,
  ◌==◌, if◌then◌else◌, Option-cases, arith,
}
use archer_market_maker.Base.Text.{Text}
use archer_market_maker.Base.Results.{
  ok, ◌>>=◌, context, bind_ok, context_ok, ok_injective, err_not_ok,
}
use archer_market_maker.Float.{F64}
use archer_market_maker.Client
use archer_market_maker.Client.{
  SendOptions, Sent, sent, no_blockhash, failed, default_options, with_priority_fee,
  instructions_with, send_instructions,
}
use archer_market_maker.Client.Sending.{send_instructions-Submits, send_instructions-no_blockhash}
use archer_market_maker.Config.{MmConfig}
use archer_market_maker.Commands.Chain.{
  World, MakerBook, MarketConfig, market_error, book_error, not_sent,
}
use archer_market_maker.Commands.{
  Report, book_cleared, nothing_to_withdraw, withdrawn, signature_of, opened, submit_signed,
  clear_ix, cmd_kill,
}
use archer_market_maker.Commands.Withdraw.{
  total_base, total_quote, withdrawal, withdraw_instructions, cmd_withdraw,
}

module _ {Pubkey Keypair Instruction Hash Transaction Error Signature F S : Type 0} ⦃fl : F64 F⦄
    (world : World Pubkey Keypair Instruction Hash Transaction Error Signature F S) where
  open world use {pubkey, connect}
  open fl use {of_u64, mul}

  -- That the node at an URL accepted instructions that a key signed, at one of the tries.
  unfoldable pub IsAccepted : Text → Keypair → List Instruction → SendOptions → Signature → Type 0
  IsAccepted url keypair instructions options sig =
      let node = (connect url).node keypair in
      (hash : Hash) × (k : ℕ) × (node.latest_blockhash ≡ some hash)
      × (k < options.max_retries + 1)
      × (node.send_and_confirm k
            (node.new_signed_with_payer (instructions_with node options instructions) hash)
          ≡ Client.ok sig)

  signature_of-sent :
      (s : Sent Error Signature) (sig : Signature) → signature_of s ≡ ok sig → s ≡ sent sig
  unfolding signature_of
  signature_of-sent (sent sig') sig e = ap sent (ok_injective sig' sig e)
  signature_of-sent no_blockhash sig e = absurd (err_not_ok (not_sent no_blockhash) sig e)
  signature_of-sent (failed f) sig e = absurd (err_not_ok (not_sent (failed f)) sig e)
  signature_of-sent Client.panicked sig e = absurd (err_not_ok (not_sent Client.panicked) sig e)

  sent_injective : (a b : Signature) → ◌≡◌ {A = Sent Error Signature} (sent a) (sent b) → a ≡ b
  sent_injective a b p = cc

  failed_not_sent :
      (f : Error) (sig : Signature) → ◌≡◌ {A = Sent Error Signature} (failed f) (sent sig) → ⊥
  failed_not_sent f sig p = cc

  no_blockhash_not_sent :
      (sig : Signature) → ◌≡◌ {A = Sent Error Signature} no_blockhash (sent sig) → ⊥
  no_blockhash_not_sent sig p = cc

  submit_signed-IsAccepted :
      (url : Text) (keypair : Keypair) (instructions : List Instruction) (options : SendOptions)
      (sig : Signature)
      → submit_signed world url keypair instructions options ≡ ok sig
      → IsAccepted url keypair instructions options sig
  unfolding submit_signed IsAccepted
  submit_signed-IsAccepted url keypair instructions options sig e =
      let node = (connect url).node keypair in
      let was_sent = signature_of-sent ((send_instructions node instructions options).0) sig e in
      elim (Option-cases node.latest_blockhash) [
        | inl no_hash ↦
            let none_sent = send_instructions-no_blockhash node instructions options no_hash in
            absurd (no_blockhash_not_sent sig (sym (ap (λ p. p.0) none_sent) ∙ was_sent))
        | inr (hash, there) ↦
            elim (send_instructions-Submits node instructions options hash there) [
              | inl (k, sig', low, high, fails, accepted, out) ↦ (
                hash,
                k,
                there,
                high,
                accepted
                    ∙ ap Client.ok (sent_injective sig' sig (sym (ap (λ p. p.0) out) ∙ was_sent)),
              )
              | inr (k, e', last, fails, refused, out) ↦
                  absurd (failed_not_sent e' sig (sym (ap (λ p. p.0) out) ∙ was_sent))
            ]
      ]

  -- If `kill` succeeds, it reports the signature of a transaction that the node accepted, which the
  -- maker signed, with the priority fee of 500 000: the write that clears the book the node has for
  -- this maker and market, at the sequence number after that book's.
  pub cmd_kill-IsAccepted :
      (path : Text) (report : Report Pubkey F Signature)
      → cmd_kill world path ≡ ok report
      → (settings : MmConfig F Text) × (keypair : Keypair) × (market : Pubkey) × (book : MakerBook
          Pubkey)
        × (sig : Signature) × (opened world path ≡ ok (settings, keypair, market))
        × ((connect settings.connection.rpc_url).get_maker_book market (pubkey keypair) ≡ some book)
        × (report ≡ book_cleared sig)
        × IsAccepted settings.connection.rpc_url keypair
            (clear_ix world (pubkey keypair) market book ∷ [])
            (with_priority_fee default_options 500000)
            sig
  unfolding cmd_kill
  cmd_kill-IsAccepted path report e =
      let ((settings, keypair, market), e₁, f₁) = bind_ok (opened world path) _ report e in
      let url = settings.connection.rpc_url in
      let found = (connect url).get_maker_book market (pubkey keypair) in
      let (book, e₂, f₂) = bind_ok (context book_error found) _ report f₁ in
      let instructions = clear_ix world (pubkey keypair) market book ∷ [] in
      let options = with_priority_fee default_options 500000 in
      let (sig, e₃, f₃) =
        bind_ok (submit_signed world url keypair instructions options) _ report f₂ in
      (
        settings,
        keypair,
        market,
        book,
        sig,
        e₁,
        context_ok book_error found book e₂,
        sym (ok_injective (book_cleared sig) report f₃),
        submit_signed-IsAccepted url keypair instructions options sig e₃,
      )

  -- What `withdraw` comes to, given the book that the node has.
  unfoldable pub IsWithdrawn :
      Text
      → Keypair
      → Pubkey
      → MarketConfig Pubkey F
      → MakerBook Pubkey
      → Report Pubkey F Signature
      → Type 0
  IsWithdrawn url keypair market cfg book report =
      let (wb, wq) = withdrawal cfg.maker_fee_ppm book in
      let instructions = withdraw_instructions world (pubkey keypair) market cfg book in
      ((total_base book ≡ 0) × (total_quote book ≡ 0) × (report ≡ nothing_to_withdraw))
      ⊎ ((sig : Signature) × (report
            ≡ withdrawn (mul (of_u64 wb) cfg.lots_to_base_factor)
                (mul (of_u64 wq) cfg.lots_to_quote_factor) sig)
          × IsAccepted url keypair instructions default_options sig)

  both_zero : (a b : ℕ) → (a == 0 && b == 0) ≡ true → (a ≡ 0) × (b ≡ 0)
  both_zero a b e = ground arith

  withdraw_from :
      (url : Text) (keypair : Keypair) (market : Pubkey) (cfg : MarketConfig Pubkey F)
      (book : MakerBook Pubkey) (report : Report Pubkey F Signature) (none_left : Bool)
      → (total_base book == 0 && total_quote book == 0) ≡ none_left
      → let (wb, wq) = withdrawal cfg.maker_fee_ppm book in
        let instructions = withdraw_instructions world (pubkey keypair) market cfg book in
        (if none_left
            then ok nothing_to_withdraw
            else (submit_signed world url keypair instructions default_options >>= λ sig. ok (
                withdrawn
                  (mul (of_u64 wb) cfg.lots_to_base_factor)
                  (mul (of_u64 wq) cfg.lots_to_quote_factor)
                  sig)))
          ≡ ok report
        → IsWithdrawn url keypair market cfg book report
  unfolding IsWithdrawn
  withdraw_from url keypair market cfg book report true zero e =
      let (base, quote) = both_zero (total_base book) (total_quote book) zero in
      inl (base, quote, sym (ok_injective nothing_to_withdraw report e))
  withdraw_from url keypair market cfg book report false some_left e =
      let instructions = withdraw_instructions world (pubkey keypair) market cfg book in
      let (sig, e₁, f₁) =
        bind_ok (submit_signed world url keypair instructions default_options) _ report e in
      inr (
        sig,
        sym (ok_injective _ report f₁),
        submit_signed-IsAccepted url keypair instructions default_options sig e₁,
      )

  -- If `withdraw` succeeds, then either both totals of the book are zero and it reports that there
  -- is nothing to withdraw, or it reports the amounts and the signature of a transaction that the
  -- node accepted and the maker signed, with the instructions of the withdrawal.
  pub cmd_withdraw-IsWithdrawn :
      (path : Text) (report : Report Pubkey F Signature)
      → cmd_withdraw world path ≡ ok report
      → (settings : MmConfig F Text) × (keypair : Keypair) × (market : Pubkey) × (cfg : MarketConfig
          Pubkey F)
        × (book : MakerBook Pubkey) × (opened world path ≡ ok (settings, keypair, market))
        × ((connect settings.connection.rpc_url).get_market_config market ≡ some cfg)
        × ((connect settings.connection.rpc_url).get_maker_book market (pubkey keypair) ≡ some book)
        × IsWithdrawn settings.connection.rpc_url keypair market cfg book report
  unfolding cmd_withdraw
  cmd_withdraw-IsWithdrawn path report e =
      let ((settings, keypair, market), e₁, f₁) = bind_ok (opened world path) _ report e in
      let url = settings.connection.rpc_url in
      let read = (connect url).get_market_config market in
      let (cfg, e₂, f₂) = bind_ok (context market_error read) _ report f₁ in
      let found = (connect url).get_maker_book market (pubkey keypair) in
      let (book, e₃, f₃) = bind_ok (context book_error found) _ report f₂ in
      (
        settings,
        keypair,
        market,
        cfg,
        book,
        e₁,
        context_ok market_error read cfg e₂,
        context_ok book_error found book e₃,
        withdraw_from url keypair market cfg book report _ refl f₃,
      )
