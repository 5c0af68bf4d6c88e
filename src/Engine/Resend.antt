-- ===== src/Engine/Resend.antt =====
-- How long a wrong mid may stand: the cycles of the engine while its strategy wants one and the same
-- mid that the book does not have.
use archer_market_maker.Base.{
  ℕ, ◌-◌, ◌≤◌, ◌≡◌, refl, ap, sym, if◌then◌else◌, ltb, ◌∙◌, ◌≢◌, ◌⊎◌, inl, inr, List, [], ◌∷◌, ◌++◌,
  Bool, some, All, All-mono,
}
use mathlib.Core.List.{append_assoc}
use mathlib.Core.Path.{subst}
use archer_market_maker.Float.{F64}
use archer_market_maker.Sdk.{QuoteMath, Encoders}
use archer_market_maker.Quote.{update_mid_price_ix}
use archer_market_maker.Strategy.{update_mid_only, compute}
use archer_market_maker.Tx.{normal}
use archer_market_maker.Engine.State.{
  EngineConfig, Engine, Reads, Send, fired, Flow, again, stopped, panicked, cu_mid_only,
  mid_resend_after,
}
use archer_market_maker.Engine.Guards.{IsQuoting, cycle-quotes}
use archer_market_maker.Engine.Reprice.{act_mid}
use archer_market_maker.Engine.{resync, carry_out, decision_of, quote_cycle, cycle, run, and_then}

module _ {F Market Quotes Pubkey Instruction S : Type 0} ⦃fl : F64 F⦄
    (sdk : QuoteMath F Market Quotes S) (enc : Encoders Pubkey Instruction S) (market : Market)
    (c : EngineConfig F Pubkey) (ticks : ℕ) where
  -- One of the sends is the lone move of the mid to `ticks`.
  abbrev pub MovesMid : List (Send Instruction) → Type 0
  MovesMid sends =
      (before after : List (Send Instruction)) × (seq : ℕ) × (sends
        ≡ before
          ++ fired (update_mid_price_ix enc c.authority c.market_pubkey ticks seq ∷ []) normal
              cu_mid_only
            ∷ after)

  -- A reading passes the guards, the strategy decides on it to move the mid alone, to `ticks`, and
  -- the book has another mid.
  abbrev pub Asks : Engine → Reads F → Type 0
  Asks e r =
      IsQuoting c.staleness_us r
      × ((spread : F) × (decision_of sdk market c e r ≡ some (update_mid_only ticks, spread)))
      × (ticks ≢ r.cached_mid_ticks)

  -- `ticks` was not sent, or at least two seconds before the end of a reading.
  abbrev pub IsDue : Engine → Reads F → Type 0
  IsDue e r =
      (ticks ≢ e.last_sent_mid_ticks) ⊎ (mid_resend_after ≤ r.now_us_at_send - e.last_sent_at_us)

  -- What the strategy and the test on recent sends see of the engine.
  abbrev seen : Engine → ℕ × ℕ × Bool × ℕ
  seen e = (e.last_sent_mid_ticks, e.last_sent_at_us, e.needs_initial_book, e.last_structure_hash)

  IsQuiet : Engine → Engine × List (Send Instruction) × Flow → Type 0
  IsQuiet e (e', sends, flow) = (seen e' ≡ seen e) × (flow ≡ again)

  decision_of-seen :
      (e e' : Engine) (r : Reads F)
      → seen e' ≡ seen e
      → decision_of sdk market c e' r ≡ decision_of sdk market c e r
  unfolding decision_of
  decision_of-seen e e' r same =
      ap
        (λ (v : ℕ × ℕ × Bool × ℕ).
          compute sdk c.strategy r.mid_price
            (if ltb 0 r.cached_mid_ticks then r.cached_mid_ticks else v.0) (if v.2 then 0 else v.3)
            market r.base_total_lots r.quote_total_lots r.volatility_bps)
        same

  Asks-seen : (e e' : Engine) (r : Reads F) → seen e' ≡ seen e → Asks e r → Asks e' r
  Asks-seen e e' r same (quoting, (spread, d), other) =
      (quoting, (spread, decision_of-seen e e' r same ∙ d), other)

  Outcome : Engine → Reads F → Engine × List (Send Instruction) × Flow → Type 0
  Outcome e r out = MovesMid out.1 ⊎ ((¬ IsDue e r) × IsQuiet e out)

  act-asked :
      (e : Engine) (r : Reads F) (is_heartbeat : Bool) (spread : F)
      → ticks ≢ r.cached_mid_ticks
      → Outcome e r
          (carry_out sdk enc market c e r is_heartbeat (some (update_mid_only ticks, spread)))
  unfolding carry_out Outcome IsQuiet
  act-asked e r is_heartbeat spread other = elim (act_mid enc c e r is_heartbeat ticks) [
    | inl (wants, sends, mid, at, seq) ↦ inl ([], [], _, sends)
    | inr (unwanted, nothing, same) ↦ inr (λ due. unwanted (other, due), (ap seen same, refl))
  ]

  quote_cycle-asked :
      (e : Engine) (r : Reads F) (is_heartbeat : Bool)
      → Asks e r
      → Outcome e r (quote_cycle sdk enc market c e r is_heartbeat)
  unfolding quote_cycle Outcome IsQuiet
  quote_cycle-asked e r is_heartbeat (quoting, (spread, d), other) =
      let e1 = record e { local_seq = resync e.local_seq r.onchain_sequence_number } in
      subst (λ decision. Outcome e r (carry_out sdk enc market c e1 r is_heartbeat decision))
        (sym (decision_of-seen e e1 r refl ∙ d)) (act-asked e1 r is_heartbeat spread other)

  cycle-asked : (e : Engine) (r : Reads F) → Asks e r → Outcome e r (cycle sdk enc market c e r)
  cycle-asked e r asks =
      let (is_heartbeat, same) = cycle-quotes sdk enc market c e r asks.0 in
      subst (Outcome e r) (sym same) (quote_cycle-asked e r is_heartbeat asks)

  MovesMid-append :
      (xs ys : List (Send Instruction)) → MovesMid xs ⊎ MovesMid ys → MovesMid (xs ++ ys)
  MovesMid-append xs ys (inl (before, behind, seq, e)) =
      (before, behind ++ ys, seq, ap (λ zs. zs ++ ys) e ∙ append_assoc before _ ys)
  MovesMid-append xs ys (inr (before, behind, seq, e)) =
      (xs ++ before, behind, seq, ap (λ zs. xs ++ zs) e ∙ sym (append_assoc xs before _))

  and_then-MovesMid :
      (e : Engine) (r : Reads F) (out : Engine × List (Send Instruction) × Flow)
      (rest : Engine → Engine × List (Send Instruction) × Flow)
      → Outcome e r out
      → (¬ IsDue e r → seen out.0 ≡ seen e → MovesMid (rest out.0).1)
      → MovesMid (and_then out rest).1
  unfolding Outcome IsQuiet
  and_then-MovesMid e r (e', sends, again) rest (inl now) later =
      MovesMid-append sends (rest e').1 (inl now)
  and_then-MovesMid e r (e', sends, again) rest (inr (early, (same, goes))) later =
      MovesMid-append sends (rest e').1 (inr (later early same))
  and_then-MovesMid e r (e', sends, stopped) rest (inl now) later = now
  and_then-MovesMid e r (e', sends, stopped) rest (inr (early, (same, goes))) later = absurd (cc)
  and_then-MovesMid e r (e', sends, panicked) rest (inl now) later = now
  and_then-MovesMid e r (e', sends, panicked) rest (inr (early, (same, goes))) later = absurd (cc)

  -- While the strategy decides in every cycle to move the mid alone and to the same ticks, the
  -- readings pass the guards and the book keeps another mid, the move is sent at the latest in the
  -- first cycle that ends two seconds after the last send of those ticks, whatever happens in the
  -- cycles before and after it.
  pub mid_moves_in_time :
      (e : Engine) (rs : List (Reads F)) (r : Reads F) (later : List (Reads F))
      → All (Asks e) rs
      → Asks e r
      → IsDue e r
      → MovesMid (run sdk enc market c e (rs ++ (r ∷ later))).1
  unfolding run
  mid_moves_in_time e [] r later all asks due =
      and_then-MovesMid e r (cycle sdk enc market c e r) (λ e'. run sdk enc market c e' later)
        (cycle-asked e r asks) (λ early _. absurd (early due))
  mid_moves_in_time e (r0 ∷ rs) r later (asks0, all) asks due =
      and_then-MovesMid e r0 (cycle sdk enc market c e r0)
        (λ e'. run sdk enc market c e' (rs ++ (r ∷ later))) (cycle-asked e r0 asks0)
        λ _ same.
          let e' = (cycle sdk enc market c e r0).0 in
          mid_moves_in_time e' rs r later (All-mono (λ x. Asks-seen e e' x same) rs all)
            (Asks-seen e e' r same asks)
            (subst
              (λ (v : ℕ × ℕ × Bool × ℕ).
                (ticks ≢ v.0) ⊎ (mid_resend_after ≤ r.now_us_at_send - v.1))
              (sym same) due)
