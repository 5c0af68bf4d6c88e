-- ===== src/Engine/Reprice.antt =====
-- When the engine quotes at all, and when it moves a mid.
use archer_market_maker.Base.{
  ℕ, ◌-◌, ◌≤◌, ◌≡◌, refl, ◌≢◌, ◌⊎◌, inl, inr, List, [], ◌∷◌, Bool, arith, add_u64, All, ◌==◌,
  ==_iff, if_elim, ◌&&◌, ltb,
}
use archer_market_maker.Float.{F64}
use archer_market_maker.Sdk.{QuoteMath, Encoders, Decoding}
use archer_market_maker.Quote.{clear_book_ix, update_mid_price_ix}
use archer_market_maker.Tx.{normal}
use archer_market_maker.Strategy.{update_mid_only}
use archer_market_maker.Engine.State.{
  EngineConfig, Engine, Reads, Send, fired, count_cycle, cu_mid_only, mid_resend_after,
}
use archer_market_maker.Engine.Sends.{clears, kinds}
use archer_market_maker.Engine.Guards.{IsQuoting, cycle_elim}
use archer_market_maker.Engine.{shut_down, clear_emergency, send_mid, just_sent, act, cycle}

module _ {F Market Quotes Pubkey Instruction S : Type 0} ⦃fl : F64 F⦄
    (sdk : QuoteMath F Market Quotes S) {enc : Encoders Pubkey Instruction S} (dec : Decoding enc)
    (market : Market) (c : EngineConfig F Pubkey) where
  abbrev OnlyClears : List (Send Instruction) → Type 0
  OnlyClears sends = All (λ k. k ≡ clears) (kinds dec sends)

  shut_down-OnlyClears : (e : Engine) → OnlyClears (shut_down enc c e).1
  unfolding shut_down clear_book_ix
  shut_down-OnlyClears e = rw dec.decode-clear (refl, tt)

  clear_emergency-OnlyClears : (e : Engine) → OnlyClears (clear_emergency enc c e).1
  unfolding clear_emergency clear_book_ix
  clear_emergency-OnlyClears e = rw dec.decode-clear (refl, tt)

  -- Each cycle only clears the book or sends nothing, unless nobody has cancelled, fewer than ten
  -- sends in a row have failed, and the price is a finite positive number that is not stale.
  pub quotes_only_when_fresh :
      (e : Engine) (r : Reads F)
      → IsQuoting c.staleness_us r
        ⊎ All (λ k. k ≡ clears) (kinds dec (cycle sdk enc market c e r).1)
  quotes_only_when_fresh e r =
      cycle_elim sdk enc market c (λ out. IsQuoting c.staleness_us r ⊎ OnlyClears out.1) e r
        (λ _. inr (shut_down-OnlyClears e)) (λ _. inr tt) (λ _. inr tt)
        (λ _ flow _. inr (clear_emergency-OnlyClears e)) (λ is_heartbeat q. inl q)

module _ {F Pubkey Instruction S : Type 0} (enc : Encoders Pubkey Instruction S)
    (c : EngineConfig F Pubkey) where
  -- The book's mid is not `ticks`, and `ticks` was not sent in the last two seconds.
  abbrev pub WantsMid : Engine → Reads F → ℕ → Type 0
  WantsMid e r ticks =
      (ticks ≢ r.cached_mid_ticks)
      × ((ticks ≢ e.last_sent_mid_ticks)
          ⊎ (mid_resend_after ≤ r.now_us_at_send - e.last_sent_at_us))

  -- On the decision to move the mid alone the engine sends one move to those ticks, numbered next,
  -- and records the ticks and the time, exactly when the book's mid is another and the same ticks
  -- were not sent within two seconds; else it sends nothing and only counts the cycle.
  pub act_mid :
      (e : Engine) (r : Reads F) (is_heartbeat : Bool) (ticks : ℕ)
      → let (e', sends) = act {S = S} enc c e r is_heartbeat (update_mid_only ticks) in
        let ix =
          update_mid_price_ix enc c.authority c.market_pubkey ticks (add_u64 e.local_seq 1) in
        (WantsMid e r ticks
          × (sends ≡ fired (ix ∷ []) normal cu_mid_only ∷ [])
          × (e'.last_sent_mid_ticks ≡ ticks)
          × (e'.last_sent_at_us ≡ r.now_us_at_send)
          × (e'.local_seq ≡ add_u64 e.local_seq 1))
        ⊎ ((¬ WantsMid e r ticks) × (sends ≡ []) × (e' ≡ count_cycle e))
  unfolding act send_mid just_sent
  act_mid e r is_heartbeat ticks =
      if_elim Moves (ticks == r.cached_mid_ticks)
        (λ same. inr (λ w. w.0 ((==_iff _ _).0 same), refl, refl))
        λ other.
          if_elim Moves
            (ticks == e.last_sent_mid_ticks
              && ltb (r.now_us_at_send - e.last_sent_at_us) mid_resend_after)
            (λ recent. inr (λ w. ground arith, refl, refl))
            λ old. inl ((λ same. ground arith, ground arith), refl, refl, refl, refl)
    where
      Moves : Engine × List (Send Instruction) → Type 0
      Moves (e', sends) =
          let ix =
            update_mid_price_ix enc c.authority c.market_pubkey ticks (add_u64 e.local_seq 1) in
          (WantsMid e r ticks
            × (sends ≡ fired (ix ∷ []) normal cu_mid_only ∷ [])
            × (e'.last_sent_mid_ticks ≡ ticks)
            × (e'.last_sent_at_us ≡ r.now_us_at_send)
            × (e'.local_seq ≡ add_u64 e.local_seq 1))
          ⊎ ((¬ WantsMid e r ticks) × (sends ≡ []) × (e' ≡ count_cycle e))
