-- ===== src/Engine/Shutdown.antt =====
-- How the engine stops, and what it sends then and in an emergency.
use archer_market_maker.Base.{
  ◌≤◌, ◌<◌, ◌≡◌, refl, ◌≢◌, ◌⊎◌, inl, inr, [], ◌∷◌, Option, none, some, Bool, true, false, add_u64,
  length,
}
use archer_market_maker.Float.{F64}
use archer_market_maker.Sdk.{QuoteMath, Encoders, Decoding}
use archer_market_maker.Quote.{clear_book_ix}
use archer_market_maker.Strategy.{QuoteDecision}
use archer_market_maker.Strategy.Decisions.{compute_total}
use archer_market_maker.Tx.{emergency}
use archer_market_maker.Engine.State.{
  EngineConfig, Engine, cancelled, Reads, fired, awaited, Flow, again, panicked, cu_clear_book,
}
use archer_market_maker.Engine.Guards.{IsQuoting, IsEmergency, cycle_elim, quoting_calm, EndsAs}
use archer_market_maker.Engine.{
  decision_of, resync, shut_down, clear_emergency, carry_out, quote_cycle, cycle,
}

module _ {F Market Quotes Pubkey Instruction S : Type 0} ⦃fl : F64 F⦄
    (sdk : QuoteMath F Market Quotes S) {enc : Encoders Pubkey Instruction S} (dec : Decoding enc)
    (market : Market) (c : EngineConfig F Pubkey) where
  abbrev clear_after : Engine → Instruction
  clear_after e = clear_book_ix enc c.authority c.market_pubkey (add_u64 e.local_seq 1)

  -- Unless somebody has cancelled, a cycle after ten failures in a row or on a stale price sends one
  -- emergency clear numbered next, and nothing else; it forgets the structure it had on record and
  -- asks for a full book. The loop stops there only after ten failures, if the sleep is cancelled.
  pub emergency_cycle :
      (e : Engine) (r : Reads F)
      → r.wake ≢ cancelled
      → r.cancelled_after_wake ≡ false
      → IsEmergency c.staleness_us r
      → let (e', sends, flow) = cycle sdk enc market c e r in
        (sends ≡ fired (clear_after e ∷ []) emergency cu_clear_book ∷ [])
        × (e'.local_seq ≡ add_u64 e.local_seq 1)
        × (e'.needs_initial_book ≡ true)
        × (e'.last_structure_hash ≡ 0)
        × EndsAs r flow
  unfolding clear_emergency
  emergency_cycle e r awake going now =
      cycle_elim sdk enc market c
        (λ out.
          (out.1 ≡ fired (clear_after e ∷ []) emergency cu_clear_book ∷ [])
          × (out.0.local_seq ≡ add_u64 e.local_seq 1)
          × (out.0.needs_initial_book ≡ true)
          × (out.0.last_structure_hash ≡ 0)
          × EndsAs r out.2)
        e r (λ down. absurd (awake down)) (λ skip. absurd (cc)) (λ calm. absurd (calm.0 now))
        (λ _ flow why. (refl, refl, refl, refl, why))
        (λ is_heartbeat q. absurd (quoting_calm c.staleness_us r q now))

  carry_out_flow :
      (e : Engine) (r : Reads F) (is_heartbeat : Bool) (d : Option (QuoteDecision S × F))
      → (carry_out sdk enc market c e r is_heartbeat d).2 ≢ again
      → (carry_out sdk enc market c e r is_heartbeat d).2 ≡ panicked
  unfolding carry_out
  carry_out_flow e r is_heartbeat none ends = refl
  carry_out_flow e r is_heartbeat (some (d, spread)) ends = absurd (ends refl)

  quote_flow :
      (e : Engine) (r : Reads F) (is_heartbeat : Bool)
      → (quote_cycle sdk enc market c e r is_heartbeat).2 ≢ again
      → (quote_cycle sdk enc market c e r is_heartbeat).2 ≡ panicked
  unfolding quote_cycle
  quote_flow e r is_heartbeat = carry_out_flow _ r is_heartbeat _

  -- The last cycle of a loop that ends is one of three. On a cancellation the loop has sent one
  -- clear, which it awaits, and has marked the engine dead. On a cancellation in the sleep after
  -- ten failures it has only fired its clear, which it does not await, and leaves the engine
  -- marked as it was. Else the strategy panicked in a quoting cycle.
  pub stopped_cases :
      (e : Engine) (r : Reads F)
      → (cycle sdk enc market c e r).2 ≢ again
      → let (e', sends, flow) = cycle sdk enc market c e r in
        ((r.wake ≡ cancelled)
          × (sends ≡ awaited (clear_after e ∷ []) emergency cu_clear_book ∷ [])
          × (e'.engine_alive ≡ false))
        ⊎ ((10 ≤ r.consecutive_failures)
            × (r.cancelled_in_sleep ≡ true)
            × (sends ≡ fired (clear_after e ∷ []) emergency cu_clear_book ∷ [])
            × (e'.engine_alive ≡ e.engine_alive))
        ⊎ (IsQuoting c.staleness_us r × (flow ≡ panicked))
  unfolding shut_down clear_emergency
  stopped_cases e r =
      cycle_elim sdk enc market c
        (λ out.
          out.2 ≢ again
          → ((r.wake ≡ cancelled)
              × (out.1 ≡ awaited (clear_after e ∷ []) emergency cu_clear_book ∷ [])
              × (out.0.engine_alive ≡ false))
            ⊎ ((10 ≤ r.consecutive_failures)
                × (r.cancelled_in_sleep ≡ true)
                × (out.1 ≡ fired (clear_after e ∷ []) emergency cu_clear_book ∷ [])
                × (out.0.engine_alive ≡ e.engine_alive))
            ⊎ (IsQuoting c.staleness_us r × (out.2 ≡ panicked)))
        e r (λ down _. inl (down, refl, refl)) (λ _ ends. absurd (ends refl))
        (λ _ ends. absurd (ends refl))
        (λ _ flow why ends. elim why [
          | inl goes ↦ absurd (ends goes)
          | inr (_, failing, slept) ↦ inr (inl (failing, slept, refl, refl))
        ])
        (λ is_heartbeat q ends. inr (inr (q, quote_flow e r is_heartbeat ends)))

  decision_of_total :
      (e : Engine) (r : Reads F)
      → 0 < length c.strategy.config.spread_levels_bps
      → decision_of {S = S} sdk market c e r ≢ none
  unfolding decision_of
  decision_of_total e r h =
      compute_total sdk c.strategy r.mid_price _ _ market r.base_total_lots r.quote_total_lots
        r.volatility_bps h

  carry_out_goes_on :
      (e : Engine) (r : Reads F) (is_heartbeat : Bool) (d : Option (QuoteDecision S × F))
      → d ≢ none
      → (carry_out sdk enc market c e r is_heartbeat d).2 ≡ again
  unfolding carry_out
  carry_out_goes_on e r is_heartbeat none h = absurd (h refl)
  carry_out_goes_on e r is_heartbeat (some (d, spread)) h = refl

  quote_cycle_goes_on :
      (e : Engine) (r : Reads F) (is_heartbeat : Bool)
      → 0 < length c.strategy.config.spread_levels_bps
      → (quote_cycle sdk enc market c e r is_heartbeat).2 ≡ again
  unfolding quote_cycle
  quote_cycle_goes_on e r is_heartbeat levels =
      let e1 = record e { local_seq = resync e.local_seq r.onchain_sequence_number } in
      carry_out_goes_on e1 r is_heartbeat (decision_of sdk market c e1 r)
        (decision_of_total e1 r levels)

  -- With at least one spread level configured no cycle panics.
  pub cycle_no_panic :
      (e : Engine) (r : Reads F)
      → 0 < length c.strategy.config.spread_levels_bps
      → (cycle sdk enc market c e r).2 ≢ panicked
  cycle_no_panic e r levels =
      cycle_elim sdk enc market c (λ out. out.2 ≢ panicked) e r (λ _ p. cc) (λ _ p. cc) (λ _ p. cc)
        (λ _ flow why p. ends flow why p)
        (λ is_heartbeat _ p. cc (quote_cycle_goes_on e r is_heartbeat levels))
    where
      ends : (flow : Flow) → EndsAs r flow → flow ≢ panicked
      ends flow (inl e) p = cc
      ends flow (inr (e, _, _)) p = cc
