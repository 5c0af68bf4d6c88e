-- ===== src/Engine/Drift.antt =====
-- The engine's counter through a streak of emergencies, in which src/engine.rs clears the book
-- without a look at its sequence number.
use archer_market_maker.Base.{
  ℕ, ◌+◌, ◌^◌, ◌≤◌, ◌<◌, ◌≡◌, refl, ap, ◌++◌, ◌∙◌, ◌≢◌, inl, inr, List, [], ◌∷◌, false, arith, All,
  length,
}
use archer_market_maker.Float.{F64}
use archer_market_maker.Sdk.{QuoteMath, Encoders, Decoding, sequence_of}
use archer_market_maker.Quote.{clear_book_ix}
use archer_market_maker.Engine.State.{
  EngineConfig, Engine, Reads, Send, Flow, cancelled, again, stopped, panicked,
}
use archer_market_maker.Engine.Sends.{sent_writes}
use archer_market_maker.Engine.Guards.{IsEmergency, EndsAs}
use archer_market_maker.Engine.Accepted.{IsAccepted}
use archer_market_maker.Engine.Shutdown.{emergency_cycle}
use archer_market_maker.Engine.{cycle, run, and_then}

pub and_then-again :
    {E Item : Type 0} (out : E × List Item × Flow) (rest : E → E × List Item × Flow)
    → out.2 ≡ again
    → and_then out rest ≡ ((rest out.0).0, out.1 ++ (rest out.0).1, (rest out.0).2)
and_then-again (e, sends, again) rest h = refl
and_then-again (e, sends, stopped) rest h = absurd (cc)
and_then-again (e, sends, panicked) rest h = absurd (cc)

module _ {F Market Quotes Pubkey Instruction S : Type 0} ⦃fl : F64 F⦄
    (sdk : QuoteMath F Market Quotes S) {enc : Encoders Pubkey Instruction S} (dec : Decoding enc)
    (market : Market) (c : EngineConfig F Pubkey) where
  -- A cycle in an emergency that nobody cancels.
  abbrev pub Alarms : Reads F → Type 0
  Alarms r =
      (r.wake ≢ cancelled)
      × (r.cancelled_after_wake ≡ false)
      × (r.cancelled_in_sleep ≡ false)
      × IsEmergency c.staleness_us r

  goes_on : (r : Reads F) (flow : Flow) → Alarms r → EndsAs r flow → flow ≡ again
  goes_on r flow (awake, going, sleeping, now) (inl e) = e
  goes_on r flow (awake, going, sleeping, now) (inr (e, ten, slept)) = absurd (cc)

  alarm :
      (e : Engine) (r : Reads F)
      → Alarms r
      → e.local_seq + 1 < 2 ^ 64
      → let (e', sends, flow) = cycle sdk enc market c e r in
        (flow ≡ again) × (e'.local_seq ≡ e.local_seq + 1)
  alarm e r (awake, going, sleeping, now) small =
      let (_, seq, _, _, ends) = emergency_cycle sdk dec market c e r awake going now in
      (goes_on r _ (awake, going, sleeping, now) ends, omega arith)

  counter_after :
      (e : Engine) (rs : List (Reads F))
      → All Alarms rs
      → e.local_seq + length rs < 2 ^ 64
      → (run sdk enc market c e rs).0.local_seq ≡ e.local_seq + length rs
  unfolding run
  counter_after e [] all small = omega arith
  counter_after e (r ∷ rs) (now, all) small =
      let (flow, seq) = alarm e r now (omega arith) in
      let out = cycle sdk enc market c e r in
      ap (λ (o : Engine × List (Send Instruction) × Flow). o.0.local_seq)
        (and_then-again out (λ e'. run sdk enc market c e' rs) flow)
      ∙ counter_after out.0 rs all (omega arith)
      ∙ omega arith

  -- In an emergency nothing takes the counter back to the book: each cycle of a streak of
  -- emergencies that nobody cancels raises it by one, whatever the book's number is. Where the book
  -- stays at `last` and the streak has carried the counter 65 535 past it, the next clear is refused
  -- by the program.
  pub emergencies_drift :
      (e : Engine) (rs : List (Reads F)) (r : Reads F) (last : ℕ)
      → All Alarms rs
      → Alarms r
      → last + 65_535 ≤ e.local_seq + length rs
      → e.local_seq + length rs + 1 < 2 ^ 64
      → let e' = (run sdk enc market c e rs).0 in
        (e'.local_seq ≡ e.local_seq + length rs)
        × (length (sent_writes dec (cycle sdk enc market c e' r).1) ≡ 1)
        × All
            (λ w. ¬ IsAccepted last (sequence_of w))
            (sent_writes dec (cycle sdk enc market c e' r).1)
  unfolding clear_book_ix
  emergencies_drift e rs r last all (awake, going, sleeping, now) far small =
      let e' = (run sdk enc market c e rs).0 in
      let count = counter_after e rs all (omega arith) in
      let (sends, _, _, _, _) = emergency_cycle sdk dec market c e' r awake going now in
      (count, rw sends refl, rw (sends, dec.decode-clear) ((λ a. omega arith, tt)))
