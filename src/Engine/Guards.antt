-- ===== src/Engine/Guards.antt =====
-- The guards of a cycle: which arm of src/engine.rs runs when.
use archer_market_maker.Base.{
  ℕ, ◌-◌, ◌≤◌, ◌<◌, ◌≡◌, refl, ◌≢◌, ◌⊎◌, inl, inr, List, [], Bool, true, false, not, ◌||◌, ◌&&◌,
  leb, ltb, arith, if_elim,
}
use archer_market_maker.Float.{F64}
use archer_market_maker.Sdk.{QuoteMath, Encoders}
use archer_market_maker.Engine.State.{
  EngineConfig, Engine, Wake, cancelled, price, heartbeat, Reads, Send, Flow, again, stopped,
  count_cycle,
}
use archer_market_maker.Engine.{
  is_stale, shut_down, clear_emergency, quote_cycle, guarded_cycle, on_wake, cycle,
}

module _ {F : Type 0} ⦃fl : F64 F⦄ where
  -- Nobody has cancelled, fewer than ten sends in a row have failed, the price is not stale, and
  -- it is a finite positive number.
  pub record IsQuoting (staleness_us : ℕ) (r : Reads F) : Type 0 where
    pub awake : r.wake ≢ cancelled
    pub going : r.cancelled_after_wake ≡ false
    pub landing : r.consecutive_failures < 10
    pub fresh : (r.now_us - r.price_timestamp_us ≤ staleness_us) ⊎ (r.price_timestamp_us_again ≡ 0)
    pub positive : fl.le r.mid_price (fl.of_u64 0) ≡ false
    pub finite : fl.is_finite r.mid_price ≡ true

  -- Ten sends in a row have failed, or the price is stale.
  abbrev pub IsEmergency : ℕ → Reads F → Type 0
  IsEmergency staleness_us r =
      (10 ≤ r.consecutive_failures)
      ⊎ ((staleness_us < r.now_us - r.price_timestamp_us) × (0 < r.price_timestamp_us_again))

  -- How the loop goes on after an emergency.
  abbrev pub EndsAs : Reads F → Flow → Type 0
  EndsAs r flow =
      (flow ≡ again)
      ⊎ ((flow ≡ stopped) × (10 ≤ r.consecutive_failures) × (r.cancelled_in_sleep ≡ true))

  is_stale-fresh :
      (staleness_us : ℕ) (r : Reads F)
      → is_stale staleness_us r ≡ false
      → (r.now_us - r.price_timestamp_us ≤ staleness_us) ⊎ (r.price_timestamp_us_again ≡ 0)
  unfolding is_stale
  is_stale-fresh staleness_us r h = ground arith

  is_stale-stale :
      (staleness_us : ℕ) (r : Reads F)
      → is_stale staleness_us r ≡ true
      → (staleness_us < r.now_us - r.price_timestamp_us) × (0 < r.price_timestamp_us_again)
  unfolding is_stale
  is_stale-stale staleness_us r h = ground arith

  calm :
      (staleness_us : ℕ) (r : Reads F)
      → leb 10 r.consecutive_failures ≡ false
      → is_stale staleness_us r ≡ false
      → ¬ IsEmergency staleness_us r
  calm staleness_us r landing fresh emergency =
      let f = is_stale-fresh staleness_us r fresh in ground arith

  pub quoting_calm :
      (staleness_us : ℕ) (r : Reads F) → IsQuoting staleness_us r → ¬ IsEmergency staleness_us r
  quoting_calm staleness_us r q emergency = omega (arith, q.landing, q.fresh)

  unpriced :
      (staleness_us : ℕ) (r : Reads F)
      → (fl.le r.mid_price (fl.of_u64 0) || not (fl.is_finite r.mid_price)) ≡ true
      → ¬ IsQuoting staleness_us r
  unpriced staleness_us r worthless q = let p = q.positive in let f = q.finite in ground arith

module _ {F Market Quotes Pubkey Instruction S : Type 0} ⦃fl : F64 F⦄
    (sdk : QuoteMath F Market Quotes S) (enc : Encoders Pubkey Instruction S) (market : Market)
    (c : EngineConfig F Pubkey) where
  abbrev pub Outcome : Type 0
  Outcome = Engine × List (Send Instruction) × Flow

  -- An emergency's outcome, by whether the sleep after it was cancelled.
  abbrev pub emergency_outcome : Engine → Flow → Outcome
  emergency_outcome e flow = let (e', sends) = clear_emergency enc c e in (e', sends, flow)

  abbrev pub shutdown_outcome : Engine → Outcome
  shutdown_outcome e = let (e', sends) = shut_down enc c e in (e', sends, stopped)

  guarded_elim {κ} :
      (P : Outcome → Type κ) (e : Engine) (r : Reads F) (is_heartbeat : Bool)
      → r.wake ≢ cancelled
      → (r.cancelled_after_wake ≡ true → P (e, [], again))
      → ((¬ IsEmergency c.staleness_us r) × (¬ IsQuoting c.staleness_us r)
          → P (count_cycle e, [], again))
      → (IsEmergency c.staleness_us r
          → (flow : Flow) → EndsAs r flow
          → P (emergency_outcome e flow))
      → (IsQuoting c.staleness_us r → P (quote_cycle sdk enc market c e r is_heartbeat))
      → P (guarded_cycle sdk enc market c e r is_heartbeat)
  unfolding guarded_cycle
  guarded_elim P e r is_heartbeat awake skip idle clears quotes =
      if_elim P r.cancelled_after_wake skip λ going.
        if_elim P (leb 10 r.consecutive_failures)
          (λ failing.
            if_elim (λ flow. P (emergency_outcome e flow)) r.cancelled_in_sleep
              (λ slept. clears (inl (ground arith)) stopped (inr (refl, ground arith, slept)))
              (λ slept. clears (inl (ground arith)) again (inl refl)))
          λ landing.
            if_elim P (is_stale c.staleness_us r)
              (λ stale. clears (inr (is_stale-stale c.staleness_us r stale)) again (inl refl))
              λ fresh.
                if_elim P (fl.le r.mid_price (fl.of_u64 0) || not (fl.is_finite r.mid_price))
                  (λ worthless.
                    idle (calm c.staleness_us r landing fresh, unpriced c.staleness_us r worthless))
                  λ fine. quotes (record {
                    awake = awake;
                    going = going;
                    landing = ground arith;
                    fresh = is_stale-fresh c.staleness_us r fresh;
                    positive = ground arith;
                    finite = ground arith;
                  })

  -- To prove something of a cycle, prove it of each arm, with what is known when that arm runs.
  pub cycle_elim {κ} :
      (P : Outcome → Type κ) (e : Engine) (r : Reads F)
      → (r.wake ≡ cancelled → P (shutdown_outcome e))
      → (r.cancelled_after_wake ≡ true → P (e, [], again))
      → ((¬ IsEmergency c.staleness_us r) × (¬ IsQuoting c.staleness_us r)
          → P (count_cycle e, [], again))
      → (IsEmergency c.staleness_us r
          → (flow : Flow) → EndsAs r flow
          → P (emergency_outcome e flow))
      → ((is_heartbeat : Bool)
          → IsQuoting c.staleness_us r
          → P (quote_cycle sdk enc market c e r is_heartbeat))
      → P (cycle sdk enc market c e r)
  unfolding cycle
  cycle_elim P e r down skip idle clears quotes = go r.wake refl
    where
      go : (w : Wake) → r.wake ≡ w → P (on_wake sdk enc market c w e r)
      go cancelled eq = down eq
      go price eq = guarded_elim P e r false (λ h. cc) skip idle clears (quotes false)
      go heartbeat eq = guarded_elim P e r true (λ h. cc) skip idle clears (quotes true)

  guarded-quotes :
      (e : Engine) (r : Reads F) (is_heartbeat : Bool)
      → IsQuoting c.staleness_us r
      → guarded_cycle sdk enc market c e r is_heartbeat
        ≡ quote_cycle sdk enc market c e r is_heartbeat
  unfolding guarded_cycle is_stale
  guarded-quotes e r is_heartbeat q =
      let few : leb 10 r.consecutive_failures ≡ false = (let f = q.landing in ground arith) in
      let fresh : (ltb c.staleness_us (r.now_us - r.price_timestamp_us)
            && ltb 0 r.price_timestamp_us_again)
          ≡ false =
        (let f = q.fresh in ground arith) in
      rw (q.going, few, fresh, q.positive, q.finite) refl

  -- A reading that passes the guards makes a quoting cycle.
  pub cycle-quotes :
      (e : Engine) (r : Reads F)
      → IsQuoting c.staleness_us r
      → (is_heartbeat : Bool) × (cycle sdk enc market c e r
          ≡ quote_cycle sdk enc market c e r is_heartbeat)
  unfolding cycle on_wake
  cycle-quotes e r q = go r.wake refl
    where
      go :
          (w : Wake)
          → r.wake ≡ w
          → (is_heartbeat : Bool) × (on_wake sdk enc market c w e r
              ≡ quote_cycle sdk enc market c e r is_heartbeat)
      go cancelled eq = absurd (q.awake eq)
      go price eq = (false, guarded-quotes e r false q)
      go heartbeat eq = (true, guarded-quotes e r true q)
