-- ===== src/Feed/Backoff.antt =====
-- How long the feed waits between connections, and that it never panics.
use archer_market_maker.Base.{
  ℕ, zero, suc, ◌*◌, ◌≤◌, ◌≡◌, ◌∙◌, refl, sym, min, List, [], ◌∷◌, some, Bool, true, false, arith,
  replicate, mul_u64, All, Bool-cases, inl, inr, ap,
}
use mathlib.Core.Path.{subst}
use archer_market_maker.Float.{F64}
use archer_market_maker.Volatility.Push.{IsValid}
use archer_market_maker.Feed.Publish.{read_loop-IsValid}
use archer_market_maker.Feed.State.{
  Texts, FeedSettings, Feed, Reading, reading, disconnected, returned, Attempt, refused,
  subscribe_failed, connected, Turn, slept, continued, ended, open_yet,
}
use archer_market_maker.Feed.{no_legs, back_off, after_reading, turn, goes_on, run_feed, set_alive}

-- A sleep is at least 100 ms and at most 5 s.
abbrev pub IsPatient : Turn → Type 0
IsPatient (slept ms) = (100 ≤ ms) × (ms ≤ 5000)
IsPatient continued = Unit
IsPatient ended = Unit
IsPatient open_yet = Unit

abbrev pub InRange : ℕ → Type 0
InRange ms = (100 ≤ ms) × (ms ≤ 5000)

module _ {F Text : Type 0} ⦃fl : F64 F⦄ (t : Texts F Text) (c : FeedSettings Text) where
  after_reading-InRange :
      (state : Feed F) (how : Reading)
      → let (state', backoff', end) = after_reading state how in
        InRange backoff' × IsPatient end × (state'.vol_tracker ≡ state.vol_tracker)
  unfolding after_reading back_off
  after_reading-InRange state reading = ((omega arith, omega arith), tt, refl)
  after_reading-InRange state returned = ((omega arith, omega arith), tt, refl)
  after_reading-InRange state disconnected =
      ((omega arith, omega arith), (omega arith, omega arith), refl)

  turn-InRange :
      (state : Feed F) (backoff_ms : ℕ) (is_cancelled : Bool) (attempt : Attempt Text)
      → IsValid state.vol_tracker
      → InRange backoff_ms
      → (state' : Feed F) × (backoff' : ℕ) × (how : Turn) × (turn t c state backoff_ms is_cancelled
            attempt
          ≡ some (state', backoff', how))
        × IsValid state'.vol_tracker
        × InRange backoff'
        × IsPatient how
  unfolding turn back_off
  turn-InRange state backoff_ms true attempt v r = (state, backoff_ms, ended, refl, v, r, tt)
  turn-InRange state backoff_ms false refused v r =
      (set_alive false state, _, slept backoff_ms, refl, v, (omega (arith, r.0), omega arith), r)
  turn-InRange state backoff_ms false subscribe_failed v r =
      (set_alive false state, 100, continued, refl, v, (omega arith, omega arith), tt)
  turn-InRange state backoff_ms false (connected es) v r =
      let (state1, how, e, v1) = read_loop-IsValid t c no_legs (set_alive true state) es v in
      let (state2, backoff', end) = after_reading state1 how in
      let (range, patient, same) = after_reading-InRange state1 how in
      (state2, backoff', end, rw e refl, subst IsValid (sym same) v1, range, patient)

  -- From a valid tracker and a backoff between 100 ms and 5 s the feed never panics, whatever the
  -- exchange sends and however often it drops the connection, and every sleep is in that range.
  pub run_feed-IsPatient :
      (state : Feed F) (backoff_ms : ℕ) (attempts : List (Bool × Attempt Text))
      → IsValid state.vol_tracker
      → InRange backoff_ms
      → (state' : Feed F) × (turns : List Turn) × (run_feed t c state backoff_ms attempts
          ≡ some (state', turns))
        × IsValid state'.vol_tracker
        × All IsPatient turns
  unfolding run_feed
  run_feed-IsPatient state backoff_ms [] v r = (state, [], refl, v, tt)
  run_feed-IsPatient state backoff_ms ((is_cancelled, attempt) ∷ rest) v r =
      let (state1, backoff1, how, e1, v1, r1, patient) =
        turn-InRange state backoff_ms is_cancelled attempt v r in
      elim (Bool-cases (goes_on how)) [
        | inr stops ↦ (state1, how ∷ [], rw (e1, stops) refl, v1, (patient, tt))
        | inl goes ↦
            let (state2, turns, e2, v2, patients) = run_feed-IsPatient state1 backoff1 rest v1 r1 in
            (state2, how ∷ turns, rw (e1, goes, e2) refl, v2, (patient, patients))
      ]

  -- The sleeps of `n` refusals in a row, from `ms`: each doubles the last, up to 5 s.
  abbrev pub doubling : ℕ → ℕ → List Turn
  doubling zero ms = []
  doubling (suc n) ms = slept (min ms 5000) ∷ doubling n (ms * 2)

  doubling_clip : (n ms ms' : ℕ) → min ms 5000 ≡ min ms' 5000 → doubling n ms ≡ doubling n ms'
  doubling_clip zero ms ms' e = refl
  doubling_clip (suc n) ms ms' e =
      ap (λ m. slept m ∷ doubling n (ms * 2)) e
      ∙ ap (λ turns. slept (min ms' 5000) ∷ turns)
          (doubling_clip n (ms * 2) (ms' * 2) (omega arith))

  -- While the exchange refuses every connection, the sleeps double from the backoff on, up to 5 s.
  pub run_feed_refused :
      (state : Feed F) (n backoff_ms : ℕ)
      → InRange backoff_ms
      → (state' : Feed F) × (run_feed t c state backoff_ms (replicate n (false, refused))
          ≡ some (state', doubling n backoff_ms))
  unfolding run_feed turn back_off
  run_feed_refused state zero backoff_ms r = (state, refl)
  run_feed_refused state (suc n) backoff_ms r =
      let (state', e) =
        run_feed_refused (set_alive false state) n (min (mul_u64 backoff_ms 2) 5000)
          (omega (arith, r.0), omega arith) in
      (
        state',
        rw e (
            ap (λ turns. some (state', turns))
              (ap (λ ms. slept ms ∷ doubling n (min (mul_u64 backoff_ms 2) 5000))
                  (let m : backoff_ms ≡ min backoff_ms 5000 = omega (arith, r.1) in m)
                ∙ ap (λ turns. slept (min backoff_ms 5000) ∷ turns)
                    (doubling_clip n _ _ (omega (arith, r.1))))),
      )
