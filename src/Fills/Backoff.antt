-- ===== src/Fills/Backoff.antt =====
-- How long the subscriptions wait between connections.
use archer_market_maker.Base.{
  ℕ, zero, suc, ◌*◌, ◌≤◌, ◌≡◌, refl, ap, ◌∙◌, min, List, [], ◌∷◌, Bool, arith, length, mul_u64,
  if_elim,
}
use archer_market_maker.Fills.{
  Codecs, BookState, Outcome, running, ok, failed, Turn, try_once, sleep_then, run_fills,
}

-- `n` sleeps from `ms` on: each doubles the last, up to 5 s.
abbrev pub doubling : ℕ → ℕ → List ℕ
doubling zero ms = []
doubling (suc n) ms = min ms 5000 ∷ doubling n (ms * 2)

doubling_clip : (n ms ms' : ℕ) → min ms 5000 ≡ min ms' 5000 → doubling n ms ≡ doubling n ms'
doubling_clip zero ms ms' e = refl
doubling_clip (suc n) ms ms' e =
    ap (λ m. m ∷ doubling n (ms * 2)) e
    ∙ ap (λ sleeps. min ms' 5000 ∷ sleeps) (doubling_clip n (ms * 2) (ms' * 2) (omega arith))

module _ {Text : Type 0} (codecs : Codecs Text) where
  abbrev Doubles : ℕ → List ℕ → Type 0
  Doubles ms sleeps = sleeps ≡ doubling (length sleeps) ms

  next_sleeps :
      (ms : ℕ) (sleeps : List ℕ)
      → ms ≤ 5000
      → sleeps ≡ doubling (length sleeps) (min (mul_u64 ms 2) 5000)
      → ms ∷ sleeps ≡ doubling (length (ms ∷ sleeps)) ms
  next_sleeps ms sleeps small e =
      ap (λ m. m ∷ sleeps) (let m : ms ≡ min ms 5000 = omega (arith, small) in m)
      ∙ ap (λ rest. min ms 5000 ∷ rest)
          (e ∙ doubling_clip (length sleeps) _ _ (omega (arith, small)))

  sleep_then-Doubles :
      (ms : ℕ) (slept : Bool) (s : BookState) (rest : BookState × List ℕ) (o : Outcome)
      → ms ≤ 5000
      → Doubles (min (mul_u64 ms 2) 5000) rest.1
      → Doubles ms (sleep_then codecs ms slept s rest o).1
  unfolding sleep_then
  sleep_then-Doubles ms slept s rest running small e = refl
  sleep_then-Doubles ms slept s rest ok small e = refl
  sleep_then-Doubles ms slept s (s', sleeps) failed small e =
      if_elim (λ (out : BookState × List ℕ). Doubles ms out.1) slept
        (λ _. next_sleeps ms [] small refl) λ _. next_sleeps ms sleeps small e

  -- However long its connections stand and whatever they yield, the sleeps of the loop double from
  -- the first one on, up to 5 s, and never start over.
  pub run_fills_sleeps :
      (s : BookState) (backoff_ms : ℕ) (ts : List (Turn Text))
      → backoff_ms ≤ 5000
      → let sleeps = (run_fills codecs s backoff_ms ts).1 in
        sleeps ≡ doubling (length sleeps) backoff_ms
  unfolding run_fills
  run_fills_sleeps s backoff_ms [] small = refl
  run_fills_sleeps s backoff_ms (t ∷ ts) small =
      let (state', outcome) = try_once codecs s t.connection in
      let next = min (mul_u64 backoff_ms 2) 5000 in
      let rest = run_fills codecs state' next ts in
      if_elim (λ (out : BookState × List ℕ). Doubles backoff_ms out.1) t.is_cancelled (λ _. refl)
        λ _.
          sleep_then-Doubles backoff_ms t.cancelled_in_sleep state' rest outcome small
            (run_fills_sleeps state' next ts (omega arith))
