-- ===== src/System/Failing.antt =====
-- The results of sends in the running bot, and the failures that the engine reads.
use mathlib.Core.List.{append-nil, append_assoc}
use mathlib.Core.Path.{subst}
use archer_market_maker.Base.{
  ℕ, ◌^◌, ◌≤◌, ◌<◌, ◌≡◌, refl, sym, ap, ◌∙◌, ◌↔◌, List, [], ◌∷◌, ◌++◌, Option, arith, length,
  length-append, Bool-cases, inl, inr,
}
use archer_market_maker.Float.{F64}
use archer_market_maker.Fills.{BookState}
use archer_market_maker.Tx.{count_result, finish, send_now, TxPriority, Fetch, CachedBlockhash}
use archer_market_maker.Tx.Failures.{counted, counted-append, EndsInFailures, failures_reach}
use archer_market_maker.Engine.State.{price, cancelled, heartbeat, Send}
use archer_market_maker.System.Within.{do_store-failures, load-failures}
use archer_market_maker.System.Bot.{Setup, Bot, boot}
use archer_market_maker.System.Step.{
  Step, feed_connected, feed_dropped, feed_text, feed_store, logs_seen, account_seen, fills_store,
  chain_moves, send_completes, send_dropped, awaited_completes, awaited_dropped, engine_wakes,
  engine_loads, engine_acts, Reach, here, then_step, world_of, answered,
}

module _ {F Text Hash Market Quotes Pubkey Instruction Transaction Signature S : Type 0}
    ⦃fl : F64 F⦄
    (setup : Setup F Text Hash Market Quotes Pubkey Instruction Transaction Signature S) where
  open setup use {sdk, enc, market, engine_config, tx_sender, rpc}

  -- A count of failures that was right after some of the results.
  abbrev pub WasCounted : List (Option Signature) → ℕ → Type 0
  WasCounted results n =
      (before later : List (Option Signature)) × (results ≡ before ++ later)
      × (n ≡ counted 0 before)

  abbrev pub IsCounted : Bot F Instruction Transaction Signature → Type 0
  IsCounted b =
      (b.shared.consecutive_failures ≡ counted 0 b.results)
      × WasCounted b.results b.reads.consecutive_failures

  WasCounted-append :
      (rs more : List (Option Signature)) (n : ℕ) → WasCounted rs n → WasCounted (rs ++ more) n
  WasCounted-append rs more n (before, later, e, k) =
      (before, later ++ more, ap (λ xs. xs ++ more) e ∙ append_assoc before later more, k)

  answered-IsCounted :
      (b : Bot F Instruction Transaction Signature) (ixs : List Instruction) (priority : TxPriority)
      (cu_limit : ℕ) (rest : List (Send Instruction)) (f : Fetch Hash)
      (cache : Option (CachedBlockhash Hash))
      → IsCounted b
      → IsCounted (answered setup b ixs priority cu_limit rest f cache)
  unfolding send_now finish
  answered-IsCounted b ixs priority cu_limit rest f cache (now, read) =
      elim (Bool-cases tx_sender.shadow_mode) [
        | inl hidden ↦ rw hidden (now, read)
        | inr live ↦ rw live (
          ap (count_result _) now ∙ sym (counted-append 0 b.results (_ ∷ [])),
          WasCounted-append b.results (_ ∷ []) b.reads.consecutive_failures read,
        )
      ]

  Step-IsCounted :
      {b b' : Bot F Instruction Transaction Signature}
      → Step setup b b'
      → IsCounted b
      → IsCounted b'
  unfolding finish
  Step-IsCounted (feed_connected b tracker started none_left) h = h
  Step-IsCounted (feed_dropped b tracker started none_left) h = h
  Step-IsCounted (feed_text b tracker txt now_us l after started none_left e) h = h
  Step-IsCounted (feed_store b st rest e) (now, read) = (do_store-failures b.shared st ∙ now, read)
  Step-IsCounted (logs_seen b resp none_left) h = h
  Step-IsCounted (account_seen b update none_left seen) h = h
  Step-IsCounted (fills_store b st rest e) (now, read) = (do_store-failures b.shared st ∙ now, read)
  Step-IsCounted (chain_moves b n le) h = h
  Step-IsCounted (send_completes b before behind task f cache e) (now, read) =
      let (result, world) = finish rpc task f (world_of setup b cache) in
      (
        ap (count_result result) now ∙ sym (counted-append 0 b.results (result ∷ [])),
        WasCounted-append b.results (result ∷ []) b.reads.consecutive_failures read,
      )
  Step-IsCounted (send_dropped b before behind task f cache reached e) h = h
  Step-IsCounted (awaited_completes b ixs priority cu rest f cache e) h =
      answered-IsCounted b ixs priority cu rest f cache h
  Step-IsCounted (awaited_dropped b ixs priority cu rest f cache reached e) h = h
  Step-IsCounted (engine_wakes b price at goes may) h = h
  Step-IsCounted (engine_wakes b cancelled at goes may) h = h
  Step-IsCounted (engine_wakes b heartbeat at goes may) h = h
  Step-IsCounted (engine_loads b o) (now, read) = (
    now,
    load-failures (WasCounted b.results) b.point b.shared o b.reads
        (b.results, [], sym (append-nil b.results), now) read,
  )
  Step-IsCounted (engine_acts b at goes) h = h

  pub Reach-IsCounted :
      {first b : Bot F Instruction Transaction Signature}
      → IsCounted first
      → Reach setup first b
      → IsCounted b
  Reach-IsCounted h here = h
  Reach-IsCounted h (then_step r s) = Step-IsCounted s (Reach-IsCounted h r)

  -- However the tasks of a running bot interleave and in whatever order its sends complete, fewer
  -- than 2 ^ 64 of them, the shared count reaches `n` exactly if the last `n` results are failures;
  -- and where a cycle of the engine has read ten failures or more, the last ten of all results
  -- before some moment were failures.
  pub failures_in_a_row :
      (vol_window_secs : ℕ) (book_state : BookState) (b : Bot F Instruction Transaction Signature)
      → Reach setup (boot vol_window_secs book_state) b
      → length b.results < 2 ^ 64
      → ((n : ℕ) → (n ≤ b.shared.consecutive_failures) ↔ EndsInFailures n b.results)
        × (10 ≤ b.reads.consecutive_failures
            → (before later : List (Option Signature)) × (b.results ≡ before ++ later)
              × EndsInFailures 10 before)
  failures_in_a_row vol_window_secs book_state b r small =
      let (now, (before, later, e, k)) = Reach-IsCounted (refl, ([], [], refl, refl)) r in
      (
        λ n.
            subst (λ c. (n ≤ c) ↔ EndsInFailures n b.results) (sym now)
              (failures_reach n b.results small),
        λ ten. (
          before,
          later,
          e,
          (failures_reach 10 before (omega (arith, ap length e, length-append before later))).0
              (omega arith),
        ),
      )
