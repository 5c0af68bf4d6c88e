-- ===== src/System/Shadow.antt =====
-- What a running bot sends in shadow mode.
use archer_market_maker.Base.{
  ℕ, ◌≡◌, refl, sym, ap, ◌∙◌, List, [], ◌∷◌, ◌++◌, true, false, arith, length, length-append,
}
use archer_market_maker.Float.{F64}
use archer_market_maker.Fills.{BookState}
use archer_market_maker.Tx.{Task, fire, send_now}
use archer_market_maker.Tx.Failures.{counted}
use archer_market_maker.Engine.State.{Send, fired, awaited, price, cancelled, heartbeat}
use archer_market_maker.Engine.{cycle}
use archer_market_maker.System.Failing.{Reach-IsCounted}
use archer_market_maker.System.Bot.{Setup, Bot, boot, tasks_of}
use archer_market_maker.System.Step.{
  Step, feed_connected, feed_dropped, feed_text, feed_store, logs_seen, account_seen, fills_store,
  chain_moves, send_completes, send_dropped, awaited_completes, awaited_dropped, engine_wakes,
  engine_loads, engine_acts, Reach, here, then_step,
}

module _ {F Text Hash Market Quotes Pubkey Instruction Transaction Signature S : Type 0}
    ⦃fl : F64 F⦄
    (setup : Setup F Text Hash Market Quotes Pubkey Instruction Transaction Signature S) where
  open setup use {sdk, enc, market, engine_config, tx_sender, rpc}

  module _ (shadow : tx_sender.shadow_mode ≡ true) where
    no_tasks : (sends : List (Send Instruction)) → tasks_of tx_sender sends ≡ []
    unfolding fire
    no_tasks [] = refl
    no_tasks (fired ixs priority cu ∷ sends) = rw (shadow, no_tasks sends) refl
    no_tasks (awaited ixs priority cu ∷ sends) = no_tasks sends

    abbrev SendsNothing : Bot F Instruction Transaction Signature → Type 0
    SendsNothing b = (b.tasks ≡ []) × (b.results ≡ []) × (b.submitted ≡ [])

    no_task :
        (before behind : List (Task Instruction)) (task : Task Instruction)
        → ¬ ([] ≡ before ++ (task ∷ behind))
    no_task before behind task e = omega (arith, ap length e, length-append before (task ∷ behind))

    Step-SendsNothing :
        {b b' : Bot F Instruction Transaction Signature}
        → Step setup b b'
        → SendsNothing b
        → SendsNothing b'
    unfolding send_now
    Step-SendsNothing (feed_connected b tracker started none_left) h = h
    Step-SendsNothing (feed_dropped b tracker started none_left) h = h
    Step-SendsNothing (feed_text b tracker txt now_us l after started none_left e) h = h
    Step-SendsNothing (feed_store b st rest e) h = h
    Step-SendsNothing (logs_seen b resp none_left) h = h
    Step-SendsNothing (account_seen b update none_left seen) h = h
    Step-SendsNothing (fills_store b st rest e) h = h
    Step-SendsNothing (chain_moves b n le) h = h
    Step-SendsNothing (send_completes b before behind task f cache e) (tasks, results, submitted) =
        absurd (no_task before behind task (sym tasks ∙ e))
    Step-SendsNothing (send_dropped b before behind task f cache reached e)
          (tasks, results, submitted) =
        absurd (no_task before behind task (sym tasks ∙ e))
    Step-SendsNothing (awaited_completes b ixs priority cu rest f cache e)
          (tasks, results, submitted) =
        (tasks, rw shadow results, rw shadow submitted)
    Step-SendsNothing (awaited_dropped b ixs priority cu rest f cache true e)
          (tasks, results, submitted) =
        (tasks, results, rw shadow submitted)
    Step-SendsNothing (awaited_dropped b ixs priority cu rest f cache false e) h = h
    Step-SendsNothing (engine_wakes b price at goes may) h = h
    Step-SendsNothing (engine_wakes b cancelled at goes may) h = h
    Step-SendsNothing (engine_wakes b heartbeat at goes may) h = h
    Step-SendsNothing (engine_loads b o) h = h
    Step-SendsNothing (engine_acts b at goes) (tasks, results, submitted) =
        let sends = (cycle sdk enc market engine_config b.engine b.reads).1 in
        (rw (tasks, no_tasks sends) refl, results, submitted)

    Reach-SendsNothing :
        {first b : Bot F Instruction Transaction Signature}
        → SendsNothing first
        → Reach setup first b
        → SendsNothing b
    Reach-SendsNothing h here = h
    Reach-SendsNothing h (then_step r s) = Step-SendsNothing s (Reach-SendsNothing h r)

  -- However the tasks interleave, a bot in shadow mode has no task in flight, has handed the node
  -- no transaction, and has counted no failure.
  pub shadow_submits_nothing :
      (vol_window_secs : ℕ) (book_state : BookState) (b : Bot F Instruction Transaction Signature)
      → tx_sender.shadow_mode ≡ true
      → Reach setup (boot vol_window_secs book_state) b
      → (b.tasks ≡ []) × (b.submitted ≡ []) × (b.shared.consecutive_failures ≡ 0)
  shadow_submits_nothing vol_window_secs book_state b shadow r =
      let (tasks, results, submitted) = Reach-SendsNothing shadow (refl, refl, refl) r in
      let now = (Reach-IsCounted setup (refl, ([], [], refl, refl)) r).0 in
      (tasks, submitted, now ∙ ap (counted 0) results)
