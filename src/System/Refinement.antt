-- ===== src/System/Refinement.antt =====
-- The engine within the running bot against the engine alone.
use mathlib.Core.List.{append-nil, append_assoc}
use mathlib.Core.Path.{subst}
use archer_market_maker.Base.{ℕ, ◌≡◌, refl, sym, ap, ◌∙◌, List, [], ◌∷◌, ◌++◌, true, false, All}
use archer_market_maker.Float.{F64}
use archer_market_maker.Sdk.{QuoteMath, Encoders, Decoding}
use archer_market_maker.Fills.{BookState}
use archer_market_maker.Engine.State.{
  EngineConfig, Engine, Reads, Send, Flow, again, stopped, panicked, price, cancelled, heartbeat,
}
use archer_market_maker.Engine.{start, cycle, run, and_then}
use archer_market_maker.Engine.Sends.{sent_writes, KeepsMidZero, kinds}
use archer_market_maker.Engine.Order.{IsOrdered, run-IsOrdered}
use archer_market_maker.Engine.LimitOrder.{run-LeavesMid}
use archer_market_maker.System.Bot.{Setup, Bot, boot}
use archer_market_maker.System.Step.{
  Step, feed_connected, feed_dropped, feed_text, feed_store, logs_seen, account_seen, fills_store,
  chain_moves, send_completes, send_dropped, awaited_completes, awaited_dropped, engine_wakes,
  engine_loads, engine_acts, Reach, here, then_step,
}

module _ {E Item : Type 0} where
  abbrev after : List Item → E × List Item × Flow → E × List Item × Flow
  after sends (e, more, flow) = (e, sends ++ more, flow)

  and_then-after :
      (sends : List Item) (out : E × List Item × Flow) (g : E → E × List Item × Flow)
      → after sends (and_then out g) ≡ and_then (after sends out) g
  and_then-after sends (e, more, again) g =
      ap (λ ys. ((g e).0, ys, (g e).2)) (sym (append_assoc sends more (g e).1))
  and_then-after sends (e, more, stopped) g = refl
  and_then-after sends (e, more, panicked) g = refl

  and_then_assoc :
      (out : E × List Item × Flow) (f f' g : E → E × List Item × Flow)
      → ((e : E) → f' e ≡ and_then (f e) g)
      → and_then out f' ≡ and_then (and_then out f) g
  and_then_assoc (e, sends, again) f f' g h = ap (after sends) (h e) ∙ and_then-after sends (f e) g
  and_then_assoc (e, sends, stopped) f f' g h = refl
  and_then_assoc (e, sends, panicked) f f' g h = refl

  and_then_nil : (out : E × List Item × Flow) → and_then out (λ e. (e, [], again)) ≡ out
  and_then_nil (e, sends, again) = ap (λ ys. (e, ys, again)) (append-nil sends)
  and_then_nil (e, sends, stopped) = refl
  and_then_nil (e, sends, panicked) = refl

module _ {F Market Quotes Pubkey Instruction S : Type 0} ⦃fl : F64 F⦄
    (sdk : QuoteMath F Market Quotes S) (enc : Encoders Pubkey Instruction S) (market : Market)
    (c : EngineConfig F Pubkey) where
  -- A run of one more cycle.
  run-append :
      (e : Engine) (rs : List (Reads F)) (r : Reads F)
      → run sdk enc market c e (rs ++ (r ∷ []))
        ≡ and_then (run sdk enc market c e rs) (λ e'. cycle sdk enc market c e' r)
  unfolding run
  run-append e [] r = and_then_nil (cycle sdk enc market c e r)
  run-append e (r0 ∷ rs) r =
      and_then_assoc (cycle sdk enc market c e r0) (λ e1. run sdk enc market c e1 rs)
        (λ e1. run sdk enc market c e1 (rs ++ (r ∷ []))) (λ e'. cycle sdk enc market c e' r)
        λ e1. run-append e1 rs r

module _ {F Text Hash Market Quotes Pubkey Instruction Transaction Signature S : Type 0}
    ⦃fl : F64 F⦄
    (setup : Setup F Text Hash Market Quotes Pubkey Instruction Transaction Signature S) where
  open setup use {sdk, enc, market, engine_config}

  -- The engine is where a run of its own over what it has read would be.
  abbrev pub IsRun : ℕ → Bot F Instruction Transaction Signature → Type 0
  IsRun initial b =
      run sdk enc market engine_config (start initial) b.history ≡ (b.engine, b.sent, b.flow)

  Step-IsRun :
      (initial : ℕ) {b b' : Bot F Instruction Transaction Signature}
      → Step setup b b'
      → IsRun initial b
      → IsRun initial b'
  Step-IsRun initial (feed_connected b tracker started none_left) h = h
  Step-IsRun initial (feed_dropped b tracker started none_left) h = h
  Step-IsRun initial (feed_text b tracker txt now_us l f started none_left e) h = h
  Step-IsRun initial (feed_store b st rest e) h = h
  Step-IsRun initial (logs_seen b resp none_left) h = h
  Step-IsRun initial (account_seen b update none_left seen) h = h
  Step-IsRun initial (fills_store b st rest e) h = h
  Step-IsRun initial (chain_moves b n le) h = h
  Step-IsRun initial (send_completes b before behind task f cache e) h = h
  Step-IsRun initial (send_dropped b before behind task f cache reached e) h = h
  Step-IsRun initial (awaited_completes b ixs priority cu rest f cache e) h = h
  Step-IsRun initial (awaited_dropped b ixs priority cu rest f cache reached e) h = h
  Step-IsRun initial (engine_wakes b price at goes may) h = h
  Step-IsRun initial (engine_wakes b cancelled at goes may) h = h
  Step-IsRun initial (engine_wakes b heartbeat at goes may) h = h
  Step-IsRun initial (engine_loads b o) h = h
  Step-IsRun initial (engine_acts b at goes) h =
      run-append sdk enc market engine_config (start initial) b.history b.reads
      ∙ ap (λ out. and_then out (λ e. cycle sdk enc market engine_config e b.reads))
          (h ∙ ap (λ flow. (b.engine, b.sent, flow)) goes)

  Reach-IsRun :
      (initial : ℕ) {first b : Bot F Instruction Transaction Signature}
      → IsRun initial first
      → Reach setup first b
      → IsRun initial b
  Reach-IsRun initial h here = h
  Reach-IsRun initial h (then_step r s) = Step-IsRun initial s (Reach-IsRun initial h r)

  -- However the tasks of a running bot interleave, the state of the engine, its sends and whether
  -- it still runs are those of the engine alone, run over what its finished cycles have read.
  pub engine_refines :
      (vol_window_secs : ℕ) (book_state : BookState) (b : Bot F Instruction Transaction Signature)
      → Reach setup (boot vol_window_secs book_state) b
      → run sdk enc market engine_config (start book_state.onchain_sequence_number) b.history
        ≡ (b.engine, b.sent, b.flow)
  unfolding run
  engine_refines vol_window_secs book_state b r =
      Reach-IsRun book_state.onchain_sequence_number refl r

  -- However the tasks interleave, what a running bot has sent moves the mid alone only while a full
  -- book write was sent before it with no clear in between, and on a limit-order book no write of
  -- the bot moves the mid or sets it to anything but zero.
  pub sent_in_order :
      (dec : Decoding setup.enc) (vol_window_secs : ℕ) (book_state : BookState)
      (b : Bot F Instruction Transaction Signature)
      → Reach setup (boot vol_window_secs book_state) b
      → IsOrdered false (kinds dec b.sent)
        × (setup.engine_config.strategy.is_lo ≡ true → All KeepsMidZero (sent_writes dec b.sent))
  sent_in_order dec vol_window_secs book_state b r =
      let initial = book_state.onchain_sequence_number in
      let same =
        ap (λ (out : Engine × List (Send Instruction) × Flow). out.1)
          (engine_refines vol_window_secs book_state b r) in
      (
        subst (λ sends. IsOrdered false (kinds dec sends)) same
            (run-IsOrdered sdk dec market engine_config initial b.history),
        λ lo.
            subst (λ sends. All KeepsMidZero (sent_writes dec sends)) same
              (run-LeavesMid sdk dec market engine_config lo (start initial) b.history),
      )
