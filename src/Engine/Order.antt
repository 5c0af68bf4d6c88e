-- ===== src/Engine/Order.antt =====
-- In what order the engine writes a book: a lone move of the mid only on a book that stands.
use mathlib.Core.List.{append-nil, map-append}
use archer_market_maker.Base.{
  ℕ, ◌≡◌, refl, inl, inr, List, [], ◌∷◌, ◌++◌, map, Option, none, some, Bool, true, false, not,
  if_elim, ◌==◌, Bool-cases, add_u64, sym,
}
use mathlib.Core.Path.{subst}
use archer_market_maker.Float.{F64}
use archer_market_maker.Sdk.{BookUpdate, QuoteMath, Encoders, Decoding}
use archer_market_maker.Quote.{clear_book_ix, update_mid_price_ix, update_instructions}
use archer_market_maker.Strategy.{QuoteDecision, noop, clear_book, update_mid_only, update_full}
use archer_market_maker.Strategy.Decisions.{Requotes, compute-Requotes}
use archer_market_maker.Engine.State.{
  EngineConfig, Engine, Reads, Send, Flow, again, stopped, panicked,
}
use archer_market_maker.Engine.Sends.{Kind, nothing, clears, mid_only, writes_book, kind_of, kinds}
use archer_market_maker.Engine.Guards.{cycle_elim}
use archer_market_maker.Engine.{
  start, resync, shut_down, clear_emergency, clear_normal, send_mid, send_full, act, just_sent,
  carry_out, decision_of, quote_cycle, cycle, run, and_then,
}

-- Whether a book stands, through a sequence of transactions: a clear takes it down, a full write
-- puts it up, and a lone move of the mid needs it up.
abbrev pub IsOrdered : (stands : Bool) → List Kind → Type 0
IsOrdered stands [] = Unit
IsOrdered stands (nothing ∷ ks) = IsOrdered stands ks
IsOrdered stands (clears ∷ ks) = IsOrdered false ks
IsOrdered stands (mid_only ∷ ks) = (stands ≡ true) × IsOrdered stands ks
IsOrdered stands (writes_book ∷ ks) = IsOrdered true ks

module _ {F Pubkey Instruction S : Type 0} {enc : Encoders Pubkey Instruction S}
    (dec : Decoding enc) (c : EngineConfig F Pubkey) where
  -- If what follows is in order after the new state, then so are the sends and what follows after
  -- the old one.
  abbrev pub KeepsOrder : Engine → Engine × List (Send Instruction) → Type 0
  KeepsOrder e (e', sends) =
      (ks : List Kind)
      → IsOrdered (not e'.needs_initial_book) ks
      → IsOrdered (not e.needs_initial_book) (kinds dec sends ++ ks)

  kind_of-full :
      (u : BookUpdate S) (seq : ℕ)
      → kind_of (map dec.decode (update_instructions enc c.authority c.market_pubkey u seq).0)
        ≡ writes_book
  unfolding update_instructions
  kind_of-full u seq = elim (Bool-cases u.mid_price_changed) [
    | inl e ↦ rw (e, dec.decode-book)
    | inr e ↦ rw (e, dec.decode-book)
  ]

  clear_normal-KeepsOrder : (e : Engine) → KeepsOrder e (clear_normal enc c e)
  unfolding clear_normal clear_book_ix
  clear_normal-KeepsOrder e ks h = rw dec.decode-clear h

  clear_emergency-KeepsOrder : (e : Engine) → KeepsOrder e (clear_emergency enc c e)
  unfolding clear_emergency clear_book_ix
  clear_emergency-KeepsOrder e ks h = rw dec.decode-clear h

  send_mid-KeepsOrder :
      (e : Engine) (is_heartbeat : Bool) (ticks now : ℕ)
      → e.needs_initial_book ≡ false
      → KeepsOrder e (send_mid enc c e is_heartbeat ticks now)
  unfolding send_mid update_mid_price_ix
  send_mid-KeepsOrder e is_heartbeat ticks now up ks h = rw dec.decode-mid (rw up refl, h)

  send_full-KeepsOrder :
      (e : Engine) (u : BookUpdate S) (hash now : ℕ) → KeepsOrder e (send_full enc c e u hash now)
  unfolding send_full
  send_full-KeepsOrder e u hash now ks h =
      subst (λ k. IsOrdered (not e.needs_initial_book) (k ∷ ks))
        (sym (kind_of-full u (add_u64 e.local_seq 1))) h

  -- A decision that is allowed in a state: one that writes the book anew, if the book is down.
  abbrev IsAllowed : Engine → QuoteDecision S → Type 0
  IsAllowed e d = e.needs_initial_book ≡ true → Requotes d

  act-KeepsOrder :
      (e : Engine) (r : Reads F) (is_heartbeat : Bool) (d : QuoteDecision S)
      → IsAllowed e d
      → KeepsOrder e (act enc c e r is_heartbeat d)
  unfolding act
  act-KeepsOrder e r is_heartbeat noop ok = λ ks h. h
  act-KeepsOrder e r is_heartbeat clear_book ok = clear_normal-KeepsOrder e
  act-KeepsOrder e r is_heartbeat (update_mid_only ticks) ok =
      if_elim (KeepsOrder e) (ticks == r.cached_mid_ticks) (λ _ ks h. h)
        λ _.
          if_elim (KeepsOrder e) (just_sent e ticks r.now_us_at_send) (λ _ ks h. h)
            λ _. send_mid-KeepsOrder e is_heartbeat ticks r.now_us_at_send up
    where
      up : e.needs_initial_book ≡ false
      up = elim (Bool-cases e.needs_initial_book) [ inl down ↦ absurd (ok down) | inr up' ↦ up' ]
  act-KeepsOrder e r is_heartbeat (update_full u hash) ok =
      send_full-KeepsOrder e u hash r.now_us_at_send

module _ {F Market Quotes Pubkey Instruction S : Type 0} ⦃fl : F64 F⦄
    (sdk : QuoteMath F Market Quotes S) {enc : Encoders Pubkey Instruction S} (dec : Decoding enc)
    (market : Market) (c : EngineConfig F Pubkey) where
  decision_of-IsAllowed :
      (e : Engine) (r : Reads F) {d : QuoteDecision S} {spread : F}
      → decision_of sdk market c e r ≡ some (d, spread)
      → IsAllowed dec c e d
  unfolding decision_of
  decision_of-IsAllowed e r eq down =
      compute-Requotes sdk c.strategy r.mid_price _ market r.base_total_lots r.quote_total_lots
        r.volatility_bps (rw down at eq)

  -- What a cycle keeps: where the loop ends, only its own sends are left to be in order.
  abbrev KeepsOrderOut : Engine → Engine × List (Send Instruction) × Flow → Type 0
  KeepsOrderOut e (e', sends, again) = KeepsOrder dec c e (e', sends)
  KeepsOrderOut e (e', sends, stopped) = IsOrdered (not e.needs_initial_book) (kinds dec sends)
  KeepsOrderOut e (e', sends, panicked) = IsOrdered (not e.needs_initial_book) (kinds dec sends)

  alone :
      (e e' : Engine) (sends : List (Send Instruction))
      → KeepsOrder dec c e (e', sends)
      → IsOrdered (not e.needs_initial_book) (kinds dec sends)
  alone e e' sends h =
      subst (IsOrdered (not e.needs_initial_book)) (append-nil (kinds dec sends)) (h [] tt)

  with_flow :
      (e e' : Engine) (sends : List (Send Instruction)) (flow : Flow)
      → KeepsOrder dec c e (e', sends)
      → KeepsOrderOut e (e', sends, flow)
  with_flow e e' sends again h = h
  with_flow e e' sends stopped h = alone e e' sends h
  with_flow e e' sends panicked h = alone e e' sends h

  carry_out-KeepsOrder :
      (e : Engine) (r : Reads F) (is_heartbeat : Bool) (d : Option (QuoteDecision S × F))
      → ((decision : QuoteDecision S) (spread : F)
          → d ≡ some (decision, spread)
          → IsAllowed dec c e decision)
      → KeepsOrderOut e (carry_out sdk enc market c e r is_heartbeat d)
  unfolding carry_out
  carry_out-KeepsOrder e r is_heartbeat none ok = tt
  carry_out-KeepsOrder e r is_heartbeat (some (d, spread)) ok =
      act-KeepsOrder dec c e r is_heartbeat d (ok d spread refl)

  quote_cycle-KeepsOrder :
      (e : Engine) (r : Reads F) (is_heartbeat : Bool)
      → KeepsOrderOut e (quote_cycle sdk enc market c e r is_heartbeat)
  unfolding quote_cycle
  quote_cycle-KeepsOrder e r is_heartbeat = carry_out-KeepsOrder _ r is_heartbeat _ λ d spread eq.
      decision_of-IsAllowed (record e { local_seq = resync e.local_seq r.onchain_sequence_number })
        r eq

  shut_down-IsOrdered :
      (e : Engine) → IsOrdered (not e.needs_initial_book) (kinds dec (shut_down enc c e).1)
  unfolding shut_down clear_book_ix
  shut_down-IsOrdered e = rw dec.decode-clear tt

  cycle-KeepsOrder : (e : Engine) (r : Reads F) → KeepsOrderOut e (cycle sdk enc market c e r)
  cycle-KeepsOrder e r =
      cycle_elim sdk enc market c (KeepsOrderOut e) e r (λ _. shut_down-IsOrdered e) (λ _ ks h. h)
        (λ _ ks h. h)
        (λ _ flow _.
          with_flow e (clear_emergency enc c e).0 (clear_emergency enc c e).1 flow
            (clear_emergency-KeepsOrder dec c e))
        (λ is_heartbeat _. quote_cycle-KeepsOrder e r is_heartbeat)

  and_then-IsOrdered :
      (e : Engine) (out : Engine × List (Send Instruction) × Flow)
      (rest : Engine → Engine × List (Send Instruction) × Flow)
      → KeepsOrderOut e out
      → ((e' : Engine) → IsOrdered (not e'.needs_initial_book) (kinds dec (rest e').1))
      → IsOrdered (not e.needs_initial_book) (kinds dec (and_then out rest).1)
  and_then-IsOrdered e (e', sends, again) rest keeps after =
      rw (map-append _ sends (rest e').1) (keeps (kinds dec (rest e').1) (after e'))
  and_then-IsOrdered e (e', sends, stopped) rest keeps after = keeps
  and_then-IsOrdered e (e', sends, panicked) rest keeps after = keeps

  run_from-IsOrdered :
      (e : Engine) (rs : List (Reads F))
      → IsOrdered (not e.needs_initial_book) (kinds dec (run sdk enc market c e rs).1)
  unfolding run
  run_from-IsOrdered e [] = tt
  run_from-IsOrdered e (r ∷ rs) =
      and_then-IsOrdered e (cycle sdk enc market c e r) (λ e'. run sdk enc market c e' rs)
        (cycle-KeepsOrder e r) (λ e'. run_from-IsOrdered e' rs)

  -- Whatever the engine reads in its cycles, a lone move of the mid is sent only while a full book
  -- write was sent before it with no clear in between.
  pub run-IsOrdered :
      (initial : ℕ) (rs : List (Reads F))
      → IsOrdered false (kinds dec (run sdk enc market c (start initial) rs).1)
  run-IsOrdered initial rs = run_from-IsOrdered (start initial) rs
