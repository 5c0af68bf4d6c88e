-- ===== src/Engine/LimitOrder.antt =====
-- What the engine writes to a limit-order book.
use mathlib.Core.List.{append_assoc}
use archer_market_maker.Base.{
  ℕ, ◌≡◌, refl, sym, List, [], ◌∷◌, ◌++◌, Option, none, some, Bool, true, false, All, All-append,
}
use archer_market_maker.Float.{F64}
use archer_market_maker.Sdk.{BookUpdate, QuoteMath, Encoders, Decoding}
use archer_market_maker.Quote.{clear_book_ix, update_book_ix, update_instructions}
use archer_market_maker.Strategy.{QuoteDecision, noop, clear_book, update_mid_only, update_full}
use archer_market_maker.Strategy.Decisions.{KeepsMid, compute-KeepsMid}
use archer_market_maker.Engine.State.{
  EngineConfig, Engine, Reads, Send, Flow, again, stopped, panicked,
}
use archer_market_maker.Engine.Sends.{sent_writes, writes_of, KeepsMidZero}
use archer_market_maker.Engine.Guards.{cycle_elim}
use archer_market_maker.Engine.{
  shut_down, clear_emergency, clear_normal, send_full, act, carry_out, decision_of, quote_cycle,
  cycle, run, and_then,
}

module _ {F Pubkey Instruction S : Type 0} {enc : Encoders Pubkey Instruction S}
    (dec : Decoding enc) (c : EngineConfig F Pubkey) where
  -- No write moves the mid of the book, or sets it to anything but zero.
  abbrev pub LeavesMid : List (Send Instruction) → Type 0
  LeavesMid sends = All KeepsMidZero (sent_writes dec sends)

  clear_normal-LeavesMid : (e : Engine) → LeavesMid (clear_normal enc c e).1
  unfolding clear_normal clear_book_ix
  clear_normal-LeavesMid e = rw dec.decode-clear (tt, tt)

  clear_emergency-LeavesMid : (e : Engine) → LeavesMid (clear_emergency enc c e).1
  unfolding clear_emergency clear_book_ix
  clear_emergency-LeavesMid e = rw dec.decode-clear (tt, tt)

  shut_down-LeavesMid : (e : Engine) → LeavesMid (shut_down enc c e).1
  unfolding shut_down clear_book_ix
  shut_down-LeavesMid e = rw dec.decode-clear (tt, tt)

  send_full-LeavesMid :
      (e : Engine) (u : BookUpdate S) (hash now : ℕ)
      → u.mid_price_changed ≡ false
      → u.new_mid_price_ticks ≡ 0
      → LeavesMid (send_full enc c e u hash now).1
  unfolding send_full update_instructions update_book_ix
  send_full-LeavesMid e u hash now same zero = rw (same, dec.decode-book) (zero, tt)

  act-LeavesMid :
      (e : Engine) (r : Reads F) (is_heartbeat : Bool) (d : QuoteDecision S)
      → KeepsMid d
      → LeavesMid (act enc c e r is_heartbeat d).1
  unfolding act
  act-LeavesMid e r is_heartbeat noop k = tt
  act-LeavesMid e r is_heartbeat clear_book k = clear_normal-LeavesMid e
  act-LeavesMid e r is_heartbeat (update_mid_only ticks) k = absurd k
  act-LeavesMid e r is_heartbeat (update_full u hash) k =
      send_full-LeavesMid e u hash r.now_us_at_send k.0 k.1

  sent_writes-append :
      (xs ys : List (Send Instruction))
      → sent_writes dec (xs ++ ys) ≡ sent_writes dec xs ++ sent_writes dec ys
  sent_writes-append [] ys = refl
  sent_writes-append (x ∷ xs) ys =
      rw (sent_writes-append xs ys)
        (sym (append_assoc (writes_of dec x) (sent_writes dec xs) (sent_writes dec ys)))

module _ {F Market Quotes Pubkey Instruction S : Type 0} ⦃fl : F64 F⦄
    (sdk : QuoteMath F Market Quotes S) {enc : Encoders Pubkey Instruction S} (dec : Decoding enc)
    (market : Market) (c : EngineConfig F Pubkey) where
  carry_out-LeavesMid :
      (e : Engine) (r : Reads F) (is_heartbeat : Bool) (d : Option (QuoteDecision S × F))
      → ((decision : QuoteDecision S) (spread : F)
          → d ≡ some (decision, spread)
          → KeepsMid decision)
      → LeavesMid dec c (carry_out sdk enc market c e r is_heartbeat d).1
  unfolding carry_out
  carry_out-LeavesMid e r is_heartbeat none ok = tt
  carry_out-LeavesMid e r is_heartbeat (some (d, spread)) ok =
      act-LeavesMid dec c e r is_heartbeat d (ok d spread refl)

  module _ (lo : c.strategy.is_lo ≡ true) where
    quote_cycle-LeavesMid :
        (e : Engine) (r : Reads F) (is_heartbeat : Bool)
        → LeavesMid dec c (quote_cycle sdk enc market c e r is_heartbeat).1
    unfolding quote_cycle decision_of
    quote_cycle-LeavesMid e r is_heartbeat = carry_out-LeavesMid _ r is_heartbeat _ λ d spread eq.
        compute-KeepsMid sdk c.strategy r.mid_price _ _ market r.base_total_lots r.quote_total_lots
          r.volatility_bps lo eq

    cycle-LeavesMid : (e : Engine) (r : Reads F) → LeavesMid dec c (cycle sdk enc market c e r).1
    cycle-LeavesMid e r =
        cycle_elim sdk enc market c (λ out. LeavesMid dec c out.1) e r
          (λ _. shut_down-LeavesMid dec c e) (λ _. tt) (λ _. tt)
          (λ _ flow _. clear_emergency-LeavesMid dec c e)
          (λ is_heartbeat _. quote_cycle-LeavesMid e r is_heartbeat)

    and_then-LeavesMid :
        (out : Engine × List (Send Instruction) × Flow)
        (rest : Engine → Engine × List (Send Instruction) × Flow)
        → LeavesMid dec c out.1
        → ((e : Engine) → LeavesMid dec c (rest e).1)
        → LeavesMid dec c (and_then out rest).1
    and_then-LeavesMid (e, sends, again) rest now later =
        rw (sent_writes-append dec c sends (rest e).1)
          (All-append KeepsMidZero (sent_writes dec sends) _ now (later e))
    and_then-LeavesMid (e, sends, stopped) rest now later = now
    and_then-LeavesMid (e, sends, panicked) rest now later = now

    -- On a limit-order book no run of the engine ever moves the mid: every write is a clear, or a
    -- full write with mid zero.
    pub run-LeavesMid :
        (e : Engine) (rs : List (Reads F)) → LeavesMid dec c (run sdk enc market c e rs).1
    unfolding run
    run-LeavesMid e [] = tt
    run-LeavesMid e (r ∷ rs) =
        and_then-LeavesMid (cycle sdk enc market c e r) (λ e'. run sdk enc market c e' rs)
          (cycle-LeavesMid e r) (λ e'. run-LeavesMid e' rs)
