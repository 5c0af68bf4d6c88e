-- ===== src/Engine/Numbering.antt =====
-- The sequence numbers that the engine gives its writes.
use mathlib.Core.List.{append-nil}
use archer_market_maker.Base.{
  ℕ, ◌+◌, ◌^◌, ◌≤◌, ◌<◌, ◌≡◌, refl, ◌⊎◌, inl, inr, List, [], map, Option, none, some, Bool, arith,
  add_u64, length, if_elim, ◌==◌, length-map,
}
use archer_market_maker.Float.{F64}
use archer_market_maker.Sdk.{BookUpdate, QuoteMath, Encoders, Decoding, sequence_of}
use archer_market_maker.Quote.{clear_book_ix, update_mid_price_ix, update_instructions}
use archer_market_maker.Quote.Sequence.{Consecutive, update_instructions_lem}
use archer_market_maker.Strategy.{QuoteDecision, noop, clear_book, update_mid_only, update_full}
use archer_market_maker.Engine.State.{EngineConfig, Engine, Reads, Send, Flow, count_cycle}
use archer_market_maker.Engine.Sends.{sent_writes}
use archer_market_maker.Engine.Guards.{IsQuoting, quoting_calm, cycle_elim}
use archer_market_maker.Engine.{
  resync, shut_down, clear_emergency, clear_normal, send_mid, send_full, act, just_sent, carry_out,
  quote_cycle, cycle,
}

-- The counter that a quoting cycle goes on from is at the book's or at most 4096 ahead.
pub resync_bounds :
    (local_seq onchain : ℕ)
    → (onchain ≤ resync local_seq onchain) × (resync local_seq onchain ≤ onchain + 4096)
unfolding resync
resync_bounds local_seq onchain = ground arith

module _ {F Pubkey Instruction S : Type 0} {enc : Encoders Pubkey Instruction S}
    (dec : Decoding enc) (c : EngineConfig F Pubkey) where
  -- The writes of `sends` carry the numbers after `base` one by one, and the engine's counter is
  -- the last of them, or `base` if there is none.
  abbrev pub Numbered : ℕ → Engine × List (Send Instruction) → Type 0
  Numbered base (e, sends) =
      Consecutive (base + 1) (map sequence_of (sent_writes dec sends))
      × (e.local_seq ≡ base + length (sent_writes dec sends))

  clear_normal-Numbered :
      (e : Engine) → e.local_seq + 2 < 2 ^ 64 → Numbered e.local_seq (clear_normal enc c e)
  unfolding clear_normal clear_book_ix
  clear_normal-Numbered e h = rw dec.decode-clear (omega arith)

  clear_emergency-Numbered :
      (e : Engine) → e.local_seq + 2 < 2 ^ 64 → Numbered e.local_seq (clear_emergency enc c e)
  unfolding clear_emergency clear_book_ix
  clear_emergency-Numbered e h = rw dec.decode-clear (omega arith)

  shut_down-Numbered :
      (e : Engine) → e.local_seq + 2 < 2 ^ 64 → Numbered e.local_seq (shut_down enc c e)
  unfolding shut_down clear_book_ix
  shut_down-Numbered e h = rw dec.decode-clear (omega arith)

  send_mid-Numbered :
      (e : Engine) (is_heartbeat : Bool) (ticks now : ℕ)
      → e.local_seq + 2 < 2 ^ 64
      → Numbered e.local_seq (send_mid enc c e is_heartbeat ticks now)
  unfolding send_mid update_mid_price_ix
  send_mid-Numbered e is_heartbeat ticks now h = rw dec.decode-mid (omega arith)

  send_full-Numbered :
      (e : Engine) (u : BookUpdate S) (hash now : ℕ)
      → e.local_seq + 2 < 2 ^ 64
      → Numbered e.local_seq (send_full enc c e u hash now)
  unfolding send_full
  send_full-Numbered e u hash now h =
      let no_wrap : add_u64 e.local_seq 1 ≡ e.local_seq + 1 = omega arith in
      let ixs = (update_instructions enc c.authority c.market_pubkey u (e.local_seq + 1)).0 in
      let (_, numbers, last) =
        update_instructions_lem enc dec c.authority c.market_pubkey u (e.local_seq + 1)
          (omega arith) in
      rw (no_wrap, append-nil (map dec.decode ixs))
        (numbers, omega (arith, last, length-map dec.decode ixs))

  idle-Numbered : (e : Engine) → Numbered e.local_seq (count_cycle e, [])
  idle-Numbered e = (tt, omega arith)

  act-Numbered :
      (e : Engine) (r : Reads F) (is_heartbeat : Bool) (d : QuoteDecision S)
      → e.local_seq + 2 < 2 ^ 64
      → Numbered e.local_seq (act enc c e r is_heartbeat d)
  unfolding act
  act-Numbered e r is_heartbeat noop h = idle-Numbered e
  act-Numbered e r is_heartbeat clear_book h = clear_normal-Numbered e h
  act-Numbered e r is_heartbeat (update_mid_only ticks) h =
      let P = Numbered e.local_seq in
      let sent = send_mid-Numbered e is_heartbeat ticks r.now_us_at_send h in
      if_elim P (ticks == r.cached_mid_ticks) (λ _. idle-Numbered e)
        λ _. if_elim P (just_sent e ticks r.now_us_at_send) (λ _. idle-Numbered e) λ _. sent
  act-Numbered e r is_heartbeat (update_full u hash) h =
      send_full-Numbered e u hash r.now_us_at_send h

module _ {F Market Quotes Pubkey Instruction S : Type 0} ⦃fl : F64 F⦄
    (sdk : QuoteMath F Market Quotes S) {enc : Encoders Pubkey Instruction S} (dec : Decoding enc)
    (market : Market) (c : EngineConfig F Pubkey) where
  abbrev base_of : Engine → Reads F → ℕ
  base_of e r = resync e.local_seq r.onchain_sequence_number

  -- What a cycle does to the sequence numbers: state and sends of an outcome.
  abbrev pub outcome : Engine × List (Send Instruction) × Flow → Engine × List (Send Instruction)
  outcome (e, sends, flow) = (e, sends)

  carry_out-Numbered :
      (e : Engine) (r : Reads F) (is_heartbeat : Bool) (d : Option (QuoteDecision S × F))
      → e.local_seq + 2 < 2 ^ 64
      → Numbered dec c e.local_seq (outcome (carry_out sdk enc market c e r is_heartbeat d))
  unfolding carry_out
  carry_out-Numbered e r is_heartbeat none h = (tt, omega arith)
  carry_out-Numbered e r is_heartbeat (some (d, spread)) h = act-Numbered dec c e r is_heartbeat d h

  pub quote_cycle-Numbered :
      (e : Engine) (r : Reads F) (is_heartbeat : Bool)
      → r.onchain_sequence_number + 5000 < 2 ^ 64
      → Numbered dec c (base_of e r) (outcome (quote_cycle sdk enc market c e r is_heartbeat))
  unfolding quote_cycle
  quote_cycle-Numbered e r is_heartbeat h =
      let bounds = resync_bounds e.local_seq r.onchain_sequence_number in
      carry_out-Numbered _ r is_heartbeat _ (omega arith)

  -- What a cycle numbers its writes after: the counter resynced with the book if it quotes, and the
  -- engine's own counter if it does not.
  abbrev pub IsBase : Engine → Reads F → ℕ → Type 0
  IsBase e r base =
      (IsQuoting c.staleness_us r × (base ≡ resync e.local_seq r.onchain_sequence_number))
      ⊎ ((¬ IsQuoting c.staleness_us r) × (base ≡ e.local_seq))

  -- A cycle numbers its writes one by one: after the counter resynced with the book if the reading
  -- passes the guards of quoting, and after the engine's own counter if it does not. The counter
  -- ends at the last number used, or where the numbering started if there is no write.
  pub cycle_numbers :
      (e : Engine) (r : Reads F)
      → e.local_seq + 2 < 2 ^ 64
      → r.onchain_sequence_number + 5000 < 2 ^ 64
      → (base : ℕ) × IsBase e r base × Numbered dec c base (outcome (cycle sdk enc market c e r))
  cycle_numbers e r hl ho =
      let own : Numbered dec c e.local_seq (e, []) = (tt, omega arith) in
      cycle_elim sdk enc market c P e r
        (λ down. (e.local_seq, inr (λ q. q.awake down, refl), shut_down-Numbered dec c e hl))
        (λ skip. (e.local_seq, inr (λ q. let going = q.going in ground arith, refl), own))
        (λ idle. (e.local_seq, inr (idle.1, refl), own))
        (λ emergency flow _. (
          e.local_seq,
          inr (λ q. quoting_calm c.staleness_us r q emergency, refl),
          clear_emergency-Numbered dec c e hl,
        ))
        (λ is_heartbeat q. (base_of e r, inl (q, refl), quote_cycle-Numbered e r is_heartbeat ho))
    where
      P : Engine × List (Send Instruction) × Flow → Type 0
      P out = (base : ℕ) × IsBase e r base × Numbered dec c base (outcome out)
