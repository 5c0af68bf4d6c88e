-- ===== src/Engine/Accepted.antt =====
-- Which writes of the engine the Archer program takes: it wants `last + 1 ..= last + 65535`.
use mathlib.Core.List.{append-nil}
use archer_market_maker.Base.{
  ℕ, ◌+◌, ◌^◌, ◌≤◌, ◌<◌, List, [], ◌∷◌, map, Option, none, some, Bool, arith, length, All, All-mono,
  if_elim, length-map, ◌==◌, add_u64,
}
use archer_market_maker.Float.{F64}
use archer_market_maker.Sdk.{BookUpdate, QuoteMath, Encoders, Decoding, sequence_of}
use archer_market_maker.Quote.{update_instructions}
use archer_market_maker.Quote.Sequence.{Consecutive, length-update_instructions}
use archer_market_maker.Strategy.{QuoteDecision, noop, clear_book, update_mid_only, update_full}
use archer_market_maker.Engine.State.{EngineConfig, Engine, Reads, Send}
use archer_market_maker.Engine.Sends.{sent_writes}
use archer_market_maker.Engine.Numbering.{outcome, quote_cycle-Numbered, resync_bounds}
use archer_market_maker.Engine.{
  clear_normal, send_mid, send_full, act, just_sent, carry_out, quote_cycle,
}

-- `MAX_SEQUENCE_JUMP`
abbrev pub max_sequence_jump : ℕ
max_sequence_jump = 65_535

-- The program takes a write with number `seq` on a book whose last number is `last`.
abbrev pub IsAccepted : (last seq : ℕ) → Type 0
IsAccepted last seq = (last < seq) × (seq ≤ last + max_sequence_jump)

Consecutive-bounds :
    (n : ℕ) (ms : List ℕ) → Consecutive n ms → All (λ m. (n ≤ m) × (m < n + length ms)) ms
Consecutive-bounds n [] h = tt
Consecutive-bounds n (m ∷ ms) (e, rest) =
    (omega arith, All-mono (λ k b. omega arith) ms (Consecutive-bounds (n + 1) ms rest))

module _ {F Pubkey Instruction S : Type 0} {enc : Encoders Pubkey Instruction S}
    (dec : Decoding enc) (c : EngineConfig F Pubkey) where
  abbrev IsShort : Engine × List (Send Instruction) → Type 0
  IsShort (e, sends) = length (sent_writes dec sends) ≤ 2

  send_full-IsShort :
      (e : Engine) (u : BookUpdate S) (hash now : ℕ) → IsShort (send_full enc c e u hash now)
  unfolding send_full
  send_full-IsShort e u hash now =
      let ixs = (update_instructions enc c.authority c.market_pubkey u (add_u64 e.local_seq 1)).0 in
      rw (append-nil (map dec.decode ixs)) (
        omega (
          arith,
          length-map dec.decode ixs,
          length-update_instructions enc c.authority c.market_pubkey u (add_u64 e.local_seq 1),
        ))

  send_mid-IsShort :
      (e : Engine) (is_heartbeat : Bool) (ticks now : ℕ)
      → IsShort (send_mid enc c e is_heartbeat ticks now)
  unfolding send_mid
  send_mid-IsShort e is_heartbeat ticks now = omega arith

  clear_normal-IsShort : (e : Engine) → IsShort (clear_normal enc c e)
  unfolding clear_normal
  clear_normal-IsShort e = omega arith

  act-IsShort :
      (e : Engine) (r : Reads F) (is_heartbeat : Bool) (d : QuoteDecision S)
      → IsShort (act enc c e r is_heartbeat d)
  unfolding act
  act-IsShort e r is_heartbeat noop = omega arith
  act-IsShort e r is_heartbeat clear_book = clear_normal-IsShort e
  act-IsShort e r is_heartbeat (update_mid_only ticks) =
      if_elim IsShort (ticks == r.cached_mid_ticks) (λ _. omega arith)
        λ _.
          if_elim IsShort (just_sent e ticks r.now_us_at_send) (λ _. omega arith)
            λ _. send_mid-IsShort e is_heartbeat ticks r.now_us_at_send
  act-IsShort e r is_heartbeat (update_full u hash) = send_full-IsShort e u hash r.now_us_at_send

module _ {F Market Quotes Pubkey Instruction S : Type 0} ⦃fl : F64 F⦄
    (sdk : QuoteMath F Market Quotes S) {enc : Encoders Pubkey Instruction S} (dec : Decoding enc)
    (market : Market) (c : EngineConfig F Pubkey) where
  carry_out-IsShort :
      (e : Engine) (r : Reads F) (is_heartbeat : Bool) (d : Option (QuoteDecision S × F))
      → IsShort dec c (outcome sdk dec market c (carry_out sdk enc market c e r is_heartbeat d))
  unfolding carry_out
  carry_out-IsShort e r is_heartbeat none = omega arith
  carry_out-IsShort e r is_heartbeat (some (d, spread)) = act-IsShort dec c e r is_heartbeat d

  quote_cycle-IsShort :
      (e : Engine) (r : Reads F) (is_heartbeat : Bool)
      → IsShort dec c (outcome sdk dec market c (quote_cycle sdk enc market c e r is_heartbeat))
  unfolding quote_cycle
  quote_cycle-IsShort e r is_heartbeat = carry_out-IsShort _ r is_heartbeat _

  -- Every write of a quoting cycle carries a number that the program takes, given the book's last
  -- number as the cycle read it.
  pub quote_cycle-IsAccepted :
      (e : Engine) (r : Reads F) (is_heartbeat : Bool)
      → r.onchain_sequence_number + 5000 < 2 ^ 64
      → All
          (IsAccepted r.onchain_sequence_number)
          (map sequence_of (sent_writes dec (quote_cycle sdk enc market c e r is_heartbeat).1))
  quote_cycle-IsAccepted e r is_heartbeat h =
      let seqs =
        map sequence_of (sent_writes dec (quote_cycle sdk enc market c e r is_heartbeat).1) in
      let numbers = (quote_cycle-Numbered sdk dec market c e r is_heartbeat h).0 in
      let bounds = resync_bounds e.local_seq r.onchain_sequence_number in
      let short : length seqs ≤ 2 = omega (
        arith,
        quote_cycle-IsShort e r is_heartbeat,
        length-map sequence_of (sent_writes dec (quote_cycle sdk enc market c e r is_heartbeat).1),
      ) in
      All-mono (λ m b. (omega arith, omega arith)) seqs (Consecutive-bounds _ seqs numbers)
