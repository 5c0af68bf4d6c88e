-- ===== src/Tx/Sends.antt =====
-- The two ways to send, `send_now` and `fire`.
use archer_market_maker.Base.{
  ℕ, ◌^◌, ◌≤◌, ◌<◌, ◌≡◌, refl, List, Option, none, some, arith, Bool-cases, inl, inr,
}
use archer_market_maker.Tx.{
  TxPriority, normal, emergency, TxSender, TxState, Fetch, Rpc, Task, finish, send_now, fire,
  fee_of,
}

module _ {Hash Instruction Transaction Signature : Type 0}
    (rpc : Rpc Hash Instruction Transaction Signature) where
  -- What a spawned task comes to when it completes, or what a sender in shadow mode answers.
  abbrev pub completed :
      Option (Task Instruction)
      → Fetch Hash
      → TxState Hash Transaction
      → Option Signature × TxState Hash Transaction
  completed none f s = (some rpc.default_signature, s)
  completed (some t) f s = finish rpc t f s

  -- To send and wait comes to the same as to fire and let the task complete at once: the same
  -- transaction, the same fee, the same cache and failure count. In shadow mode neither sends.
  pub send_now-fire :
      (tx : TxSender) (ixs : List Instruction) (priority : TxPriority) (cu : ℕ) (f : Fetch Hash)
      (s : TxState Hash Transaction)
      → send_now rpc tx ixs priority cu f s ≡ completed (fire tx ixs priority cu) f s
  unfolding send_now fire
  send_now-fire tx ixs priority cu f s = elim (Bool-cases tx.shadow_mode) [
    | inl e ↦ rw e refl
    | inr e ↦ rw e refl
  ]

-- An emergency never pays less than a normal send, and a fee that is a `u64` stays one.
pub fee_of_bounds :
    (tx : TxSender)
    → tx.priority_fee < 2 ^ 64
    → (fee_of tx normal ≤ fee_of tx emergency) × (fee_of tx emergency < 2 ^ 64)
unfolding fee_of
fee_of_bounds tx h = (ground arith, ground arith)
