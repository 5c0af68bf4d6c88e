-- ===== src/Client/Sending.antt =====
-- What `send_instructions` comes to, over its retries.
use archer_market_maker.Base.{
  ℕ, zero, suc, ◌+◌, ◌≤◌, ◌<◌, ◌≡◌, refl, sym, ap, ◌∙◌, ◌⊎◌, inl, inr, List, Option, none, some,
  arith,
}
use mathlib.Core.Path.{subst}
use native.Mathlib.Decide.{dec_lt}
use archer_market_maker.Client.{
  SendOptions, Reply, ok, err, Sent, sent, no_blockhash, failed, Node, instructions_with, submit,
  send_instructions,
}

module _ {Hash Instruction Transaction Error Signature : Type 0}
    (node : Node Hash Instruction Transaction Error Signature) where
  open node use {new_signed_with_payer, latest_blockhash, send_and_confirm}

  -- The submissions numbered from `from` up to `to`, without the latter, are all refused.
  abbrev pub AllFail : Transaction → (from to : ℕ) → Type 0
  AllFail tx from to = (n : ℕ) → from ≤ n → n < to → (e : Error) × (send_and_confirm n tx ≡ err e)

  -- Either a submission is accepted after refusals alone, and no other follows; or all are refused.
  abbrev pub Submits : Transaction → (from to : ℕ) → Sent Error Signature × ℕ → Type 0
  Submits tx from to out =
      ((k : ℕ) × (sig : Signature) × (from ≤ k)
        × (k < to)
        × AllFail tx from k
        × (send_and_confirm k tx ≡ ok sig)
        × (out ≡ (sent sig, k + 1)))
      ⊎ ((k : ℕ) × (e : Error) × (k + 1 ≡ to)
          × AllFail tx from to
          × (send_and_confirm k tx ≡ err e)
          × (out ≡ (failed e, to)))

  Reply-cases :
      (r : Reply Error Signature) → ((sig : Signature) × (r ≡ ok sig)) ⊎ ((e : Error) × (r ≡ err e))
  Reply-cases (ok sig) = inl (sig, refl)
  Reply-cases (err e) = inr (e, refl)

  AllFail-suc :
      (tx : Transaction) (from to : ℕ) {e : Error}
      → send_and_confirm from tx ≡ err e
      → AllFail tx (from + 1) to
      → AllFail tx from to
  AllFail-suc tx from to {e} first rest n low high = elim (dec_lt from n) [
    | yes later ↦ rest n (omega arith) high
    | no same ↦ (e, ap (λ k. send_and_confirm k tx) (let eq : n ≡ from = omega arith in eq) ∙ first)
  ]

  AllFail-nil : (tx : Transaction) (from to : ℕ) → to ≤ from → AllFail tx from to
  AllFail-nil tx from to h n low high = absurd (omega arith)

  Submits-suc :
      (tx : Transaction) (from to : ℕ) (e : Error) (out : Sent Error Signature × ℕ)
      → send_and_confirm from tx ≡ err e
      → Submits tx (from + 1) to out
      → Submits tx from to out
  Submits-suc tx from to e out first (inl (k, sig, low, high, fail, accepted, result)) =
      inl (k, sig, omega arith, high, AllFail-suc tx from k first fail, accepted, result)
  Submits-suc tx from to e out first (inr (k, e', last, fail, refused, result)) =
      inr (k, e', last, AllFail-suc tx from to first fail, refused, result)

  -- What the loop does, given what it does after a refusal.
  submit_once :
      (tx : Transaction) (rounds done to : ℕ) (last_err : Option Error)
      → done < to
      → ((e : Error)
          → send_and_confirm done tx ≡ err e
          → Submits tx done to (submit node tx rounds (done + 1) (some e)))
      → Submits tx done to (submit node tx (suc rounds) done last_err)
  unfolding submit
  submit_once tx rounds done to last_err low after = elim (Reply-cases (send_and_confirm done tx)) [
    | inl (sig, accepted) ↦ inl (
      done,
      sig,
      omega arith,
      low,
      AllFail-nil tx done done (omega arith),
      accepted,
      rw (accepted, submit) refl,
    )
    | inr (e, refused) ↦
        subst (Submits tx done to) (sym (rw (refused, submit) refl)) (after e refused)
  ]

  submit-Submits :
      (tx : Transaction) (rounds done to : ℕ) (last_err : Option Error)
      → done + suc rounds ≡ to
      → Submits tx done to (submit node tx (suc rounds) done last_err)
  unfolding submit
  submit-Submits tx zero done to last_err size =
      submit_once tx zero done to last_err (omega arith) λ e refused. inr (
        done,
        e,
        omega arith,
        AllFail-suc tx done to refused (AllFail-nil tx (done + 1) to (omega arith)),
        refused,
        ap (λ n. (failed e, n)) (let eq : done + 1 ≡ to = omega arith in eq),
      )
  submit-Submits tx (suc rounds) done to last_err size =
      submit_once tx (suc rounds) done to last_err (omega arith) λ e refused.
        Submits-suc tx done to e _ refused
          (submit-Submits tx rounds (done + 1) to (some e) (omega arith))

  -- With a blockhash, `send_instructions` submits one and the same transaction at most
  -- `max_retries + 1` times. Either one submission is accepted, after refusals alone: then its
  -- signature is returned and no other submission follows. Or all are refused, and the error
  -- returned is the last one. It never panics.
  pub send_instructions-Submits :
      (instructions : List Instruction) (options : SendOptions) (hash : Hash)
      → latest_blockhash ≡ some hash
      → Submits
          (new_signed_with_payer (instructions_with node options instructions) hash)
          0
          (options.max_retries + 1)
          (send_instructions node instructions options)
  unfolding send_instructions
  send_instructions-Submits instructions options hash e = rw e (
      submit-Submits (new_signed_with_payer (instructions_with node options instructions) hash)
        options.max_retries 0 (options.max_retries + 1) none (omega arith))

  pub send_instructions-no_blockhash :
      (instructions : List Instruction) (options : SendOptions)
      → latest_blockhash ≡ none
      → send_instructions node instructions options ≡ (no_blockhash, 0)
  unfolding send_instructions
  send_instructions-no_blockhash instructions options e = rw e refl
