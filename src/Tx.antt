-- ===== src/Tx.antt =====
-- src/tx.rs: the transaction sender. The RPC node, the clock, signing and the compute-budget
-- encoders are parameters; an `Err` is `none`. A task that `fire` spawns is a value that `finish`
-- completes later.
pub mod Blockhash
pub mod Failures
pub mod Sends
mod Examples
use archer_market_maker.Base.{
  ℕ, ◌-◌, List, [], ◌∷◌, ◌++◌, Option, none, some, Bool, if◌then◌else◌, ltb, ◌>>=◌, add_u64,
  saturating_mul_u64,
}

pub data TxPriority : Type 0 where
  normal emergency : TxPriority

-- `BLOCKHASH_TTL`, in microseconds.
abbrev pub blockhash_ttl : ℕ
blockhash_ttl = 2_000_000

-- `fetched_at` is an `Instant`, in microseconds of a monotonic clock.
pub record CachedBlockhash (Hash : Type 0) : Type 0 where
  pub hash : Hash
  pub fetched_at : ℕ

-- The fields of `TxSender` that decide what is sent.
pub record TxSender : Type 0 where
  pub priority_fee : ℕ
  pub shadow_mode : Bool

-- The part of the world that a send reads and writes: the cache, the shared counter, and the
-- transactions that the node has been asked to send.
pub record TxState (Hash Transaction : Type 0) : Type 0 where
  pub blockhash_cache : Option (CachedBlockhash Hash)
  pub consecutive_failures : ℕ
  pub submitted : List Transaction

-- What the rest of the world gives one call of `get_or_refresh_blockhash`: the two readings of
-- the clock, the cache as other tasks leave it while the write lock is waited for, what the RPC
-- node answers, and the clock once it has answered.
pub record Fetch (Hash : Type 0) : Type 0 where
  pub at_read : ℕ
  pub cache_at_write : Option (CachedBlockhash Hash)
  pub at_write : ℕ
  pub latest_blockhash : Option Hash
  pub at_answer : ℕ

-- What a call adds: the rpc's verdict on the signed transaction.
pub record Rpc (Hash Instruction Transaction Signature : Type 0) : Type 0 where
  pub set_compute_unit_limit : ℕ → Instruction
  pub set_compute_unit_price : ℕ → Instruction
  pub new_signed_with_payer : List Instruction → Hash → Transaction
  pub send_transaction : Transaction → Option Signature
  pub default_signature : Signature

module _ {Hash : Type 0} where
  -- `cached.fetched_at.elapsed() < BLOCKHASH_TTL`, and the hash if so.
  pub fresh_hash : Option (CachedBlockhash Hash) → ℕ → Option Hash
  fresh_hash none now = none
  fresh_hash (some cached) now =
      if ltb (now - cached.fetched_at) blockhash_ttl then some cached.hash else none

  -- The part of `get_or_refresh_blockhash` under the write lock, past its own test.
  pub refresh :
      Fetch Hash → Option (CachedBlockhash Hash) → Option Hash × Option (CachedBlockhash Hash)
  refresh f cache = elim f.latest_blockhash [
    | none ↦ (none, cache)
    | some hash ↦ (some hash, some (record { hash = hash; fetched_at = f.at_answer }))
  ]

  -- The hash and the cache after the call.
  pub get_or_refresh_blockhash :
      Fetch Hash → Option (CachedBlockhash Hash) → Option Hash × Option (CachedBlockhash Hash)
  unfolding fresh_hash refresh
  get_or_refresh_blockhash f cache = elim (fresh_hash cache f.at_read) [
    | some hash ↦ (some hash, cache)
    | none ↦ elim (fresh_hash f.cache_at_write f.at_write) [
      | some hash ↦ (some hash, f.cache_at_write)
      | none ↦ refresh f f.cache_at_write
    ]
  ]

-- The fee of a priority.
pub fee_of : TxSender → TxPriority → ℕ
fee_of tx normal = tx.priority_fee
fee_of tx emergency = saturating_mul_u64 tx.priority_fee 10

-- A spawned task: what it was given to send.
pub record Task (Instruction : Type 0) : Type 0 where
  pub instructions : List Instruction
  pub fee : ℕ
  pub cu_limit : ℕ

-- `TxSender::fire`: the task that it spawns, if any.
unfoldable pub fire :
    {Instruction : Type 0}
    → TxSender
    → List Instruction
    → TxPriority
    → ℕ
    → Option (Task Instruction)
unfolding fee_of
fire tx instructions priority cu_limit =
    if tx.shadow_mode
    then none
    else some
        (record { instructions = instructions; fee = fee_of tx priority; cu_limit = cu_limit })

-- The two arms that count failures.
pub count_result : {Signature : Type 0} → Option Signature → ℕ → ℕ
count_result (some sig) failures = 0
count_result none failures = add_u64 failures 1

module _ {Hash Instruction Transaction Signature : Type 0}
    (rpc : Rpc Hash Instruction Transaction Signature) where
  open rpc use {
    set_compute_unit_limit, set_compute_unit_price, new_signed_with_payer, send_transaction,
    default_signature,
  }

  pub all_ixs : Task Instruction → List Instruction
  all_ixs t = set_compute_unit_limit t.cu_limit ∷ set_compute_unit_price t.fee ∷ t.instructions

  -- The transaction that is handed to the node: none without a blockhash to sign it with.
  pub signed : Task Instruction → Option Hash → List Transaction
  unfolding all_ixs
  signed t none = []
  signed t (some blockhash) = new_signed_with_payer (all_ixs t) blockhash ∷ []

  -- The signature, if the transaction was sent, the cache afterwards, and what the node was handed.
  pub build_and_send :
      Task Instruction
      → Fetch Hash
      → Option (CachedBlockhash Hash)
      → Option Signature × Option (CachedBlockhash Hash) × List Transaction
  unfolding all_ixs signed get_or_refresh_blockhash
  build_and_send t f cache =
      let (found, cache') = get_or_refresh_blockhash f cache in
      (
        found >>= λ blockhash. send_transaction (new_signed_with_payer (all_ixs t) blockhash),
        cache',
        signed t found,
      )

  unfoldable pub finish :
      Task Instruction
      → Fetch Hash
      → TxState Hash Transaction
      → Option Signature × TxState Hash Transaction
  unfolding build_and_send count_result
  finish t f s =
      let (result, cache, handed) = build_and_send t f s.blockhash_cache in
      (
        result,
        record {
          blockhash_cache = cache;
          consecutive_failures = count_result result s.consecutive_failures;
          submitted = s.submitted ++ handed;
        },
      )

  -- `TxSender::send_now`
  unfoldable pub send_now :
      TxSender
      → List Instruction
      → TxPriority
      → ℕ
      → Fetch Hash
      → TxState Hash Transaction
      → Option Signature × TxState Hash Transaction
  unfolding fee_of finish
  send_now tx instructions priority cu_limit f s =
      if tx.shadow_mode
      then (some default_signature, s)
      else finish
          (record { instructions = instructions; fee = fee_of tx priority; cu_limit = cu_limit }) f
          s
