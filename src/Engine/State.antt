-- ===== src/Engine/State.antt =====
-- The constants of src/engine.rs, the state of its loop, what a cycle reads and what it sends.
use archer_market_maker.Base.{ℕ, List, Bool, add_u64}
use archer_market_maker.Quote.{BookAuthority}
use archer_market_maker.Strategy.{Strategy}
use archer_market_maker.Tx.{TxPriority}

abbrev pub cu_clear_book : ℕ
cu_clear_book = 650

abbrev pub cu_mid_only : ℕ
cu_mid_only = 850

abbrev pub cu_full_update : ℕ
cu_full_update = 5600

abbrev pub max_local_seq_lead : ℕ
max_local_seq_lead = 4_096

-- `MID_RESEND_AFTER`, in microseconds.
abbrev pub mid_resend_after : ℕ
mid_resend_after = 2_000_000

pub record EngineConfig (F Pubkey : Type 0) : Type 0 where
  pub strategy : Strategy F
  pub authority : BookAuthority Pubkey
  pub market_pubkey : Pubkey
  pub staleness_us : ℕ

-- The local variables of `run_engine`, and the shared fields that only it writes.
pub record Engine : Type 0 where
  pub last_structure_hash : ℕ
  pub last_sent_mid_ticks : ℕ
  pub last_sent_at_us : ℕ
  pub needs_initial_book : Bool
  pub local_seq : ℕ
  pub engine_alive : Bool
  pub cycles_total : ℕ
  pub updates_sent : ℕ
  pub mid_only_updates : ℕ
  pub book_updates : ℕ
  pub clear_book_sends : ℕ
  pub heartbeat_sends : ℕ

-- Which arm of the first `select!` runs.
pub data Wake : Type 0 where
  cancelled price heartbeat : Wake

-- What a cycle reads, in the order of the source.
pub record Reads (F : Type 0) : Type 0 where
  pub wake : Wake
  pub cancelled_after_wake : Bool
  pub consecutive_failures : ℕ
  pub cancelled_in_sleep : Bool
  pub now_us : ℕ
  pub price_timestamp_us : ℕ
  pub price_timestamp_us_again : ℕ
  pub mid_price : F
  pub onchain_sequence_number : ℕ
  pub cached_mid_ticks : ℕ
  pub volatility_bps : F
  pub base_total_lots : ℕ
  pub quote_total_lots : ℕ
  pub now_us_at_send : ℕ

-- `tx_sender.fire` and `tx_sender.send_now`, with their arguments.
pub data Send (Instruction : Type 0) : Type 0 where
  fired : List Instruction → TxPriority → ℕ → Send Instruction
  awaited : List Instruction → TxPriority → ℕ → Send Instruction

-- Whether the loop goes on after a cycle.
pub data Flow : Type 0 where
  again stopped panicked : Flow

-- `cycles_total.fetch_add(1)`
abbrev pub count_cycle : Engine → Engine
count_cycle e = record e { cycles_total = add_u64 e.cycles_total 1 }
