-- ===== src/System/Bot.antt =====
-- The state of a running bot: the shared state of src/state.rs, what each task has still to store,
-- the sends in flight, and how far the engine is with the loads of its cycle.
use archer_market_maker.Base.{ℕ, List, [], ◌∷◌, Option, none, some, Bool, false}
use archer_market_maker.Float.{F64}
use archer_market_maker.Sdk.{QuoteMath, Encoders}
use archer_market_maker.Volatility.{VolatilityTracker, new}
use archer_market_maker.Feed.State.{FeedSettings, Legs, Texts}
use archer_market_maker.Feed.{no_legs}
use archer_market_maker.Fills.{BookState, Codecs}
use archer_market_maker.Tx.{TxSender, Rpc, Task, fire}
use archer_market_maker.Engine.State.{
  EngineConfig, Engine, heartbeat, Reads, Send, fired, awaited, Flow, again,
}
use archer_market_maker.Engine.{start}
use archer_market_maker.System.State.{SharedState, new_state, with_book_state, with_counters, Store}

-- What `cmd_run` gives its tasks.
pub record Setup (F Text Hash Market Quotes Pubkey Instruction Transaction Signature S : Type 0)
    : Type 0 where
  pub sdk : QuoteMath F Market Quotes S
  pub enc : Encoders Pubkey Instruction S
  pub market : Market
  pub engine_config : EngineConfig F Pubkey
  pub texts : Texts F Text
  pub feed_settings : FeedSettings Text
  pub codecs : Codecs Text
  pub rpc : Rpc Hash Instruction Transaction Signature
  pub tx_sender : TxSender

-- The next load of a cycle of the engine, in the order of the source.
pub data Point : Type 0 where
  at_wake : Point
  at_cancelled : Point
  at_failures : Point
  at_sleep : Point
  at_clock : Point
  at_timestamp : Point
  at_timestamp_again : Point
  at_mid : Point
  at_sequence : Point
  at_cached_mid : Point
  at_volatility : Point
  at_base : Point
  at_quote : Point
  at_send_clock : Point
  at_end : Point

-- What a cycle reads that is not in the shared state: the clock and the cancellation token.
pub record Outside : Type 0 where
  pub now_us : ℕ
  pub is_cancelled : Bool

abbrev pub next : Point → Point
next at_wake = at_wake
next at_cancelled = at_failures
next at_failures = at_sleep
next at_sleep = at_clock
next at_clock = at_timestamp
next at_timestamp = at_timestamp_again
next at_timestamp_again = at_mid
next at_mid = at_sequence
next at_sequence = at_cached_mid
next at_cached_mid = at_volatility
next at_volatility = at_base
next at_base = at_quote
next at_quote = at_send_clock
next at_send_clock = at_end
next at_end = at_end

-- A load of the engine.
abbrev pub load : {F : Type 0} → Point → SharedState F → Outside → Reads F → Reads F
load at_wake s o r = r
load at_cancelled s o r = record r { cancelled_after_wake = o.is_cancelled }
load at_failures s o r = record r { consecutive_failures = s.consecutive_failures }
load at_sleep s o r = record r { cancelled_in_sleep = o.is_cancelled }
load at_clock s o r = record r { now_us = o.now_us }
load at_timestamp s o r = record r { price_timestamp_us = s.price_timestamp_us }
load at_timestamp_again s o r = record r { price_timestamp_us_again = s.price_timestamp_us }
load at_mid s o r = record r { mid_price = s.mid_price }
load at_sequence s o r = record r { onchain_sequence_number = s.onchain_sequence_number }
load at_cached_mid s o r = record r { cached_mid_ticks = s.cached_mid_ticks }
load at_volatility s o r = record r { volatility_bps = s.volatility_bps }
load at_base s o r = record r { base_total_lots = s.base_total_lots }
load at_quote s o r = record r { quote_total_lots = s.quote_total_lots }
load at_send_clock s o r = record r { now_us_at_send = o.now_us }
load at_end s o r = r

pub record Bot (F Instruction Transaction Signature : Type 0) : Type 0 where
  pub shared : SharedState F
  -- the feed: its tracker, unless making it has panicked and ended the feed, the legs of its
  -- connection, and what it has still to store
  pub vol_tracker : Option (VolatilityTracker F)
  pub legs : Legs F
  pub feed_todo : List (Store F)
  -- what the subscriptions have still to store
  pub fills_todo : List (Store F)
  -- the sends that were spawned and are in flight, and those that the engine waits for
  pub tasks : List (Task Instruction)
  pub awaiting : List (Send Instruction)
  -- the engine: its state before the cycle, what the cycle has read, and its next load
  pub engine : Engine
  pub reads : Reads F
  pub point : Point
  pub flow : Flow
  -- the last sequence number of the book on chain
  pub chain_seq : ℕ
  -- what finished cycles have read, what they have sent, the transactions that the node was handed,
  -- and the results that the sender has counted
  pub history : List (Reads F)
  pub sent : List (Send Instruction)
  pub submitted : List Transaction
  pub results : List (Option Signature)

-- The task that a send spawns, if any: a send that is waited for spawns none.
abbrev pub task_of :
    {Instruction : Type 0} → TxSender → Send Instruction → Option (Task Instruction)
task_of tx (fired ixs priority cu) = fire tx ixs priority cu
task_of tx (awaited ixs priority cu) = none

abbrev and_task :
    {Instruction : Type 0}
    → Option (Task Instruction)
    → List (Task Instruction)
    → List (Task Instruction)
and_task none ts = ts
and_task (some t) ts = t ∷ ts

abbrev pub tasks_of :
    {Instruction : Type 0} → TxSender → List (Send Instruction) → List (Task Instruction)
tasks_of tx [] = []
tasks_of tx (s ∷ ss) = and_task (task_of tx s) (tasks_of tx ss)

-- The sends among these that the engine waits for.
abbrev pub awaited_of : {Instruction : Type 0} → List (Send Instruction) → List (Send Instruction)
awaited_of [] = []
awaited_of (fired ixs priority cu ∷ ss) = awaited_of ss
awaited_of (awaited ixs priority cu ∷ ss) = awaited ixs priority cu ∷ awaited_of ss

module _ {F : Type 0} ⦃fl : F64 F⦄ where
  abbrev no_reads : Reads F
  no_reads = record {
    wake = heartbeat;
    cancelled_after_wake = false;
    consecutive_failures = 0;
    cancelled_in_sleep = false;
    now_us = 0;
    price_timestamp_us = 0;
    price_timestamp_us_again = 0;
    mid_price = fl.of_u64 0;
    onchain_sequence_number = 0;
    cached_mid_ticks = 0;
    volatility_bps = fl.of_u64 0;
    base_total_lots = 0;
    quote_total_lots = 0;
    now_us_at_send = 0;
  }

  -- The bot when its tasks are spawned: the shared state has the book that `cmd_run` has
  -- read, and the engine counts as alive.
  abbrev pub boot :
      {Instruction Transaction Signature : Type 0}
      → (vol_window_secs : ℕ) → BookState
      → Bot F Instruction Transaction Signature
  boot vol_window_secs book_state = record {
    shared =
        with_counters (start book_state.onchain_sequence_number)
          (with_book_state book_state new_state);
    vol_tracker = new vol_window_secs;
    legs = no_legs;
    feed_todo = [];
    fills_todo = [];
    tasks = [];
    awaiting = [];
    engine = start book_state.onchain_sequence_number;
    reads = no_reads;
    point = at_wake;
    flow = again;
    chain_seq = book_state.onchain_sequence_number;
    history = [];
    sent = [];
    submitted = [];
    results = [];
  }
