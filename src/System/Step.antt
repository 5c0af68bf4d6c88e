-- ===== src/System/Step.antt =====
-- The steps of a running bot, any task at a time: the feed and the subscriptions take a message and
-- then store one field after the other, the chain moves on, a send completes or is dropped, and the
-- engine wakes, loads one field after the other, and acts.
use archer_market_maker.Base.{
  ℕ, ◌≤◌, ◌≡◌, List, [], ◌∷◌, ◌++◌, Option, some, Bool, true, false, if◌then◌else◌,
}
use archer_market_maker.Float.{F64}
use archer_market_maker.Feed.State.{Feed, Legs}
use archer_market_maker.Feed.{no_legs, on_text}
use archer_market_maker.Fills.{MakerBook, RpcLogsResponse, UiAccountData, book_of}
use archer_market_maker.Volatility.{VolatilityTracker}
use archer_market_maker.Tx.{TxPriority, TxState, CachedBlockhash, Fetch, Task, finish, send_now}
use archer_market_maker.Engine.State.{Wake, cancelled, price, heartbeat, again, Send, awaited}
use archer_market_maker.Engine.{cycle}
use archer_market_maker.System.State.{
  with_counters, Store, store_feed_alive, do_store, logs_stores, account_stores, text_stores,
}
use archer_market_maker.System.Stores.{feed_of}
use archer_market_maker.System.Bot.{
  Setup, at_wake, at_cancelled, at_end, Outside, next, load, Bot, tasks_of, awaited_of,
}

module _ {F Text Hash Market Quotes Pubkey Instruction Transaction Signature S : Type 0}
    ⦃fl : F64 F⦄
    (setup : Setup F Text Hash Market Quotes Pubkey Instruction Transaction Signature S) where
  open setup use {sdk, enc, market, engine_config, texts, feed_settings, codecs, rpc, tx_sender}

  -- What a send finds. The cache of blockhashes is there as it found it, whatever other sends have
  -- made of it.
  abbrev pub world_of :
      Bot F Instruction Transaction Signature
      → Option (CachedBlockhash Hash)
      → TxState Hash Transaction
  world_of b cache = record {
    blockhash_cache = cache;
    consecutive_failures = b.shared.consecutive_failures;
    submitted = b.submitted;
  }

  -- The bot with a task out of flight and its result counted.
  abbrev pub landed :
      Bot F Instruction Transaction Signature
      → (before after : List (Task Instruction)) → Task Instruction
      → Fetch Hash
      → Option (CachedBlockhash Hash)
      → Bot F Instruction Transaction Signature
  landed b before after task f cache =
      let (result, world) = finish rpc task f (world_of b cache) in
      record b {
        tasks = before ++ after;
        shared = record b.shared { consecutive_failures = world.consecutive_failures };
        submitted = world.submitted;
        results = b.results ++ (result ∷ []);
      }

  -- The bot with a task dropped in flight, before the node was handed its transaction or after.
  abbrev pub lost :
      Bot F Instruction Transaction Signature
      → (before after : List (Task Instruction)) → Task Instruction
      → Fetch Hash
      → Option (CachedBlockhash Hash)
      → (reached : Bool) → Bot F Instruction Transaction Signature
  lost b before after task f cache reached = record b {
    tasks = before ++ after;
    submitted = if reached then (finish rpc task f (world_of b cache)).1.submitted else b.submitted;
  }

  -- The bot once `send_now` has answered the engine, with its result if it was counted.
  abbrev pub answered :
      Bot F Instruction Transaction Signature
      → List Instruction
      → TxPriority
      → (cu_limit : ℕ) → (rest : List (Send Instruction)) → Fetch Hash
      → Option (CachedBlockhash Hash)
      → Bot F Instruction Transaction Signature
  answered b ixs priority cu_limit rest f cache =
      let (result, world) = send_now rpc tx_sender ixs priority cu_limit f (world_of b cache) in
      record b {
        awaiting = rest;
        shared = record b.shared { consecutive_failures = world.consecutive_failures };
        submitted = world.submitted;
        results = if tx_sender.shadow_mode then b.results else b.results ++ (result ∷ []);
      }

  -- The bot once the engine has stopped waiting for `send_now`, before the node was handed its
  -- transaction or after.
  abbrev pub timed_out :
      Bot F Instruction Transaction Signature
      → List Instruction
      → TxPriority
      → (cu_limit : ℕ) → (rest : List (Send Instruction)) → Fetch Hash
      → Option (CachedBlockhash Hash)
      → (reached : Bool) → Bot F Instruction Transaction Signature
  timed_out b ixs priority cu_limit rest f cache reached = record b {
    awaiting = rest;
    submitted =
        if reached
        then (send_now rpc tx_sender ixs priority cu_limit f (world_of b cache)).1.submitted
        else b.submitted;
  }

  -- The bot after the cycle of its engine.
  abbrev pub cycled :
      Bot F Instruction Transaction Signature → Bot F Instruction Transaction Signature
  cycled b =
      let (engine, sends, flow) = cycle sdk enc market engine_config b.engine b.reads in
      record b {
        shared = with_counters engine b.shared;
        tasks = b.tasks ++ tasks_of tx_sender sends;
        awaiting = b.awaiting ++ awaited_of sends;
        engine = engine;
        flow = flow;
        point = at_wake;
        history = b.history ++ (b.reads ∷ []);
        sent = b.sent ++ sends;
      }

  -- The bot after the engine has waked; a price takes the permit.
  abbrev pub waked :
      Bot F Instruction Transaction Signature → Wake → Bot F Instruction Transaction Signature
  waked b price = record b {
    reads = record b.reads { wake = price };
    point = at_cancelled;
    shared = record b.shared { price_notify = false };
  }
  waked b cancelled = record b { reads = record b.reads { wake = cancelled }; point = at_cancelled }
  waked b heartbeat = record b { reads = record b.reads { wake = heartbeat }; point = at_cancelled }

  -- A price wakes the engine only if a permit is stored.
  abbrev pub MayWake : Bot F Instruction Transaction Signature → Wake → Type 0
  MayWake b price = b.shared.price_notify ≡ true
  MayWake b cancelled = Unit
  MayWake b heartbeat = Unit

  pub data Step
      : Bot F Instruction Transaction Signature
        → Bot F Instruction Transaction Signature
        → Type 0 where
    feed_connected :
        (b : Bot F Instruction Transaction Signature) (tracker : VolatilityTracker F)
        → b.vol_tracker ≡ some tracker
        → b.feed_todo ≡ []
        → Step b (record b { legs = no_legs; feed_todo = store_feed_alive true ∷ [] })
    feed_dropped :
        (b : Bot F Instruction Transaction Signature) (tracker : VolatilityTracker F)
        → b.vol_tracker ≡ some tracker
        → b.feed_todo ≡ []
        → Step b (record b { feed_todo = store_feed_alive false ∷ [] })
    feed_text :
        (b : Bot F Instruction Transaction Signature) (tracker : VolatilityTracker F) (txt : Text)
        (now_us : ℕ) (l : Legs F) (after : Feed F)
        → b.vol_tracker ≡ some tracker
        → b.feed_todo ≡ []
        → on_text texts feed_settings b.legs (feed_of b.shared tracker) txt now_us ≡ some (l, after)
        → Step b (record b {
          vol_tracker = some after.vol_tracker;
          legs = l;
          feed_todo = text_stores texts feed_settings b.legs txt now_us after;
        })
    feed_store :
        (b : Bot F Instruction Transaction Signature) (st : Store F) (rest : List (Store F))
        → b.feed_todo ≡ st ∷ rest
        → Step b (record b { shared = do_store b.shared st; feed_todo = rest })
    logs_seen :
        (b : Bot F Instruction Transaction Signature) (resp : RpcLogsResponse Text)
        → b.fills_todo ≡ []
        → Step b (record b { fills_todo = logs_stores codecs resp })
    -- an account notification shows the book as it is or as it was
    account_seen :
        (b : Bot F Instruction Transaction Signature) (update : UiAccountData Text)
        → b.fills_todo ≡ []
        → ((book : MakerBook)
            → book_of codecs update ≡ some book
            → book.last_updated_sequence_number ≤ b.chain_seq)
        → Step b (record b { fills_todo = account_stores codecs update })
    fills_store :
        (b : Bot F Instruction Transaction Signature) (st : Store F) (rest : List (Store F))
        → b.fills_todo ≡ st ∷ rest
        → Step b (record b { shared = do_store b.shared st; fills_todo = rest })
    -- a write lands, of this bot or of someone else
    chain_moves :
        (b : Bot F Instruction Transaction Signature) (n : ℕ)
        → b.chain_seq ≤ n
        → Step b (record b { chain_seq = n })
    send_completes :
        (b : Bot F Instruction Transaction Signature) (before after : List (Task Instruction))
        (task : Task Instruction) (f : Fetch Hash) (cache : Option (CachedBlockhash Hash))
        → b.tasks ≡ before ++ (task ∷ after)
        → Step b (landed b before after task f cache)
    -- the end of the process drops a spawned send
    send_dropped :
        (b : Bot F Instruction Transaction Signature) (before after : List (Task Instruction))
        (task : Task Instruction) (f : Fetch Hash) (cache : Option (CachedBlockhash Hash))
        (reached : Bool)
        → b.tasks ≡ before ++ (task ∷ after)
        → Step b (lost b before after task f cache reached)
    awaited_completes :
        (b : Bot F Instruction Transaction Signature) (ixs : List Instruction)
        (priority : TxPriority) (cu_limit : ℕ) (rest : List (Send Instruction)) (f : Fetch Hash)
        (cache : Option (CachedBlockhash Hash))
        → b.awaiting ≡ awaited ixs priority cu_limit ∷ rest
        → Step b (answered b ixs priority cu_limit rest f cache)
    -- `SHUTDOWN_CLEAR_TIMEOUT`, or the end of the process
    awaited_dropped :
        (b : Bot F Instruction Transaction Signature) (ixs : List Instruction)
        (priority : TxPriority) (cu_limit : ℕ) (rest : List (Send Instruction)) (f : Fetch Hash)
        (cache : Option (CachedBlockhash Hash)) (reached : Bool)
        → b.awaiting ≡ awaited ixs priority cu_limit ∷ rest
        → Step b (timed_out b ixs priority cu_limit rest f cache reached)
    engine_wakes :
        (b : Bot F Instruction Transaction Signature) (w : Wake)
        → b.point ≡ at_wake
        → b.flow ≡ again
        → MayWake b w
        → Step b (waked b w)
    engine_loads :
        (b : Bot F Instruction Transaction Signature) (o : Outside)
        → Step b (record b { reads = load b.point b.shared o b.reads; point = next b.point })
    engine_acts :
        (b : Bot F Instruction Transaction Signature)
        → b.point ≡ at_end
        → b.flow ≡ again
        → Step b (cycled b)

  -- What a bot can come to, whatever order its tasks run in.
  pub data Reach (first : Bot F Instruction Transaction Signature)
      : Bot F Instruction Transaction Signature → Type 0 where
    here : Reach first first
    then_step :
        {b b' : Bot F Instruction Transaction Signature}
        → Reach first b
        → Step b b'
        → Reach first b'
