-- ===== src/Lib.antt =====
-- The Archer market maker, a trading bot that keeps quotes on an on-chain order book: its engine,
-- strategy, price feed, subscriptions, transaction sender and commands, from the Rust sources under
-- src/.
--
-- How the parts interact. The price feed (src/feed.rs) takes best prices from an exchange, crosses
-- two pairs if so configured, keeps a volatility tracker (src/volatility.rs) and publishes a mid
-- price. The subscriptions (src/fills.rs) follow the maker's book on chain: inventory, mid and
-- sequence number. Both write the shared state (src/state.rs), field by field. The engine
-- (src/engine.rs) wakes on a price or on a heartbeat, asks the strategy (src/strategy.rs) for a decision, builds its
-- instructions (src/archer/quote.rs) and hands them to the transaction sender (src/tx.rs), which
-- counts failures for the engine to see. The commands (src/main.rs) load a configuration
-- (src/config.rs), read the chain and send single transactions through the client
-- (src/archer/client.rs); `run` is the one that starts the engine.
--
-- Which file models what.
--   Base         lists and tests over native numbers, 64-bit words, signed integers, dictionaries,
--                texts, sorting, results with an error
--   Float        what the program does with f64, as a parameter
--   Sdk          what the program uses of archer-sdk, as parameters: the lot, tick and book
--                mathematics, the encoders of book writes, and that the program on chain reads back
--                from an instruction what an encoder was given (`Decoding`)
--   Volatility   src/volatility.rs: new, push, realized_vol (its loop is sum_returns, its last lines
--                are deviation), realized_vol_bps
--   Quote        src/archer/quote.rs: BookAuthority, build_book_update, the instructions
--   Strategy     src/strategy.rs: vol_multiplier, compute (ladder, hash_of, keep_structure, rebuild),
--                quantize, structure_hash
--   Tx           src/tx.rs: send_now, fire, get_or_refresh_blockhash, build_and_send; a spawned task
--                is a value that `finish` completes
--   Engine       src/engine.rs: run_engine, where `cycle` is one round of the loop and `run` the loop;
--                Engine/State holds the local variables (Engine), what a round reads (Reads) and
--                what it sends (Send)
--   Feed         src/feed.rs: parse_binance_book_ticker, handle_tick, run_feed; Feed/State holds the data
--   Fills        src/fills.rs: decode_fill, handle_logs, record_fill, handle_account, run_once,
--                run_fills; Fills/Endpoint: ws_url_from_rpc
--   Config       src/config.rs: the settings and validate_config; Config/Loading: load_config,
--                load_markets_context, resolve_path; Config/Defaults: the defaults of serde
--   Client       src/archer/client.rs: send_instructions and get_token_symbols; Client/Accounts:
--                get_all_markets, get_maker_books_for_market; Client/Metadata:
--                read_u32, read_borsh_string, parse_metaplex_symbol, parse_token2022_symbol
--   Commands     src/main.rs: init, set-delegate, set-expiry, deposit and kill; Commands/Withdraw:
--                cmd_withdraw; Commands/Table: print_table; Commands/Markets: cmd_markets_list;
--                Commands/View: cmd_markets_view; Commands/Status: cmd_status;
--                Commands/Run: resolve_run_identity and cmd_run up to the start of the engine;
--                Commands/Cli: the command line (Cli, MarketsCommand of src/config.rs) and main;
--                Commands/Chain: what the commands use of files, the node and the sdk, as parameters
--   System       src/state.rs and the tasks that cmd_run spawns: System/State has SharedState, its new
--                and the single stores of the tasks; System/Bot the state of a running bot and the
--                loads of the engine; System/Step the steps of its tasks, in any order
--   Concrete     a concrete sdk and configuration; the Examples files hold the tests
--
-- State and concurrency. A function that mutates its object returns the new state. The engine reads
-- shared fields that other tasks write at any moment, so each load and each reading of the clock in
-- a round is an input of its own: an interleaving with the other tasks is a choice of these inputs.
-- System makes that choice explicit: a step of the bot is one store of the feed or of the
-- subscriptions, one load of the engine, the end of a send, a move of the chain, or the act
-- of the engine once it has loaded. A guard may end a round before its last load; the loads that are
-- then left over change nothing. The fields are relaxed atomics; their stores are taken to be seen in
-- one order, and no theorem rests on the order of two fields. The counters of the engine are stored
-- with its act. What a round fires is a task from then on, which completes or, when the process
-- ends, is dropped; what it awaits is answered by send_now or dropped by the timeout at shutdown. A
-- send that is dropped may have handed the node its transaction before. The transactions that the
-- node was handed and the results that the sender counted are recorded for the theorems alone.
-- A loop that ends only when it is told to is a function on the list of what its
-- rounds meet. In the sender the cache as it stands once the write lock is held is an input too, and
-- in System so is the cache that a send found before.
--
-- Numbers. A u64 or usize wraps at 2 ^ 64, as in a release build; saturating and checked operations
-- are written out. An index out of bounds, a remainder by zero and an error of the sdk are `none`.
-- A new tracker of 2 ^ 60 places or more is a panic too: a vector of f64 cannot hold them. Memory is
-- taken as unlimited below that. The theorems on sequence numbers take the book's number to be below
-- 2 ^ 64 by more than 5000, the lead of 4096 and the writes of a round. Two loops run on fuel: the walk over the extensions of a mint has
-- one more than the bytes there are, since each extension takes at least four; the wait for a first
-- price has 151, since it gives up after 15 seconds of 100 milliseconds each.
-- The client's send_instructions is given the key pair that signs, where the source has a slice and
-- panics on an empty one: every caller passes one.
--
-- Not modelled: in src/main.rs the end of `run`, the layout of printed lines, the balances that
-- `status` prints and the lines before a command's last; in src/archer/client.rs the reads of
-- single accounts, which are calls of the sdk; the parser of the command line; log output; the subscribe
-- message and pongs of the feed. The rounding of f64 is not modelled: floats are a parameter, with
-- no laws assumed but where a theorem names them as hypotheses.
pub mod Base
pub mod Float
pub mod Sdk
pub mod Volatility
pub mod Feed
pub mod Fills
pub mod Quote
pub mod Strategy
pub mod Tx
pub mod Engine
pub mod Config
pub mod Client
pub mod Commands
pub mod System
pub mod Concrete
