-- ===== src/Concrete.antt =====
-- A concrete sdk and configuration for the tests: prices in millionths, ticks of a thousandth, an
-- instruction that is what the program reads from it, and a book of absolute ticks.
use archer_market_maker.Base.{
  ℕ, ◌+◌, ◌*◌, ◌/◌, refl, List, [], ◌∷◌, map, foldl, max, none, some, Bool, true, false, ◌==◌,
  if◌then◌else◌,
}
use archer_market_maker.Feed.State.{Texts}
use archer_market_maker.Fills.{Codecs}
use archer_market_maker.Tx.{Rpc, TxSender}
use archer_market_maker.Base.Int.{sub_ℕ}
use archer_market_maker.Float.{Micro}
use archer_market_maker.Sdk.{
  Level, QuoteMath, Encoders, Write, update_mid, clear, update_book, Decoding,
}
use archer_market_maker.Strategy.{Strategy}
use archer_market_maker.Engine.State.{EngineConfig, Reads, price}

abbrev pub encoders : Encoders ℕ (Write ℕ ℕ) ℕ
encoders = record {
  derive_maker_book = λ market maker. market * 1000 + maker;
  create_update_mid_price_instruction = update_mid;
  create_clear_book_instruction = clear;
  create_update_book_instruction = update_book;
}

abbrev pub decoding : Decoding encoders
decoding = record {
  decode = λ w. w;
  decode-mid = λ signer book ticks seq. refl;
  decode-clear = λ signer book seq. refl;
  decode-book = λ signer market book mid bids asks seq. refl;
}

-- Prices and sizes of the bids and of the asks.
abbrev pub Quotes : Type 0
Quotes = List (ℕ × ℕ) × List (ℕ × ℕ)

abbrev pub level : ℕ → ℕ × ℕ → Level ℕ
level reference (at, size) = record {
  price_offset_ticks = sub_ℕ (at / 1000) reference;
  rest = size;
}

abbrev pub sdk : QuoteMath Micro Unit Quotes ℕ
sdk = record {
  base_lots_to_amount = λ lots market. lots * 1000;
  quote_lots_to_amount = λ lots market. lots * 1000;
  price_to_ticks = λ p market. some (p / 1000);
  no_quotes = ([], []);
  with_bid = λ (bids, asks) p size. ((p, size) ∷ bids, asks);
  with_ask = λ (bids, asks) p size. (bids, (p, size) ∷ asks);
  build_levels = λ (bids, asks) reference market. some (record {
    new_mid_price_ticks = reference;
    mid_price_changed = false;
    bid_levels = map (level reference) bids;
    ask_levels = map (level reference) asks;
  });
}

abbrev pub strategy : Bool → Strategy Micro
strategy is_lo = record {
  config = record {
    spread_levels_bps = 10000000 ∷ 20000000 ∷ [];
    inventory_pct = 50000000;
    vol_window = 60;
    vol_baseline_bps = 10000000;
    vol_max_multiplier = 3000000;
  };
  is_lo = is_lo;
}

abbrev pub config : Bool → EngineConfig Micro ℕ
config is_lo = record {
  strategy = strategy is_lo;
  authority = record { maker = 7; signer = 7 };
  market_pubkey = 3;
  staleness_us = 5000000;
}

-- A fresh price of 100, a book at sequence number 41, and both inventories stocked.
abbrev pub reads : Reads Micro
reads = record {
  wake = price;
  cancelled_after_wake = false;
  consecutive_failures = 0;
  cancelled_in_sleep = false;
  now_us = 9000000;
  price_timestamp_us = 8999000;
  price_timestamp_us_again = 8999000;
  mid_price = 100000000;
  onchain_sequence_number = 41;
  cached_mid_ticks = 99990;
  volatility_bps = 12000000;
  base_total_lots = 50000;
  quote_total_lots = 5000000;
  now_us_at_send = 9000100;
}

-- The price of `reads` has become stale.
abbrev pub stale_reads : Reads Micro
stale_reads = record reads { now_us = 19000000 }

-- Message 7 quotes the primary leg, 8 the cross leg, 9 is no ticker.
abbrev pub texts : Texts Micro ℕ
texts = record {
  from_str =
      λ n. if n == 9 then none else some (record { s = n; b = n * 20000000; a = n * 20000000 + 5 });
  parse_f64 = some;
  to_uppercase = λ n. n;
  same_text = λ a b. a == b;
  no_text = λ n. n == 0;
}

-- Text `n` is the one byte `n`, which is a book with number `n`; nine zeros are a fill.
abbrev pub codecs : Codecs ℕ
codecs = record {
  program_data = some;
  trim = λ n. n;
  base64_decode = λ n. some (if n == 0 then 0 ∷ 0 ∷ 0 ∷ 0 ∷ 0 ∷ 0 ∷ 0 ∷ 0 ∷ 0 ∷ [] else n ∷ []);
  maker_fill_disc = 0 ∷ 0 ∷ 0 ∷ 0 ∷ 0 ∷ 0 ∷ 0 ∷ 0 ∷ [];
  try_from_slice = λ bytes. some (record { base_lots_filled = 3; quote_lots_filled = 450 });
  parse_maker_book = λ bytes. some (record {
    base_free = 10;
    base_locked = 4;
    quote_free = 900;
    quote_locked = 100;
    mid_price_ticks = 150;
    last_updated_sequence_number = foldl max 0 bytes;
    is_quote_sync_fundable = true;
  });
}

-- A node that takes a transaction exactly if it is signed with blockhash 8. The two instructions on
-- compute units are writes to the books 0 and 1.
abbrev pub node : Rpc ℕ (Write ℕ ℕ) (List (Write ℕ ℕ) × ℕ) ℕ
node = record {
  set_compute_unit_limit = clear 0 0;
  set_compute_unit_price = clear 0 1;
  new_signed_with_payer = λ ixs hash. (ixs, hash);
  send_transaction = λ (ixs, hash). if hash == 8 then some 88 else none;
  default_signature = 0;
}

abbrev pub sender : TxSender
sender = record { priority_fee = 2000; shadow_mode = false }
