-- ===== src/System/Trace.antt =====
-- A bot that sees a book with number 44 and a price of 100, wakes, quotes, and has its send land.
use archer_market_maker.Base.{
  ℕ, ◌≡◌, ◌≤◌, refl, List, [], ◌∷◌, none, some, true, false, arith, add_u64,
}
use mathlib.Core.Option.{some-injective}
use mathlib.Core.Path.{subst}
use archer_market_maker.Float.{Micro, micro}
use archer_market_maker.Sdk.{Write}
use archer_market_maker.Concrete.{encoders, Quotes, sdk, config, texts, codecs, node, sender}
use archer_market_maker.Fills.{BookState, binary, book_of}
use archer_market_maker.Feed.State.{Feed}
use archer_market_maker.Feed.{
  on_text, legs_after, parse_binance_book_ticker, take_quote, publish, prices_of, handle_tick,
  notify, no_legs,
}
use archer_market_maker.Volatility.{
  push, is_rejected, realized_vol, realized_vol_bps, empty_tracker,
}
use archer_market_maker.Volatility.History.{new-built}
use archer_market_maker.System.Stores.{feed_of}
use archer_market_maker.Quote.{clear_book_ix}
use archer_market_maker.Tx.{Fetch, emergency}
use archer_market_maker.Engine.State.{price, cancelled, cu_clear_book}
use archer_market_maker.Engine.{cycle, on_wake, shut_down}
use archer_market_maker.System.State.{
  Store, account_stores, text_stores, do_store, publish_stores, tick_stores,
}
use archer_market_maker.System.Bot.{Setup, Bot, Outside, boot}
use archer_market_maker.System.Step.{
  feed_text, account_seen, chain_moves, awaited_completes, engine_wakes, engine_acts, Reach, here,
  then_step, waked, cycled, answered,
}
use archer_market_maker.System.Drains.{
  feed_stored, fills_stored, loaded, Reach-feed_stored, Reach-fills_stored, Reach-loaded,
}

abbrev pub setup : Setup Micro ℕ ℕ Unit Quotes ℕ (Write ℕ ℕ) (List (Write ℕ ℕ) × ℕ) ℕ ℕ
setup = record {
  sdk = sdk;
  enc = encoders;
  market = tt;
  engine_config = config false;
  texts = texts;
  feed_settings = record {
    binance_symbol = 5;
    cross_symbol = 0;
    binance_ws_url = 6;
    staleness_timeout_ms = 5000;
  };
  codecs = codecs;
  rpc = node;
  tx_sender = sender;
}

abbrev pub book : BookState
book = record {
  fills_count = 0;
  fill_base_lots = 0;
  fill_quote_lots = 0;
  base_total_lots = 50000;
  quote_total_lots = 5000000;
  cached_mid_ticks = 99990;
  onchain_sequence_number = 41;
  book_resyncs = 0;
  quote_unfundable = false;
}

abbrev pub ABot : Type 0
ABot = Bot Micro (Write ℕ ℕ) (List (Write ℕ ℕ) × ℕ) ℕ

-- The chain is at 44, and the subscription has stored that book.
abbrev pub informed : ABot
informed =
    fills_stored (account_stores codecs (binary 44)) (record (boot 2 book) { chain_seq = 44 })

pub informed-Reach : Reach setup (boot 2 book) informed
unfolding book_of
informed-Reach =
    Reach-fills_stored setup (record (boot 2 book) { chain_seq = 44 })
      (account_stores codecs (binary 44))
      (then_step (then_step here (chain_moves (boot 2 book) 44 (omega arith))) (
        account_seen (record (boot 2 book) { chain_seq = 44 }) (binary 44) refl
          λ b e.
            subst (λ k. k.last_updated_sequence_number ≤ 44) (some-injective _ _ e) (omega arith)))

-- What the feed is left with after message 5.
abbrev pub ticked : Feed Micro
ticked = record {
  published = record {
    mid_price = 100000002;
    price_timestamp_us = 8999000;
    volatility_bps = 0;
    feed_alive = true;
    price_notify = true;
  };
  vol_tracker = record { prices = 100000002 ∷ 0 ∷ []; head = 1; count = 1; capacity = 2 };
}

abbrev pub heard : ABot
heard = record informed {
  vol_tracker = some ticked.vol_tracker;
  legs = record { primary_bid = 100000000; primary_ask = 100000005; cross_bid = 0; cross_ask = 0 };
}

abbrev pub the_text : List (Store Micro)
the_text = text_stores texts setup.feed_settings informed.legs 5 8999000 ticked

pub on_five :
    on_text texts setup.feed_settings informed.legs
      (feed_of informed.shared (empty_tracker 2))
      5
      8999000
    ≡ some (heard.legs, ticked)
unfolding on_text legs_after parse_binance_book_ticker take_quote publish prices_of handle_tick
    notify push is_rejected realized_vol realized_vol_bps no_legs
on_five = refl

abbrev pub told : ABot
told = feed_stored the_text heard

pub told-Reach : Reach setup (boot 2 book) told
told-Reach = Reach-feed_stored setup heard the_text (
    then_step informed-Reach (
      feed_text informed (empty_tracker 2) 5 8999000 heard.legs ticked (new-built 2 (omega arith))
        refl on_five))

abbrev pub outside : Outside
outside = record { now_us = 9000000; is_cancelled = false }

-- The bot before and after its engine acts on the price.
abbrev pub full : ABot
full = loaded 13 outside (waked setup told price)

pub full-Reach : Reach setup (boot 2 book) full
unfolding do_store text_stores publish_stores tick_stores legs_after parse_binance_book_ticker
    take_quote prices_of
full-Reach =
    Reach-loaded setup 13 outside (waked setup told price)
      (then_step told-Reach (engine_wakes told price refl refl refl))

abbrev pub acted : ABot
acted = cycled setup full

pub acted-Reach : Reach setup (boot 2 book) acted
acted-Reach = then_step full-Reach (engine_acts full refl refl)

-- The bot that is cancelled instead, once its clear has failed: the node does not answer.
abbrev pub unplugged : ABot
unplugged = cycled setup (loaded 13 outside (waked setup told cancelled))

abbrev clear : List (Write ℕ ℕ)
clear = clear_book_ix encoders (config false).authority 3 42 ∷ []

abbrev pub no_answer : Fetch ℕ
no_answer = record {
  at_read = 9100000;
  cache_at_write = none;
  at_write = 9100000;
  latest_blockhash = none;
  at_answer = 9200000;
}

abbrev pub failed : ABot
failed = answered setup unplugged clear emergency cu_clear_book [] no_answer none

pub failed-Reach : Reach setup (boot 2 book) failed
unfolding cycle on_wake shut_down
failed-Reach =
    then_step
      (then_step
        (Reach-loaded setup 13 outside (waked setup told cancelled)
          (then_step told-Reach (engine_wakes told cancelled refl refl tt)))
        (engine_acts (loaded 13 outside (waked setup told cancelled)) refl refl))
      (awaited_completes unplugged clear emergency cu_clear_book [] no_answer none refl)

abbrev an_answer : Fetch ℕ
an_answer = record {
  at_read = 9100000;
  cache_at_write = none;
  at_write = 9100000;
  latest_blockhash = some 8;
  at_answer = 9200000;
}

-- A bot in shadow mode that is cancelled before it has seen a price, and waits for its clear.
abbrev pub shadowed : Setup Micro ℕ ℕ Unit Quotes ℕ (Write ℕ ℕ) (List (Write ℕ ℕ) × ℕ) ℕ ℕ
shadowed = record setup { tx_sender = record { priority_fee = 100; shadow_mode = true } }

module _ (vol_window : ℕ) (state : BookState) where
  abbrev closing : ABot
  closing = cycled shadowed (loaded 13 outside (waked shadowed (boot vol_window state) cancelled))

  abbrev last_clear : List (Write ℕ ℕ)
  last_clear =
      clear_book_ix encoders (config false).authority 3 (add_u64 state.onchain_sequence_number 1)
      ∷ []

  -- What is left once its sender has answered.
  abbrev pub hidden : ABot
  hidden = answered shadowed closing last_clear emergency cu_clear_book [] an_answer none

  pub hidden-Reach : Reach shadowed (boot vol_window state) hidden
  unfolding cycle on_wake shut_down
  hidden-Reach =
      let b = waked shadowed (boot vol_window state) cancelled in
      then_step
        (then_step
          (Reach-loaded shadowed 13 outside b
            (then_step here (engine_wakes (boot vol_window state) cancelled refl refl tt)))
          (engine_acts (loaded 13 outside b) refl refl))
        (awaited_completes closing last_clear emergency cu_clear_book [] an_answer none refl)
