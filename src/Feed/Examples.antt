-- ===== src/Feed/Examples.antt =====
-- A feed on concrete messages: a text is a number, and message `n` quotes symbol `n`.
use archer_market_maker.Base.{inl}
use archer_market_maker.Feed.{no_legs}
use archer_market_maker.Feed.Messages.{AreLegs, legs_after-AreLegs}
use archer_market_maker.Base.{ℕ, ◌≡◌, refl, ◌⊎◌, List, [], ◌∷◌, none, some, Bool, false, arith, All}
use archer_market_maker.Float.{Micro, micro}
use archer_market_maker.Concrete.{texts}
use archer_market_maker.Volatility.{empty_tracker}
use archer_market_maker.Volatility.Push.{IsValid}
use archer_market_maker.Volatility.History.{empty_tracker-IsValid}
use archer_market_maker.Feed.State.{
  FeedSettings, Feed, Legs, cancelled, text, closed, ping, Attempt, refused, subscribe_failed,
  connected, Turn,
}
use archer_market_maker.Feed.{legs_after, on_text, use_cross, run_feed}
use archer_market_maker.Feed.Publish.{Publishes, on_text_lem}
use archer_market_maker.Feed.Backoff.{IsPatient, run_feed-IsPatient}

-- The cross leg is symbol 8.
abbrev settings : FeedSettings ℕ
settings = record {
  binance_symbol = 7;
  cross_symbol = 8;
  binance_ws_url = 6;
  staleness_timeout_ms = 5000;
}

abbrev feed : Feed Micro
feed = record {
  published = record {
    mid_price = 0;
    price_timestamp_us = 0;
    volatility_bps = 0;
    feed_alive = false;
    price_notify = false;
  };
  vol_tracker = empty_tracker 60;
}

abbrev legs : Legs Micro
legs = record { primary_bid = 0; primary_ask = 0; cross_bid = 0; cross_ask = 0 }

abbrev attempts : List (Bool × Attempt ℕ)
attempts =
    (false, refused)
    ∷ (false, connected (text 7 10 ∷ text 8 20 ∷ ping ∷ closed ∷ []))
    ∷ (false, subscribe_failed)
    ∷ (false, connected (text 9 30 ∷ cancelled ∷ []))
    ∷ []

on_text_lem_example :
    (l' : Legs Micro) × (state' : Feed Micro) × (on_text texts settings legs feed 7 10
      ≡ some (l', state'))
    × IsValid state'.vol_tracker
    × (((legs_after texts settings legs 7 ≡ none) × (l' ≡ legs) × (state' ≡ feed))
        ⊎ ((legs_after texts settings legs 7 ≡ some l')
            × Publishes (use_cross texts settings) l' 10 feed state'))
on_text_lem_example =
    on_text_lem texts settings legs feed 7 10 (empty_tracker-IsValid 60 (omega arith) (omega arith))

abbrev after : Legs Micro
after = record legs { primary_bid = 140000000; primary_ask = 140000005 }

changes : legs_after texts settings legs 7 ≡ some after
unfolding legs_after
changes = refl

run_feed-IsPatient_example :
    (state' : Feed Micro) × (turns : List Turn) × (run_feed texts settings feed 100 attempts
      ≡ some (state', turns))
    × IsValid state'.vol_tracker
    × All IsPatient turns
run_feed-IsPatient_example =
    run_feed-IsPatient texts settings feed 100 attempts
      (empty_tracker-IsValid 60 (omega arith) (omega arith)) (omega arith, omega arith)

legs_after-AreLegs_example : AreLegs {F = Micro} no_legs × AreLegs after
legs_after-AreLegs_example =
    legs_after-AreLegs texts settings legs 7 (inl (refl, refl), inl (refl, refl)) changes
