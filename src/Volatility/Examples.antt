-- ===== src/Volatility/Examples.antt =====
-- Runs of the volatility tracker on concrete prices, over millionths.
use archer_market_maker.Base.{◌≡◌, refl, some, List, [], ◌∷◌, ◌>>=◌, arith, take_last}
use archer_market_maker.Float.{Micro, micro}
use archer_market_maker.Volatility.{VolatilityTracker, new, is_rejected, realized_vol}
use archer_market_maker.Volatility.Push.{IsValid, samples}
use archer_market_maker.Volatility.Returns.{std_dev}
use archer_market_maker.Volatility.History.{push_all, accepted, realized_vol_history}

-- Three places; 101 and 103 came after 99, which 104 has overwritten.
abbrev wrapped : VolatilityTracker Micro
wrapped = record {
  prices = 104000000 ∷ 101000000 ∷ 103000000 ∷ [];
  head = 1;
  count = 3;
  capacity = 3;
}

wrapped-IsValid : IsValid wrapped
wrapped-IsValid = record {
  storage = refl;
  small = omega arith;
  head_in = omega arith;
  count_in = omega arith;
  filling = λ h. absurd (omega arith);
}

samples-wrapped : samples wrapped ≡ 101000000 ∷ 103000000 ∷ 104000000 ∷ []
samples-wrapped = refl

abbrev ticks : List Micro
ticks = 100000000 ∷ 0 ∷ 101000000 ∷ 103000000 ∷ 104000000 ∷ []

accepted-ticks : take_last 3 (accepted ticks) ≡ 101000000 ∷ 103000000 ∷ 104000000 ∷ []
unfolding is_rejected
accepted-ticks = refl

realized_vol_history_example :
    (new 3 >>= λ t. (push_all t ticks >>= realized_vol))
    ≡ some (std_dev (take_last 3 (accepted ticks)))
realized_vol_history_example = realized_vol_history 3 ticks (omega arith) (omega arith)
