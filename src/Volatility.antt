-- ===== src/Volatility.antt =====
-- src/volatility.rs: `VolatilityTracker`, a ring buffer of prices and the realized volatility of its
-- log returns. `none` stands for a panic (an index out of bounds, or `%` by zero).
pub mod Window
pub mod Push
pub mod Returns
pub mod History
mod Examples
use archer_market_maker.Base.{
  ℕ, zero, suc, ◌+◌, ◌-◌, List, Option, some, Bool, not, ◌||◌, ltb, leb, none, ◌^◌, if◌then◌else◌,
  get_elem?, replicate, ◌>>=◌, add_u64, checked_mod, checked_set,
}
use archer_market_maker.Float.{F64}

pub record VolatilityTracker (F : Type 0) : Type 0 where
  pub prices : List F
  pub head : ℕ
  pub count : ℕ
  pub capacity : ℕ

module _ {F : Type 0} ⦃fl : F64 F⦄ where
  open fl use {of_u64, add, sub, mul, div, fmax, ln, sqrt, le, is_finite}

  -- The tracker that `new` builds.
  abbrev pub empty_tracker : ℕ → VolatilityTracker F
  empty_tracker window = record {
    prices = replicate window (of_u64 0);
    head = 0;
    count = 0;
    capacity = window;
  }

  -- `VolatilityTracker::new`: a vector of more than `isize::MAX` bytes, eight for each place, panics.
  pub new : ℕ → Option (VolatilityTracker F)
  new window = if leb (2 ^ 60) window then none else some (empty_tracker window)

  -- `!price.is_finite() || price <= 0.0`
  unfoldable pub is_rejected : F → Bool
  is_rejected price = not (is_finite price) || le price (of_u64 0)

  -- `VolatilityTracker::push`
  unfoldable pub push : VolatilityTracker F → F → Option (VolatilityTracker F)
  unfolding is_rejected
  push t price = if is_rejected price then some t else (do
    prices ← checked_set t.prices t.head price
    head ← checked_mod (add_u64 t.head 1) t.capacity
    some (record {
      prices = prices;
      head = head;
      count = if ltb t.count t.capacity then add_u64 t.count 1 else t.count;
      capacity = t.capacity;
    }))

  -- The `for` loop of `realized_vol`, from round `i` with `rounds` to go.
  pub sum_returns :
      VolatilityTracker F → (rounds i start : ℕ) → (prev sum sum_sq : F) → Option (F × F)
  sum_returns t zero i start prev sum sum_sq = some (sum, sum_sq)
  sum_returns t (suc rounds) i start prev sum sum_sq = do
    idx ← checked_mod (add_u64 start i) t.capacity
    cur ← get_elem? t.prices idx
    let lr = ln (div cur prev)
    sum_returns t rounds (i + 1) start cur (add sum lr) (add sum_sq (mul lr lr))

  -- The last three lines of `realized_vol`.
  pub deviation : ℕ → F → F → F
  deviation n_returns sum sum_sq =
      let mean = div sum (of_u64 n_returns) in
      let variance = sub (div sum_sq (of_u64 n_returns)) (mul mean mean) in
      sqrt (fmax variance (of_u64 0))

  -- `VolatilityTracker::realized_vol`
  unfoldable pub realized_vol : VolatilityTracker F → Option F
  unfolding sum_returns deviation
  realized_vol t =
      let n_returns = t.count - 1 in
      let start = if ltb t.count t.capacity then 0 else t.head in
      if ltb t.count 2 then some (of_u64 0) else (do
        first ← checked_mod start t.capacity
        prev ← get_elem? t.prices first
        (sum, sum_sq) ← sum_returns t (t.count - 1) 1 start prev (of_u64 0) (of_u64 0)
        some (deviation n_returns sum sum_sq))

  -- `VolatilityTracker::realized_vol_bps`
  unfoldable pub realized_vol_bps : VolatilityTracker F → Option F
  unfolding realized_vol
  realized_vol_bps t = do vol ← realized_vol t; some (mul vol (of_u64 10_000))
