-- ===== src/Strategy.antt =====
-- src/strategy.rs: the quoting decision of a cycle. `none` stands for a panic.
pub mod Decisions
pub mod Requote
pub mod Hash
pub mod Multiplier
mod Examples
use archer_market_maker.Base.{
  ℕ, List, [], ◌∷◌, ◌++◌, foldl, Option, none, some, Bool, true, false, not, ◌&&◌, ◌||◌, ltb, ◌==◌,
  if◌then◌else◌, ◌>>=◌, length, is_empty, get_elem?, add_u64, mul_u64,
}
use archer_market_maker.Float.{F64}
use archer_market_maker.Sdk.{BookUpdate, QuoteMath}
use archer_market_maker.Quote.{build_book_update}

pub data QuoteDecision (S : Type 0) : Type 0 where
  noop : QuoteDecision S
  clear_book : QuoteDecision S
  update_mid_only : ℕ → QuoteDecision S
  update_full : BookUpdate S → ℕ → QuoteDecision S

pub record StrategySettings (F : Type 0) : Type 0 where
  pub spread_levels_bps : List F
  pub inventory_pct : F
  pub vol_window : ℕ
  pub vol_baseline_bps : F
  pub vol_max_multiplier : F

pub record Strategy (F : Type 0) : Type 0 where
  pub config : StrategySettings F
  pub is_lo : Bool

-- A `Quote` of the sdk: a price and a size.
pub record Quote (F : Type 0) : Type 0 where
  pub price : F
  pub size : F

-- The four vectors that the loop over the spread levels fills.
pub record Ladder (F : Type 0) : Type 0 where
  pub bids : List (Quote F)
  pub asks : List (Quote F)
  pub bid_sizes_q : List ℕ
  pub ask_sizes_q : List ℕ

abbrev pub multiplier : ℕ
multiplier = 6_364_136_223_846_793_005

-- One round of `structure_hash`: `h.wrapping_mul(multiplier).wrapping_add(s)`.
abbrev pub mix : ℕ → ℕ → ℕ
mix h s = add_u64 (mul_u64 h multiplier) s

module _ {F : Type 0} ⦃fl : F64 F⦄ where
  open fl use {of_u64, add, sub, mul, div, fmax, fmin, round, to_u64, lt, le, is_finite}

  pub structure_hash : (num_levels : ℕ) (bid_sizes_q ask_sizes_q : List ℕ) → F → ℕ → ℕ
  structure_hash num_levels bid_sizes_q ask_sizes_q spread_bps price_anchor =
      let after_bids = foldl mix num_levels bid_sizes_q in
      let after_asks = foldl (λ h s. mix h (add_u64 s 1)) after_bids ask_sizes_q in
      mix (mix after_asks (to_u64 (round (mul spread_bps (of_u64 10))))) price_anchor

  pub quantize : F → F
  quantize v = div (round (mul v (of_u64 100))) (of_u64 100)

  pub vol_multiplier : Strategy F → F → F
  vol_multiplier s volatility_bps =
      let raw = fmax (div volatility_bps s.config.vol_baseline_bps) (of_u64 1) in
      fmin raw s.config.vol_max_multiplier

  -- The body of the loop over the spread levels.
  pub add_level : (mid_price vol_mult ask_size bid_size : F) → Ladder F → F → Ladder F
  unfolding quantize
  add_level mid_price vol_mult ask_size bid_size l spread_bps =
      let effective_spread = mul spread_bps vol_mult in
      let ask_q = quantize ask_size in
      let bid_q = quantize bid_size in
      let ask : Quote F = record {
        price = mul mid_price (add (of_u64 1) (div effective_spread (of_u64 10_000)));
        size = ask_size;
      } in
      let bid : Quote F = record {
        price = mul mid_price (sub (of_u64 1) (div effective_spread (of_u64 10_000)));
        size = bid_size;
      } in
      record {
        bids = if lt (of_u64 0) bid_q then l.bids ++ (bid ∷ []) else l.bids;
        asks = if lt (of_u64 0) ask_q then l.asks ++ (ask ∷ []) else l.asks;
        bid_sizes_q = l.bid_sizes_q ++ (to_u64 (round (mul bid_q (of_u64 100))) ∷ []);
        ask_sizes_q = l.ask_sizes_q ++ (to_u64 (round (mul ask_q (of_u64 100))) ∷ []);
      }

  pub empty_ladder : Ladder F
  empty_ladder = record { bids = []; asks = []; bid_sizes_q = []; ask_sizes_q = [] }

module _ {F Market Quotes S : Type 0} ⦃fl : F64 F⦄ (sdk : QuoteMath F Market Quotes S) where
  open fl use {of_u64, mul, div, lt, le, is_finite}
  open sdk use {
    base_lots_to_amount, quote_lots_to_amount, price_to_ticks, no_quotes, with_bid, with_ask,
  }

  -- The sizes of a level, and the loop over the spread levels.
  pub ladder : Strategy F → Market → (mid_price : F) (base_lots quote_lots : ℕ) → F → Ladder F
  unfolding add_level empty_ladder vol_multiplier
  ladder s config mid_price base_total_lots quote_total_lots volatility_bps =
      let vol_mult = vol_multiplier s volatility_bps in
      let num_levels = length s.config.spread_levels_bps in
      let pct_per_level = div (div s.config.inventory_pct (of_u64 100)) (of_u64 num_levels) in
      let available_base = base_lots_to_amount base_total_lots config in
      let available_quote = quote_lots_to_amount quote_total_lots config in
      let quote_as_base =
        if lt (of_u64 0) mid_price then div available_quote mid_price else of_u64 0 in
      foldl
        (add_level mid_price vol_mult (mul available_base pct_per_level)
          (mul quote_as_base pct_per_level))
        empty_ladder s.config.spread_levels_bps

  -- `unwrap_or(0)` on the tick of a limit-order book; 0 for a market-maker book.
  pub price_anchor : Strategy F → Market → F → ℕ
  price_anchor s config mid_price =
      if s.is_lo then elim (price_to_ticks mid_price config) [ none ↦ 0 | some t ↦ t ] else 0

  -- The branch for an unchanged structure.
  pub keep_structure : Strategy F → Market → F → QuoteDecision S
  keep_structure s config mid_price =
      if s.is_lo
      then noop
      else elim (price_to_ticks mid_price config) [ none ↦ clear_book | some t ↦ update_mid_only t ]

  -- The mid that a full update refers to; `none` is the early return with `ClearBook`.
  pub reference_mid_ticks : Market → F → ℕ → Option ℕ
  reference_mid_ticks config mid_price cached_mid_ticks =
      if ltb 0 cached_mid_ticks
      then some cached_mid_ticks
      else (price_to_ticks mid_price config >>= λ t. if ltb 0 t then some t else none)

  pub two_sided : Ladder F → Quotes
  two_sided l =
      let with_bids = foldl (λ q (b : Quote F). with_bid q b.price b.size) no_quotes l.bids in
      foldl (λ q (a : Quote F). with_ask q a.price a.size) with_bids l.asks

  -- The `match` on the result of `build_book_update`, `none` also for the early return before it.
  pub rebuilt : ℕ → Option (BookUpdate S) → QuoteDecision S
  rebuilt new_hash none = clear_book
  rebuilt new_hash (some book_update) = update_full book_update new_hash

  -- The branch for a changed structure.
  pub rebuild : Strategy F → Market → F → ℕ → Ladder F → ℕ → QuoteDecision S
  unfolding reference_mid_ticks two_sided rebuilt
  rebuild s config mid_price cached_mid_ticks l new_hash = rebuilt new_hash (
      reference_mid_ticks config mid_price cached_mid_ticks >>= λ reference.
      build_book_update sdk (two_sided l) reference config s.is_lo)

  -- `new_hash`
  pub hash_of : Strategy F → Market → F → Ladder F → F → ℕ
  unfolding price_anchor structure_hash
  hash_of s config mid_price l tightest_spread =
      structure_hash (length s.config.spread_levels_bps) l.bid_sizes_q l.ask_sizes_q tightest_spread
        (price_anchor s config mid_price)

  -- `Strategy::compute` past its first guard, given the tightest spread.
  pub decide :
      Strategy F → F → ℕ → ℕ → Market → (base_lots quote_lots : ℕ) → F → F → QuoteDecision S
  unfolding ladder hash_of keep_structure rebuild
  decide s mid_price cached_mid_ticks last_hash config base_lots quote_lots vol tightest_spread =
      let l = ladder s config mid_price base_lots quote_lots vol in
      let new_hash = hash_of s config mid_price l tightest_spread in
      if is_empty l.bids && is_empty l.asks
      then clear_book
      else (if new_hash == last_hash && not (last_hash == 0)
          then keep_structure s config mid_price
          else rebuild s config mid_price cached_mid_ticks l new_hash)

  -- `Strategy::compute`
  unfoldable pub compute :
      Strategy F
      → F
      → ℕ
      → ℕ
      → Market
      → (base_lots quote_lots : ℕ) → F
      → Option (QuoteDecision S × F)
  unfolding decide vol_multiplier
  compute s mid_price cached_mid_ticks last_hash config base_lots quote_lots vol =
      if not (is_finite mid_price) || le mid_price (of_u64 0)
      then some (clear_book, of_u64 0)
      else (do
        tightest ← get_elem? s.config.spread_levels_bps 0
        let tightest_spread = mul tightest (vol_multiplier s vol)
        some (
          decide s mid_price cached_mid_ticks last_hash config base_lots quote_lots vol
              tightest_spread,
          tightest_spread,
        ))
