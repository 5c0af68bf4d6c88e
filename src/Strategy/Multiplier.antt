-- ===== src/Strategy/Multiplier.antt =====
-- How far volatility can widen the spreads, under the laws of `f64::max` and `f64::min`.
use mathlib.Core.Path.{subst}
use archer_market_maker.Base.{◌≡◌, sym, ◌⊎◌, inl, inr}
use archer_market_maker.Float.{F64}
use archer_market_maker.Strategy.{Strategy, vol_multiplier}

-- What `f64::max` and `f64::min` are documented to do: `max` with a number is a number that is not
-- below it, also where the other argument is a NaN, and `min` of two numbers is one of them and not
-- above the second.
pub record AreBounds {F : Type 0} ⦃fl : F64 F⦄ (number : F → Type 0) (Le : F → F → Type 0)
    : Type 0 where
  pub number-one : number (fl.of_u64 1)
  pub number-fmax : (a b : F) → number b → number (fl.fmax a b)
  pub le-fmax : (a b : F) → number b → Le b (fl.fmax a b)
  pub fmin-chooses : (a b : F) → number a → number b → (fl.fmin a b ≡ a) ⊎ (fl.fmin a b ≡ b)
  pub fmin-le : (a b : F) → number a → number b → Le (fl.fmin a b) b

module _ {F : Type 0} ⦃fl : F64 F⦄ (number : F → Type 0) (Le : F → F → Type 0)
    (bounds : AreBounds number Le) where
  open fl use {of_u64, div, fmax}

  -- Whatever the volatility and its baseline are, even where their quotient is no number, the
  -- multiplier of the spreads is between one and the largest that is configured, if that is a number
  -- and not below one: spreads are never narrowed, and never widened beyond the limit.
  pub vol_multiplier_bounds :
      (s : Strategy F) (volatility_bps : F)
      → number s.config.vol_max_multiplier
      → Le (of_u64 1) s.config.vol_max_multiplier
      → Le (of_u64 1) (vol_multiplier s volatility_bps)
        × Le (vol_multiplier s volatility_bps) s.config.vol_max_multiplier
  unfolding vol_multiplier
  vol_multiplier_bounds s volatility_bps num above =
      let raw = fmax (div volatility_bps s.config.vol_baseline_bps) (of_u64 1) in
      let raw_num =
        bounds.number-fmax (div volatility_bps s.config.vol_baseline_bps) (of_u64 1)
          bounds.number-one in
      (
        elim (bounds.fmin-chooses raw s.config.vol_max_multiplier raw_num num) [
          | inl e ↦ subst (Le (of_u64 1)) (sym e) (
              bounds.le-fmax (div volatility_bps s.config.vol_baseline_bps) (of_u64 1)
                bounds.number-one)
          | inr e ↦ subst (Le (of_u64 1)) (sym e) above
        ],
        bounds.fmin-le raw s.config.vol_max_multiplier raw_num num,
      )
