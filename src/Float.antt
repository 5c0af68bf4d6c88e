-- ===== src/Float.antt =====
-- All that the program does with an `f64`: the constants, arithmetic, comparisons and conversions
-- that it calls. Floats are a parameter of the model: a type `F` with these operations. A literal
-- such as `10_000.0` is `of_u64 10_000`.
use archer_market_maker.Base.{ℕ, ◌+◌, ◌-◌, ◌*◌, ◌/◌, Bool, true, min, max, ltb, leb}

pub record F64 (F : Type 0) : Type 0 where
  pub of_u64 : ℕ → F
  pub half : F
  pub add : F → F → F
  pub sub : F → F → F
  pub mul : F → F → F
  pub div : F → F → F
  pub fmax : F → F → F
  pub fmin : F → F → F
  pub round : F → F
  pub ln : F → F
  pub sqrt : F → F
  -- the cast `as u64`, which saturates
  pub to_u64 : F → ℕ
  pub lt : F → F → Bool
  pub le : F → F → Bool
  pub is_finite : F → Bool

-- Millionths as a stand-in for `f64` in tests: no negative values, no NaN, and a coarse logarithm.
abbrev pub Micro : Type 0
Micro = ℕ

instance abbrev pub micro : F64 Micro
micro = record {
  of_u64 = λ n. n * 1000000;
  half = 500000;
  add = λ a b. a + b;
  sub = λ a b. a - b;
  mul = λ a b. a * b / 1000000;
  div = λ a b. a * 1000000 / b;
  fmax = max;
  fmin = min;
  round = λ a. (a + 500000) / 1000000 * 1000000;
  ln = λ a. a - 1000000;
  sqrt = λ a. a;
  to_u64 = λ a. a / 1000000;
  lt = ltb;
  le = leb;
  is_finite = λ a. true;
}
