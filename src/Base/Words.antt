-- ===== src/Base/Words.antt =====
-- Unsigned 64-bit arithmetic. Releases of the program are built without overflow checks, so `+`
-- wraps as `wrapping_add` does; `saturating_sub` is the subtraction of ℕ.
use Prim.Native.Nat.{ℕ, zero, suc, ◌+◌, ◌*◌, ◌%◌, ◌^◌, min}
use archer_market_maker.Base.Tests.{ltb, if◌then◌else◌}
use mathlib.Core.Option.{Option, none, some}

abbrev pub u64_mod : ℕ
u64_mod = 2 ^ 64

abbrev pub add_u64 : ℕ → ℕ → ℕ
add_u64 a b = (a + b) % u64_mod

abbrev pub mul_u64 : ℕ → ℕ → ℕ
mul_u64 a b = a * b % u64_mod

abbrev pub saturating_mul_u64 : ℕ → ℕ → ℕ
saturating_mul_u64 a b = min (a * b) 18446744073709551615

-- `x % n`, which panics (`none`) at `n == 0`.
abbrev pub checked_mod : ℕ → ℕ → Option ℕ
checked_mod x zero = none
checked_mod x (suc n) = some (x % suc n)

-- `checked_add`
abbrev pub checked_add_u64 : ℕ → ℕ → Option ℕ
checked_add_u64 a b = if ltb (a + b) u64_mod then some (a + b) else none
