-- ===== src/Base/Keys.antt =====
-- Types with an equality test, and dictionaries as association lists.
use Prim.Native.Nat.{ℕ}
use mathlib.Core.Path.{◌≡◌}
use mathlib.Core.Logic.{◌↔◌}
use mathlib.Core.Bool.{Bool, true, false, ◌||◌}
use mathlib.Core.Option.{Option, none, some}
use mathlib.Core.List.{List, [], ◌∷◌}
use archer_market_maker.Base.Tests.{if◌then◌else◌, ◌==◌, ==_iff}

pub record Eq (K : Type 0) : Type 0 where
  pub same : K → K → Bool
  pub same_iff : (a b : K) → (same a b ≡ true) ↔ (a ≡ b)

instance abbrev pub nat_eq : Eq ℕ
nat_eq = record { same = ◌==◌; same_iff = ==_iff }

module _ {K : Type 0} ⦃e : Eq K⦄ where
  open e use {same, same_iff}

  abbrev pub contains : List K → K → Bool
  contains [] k = false
  contains (x ∷ xs) k = same x k || contains xs k

  module _ {V : Type 0} where
    abbrev pub lookup : K → List (K × V) → Option V
    lookup k [] = none
    lookup k ((j, v) ∷ m) = if same j k then some v else lookup k m

    -- The newest entry of a key counts.
    abbrev pub insert : K → V → List (K × V) → List (K × V)
    insert k v m = (k, v) ∷ m

    abbrev pub contains_key : List (K × V) → K → Bool
    contains_key m k = elim (lookup k m) [ none ↦ false | some v ↦ true ]
