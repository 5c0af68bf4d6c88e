-- ===== src/Base/Text.antt =====
-- Texts as lists of characters, which are numbers.
use Prim.Native.Nat.{ℕ, zero, suc, ◌+◌, ◌/◌, ◌%◌}
use Prim.Native.Char.{code}
use Prim.Native.String.{String}
use mathlib.Core.Path.{◌≡◌, refl}
use mathlib.Core.Bool.{Bool, true, false, ◌&&◌, ◌||◌}
use mathlib.Core.Option.{Option, none, some}
use mathlib.Core.List.{List, [], ◌∷◌, ◌++◌}
use native.Mathlib.Omega.{arith}
use archer_market_maker.Base.Tests.{ltb, if◌then◌else◌, ◌==◌, ==_iff}
use archer_market_maker.Base.Keys.{Eq}

abbrev pub Text : Type 0
Text = List ℕ

abbrev pub codes : String → Text
codes String.[] = []
codes (String.◌∷◌ c s) = code c ∷ codes s

abbrev pub same_text : Text → Text → Bool
same_text [] [] = true
same_text [] (d ∷ t) = false
same_text (c ∷ s) [] = false
same_text (c ∷ s) (d ∷ t) = (c == d) && same_text s t

and_both : (a b : Bool) → (a && b) ≡ true → (a ≡ true) × (b ≡ true)
and_both true b e = (refl, e)
and_both false b e = ground arith

pub same_text→≡ : (s t : Text) → same_text s t ≡ true → s ≡ t
same_text→≡ [] [] e = refl
same_text→≡ [] (d ∷ t) e = ground arith
same_text→≡ (c ∷ s) [] e = ground arith
same_text→≡ (c ∷ s) (d ∷ t) e =
    let (eq, rest) = and_both (c == d) (same_text s t) e in
    cc ((==_iff c d).0 eq, same_text→≡ s t rest)

pub same_text_self : (s : Text) → same_text s s ≡ true
same_text_self [] = refl
same_text_self (c ∷ s) = rw ((==_iff c c).1 refl) (same_text_self s)

instance abbrev pub text_eq : Eq Text
text_eq = record {
  same = same_text;
  same_iff = λ s t. (same_text→≡ s t, λ e. rw e (same_text_self t));
}

-- `strip_prefix`
abbrev pub strip_prefix : Text → Text → Option Text
strip_prefix [] s = some s
strip_prefix (c ∷ p) [] = none
strip_prefix (c ∷ p) (d ∷ s) = let rest = strip_prefix p s in if c == d then rest else none

pub strip_prefix-append : (p s : Text) → strip_prefix p (p ++ s) ≡ some s
strip_prefix-append [] s = refl
strip_prefix-append (c ∷ p) s = rw ((==_iff c c).1 refl) (strip_prefix-append p s)

-- That the comparison of two texts is not `Greater`.
abbrev pub text_le : Text → Text → Bool
text_le [] t = true
text_le (c ∷ s) [] = false
text_le (c ∷ s) (d ∷ t) = ltb c d || ((c == d) && text_le s t)

pub text_le_total : (s t : Text) → text_le s t ≡ false → text_le t s ≡ true
text_le_total [] t e = ground arith
text_le_total (c ∷ s) [] e = refl
text_le_total (c ∷ s) (d ∷ t) e = let rest = text_le_total s t in ground arith

pub text_le_trans : (s t u : Text) → text_le s t ≡ true → text_le t u ≡ true → text_le s u ≡ true
text_le_trans [] t u p q = refl
text_le_trans (c ∷ s) [] u p q = ground arith
text_le_trans (c ∷ s) (d ∷ t) [] p q = ground arith
text_le_trans (c ∷ s) (d ∷ t) (e ∷ u) p q = let rest = text_le_trans s t u in ground arith

-- The decimal digits of a number, with room for `fuel` of them.
abbrev pub digits : (fuel n : ℕ) → Text
digits zero n = []
digits (suc fuel) n =
    let rest = digits fuel (n / 10) in
    if ltb n 10 then (48 + n) ∷ [] else rest ++ ((48 + n % 10) ∷ [])

-- `to_string` of a 64-bit number, which has at most 20 digits.
abbrev pub to_decimal : ℕ → Text
to_decimal n = digits 20 n
