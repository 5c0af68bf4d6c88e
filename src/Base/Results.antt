-- ===== src/Base/Results.antt =====
-- Results with an error, for do blocks.
use mathlib.Core.Path.{◌≡◌, refl}
use mathlib.Core.Option.{Option, none, some}

pub data Result (E A : Type 0) : Type 0 where
  ok : A → Result E A
  err : E → Result E A

infixl 5 ◌>>=◌
abbrev pub ◌>>=◌ : {E A B : Type 0} → Result E A → (A → Result E B) → Result E B
ok a >>= f = f a
err e >>= f = err e

module _ {E A : Type 0} where
  -- `.context(..)?`
  abbrev pub context : E → Option A → Result E A
  context e none = err e
  context e (some a) = ok a

  -- `.map_err(..)?`
  abbrev pub map_err : {E' : Type 0} → (E → E') → Result E A → Result E' A
  map_err f (ok a) = ok a
  map_err f (err e) = err (f e)

-- A chain that succeeds has succeeded at each step.
pub bind_ok :
    {E A B : Type 0} (r : Result E A) (f : A → Result E B) (b : B)
    → (r >>= f) ≡ ok b
    → (a : A) × (r ≡ ok a) × (f a ≡ ok b)
bind_ok (ok a) f b e = (a, refl, e)
bind_ok (err e') f b e = absurd (cc)

pub context_ok : {E A : Type 0} (e : E) (o : Option A) (a : A) → context e o ≡ ok a → o ≡ some a
context_ok e none a p = absurd (cc)
context_ok e (some a') a p = cc

pub map_err_ok :
    {E E' A : Type 0} (f : E → E') (r : Result E A) (a : A) → map_err f r ≡ ok a → r ≡ ok a
map_err_ok f (ok a') a p = cc
map_err_ok f (err e) a p = absurd (cc)

pub ok_injective : {E A : Type 0} (a b : A) → ◌≡◌ {A = Result E A} (ok a) (ok b) → a ≡ b
ok_injective a b p = cc

pub err_not_ok : {E A : Type 0} (e : E) (a : A) → ◌≡◌ {A = Result E A} (err e) (ok a) → ⊥
err_not_ok e a p = cc

-- A chain that fails at its first step fails with that error.
pub bind_err :
    {E A B : Type 0} (r : Result E A) (f : A → Result E B) (e : E) → r ≡ err e → (r >>= f) ≡ err e
bind_err (ok a) f e h = absurd (cc)
bind_err (err e') f e h = cc
