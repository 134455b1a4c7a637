-- ===== src/Prelude/Results.antt =====
-- A call that returns or raises: the error is a value.
use mathlib.Core.Path.{◌≡◌, refl}
use mathlib.Core.Bool.{Bool, true, false}
use mathlib.Core.Logic.{◌⊎◌, inl, inr}

pub data Result {ℓ} (E A : Type ℓ) : Type ℓ where
  ok : A → Result E A
  err : E → Result E A

infixl 5 ◌>>=◌ ◌>>◌
abbrev pub ◌>>=◌ {ℓ} : {E A B : Type ℓ} → Result E A → (A → Result E B) → Result E B
ok a >>= f = f a
err e >>= f = err e

abbrev pub ◌>>◌ : {E B : Type 0} → Result E Unit → Result E B → Result E B
m >> k = m >>= λ _. k

-- `if condition: raise error`
abbrev pub raise_if : {E : Type 0} → Bool → E → Result E Unit
raise_if true e = err e
raise_if false e = ok tt

-- A guard that was passed.
pub guard_passed :
    {E B : Type 0} (b : Bool) (e : E) (k : Result E B) {a : B}
    → (raise_if b e >> k) ≡ ok a
    → (b ≡ false) × (k ≡ ok a)
guard_passed true e k h = cc
guard_passed false e k h = (refl, h)

-- The step before a call that returned has returned.
pub step_returned :
    {E A B : Type 0} (m : Result E A) (k : A → Result E B) {b : B}
    → (m >>= k) ≡ ok b
    → (a : A) × (m ≡ ok a) × (k a ≡ ok b)
step_returned (ok a) k h = (a, refl, h)
step_returned (err e) k h = cc

-- A call that returns or raises, with its equation.
pub Result-cases :
    {E A : Type 0} (m : Result E A) → ((a : A) × (m ≡ ok a)) ⊎ ((e : E) × (m ≡ err e))
Result-cases (ok a) = inl (a, refl)
Result-cases (err e) = inr (e, refl)
