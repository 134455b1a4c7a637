-- ===== src/Prelude/Equality.antt =====
-- Python's `==` and `in` as an interface: a Boolean test that decides equality of values.
use Prim.Native.Nat.{ℕ, compare, Ordering}
use Prim.Native.String.{String}
use mathlib.Core.Path.{◌≡◌, refl}
use mathlib.Core.Logic.{◌↔◌}
use mathlib.Core.Bool.{Bool, true, false, ◌||◌}
use mathlib.Core.List.{List, [], ◌∷◌, ◌++◌}
use native.Mathlib.Omega.{arith}
use text.Mathlib.Text.{◌==◌ as str_eq}
use text.Mathlib.TextEquality.{eq_iff as str_eq_iff}
use aios_tools.Prelude.Tests.{if◌then◌else◌}

-- A type whose values the program compares.
pub record Eq {ℓ} (K : Type ℓ) : Type ℓ where
  pub test : K → K → Bool
  pub test_iff : (x y : K) → (test x y ≡ true) ↔ (x ≡ y)

abbrev pub nat_test : ℕ → ℕ → Bool
nat_test m n = elim (compare m n) [ Ordering.eq ↦ true | _ ↦ false ]

pub nat_test_iff : (m n : ℕ) → (nat_test m n ≡ true) ↔ (m ≡ n)
nat_test_iff m n = ground arith

instance abbrev pub string_eq : Eq String
string_eq = record { test = str_eq; test_iff = str_eq_iff }

instance abbrev pub nat_eq : Eq ℕ
nat_eq = record { test = nat_test; test_iff = nat_test_iff }

infix 50 ◌==◌
abbrev pub ◌==◌ {ℓ} : {K : Type ℓ} ⦃key : Eq K⦄ → K → K → Bool
◌==◌ ⦃key⦄ = key.test

module _ {ℓ} {A : Type ℓ} ⦃e : Eq A⦄ where
  pub eq_refl : (a : A) → (a == a) ≡ true
  eq_refl a = (e.test_iff a a).1 refl

  pub eq→path : (a b : A) → (a == b) ≡ true → a ≡ b
  eq→path a b = (e.test_iff a b).0

  -- `a in xs`
  unfoldable pub contains : List A → A → Bool
  contains [] item = false
  contains (first ∷ others) item = first == item || contains others item

  -- No value stands twice: `len(xs) == len(set(xs))`.
  unfoldable pub all_distinct : List A → Bool
  unfolding contains
  all_distinct [] = true
  all_distinct (x ∷ xs) = if contains xs x then false else all_distinct xs

  pub contains-append :
      (xs ys : List A) (a : A) → contains (xs ++ ys) a ≡ (contains xs a || contains ys a)
  unfolding contains
  contains-append [] ys a = refl
  contains-append (x ∷ xs) ys a = ground (arith, contains-append xs ys a)

  pub all_distinct-snoc :
      (xs : List A) (a : A)
      → all_distinct xs ≡ true
      → contains xs a ≡ false
      → all_distinct (xs ++ a ∷ []) ≡ true
  unfolding all_distinct contains
  all_distinct-snoc [] a h n = refl
  all_distinct-snoc (x ∷ xs) a h n =
      ground (
        arith,
        all_distinct-snoc xs a,
        contains-append xs (a ∷ []) x,
        e.test_iff x a,
        e.test_iff a x,
      )
