-- ===== src/Prelude/Sort.antt =====
-- Python's `sorted`, for an order in which two items that stand below each other are equal.
use mathlib.Core.Bool.{Bool, true, false}
use mathlib.Core.Path.{◌≡◌, refl, ap, ◌∙◌}
use mathlib.Core.Logic.{inl, inr}
use mathlib.Core.List.{List, [], ◌∷◌}
use native.Mathlib.Omega.{arith}
use aios_tools.Prelude.Tests.{if◌then◌else◌, Bool-cases}
use aios_tools.Prelude.Lists.{All}

-- The same items, as often, in any order.
pub data Reordered {A : Type 0} : List A → List A → Type 0 where
  same : {xs : List A} → Reordered xs xs
  skip : {x : A} {xs ys : List A} → Reordered xs ys → Reordered (x ∷ xs) (x ∷ ys)
  swap : {x y : A} {xs : List A} → Reordered (x ∷ y ∷ xs) (y ∷ x ∷ xs)
  join : {xs ys zs : List A} → Reordered xs ys → Reordered ys zs → Reordered xs zs

pub record IsOrder {A : Type 0} (le : A → A → Bool) : Type 0 where
  pub total : (a b : A) → le a b ≡ false → le b a ≡ true
  pub transitive : (a b c : A) → le a b ≡ true → le b c ≡ true → le a c ≡ true
  pub antisymmetric : (a b : A) → le a b ≡ true → le b a ≡ true → a ≡ b

module _ {A : Type 0} (le : A → A → Bool) where
  insert : A → List A → List A
  insert a [] = a ∷ []
  insert a (b ∷ xs) = if le a b then a ∷ b ∷ xs else b ∷ insert a xs

  unfoldable pub sorted : List A → List A
  unfolding insert
  sorted [] = []
  sorted (x ∷ xs) = insert x (sorted xs)

  -- Every item stands below all that follow it.
  abbrev pub IsSorted : List A → Type 0
  IsSorted [] = Unit
  IsSorted (x ∷ xs) = All (λ y. le x y ≡ true) xs × IsSorted xs

  insert-Reordered : (a : A) (xs : List A) → Reordered (a ∷ xs) (insert a xs)
  unfolding insert
  insert-Reordered a [] = same
  insert-Reordered a (b ∷ xs) =
      elim (le a b) as (λ c. Reordered (a ∷ b ∷ xs) (if c then a ∷ b ∷ xs else b ∷ insert a xs)) [
        | true ↦ same
        | false ↦ join swap (skip (insert-Reordered a xs))
      ]

  insert-first : (a : A) (xs : List A) → All (λ y. le a y ≡ true) xs → insert a xs ≡ a ∷ xs
  unfolding insert
  insert-first a [] h = refl
  insert-first a (b ∷ xs) h = rw h.0 refl

  -- A sorted list stays as it is.
  pub sorted_of_IsSorted : (xs : List A) → IsSorted xs → sorted xs ≡ xs
  unfolding sorted
  sorted_of_IsSorted [] h = refl
  sorted_of_IsSorted (x ∷ xs) h = ap (insert x) (sorted_of_IsSorted xs h.1) ∙ insert-first x xs h.0

  insert_filled : (a : A) (xs : List A) → insert a xs ≡ [] → ⊥
  unfolding insert
  insert_filled a [] h = absurd (ground arith)
  insert_filled a (b ∷ xs) h = absurd (ground arith)

  -- Nothing is lost: only the empty list sorts to the empty list.
  pub sorted_empty : (xs : List A) → sorted xs ≡ [] → xs ≡ []
  unfolding sorted
  sorted_empty [] h = refl
  sorted_empty (x ∷ xs) h = absurd (insert_filled x (sorted xs) h)

  pub sorted-Reordered : (xs : List A) → Reordered xs (sorted xs)
  unfolding sorted
  sorted-Reordered [] = same
  sorted-Reordered (x ∷ xs) = join (skip (sorted-Reordered xs)) (insert-Reordered x (sorted xs))

  module _ (order : IsOrder le) where
    All-insert :
        (a b : A) (xs : List A)
        → le a b ≡ true
        → All (λ y. le a y ≡ true) xs
        → All (λ y. le a y ≡ true) (insert b xs)
    unfolding insert
    All-insert a b [] h k = (h, tt)
    All-insert a b (c ∷ xs) h k = ground (arith, All-insert a b xs h k.1)

    All-below :
        (a b : A) (xs : List A)
        → le a b ≡ true
        → All (λ y. le b y ≡ true) xs
        → All (λ y. le a y ≡ true) xs
    All-below a b [] h k = tt
    All-below a b (c ∷ xs) h k = (order.transitive a b c h k.0, All-below a b xs h k.1)

    insert-IsSorted : (a : A) (xs : List A) → IsSorted xs → IsSorted (insert a xs)
    unfolding insert
    insert-IsSorted a [] h = (tt, tt)
    insert-IsSorted a (b ∷ xs) h = elim (Bool-cases (le a b)) [
      | inl e ↦ rw e ((e, All-below a b xs e h.0), h)
      | inr e ↦ rw e (All-insert b a xs (order.total a b e) h.0, insert-IsSorted a xs h.1)
    ]

    pub sorted-IsSorted : (xs : List A) → IsSorted (sorted xs)
    unfolding sorted
    sorted-IsSorted [] = tt
    sorted-IsSorted (x ∷ xs) = insert-IsSorted x (sorted xs) (sorted-IsSorted xs)

    insert_comm : (a b : A) (xs : List A) → insert a (insert b xs) ≡ insert b (insert a xs)
    unfolding insert
    insert_comm a b [] = ground (arith, order.total a b, order.total b a, order.antisymmetric a b)
    insert_comm a b (c ∷ xs) = ground (
      arith,
      insert_comm a b xs,
      order.total a b,
      order.total b a,
      order.antisymmetric a b,
      order.transitive a b c,
      order.transitive b a c,
    )

    -- The order of the input does not matter.
    pub sorted_of_Reordered : {xs ys : List A} → Reordered xs ys → sorted xs ≡ sorted ys
    unfolding sorted
    sorted_of_Reordered same = refl
    sorted_of_Reordered (skip {x = x} r) = ap (insert x) (sorted_of_Reordered r)
    sorted_of_Reordered (swap {x = x} {y = y} {xs = xs}) = insert_comm x y (sorted xs)
    sorted_of_Reordered (join r s) = sorted_of_Reordered r ∙ sorted_of_Reordered s
