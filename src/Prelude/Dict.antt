-- ===== src/Prelude/Dict.antt =====
-- Python's `dict` as an association list: a lookup that may miss, a write in place, a removal.
use mathlib.Core.Path.{◌≡◌, refl}
use mathlib.Core.Option.{Option, none, some}
use mathlib.Core.Bool.{Bool, false, ◌||◌}
use mathlib.Core.List.{List, [], ◌∷◌}
use native.Mathlib.Omega.{arith}
use aios_tools.Prelude.Tests.{if◌then◌else◌}
use aios_tools.Prelude.Equality.{Eq, ◌==◌, contains}

abbrev pub Dict {ℓ} : Type ℓ → Type ℓ → Type ℓ
Dict K V = List (K × V)

module _ {ℓ} {K V : Type ℓ} ⦃e : Eq K⦄ where
  -- `m.get(key)`
  unfoldable pub lookup : K → Dict K V → Option V
  lookup key [] = none
  lookup key ((own, value) ∷ rest) = if own == key then some value else lookup key rest

  -- `m[key] = new`: a key that is there keeps its place
  unfoldable pub insert : K → V → Dict K V → Dict K V
  insert key new ((own, value) ∷ rest) =
      if own == key then (key, new) ∷ rest else (own, value) ∷ insert key new rest
  insert key new [] = (key, new) ∷ []

  -- `m.pop(key, None)`
  unfoldable pub erase : K → Dict K V → Dict K V
  erase key [] = []
  erase key ((own, value) ∷ rest) =
      let others = erase key rest in if own == key then others else (own, value) ∷ others

  pub lookup-insert :
      (key other : K) (new : V) (m : Dict K V)
      → lookup other (insert key new m) ≡ (if key == other then some new else lookup other m)
  unfolding lookup insert
  lookup-insert key other new [] = refl
  lookup-insert key other new ((own, value) ∷ rest) = ground (
    arith,
    lookup-insert key other new rest,
    e.test_iff own key,
    e.test_iff own other,
    e.test_iff key other,
  )

  pub lookup-erase :
      (k j : K) (m : Dict K V) → lookup j (erase k m) ≡ (if k == j then none else lookup j m)
  unfolding lookup erase
  lookup-erase k j [] = ground arith
  lookup-erase k j ((i, w) ∷ m) =
      ground (arith, e.test_iff k j, e.test_iff i k, e.test_iff i j, lookup-erase k j m)

  -- `del m[k]` for every key of a list
  unfoldable pub erase_all : List K → Dict K V → Dict K V
  unfolding erase
  erase_all [] m = m
  erase_all (k ∷ ks) m = erase_all ks (erase k m)

  unfoldable pub has_key : K → Dict K V → Bool
  has_key k [] = false
  has_key k ((j, v) ∷ m) = j == k || has_key k m

  -- No key stands twice, as in every dictionary.
  abbrev pub IsDict : Dict K V → Type 0
  IsDict [] = Unit
  IsDict ((j, v) ∷ m) = (has_key j m ≡ false) × IsDict m

  pub has_key-insert :
      (k j : K) (v : V) (m : Dict K V) → has_key j (insert k v m) ≡ (k == j || has_key j m)
  unfolding has_key insert
  has_key-insert k j v [] = refl
  has_key-insert k j v ((i, w) ∷ m) =
      ground (arith, e.test_iff k j, e.test_iff i k, e.test_iff i j, has_key-insert k j v m)

  pub insert-IsDict : (k : K) (v : V) (m : Dict K V) → IsDict m → IsDict (insert k v m)
  unfolding has_key insert
  insert-IsDict k v [] h = (refl, tt)
  insert-IsDict k v ((i, w) ∷ m) h =
      ground
        (arith, e.test_iff k i, e.test_iff i k, has_key-insert k i v m, insert-IsDict k v m h.1)

  pub has_key-erase : (k j : K) (m : Dict K V) → has_key j m ≡ false → has_key j (erase k m) ≡ false
  unfolding has_key erase
  has_key-erase k j [] h = refl
  has_key-erase k j ((i, w) ∷ m) h = ground (arith, has_key-erase k j m)

  pub erase-IsDict : (k : K) (m : Dict K V) → IsDict m → IsDict (erase k m)
  unfolding has_key erase
  erase-IsDict k [] h = tt
  erase-IsDict k ((i, w) ∷ m) h = ground (arith, has_key-erase k i m, erase-IsDict k m h.1)

  pub lookup-absent : (k : K) (m : Dict K V) → has_key k m ≡ false → lookup k m ≡ none
  unfolding has_key lookup
  lookup-absent k [] h = refl
  lookup-absent k ((i, w) ∷ m) h = ground (arith, lookup-absent k m)

  pub lookup-erase_all :
      (ks : List K) (j : K) (m : Dict K V)
      → lookup j (erase_all ks m) ≡ (if contains ks j then none else lookup j m)
  unfolding erase_all contains
  lookup-erase_all [] j m = refl
  lookup-erase_all (k ∷ ks) j m =
      ground (arith, lookup-erase_all ks j (erase k m), lookup-erase k j m)

  pub erase_all-IsDict : (ks : List K) (m : Dict K V) → IsDict m → IsDict (erase_all ks m)
  unfolding erase_all
  erase_all-IsDict [] m h = h
  erase_all-IsDict (k ∷ ks) m h = erase_all-IsDict ks (erase k m) (erase-IsDict k m h)
