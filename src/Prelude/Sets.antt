-- ===== src/Prelude/Sets.antt =====
-- Sets of texts as lists: only membership counts.
use Prim.Native.Nat.{suc, ◌≤◌}
use Prim.Native.String.{String}
use mathlib.Core.Bool.{Bool, true, false, ◌&&◌}
use mathlib.Core.Path.{◌≡◌, refl}
use mathlib.Core.List.{List, [], ◌∷◌, ◌++◌}
use native.Mathlib.Omega.{arith}
use text.Mathlib.TextEquality.{eq_iff}
use aios_tools.Prelude.Tests.{if◌then◌else◌}
use aios_tools.Prelude.Lists.{length}
use aios_tools.Prelude.Equality.{contains, all_distinct, string_eq, ◌==◌}

-- `left <= right`, for sets
unfoldable pub is_subset : List String → List String → Bool
is_subset [] ys = true
is_subset (x ∷ xs) ys = contains ys x && is_subset xs ys

unfoldable pub same_set : List String → List String → Bool
same_set xs ys = is_subset xs ys && is_subset ys xs

pub is_subset-contains :
    (xs ys : List String) (x : String)
    → is_subset xs ys ≡ true
    → contains xs x ≡ true
    → contains ys x ≡ true
unfolding is_subset contains
is_subset-contains [] ys x h c = cc
is_subset-contains (y ∷ xs) ys x h c = ground (arith, eq_iff y x, is_subset-contains xs ys x)

pub same_set-contains :
    (xs ys : List String) (c : String) → same_set xs ys ≡ true → contains xs c ≡ contains ys c
unfolding same_set
same_set-contains xs ys c h = ground (arith, is_subset-contains xs ys c, is_subset-contains ys xs c)

remove : String → List String → List String
remove x [] = []
remove x (y ∷ ys) = if y == x then ys else y ∷ remove x ys

length-remove :
    (x : String) (ys : List String) → contains ys x ≡ true → suc (length (remove x ys)) ≡ length ys
unfolding remove contains
length-remove x [] h = cc
length-remove x (y ∷ ys) h = ground (arith, length-remove x ys)

contains-remove :
    (x z : String) (ys : List String)
    → contains ys z ≡ true
    → x == z ≡ false
    → contains (remove x ys) z ≡ true
unfolding remove contains
contains-remove x z [] h d = h
contains-remove x z (y ∷ ys) h d =
    ground (arith, eq_iff y x, eq_iff y z, eq_iff x z, contains-remove x z ys)

is_subset-remove :
    (x : String) (xs ys : List String)
    → contains xs x ≡ false
    → is_subset xs ys ≡ true
    → is_subset xs (remove x ys) ≡ true
unfolding is_subset contains
is_subset-remove x [] ys n h = refl
is_subset-remove x (z ∷ xs) ys n h =
    ground (arith, eq_iff z x, eq_iff x z, contains-remove x z ys, is_subset-remove x xs ys)

-- A set is no longer than one that it is a part of.
pub length_of_subset :
    (xs ys : List String) → all_distinct xs ≡ true → is_subset xs ys ≡ true → length xs ≤ length ys
unfolding is_subset all_distinct
length_of_subset [] ys d h = omega arith
length_of_subset (x ∷ xs) ys d h =
    let shorter = length_of_subset xs (remove x ys) in
    ground (arith, length-remove x ys, is_subset-remove x xs ys, shorter)

pub is_subset-append :
    (xs ys : List String) (x : String)
    → is_subset xs ys ≡ true
    → contains ys x ≡ true
    → is_subset (xs ++ x ∷ []) ys ≡ true
unfolding is_subset
is_subset-append [] ys x h c = ground arith
is_subset-append (z ∷ xs) ys x h c = ground (arith, is_subset-append xs ys x)
