-- ===== src/Prelude/Json.antt =====
-- The values of JSON documents, as far as the program looks at them: a number that is not a natural
-- number is only known to be there, and a float with an integral value is no value of the model.
use mathlib.Core.Bool.{Bool, true, false, not, ◌&&◌, ◌||◌}
use mathlib.Core.Option.{Option, none, some}
use mathlib.Core.List.{List, [], ◌∷◌}
use mathlib.Core.Path.{◌≡◌}
use native.Mathlib.Omega.{arith}
use Prim.Native.Nat.{ℕ}
use Prim.Native.String.{String}
use aios_tools.Prelude.Tests.{if◌then◌else◌}
use aios_tools.Prelude.Text.{is_blank}
use aios_tools.Prelude.Equality.{◌==◌, string_eq}

mutual
  pub data Json : Type 0 where
    null : Json
    boolean : Bool → Json
    number : ℕ → Json
    other_number : Json
    text : String → Json
    array : Items → Json
    object : Fields → Json

  pub data Fields : Type 0 where
    end : Fields
    field : String → Json → Fields → Fields

  pub data Items : Type 0 where
    no_items : Items
    item : Json → Items → Items

-- `fields.get(key)`: a missing key reads as `None`.
unfoldable pub get : String → Fields → Json
get key end = null
get key (field own value rest) = if own == key then value else get key rest

-- `key in fields`
unfoldable pub has_field : String → Fields → Bool
has_field key end = false
has_field key (field own value rest) = if own == key then true else has_field key rest

-- `value == expected`, for a text
unfoldable pub is_text : Json → String → Bool
is_text (text s) expected = s == expected
is_text _ expected = false

-- `value is True`
unfoldable pub is_true : Json → Bool
is_true (boolean b) = b
is_true _ = false

-- `isinstance(value, str)`, with the text
unfoldable pub as_text : Json → Option String
as_text (text s) = some s
as_text _ = none

-- `isinstance(value, dict)`, with the fields
unfoldable pub as_object : Json → Option Fields
as_object (object fields) = some fields
as_object _ = none

-- `isinstance(value, list)`, with the items
unfoldable pub as_array : Json → Option Items
as_array (array items) = some items
as_array _ = none

-- `value is False`
unfoldable pub is_false : Json → Bool
is_false (boolean b) = not b
is_false _ = false

-- `"expected" in items`, for a text
unfoldable pub has_text : String → Items → Bool
has_text expected no_items = false
has_text expected (item value rest) = is_text value expected || has_text expected rest

-- `required <= fields.keys()`
unfoldable pub has_fields : List String → Fields → Bool
has_fields [] fields = true
has_fields (key ∷ keys) fields = has_field key fields && has_fields keys fields

-- `set(fields)`
unfoldable pub keys_of : Fields → List String
keys_of end = []
keys_of (field key value rest) = key ∷ keys_of rest

pub as_object-object :
    (value : Json) (fields : Fields) → as_object value ≡ some fields → value ≡ object fields
unfolding as_object
as_object-object null fields e = cc
as_object-object (boolean _) fields e = cc
as_object-object (number _) fields e = cc
as_object-object other_number fields e = cc
as_object-object (text _) fields e = cc
as_object-object (array _) fields e = cc
as_object-object (object own) fields e = ground arith

-- `value.strip()` is not empty, for a text
unfoldable pub is_named : Json → Bool
is_named (text s) = not (is_blank s)
is_named _ = false

-- `isinstance(value, bool)`
unfoldable pub is_boolean : Json → Bool
is_boolean (boolean _) = true
is_boolean _ = false

-- The texts of a list that has only named texts.
cons_named : Json → Option (List String) → Option (List String)
cons_named (text s) (some ss) = if is_blank s then none else some (s ∷ ss)
cons_named _ _ = none

unfoldable pub named_items : Items → Option (List String)
unfolding cons_named
named_items no_items = some []
named_items (item value rest) = cons_named value (named_items rest)

named_array : Option Items → Option (List String)
named_array none = none
named_array (some items) = named_items items

-- `type(value) is list`, of texts that are not blank, with the texts
unfoldable pub named_texts : Json → Option (List String)
unfolding named_array
named_texts value = named_array (as_array value)

-- `type(value) is int`, for the integers from 0
unfoldable pub as_number : Json → Option ℕ
as_number (number n) = some n
as_number _ = none

-- The value of an `int`, for the integers from 0: a `bool` is one.
unfoldable pub as_int : Json → Option ℕ
as_int (number n) = some n
as_int (boolean b) = some (if b then 1 else 0)
as_int _ = none
