-- ===== src/Governance/Policy.antt =====
-- src/aios_tools/config.py, `load_policy`: the admission of policies/execution-policy.v0.1.json.
pub mod Closed
pub mod Tests
use Prim.Native.Char.{code}
use aios_tools.Prelude.Sets.{is_subset, same_set}
use aios_tools.Prelude.{
  ℕ, suc, String, Bool, true, false, not, ◌&&◌, ◌||◌, Option, none, some, List, [], ◌∷◌, contains,
  all_distinct, leb, string_eq, nat_eq, ◌==◌, if◌then◌else◌, Result, ok, err, raise_if, ◌>>=◌, ◌>>◌,
}
use aios_tools.Prelude.Json.{
  Json, null, boolean, text, array, object, Fields, end, field, Items, no_items, item, get,
  has_field, has_fields, is_text, is_true, is_false, has_text, as_text, as_object, as_array,
  keys_of,
}
use aios_tools.Governance.Registry.{
  ConfigError, policy_fields_missing, allowed_modes_invalid, default_mode_invalid,
  durable_writes_invalid, network_effects_enabled, authority_transfer_enabled,
  approval_list_invalid, write_without_durability, write_without_approval, write_scope_invalid,
  effect_policy_invalid, string_set_invalid, taxonomy_mismatch, allowed_classes_invalid,
  trust_policy_invalid, trust_pins_invalid, effect_classes, network_effect_classes,
  remote_mutation_effect_classes, load_json, is_items, items_of,
}

cons_text : String → Option (List String) → Option (List String)
cons_text s none = none
cons_text s (some ss) = if s == "" then none else some (s ∷ ss)

-- `all(isinstance(item, str) and item for item in value)`, with the texts
texts_of : Items → Option (List String)
unfolding cons_text
texts_of no_items = some []
texts_of (item (text s) rest) = cons_text s (texts_of rest)
texts_of (item _ rest) = none

distinct_texts : Option (List String) → Result ConfigError (List String)
distinct_texts none = err string_set_invalid
distinct_texts (some ss) = if all_distinct ss then ok ss else err string_set_invalid

-- `_validated_string_set`; the flag is `allow_empty`
validated_string_set : Json → Bool → Result ConfigError (List String)
unfolding texts_of distinct_texts
validated_string_set (array no_items) allow_empty =
    if allow_empty then ok [] else err string_set_invalid
validated_string_set (array (item value rest)) allow_empty =
    distinct_texts (texts_of (item value rest))
validated_string_set _ allow_empty = err string_set_invalid

is_disjoint : List String → List String → Bool
is_disjoint [] ys = true
is_disjoint (x ∷ xs) ys = not (contains ys x) && is_disjoint xs ys

policy_keys : List String
policy_keys =
    "policy_version" ∷ "default_mode" ∷ "allowed_modes" ∷ "durable_writes_enabled"
    ∷ "external_network_effects_enabled" ∷ "authority_transfer_allowed" ∷ "approval_required_for"
    ∷ "effect_policy" ∷ "execution_trust_binding" ∷ []

effect_keys : List String
effect_keys =
    "known_effect_classes" ∷ "allowed_effect_classes" ∷ "network_effect_classes"
    ∷ "remote_mutation_effect_classes" ∷ []

is_array : Option Items → Bool
is_array none = false
is_array (some _) = true

-- `"expected" in policy[key]`, where that is a list
unfoldable pub lists : String → String → Fields → Bool
lists key expected fields = has_text expected (items_of (as_array (get key fields)))

module _ (same_value : Json → Json → Bool) where
  -- `value in items`; `same_value` is `==` where the value is no text
  has_value : Json → Items → Bool
  has_value (text s) items = has_text s items
  has_value value no_items = false
  has_value value (item other rest) = same_value value other || has_value value rest

  pub check_modes : Fields → Result ConfigError Unit
  unfolding is_array
  check_modes policy = do
    let modes = as_array (get "allowed_modes" policy)
    raise_if (not (is_items modes)) allowed_modes_invalid
    raise_if (not (has_value (get "default_mode" policy) (items_of modes))) default_mode_invalid
    raise_if
        (not (
          is_true (get "durable_writes_enabled" policy)
          || is_false (get "durable_writes_enabled" policy)))
        durable_writes_invalid
    raise_if (not (is_false (get "external_network_effects_enabled" policy)))
        network_effects_enabled
    raise_if (not (is_false (get "authority_transfer_allowed" policy))) authority_transfer_enabled
    raise_if (not (is_array (as_array (get "approval_required_for" policy)))) approval_list_invalid

pub check_write : Fields → Result ConfigError Unit
check_write policy =
    if lists "allowed_modes" "WRITE" policy
    then (do
      raise_if (not (is_true (get "durable_writes_enabled" policy))) write_without_durability
      raise_if (not (lists "approval_required_for" "WRITE" policy)) write_without_approval
      raise_if (not (is_text (get "write_scope" policy) "LOCAL_ARTIFACTS_ONLY"))
          write_scope_invalid)
    else raise_if (not (is_false (get "durable_writes_enabled" policy))) durable_writes_invalid

effects_of : Option Fields → Result ConfigError Fields
effects_of none = err effect_policy_invalid
effects_of (some effects) =
    if has_fields effect_keys effects then ok effects else err effect_policy_invalid

check_taxonomy : List String → List String → List String → List String → Result ConfigError Unit
check_taxonomy known allowed network remote = do
  raise_if (not (same_set known effect_classes)) taxonomy_mismatch
  raise_if (not (same_set network network_effect_classes)) taxonomy_mismatch
  raise_if (not (same_set remote remote_mutation_effect_classes)) taxonomy_mismatch
  raise_if (not (is_subset allowed known)) allowed_classes_invalid
  raise_if (not (is_subset remote network)) taxonomy_mismatch
  raise_if (not (is_disjoint allowed network)) allowed_classes_invalid

pub check_effects : Json → Result ConfigError Unit
unfolding effects_of validated_string_set
check_effects value = do
  effects ← effects_of (as_object value)
  known ← validated_string_set (get "known_effect_classes" effects) false
  allowed ← validated_string_set (get "allowed_effect_classes" effects) true
  network ← validated_string_set (get "network_effect_classes" effects) false
  remote ← validated_string_set (get "remote_mutation_effect_classes" effects) false
  check_taxonomy known allowed network remote

is_hex_digit : ℕ → Bool
is_hex_digit c = (leb 48 c && leb c 57) || (leb 97 c && leb c 102)

-- The text has lower-case hexadecimal digits alone, and with the count before them sixty-four.
unfoldable pub hex_digits : ℕ → String → Bool
unfolding is_hex_digit
hex_digits n String.[] = n == 64
hex_digits n (String.◌∷◌ c s) = is_hex_digit (code c) && hex_digits (suc n) s

is_sha256_text : Option String → Bool
is_sha256_text none = false
is_sha256_text (some s) = hex_digits 0 s

digest_keys : List String
digest_keys =
    "content_digest" ∷ "dependency_manifest_digest" ∷ "request_schema_digest" ∷ "description_digest"
    ∷ []

all_digests : List String → Fields → Bool
unfolding is_sha256_text
all_digests [] pins = true
all_digests (key ∷ keys) pins = is_sha256_text (as_text (get key pins)) && all_digests keys pins

is_given : Option String → Bool
is_given none = false
is_given (some _) = true

pins_valid : Option Fields → Bool
unfolding all_digests is_given digest_keys
pins_valid none = false
pins_valid (some pins) =
    is_given (as_text (get "tool_version" pins)) && all_digests digest_keys pins

-- The loop over the pins of the enforced tools.
all_pins : Fields → Bool
unfolding pins_valid
all_pins end = true
all_pins (field tool value rest) = pins_valid (as_object value) && all_pins rest

trust_of : Option Fields → Result ConfigError Fields
trust_of none = err trust_policy_invalid
trust_of (some trust) = ok trust

trust_heads : Fields → Bool
trust_heads trust =
    is_text (get "contract_id" trust) "AIOS_EXECUTION_TRUST_BINDING_01"
    && is_text (get "state" trust) "ACTIVE_CANARY"
    && is_text (get "required_decision" trust) "ADMIT"
    && is_text (get "fail_behavior" trust) "CLOSED"

pub check_trust : Json → Result ConfigError Unit
unfolding trust_of trust_heads all_pins validated_string_set
check_trust value = do
  trust ← trust_of (as_object value)
  raise_if (not (trust_heads trust)) trust_policy_invalid
  enforced ← validated_string_set (get "enforced_tools" trust) false
  raise_if (not (same_set enforced ("system.health" ∷ []))) trust_policy_invalid
  bindings ← trust_of (as_object (get "bindings" trust))
  raise_if (not (same_set (keys_of bindings) enforced)) trust_policy_invalid
  raise_if (not (all_pins bindings)) trust_pins_invalid

unfoldable pub load_policy : (Json → Json → Bool) → Option Json → Result ConfigError Fields
unfolding policy_keys
load_policy same_value file = do
  policy ← load_json file
  raise_if (not (has_fields policy_keys policy)) policy_fields_missing
  check_modes same_value policy
  check_write policy
  check_effects (get "effect_policy" policy)
  check_trust (get "execution_trust_binding" policy)
  ok policy
