-- ===== src/Governance/Registry.antt =====
-- src/aios_tools/config.py, `load_registry`: the admission of the tools in registry/tools.v0.1.json.
-- A file is `none` where it cannot be read or is no JSON.
pub mod Governed
pub mod Tests
use aios_tools.Prelude.Sets.{same_set}
use aios_tools.Prelude.{
  String, Bool, true, false, not, ◌&&◌, ◌||◌, Option, none, some, List, [], ◌∷◌, contains,
  string_eq, ◌==◌, if◌then◌else◌, Result, ok, err, raise_if, ◌>>=◌, ◌>>◌,
}
use aios_tools.Prelude.Dict.{Dict, insert, has_key}
use aios_tools.Prelude.Json.{
  Json, null, boolean, text, array, object, Fields, Items, no_items, item, get, has_fields, is_text,
  is_false, as_text, as_object, as_array,
}

-- The reasons of a `ConfigurationError`; `unhashable` is the `TypeError` of a list or an object that
-- is looked up in a set.
pub data ConfigError : Type 0 where
  file_unreadable not_an_object registry_version_invalid registry_tools_invalid entry_not_object
        entry_fields_missing tool_name_invalid duplicate_tool authority_transfer_declared
        effect_class_unknown effect_mode_conflict handler_mismatch unhashable policy_fields_missing
        allowed_modes_invalid default_mode_invalid durable_writes_invalid network_effects_enabled
        authority_transfer_enabled approval_list_invalid write_without_durability
        write_without_approval write_scope_invalid effect_policy_invalid string_set_invalid
        taxonomy_mismatch allowed_classes_invalid trust_policy_invalid trust_pins_invalid :
      ConfigError

abbrev pub effect_classes : List String
effect_classes =
    "NO_EXTERNAL_EFFECT" ∷ "LOCAL_DURABLE_WRITE" ∷ "READ_NETWORK" ∷ "REMOTE_MUTATION_REVERSIBLE"
    ∷ "REMOTE_MUTATION_HIGH_IMPACT" ∷ []

abbrev pub network_effect_classes : List String
network_effect_classes =
    "READ_NETWORK" ∷ "REMOTE_MUTATION_REVERSIBLE" ∷ "REMOTE_MUTATION_HIGH_IMPACT" ∷ []

abbrev pub remote_mutation_effect_classes : List String
remote_mutation_effect_classes = "REMOTE_MUTATION_REVERSIBLE" ∷ "REMOTE_MUTATION_HIGH_IMPACT" ∷ []

object_or_error : Option Fields → Result ConfigError Fields
object_or_error none = err not_an_object
object_or_error (some fields) = ok fields

-- `_load_json`, of a file in UTF-8 (another raises a `UnicodeDecodeError`, which is not modelled);
-- `none` is a file that cannot be read or is no JSON.
unfoldable pub load_json : Option Json → Result ConfigError Fields
unfolding object_or_error
load_json none = err file_unreadable
load_json (some value) = object_or_error (as_object value)

pub non_empty_text : Option String → ConfigError → Result ConfigError String
non_empty_text none e = err e
non_empty_text (some s) e = if s == "" then err e else ok s

abbrev pub is_items : Option Items → Bool
is_items (some (item _ _)) = true
is_items _ = false

abbrev pub items_of : Option Items → Items
items_of (some items) = items
items_of none = no_items

abbrev pub entry_keys : List String
entry_keys =
    "name" ∷ "version" ∷ "mode" ∷ "effect_class" ∷ "reversibility" ∷ "blast_radius"
    ∷ "authority_transfer" ∷ []

-- A membership test of a set raises for a list or an object.
effect_class_of : Json → Result ConfigError String
effect_class_of (text s) = if contains effect_classes s then ok s else err effect_class_unknown
effect_class_of (array _) = err unhashable
effect_class_of (object _) = err unhashable
effect_class_of _ = err effect_class_unknown

-- The rules that tie an effect class to a mode.
unfoldable pub mode_conflicts : String → Json → Bool
mode_conflicts effect_class mode =
    (effect_class == "NO_EXTERNAL_EFFECT" && is_text mode "WRITE")
    || (effect_class == "LOCAL_DURABLE_WRITE" && not (is_text mode "WRITE"))
    || (effect_class == "READ_NETWORK" && not (is_text mode "READ_ONLY"))
    || (contains remote_mutation_effect_classes effect_class && not (is_text mode "WRITE"))

add_entry : Fields → Dict String Fields → Result ConfigError (Dict String Fields)
unfolding non_empty_text effect_class_of
add_entry entry registry = do
  raise_if (not (has_fields entry_keys entry)) entry_fields_missing
  name ← non_empty_text (as_text (get "name" entry)) tool_name_invalid
  raise_if (has_key name registry) duplicate_tool
  raise_if (not (is_false (get "authority_transfer" entry))) authority_transfer_declared
  effect_class ← effect_class_of (get "effect_class" entry)
  raise_if (mode_conflicts effect_class (get "mode" entry)) effect_mode_conflict
  ok (insert name entry registry)

read_entry : Option Fields → Dict String Fields → Result ConfigError (Dict String Fields)
unfolding add_entry
read_entry none registry = err entry_not_object
read_entry (some entry) registry = add_entry entry registry

-- The loop over the entries.
unfoldable pub add_entries : Items → Dict String Fields → Result ConfigError (Dict String Fields)
unfolding read_entry
add_entries no_items registry = ok registry
add_entries (item value rest) registry = do
  extended ← read_entry (as_object value) registry
  add_entries rest extended

unfoldable pub names_of : {A : Type 0} → Dict String A → List String
names_of [] = []
names_of ((name, _) ∷ rest) = name ∷ names_of rest

-- The registry and its version; `handlers` are the names with a handler.
unfoldable pub load_registry :
    Option Json → List String → Result ConfigError (Dict String Fields × String)
unfolding load_json non_empty_text
load_registry file handlers = do
  document ← load_json file
  version ← non_empty_text (as_text (get "registry_version" document)) registry_version_invalid
  let tools = as_array (get "tools" document)
  raise_if (not (is_items tools)) registry_tools_invalid
  registry ← add_entries (items_of tools) []
  raise_if (not (same_set (names_of registry) handlers)) handler_mismatch
  ok (registry, version)
