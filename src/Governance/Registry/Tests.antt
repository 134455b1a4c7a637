-- ===== src/Governance/Registry/Tests.antt =====
-- A registry of one tool, and the theorem on it.
use aios_tools.Prelude.Sets.{is_subset, same_set}
use aios_tools.Prelude.{
  String, List, true, false, ◌≡◌, refl, string_eq, some, [], ◌∷◌, ok, err, contains,
}
use aios_tools.Prelude.Dict.{Dict, lookup, insert, has_key}
use aios_tools.Prelude.Json.{
  Json, text, boolean, array, object, Fields, end, field, no_items, item, get, has_field,
  has_fields, is_text, is_false, as_text, as_object, as_array,
}
use aios_tools.Governance.Registry.{
  load_registry, load_json, add_entries, names_of, mode_conflicts, effect_mode_conflict,
}
use aios_tools.Governance.Registry.Governed.{IsGoverned, load_registry-IsGoverned}

abbrev entry_of : String → Fields
entry_of mode = field "name" (text "system.health") (
    field "version" (text "1") (
      field "mode" (text mode) (
        field "effect_class" (text "NO_EXTERNAL_EFFECT") (
          field "reversibility" (text "FULL") (
            field "blast_radius" (text "NONE") (field "authority_transfer" (boolean false) end))))))

abbrev pub registry_file : String → Json
registry_file mode = object (
    field "registry_version" (text "v1")
      (field "tools" (array (item (object (entry_of mode)) no_items)) end))

abbrev handlers : List String
handlers = "system.health" ∷ []

abbrev registry : Dict String Fields
registry = ("system.health", entry_of "READ_ONLY") ∷ []

registries : Unit {0}
unfolding load_registry load_json add_entries names_of is_subset same_set mode_conflicts get
    has_field has_fields is_text is_false as_text as_object as_array lookup insert has_key contains
registries = tt

load_read_only : load_registry (some (registry_file "READ_ONLY")) handlers ≡ ok (registry, "v1")
unfolding registries
load_read_only = refl

load_write : load_registry (some (registry_file "WRITE")) handlers ≡ err effect_mode_conflict
unfolding registries
load_write = refl

lookup_health : lookup "system.health" registry ≡ some (entry_of "READ_ONLY")
unfolding registries
lookup_health = refl

load_registry-IsGoverned_example :
    IsGoverned "system.health" (entry_of "READ_ONLY") × (contains handlers "system.health" ≡ true)
load_registry-IsGoverned_example =
    load_registry-IsGoverned (some (registry_file "READ_ONLY")) handlers registry "v1"
      "system.health" (entry_of "READ_ONLY") load_read_only lookup_health
