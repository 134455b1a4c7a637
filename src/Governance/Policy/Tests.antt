-- ===== src/Governance/Policy/Tests.antt =====
-- A policy as the repository ships it, and one that opens the network.
use aios_tools.Prelude.Sets.{is_subset, same_set}
use aios_tools.Prelude.{
  String, Bool, List, true, false, ◌≡◌, refl, string_eq, nat_eq, some, [], ◌∷◌, ok, err, contains,
  all_distinct,
}
use aios_tools.Prelude.Json.{
  Json, text, boolean, array, object, Fields, end, field, Items, no_items, item, get, has_field,
  has_fields, is_text, is_true, is_false, has_text, as_text, as_object, as_array, keys_of,
}
use aios_tools.Governance.Registry.{
  load_json, effect_classes, network_effect_classes, remote_mutation_effect_classes,
  network_effects_enabled,
}
use aios_tools.Governance.Policy.{
  load_policy, check_modes, check_write, check_effects, check_trust, lists, has_value,
  check_taxonomy, is_disjoint, hex_digits, is_hex_digit, effect_keys,
}
use aios_tools.Governance.Policy.Closed.{IsClosed, load_policy-IsClosed}

abbrev items : List String → Items
items [] = no_items
items (s ∷ ss) = item (text s) (items ss)

abbrev texts : List String → Json
texts ss = array (items ss)

abbrev digest : Json
digest = text "755118f478df7acf5836a18f9bbba13977e5391d90e7c609b62a894bbf91b2d5"

abbrev pins : Fields
pins = field "tool_version" (text "0.1.0") (
    field "content_digest" digest (
      field "dependency_manifest_digest" digest
        (field "request_schema_digest" digest (field "description_digest" digest end))))

abbrev trust : Fields
trust = field "contract_id" (text "AIOS_EXECUTION_TRUST_BINDING_01") (
    field "state" (text "ACTIVE_CANARY") (
      field "required_decision" (text "ADMIT") (
        field "fail_behavior" (text "CLOSED") (
          field "enforced_tools" (texts ("system.health" ∷ []))
            (field "bindings" (object (field "system.health" (object pins) end)) end)))))

abbrev effects : Fields
effects = field "known_effect_classes" (texts effect_classes) (
    field "allowed_effect_classes" (texts ("NO_EXTERNAL_EFFECT" ∷ "LOCAL_DURABLE_WRITE" ∷ [])) (
      field "network_effect_classes" (texts network_effect_classes)
        (field "remote_mutation_effect_classes" (texts remote_mutation_effect_classes) end)))

abbrev pub policy_with : Bool → Fields
policy_with network = field "policy_version" (text "0.4.0") (
    field "default_mode" (text "READ_ONLY") (
      field "allowed_modes" (texts ("READ_ONLY" ∷ "WRITE" ∷ [])) (
        field "durable_writes_enabled" (boolean true) (
          field "external_network_effects_enabled" (boolean network) (
            field "authority_transfer_allowed" (boolean false) (
              field "approval_required_for" (texts ("WRITE" ∷ [])) (
                field "write_scope" (text "LOCAL_ARTIFACTS_ONLY") (
                  field "effect_policy" (object effects)
                    (field "execution_trust_binding" (object trust) end)))))))))

abbrev pub same_value : Json → Json → Bool
same_value v w = false

policies : Unit {0}
unfolding load_policy check_modes check_write check_effects check_trust lists has_value
    check_taxonomy is_disjoint hex_digits is_hex_digit effect_keys load_json is_subset same_set get
    has_field has_fields is_text is_true is_false has_text as_text as_object as_array keys_of
    contains all_distinct
policies = tt

pub shipped_policy :
    load_policy same_value (some (object (policy_with false))) ≡ ok (policy_with false)
unfolding policies
shipped_policy = refl

load_open : load_policy same_value (some (object (policy_with true))) ≡ err network_effects_enabled
unfolding policies
load_open = refl

load_policy-IsClosed_example : IsClosed (policy_with false)
load_policy-IsClosed_example =
    load_policy-IsClosed same_value (some (object (policy_with false))) (policy_with false)
      shipped_policy
