-- ===== src/Governance/Runner/Gates/Tests.antt =====
-- A runner with one local tool that counts its calls, and the theorems on it.
use aios_tools.Prelude.Sets.{is_subset, same_set}
use aios_tools.Prelude.{
  ok, ℕ, suc, String, true, false, ◌≡◌, refl, arith, string_eq, nat_eq, some, none, [], ◌∷◌, err,
  contains, all_distinct,
}
use aios_tools.Prelude.Dict.{lookup, insert, has_key}
use aios_tools.Prelude.Json.{
  Json, text, boolean, array, object, Fields, end, field, no_items, item, get, has_field,
  has_fields, is_text, is_true, is_false, has_text, as_text, as_object, as_array, keys_of,
}
use aios_tools.Governance.Registry.{load_registry, load_json, add_entries, names_of, mode_conflicts}
use aios_tools.Governance.Policy.{lists}
use aios_tools.Governance.Policy.Tests.{policy_with, same_value, shipped_policy}
use aios_tools.Trust.Tests.{health, documents, current, decision_current}
use aios_tools.Browser.Mutation.Approval.Tests.{host}
use aios_tools.Governance.Runner.{
  Call, Payload, other_error, failed, internal_error, Outcome, output, Receipt, receipt,
  is_mutation_tool, fields_of, text_of, blocked, completed, mode_not_allowed, versions,
}
use aios_tools.Governance.Runner.Gates.{
  decision_text, Setup, Admission, admission, returned, invoke, conclude, registration, mode_gate,
  network_gate, effect_gate, write_gate, mutation_gate, capture_gate, trust_gate,
}
use aios_tools.Governance.Runner.Gates.Guarded.{Guarded, invoke-Guarded}
use aios_tools.Trust.Binding.{Binding}
use aios_tools.Trust.Evaluate.{evaluate_trust_binding}
use aios_tools.Governance.Runner.Gates.Trusted.{Current, invoke-Current}

abbrev entry : String → Fields
entry name = field "name" (text name) (
    field "version" (text "1") (
      field "mode" (text "READ_ONLY") (
        field "effect_class" (text "NO_EXTERNAL_EFFECT") (
          field "reversibility" (text "FULL") (
            field "blast_radius" (text "NONE") (field "authority_transfer" (boolean false) end))))))

abbrev registry_file : String → Json
registry_file name = object (
    field "registry_version" (text "v1")
      (field "tools" (array (item (object (entry name)) no_items)) end))

-- The handler counts in the world how often it was called.
abbrev count_calls : Payload → ℕ → Outcome × ℕ
count_calls payload world = (output payload.fields, suc world)

abbrev setup : Setup ℕ
setup = record {
  policy_file = some (object (policy_with false));
  registry_file = some (registry_file "text.count");
  browser_file = none;
  same_value = same_value;
  host = host;
  origins = record { sorted_set = λ ss. ss; transition_digest = λ ss. "d" };
  documents = documents;
  handlers = ("text.count", count_calls) ∷ [];
  request_errors = λ call version. some [];
  health_binding = λ call fields. none;
  document_of = λ b. b;
  failed_document = record health { execution_id = "failed" };
}

abbrev call_of : String → Call
call_of mode = record {
  request_id = "r1";
  tool = "text.count";
  payload = end;
  scope = "s";
  mode = mode;
  requested_by = end;
  authority_context = end;
  now = 0;
}

abbrev counted : Receipt
counted = record {
  status = completed;
  errors = [];
  versions = versions (text "1") "NO_EXTERNAL_EFFECT" "v1" (text "0.4.0");
  output = end;
  handler_invoked = true;
  trust_id = none;
}

runs : Unit {0}
unfolding invoke admission registration mode_gate network_gate effect_gate write_gate mutation_gate
    capture_gate trust_gate conclude is_mutation_tool fields_of load_registry load_json add_entries
    names_of is_subset same_set mode_conflicts lists get has_field has_fields is_text is_true
    is_false has_text as_text as_object as_array keys_of decision_text text_of contains all_distinct
    lookup insert has_key
runs = tt

invoke_count : invoke setup (call_of "READ_ONLY") 0 ≡ returned counted 1
unfolding runs
invoke_count = rw shipped_policy refl

invoke-Guarded_example :
    (a : Admission setup (call_of "READ_ONLY")) × Guarded setup (call_of "READ_ONLY") a
    × (1 ≡ (a.handler a.payload 0).1)
    × (counted ≡ conclude setup (call_of "READ_ONLY") a (a.handler a.payload 0).0)
invoke-Guarded_example =
    invoke-Guarded setup (call_of "READ_ONLY") 0 1 counted invoke_count (λ e. ground arith)

abbrev refused : Receipt
refused = record {
  status = blocked;
  errors = mode_not_allowed ∷ [];
  versions = versions (text "1") "NO_EXTERNAL_EFFECT" "v1" (text "0.4.0");
  output = end;
  handler_invoked = false;
  trust_id = none;
}

admission_write : admission setup (call_of "WRITE") ≡ err (receipt refused)
unfolding runs
admission_write = rw shipped_policy refl

-- A handler of `system.health` that fails after it has counted the call.
abbrev health_setup : Setup ℕ
health_setup = record setup {
  registry_file = some (registry_file "system.health");
  handlers = ("system.health", (λ payload world. (other_error, suc world))) ∷ [];
  health_binding = λ call fields. some current;
}

abbrev health_call : Call
health_call = record (call_of "READ_ONLY") { tool = "system.health" }

abbrev failed_health : Receipt
failed_health = record {
  status = failed;
  errors = internal_error ∷ [];
  versions = versions (text "1") "NO_EXTERNAL_EFFECT" "v1" (text "0.4.0");
  output = end;
  handler_invoked = true;
  trust_id = some (evaluate_trust_binding documents current).trust_receipt_id;
}

invoke_health : invoke health_setup health_call 0 ≡ returned failed_health 1
unfolding runs
invoke_health = rw shipped_policy (rw decision_current refl)

invoke-Current_example :
    (a : Admission health_setup health_call) × (admission health_setup health_call ≡ ok a)
    × (b : Binding) × Current health_setup health_call a.registered b
invoke-Current_example =
    invoke-Current health_setup health_call 0 1 failed_health (λ b. refl)
      (λ e. absurd (ground arith)) refl invoke_health (λ e. ground arith)
