-- ===== src/Deciders/Completion/Tests.antt =====
-- A contract of two ordered events, and a trajectory that meets it.
use aios_tools.Prelude.{
  String, true, some, [], ◌∷◌, ◌≡◌, ◌↔◌, refl, string_eq, contains, all_distinct, ok, is_blank,
}
use aios_tools.Prelude.Json.{
  Json, text, number, boolean, array, object, no_items, item, field, end, get, is_text, is_true,
  is_named, is_boolean, as_text, as_object, as_array, as_number, keys_of, named_texts, named_items,
  named_items,
}
use aios_tools.Prelude.Sets.{same_set, is_subset}
use aios_tools.Deciders.Completion.{
  Contract, Trajectory, pass, passing, Report, read_contract, read_trajectory, evaluate_completion,
}
use aios_tools.Deciders.Completion.Complete.{Complete, evaluate_completion-Complete}

abbrev one : String → Json
one s = array (item (text s) no_items)

abbrev two_events : Json
two_events = array (item (text "built") (item (text "tested") no_items))

abbrev contract_json : Json
contract_json = object (
    field "contract_version" (text "0.1") (
      field "scope_key" (text "global-working-memory") (
        field "workflow_id" (text "w") (
          field "contract_id" (text "c") (
            field "objective" (text "o") (
              field "required_deliverables" (one "report") (
                field "required_events" two_events (
                  field "forbidden_events" (one "deleted") (
                    field "required_order"
                      (array (
                        item
                          (object
                            (field "before" (text "built") (field "after" (text "tested") end)))
                          no_items))
                      (field "success_predicates" (one "green") (
                        field "verification_owner" (text "v")
                          (field "max_steps" (number 5) end))))))))))))

abbrev trajectory_json : Json
trajectory_json = object (
    field "scope_key" (text "global-working-memory") (
      field "workflow_id" (text "w") (
        field "contract_id" (text "c") (
          field "deliverables" (one "report") (
            field "events" two_events (
              field "predicate_results" (object (field "green" (text "PASS") end)) (
                field "verification_owner" (text "v")
                  (field "terminal" (boolean true) (field "step_count" (number 3) end)))))))))

abbrev contract : Contract
contract = record {
  workflow_id = "w";
  contract_id = "c";
  verification_owner = "v";
  required_deliverables = "report" ∷ [];
  required_events = "built" ∷ "tested" ∷ [];
  forbidden_events = "deleted" ∷ [];
  required_order = ("built", "tested") ∷ [];
  success_predicates = "green" ∷ [];
  max_steps = 5;
}

abbrev trajectory : Trajectory
trajectory = record {
  workflow_id = "w";
  contract_id = "c";
  verification_owner = "v";
  deliverables = "report" ∷ [];
  events = "built" ∷ "tested" ∷ [];
  predicate_results = ("green", pass) ∷ [];
  terminal = true;
  step_count = 3;
}

contract_read : read_contract contract_json ≡ ok contract
unfolding read_contract get is_text is_named as_text as_object as_array as_number keys_of
    named_texts named_items same_set is_subset contains all_distinct is_blank
contract_read = refl

trajectory_read : read_trajectory trajectory_json contract ≡ ok trajectory
unfolding read_trajectory get is_text is_true is_named is_boolean as_text as_object as_array
    as_number keys_of named_texts named_items same_set is_subset contains all_distinct is_blank
trajectory_read = refl

evaluate_completion-Complete_example :
    (report : Report) × (evaluate_completion contract_json trajectory_json ≡ some report)
    × ((report.verdict ≡ passing) ↔ Complete contract trajectory)
evaluate_completion-Complete_example =
    evaluate_completion-Complete contract_json trajectory_json contract trajectory contract_read
      trajectory_read
