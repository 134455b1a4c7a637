-- ===== src/Deciders/Continuation/Tests.antt =====
-- A step whose next step is valid.
use aios_tools.Prelude.{
  String, true, false, some, ◌≡◌, ◌≢◌, refl, arith, string_eq, nat_eq, contains, all_distinct,
  is_blank,
}
use aios_tools.Prelude.Json.{
  Json, text, number, boolean, array, object, no_items, item, field, end, get, is_text, is_true,
  is_named, is_boolean, as_text, as_object, as_array, as_number, keys_of, named_texts, named_items,
}
use aios_tools.Prelude.Sets.{same_set, is_subset}
use aios_tools.Deciders.Continuation.{
  block, retain_next, Snapshot, read_snapshot, same_boundary, same_texts, union, decide,
  evaluate_continuation,
}
use aios_tools.Deciders.Continuation.Lawful.{Lawful, evaluate_continuation-Lawful}

abbrev one : String → Json
one s = array (item (text s) no_items)

abbrev snapshot : Json
snapshot = object (
    field "scope" (text "global-working-memory") (
      field "workflow" (text "w") (
        field "envelope" (text "e") (
          field "prefix" (one "p") (
            field "artifacts" (one "a") (
              field "receipts" (one "r") (
                field "specialists" (one "s") (
                  field "evidence" (one "seen") (
                    field "evidence_current" (boolean true) (
                      field "ambiguous" (boolean false) (
                        field "complete" (boolean false) (
                          field "next_valid" (boolean true) (
                            field "suffix_invalid" (boolean false) (
                              field "recovery_available" (boolean false) (
                                field "recovery_used" (boolean false) (
                                  field "retry_count" (number 0)
                                    (field "retry_limit" (number 1) end)))))))))))))))))

retained : (evaluate_continuation snapshot snapshot).action ≡ retain_next
unfolding evaluate_continuation read_snapshot decide same_boundary same_texts union get is_text
    is_true is_named is_boolean as_text as_object as_array as_number keys_of named_texts named_items
    same_set is_subset contains all_distinct is_blank
retained = refl

not_blocked : (evaluate_continuation snapshot snapshot).action ≢ block
not_blocked e = absurd (ground (arith, retained))

evaluate_continuation-Lawful_example :
    (a : Snapshot) × (b : Snapshot) × (read_snapshot snapshot ≡ some a)
    × (read_snapshot snapshot ≡ some b)
    × Lawful a b (evaluate_continuation snapshot snapshot).action
evaluate_continuation-Lawful_example = evaluate_continuation-Lawful snapshot snapshot not_blocked
