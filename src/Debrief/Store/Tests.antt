-- ===== src/Debrief/Store/Tests.antt =====
-- Two findings of one debrief, appended, repeated and read back.
use aios_tools.Prelude.{
  String, true, false, none, some, List, [], ◌∷◌, contains, ◌≡◌, ◌≢◌, refl, ap, arith, eq_iff,
  string_eq, ◌==◌, if◌then◌else◌, ok, err, is_blank, strip,
}
use aios_tools.Prelude.Integer.{pos, is_negative}
use aios_tools.Prelude.Json.{
  text, object, array, Fields, field, end, no_items, item, get, is_text, as_text,
}
use aios_tools.Prelude.Sort.{sorted}
use aios_tools.Debrief.Event.{
  Canon, validate_event, validate_finding_event, claims_authority, fields_claim, items_claim,
  require_named, is_identifier, require_identifier, is_sha256, require_sha256, require_identifiers,
  overlaps, unsigned, event_id_for, forbidden_authority_keys,
}
use aios_tools.Debrief.Store.{
  Table, empty_table, AppendResult, appended, duplicate_noop, expected_sequence_mismatch, select_id,
  max_sequence, insert_row, id_of, expects_negative, check_expected, transact, committed,
  invalid_event, last_sequence, append, planned, fields_of, text_or_empty, iter_events,
}
use aios_tools.Debrief.Store.Log.{
  find, log_append, rows_from, Represents, Agrees, append-Agrees, empty-Represents,
}
use aios_tools.Debrief.Store.Replay.{Readable}
use aios_tools.Debrief.Store.Repeat.{append-again, append-iter_events}
use aios_tools.Debrief.Store.Writers.{start, step, Holds, Reached-Holds, append-stale}

abbrev finding : String → String → Fields
finding id event_id = field "schema_version" (text "daily-debrief-finding-event/v1") (
    field "event_type" (text "daily_debrief.finding") (
      field "source_provider" (text "p") (
        field "source_id" (text "s") (
          field "source_revision" (text "r") (
            field "source_digest"
              (text "0000000000000000000000000000000000000000000000000000000000000000")
              (field "debrief_date" (text "d") (
                field "scope_key" (text "k") (
                  field "finding_id" (text id) (
                    field "lineage" (text "l") (
                      field "title" (text "t") (
                        field "disposition" (text "d") (
                          field "confidence" (text "c") (
                            field "implementation_consequence" (text "i") (
                              field "validation_state" (text "v") (
                                field "remaining_test_ids" (array (item (text "t1") no_items))
                                  (field "event_id" (text event_id) end))))))))))))))))

abbrev one : Fields
one = finding "f1" "ddf_f1"

abbrev two : Fields
two = finding "f2" "ddf_f2"

-- The finding's id stands for the text and for its digest.
finding_text : Fields → String
unfolding get as_text
finding_text e = elim (as_text (get "finding_id" e)) [ none ↦ "" | some s ↦ s ]

abbrev canon : Canon
canon = record {
  text_of = finding_text;
  sha256 = λ s. s;
  lower = λ s. s;
  loads = λ s. if s == "f1" then some (object one) else some (object two);
}

valid_one : validate_event canon one ≡ ok tt
unfolding validate_event finding_text get is_text as_text claims_authority fields_claim items_claim
    require_named is_identifier require_identifier is_sha256 require_sha256 require_identifiers
    overlaps unsigned event_id_for forbidden_authority_keys contains is_blank strip sorted
valid_one = refl

valid_two : validate_event canon two ≡ ok tt
unfolding validate_event finding_text get is_text as_text claims_authority fields_claim items_claim
    require_named is_identifier require_identifier is_sha256 require_sha256 require_identifiers
    overlaps unsigned event_id_for forbidden_authority_keys contains is_blank strip sorted
valid_two = refl

abbrev after_one : Table
after_one = insert_row empty_table "ddf_f1" "f1"

append-one :
    append canon empty_table (object one) (some (pos 0))
    ≡ (ok (record { status = appended; event_id = "ddf_f1"; sequence = 1 }), after_one)
unfolding append planned fields_of validate_finding_event invalid_event validate_event finding_text
    get is_text as_text claims_authority fields_claim items_claim require_named is_identifier
    require_identifier is_sha256 require_sha256 require_identifiers overlaps unsigned event_id_for
    forbidden_authority_keys contains is_blank strip sorted text_or_empty id_of expects_negative
    is_negative check_expected transact committed select_id max_sequence
append-one = refl

abbrev first_result : AppendResult
first_result = record { status = appended; event_id = "ddf_f1"; sequence = 1 }

Readable-one : Readable canon one
unfolding finding_text get as_text id_of text_or_empty
Readable-one = record { valid = valid_one; read_back = refl; has_id = refl }

Represents-one : Represents canon (one ∷ []) after_one
unfolding rows_from finding_text id_of text_or_empty get as_text
Represents-one = (refl, refl)

append-Agrees_example :
    Agrees canon
      (append canon empty_table (object one) (some (pos 0)))
      (log_append canon [] one (some (pos 0)))
append-Agrees_example =
    append-Agrees canon [] empty_table one (some (pos 0)) (empty-Represents canon) valid_one

answered_one : (append canon empty_table (object one) (some (pos 0))).0 ≡ ok first_result
answered_one = ap (λ p. p.0) append-one

append-again_example :
    append canon (append canon empty_table (object one) (some (pos 0))).1 (object one) none ≡ (
      ok (record { status = duplicate_noop; event_id = id_of one; sequence = 1 }),
      (append canon empty_table (object one) (some (pos 0))).1,
    )
unfolding expects_negative
append-again_example =
    append-again canon [] empty_table one (some (pos 0)) none first_result (empty-Represents canon)
      valid_one answered_one refl

append-iter_events_example :
    iter_events canon
      (append canon empty_table (object one) (some (pos 0))).1
      (pos (last_sequence empty_table))
    ≡ ok (record { sequence = 1; event = object one } ∷ [])
append-iter_events_example =
    append-iter_events canon [] empty_table one (some (pos 0)) first_result (empty-Represents canon)
      Readable-one answered_one refl

Reached-Holds_example :
    (log : List Fields) × Holds canon (append canon empty_table (object one) (some (pos 0))).1 log
Reached-Holds_example =
    Reached-Holds canon (append canon empty_table (object one) (some (pos 0))).1
      (step start (object one) (some (pos 0)))

other_id : id_of two ≢ id_of one
unfolding id_of text_or_empty get as_text
other_id e = let h : false ≡ true = (eq_iff (id_of two) (id_of one)).1 e in absurd (ground arith)

none_yet : find (id_of two) 1 [] ≡ none
unfolding find
none_yet = refl

append-stale_example :
    append canon
      (append canon empty_table (object one) (some (pos 0))).1
      (object two)
      (some (pos 0))
    ≡ (
      err (expected_sequence_mismatch 0 1),
      (append canon empty_table (object one) (some (pos 0))).1,
    )
append-stale_example =
    append-stale canon [] empty_table one two 0 first_result (empty-Represents canon) valid_one
      valid_two answered_one refl none_yet other_id
