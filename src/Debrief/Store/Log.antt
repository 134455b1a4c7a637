-- ===== src/Debrief/Store/Log.antt =====
-- The store as an append-only log of events: what the database promises without rows and counters.
use aios_tools.Prelude.{
  ℕ, String, suc, ◌+◌, Bool, true, false, Option, none, some, List, [], ◌∷◌, ◌++◌, length, ◌≡◌,
  refl, ap, ◌∙◌, arith, string_eq, ◌==◌, if◌then◌else◌, Result, ok, err, ◌>>◌, raise_if, not,
  length-append,
}
use aios_tools.Prelude.Integer.{ℤ}
use aios_tools.Prelude.Json.{object, Fields}
use aios_tools.Debrief.Event.{Canon, validate_event, validate_finding_event}
use aios_tools.Debrief.Store.{
  Row, Table, AppendResult, appended, duplicate_noop, StoreError,
  expected_sequence_must_be_nonnegative, event_id_payload_mismatch, row_schema, empty_table,
  select_id, max_sequence, insert_row, id_of, expects_negative, check_expected, transact, committed,
  invalid_event, planned, append, fields_of,
}

-- The place and the event with an id, in a log that begins at place `n`.
unfoldable pub find : String → ℕ → List Fields → Option (ℕ × Fields)
find id n [] = none
find id n (event ∷ log) = if id_of event == id then some (n, event) else find id (suc n) log

module _ (canon : Canon) where
  -- What an append to a log answers, with the log after it.
  unfoldable pub extended :
      List Fields → Fields → Result StoreError Unit → Result StoreError AppendResult × List Fields
  extended log event (err e) = (err e, log)
  extended log event (ok _) = (
    ok (record { status = appended; event_id = id_of event; sequence = suc (length log) }),
    log ++ event ∷ [],
  )

  unfoldable pub log_found :
      List Fields
      → Fields
      → Option ℤ
      → Option (ℕ × Fields)
      → Result StoreError AppendResult × List Fields
  log_found log event expected none = extended log event (check_expected expected (length log))
  log_found log event expected (some (n, own)) =
      if canon.text_of own == canon.text_of event
      then (ok (record { status = duplicate_noop; event_id = id_of event; sequence = n }), log)
      else (err event_id_payload_mismatch, log)

  unfoldable pub log_append :
      List Fields → Fields → Option ℤ → Result StoreError AppendResult × List Fields
  log_append log event expected =
      if expects_negative expected
      then (err expected_sequence_must_be_nonnegative, log)
      else log_found log event expected (find (id_of event) 1 log)

  abbrev pub row_for : ℕ → Fields → Row
  row_for n event = record {
    sequence = n;
    event_id = id_of event;
    event_json = canon.text_of event;
    store_schema = row_schema;
  }

  -- The rows of a log, numbered from `n`.
  unfoldable pub rows_from : ℕ → List Fields → List Row
  rows_from n [] = []
  rows_from n (event ∷ log) = row_for n event ∷ rows_from (suc n) log

  abbrev pub Represents : List Fields → Table → Type 0
  Represents log table = (table.rows ≡ rows_from 1 log) × (table.counter ≡ length log)

  row_found : Option (ℕ × Fields) → Option Row
  row_found none = none
  row_found (some (n, event)) = some (row_for n event)

  select-find :
      (id : String) (n : ℕ) (log : List Fields)
      → select_id id (rows_from n log) ≡ row_found (find id n log)
  unfolding select_id rows_from find row_found
  select-find id n [] = refl
  select-find id n (event ∷ log) = ground (arith, select-find id (suc n) log)

  max_sequence-rows :
      (n : ℕ) (event : Fields) (log : List Fields)
      → max_sequence (rows_from (suc n) (event ∷ log)) ≡ suc n + length log
  unfolding max_sequence rows_from
  max_sequence-rows n event [] = ground arith
  max_sequence-rows n event (next ∷ log) = ground (arith, max_sequence-rows (suc n) next log)

  pub max_sequence-length : (log : List Fields) → max_sequence (rows_from 1 log) ≡ length log
  unfolding max_sequence rows_from
  max_sequence-length [] = refl
  max_sequence-length (event ∷ log) = max_sequence-rows 0 event log ∙ omega arith

  rows_from-append :
      (n : ℕ) (log : List Fields) (event : Fields)
      → rows_from n (log ++ event ∷ []) ≡ rows_from n log ++ row_for (n + length log) event ∷ []
  unfolding rows_from
  rows_from-append n [] event = ground arith
  rows_from-append n (own ∷ log) event = ground (arith, rows_from-append (suc n) log event)

  -- The empty table is the empty log.
  pub empty-Represents : Represents [] empty_table
  unfolding rows_from
  empty-Represents = (refl, refl)

  -- An answer and a table that agree with those of the log.
  abbrev pub Agrees :
      Result StoreError AppendResult × Table → Result StoreError AppendResult × List Fields → Type 0
  Agrees out spec = (out.0 ≡ spec.0) × Represents spec.1 out.1

  inserted-Represents :
      (log : List Fields) (table : Table) (event : Fields)
      → Represents log table
      → Represents (log ++ event ∷ []) (insert_row table (id_of event) (canon.text_of event))
  inserted-Represents log table event r =
      ground (arith, rows_from-append 1 log event, length-append log (event ∷ []))

  extended-Agrees :
      (log : List Fields) (table : Table) (event : Fields) (checked : Result StoreError Unit)
      → Represents log table
      → Agrees
          (committed table (
            checked
            >> ok (
              record { status = appended; event_id = id_of event; sequence = suc table.counter },
              insert_row table (id_of event) (canon.text_of event),
            )))
          (extended log event checked)
  unfolding committed extended
  extended-Agrees log table event (ok u) r = (ground arith, inserted-Represents log table event r)
  extended-Agrees log table event (err e) r = (refl, r)

  same_text-Agrees :
      (log : List Fields) (table : Table) (event : Fields) (n : ℕ) (same : Bool)
      → Represents log table
      → Agrees
          (committed table (
            raise_if (not same) event_id_payload_mismatch
            >> ok
                (record { status = duplicate_noop; event_id = id_of event; sequence = n }, table)))
          (if same
            then (
              ok (record { status = duplicate_noop; event_id = id_of event; sequence = n }),
              log,
            )
            else (err event_id_payload_mismatch, log))
  unfolding committed
  same_text-Agrees log table event n true r = (refl, r)
  same_text-Agrees log table event n false r = (refl, r)

  found-Agrees :
      (log : List Fields) (table : Table) (event : Fields) (expected : Option ℤ)
      (found : Option (ℕ × Fields))
      → Represents log table
      → Agrees
          (committed table
            (transact table (id_of event) (canon.text_of event) expected (row_found found)))
          (log_found log event expected found)
  unfolding row_found log_found transact
  found-Agrees log table event expected none r =
      let top : max_sequence table.rows ≡ length log =
        ap max_sequence r.0 ∙ max_sequence-length log in
      rw top (extended-Agrees log table event (check_expected expected (length log)) r)
  found-Agrees log table event expected (some (n, own)) r =
      same_text-Agrees log table event n (canon.text_of own == canon.text_of event) r

  nonnegative-Agrees :
      (log : List Fields) (table : Table) (negative : Bool)
      (out : Result StoreError (AppendResult × Table))
      (spec : Result StoreError AppendResult × List Fields)
      → Represents log table
      → Agrees (committed table out) spec
      → Agrees
          (committed table (raise_if negative expected_sequence_must_be_nonnegative >> out))
          (if negative then (err expected_sequence_must_be_nonnegative, log) else spec)
  unfolding committed
  nonnegative-Agrees log table true out spec r a = (refl, r)
  nonnegative-Agrees log table false out spec r a = a

  -- An append of a valid event to the store answers as an append to the log, the error included, and
  -- the table after it holds the log after it.
  pub append-Agrees :
      (log : List Fields) (table : Table) (event : Fields) (expected : Option ℤ)
      → Represents log table
      → validate_event canon event ≡ ok tt
      → Agrees (append canon table (object event) expected) (log_append log event expected)
  unfolding append planned fields_of validate_finding_event invalid_event log_append
  append-Agrees log table event expected r v =
      let rows : select_id (id_of event) table.rows ≡ row_found (find (id_of event) 1 log) =
        ap (select_id (id_of event)) r.0 ∙ select-find (id_of event) 1 log in
      rw (v, rows)
        (nonnegative-Agrees log table (expects_negative expected) _ _ r
          (found-Agrees log table event expected (find (id_of event) 1 log) r))
