-- ===== src/Debrief/Store.antt =====
-- src/aios_tools/experimental/daily_debrief_event_store.py: the SQLite store of finding events. The
-- table is its rows in the order of their insertion, with the largest sequence that AUTOINCREMENT
-- has given out; a transaction that raises is rolled back. The database itself is taken to answer.
pub mod Log
pub mod Replay
pub mod Repeat
pub mod Writers
mod Tests
use aios_tools.Prelude.{
  ℕ, String, suc, Bool, true, false, not, Option, none, some, List, [], ◌∷◌, ◌++◌, ltb, leb,
  string_eq, nat_eq, ◌==◌, if◌then◌else◌, Result, ok, err, raise_if, ◌>>=◌, ◌>>◌,
}
use aios_tools.Prelude.Integer.{ℤ, pos, negsuc, is_negative}
use aios_tools.Prelude.Json.{Json, object, Fields, get, is_text, as_text}
use aios_tools.Prelude.Sort.{sorted}
use aios_tools.Debrief.Event.{DebriefError, Canon, validate_event, validate_finding_event}

pub record Row : Type 0 where
  pub sequence : ℕ
  pub event_id : String
  pub event_json : String
  pub store_schema : String

pub record Table : Type 0 where
  pub rows : List Row
  pub counter : ℕ

pub data AppendStatus : Type 0 where
  appended duplicate_noop : AppendStatus

pub record AppendResult : Type 0 where
  pub status : AppendStatus
  pub event_id : String
  pub sequence : ℕ

pub record StoredEvent : Type 0 where
  pub sequence : ℕ
  pub event : Json

-- What the methods raise: the errors of validation, of the arguments, of a concurrent writer, and
-- of a corrupted store.
pub data StoreError : Type 0 where
  invalid : DebriefError → StoreError
  expected_sequence_must_be_nonnegative after_sequence_must_be_nonnegative event_id_required :
      StoreError
  expected_sequence_mismatch : ℕ → ℕ → StoreError
  unsupported_store_schema event_id_payload_mismatch stored_event_json_invalid stored_event_invalid
        stored_event_id_mismatch :
      StoreError

abbrev pub row_schema : String
row_schema = "daily-debrief-event-store/v1"

-- `_initialize` of a new database
abbrev pub empty_table : Table
empty_table = record { rows = []; counter = 0 }

-- `SELECT ... WHERE event_id = ?`, its first row
unfoldable pub select_id : String → List Row → Option Row
select_id id [] = none
select_id id (row ∷ rows) = if row.event_id == id then some row else select_id id rows

-- `COALESCE(MAX(sequence), 0)`
unfoldable pub max_sequence : List Row → ℕ
max_sequence [] = 0
max_sequence (row ∷ rows) =
    let rest = max_sequence rows in if leb rest row.sequence then row.sequence else rest

-- `INSERT INTO daily_debrief_events`
abbrev pub insert_row : Table → String → String → Table
insert_row table id json = record {
  rows =
      table.rows
      ++ record {
        sequence = suc table.counter;
        event_id = id;
        event_json = json;
        store_schema = row_schema;
      }
        ∷ [];
  counter = suc table.counter;
}

-- `event["event_id"]` of a valid event, which is a text
text_or_empty : Option String → String
text_or_empty none = ""
text_or_empty (some s) = s

unfoldable pub id_of : Fields → String
unfolding text_or_empty
id_of event = text_or_empty (as_text (get "event_id" event))

unfoldable pub expects_negative : Option ℤ → Bool
expects_negative none = false
expects_negative (some n) = is_negative n

-- `expected_sequence is not None and expected_sequence != current`, for one that is not negative
unfoldable pub check_expected : Option ℤ → ℕ → Result StoreError Unit
check_expected (some (pos n)) current =
    raise_if (not (n == current)) (expected_sequence_mismatch n current)
check_expected _ current = ok tt

-- The transaction of `append`, after the lookup of the id.
unfoldable pub transact :
    Table → String → String → Option ℤ → Option Row → Result StoreError (AppendResult × Table)
transact table id json expected (some row) = do
  raise_if (not (row.store_schema == row_schema)) unsupported_store_schema
  raise_if (not (row.event_json == json)) event_id_payload_mismatch
  ok (record { status = duplicate_noop; event_id = id; sequence = row.sequence }, table)
transact table id json expected none = do
  check_expected expected (max_sequence table.rows)
  ok (
    record { status = appended; event_id = id; sequence = suc table.counter },
    insert_row table id json,
  )

-- What a call returns or raises, with the table after it: `ROLLBACK` on an exception.
unfoldable pub committed :
    Table → Result StoreError (AppendResult × Table) → Result StoreError AppendResult × Table
committed table (ok (result, changed)) = (ok result, changed)
committed table (err e) = (err e, table)

unfoldable pub invalid_event : Result DebriefError Unit → Result StoreError Unit
invalid_event (ok _) = ok tt
invalid_event (err e) = err (invalid e)

unfoldable pub newer : ℕ → List Row → List Row
newer after [] = []
newer after (row ∷ rows) =
    let rest = newer after rows in if ltb after row.sequence then row ∷ rest else rest

-- `ORDER BY sequence ASC`
abbrev pub row_le : Row → Row → Bool
row_le a b = leb a.sequence b.sequence

-- `contains`
unfoldable pub contains_event : Table → String → Result StoreError Bool
contains_event table id = do
  raise_if (id == "") event_id_required
  ok (elim (select_id id table.rows) [ none ↦ false | some row ↦ true ])

-- `last_sequence`
unfoldable pub last_sequence : Table → ℕ
last_sequence table = max_sequence table.rows

fields_of : Json → Fields
fields_of (object fields) = fields
fields_of _ = Fields.end

module _ (canon : Canon) where
  planned : Table → Json → Option ℤ → Result StoreError (AppendResult × Table)
  unfolding fields_of
  planned table event expected = do
    invalid_event (validate_finding_event canon event)
    raise_if (expects_negative expected) expected_sequence_must_be_nonnegative
    transact table (id_of (fields_of event)) (canon.text_of (fields_of event)) expected
        (select_id (id_of (fields_of event)) table.rows)

  -- `append`
  unfoldable pub append : Table → Json → Option ℤ → Result StoreError AppendResult × Table
  unfolding planned
  append table event expected = committed table (planned table event expected)

  loaded : Option Json → Result StoreError Json
  loaded none = err stored_event_json_invalid
  loaded (some event) = ok event

  stored_valid : Result DebriefError Unit → Result StoreError Unit
  stored_valid (ok _) = ok tt
  stored_valid (err e) = err stored_event_invalid

  -- `_decode_row`
  unfoldable pub decode_row : Row → Result StoreError StoredEvent
  unfolding loaded stored_valid fields_of
  decode_row row = do
    raise_if (not (row.store_schema == row_schema)) unsupported_store_schema
    event ← loaded (canon.loads row.event_json)
    stored_valid (validate_finding_event canon event)
    raise_if (not (is_text (get "event_id" (fields_of event)) row.event_id))
        stored_event_id_mismatch
    ok (record { sequence = row.sequence; event = event })

  unfoldable pub decode_rows : List Row → Result StoreError (List StoredEvent)
  decode_rows [] = ok []
  decode_rows (row ∷ rows) = do
    event ← decode_row row
    events ← decode_rows rows
    ok (event ∷ events)

  -- `iter_events`
  unfoldable pub iter_events : Table → ℤ → Result StoreError (List StoredEvent)
  iter_events table (negsuc n) = err after_sequence_must_be_nonnegative
  iter_events table (pos after) = decode_rows (sorted row_le (newer after table.rows))
