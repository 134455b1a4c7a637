-- ===== src/Debrief/Store/Replay.antt =====
-- What the store gives back: its events in their order, a repeated append, and a stale writer.
use aios_tools.Prelude.{
  ℕ, zero, suc, eq_refl, ◌<◌, ◌+◌, ◌≤◌, true, some, List, [], ◌∷◌, All, ◌≡◌, refl, ap, ◌∙◌, arith,
  string_eq, nat_eq, ok,
}
use aios_tools.Prelude.Integer.{pos}
use aios_tools.Prelude.Json.{text, object, Fields, get, is_text}
use aios_tools.Prelude.Sort.{IsSorted, sorted_of_IsSorted}
use aios_tools.Debrief.Event.{Canon, validate_event, validate_finding_event}
use aios_tools.Debrief.Store.{
  Table, StoredEvent, row_le, newer, id_of, fields_of, loaded, stored_valid, decode_row,
  decode_rows, iter_events,
}
use aios_tools.Debrief.Store.Log.{row_for, rows_from, Represents}

abbrev pub drop : ℕ → List Fields → List Fields
drop zero log = log
drop (suc n) [] = []
drop (suc n) (event ∷ log) = drop n log

-- The events of a log with their places, the first at `n`.
abbrev pub numbered : ℕ → List Fields → List StoredEvent
numbered n [] = []
numbered n (event ∷ log) = record { sequence = n; event = object event } ∷ numbered (suc n) log

module _ (canon : Canon) where
  -- A valid event with an id that JSON gives back as it was.
  pub record Readable (event : Fields) : Type 0 where
    pub valid : validate_event canon event ≡ ok tt
    pub read_back : canon.loads (canon.text_of event) ≡ some (object event)
    pub has_id : get "event_id" event ≡ text (id_of event)

  decode_row-row_for :
      (n : ℕ) (event : Fields)
      → Readable event
      → decode_row canon (row_for canon n event)
        ≡ ok (record { sequence = n; event = object event })
  unfolding decode_row loaded stored_valid fields_of validate_finding_event is_text
  decode_row-row_for n event h = rw (h.read_back, h.valid, h.has_id, eq_refl (id_of event)) refl

  decode_rows-numbered :
      (n : ℕ) (log : List Fields)
      → All Readable log
      → decode_rows canon (rows_from canon n log) ≡ ok (numbered n log)
  unfolding decode_rows rows_from
  decode_rows-numbered n [] h = refl
  decode_rows-numbered n (event ∷ log) h =
      rw (decode_row-row_for n event h.0, decode_rows-numbered (suc n) log h.1) refl

  below :
      (m n : ℕ) (own event : Fields) (log : List Fields)
      → m ≤ n
      → All (λ r. row_le (row_for canon m own) r ≡ true) (rows_from canon n log)
  unfolding rows_from
  below m n own event [] h = tt
  below m n own event (next ∷ log) h = (ground arith, below m (suc n) own event log (omega arith))

  rows_from-IsSorted : (n : ℕ) (log : List Fields) → IsSorted row_le (rows_from canon n log)
  unfolding rows_from
  rows_from-IsSorted n [] = tt
  rows_from-IsSorted n (event ∷ log) =
      (below n (suc n) event event log (omega arith), rows_from-IsSorted (suc n) log)

  newer_all :
      (k n : ℕ) (log : List Fields)
      → k < n
      → newer k (rows_from canon n log) ≡ rows_from canon n log
  unfolding newer rows_from
  newer_all k n [] h = refl
  newer_all k n (event ∷ log) h = ground (arith, newer_all k (suc n) log)

  newer-drop :
      (j n k : ℕ) (log : List Fields)
      → k ≡ n + j
      → newer k (rows_from canon (suc n) log) ≡ rows_from canon (suc k) (drop j log)
  unfolding newer rows_from
  newer-drop zero n k log e =
      newer_all k (suc n) log (omega (arith, e))
      ∙ ap (λ m. rows_from canon (suc m) log) (omega (arith, e))
  newer-drop (suc j) n k [] e = refl
  newer-drop (suc j) n k (event ∷ log) e = ground (arith, newer-drop j (suc n) k log)

  -- The store gives the events of its log from the asked place on, in the order of their appends,
  -- if these can be read back.
  pub iter_events-numbered :
      (log : List Fields) (table : Table) (after : ℕ)
      → Represents canon log table
      → All Readable (drop after log)
      → iter_events canon table (pos after) ≡ ok (numbered (suc after) (drop after log))
  unfolding iter_events
  iter_events-numbered log table after r h =
      let rows : newer after table.rows ≡ rows_from canon (suc after) (drop after log) =
        ap (newer after) r.0 ∙ newer-drop after 0 after log (omega arith) in
      rw (rows, sorted_of_IsSorted row_le _ (rows_from-IsSorted (suc after) (drop after log)))
        (decode_rows-numbered (suc after) (drop after log) h)
