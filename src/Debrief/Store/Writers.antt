-- ===== src/Debrief/Store/Writers.antt =====
-- Every table that appends can reach, whoever makes them, and two writers that saw the same sequence.
use aios_tools.Prelude.{
  ℕ, String, suc, true, false, Option, none, some, List, [], ◌∷◌, ◌++◌, map, length, All,
  all_distinct, all_distinct-snoc, contains, ◌≡◌, refl, sym, ap, ◌∙◌, arith, string_eq, nat_eq,
  eq_iff, ◌==◌, Result, ok, err, inl, inr, length-append, Bool-cases, raise_if, not, ◌≢◌,
}
use aios_tools.Prelude.Integer.{ℤ, pos, is_negative}
use aios_tools.Prelude.Json.{Json, object, Fields}
use aios_tools.Debrief.Event.{DebriefError, Canon, validate_event, validate_finding_event}
use aios_tools.Debrief.Store.{
  Table, empty_table, AppendResult, appended, StoreError, expected_sequence_mismatch, id_of,
  expects_negative, check_expected, append, planned, committed, invalid_event,
}
use aios_tools.Debrief.Store.Log.{
  find, extended, log_found, log_append, Represents, empty-Represents, append-Agrees,
}
use aios_tools.Debrief.Store.Repeat.{answered_again}

-- The tables that calls of `append` lead to, with any event and any expected sequence.
pub data Reached (canon : Canon) : Table → Type 0 where
  start : Reached canon empty_table
  step :
      {table : Table}
      → Reached canon table
      → (event : Json) (expected : Option ℤ) → Reached canon (append canon table event expected).1

module _ (canon : Canon) where
  abbrev pub Valid : Fields → Type 0
  Valid event = validate_event canon event ≡ ok tt

  -- The store holds a log of valid events, no id twice.
  abbrev pub Holds : Table → List Fields → Type 0
  Holds table log =
      Represents canon log table × All Valid log × (all_distinct (map id_of log) ≡ true)

  map-append :
      (log : List Fields) (event : Fields)
      → map id_of (log ++ event ∷ []) ≡ map id_of log ++ id_of event ∷ []
  map-append [] event = refl
  map-append (own ∷ log) event = ap (λ ids. id_of own ∷ ids) (map-append log event)

  All-append :
      (log : List Fields) (event : Fields)
      → All Valid log
      → Valid event
      → All Valid (log ++ event ∷ [])
  All-append [] event h v = (v, tt)
  All-append (own ∷ log) event h v = (h.0, All-append log event h.1 v)

  find-contains :
      (id : String) (n : ℕ) (log : List Fields)
      → find id n log ≡ none
      → contains (map id_of log) id ≡ false
  unfolding find contains
  find-contains id n [] h = refl
  find-contains id n (event ∷ log) h = ground (arith, find-contains id (suc n) log)

  abbrev Good : List Fields → Type 0
  Good log = All Valid log × (all_distinct (map id_of log) ≡ true)

  extended-Good :
      (log : List Fields) (event : Fields) (checked : Result StoreError Unit)
      → Good log
      → Valid event
      → find (id_of event) 1 log ≡ none
      → Good (extended canon log event checked).1
  unfolding extended
  extended-Good log event (err e) g v f = g
  extended-Good log event (ok u) g v f = (
    All-append log event g.0 v,
    ap all_distinct (map-append log event)
        ∙ all_distinct-snoc (map id_of log) (id_of event) g.1 (find-contains (id_of event) 1 log f),
  )

  found-Good :
      (log : List Fields) (event : Fields) (expected : Option ℤ) (found : Option (ℕ × Fields))
      → Good log
      → Valid event
      → find (id_of event) 1 log ≡ found
      → Good (log_found canon log event expected found).1
  unfolding log_found
  found-Good log event expected none g v f = extended-Good log event _ g v f
  found-Good log event expected (some (n, own)) g v f =
      elim (Bool-cases (canon.text_of own == canon.text_of event)) [
        | inl e ↦ rw e g
        | inr e ↦ rw e g
      ]

  log_append-Good :
      (log : List Fields) (event : Fields) (expected : Option ℤ)
      → Good log
      → Valid event
      → Good (log_append canon log event expected).1
  unfolding log_append
  log_append-Good log event expected g v = elim (Bool-cases (expects_negative expected)) [
    | inl e ↦ rw e g
    | inr e ↦ rw e (found-Good log event expected _ g v refl)
  ]

  unchanged :
      (table : Table) (event : Json) (expected : Option ℤ) (e : DebriefError)
      → validate_finding_event canon event ≡ err e
      → (append canon table event expected).1 ≡ table
  unfolding append planned committed invalid_event
  unchanged table event expected e h = rw h refl

  kept :
      (table : Table) (log : List Fields) (event : Json) (expected : Option ℤ)
      (checked : Result DebriefError Unit)
      → Holds table log
      → validate_finding_event canon event ≡ checked
      → (after : List Fields) × Holds (append canon table event expected).1 after
  unfolding validate_finding_event
  kept table log event expected (err e) h c = (log, rw (unchanged table event expected e c) h)
  kept table log (object event) expected (ok u) h c = (
    (log_append canon log event expected).1,
    (
      (append-Agrees canon log table event expected h.0 c).1,
      (log_append-Good log event expected (h.1, h.2) c).0,
      (log_append-Good log event expected (h.1, h.2) c).1,
    ),
  )
  kept table log _ expected (ok u) h c = absurd (ground arith)

  -- However the appends came in, valid or not, repeated or stale: the table they lead to holds a
  -- log of valid events, each id once, numbered from 1 without a gap.
  pub Reached-Holds : (table : Table) → Reached canon table → (log : List Fields) × Holds table log
  unfolding all_distinct
  Reached-Holds table start = ([], (empty-Represents canon, tt, refl))
  Reached-Holds table (step {table = before} r event expected) =
      let (log, h) = Reached-Holds before r in
      kept before log event expected (validate_finding_event canon event) h refl

  same_length : (n m : ℕ) (error : StoreError) → raise_if (not (n == m)) error ≡ ok tt → n ≡ m
  same_length n m error h = ground arith

  appended_at :
      (log : List Fields) (event : Fields) (n : ℕ) (found : Option (ℕ × Fields)) (r : AppendResult)
      → (log_found canon log event (some (pos n)) found).0 ≡ ok r
      → r.status ≡ appended
      → (n ≡ length log) × ((log_found canon log event (some (pos n)) found).1 ≡ log ++ event ∷ [])
  unfolding log_found extended check_expected
  appended_at log event n none r h s = (ground arith, ground arith)
  appended_at log event n (some (m, own)) r h s = absurd (ground arith)

  stale_append :
      (log : List Fields) (event : Fields) (n : ℕ)
      → length log ≡ suc n
      → find (id_of event) 1 log ≡ none
      → log_append canon log event (some (pos n))
        ≡ (err (expected_sequence_mismatch n (suc n)), log)
  unfolding log_append log_found extended check_expected expects_negative is_negative
  stale_append log event n d f = rw f (ground arith)

  find-other :
      (n : ℕ) (log : List Fields) (event other : Fields)
      → find (id_of other) n log ≡ none
      → id_of other ≢ id_of event
      → find (id_of other) n (log ++ event ∷ []) ≡ none
  unfolding find
  find-other n [] event other f d = ground (arith, eq_iff (id_of event) (id_of other))
  find-other n (own ∷ log) event other f d = ground (arith, find-other (suc n) log event other)

  -- Of two writers that expect the same sequence only one appends: after an append with it, that of
  -- another event which the log did not hold is a conflict, and leaves the table as it was.
  pub append-stale :
      (log : List Fields) (table : Table) (first other : Fields) (n : ℕ) (r : AppendResult)
      → Represents canon log table
      → Valid first
      → Valid other
      → (append canon table (object first) (some (pos n))).0 ≡ ok r
      → r.status ≡ appended
      → find (id_of other) 1 log ≡ none
      → id_of other ≢ id_of first
      → append canon
          (append canon table (object first) (some (pos n))).1
          (object other)
          (some (pos n))
        ≡ (
          err (expected_sequence_mismatch n (suc n)),
          (append canon table (object first) (some (pos n))).1,
        )
  unfolding log_append expects_negative is_negative
  append-stale log table first other n r w v v' h st f d =
      let after : Table = (append canon table (object first) (some (pos n))).1 in
      let (answer, represents) = append-Agrees canon log table first (some (pos n)) w v in
      let (here, longer) =
        appended_at log first n (find (id_of first) 1 log) r (sym answer ∙ h) st in
      let now : Represents canon (log ++ first ∷ []) after = rw (sym longer) represents in
      let longer_by : length (log ++ first ∷ []) ≡ suc n =
        length-append log (first ∷ []) ∙ omega (arith, here) in
      answered_again canon (log ++ first ∷ []) after _ _ _
        (append-Agrees canon (log ++ first ∷ []) after other (some (pos n)) now v')
        (stale_append (log ++ first ∷ []) other n longer_by (find-other 1 log first other f d)) now
