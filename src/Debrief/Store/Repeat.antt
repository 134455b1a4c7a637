-- ===== src/Debrief/Store/Repeat.antt =====
-- What an append to the store says of the events in it, and what a second one does.
use aios_tools.Prelude.{
  ℕ, Bool-cases, inl, inr, eq→path, suc, eq_refl, ◌+◌, false, Option, none, some, List, [], ◌∷◌,
  ◌++◌, length, ◌≡◌, refl, sym, ap, ◌∙◌, arith, string_eq, nat_eq, ◌==◌, Result, ok, err,
}
use aios_tools.Prelude.Integer.{ℤ, pos}
use aios_tools.Prelude.Json.{object, Fields}
use aios_tools.Debrief.Event.{Canon, validate_event}
use aios_tools.Debrief.Store.{
  Table, AppendResult, appended, duplicate_noop, StoreError, max_sequence, last_sequence, id_of,
  expects_negative, check_expected, append, iter_events,
}
use aios_tools.Debrief.Store.Log.{
  find, extended, log_found, log_append, Represents, append-Agrees, Agrees, max_sequence-length,
}
use aios_tools.Debrief.Store.Replay.{drop, Readable, iter_events-numbered}

module _ (canon : Canon) where
  drop-append :
      (log : List Fields) (event : Fields) → drop (length log) (log ++ event ∷ []) ≡ event ∷ []
  drop-append [] event = refl
  drop-append (own ∷ log) event = drop-append log event

  pub find-append :
      (n : ℕ) (log : List Fields) (event : Fields)
      → find (id_of event) n log ≡ none
      → find (id_of event) n (log ++ event ∷ []) ≡ some (n + length log, event)
  unfolding find
  find-append n [] event h = ground (arith, eq_refl (id_of event))
  find-append n (own ∷ log) event h = ground (arith, find-append (suc n) log event)

  -- What an answer says of the log before and after it.
  abbrev Told : List Fields → Fields → AppendResult → List Fields → Type 0
  Told log event r after =
      (r.event_id ≡ id_of event)
      × (own : Fields) × (find (id_of event) 1 after ≡ some (r.sequence, own))
      × (canon.text_of own ≡ canon.text_of event)
      × (r.status ≡ appended → (after ≡ log ++ event ∷ []) × (r.sequence ≡ suc (length log)))

  extended-Told :
      (log : List Fields) (event : Fields) (checked : Result StoreError Unit) (r : AppendResult)
      → find (id_of event) 1 log ≡ none
      → (extended canon log event checked).0 ≡ ok r
      → Told log event r (extended canon log event checked).1
  unfolding extended
  extended-Told log event (err e) r f h = absurd (ground arith)
  extended-Told log event (ok u) r f h = (
    ground arith,
    event,
    ground (arith, find-append 1 log event f),
    refl,
    λ _. (refl, ground arith),
  )

  found-Told :
      (log : List Fields) (event : Fields) (expected : Option ℤ) (found : Option (ℕ × Fields))
      (r : AppendResult)
      → find (id_of event) 1 log ≡ found
      → (log_found canon log event expected found).0 ≡ ok r
      → Told log event r (log_found canon log event expected found).1
  unfolding log_found
  found-Told log event expected none r f h =
      extended-Told log event (check_expected expected (length log)) r f h
  found-Told log event expected (some (n, own)) r f h =
      elim (Bool-cases (canon.text_of own == canon.text_of event)) [
        | inl same ↦ (
          ground arith,
          own,
          ground arith,
          eq→path (canon.text_of own) (canon.text_of event) same,
          λ p. absurd (ground arith),
        )
        | inr other ↦ absurd (ground arith)
      ]

  log_append-Told :
      (log : List Fields) (event : Fields) (expected : Option ℤ) (r : AppendResult)
      → (log_append canon log event expected).0 ≡ ok r
      → Told log event r (log_append canon log event expected).1
  unfolding log_append
  log_append-Told log event expected r h = elim (Bool-cases (expects_negative expected)) [
    | inl e ↦ absurd (ground arith)
    | inr e ↦
        let same : log_append canon log event expected
            ≡ log_found canon log event expected (find (id_of event) 1 log) =
          ground arith in
        rw same (
          found-Told log event expected (find (id_of event) 1 log) r refl
            (sym (ap (λ p. p.0) same) ∙ h))
  ]

  find-same :
      (log : List Fields) (event own : Fields) (n : ℕ) (expected : Option ℤ)
      → expects_negative expected ≡ false
      → find (id_of event) 1 log ≡ some (n, own)
      → canon.text_of own ≡ canon.text_of event
      → log_append canon log event expected
        ≡ (ok (record { status = duplicate_noop; event_id = id_of event; sequence = n }), log)
  unfolding log_append log_found
  find-same log event own n expected p f t = rw (p, f, t, eq_refl (canon.text_of event)) refl

  same_table :
      (log : List Fields) (left right : Table)
      → Represents canon log left
      → Represents canon log right
      → left ≡ right
  same_table log left right l r = ground arith

  pub answered_again :
      (log : List Fields) (table : Table) (result : Result StoreError AppendResult)
      (out : Result StoreError AppendResult × Table)
      (spec : Result StoreError AppendResult × List Fields)
      → Agrees canon out spec
      → spec ≡ (result, log)
      → Represents canon log table
      → out ≡ (result, table)
  answered_again log table result out spec a e r =
      let there : Represents canon log out.1 = rw (sym (ap (λ p. p.1) e)) a.1 in
      let same : out.1 ≡ table = same_table log out.1 table there r in ground arith

  -- An append that answered changes nothing when it is made again, whatever sequence is expected:
  -- it answers `DUPLICATE_NOOP` with the sequence of the first.
  pub append-again :
      (log : List Fields) (table : Table) (event : Fields) (expected again : Option ℤ)
      (r : AppendResult)
      → Represents canon log table
      → validate_event canon event ≡ ok tt
      → (append canon table (object event) expected).0 ≡ ok r
      → expects_negative again ≡ false
      → append canon (append canon table (object event) expected).1 (object event) again ≡ (
        ok (record { status = duplicate_noop; event_id = id_of event; sequence = r.sequence }),
        (append canon table (object event) expected).1,
      )
  append-again log table event expected again r w v h n =
      let after : Table = (append canon table (object event) expected).1 in
      let log_after : List Fields = (log_append canon log event expected).1 in
      let (answer, represents) = append-Agrees canon log table event expected w v in
      let (_, own, found, equal, _) = log_append-Told log event expected r (sym answer ∙ h) in
      let (second, still) = append-Agrees canon log_after after event again represents v in
      let same = find-same log_after event own r.sequence again n found equal in
      answered_again log_after after _ _ _ (second, still) same represents

  -- The event of an append that answered `APPENDED` is all that the store gives from the sequence
  -- on that was its last before.
  pub append-iter_events :
      (log : List Fields) (table : Table) (event : Fields) (expected : Option ℤ) (r : AppendResult)
      → Represents canon log table
      → Readable canon event
      → (append canon table (object event) expected).0 ≡ ok r
      → r.status ≡ appended
      → iter_events canon (append canon table (object event) expected).1 (pos (last_sequence table))
        ≡ ok (record { sequence = r.sequence; event = object event } ∷ [])
  unfolding last_sequence
  append-iter_events log table event expected r w readable h st =
      let log_after : List Fields = (log_append canon log event expected).1 in
      let (answer, represents) = append-Agrees canon log table event expected w readable.valid in
      let (_, _, _, _, if_appended) = log_append-Told log event expected r (sym answer ∙ h) in
      let (longer, sequence) = if_appended st in
      let events : drop (length log) log_after ≡ event ∷ [] =
        ap (drop (length log)) longer ∙ drop-append log event in
      let top : max_sequence table.rows ≡ length log =
        ap max_sequence w.0 ∙ max_sequence-length canon log in
      rw top (
        iter_events-numbered canon log_after _ (length log) represents (rw events (readable, tt))
        ∙ rw (events, sequence) refl)
