-- ===== src/Browser/Mutation/Reservations/Blocked.antt =====
-- A reserved idempotency key is never free again.
use aios_tools.Prelude.{
  ℕ, String, true, none, some, List, [], ◌∷◌, ◌≡◌, ◌≢◌, arith, string_eq, eq_iff, Result, ok, err,
  contains, Option-cases, inl, inr,
}
use aios_tools.Prelude.Dict.{lookup, insert, lookup-insert}
use aios_tools.Browser.Mutation.Approval.{
  MutationError, mutation_duplicate_blocked, mutation_ledger_missing, Grant,
}
use aios_tools.Browser.Mutation.Reservations.{
  Table, final_statuses, row_of, reserve, mark, status_of,
}

-- A statement on the table.
pub data Op : Type 0 where
  reserve_op : Grant → ℕ → Op
  mark_op : (key status : String) → ℕ → Op

kept : Result MutationError Table → Table → Table
kept (ok after) before = after
kept (err _) before = before

module _ (fingerprint : String → String) where
  -- The table after a statement; one that raises has changed nothing.
  pub perform : Op → Table → Table
  unfolding kept
  perform (reserve_op grant now) table = kept (reserve fingerprint grant now table) table
  perform (mark_op key status now) table = kept (mark key status now table) table

  pub perform_all : List Op → Table → Table
  perform_all [] table = table
  perform_all (op ∷ ops) table = perform_all ops (perform op table)

  perform-keeps :
      (op : Op) (key : String) (table : Table)
      → lookup key table ≢ none
      → lookup key (perform op table) ≢ none
  unfolding perform reserve mark
  perform-keeps (reserve_op grant now) key table h =
      ground (arith, lookup-insert grant.idempotency_key key (row_of fingerprint grant now) table)
  perform-keeps (mark_op own status now) key table h = elim (Option-cases (lookup own table)) [
    | inl gone ↦ ground arith
    | inr (row, e) ↦
        ground
          (arith, lookup-insert own key (record row { status = status; updated_at = now }) table)
  ]

  perform_all-keeps :
      (ops : List Op) (key : String) (table : Table)
      → lookup key table ≢ none
      → lookup key (perform_all ops table) ≢ none
  unfolding perform_all
  perform_all-keeps [] key table h = h
  perform_all-keeps (op ∷ ops) key table h =
      perform_all-keeps ops key (perform op table) (perform-keeps op key table h)

  reserve-held :
      (grant : Grant) (now : ℕ) (table after : Table)
      → reserve fingerprint grant now table ≡ ok after
      → lookup grant.idempotency_key after ≢ none
  unfolding reserve
  reserve-held grant now table after e = ground (
    arith,
    lookup-insert grant.idempotency_key grant.idempotency_key (row_of fingerprint grant now) table,
    eq_iff grant.idempotency_key grant.idempotency_key,
  )

  pub held-blocked :
      (grant : Grant) (now : ℕ) (table : Table)
      → lookup grant.idempotency_key table ≢ none
      → reserve fingerprint grant now table ≡ err mutation_duplicate_blocked
  unfolding reserve
  held-blocked grant now table h = ground arith

  -- A reservation that returns has begun a key that the table did not hold.
  pub reserve-started :
      (grant : Grant) (now : ℕ) (table after : Table)
      → reserve fingerprint grant now table ≡ ok after
      → (lookup grant.idempotency_key table ≡ none)
        × (status_of grant.idempotency_key after ≡ some "STARTED")
  unfolding reserve status_of
  reserve-started grant now table after e =
      let absent : lookup grant.idempotency_key table ≡ none = ground arith in
      (
        absent,
        ground (
          arith,
          lookup-insert grant.idempotency_key grant.idempotency_key (row_of fingerprint grant now)
              table,
          eq_iff grant.idempotency_key grant.idempotency_key,
        ),
      )

  -- Once a key is reserved, every later reservation of it is refused as a duplicate, whatever was
  -- reserved and marked in between.
  pub reserve-perform_all-reserve :
      (first again : Grant) (now later : ℕ) (ops : List Op) (table after : Table)
      → reserve fingerprint first now table ≡ ok after
      → again.idempotency_key ≡ first.idempotency_key
      → reserve fingerprint again later (perform_all ops after) ≡ err mutation_duplicate_blocked
  reserve-perform_all-reserve first again now later ops table after e same =
      held-blocked again later (perform_all ops after) (
        perform_all-keeps ops again.idempotency_key after
          (rw same (reserve-held first now table after e)))

-- `mark` of an admitted status returns exactly for a reserved key; the key then has that status, and
-- the status of every other key stays.
pub mark_lem :
    (key status : String) (now : ℕ) (table : Table)
    → contains final_statuses status ≡ true
    → ((lookup key table ≡ none) → mark key status now table ≡ err mutation_ledger_missing)
      × ((lookup key table ≢ none)
          → (after : Table) × (mark key status now table ≡ ok after)
            × (status_of key after ≡ some status)
            × ((other : String) → key ≢ other → status_of other after ≡ status_of other table))
unfolding mark status_of
mark_lem key status now table h = elim (Option-cases (lookup key table)) [
  | inl gone ↦ (λ _. ground arith, λ held. absurd (held gone))
  | inr (row, e) ↦ (
    λ gone. ground arith,
    λ _. (
      insert key (record row { status = status; updated_at = now }) table,
      ground arith,
      ground (
        arith,
        lookup-insert key key (record row { status = status; updated_at = now }) table,
        eq_iff key key,
      ),
      λ other differs. ground (
        arith,
        lookup-insert key other (record row { status = status; updated_at = now }) table,
        eq_iff key other,
      ),
    ),
  )
]
