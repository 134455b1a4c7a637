-- ===== src/Browser/Mutation/Reservations.antt =====
-- src/aios_tools/browser/mutation.py: `MutationLedger`. The table is a dictionary by idempotency
-- key, its primary key; a statement that SQLite rejects changes nothing.
pub mod Blocked
mod Tests
use aios_tools.Prelude.{
  ℕ, String, Bool, Option, none, some, List, [], ◌∷◌, not, contains, string_eq, if◌then◌else◌,
  Result, ok, err,
}
use aios_tools.Prelude.Dict.{Dict, lookup, insert}
use aios_tools.Browser.Mutation.Approval.{
  MutationError, mutation_duplicate_blocked, mutation_ledger_missing, invalid_status, Grant,
}

pub record Row : Type 0 where
  pub target_fingerprint : String
  pub method : String
  pub approval_fingerprint : String
  pub status : String
  pub created_at : ℕ
  pub updated_at : ℕ

abbrev pub Table : Type 0
Table = Dict String Row

-- The statuses that `mark` writes.
abbrev pub final_statuses : List String
final_statuses =
    "SUCCEEDED" ∷ "FAILED_NO_EFFECT" ∷ "MUTATION_STATE_UNKNOWN" ∷ "ROLLED_BACK" ∷ "ROLLBACK_FAILED"
    ∷ []

-- `_fingerprint`, a digest of the text
module _ (fingerprint : String → String) where
  row_of : Grant → ℕ → Row
  row_of grant now = record {
    target_fingerprint = fingerprint grant.target_url;
    method = grant.method;
    approval_fingerprint = fingerprint grant.approval_id;
    status = "STARTED";
    created_at = now;
    updated_at = now;
  }

  -- INSERT under the primary key
  insert_row : Grant → ℕ → Option Row → Table → Result MutationError Table
  unfolding row_of
  insert_row grant now none table = ok (insert grant.idempotency_key (row_of grant now) table)
  insert_row grant now (some _) table = err mutation_duplicate_blocked

  unfoldable pub reserve : Grant → ℕ → Table → Result MutationError Table
  unfolding insert_row
  reserve grant now table = insert_row grant now (lookup grant.idempotency_key table) table

update_row : String → String → ℕ → Option Row → Table → Result MutationError Table
update_row key status now none table = err mutation_ledger_missing
update_row key status now (some row) table =
    ok (insert key (record row { status = status; updated_at = now }) table)

unfoldable pub mark : String → String → ℕ → Table → Result MutationError Table
unfolding update_row
mark key status now table =
    if not (contains final_statuses status)
    then err invalid_status
    else update_row key status now (lookup key table) table

status_field : Option Row → Option String
status_field none = none
status_field (some row) = some row.status

unfoldable pub status_of : String → Table → Option String
unfolding status_field
status_of key table = status_field (lookup key table)
