-- ===== src/Browser/Mutation/Reservations/Tests.antt =====
-- Reservations in an empty table, and the theorems on the ledger at them.
use aios_tools.Prelude.{String, ◌≡◌, refl, string_eq, [], ◌∷◌, ok, err, contains}
use aios_tools.Prelude.Dict.{lookup, insert}
use aios_tools.Browser.Mutation.Approval.{mutation_duplicate_blocked}
use aios_tools.Browser.Mutation.Approval.Tests.{grant}
use aios_tools.Browser.Mutation.Reservations.{Row, Table, reserve, mark, status_of}
use aios_tools.Browser.Mutation.Reservations.Blocked.{
  mark_op, perform_all, reserve-perform_all-reserve,
}

abbrev fingerprint : String → String
fingerprint s = s

abbrev row : Row
row = record {
  target_fingerprint = "https://example.org/";
  method = "POST";
  approval_fingerprint = "a1";
  status = "STARTED";
  created_at = 7;
  updated_at = 7;
}

abbrev reserved : Table
reserved = ("k1", row) ∷ []

statements : Unit {0}
unfolding reserve mark status_of lookup insert contains
statements = tt

reserve_free : reserve fingerprint grant 7 [] ≡ ok reserved
unfolding statements
reserve_free = refl

reserve-perform_all-reserve_example :
    reserve fingerprint grant 9
      (perform_all fingerprint (mark_op "k1" "FAILED_NO_EFFECT" 8 ∷ []) reserved)
    ≡ err mutation_duplicate_blocked
reserve-perform_all-reserve_example =
    reserve-perform_all-reserve fingerprint grant grant 7 9 (mark_op "k1" "FAILED_NO_EFFECT" 8 ∷ [])
      [] reserved reserve_free refl
