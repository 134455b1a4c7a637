-- ===== src/Browser/Effects/Sent.antt =====
-- The requests of a call that change the remote state, and its reservation while it is not decided.
use aios_tools.Prelude.{
  ℕ, String, true, some, List, [], ◌∷◌, ◌++◌, ◌≡◌, refl, ap, ◌∙◌, arith, string_eq, nat_eq, ok,
  Result-cases, inl, inr, contains,
}
use aios_tools.Prelude.Json.{Fields}
use aios_tools.Browser.Mutation.Reservations.{Table, final_statuses, mark, status_of}
use aios_tools.Browser.Mutation.Reservations.Blocked.{mark_lem}
use aios_tools.Browser.Effects.{Request, read, change, Net}
use aios_tools.Browser.Effects.Check.Passed.{Passed}
use aios_tools.Browser.Effects.Check.{CheckReceipt, readcheck, sent_check, check_request}

-- The requests that change the remote state.
unfoldable pub changes : List Request → List Request
changes [] = []
changes (read url timeout ∷ rest) = changes rest
changes (change url method body headers timeout ∷ rest) =
    change url method body headers timeout ∷ changes rest

pub changes-append :
    (left right : List Request) → changes (left ++ right) ≡ changes left ++ changes right
unfolding changes
changes-append [] right = refl
changes-append (read url timeout ∷ rest) right = changes-append rest right
changes-append (change url method body headers timeout ∷ rest) right =
    ap (λ l. change url method body headers timeout ∷ l) (changes-append rest right)

append_nil : (xs : List Request) → xs ++ [] ≡ xs
append_nil [] = refl
append_nil (x ∷ xs) = ap (λ l. x ∷ l) (append_nil xs)

-- A ledger with the reservation of a key that is not decided yet.
abbrev pub Open : String → Table → Type 0
Open key ledger = status_of key ledger ≡ some "STARTED"

pub mark_of_Open :
    (key status : String) (now : ℕ) (ledger : Table)
    → contains final_statuses status ≡ true
    → Open key ledger
    → (after : Table) × (mark key status now ledger ≡ ok after)
      × (status_of key after ≡ some status)
unfolding status_of
mark_of_Open key status now ledger h o =
    let (after, done, now_is, _) =
      (mark_lem key status now ledger h).1 (λ gone. absurd (ground arith)) in
    (after, done, now_is)

pub is_final_failed : contains final_statuses "FAILED_NO_EFFECT" ≡ true
unfolding contains
is_final_failed = refl

pub is_final_unknown : contains final_statuses "MUTATION_STATE_UNKNOWN" ≡ true
unfolding contains
is_final_unknown = refl

pub is_final_succeeded : contains final_statuses "SUCCEEDED" ≡ true
unfolding contains
is_final_succeeded = refl

module _ (net : Net) where
  pub readcheck-changes :
      (check : Fields) (origin : String) (timeout : ℕ) (sent : List Request)
      → changes (readcheck net check origin timeout sent).1 ≡ changes sent
  unfolding readcheck sent_check changes
  readcheck-changes check origin timeout sent =
      elim (Result-cases (check_request net check origin)) [
        | inl ((url, status), e) ↦
            rw e (changes-append sent (read url timeout ∷ []) ∙ append_nil (changes sent))
        | inr (x, e) ↦ rw e refl
      ]

  pub Passed-changes :
      (check : Fields) (origin : String) (timeout : ℕ) (before : List Request)
      (receipt : CheckReceipt) (after : List Request)
      → Passed net check origin timeout before receipt after
      → changes after ≡ changes before
  unfolding changes
  Passed-changes check origin timeout before receipt after p =
      ap changes p.asked
      ∙ (changes-append before (read p.url timeout ∷ []) ∙ append_nil (changes before))
