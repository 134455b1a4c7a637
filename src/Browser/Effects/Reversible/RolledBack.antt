-- ===== src/Browser/Effects/Reversible/RolledBack.antt =====
-- A reversible mutation that was answered as expected is rolled back, or reported as not.
use aios_tools.Prelude.{
  ℕ, String, Bool, eq_refl, sym, ◌↔◌, true, false, Option, none, some, List, [], ◌∷◌, ◌++◌, ◌≡◌,
  refl, ap, ◌∙◌, arith, string_eq, nat_eq, ◌==◌, Result, ok, err, inl, inr, Bool-cases, eq→path,
  contains,
}
use aios_tools.Browser.Mutation.Approval.{Grant}
use aios_tools.Browser.Mutation.Reservations.{Table, final_statuses}
use aios_tools.Browser.Effects.{EffectError, Request, Response, Net}
use aios_tools.Browser.Effects.Check.{CheckReceipt, readcheck}
use aios_tools.Browser.Effects.Check.Passed.{readcheck-Passed}
use aios_tools.Browser.Effects.Sent.{
  changes, changes-append, Open, is_final_unknown, readcheck-changes,
}
use aios_tools.Browser.Effects.Plan.{World, Plan, Outcome, change_of, concluded}
use aios_tools.Browser.Effects.Plan.Ended.{
  Ended, Sent, Sent-changes, failed_sent, concluded-Good, change_sent-Ended, other_status,
}
use aios_tools.Browser.Effects.Reversible.{
  Rollback, Reply, rollback_of, is_status, reply_of, verified, after_restore, after_rollback,
  receipt_of, after_postcheck, after_change, run,
}
use aios_tools.Browser.Effects.Reversible.Verdict.{
  Postchecked, verified_post, unverified_post, Restored, unanswered, refused, unrestored, restored,
  Verdict, unexpected, reverted, Good,
}

is_final_rollback_failed : contains final_statuses "ROLLBACK_FAILED" ≡ true
unfolding contains
is_final_rollback_failed = refl

is_final_rolled_back : contains final_statuses "ROLLED_BACK" ≡ true
unfolding contains
is_final_rolled_back = refl

append_assoc : (xs : List Request) (a b : Request) → (xs ++ a ∷ []) ++ b ∷ [] ≡ xs ++ a ∷ b ∷ []
append_assoc [] a b = refl
append_assoc (x ∷ xs) a b = ap (λ l. x ∷ l) (append_assoc xs a b)

is_status_iff : (own : Option ℕ) (status : ℕ) → (is_status own status ≡ true) ↔ (own ≡ some status)
unfolding is_status
is_status_iff none status = (λ h. absurd (ground arith), λ h. absurd (ground arith))
is_status_iff (some own) status =
    (λ h. ap some (sym (eq→path status own h)), λ h. ground (arith, eq_refl status))

module _ (net : Net) (plan : Plan) (back : Rollback) (used : Grant) (now : ℕ)
    (before : List Request) where
  abbrev Fine : Outcome Reply → Type 0
  Fine = Ended net plan used.request_id before (Good net plan back before)

  abbrev Both : List Request → Type 0
  Both sent = changes sent ≡ changes before ++ change_of plan ∷ rollback_of plan back ∷ []

  module _ (session : Option String) (pre : CheckReceipt) (response : Response)
      (changed : List Request) (s : Sent net plan before pre (some response) changed) where
    concluded-Fine :
        (status : String) (success : Bool) (post : Option CheckReceipt) (attempted : Bool)
        (rollback_status : Option ℕ) (again : Option CheckReceipt) (world : World)
        → contains final_statuses status ≡ true
        → Open plan.key world.ledger
        → ((ledger : Table)
            → Verdict net plan back before response changed
                (reply_of net plan back used now status success response.status pre post session
                  attempted rollback_status again)
                (record world { ledger = ledger }))
        → Fine (
            concluded plan.key now status
              (reply_of net plan back used now status success response.status pre post session
                attempted rollback_status again)
              world)
    unfolding reply_of
    concluded-Fine status success post attempted rollback_status again world f o verdict =
        concluded-Good net plan used.request_id now before (Good net plan back before) status _
          world f o
          (λ ledger now_is. record {
            response = response;
            changed = changed;
            sent = s;
            answered = refl;
            verdict = verdict ledger;
            recorded = now_is;
          })

    module _ (same : response.status ≡ plan.expected_status) (post : Option CheckReceipt)
        (checked : List Request)
        (found : (status : String) (success : Bool) (rollback_status : Option ℕ)
            (again : Option CheckReceipt)
          → Postchecked net plan changed
              (reply_of net plan back used now status success response.status pre post session true
                rollback_status again)
              checked) where
      failed_Fine :
          (rollback_status : Option ℕ) (world : World)
          → Open plan.key world.ledger
          → Both world.sent
          → ((ledger : Table)
              → Restored net plan back checked
                  (reply_of net plan back used now "ROLLBACK_FAILED" false response.status pre post
                    session true rollback_status none)
                  (record world { ledger = ledger }))
          → Fine (
              concluded plan.key now "ROLLBACK_FAILED"
                (reply_of net plan back used now "ROLLBACK_FAILED" false response.status pre post
                  session true rollback_status none)
                world)
      unfolding reply_of
      failed_Fine rollback_status world o both end =
          concluded-Fine "ROLLBACK_FAILED" false post true rollback_status none world
            is_final_rollback_failed o
            (λ ledger.
              reverted same (found "ROLLBACK_FAILED" false rollback_status none) refl (end ledger)
                both)

      restore_Fine :
          (answer : Response) (ledger : Table)
          (again : Result EffectError CheckReceipt × List Request)
          → readcheck net back.postcheck plan.target_origin plan.timeout_ms
              (checked ++ rollback_of plan back ∷ [])
            ≡ again
          → net.respond checked (rollback_of plan back) ≡ some answer
          → back.expected_status ≡ some answer.status
          → Open plan.key ledger
          → Both again.1
          → Fine
              (after_restore net plan back used now session pre post response.status ledger again)
      unfolding after_restore reply_of
      restore_Fine answer ledger (err e, sent) p a expected o both =
          failed_Fine none (record { ledger = ledger; sent = sent }) o both
            (λ after.
              unrestored a expected p
                (record { terminal = refl; no_success = refl; no_receipt = refl }))
      restore_Fine answer ledger (ok receipt, sent) p a expected o both =
          concluded-Fine "ROLLED_BACK" (verified post) post true none (some receipt)
            (record { ledger = ledger; sent = sent }) is_final_rolled_back o
            (λ after.
              reverted same (found "ROLLED_BACK" (verified post) none (some receipt)) refl
                (restored a expected
                  (readcheck-Passed net back.postcheck plan.target_origin plan.timeout_ms
                    (checked ++ rollback_of plan back ∷ []) sent receipt p)
                  refl refl refl)
                both)

      rollback_Fine :
          (ledger : Table) (answer : Option Response)
          → net.respond checked (rollback_of plan back) ≡ answer
          → Open plan.key ledger
          → Both (checked ++ rollback_of plan back ∷ [])
          → Fine (
              after_rollback net plan back used now session pre post response.status
                (record { ledger = ledger; sent = checked ++ rollback_of plan back ∷ [] })
                answer)
      unfolding after_rollback reply_of
      rollback_Fine ledger none a o both = failed_Fine none _ o both (λ after.
          unanswered a refl (record { terminal = refl; no_success = refl; no_receipt = refl }))
      rollback_Fine ledger (some answer) a o both =
          elim (Bool-cases (is_status back.expected_status answer.status)) [
            | inl e ↦ rw e (
                restore_Fine answer ledger _ refl a
                  ((is_status_iff back.expected_status answer.status).0 e) o
                  (readcheck-changes net back.postcheck plan.target_origin plan.timeout_ms
                      (checked ++ rollback_of plan back ∷ [])
                    ∙ both))
            | inr e ↦ rw e (
                failed_Fine (some answer.status) _ o both (λ after.
                  refused a
                    (λ x.
                      absurd
                        (ground (arith, (is_status_iff back.expected_status answer.status).1 x)))
                    refl refl (record { terminal = refl; no_success = refl; no_receipt = refl })))
          ]

    rolled-Both :
        (checked : List Request)
        → changes checked ≡ changes before ++ change_of plan ∷ []
        → Both (checked ++ rollback_of plan back ∷ [])
    unfolding changes
    rolled-Both checked c =
        changes-append checked (rollback_of plan back ∷ [])
        ∙ (ap (λ l. l ++ rollback_of plan back ∷ []) c
            ∙ append_assoc (changes before) (change_of plan) (rollback_of plan back))

    postcheck_Fine :
        (ledger : Table) (post : Result EffectError CheckReceipt × List Request)
        → readcheck net plan.postcheck plan.target_origin plan.timeout_ms changed ≡ post
        → response.status ≡ plan.expected_status
        → Open plan.key ledger
        → changes post.1 ≡ changes before ++ change_of plan ∷ []
        → Fine (after_postcheck net plan back used now session pre response.status ledger post)
    unfolding after_postcheck receipt_of reply_of
    postcheck_Fine ledger (err e, sent) p same o c =
        rollback_Fine same none sent (λ status success rolled again. unverified_post p refl refl)
          ledger _ refl o (rolled-Both sent c)
    postcheck_Fine ledger (ok receipt, sent) p same o c =
        rollback_Fine same (some receipt) sent
          (λ status success rolled again.
            verified_post
              (readcheck-Passed net plan.postcheck plan.target_origin plan.timeout_ms changed sent
                receipt p)
              refl refl)
          ledger _ refl o (rolled-Both sent c)

  change_Fine :
      (session : Option String) (pre : CheckReceipt) (world : World) (answer : Option Response)
      → Open plan.key world.ledger
      → Sent net plan before pre answer world.sent
      → Fine (after_change net plan back used now session pre world answer)
  unfolding after_change reply_of
  change_Fine session pre world none o s =
      failed_sent net plan used.request_id now before (Good net plan back before) _ pre world o s
  change_Fine session pre world (some response) o s =
      elim (Bool-cases (response.status == plan.expected_status)) [
        | inl same ↦ rw same (
            postcheck_Fine session pre response world.sent s world.ledger _ refl
              (eq→path response.status plan.expected_status same) o
              (readcheck-changes net plan.postcheck plan.target_origin plan.timeout_ms world.sent
                ∙ Sent-changes net plan used.request_id now before (Good net plan back before) pre
                    (some response) world.sent s))
        | inr other ↦ rw other (
            concluded-Fine session pre response world.sent s "MUTATION_STATE_UNKNOWN" false none
              false none none world is_final_unknown o
              (λ after.
                unexpected (other_status response.status plan.expected_status other) refl refl refl
                  refl))
      ]

  pub run-Fine :
      (ledger : Table)
      → Open plan.key ledger
      → Fine (run net plan back used now (record { ledger = ledger; sent = before }))
  unfolding run
  run-Fine ledger o =
      change_sent-Ended net plan used.request_id now before (Good net plan back before)
        (after_change net plan back used now) change_Fine ledger o
