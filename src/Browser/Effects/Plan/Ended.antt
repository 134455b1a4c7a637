-- ===== src/Browser/Effects/Plan/Ended.antt =====
-- How a call that sends a mutation ends, whatever it does with the answer.
use aios_tools.Prelude.{
  ℕ, String, Bool, true, false, refl, not, Option, none, some, List, [], ◌∷◌, ◌++◌, ◌≡◌, ap, ◌∙◌,
  Result, ok, err, if◌then◌else◌, string_eq, contains, nat_eq, eq_refl, arith, ◌==◌, ◌≢◌,
}
use aios_tools.Browser.Mutation.Reservations.{Table, final_statuses, status_of}
use aios_tools.Browser.Effects.{EffectError, Request, Response, Net}
use aios_tools.Browser.Effects.Check.{CheckReceipt, readcheck, new_context}
use aios_tools.Browser.Effects.Check.Passed.{Passed, readcheck-Passed}
use aios_tools.Browser.Effects.Plan.{
  World, Plan, Outcome, change_of, marked, started_only, failed, replied, concluded, after_precheck,
  in_context, change_sent,
}
use aios_tools.Browser.Effects.Sent.{
  changes, changes-append, Open, mark_of_Open, is_final_failed, is_final_unknown, readcheck-changes,
  Passed-changes,
}

-- The mutation was sent, after a precheck that passed; `answer` is what came back.
pub record Sent (net : Net) (plan : Plan) (before : List Request) (pre : CheckReceipt)
    (answer : Option Response) (sent : List Request) : Type 0 where
  pub prechecked : List Request
  pub passed : Passed net plan.precheck plan.target_origin plan.timeout_ms before pre prechecked
  pub changed : sent ≡ prechecked ++ change_of plan ∷ []
  pub answered : net.respond prechecked (change_of plan) ≡ answer

-- Why a call is over before its mutation.
pub data Stopped (net : Net) (plan : Plan) (owner : String) (before : List Request) : Type 0 where
  not_installed : net.installed ≡ false → Stopped net plan owner before
  not_launched : net.launched ≡ false → Stopped net plan owner before
  no_context :
      (e : EffectError)
      → new_context net plan.session plan.url owner ≡ err e
      → Stopped net plan owner before
  precheck_raised :
      (e : EffectError)
      → (readcheck net plan.precheck plan.target_origin plan.timeout_ms before).0 ≡ err e
      → Stopped net plan owner before

-- An exception before the mutation, one after it, or a reply, of which `Good` holds.
pub data Ended (net : Net) (plan : Plan) (owner : String) (before : List Request) {A : Type 0}
    (Good : A → World → Type 0) : Outcome A → Type 0 where
  no_effect :
      {e : EffectError} {after : World}
      → Stopped net plan owner before
      → changes after.sent ≡ changes before
      → status_of plan.key after.ledger ≡ some "FAILED_NO_EFFECT"
      → Ended net plan owner before Good (err e, after)
  unknown :
      {e : EffectError} {after : World} {pre : CheckReceipt}
      → Sent net plan before pre none after.sent
      → changes after.sent ≡ changes before ++ change_of plan ∷ []
      → status_of plan.key after.ledger ≡ some "MUTATION_STATE_UNKNOWN"
      → Ended net plan owner before Good (err e, after)
  replied_to :
      {reply : A} {after : World}
      → Good reply after
      → Ended net plan owner before Good (ok reply, after)

pub other_status : (m n : ℕ) → (m == n) ≡ false → m ≢ n
other_status m n h e = absurd (ground (arith, eq_refl m))

module _ (net : Net) (plan : Plan) (owner : String) (now : ℕ) (before : List Request) {A : Type 0}
    (Good : A → World → Type 0) where
  abbrev Over : Outcome A → Type 0
  Over = Ended net plan owner before Good

  failed_unsent :
      (e : EffectError) (world : World)
      → Stopped net plan owner before
      → Open plan.key world.ledger
      → changes world.sent ≡ changes before
      → Over (failed plan.key now false e world)
  unfolding failed started_only marked
  failed_unsent e world s o c =
      let (after, done, now_is) =
        mark_of_Open plan.key "FAILED_NO_EFFECT" now world.ledger is_final_failed o in
      rw (o, done) (no_effect s c now_is)

  pub Sent-changes :
      (pre : CheckReceipt) (answer : Option Response) (sent : List Request)
      → Sent net plan before pre answer sent
      → changes sent ≡ changes before ++ change_of plan ∷ []
  unfolding changes
  Sent-changes pre answer sent s =
      ap changes s.changed
      ∙ (changes-append s.prechecked (change_of plan ∷ [])
          ∙ ap (λ l. l ++ change_of plan ∷ [])
              (Passed-changes net plan.precheck plan.target_origin plan.timeout_ms before pre
                s.prechecked s.passed))

  pub failed_sent :
      (e : EffectError) (pre : CheckReceipt) (world : World)
      → Open plan.key world.ledger
      → Sent net plan before pre none world.sent
      → Over (failed plan.key now true e world)
  unfolding failed started_only marked
  failed_sent e pre world o s =
      let (after, done, now_is) =
        mark_of_Open plan.key "MUTATION_STATE_UNKNOWN" now world.ledger is_final_unknown o in
      rw (o, done) (unknown s (Sent-changes pre none world.sent s) now_is)

  pub concluded-Good :
      (status : String) (reply : A) (world : World)
      → contains final_statuses status ≡ true
      → Open plan.key world.ledger
      → ((ledger : Table)
          → status_of plan.key ledger ≡ some status
          → Good reply (record world { ledger = ledger }))
      → Over (concluded plan.key now status reply world)
  unfolding concluded replied
  concluded-Good status reply world f o good =
      let (after, done, now_is) = mark_of_Open plan.key status now world.ledger f o in
      rw done (replied_to (good after now_is))

  branch_Ended :
      (c : Bool) {yes no : Outcome A}
      → (c ≡ false → Over yes)
      → (c ≡ true → Over no)
      → Over (if not c then yes else no)
  branch_Ended true y n = n refl
  branch_Ended false y n = y refl

  module _ (answered : Option String → CheckReceipt → World → Option Response → Outcome A)
      (answered_Ended : (session : Option String) (pre : CheckReceipt) (world : World)
          (answer : Option Response)
        → Open plan.key world.ledger
        → Sent net plan before pre answer world.sent
        → Over (answered session pre world answer)) where
    precheck_Ended :
        (session : Option String) (ledger : Table)
        (pre : Result EffectError CheckReceipt × List Request)
        → readcheck net plan.precheck plan.target_origin plan.timeout_ms before ≡ pre
        → Open plan.key ledger
        → changes pre.1 ≡ changes before
        → Over (after_precheck net plan owner now answered session ledger pre)
    unfolding after_precheck
    precheck_Ended session ledger (err e, sent) p o c =
        failed_unsent e _ (precheck_raised e (ap (λ r. r.0) p)) o c
    precheck_Ended session ledger (ok receipt, sent) p o c =
        answered_Ended session receipt _ _ o (record {
          prechecked = sent;
          passed =
              readcheck-Passed net plan.precheck plan.target_origin plan.timeout_ms before sent
                receipt p;
          changed = refl;
          answered = refl;
        })

    context_Ended :
        (ledger : Table) (context : Result EffectError (Option String))
        → new_context net plan.session plan.url owner ≡ context
        → Open plan.key ledger
        → Over (
            in_context net plan owner now answered
              (record { ledger = ledger; sent = before })
              context)
    unfolding in_context
    context_Ended ledger (err e) p o = failed_unsent e _ (no_context e p) o refl
    context_Ended ledger (ok session) p o =
        precheck_Ended session ledger _ refl o
          (readcheck-changes net plan.precheck plan.target_origin plan.timeout_ms before)

    pub change_sent-Ended :
        (ledger : Table)
        → Open plan.key ledger
        → Over (change_sent net plan owner now answered (record { ledger = ledger; sent = before }))
    unfolding change_sent marked
    change_sent-Ended ledger o =
        let (after, done, now_is) =
          mark_of_Open plan.key "FAILED_NO_EFFECT" now ledger is_final_failed o in
        branch_Ended net.installed (λ gone. rw done (no_effect (not_installed gone) refl now_is))
          (λ here.
            branch_Ended net.launched (λ gone. failed_unsent _ _ (not_launched gone) o refl)
              (λ up. context_Ended ledger _ refl o))
