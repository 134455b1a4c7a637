-- ===== src/Browser/Effects/Mutate/Once.antt =====
-- A call of `mutate_request_async` sends at most the one mutation that its grant names, and the ledger
-- says afterwards what is known of it.
use aios_tools.Prelude.{
  ℕ, String, Bool, contains, true, false, Option, none, some, List, [], ◌∷◌, ◌++◌, ◌≡◌, ◌≢◌, refl,
  ◌∙◌, string_eq, nat_eq, ◌==◌, Result, ok, err, inl, inr, Bool-cases, eq→path,
}
use aios_tools.Browser.Mutation.Approval.{Grant}
use aios_tools.Browser.Mutation.Reservations.{Table, final_statuses, status_of}
use aios_tools.Browser.Effects.{EffectError, Request, Response, Net}
use aios_tools.Browser.Effects.Check.{CheckReceipt, readcheck}
use aios_tools.Browser.Effects.Check.Passed.{Passed, readcheck-Passed}
use aios_tools.Browser.Effects.Sent.{
  changes, Open, is_final_unknown, is_final_succeeded, readcheck-changes,
}
use aios_tools.Browser.Effects.Plan.{World, Plan, Outcome, change_of, concluded}
use aios_tools.Browser.Effects.Plan.Ended.{
  Ended, Sent, Sent-changes, failed_sent, concluded-Good, change_sent-Ended, other_status,
}
use aios_tools.Browser.Effects.Mutate.{Reply, reply_of, after_postcheck, after_change, run}

-- What a reply says of the mutation, which `response` answered and after which `changed` was sent.
pub data Verdict (net : Net) (plan : Plan) (response : Response) (changed : List Request)
    (reply : Reply) (after : World) : Type 0 where
  -- Another status than the expected one, and no further request.
  unexpected :
      response.status ≢ plan.expected_status
      → after.sent ≡ changed
      → reply.terminal_status ≡ "MUTATION_STATE_UNKNOWN"
      → reply.semantic_success ≡ false
      → reply.postcheck ≡ none
      → Verdict net plan response changed reply after
  unverified :
      {e : EffectError}
      → response.status ≡ plan.expected_status
      → readcheck net plan.postcheck plan.target_origin plan.timeout_ms changed
        ≡ (err e, after.sent)
      → reply.terminal_status ≡ "MUTATION_STATE_UNKNOWN"
      → reply.semantic_success ≡ false
      → reply.postcheck ≡ none
      → Verdict net plan response changed reply after
  verified :
      {receipt : CheckReceipt}
      → response.status ≡ plan.expected_status
      → Passed net plan.postcheck plan.target_origin plan.timeout_ms changed receipt after.sent
      → reply.terminal_status ≡ "SUCCEEDED"
      → reply.semantic_success ≡ true
      → reply.postcheck ≡ some receipt
      → Verdict net plan response changed reply after

-- A reply, and the ledger and the requests after it.
pub record Good (net : Net) (plan : Plan) (before : List Request) (reply : Reply) (after : World)
    : Type 0 where
  pub response : Response
  pub changed : List Request
  pub sent : Sent net plan before reply.precheck (some response) changed
  pub answered : reply.response_status ≡ response.status
  pub verdict : Verdict net plan response changed reply after
  pub sent_once : changes after.sent ≡ changes before ++ change_of plan ∷ []
  pub recorded : status_of plan.key after.ledger ≡ some reply.terminal_status

module _ (net : Net) (plan : Plan) (used : Grant) (now : ℕ) (before : List Request) where
  abbrev Fine : Outcome Reply → Type 0
  Fine = Ended net plan used.request_id before (Good net plan before)

  once :
      (pre : CheckReceipt) (response : Response) (changed : List Request)
      → Sent net plan before pre (some response) changed
      → changes changed ≡ changes before ++ change_of plan ∷ []
  once pre response changed s =
      Sent-changes net plan used.request_id now before (Good net plan before) pre (some response)
        changed s

  concluded-Fine :
      (status : String) (success : Bool) (post : Option CheckReceipt) (session : Option String)
      (pre : CheckReceipt) (response : Response) (changed : List Request) (world : World)
      → contains final_statuses status ≡ true
      → Open plan.key world.ledger
      → Sent net plan before pre (some response) changed
      → changes world.sent ≡ changes before ++ change_of plan ∷ []
      → ((ledger : Table)
          → Verdict net plan response changed
              (reply_of net plan used now status success response.status pre post session)
              (record world { ledger = ledger }))
      → Fine (
          concluded plan.key now status
            (reply_of net plan used now status success response.status pre post session)
            world)
  unfolding reply_of
  concluded-Fine status success post session pre response changed world f o s c verdict =
      concluded-Good net plan used.request_id now before (Good net plan before) status _ world f o
        (λ ledger now_is. record {
          response = response;
          changed = changed;
          sent = s;
          answered = refl;
          verdict = verdict ledger;
          sent_once = c;
          recorded = now_is;
        })

  postcheck_Fine :
      (session : Option String) (pre : CheckReceipt) (response : Response) (changed : List Request)
      (ledger : Table) (post : Result EffectError CheckReceipt × List Request)
      → readcheck net plan.postcheck plan.target_origin plan.timeout_ms changed ≡ post
      → Open plan.key ledger
      → Sent net plan before pre (some response) changed
      → response.status ≡ plan.expected_status
      → changes post.1 ≡ changes before ++ change_of plan ∷ []
      → Fine (after_postcheck net plan used now session pre response.status ledger post)
  unfolding after_postcheck reply_of
  postcheck_Fine session pre response changed ledger (err e, sent) p o s same c =
      concluded-Fine "MUTATION_STATE_UNKNOWN" false none session pre response changed
        (record { ledger = ledger; sent = sent }) is_final_unknown o s c
        (λ after. unverified same p refl refl refl)
  postcheck_Fine session pre response changed ledger (ok receipt, sent) p o s same c =
      concluded-Fine "SUCCEEDED" true (some receipt) session pre response changed
        (record { ledger = ledger; sent = sent }) is_final_succeeded o s c
        (λ after.
          verified same
            (readcheck-Passed net plan.postcheck plan.target_origin plan.timeout_ms changed sent
              receipt p)
            refl refl refl)

  change_Fine :
      (session : Option String) (pre : CheckReceipt) (world : World) (answer : Option Response)
      → Open plan.key world.ledger
      → Sent net plan before pre answer world.sent
      → Fine (after_change net plan used now session pre world answer)
  unfolding after_change reply_of
  change_Fine session pre world none o s =
      failed_sent net plan used.request_id now before (Good net plan before) _ pre world o s
  change_Fine session pre world (some response) o s =
      elim (Bool-cases (response.status == plan.expected_status)) [
        | inl same ↦ rw same (
            postcheck_Fine session pre response world.sent world.ledger _ refl o s
              (eq→path response.status plan.expected_status same)
              (readcheck-changes net plan.postcheck plan.target_origin plan.timeout_ms world.sent
                ∙ once pre response world.sent s))
        | inr other ↦ rw other (
            concluded-Fine "MUTATION_STATE_UNKNOWN" false none session pre response world.sent world
              is_final_unknown o s (once pre response world.sent s)
              (λ after.
                unexpected (other_status response.status plan.expected_status other) refl refl refl
                  refl))
      ]

  pub run-Fine :
      (ledger : Table)
      → Open plan.key ledger
      → Fine (run net plan used now (record { ledger = ledger; sent = before }))
  unfolding run
  run-Fine ledger o =
      change_sent-Ended net plan used.request_id now before (Good net plan before)
        (after_change net plan used now) change_Fine ledger o
