-- ===== src/Browser/Effects/Mutate.antt =====
-- src/aios_tools/browser/effects_runtime.py: `mutate_request_async`. A call changes the ledger and
-- sends requests; the release of the session and the closing of the browser change neither. A call
-- that is cancelled in between is not modelled.
pub mod Once
pub mod Approved
mod Tests
use aios_tools.Prelude.{
  ℕ, ◌*◌, String, Bool, true, false, not, Option, none, some, List, [], ◌∷◌, ◌++◌, string_eq,
  nat_eq, ◌==◌, if◌then◌else◌, Result, ok, err, raise_if, ◌>>=◌, ◌>>◌,
}
use aios_tools.Prelude.Dict.{Dict}
use aios_tools.Prelude.Json.{Json, Fields, get, as_text, as_object, keys_of}
use aios_tools.Prelude.Sets.{is_subset}
use aios_tools.Browser.Mutation.Approval.{
  MutationError, approval_required, Grant, is_mutating_method, method_of, canonical_target, consume,
}
use aios_tools.Browser.Mutation.Reservations.{Table, reserve, mark, status_of}
use aios_tools.Browser.Effects.{
  EffectError, policy, runtime_unavailable, transport, unsupported_fields, method_not_admitted,
  key_required, timeout_invalid, status_required, check_required, check_crosses_origin, Request,
  change, Response, Net, text_or, object_or, policy_or, int_between, timeout_value, assert_target,
  same_origin, validate_headers, validate_json_body,
}
use aios_tools.Browser.Effects.Plan.{
  World, Times, Plan, Outcome, change_of, granted, lifted, plan_with, failed, concluded,
  change_sent,
}
use aios_tools.Browser.Effects.Check.{CheckReceipt, readcheck, new_context}

pub record Reply : Type 0 where
  pub terminal_status : String
  pub semantic_success : Bool
  pub target_origin : String
  pub method : String
  pub response_status : ℕ
  pub precheck : CheckReceipt
  pub postcheck : Option CheckReceipt
  pub grant : Grant
  pub auth_state_used : Option String

payload_fields : List String
payload_fields =
    "url" ∷ "method" ∷ "idempotency_key" ∷ "json" ∷ "headers" ∷ "precheck" ∷ "postcheck"
    ∷ "expected_status" ∷ "timeout_seconds" ∷ "session" ∷ "_aios_mutation_grant" ∷ []

module _ (net : Net) where
  -- The checks of a payload, before the grant is used.
  unfoldable pub plan_request : Fields → Result EffectError Plan
  unfolding payload_fields policy_or text_or
  plan_request payload = do
    raise_if (not (is_subset (keys_of payload) payload_fields)) unsupported_fields
    url ← policy_or (canonical_target net.host (as_text (get "url" payload)))
    let method = method_of net.host payload
    raise_if (not (is_mutating_method method)) method_not_admitted
    key ← text_or key_required (as_text (get "idempotency_key" payload))
    plan_with net url method key payload

  -- The plan, the used grant, and the ledger with the reservation.
  unfoldable pub reserved :
      Option Grant → Fields → Times → Table → Result EffectError (Plan × Grant × Table)
  unfolding granted lifted
  reserved grant payload times ledger = do
    own ← granted grant
    plan ← plan_request payload
    used ← lifted (consume net.host plan.url plan.method plan.key times.consumed_at own)
    table ← lifted (reserve net.fingerprint own times.reserved_at ledger)
    ok (plan, used, table)

  module _ (plan : Plan) (used : Grant) (now : ℕ) where
    reply_of : String → Bool → ℕ → CheckReceipt → Option CheckReceipt → Option String → Reply
    reply_of status success response_status pre post session = record {
      terminal_status = status;
      semantic_success = success;
      target_origin = plan.target_origin;
      method = plan.method;
      response_status = response_status;
      precheck = pre;
      postcheck = post;
      grant = used;
      auth_state_used = session;
    }

    after_postcheck :
        Option String
        → CheckReceipt
        → ℕ
        → Table
        → Result EffectError CheckReceipt × List Request
        → Outcome Reply
    unfolding reply_of
    after_postcheck session pre status ledger (err e, sent) =
        concluded plan.key now "MUTATION_STATE_UNKNOWN"
          (reply_of "MUTATION_STATE_UNKNOWN" false status pre none session)
          (record { ledger = ledger; sent = sent })
    after_postcheck session pre status ledger (ok post, sent) =
        concluded plan.key now "SUCCEEDED"
          (reply_of "SUCCEEDED" true status pre (some post) session)
          (record { ledger = ledger; sent = sent })

    after_change : Option String → CheckReceipt → World → Option Response → Outcome Reply
    unfolding reply_of after_postcheck
    after_change session pre world none = failed plan.key now true transport world
    after_change session pre world (some response) =
        if response.status == plan.expected_status
        then after_postcheck session pre response.status world.ledger
            (readcheck net plan.postcheck plan.target_origin plan.timeout_ms world.sent)
        else concluded plan.key now "MUTATION_STATE_UNKNOWN"
            (reply_of "MUTATION_STATE_UNKNOWN" false response.status pre none session) world

    -- The call after its reservation.
    unfoldable pub run : World → Outcome Reply
    unfolding after_change
    run world = change_sent net plan used.request_id now after_change world

  entered : Times → World → Result EffectError (Plan × Grant × Table) → Outcome Reply
  entered times world (err e) = (err e, world)
  entered times world (ok (plan, used, table)) =
      run plan used times.marked_at (record world { ledger = table })

  -- `mutate_request_async`
  unfoldable pub mutate_request : Option Grant → Fields → Times → World → Outcome Reply
  unfolding entered
  mutate_request grant payload times world =
      entered times world (reserved grant payload times world.ledger)
