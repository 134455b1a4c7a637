-- ===== src/Browser/Effects/Plan.antt =====
-- src/aios_tools/browser/effects_runtime.py: what `mutate_request_async` and `mutate_reversible_async`
-- check alike in a payload, and how both end.
pub mod Ended
pub mod Spent
use aios_tools.Prelude.{
  ℕ, ◌*◌, String, Bool, true, false, not, Option, none, some, List, [], ◌∷◌, ◌++◌, string_eq,
  nat_eq, ◌==◌, if◌then◌else◌, Result, ok, err, raise_if, ◌>>=◌, ◌>>◌,
}
use aios_tools.Prelude.Dict.{Dict}
use aios_tools.Prelude.Json.{Json, Fields, get, as_text, as_object, keys_of}
use aios_tools.Prelude.Sets.{is_subset}
use aios_tools.Browser.Mutation.Approval.{
  MutationError, approval_required, Grant, is_mutating_method, method_of, canonical_target, consume,
}
use aios_tools.Browser.Mutation.Reservations.{Table, reserve, mark, status_of}
use aios_tools.Browser.Effects.Check.{CheckReceipt, readcheck, new_context}
use aios_tools.Browser.Effects.{
  EffectError, policy, runtime_unavailable, transport, unsupported_fields, method_not_admitted,
  key_required, timeout_invalid, status_required, check_required, check_crosses_origin, Request,
  change, Response, Net, text_or, object_or, policy_or, int_between, timeout_value, assert_target,
  same_origin, validate_headers, validate_json_body,
}

pub record World : Type 0 where
  pub ledger : Table
  pub sent : List Request

-- The times of the reads of the clock: the use of the grant, the reservation, and the last mark.
pub record Times : Type 0 where
  pub consumed_at : ℕ
  pub reserved_at : ℕ
  pub marked_at : ℕ

-- A payload that passed its checks.
pub record Plan : Type 0 where
  pub url : String
  pub method : String
  pub key : String
  pub timeout_ms : ℕ
  pub expected_status : ℕ
  pub headers : Dict String String
  pub body : Json
  pub target_origin : String
  pub precheck : Fields
  pub postcheck : Fields
  pub session : Json

abbrev pub Outcome : Type 0 → Type 0
Outcome A = Result EffectError A × World

-- The request that changes the remote state.
abbrev pub change_of : Plan → Request
change_of plan = change plan.url plan.method plan.body plan.headers plan.timeout_ms

unfoldable pub granted : Option Grant → Result EffectError Grant
granted none = err (policy approval_required)
granted (some grant) = ok grant

unfoldable pub lifted : {A : Type 0} → Result MutationError A → Result EffectError A
lifted (ok a) = ok a
lifted (err e) = err (policy e)

module _ (net : Net) where
  -- One of the two checks of the payload, on the exact origin of the target.
  check_of : String → Fields → String → Result EffectError Fields
  check_of name payload target_origin = do
    check ← object_or check_required (as_object (get name payload))
    url ← text_or check_required (as_text (get "url" check))
    _ ← assert_target net url
    same ← same_origin net url target_origin
    raise_if (not same) check_crosses_origin
    ok check

  -- The rest of the checks, once the URL, the method and the key are known.
  unfoldable pub plan_with : String → String → String → Fields → Result EffectError Plan
  unfolding check_of policy_or text_or timeout_value object_or
  plan_with url method key payload = do
    timeout ← int_between 1 60 (timeout_value payload) timeout_invalid
    expected_status ← int_between 100 599 (get "expected_status" payload) status_required
    headers ← validate_headers net (get "headers" payload)
    body ← validate_json_body net (get "json" payload)
    target_origin ← assert_target net url
    precheck ← check_of "precheck" payload target_origin
    postcheck ← check_of "postcheck" payload target_origin
    ok (record {
      url = url;
      method = method;
      key = key;
      timeout_ms = timeout * 1000;
      expected_status = expected_status;
      headers = headers;
      body = body;
      target_origin = target_origin;
      precheck = precheck;
      postcheck = postcheck;
      session = get "session" payload;
    })

module _ (key : String) (now : ℕ) {A : Type 0} where
  marked : Result MutationError Table → EffectError → World → Outcome A
  marked (ok table) e world = (err e, record world { ledger = table })
  marked (err p) e world = (err (policy p), world)

  started_only : Option String → Bool → EffectError → World → Outcome A
  unfolding marked
  started_only none started e world = (err e, world)
  started_only (some status) started e world =
      if status == "STARTED"
      then marked
          (mark key (if started then "MUTATION_STATE_UNKNOWN" else "FAILED_NO_EFFECT") now
            world.ledger)
          e world
      else (err e, world)

  -- `except Exception`: the flag is `mutation_started`.
  unfoldable pub failed : Bool → EffectError → World → Outcome A
  unfolding started_only
  failed started e world = started_only (status_of key world.ledger) started e world

  replied : Result MutationError Table → A → World → Outcome A
  replied (ok table) reply world = (ok reply, record world { ledger = table })
  replied (err p) reply world = failed true (policy p) world

  -- A status of the ledger, and the answer of the call.
  unfoldable pub concluded : String → A → World → Outcome A
  unfolding replied
  concluded status reply world = replied (mark key status now world.ledger) reply world

module _ (net : Net) (plan : Plan) (owner : String) (now : ℕ) {A : Type 0}
    (answered : Option String → CheckReceipt → World → Option Response → Outcome A) where
  after_precheck :
      Option String → Table → Result EffectError CheckReceipt × List Request → Outcome A
  after_precheck session ledger (err e, sent) =
      failed plan.key now false e (record { ledger = ledger; sent = sent })
  after_precheck session ledger (ok pre, sent) =
      answered session pre (record { ledger = ledger; sent = sent ++ change_of plan ∷ [] })
        (net.respond sent (change_of plan))

  in_context : World → Result EffectError (Option String) → Outcome A
  unfolding after_precheck
  in_context world (err e) = failed plan.key now false e world
  in_context world (ok session) =
      after_precheck session world.ledger
        (readcheck net plan.precheck plan.target_origin plan.timeout_ms world.sent)

  -- From the import of Playwright to the answer of the mutation, which `answered` goes on with.
  unfoldable pub change_sent : World → Outcome A
  unfolding in_context marked
  change_sent world =
      if not net.installed
      then marked plan.key now (mark plan.key "FAILED_NO_EFFECT" now world.ledger)
          runtime_unavailable world
      else if not net.launched
      then failed plan.key now false transport world
      else in_context world (new_context net plan.session plan.url owner)
