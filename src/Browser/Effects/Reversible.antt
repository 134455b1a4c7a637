-- ===== src/Browser/Effects/Reversible.antt =====
-- src/aios_tools/browser/effects_runtime.py: `mutate_reversible_async`, a mutation that is rolled back
-- by the contract that its approval names.
pub mod Verdict
pub mod RolledBack
pub mod Bound
mod Tests
use aios_tools.Prelude.{
  ℕ, String, Bool, true, false, not, ◌&&◌, Option, none, some, List, [], ◌∷◌, ◌++◌, string_eq,
  nat_eq, ◌==◌, if◌then◌else◌, Result, ok, err, raise_if, ◌>>=◌, ◌>>◌,
}
use aios_tools.Prelude.Dict.{Dict}
use aios_tools.Prelude.Json.{
  Json, number, other_number, boolean, object, Fields, get, as_text, as_object, as_int, keys_of,
}
use aios_tools.Prelude.Sets.{is_subset}
use aios_tools.Browser.Mutation.Approval.{
  MutationError, approval_required, approval_scope_mismatch, mutation_input_invalid, Grant,
  reversible, is_mutating_method, method_of, canonical_target, consume,
}
use aios_tools.Browser.Mutation.Reservations.{Table, reserve}
use aios_tools.Browser.Effects.{
  EffectError, policy, transport, unsupported_fields, method_not_admitted, key_required,
  rollback_invalid, prepost_mismatch, Request, change, Response, Net, text_or, object_or, policy_or,
  same_origin, validate_headers, validate_json_body,
}
use aios_tools.Browser.Effects.Check.{CheckReceipt, readcheck}
use aios_tools.Browser.Effects.Plan.{
  World, Times, Plan, Outcome, granted, lifted, plan_with, failed, concluded, change_sent,
}

-- A rollback contract that passed its checks; no response has the status `none`.
pub record Rollback : Type 0 where
  pub url : String
  pub method : String
  pub expected_status : Option ℕ
  pub headers : Dict String String
  pub body : Json
  pub postcheck : Fields

-- The dictionary of a reply; a receipt that it leaves out on failure is kept here.
pub record Reply : Type 0 where
  pub terminal_status : String
  pub semantic_success : Bool
  pub target_origin : String
  pub method : String
  pub response_status : ℕ
  pub precheck : CheckReceipt
  pub postcheck : Option CheckReceipt
  pub post_verified : Bool
  pub rollback_attempted : Bool
  pub rollback_status : Option ℕ
  pub rollback_postcheck : Option CheckReceipt
  pub grant : Grant
  pub auth_state_used : Option String

reversible_fields : List String
reversible_fields =
    "url" ∷ "method" ∷ "idempotency_key" ∷ "json" ∷ "headers" ∷ "precheck" ∷ "postcheck"
    ∷ "expected_status" ∷ "timeout_seconds" ∷ "session" ∷ "rollback" ∷ "_aios_mutation_grant" ∷ []

-- The request of the rollback, within the time of the mutation.
abbrev pub rollback_of : Plan → Rollback → Request
rollback_of plan r = change r.url r.method r.body r.headers plan.timeout_ms

abbrev pub verified : Option CheckReceipt → Bool
verified none = false
verified (some _) = true

fingerprint_or : Option String → Result EffectError String
fingerprint_or none = err (policy mutation_input_invalid)
fingerprint_or (some print) = ok print

-- `print == fingerprint`, for a fingerprint that may be missing
has_fingerprint : Option String → String → Bool
has_fingerprint none print = false
has_fingerprint (some own) print = print == own

is_status : Option ℕ → ℕ → Bool
is_status none status = false
is_status (some own) status = status == own

reversible_grant : Option Grant → Result EffectError Grant
unfolding granted
reversible_grant grant = do
  own ← granted grant
  raise_if (not (own.effect_class == reversible)) (policy approval_required)
  ok own

rollback_object : Option Fields → Result EffectError Fields
rollback_object none = err (policy approval_scope_mismatch)
rollback_object (some fields) = ok fields

module _ (net : Net) where
  -- `isinstance(value, int)`
  is_int : Json → Bool
  is_int (number n) = true
  is_int (boolean b) = true
  is_int other_number = net.other_number_is_int
  is_int _ = false

  -- The rollback contract, which the approval names by its fingerprint.
  pub bound_rollback : Grant → Fields → Result EffectError Fields
  unfolding rollback_object fingerprint_or has_fingerprint
  bound_rollback grant payload = do
    rollback ← rollback_object (as_object (get "rollback" payload))
    print ← fingerprint_or (net.host.contract_fingerprint (object rollback))
    raise_if (not (has_fingerprint grant.rollback_fingerprint print))
        (policy approval_scope_mismatch)
    ok rollback

  -- The checks of the rollback contract, on the exact origin of the target.
  unfoldable pub plan_rollback : Fields → String → Result EffectError Rollback
  unfolding is_int policy_or object_or text_or
  plan_rollback rollback target_origin = do
    url ← policy_or (canonical_target net.host (as_text (get "url" rollback)))
    let method = method_of net.host rollback
    raise_if (not (is_mutating_method method)) rollback_invalid
    same ← same_origin net url target_origin
    raise_if (not (same && is_int (get "expected_status" rollback))) rollback_invalid
    postcheck ← object_or rollback_invalid (as_object (get "postcheck" rollback))
    check_url ← text_or rollback_invalid (as_text (get "url" postcheck))
    here ← same_origin net check_url target_origin
    raise_if (not here) rollback_invalid
    headers ← validate_headers net (get "headers" rollback)
    body ← validate_json_body net (get "json" rollback)
    ok (record {
      url = url;
      method = method;
      expected_status = as_int (get "expected_status" rollback);
      headers = headers;
      body = body;
      postcheck = postcheck;
    })

  -- The checks of a payload with its rollback contract, before the grant is used.
  unfoldable pub plan_reversible : Grant → Fields → Result EffectError (Plan × Rollback)
  unfolding reversible_fields text_or policy_or
  plan_reversible grant payload = do
    raise_if (not (is_subset (keys_of payload) reversible_fields)) unsupported_fields
    rollback ← bound_rollback grant payload
    url ← policy_or (canonical_target net.host (as_text (get "url" payload)))
    let method = method_of net.host payload
    raise_if (not (is_mutating_method method)) method_not_admitted
    key ← text_or method_not_admitted (as_text (get "idempotency_key" payload))
    plan ← plan_with net url method key payload
    back ← plan_rollback rollback plan.target_origin
    ok (plan, back)

  -- The plans, the used grant, and the ledger with the reservation.
  unfoldable pub reserved :
      Option Grant → Fields → Times → Table → Result EffectError (Plan × Rollback × Grant × Table)
  unfolding reversible_grant lifted
  reserved grant payload times ledger = do
    own ← reversible_grant grant
    plans ← plan_reversible own payload
    used ← lifted (consume net.host plans.0.url plans.0.method plans.0.key times.consumed_at own)
    table ← lifted (reserve net.fingerprint own times.reserved_at ledger)
    ok (plans.0, plans.1, used, table)

  module _ (plan : Plan) (back : Rollback) (used : Grant) (now : ℕ) where
    -- The reply after a rollback was tried: its status, and what the check after it found.
    reply_of :
        String
        → Bool
        → ℕ
        → CheckReceipt
        → Option CheckReceipt
        → Option String
        → Bool
        → Option ℕ
        → Option CheckReceipt
        → Reply
    reply_of status success response_status pre post session attempted rollback_status restored =
        record {
          terminal_status = status;
          semantic_success = success;
          target_origin = plan.target_origin;
          method = plan.method;
          response_status = response_status;
          precheck = pre;
          postcheck = post;
          post_verified = verified post;
          rollback_attempted = attempted;
          rollback_status = rollback_status;
          rollback_postcheck = restored;
          grant = used;
          auth_state_used = session;
        }

    after_restore :
        Option String
        → CheckReceipt
        → Option CheckReceipt
        → ℕ
        → Table
        → Result EffectError CheckReceipt × List Request
        → Outcome Reply
    unfolding reply_of
    after_restore session pre post status ledger (err e, sent) =
        concluded plan.key now "ROLLBACK_FAILED"
          (reply_of "ROLLBACK_FAILED" false status pre post session true none none)
          (record { ledger = ledger; sent = sent })
    after_restore session pre post status ledger (ok restored, sent) =
        concluded plan.key now "ROLLED_BACK"
          (reply_of "ROLLED_BACK" (verified post) status pre post session true none (some restored))
          (record { ledger = ledger; sent = sent })

    after_rollback :
        Option String
        → CheckReceipt
        → Option CheckReceipt
        → ℕ
        → World
        → Option Response
        → Outcome Reply
    unfolding reply_of after_restore is_status
    after_rollback session pre post status world none =
        concluded plan.key now "ROLLBACK_FAILED"
          (reply_of "ROLLBACK_FAILED" false status pre post session true none none) world
    after_rollback session pre post status world (some response) =
        if is_status back.expected_status response.status
        then after_restore session pre post status world.ledger
            (readcheck net back.postcheck plan.target_origin plan.timeout_ms world.sent)
        else concluded plan.key now "ROLLBACK_FAILED"
            (reply_of "ROLLBACK_FAILED" false status pre post session true (some response.status)
              none)
            world

    receipt_of : Result EffectError CheckReceipt → Option CheckReceipt
    receipt_of (ok receipt) = some receipt
    receipt_of (err e) = none

    after_postcheck :
        Option String
        → CheckReceipt
        → ℕ
        → Table
        → Result EffectError CheckReceipt × List Request
        → Outcome Reply
    unfolding receipt_of after_rollback
    after_postcheck session pre status ledger (post, sent) =
        after_rollback session pre (receipt_of post) status
          (record { ledger = ledger; sent = sent ++ rollback_of plan back ∷ [] })
          (net.respond sent (rollback_of plan back))

    after_change : Option String → CheckReceipt → World → Option Response → Outcome Reply
    unfolding reply_of after_postcheck
    after_change session pre world none = failed plan.key now true transport world
    after_change session pre world (some response) =
        if response.status == plan.expected_status
        then after_postcheck session pre response.status world.ledger
            (readcheck net plan.postcheck plan.target_origin plan.timeout_ms world.sent)
        else concluded plan.key now "MUTATION_STATE_UNKNOWN"
            (reply_of "MUTATION_STATE_UNKNOWN" false response.status pre none session false none
              none)
            world

    -- The call after its reservation.
    unfoldable pub run : World → Outcome Reply
    unfolding after_change
    run world = change_sent net plan used.request_id now after_change world

  entered : Times → World → Result EffectError (Plan × Rollback × Grant × Table) → Outcome Reply
  entered times world (err e) = (err e, world)
  entered times world (ok (plan, back, used, table)) =
      run plan back used times.marked_at (record world { ledger = table })

  -- `mutate_reversible_async`
  unfoldable pub mutate_reversible : Option Grant → Fields → Times → World → Outcome Reply
  unfolding entered
  mutate_reversible grant payload times world =
      entered times world (reserved grant payload times world.ledger)
