-- ===== src/Deciders/Retry.antt =====
-- src/aios_tools/experimental/non_atomic_tool_retry.py: whether a tool call whose answer was lost is
-- tried again. The digests are SHA-256 of canonical JSON, and enter as functions.
pub mod Allowed
mod Tests
use Prim.Native.String.{◌++◌}
use aios_tools.Prelude.{
  String, Bool, true, false, not, ◌&&◌, ◌||◌, string_eq, ◌==◌, if◌then◌else◌, Result, ok, err,
  raise_if, ◌>>=◌, ◌>>◌, is_blank,
}

pub data RetryDecisionError : Type 0 where
  operation_id_required prepared_scope_digest_required current_scope_digest_required
        recovery_scope_widening_forbidden undispatched_effect_observation_invalid :
      RetryDecisionError

pub data DispatchState : Type 0 where
  not_dispatched dispatched : DispatchState

pub data AckState : Type 0 where
  ack_confirmed ack_ambiguous failed_before_effect : AckState

pub data PostconditionState : Type 0 where
  not_checked effect_confirmed effect_absent verify_unknown partial_effect : PostconditionState

pub data CompositeState : Type 0 where
  not_applicable complete partial relationship_mismatch : CompositeState

pub data RetryDecision : Type 0 where
  complete_no_retry retry repair_only block : RetryDecision

pub record RetryObservation : Type 0 where
  pub operation_id : String
  pub prepared_scope_digest : String
  pub current_scope_digest : String
  pub dispatch_state : DispatchState
  pub ack_state : AckState
  pub postcondition_state : PostconditionState
  pub retry_policy_allows : Bool
  pub provider_idempotency_safe : Bool
  pub composite_state : CompositeState
  pub bounded_repair_available : Bool

pub record RetryDecisionReceipt : Type 0 where
  pub schema : String
  pub receipt_id : String
  pub operation_id : String
  pub decision : RetryDecision
  pub reason : String
  pub observation_digest : String
  pub prepared_scope_digest : String
  pub current_scope_digest : String

-- An observed effect of a call that was never dispatched.
impossible_effect : DispatchState → PostconditionState → Bool
impossible_effect dispatched post = false
impossible_effect not_dispatched PostconditionState.not_checked = false
impossible_effect not_dispatched effect_absent = false
impossible_effect not_dispatched _ = true

-- `_validate`
unfoldable pub validate : RetryObservation → Result RetryDecisionError Unit
unfolding impossible_effect
validate o = do
  raise_if (is_blank o.operation_id) operation_id_required
  raise_if (is_blank o.prepared_scope_digest) prepared_scope_digest_required
  raise_if (is_blank o.current_scope_digest) current_scope_digest_required
  raise_if (not (o.prepared_scope_digest == o.current_scope_digest))
      recovery_scope_widening_forbidden
  raise_if (impossible_effect o.dispatch_state o.postcondition_state)
      undispatched_effect_observation_invalid

is_broken : CompositeState → Bool
is_broken partial = true
is_broken relationship_mismatch = true
is_broken _ = false

repair_or_block : Bool → RetryDecision
repair_or_block available = if available then repair_only else block

retry_or_block : Bool → RetryDecision
retry_or_block allowed = if allowed then retry else block

-- The decision and its reason after a confirmed acknowledgement.
decide_confirmed : PostconditionState → CompositeState → Bool → RetryDecision × String
unfolding is_broken repair_or_block
decide_confirmed partial_effect composite repair = (repair_or_block repair, "partial_effect")
decide_confirmed _ composite repair =
    if is_broken composite
    then (repair_or_block repair, "composite_postcondition_failed")
    else (complete_no_retry, "ack_confirmed")

-- The decision and its reason after an ambiguous one; the first two flags are the retry policy and
-- the idempotency of the provider.
decide_ambiguous : PostconditionState → Bool → Bool → CompositeState → Bool → RetryDecision × String
unfolding is_broken repair_or_block
decide_ambiguous effect_confirmed allows safe composite repair =
    if is_broken composite
    then (repair_or_block repair, "composite_postcondition_failed")
    else (complete_no_retry, "effect_confirmed_after_ambiguous_ack")
decide_ambiguous effect_absent allows safe composite repair =
    if allows
    then (retry, "effect_absent")
    else if safe
    then (retry, "provider_idempotency_allows_replay")
    else (block, "retry_policy_denied")
decide_ambiguous partial_effect allows safe composite repair =
    (repair_or_block repair, "partial_effect")
decide_ambiguous verify_unknown allows safe composite repair =
    if safe && allows
    then (retry, "provider_idempotency_allows_replay")
    else (block, "verification_inconclusive")
decide_ambiguous PostconditionState.not_checked allows safe composite repair =
    (block, "verification_inconclusive")

choose_acked :
    AckState → PostconditionState → Bool → Bool → CompositeState → Bool → RetryDecision × String
unfolding retry_or_block decide_confirmed decide_ambiguous
choose_acked failed_before_effect post allows safe composite repair =
    (retry_or_block allows, "failed_before_effect")
choose_acked ack_confirmed post allows safe composite repair =
    decide_confirmed post composite repair
choose_acked ack_ambiguous post allows safe composite repair =
    decide_ambiguous post allows safe composite repair

choose :
    DispatchState
    → AckState
    → PostconditionState
    → Bool
    → Bool
    → CompositeState
    → Bool
    → RetryDecision × String
unfolding retry_or_block choose_acked
choose not_dispatched ack post allows safe composite repair =
    (retry_or_block allows, "not_dispatched")
choose dispatched ack post allows safe composite repair =
    choose_acked ack post allows safe composite repair

-- The decision and the reason of `decide_retry`.
unfoldable pub chosen : RetryObservation → RetryDecision × String
unfolding choose
chosen o =
    choose o.dispatch_state o.ack_state o.postcondition_state o.retry_policy_allows
      o.provider_idempotency_safe o.composite_state o.bounded_repair_available

-- `canonical_sha256` of an observation, and of a receipt without its id
module _ (digest : RetryObservation → String)
    (unsigned_digest : RetryObservation → RetryDecision × String → String → String) where
  unfoldable pub decide_retry : RetryObservation → Result RetryDecisionError RetryDecisionReceipt
  decide_retry o = do
    validate o
    ok (record {
      schema = "non-atomic-tool-retry-decision/v1";
      receipt_id = "natr_" ++ unsigned_digest o (chosen o) (digest o);
      operation_id = o.operation_id;
      decision = (chosen o).0;
      reason = (chosen o).1;
      observation_digest = digest o;
      prepared_scope_digest = o.prepared_scope_digest;
      current_scope_digest = o.current_scope_digest;
    })
