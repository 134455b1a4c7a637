-- ===== src/Deciders/Retry/Tests.antt =====
-- A lost call whose effect is absent, and the theorem at it.
use aios_tools.Prelude.{String, true, false, ◌≡◌, ◌↔◌, refl, string_eq, ok, is_blank}
use aios_tools.Deciders.Retry.{
  dispatched, ack_ambiguous, effect_absent, not_applicable, retry, RetryDecision, RetryObservation,
  RetryDecisionReceipt, validate, chosen, decide_retry,
}
use aios_tools.Deciders.Retry.Allowed.{MayRetry, decide_retry-MayRetry}

abbrev lost : RetryObservation
lost = record {
  operation_id = "op";
  prepared_scope_digest = "s";
  current_scope_digest = "s";
  dispatch_state = dispatched;
  ack_state = ack_ambiguous;
  postcondition_state = effect_absent;
  retry_policy_allows = true;
  provider_idempotency_safe = false;
  composite_state = not_applicable;
  bounded_repair_available = false;
}

abbrev digest : RetryObservation → String
digest o = o.operation_id

abbrev unsigned_digest : RetryObservation → RetryDecision × String → String → String
unsigned_digest o d s = s

abbrev again : RetryDecisionReceipt
again = record {
  schema = "non-atomic-tool-retry-decision/v1";
  receipt_id = "natr_op";
  operation_id = "op";
  decision = retry;
  reason = "effect_absent";
  observation_digest = "op";
  prepared_scope_digest = "s";
  current_scope_digest = "s";
}

decide_lost : decide_retry digest unsigned_digest lost ≡ ok again
unfolding decide_retry validate chosen is_blank
decide_lost = refl

decide_retry-MayRetry_example :
    ((again.decision ≡ retry) ↔ MayRetry lost)
    × (lost.prepared_scope_digest ≡ lost.current_scope_digest)
decide_retry-MayRetry_example = decide_retry-MayRetry digest unsigned_digest lost again decide_lost
