-- ===== src/Deciders/Retry/Allowed.antt =====
-- When a lost call may be tried again.
use aios_tools.Prelude.{
  String, Bool, true, ◌≡◌, ◌⊎◌, inl, inr, ◌↔◌, refl, sym, ap, ◌∙◌, Bool-cases, arith, string_eq,
  eq_iff, ok,
}
use aios_tools.Deciders.Retry.{
  DispatchState, not_dispatched, dispatched, AckState, ack_confirmed, ack_ambiguous,
  failed_before_effect, PostconditionState, not_checked, effect_confirmed, effect_absent,
  verify_unknown, partial_effect, CompositeState, RetryDecision, retry, RetryObservation,
  RetryDecisionReceipt, validate, chosen, choose, choose_acked, decide_confirmed, decide_ambiguous,
  repair_or_block, retry_or_block, decide_retry,
}

-- When the code tries again, by what it was told of the call.
pub data MayRetry (o : RetryObservation) : Type 0 where
  unsent : o.dispatch_state ≡ not_dispatched → o.retry_policy_allows ≡ true → MayRetry o
  failed_early :
      o.dispatch_state ≡ dispatched
      → o.ack_state ≡ failed_before_effect
      → o.retry_policy_allows ≡ true
      → MayRetry o
  absent :
      o.dispatch_state ≡ dispatched
      → o.ack_state ≡ ack_ambiguous
      → o.postcondition_state ≡ effect_absent
      → (o.retry_policy_allows ≡ true) ⊎ (o.provider_idempotency_safe ≡ true)
      → MayRetry o
  repeatable :
      o.dispatch_state ≡ dispatched
      → o.ack_state ≡ ack_ambiguous
      → o.postcondition_state ≡ verify_unknown
      → o.retry_policy_allows ≡ true
      → o.provider_idempotency_safe ≡ true
      → MayRetry o

confirmed_no_retry :
    (post : PostconditionState) (composite : CompositeState) (repair : Bool)
    → (decide_confirmed post composite repair).0 ≡ retry
    → ⊥
unfolding decide_confirmed repair_or_block
confirmed_no_retry not_checked composite repair e = ground arith
confirmed_no_retry effect_confirmed composite repair e = ground arith
confirmed_no_retry effect_absent composite repair e = ground arith
confirmed_no_retry verify_unknown composite repair e = ground arith
confirmed_no_retry partial_effect composite repair e = ground arith

ambiguous_retry :
    (o : RetryObservation) (post : PostconditionState)
    → o.dispatch_state ≡ dispatched
    → o.ack_state ≡ ack_ambiguous
    → o.postcondition_state ≡ post
    → (decide_ambiguous post o.retry_policy_allows o.provider_idempotency_safe o.composite_state
        o.bounded_repair_available).0
      ≡ retry
    → MayRetry o
unfolding decide_ambiguous repair_or_block
ambiguous_retry o not_checked s t u e = absurd (ground arith)
ambiguous_retry o effect_confirmed s t u e = absurd (ground arith)
ambiguous_retry o effect_absent s t u e = absent s t u (elim (Bool-cases o.retry_policy_allows) [
  | inl allowed ↦ inl allowed
  | inr denied ↦ inr (ground arith)
])
ambiguous_retry o verify_unknown s t u e = repeatable s t u (ground arith) (ground arith)
ambiguous_retry o partial_effect s t u e = absurd (ground arith)

chosen_retry :
    (o : RetryObservation) (d : DispatchState) (a : AckState)
    → o.dispatch_state ≡ d
    → o.ack_state ≡ a
    → (choose d a o.postcondition_state o.retry_policy_allows o.provider_idempotency_safe
        o.composite_state o.bounded_repair_available).0
      ≡ retry
    → MayRetry o
unfolding choose choose_acked retry_or_block
chosen_retry o not_dispatched a s t e = unsent s (ground arith)
chosen_retry o dispatched failed_before_effect s t e = failed_early s t (ground arith)
chosen_retry o dispatched ack_confirmed s t e =
    absurd (confirmed_no_retry o.postcondition_state o.composite_state o.bounded_repair_available e)
chosen_retry o dispatched ack_ambiguous s t e = ambiguous_retry o o.postcondition_state s t refl e

chosen_at :
    (o : RetryObservation) (d : DispatchState) (a : AckState)
    → o.dispatch_state ≡ d
    → o.ack_state ≡ a
    → chosen o
      ≡ choose d a o.postcondition_state o.retry_policy_allows o.provider_idempotency_safe
          o.composite_state o.bounded_repair_available
unfolding chosen
chosen_at o d a s t = cc

ambiguous_at :
    (o : RetryObservation) (post : PostconditionState)
    → o.dispatch_state ≡ dispatched
    → o.ack_state ≡ ack_ambiguous
    → o.postcondition_state ≡ post
    → chosen o
      ≡ decide_ambiguous post o.retry_policy_allows o.provider_idempotency_safe o.composite_state
          o.bounded_repair_available
unfolding choose choose_acked
ambiguous_at o post s t u =
    chosen_at o dispatched ack_ambiguous s t
    ∙ ap
        (λ p.
          decide_ambiguous p o.retry_policy_allows o.provider_idempotency_safe o.composite_state
            o.bounded_repair_available)
        u

retries : (o : RetryObservation) → MayRetry o → (chosen o).0 ≡ retry
unfolding choose choose_acked retry_or_block decide_ambiguous
retries o (unsent s p) = ground (arith, chosen_at o not_dispatched o.ack_state s refl)
retries o (failed_early s t p) = ground (arith, chosen_at o dispatched failed_before_effect s t)
retries o (absent s t u (inl p)) = ground (arith, ambiguous_at o effect_absent s t u)
retries o (absent s t u (inr p)) = ground (arith, ambiguous_at o effect_absent s t u)
retries o (repeatable s t u p q) = ground (arith, ambiguous_at o verify_unknown s t u)

retried : (o : RetryObservation) → (chosen o).0 ≡ retry → MayRetry o
unfolding chosen
retried o e = chosen_retry o o.dispatch_state o.ack_state refl refl e

-- A receipt decides to retry exactly in these cases: the retry policy allows it, and the call was
-- never sent, or was sent and failed before its effect; or the acknowledgement of a sent call was
-- ambiguous, and either no effect was found and the policy allows it or the provider is idempotent,
-- or the effect could not be verified and both hold. What the postcondition says of a call that
-- failed before its effect, and what is known of a composite effect, play no part in it. The scope
-- of a receipt is still the prepared one.
pub decide_retry-MayRetry :
    (digest : RetryObservation → String)
    (unsigned_digest : RetryObservation → RetryDecision × String → String → String)
    (o : RetryObservation) (r : RetryDecisionReceipt)
    → decide_retry digest unsigned_digest o ≡ ok r
    → ((r.decision ≡ retry) ↔ MayRetry o) × (o.prepared_scope_digest ≡ o.current_scope_digest)
unfolding decide_retry validate
decide_retry-MayRetry digest unsigned_digest o r e =
    let decided : (chosen o).0 ≡ r.decision = ground arith in
    (
      (λ d. retried o (decided ∙ d), λ m. sym decided ∙ retries o m),
      ground (arith, eq_iff o.prepared_scope_digest o.current_scope_digest),
    )
