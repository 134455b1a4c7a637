-- ===== src/Browser/Effects/Reversible/Bound.antt =====
-- The rollback that a reversible mutation sends is the one that its approval names.
use aios_tools.Prelude.{
  Option, none, some, ◌≡◌, sym, ap, ◌∙◌, arith, string_eq, eq_iff, ok, inl, inr, Option-cases,
  step_returned, guard_passed, not,
}
use aios_tools.Prelude.Json.{object, Fields, get, as_object, as_text, keys_of}
use aios_tools.Prelude.Sets.{is_subset}
use aios_tools.Browser.Mutation.Approval.{
  Grant, reversible, consume, is_mutating_method, method_of, canonical_target,
}
use aios_tools.Browser.Mutation.Approval.Once.{Used, consume-Used}
use aios_tools.Browser.Mutation.Reservations.{Table, reserve}
use aios_tools.Browser.Effects.{unsupported_fields, method_not_admitted, Net, policy_or, text_or}
use aios_tools.Browser.Effects.Plan.{World, Times, Plan, granted, lifted, plan_with}
use aios_tools.Browser.Effects.Plan.Ended.{Ended}
use aios_tools.Browser.Effects.Plan.Spent.{lifted_ok, reserve-Open}
use aios_tools.Browser.Effects.Reversible.{
  Rollback, reversible_grant, bound_rollback, rollback_object, fingerprint_or, has_fingerprint,
  plan_rollback, plan_reversible, reserved, entered, mutate_reversible, reversible_fields,
}
use aios_tools.Browser.Effects.Reversible.Verdict.{Good}
use aios_tools.Browser.Effects.Reversible.RolledBack.{run-Fine}

-- What stands behind a reservation: a reversible grant, used now, and a rollback contract with the
-- fingerprint that the grant names, which was checked for the plan.
pub record Granted (net : Net) (grant : Option Grant) (payload : Fields) (times : Times)
    (ledger : Table) (plan : Plan) (back : Rollback) (used : Grant) (table : Table) : Type 0 where
  pub own : Grant
  pub given : grant ≡ some own
  pub of_class : own.effect_class ≡ reversible
  pub contract : Fields
  pub requested : as_object (get "rollback" payload) ≡ some contract
  pub named : net.host.contract_fingerprint (object contract) ≡ own.rollback_fingerprint
  pub checked : plan_rollback net contract plan.target_origin ≡ ok back
  pub used_now : Used net.host plan.url plan.method plan.key times.consumed_at own used
  pub held : reserve net.fingerprint own times.reserved_at ledger ≡ ok table

module _ (net : Net) where
  reversible_grant_ok :
      (grant : Option Grant) (own : Grant)
      → reversible_grant grant ≡ ok own
      → (grant ≡ some own) × (own.effect_class ≡ reversible)
  unfolding reversible_grant granted
  reversible_grant_ok none own h = absurd (ground arith)
  reversible_grant_ok (some g) own h =
      (ground arith, ground (arith, eq_iff g.effect_class reversible))

  bound_ok :
      (own : Grant) (payload contract : Fields)
      → bound_rollback net own payload ≡ ok contract
      → (as_object (get "rollback" payload) ≡ some contract)
        × (net.host.contract_fingerprint (object contract) ≡ own.rollback_fingerprint)
  unfolding bound_rollback rollback_object fingerprint_or has_fingerprint
  bound_ok own payload contract h = elim (Option-cases (as_object (get "rollback" payload))) [
    | inl gone ↦ absurd (ground arith)
    | inr (c, e) ↦ elim (Option-cases (net.host.contract_fingerprint (object c))) [
      | inl raised ↦ absurd (ground arith)
      | inr (print, f) ↦ elim (Option-cases own.rollback_fingerprint) [
        | inl unnamed ↦ absurd (ground arith)
        | inr (name, g) ↦ (ground (arith, eq_iff print name), ground (arith, eq_iff print name))
      ]
    ]
  ]

  plan_reversible_ok :
      (own : Grant) (payload : Fields) (plan : Plan) (back : Rollback)
      → plan_reversible net own payload ≡ ok (plan, back)
      → (contract : Fields) × (bound_rollback net own payload ≡ ok contract)
        × (plan_rollback net contract plan.target_origin ≡ ok back)
  unfolding plan_reversible
  plan_reversible_ok own payload plan back e =
      let method = method_of net.host payload in
      let (_, e1) =
        guard_passed (not (is_subset (keys_of payload) reversible_fields)) unsupported_fields _ e in
      let (contract, bound, e2) = step_returned (bound_rollback net own payload) _ e1 in
      let (url, _, e3) =
        step_returned (policy_or (canonical_target net.host (as_text (get "url" payload)))) _ e2 in
      let (_, e4) = guard_passed (not (is_mutating_method method)) method_not_admitted _ e3 in
      let (key, _, e5) =
        step_returned (text_or method_not_admitted (as_text (get "idempotency_key" payload))) _
          e4 in
      let (plan', _, e6) = step_returned (plan_with net url method key payload) _ e5 in
      let (back', checked, e7) =
        step_returned (plan_rollback net contract plan'.target_origin) _ e6 in
      let same_plan : plan' ≡ plan = ground arith in
      let same_back : back' ≡ back = ground arith in
      (contract, bound, rw (sym same_plan) (checked ∙ ap ok same_back))

  pub reserved-Granted :
      (grant : Option Grant) (payload : Fields) (times : Times) (ledger : Table) (plan : Plan)
      (back : Rollback) (used : Grant) (table : Table)
      → reserved net grant payload times ledger ≡ ok (plan, back, used, table)
      → Granted net grant payload times ledger plan back used table
  unfolding reserved
  reserved-Granted grant payload times ledger plan back used table e =
      let (own, given, e1) = step_returned (reversible_grant grant) _ e in
      let ((plan', back'), planned, e2) = step_returned (plan_reversible net own payload) _ e1 in
      let (used', spent, e3) =
        step_returned
          (lifted (consume net.host plan'.url plan'.method plan'.key times.consumed_at own)) _ e2 in
      let (table', held, e4) =
        step_returned (lifted (reserve net.fingerprint own times.reserved_at ledger)) _ e3 in
      let same_plan : plan' ≡ plan = ground arith in
      let same_back : back' ≡ back = ground arith in
      let same_used : used' ≡ used = ground arith in
      let same_table : table' ≡ table = ground arith in
      let (contract, bound, checked) = plan_reversible_ok own payload plan' back' planned in
      let (requested, named) = bound_ok own payload contract bound in
      record {
        own = own;
        given = (reversible_grant_ok grant own given).0;
        of_class = (reversible_grant_ok grant own given).1;
        contract = contract;
        requested = requested;
        named = named;
        checked = rw (sym same_plan) (checked ∙ ap ok same_back);
        used_now =
            rw (sym same_plan, sym same_used)
              (consume-Used net.host plan'.url plan'.method plan'.key times.consumed_at own used'
                (lifted_ok _ spent));
        held = lifted_ok _ held ∙ ap ok same_table;
      }

  -- A reversible call that gets as far as its reservation has a reversible grant, used up by it, and
  -- the rollback contract that the grant names by its fingerprint. It ends in one of these ways.
  -- It raises before its change, since Playwright is missing, the browser or the context does not
  -- start, or the precheck raises; nothing was changed, and the ledger says FAILED_NO_EFFECT.
  -- Or the precheck passed and the mutation was sent: without an answer the call raises, and the
  -- ledger says MUTATION_STATE_UNKNOWN. With another status than the expected one, nothing else was
  -- sent, and the reply and the ledger say MUTATION_STATE_UNKNOWN. With the expected status, the
  -- postcheck of the plan was made next, and whether it passed is in the reply; then the rollback of
  -- the contract was sent. Reply and ledger say ROLLBACK_FAILED where it had no answer or another
  -- status than its contract expects or where the check of the contract, made next, raised; they say
  -- ROLLED_BACK where it had that status and that check passed, with success as the postcheck had.
  pub mutate_reversible-Ended :
      (grant : Option Grant) (payload : Fields) (times : Times) (world : World) (plan : Plan)
      (back : Rollback) (used : Grant) (table : Table)
      → reserved net grant payload times world.ledger ≡ ok (plan, back, used, table)
      → Granted net grant payload times world.ledger plan back used table
        × Ended net plan used.request_id world.sent
            (Good net plan back world.sent)
            (mutate_reversible net grant payload times world)
  unfolding mutate_reversible entered
  mutate_reversible-Ended grant payload times world plan back used table e =
      let g = reserved-Granted grant payload times world.ledger plan back used table e in
      let opened =
        (reserve-Open net plan times g.own used world.ledger table g.used_now g.held).1 in
      (g, rw e (run-Fine net plan back used times.marked_at world.sent table opened))
