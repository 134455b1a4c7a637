-- ===== src/Deciders/Completion/Complete.antt =====
-- PASS is said of exactly the trajectories that meet their contract.
use aios_tools.Prelude.{
  ◌≤◌, ◌<◌, String, Bool, true, false, some, List, [], ◌∷◌, All, contains, ◌≡◌, ◌↔◌, refl, ap, ◌∙◌,
  arith, string_eq, eq_iff, ok,
}
use aios_tools.Prelude.Dict.{Dict}
use aios_tools.Prelude.Json.{Json}
use aios_tools.Prelude.Order.{text_le}
use aios_tools.Prelude.Sort.{sorted, sorted_empty}
use aios_tools.Deciders.Completion.{
  PredicateState, pass, fail, unknown, Contract, Trajectory, read_contract, read_trajectory,
  passing, Report, meets, index, misordered, is_state, with_state, minus, is_empty, pending,
  after_failures, report_of, with_trajectory, with_contract, evaluate_completion,
}

-- Of two events that both happened, the first happened before the second.
abbrev pub InOrder : List String → String × String → Type 0
InOrder events (before, after) =
    contains events before ≡ true
    → contains events after ≡ true
    → index events before < index events after

-- The contract is met, and the trajectory is over.
pub record Complete (contract : Contract) (trajectory : Trajectory) : Type 0 where
  pub same_workflow : contract.workflow_id ≡ trajectory.workflow_id
  pub same_contract : contract.contract_id ≡ trajectory.contract_id
  pub same_verifier : contract.verification_owner ≡ trajectory.verification_owner
  pub none_forbidden : All (λ e. contains contract.forbidden_events e ≡ false) trajectory.events
  pub in_budget : trajectory.step_count ≤ contract.max_steps
  pub in_order : All (InOrder trajectory.events) contract.required_order
  pub delivered :
      All (λ d. contains trajectory.deliverables d ≡ true) contract.required_deliverables
  pub happened : All (λ e. contains trajectory.events e ≡ true) contract.required_events
  pub passed : All (λ q. q.1 ≡ pass) trajectory.predicate_results
  pub finished : trajectory.terminal ≡ true

meets_none :
    (xs banned : List String) → (meets xs banned ≡ false) ↔ All (λ e. contains banned e ≡ false) xs
unfolding meets
meets_none [] banned = (λ h. tt, λ h. refl)
meets_none (x ∷ xs) banned =
    let (to, from) = meets_none xs banned in
    (λ h. (ground arith, to (ground arith)), λ h. ground (arith, from h.1))

ordered :
    (events : List String) (pairs : List (String × String))
    → (misordered events pairs ≡ false) ↔ All (InOrder events) pairs
unfolding misordered
ordered events [] = (λ h. tt, λ h. refl)
ordered events ((before, after) ∷ pairs) =
    let (to, from) = ordered events pairs in
    (λ h. (λ b a. ground arith, to (ground arith)), λ h. ground (arith, from h.1, h.0))

minus_none :
    (xs observed : List String)
    → (minus xs observed ≡ []) ↔ All (λ x. contains observed x ≡ true) xs
unfolding minus
minus_none [] observed = (λ h. tt, λ h. refl)
minus_none (x ∷ xs) observed =
    let (to, from) = minus_none xs observed in
    (λ h. (ground arith, to (ground arith)), λ h. ground (arith, from h.1))

all_pass :
    (results : Dict String PredicateState)
    → ((with_state fail results ≡ []) × (with_state unknown results ≡ []))
      ↔ All (λ q. q.1 ≡ pass) results
unfolding with_state is_state
all_pass [] = (λ h. tt, λ h. (refl, refl))
all_pass ((key, pass) ∷ rest) = let (to, from) = all_pass rest in (λ h. (refl, to h), λ h. from h.1)
all_pass ((key, fail) ∷ rest) =
    (λ h. absurd (ground (arith, h.0)), λ h. absurd (ground (arith, h.0)))
all_pass ((key, unknown) ∷ rest) =
    (λ h. absurd (ground (arith, h.1)), λ h. absurd (ground (arith, h.0)))

emptied : (xs : List String) → (is_empty (sorted text_le xs) ≡ true) ↔ (xs ≡ [])
unfolding is_empty sorted
emptied xs = (
  λ h. sorted_empty text_le xs (no_items_in (sorted text_le xs) h),
  λ h. ap (λ ys. is_empty (sorted text_le ys)) h ∙ empty_sorted,
)
  where
    no_items_in : (ys : List String) → is_empty ys ≡ true → ys ≡ []
    no_items_in [] h = refl
    no_items_in (y ∷ ys) h = absurd (ground arith)

    empty_sorted : is_empty (sorted text_le []) ≡ true
    empty_sorted = refl

pending_lem :
    (terminal : Bool) (deliverables events unknowns : List String)
    → ((pending terminal deliverables events unknowns).verdict ≡ passing) ↔ (
        (is_empty deliverables ≡ true)
        × (is_empty events ≡ true)
        × (is_empty unknowns ≡ true)
        × (terminal ≡ true))
unfolding pending
pending_lem true deliverables events unknowns =
    (λ h. (ground arith, ground arith, ground arith, refl), λ h. ground (arith, h.0, h.1, h.2))
pending_lem false deliverables events unknowns =
    (λ h. absurd (ground arith), λ h. absurd (ground (arith, h.3)))

after_failures_lem :
    (contract : Contract) (trajectory : Trajectory) (failed : List String)
    → ((after_failures contract trajectory failed).verdict ≡ passing) ↔ (
        (is_empty failed ≡ true)
        × ((pending trajectory.terminal
              (sorted text_le (minus contract.required_deliverables trajectory.deliverables))
              (sorted text_le (minus contract.required_events trajectory.events))
              (sorted text_le (with_state unknown trajectory.predicate_results))).verdict
            ≡ passing))
unfolding after_failures is_empty
after_failures_lem contract trajectory [] = (λ h. (refl, h), λ h. h.1)
after_failures_lem contract trajectory (x ∷ failed) =
    (λ h. absurd (ground arith), λ h. absurd (ground (arith, h.0)))

report_lem :
    (contract : Contract) (trajectory : Trajectory)
    → ((report_of contract trajectory).verdict ≡ passing) ↔ (
        (contract.workflow_id ≡ trajectory.workflow_id)
        × (contract.contract_id ≡ trajectory.contract_id)
        × (contract.verification_owner ≡ trajectory.verification_owner)
        × (meets trajectory.events contract.forbidden_events ≡ false)
        × (trajectory.step_count ≤ contract.max_steps)
        × (misordered trajectory.events contract.required_order ≡ false)
        × ((after_failures contract trajectory
              (sorted text_le (with_state fail trajectory.predicate_results))).verdict
            ≡ passing))
unfolding report_of
report_lem contract trajectory = (
  λ h. (
    ground (arith, eq_iff contract.workflow_id trajectory.workflow_id),
    ground (arith, eq_iff contract.contract_id trajectory.contract_id),
    ground (arith, eq_iff contract.verification_owner trajectory.verification_owner),
    ground arith,
    ground arith,
    ground arith,
    ground arith,
  ),
  λ (w, c, v, f, b, o, rest). ground (
    arith,
    eq_iff contract.workflow_id trajectory.workflow_id,
    eq_iff contract.contract_id trajectory.contract_id,
    eq_iff contract.verification_owner trajectory.verification_owner,
  ),
)

report-Complete :
    (contract : Contract) (trajectory : Trajectory)
    → ((report_of contract trajectory).verdict ≡ passing) ↔ Complete contract trajectory
report-Complete contract trajectory =
    let (to, from) = report_lem contract trajectory in
    let (after_to, after_from) =
      after_failures_lem contract trajectory
        (sorted text_le (with_state fail trajectory.predicate_results)) in
    let (pending_to, pending_from) =
      pending_lem trajectory.terminal
        (sorted text_le (minus contract.required_deliverables trajectory.deliverables))
        (sorted text_le (minus contract.required_events trajectory.events))
        (sorted text_le (with_state unknown trajectory.predicate_results)) in
    let (pass_to, pass_from) = all_pass trajectory.predicate_results in
    (
      λ h.
          let (w, c, v, f, b, o, rest) = to h in
          let (none_failed, left) = after_to rest in
          let (d, e, u, t) = pending_to left in
          record {
            same_workflow = w;
            same_contract = c;
            same_verifier = v;
            none_forbidden = (meets_none trajectory.events contract.forbidden_events).0 f;
            in_budget = b;
            in_order = (ordered trajectory.events contract.required_order).0 o;
            delivered = (minus_none _ _).0 ((emptied _).0 d);
            happened = (minus_none _ _).0 ((emptied _).0 e);
            passed = pass_to ((emptied _).0 none_failed, (emptied _).0 u);
            finished = t;
          },
      λ met.
          let (no_fail, no_unknown) = pass_from met.passed in
          from (
            met.same_workflow,
            met.same_contract,
            met.same_verifier,
            (meets_none trajectory.events contract.forbidden_events).1 met.none_forbidden,
            met.in_budget,
            (ordered trajectory.events contract.required_order).1 met.in_order,
            after_from (
              (emptied _).1 no_fail,
              pending_from (
                (emptied _).1 ((minus_none _ _).1 met.delivered),
                (emptied _).1 ((minus_none _ _).1 met.happened),
                (emptied _).1 no_unknown,
                met.finished,
              ),
            ),
          ),
    )

-- The report on a contract and a trajectory that are valid says PASS if and only if the trajectory is
-- of the contract and its verifier, has no forbidden event, is in the budget of steps, has the
-- required events, a pair of them in its order, the required deliverables and a PASS for every
-- predicate, and is over.
pub evaluate_completion-Complete :
    (value other : Json) (contract : Contract) (trajectory : Trajectory)
    → read_contract value ≡ ok contract
    → read_trajectory other contract ≡ ok trajectory
    → (report : Report) × (evaluate_completion value other ≡ some report)
      × ((report.verdict ≡ passing) ↔ Complete contract trajectory)
unfolding evaluate_completion with_contract with_trajectory
evaluate_completion-Complete value other contract trajectory c t =
    (report_of contract trajectory, rw (c, t) refl, report-Complete contract trajectory)
