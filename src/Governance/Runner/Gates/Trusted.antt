-- ===== src/Governance/Runner/Gates/Trusted.antt =====
-- `system.health` runs only for a resolved binding of the loaded configuration.
use aios_tools.Prelude.{
  String, Bool, true, false, Option, none, some, List, [], ◌∷◌, ◌++◌, ◌≡◌, ◌≢◌, inl, inr, refl,
  arith, string_eq, eq_iff, ◌==◌, if◌then◌else◌, ok, Result-cases, sym,
}
use aios_tools.Prelude.Json.{
  Json, null, boolean, number, other_number, text, array, object, get, is_text, as_object,
}
use aios_tools.Governance.Policy.{lists}
use aios_tools.Governance.Policy.Closed.{IsClosed}
use aios_tools.Trust.Binding.{Binding, tool_catalog_changed, tool_policy_changed}
use aios_tools.Trust.Verdict.{Decision, admit}
use aios_tools.Trust.Evaluate as Trust
use aios_tools.Trust.Evaluate.{evaluate_trust_binding}
use aios_tools.Trust.Evaluate.Admission.{Clean, admitted_iff, evaluate-admit}
use aios_tools.Governance.Runner.{Call, Receipt, receipt, uncaught, fields_of}
use aios_tools.Governance.Runner.Gates.{
  Setup, Registered, Admission, admission, trust_gate, bound_receipt, changed, activation,
  decision_text, returned, invoke,
}
use aios_tools.Governance.Runner.Gates.Guarded.{Passed, Guarded, admission-Passed, Passed-Guarded}

decision_text-admit : (d : Decision) → decision_text d ≡ "ADMIT" → d ≡ admit
unfolding decision_text
decision_text-admit Decision.admit e = refl
decision_text-admit Decision.unknown e = absurd (ground (arith, eq_iff "UNKNOWN" "ADMIT"))
decision_text-admit Decision.pending_policy e =
    absurd (ground (arith, eq_iff "PENDING_POLICY" "ADMIT"))
decision_text-admit Decision.stale e = absurd (ground (arith, eq_iff "STALE" "ADMIT"))
decision_text-admit Decision.block e = absurd (ground (arith, eq_iff "BLOCK" "ADMIT"))

is_text-same :
    (value : Json) (s t : String) → is_text value s ≡ true → is_text value t ≡ true → s ≡ t
unfolding is_text
is_text-same null s t e f = cc
is_text-same (boolean _) s t e f = cc
is_text-same (number _) s t e f = cc
is_text-same other_number s t e f = cc
is_text-same (text x) s t e f = ground (arith, eq_iff x s, eq_iff x t)
is_text-same (array _) s t e f = cc
is_text-same (object _) s t e f = cc

no_events :
    {E : Type 0} (xs : List E) (p q : Bool) (x y : E)
    → xs ++ (if p then [] else x ∷ []) ++ (if q then [] else y ∷ []) ≡ []
    → (p ≡ true) × (q ≡ true)
no_events [] true true x y e = (refl, refl)
no_events [] true false x y e = cc
no_events [] false q x y e = cc
no_events (z ∷ xs) p q x y e = cc

module _ {W : Type 0} (setup : Setup W) (call : Call) where
  activation_is :
      (r : Registered) (closed : IsClosed r.policy) → activation setup call r ≡ closed.trust
  unfolding activation fields_of as_object
  activation_is r closed = ground (arith, closed.trust_policy)

  abbrev shown_receipt : Registered → Trust.Receipt
  shown_receipt r = bound_receipt setup call r (setup.health_binding call (activation setup call r))

  trust_gate-required :
      (r : Registered) (t : Option Trust.Receipt)
      → trust_gate setup call r ≡ ok t
      → lists "enforced_tools" call.tool (activation setup call r) ≡ true
      → is_text
          (get "required_decision" (activation setup call r))
          (decision_text (shown_receipt r).trust_decision)
        ≡ true
  unfolding trust_gate
  trust_gate-required r t e c = ground arith

  -- A binding that is resolved and names the versions that were loaded.
  pub record Current (r : Registered) (b : Binding) : Type 0 where
    pub built : setup.health_binding call (activation setup call r) ≡ some b
    pub clean : Clean (changed setup call r b)
    pub catalog : b.catalog.catalog_revision ≡ r.registry_version
    pub policy : is_text (get "policy_version" r.policy) b.policy.policy_version ≡ true

  unchanged :
      (r : Registered) (b : Binding)
      → (changed setup call r b).invalidation_events ≡ []
      → (b.catalog.catalog_revision ≡ r.registry_version)
        × (is_text (get "policy_version" r.policy) b.policy.policy_version ≡ true)
  unfolding changed
  unchanged r b e =
      let (catalog, policy) =
        no_events b.invalidation_events (b.catalog.catalog_revision == r.registry_version)
          (is_text (get "policy_version" r.policy) b.policy.policy_version) tool_catalog_changed
          tool_policy_changed e in
      ((eq_iff b.catalog.catalog_revision r.registry_version).0 catalog, policy)

  bound_receipt-Current :
      (r : Registered) (o : Option Binding)
      → ((b : Binding) → setup.documents.read (setup.document_of b) ≡ b)
      → setup.documents.validation_errors setup.failed_document ≢ []
      → setup.health_binding call (activation setup call r) ≡ o
      → (bound_receipt setup call r o).trust_decision ≡ admit
      → (b : Binding) × Current r b
  unfolding bound_receipt
  bound_receipt-Current r none faithful rejected s e = absurd (
      rejected
        ((admitted_iff setup.documents setup.failed_document).0
          (evaluate-admit setup.documents setup.failed_document e)).0)
  bound_receipt-Current r (some b) faithful rejected s e =
      let (_, resolved) =
        (admitted_iff setup.documents (setup.document_of (changed setup call r b))).0
          (evaluate-admit setup.documents (setup.document_of (changed setup call r b)) e) in
      let clean : Clean (changed setup call r b) =
        rw (sym (faithful (changed setup call r b))) resolved in
      let (catalog, policy) = unchanged r b clean.events in
      (b, record { built = s; clean = clean; catalog = catalog; policy = policy })

  Passed-Current :
      (a : Admission setup call)
      → Passed setup call a
      → Guarded setup call a
      → ((b : Binding) → setup.documents.read (setup.document_of b) ≡ b)
      → setup.documents.validation_errors setup.failed_document ≢ []
      → call.tool ≡ "system.health"
      → (b : Binding) × Current a.registered b
  Passed-Current a passed guarded faithful rejected health =
      let same : activation setup call a.registered ≡ guarded.closed.trust =
        activation_is a.registered guarded.closed in
      let enforced : lists "enforced_tools" call.tool (activation setup call a.registered) ≡ true =
        ground (
          arith,
          eq_iff call.tool "system.health",
          guarded.closed.of_trust.enforced call.tool,
          same,
        ) in
      let required : is_text (get "required_decision" (activation setup call a.registered)) "ADMIT"
          ≡ true =
        rw same guarded.closed.of_trust.required in
      bound_receipt-Current a.registered
        (setup.health_binding call (activation setup call a.registered)) faithful rejected refl
        (decision_text-admit (shown_receipt a.registered).trust_decision (
          is_text-same (get "required_decision" (activation setup call a.registered)) _ "ADMIT"
            (trust_gate-required a.registered a.trust passed.trust enforced) required))

  -- If documents are read back as they were written and the document for a failed binding breaks
  -- the schema, then `system.health` changes the world only when its binding was built, has every
  -- material fact resolved, and names the versions of the registry and the policy that were loaded.
  pub invoke-Current :
      (before after : W) (r : Receipt)
      → ((b : Binding) → setup.documents.read (setup.document_of b) ≡ b)
      → setup.documents.validation_errors setup.failed_document ≢ []
      → call.tool ≡ "system.health"
      → invoke setup call before ≡ returned r after
      → before ≢ after
      → (a : Admission setup call) × (admission setup call ≡ ok a)
        × (b : Binding) × Current a.registered b
  unfolding invoke
  invoke-Current before after r faithful rejected health e changes =
      elim (Result-cases (admission setup call)) [
        | inr (receipt own, p) ↦ absurd (changes (ground arith))
        | inr (uncaught, p) ↦ absurd (ground arith)
        | inl (a, p) ↦
            let passed : Passed setup call a = admission-Passed setup call a p in
            let guarded : Guarded setup call a = Passed-Guarded setup call a passed in
            let (b, current) = Passed-Current a passed guarded faithful rejected health in
            (a, p, b, current)
      ]
