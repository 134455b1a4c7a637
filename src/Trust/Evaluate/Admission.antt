-- ===== src/Trust/Evaluate/Admission.antt =====
-- When the trust evaluator admits, and what an admission authorizes.
use aios_tools.Prelude.{
  String, Bool, true, some, List, [], ◌∷◌, ◌≡◌, ◌≢◌, refl, ap, ◌<◌, ◌↔◌, arith, All, all_distinct,
  contains, string_eq,
}
use mathlib.Core.Path.{subst}
use mathlib.Core.Option.{some-injective}
use aios_tools.Trust.Binding.{
  Binding, DiscoveredState, Freshness, PolicyDecision, SecurityResult, HeldOut, Enablement,
}
use aios_tools.Trust.Verdict.{Decision, admit, Verdict, all_distinct-add_reason}
use aios_tools.Trust.Steps.{IsCheck, IsCheck-then, IsCheck-map}
use aios_tools.Trust.Clean.{
  Consented, Secure, IsStronger, Compatible, ToolClean, discovered-IsCheck, freshness-IsCheck,
  content-IsCheck, manifest-IsCheck, tool_drift-IsCheck, policy-IsCheck, consent-IsCheck,
  security-IsCheck, evidence-IsCheck, mode-IsCheck, topology-IsCheck,
}
use aios_tools.Trust.Lineage.{
  DependencyClean, ExtensionClean, ProducerClean, dependencies-IsCheck, egress-IsCheck,
  extension-IsCheck, producer-IsCheck, promotion-IsCheck, held_out-IsCheck, install-IsCheck,
  events-IsCheck,
}
use aios_tools.Trust.Evaluate.{
  Documents, Bound, assess, assess_from, is_admit, evaluate_trust_binding, receipt_for,
  final_reasons, bound_of,
}

-- Every material fact of a binding is resolved.
pub record Clean (b : Binding) : Type 0 where
  pub known : b.catalog.discovered_state ≡ DiscoveredState.known
  pub fresh : b.catalog.freshness ≡ Freshness.fresh
  pub content : b.identity.content_digest ≡ b.identity.expected_content_digest
  pub manifest :
      b.identity.dependency_manifest_digest ≡ b.identity.expected_dependency_manifest_digest
  pub tool : ToolClean b.catalog
  pub allowed : b.policy.decision ≡ PolicyDecision.allow
  pub consented : Consented b.policy.consent
  pub secure : Secure b.security
  pub evidence : IsStronger b.requested → b.security ≡ SecurityResult.pass
  pub mode : Compatible b.requested.mode b.requested.effect_class
  pub dependencies : All DependencyClean b.artifact_dependencies
  pub topology : b.runtime_topology ≡ b.observation.topology
  pub egress : b.requested.artifact_upload ≡ true → b.observation.egress_enabled ≡ true
  pub extension : ExtensionClean b.identity.kind b.extension
  pub producer : ProducerClean b.identity.kind b.producer
  pub promotion : b.requested.semantic_promotion ≡ true → b.promotion_allowed ≡ true
  pub held_out : b.requested.skill_installation ≡ true → b.skill.held_out_validation ≡ HeldOut.pass
  pub install : b.requested.skill_installation ≡ true → b.skill.install_authorized ≡ true
  pub events : b.invalidation_events ≡ []

infixl 6 ◌⨾◌
abbrev ◌⨾◌ :
    {c d : Verdict → Verdict} {P Q : Type 0}
    → IsCheck c P
    → IsCheck d Q
    → IsCheck (λ v. d (c v)) (P × Q)
k ⨾ l = IsCheck-then k l

-- All the checks together pass by exactly these facts.
assess_from-IsCheck : (b : Binding) → IsCheck (assess_from b) (Clean b)
unfolding assess_from
assess_from-IsCheck b =
    IsCheck-map
      (λ h. record {
        known = h.0.0.0.0.0.0.0.0.0.0.0.0.0.0.0.0.0.0;
        fresh = h.0.0.0.0.0.0.0.0.0.0.0.0.0.0.0.0.0.1;
        content = h.0.0.0.0.0.0.0.0.0.0.0.0.0.0.0.0.1;
        manifest = h.0.0.0.0.0.0.0.0.0.0.0.0.0.0.0.1;
        tool = h.0.0.0.0.0.0.0.0.0.0.0.0.0.0.1;
        allowed = h.0.0.0.0.0.0.0.0.0.0.0.0.0.1;
        consented = h.0.0.0.0.0.0.0.0.0.0.0.0.1;
        secure = h.0.0.0.0.0.0.0.0.0.0.0.1;
        evidence = h.0.0.0.0.0.0.0.0.0.0.1;
        mode = h.0.0.0.0.0.0.0.0.0.1;
        dependencies = h.0.0.0.0.0.0.0.0.1;
        topology = h.0.0.0.0.0.0.0.1;
        egress = h.0.0.0.0.0.0.1;
        extension = h.0.0.0.0.0.1;
        producer = h.0.0.0.0.1;
        promotion = h.0.0.0.1;
        held_out = h.0.0.1;
        install = h.0.1;
        events = h.1;
      })
      (λ c. (
        (
          (
            (
              (
                (
                  (
                    (
                      (
                        (
                          (
                            (
                              (
                                (
                                  ((((c.known, c.fresh), c.content), c.manifest), c.tool),
                                  c.allowed,
                                ),
                                c.consented,
                              ),
                              c.secure,
                            ),
                            c.evidence,
                          ),
                          c.mode,
                        ),
                        c.dependencies,
                      ),
                      c.topology,
                    ),
                    c.egress,
                  ),
                  c.extension,
                ),
                c.producer,
              ),
              c.promotion,
            ),
            c.held_out,
          ),
          c.install,
        ),
        c.events,
      ))
      (discovered-IsCheck _
        ⨾ freshness-IsCheck _
        ⨾ content-IsCheck _
        ⨾ manifest-IsCheck _
        ⨾ tool_drift-IsCheck _ _
        ⨾ policy-IsCheck _
        ⨾ consent-IsCheck _
        ⨾ security-IsCheck _
        ⨾ evidence-IsCheck _ _
        ⨾ mode-IsCheck _ _
        ⨾ dependencies-IsCheck _
        ⨾ topology-IsCheck _ _
        ⨾ egress-IsCheck _ _
        ⨾ extension-IsCheck _ _
        ⨾ producer-IsCheck _ _
        ⨾ promotion-IsCheck _ _
        ⨾ held_out-IsCheck _ _
        ⨾ install-IsCheck _ _
        ⨾ events-IsCheck _)

is_admit_iff : (d : Decision) → (is_admit d ≡ true) ↔ (d ≡ admit)
is_admit_iff d = ground arith

assess-admit_iff : (b : Binding) → ((assess b).decision ≡ admit) ↔ Clean b
unfolding assess
assess-admit_iff b =
    let start : Verdict = record { decision = admit; reasons = [] } in
    (
      λ e. ((assess_from-IsCheck b).sound start e).1,
      λ c. ap (λ (v : Verdict). v.decision) ((assess_from-IsCheck b).silent c start),
    )

assess-distinct : (b : Binding) → all_distinct (assess b).reasons ≡ true
unfolding assess all_distinct
assess-distinct b =
    (assess_from-IsCheck b).distinct (record { decision = admit; reasons = [] }) refl

Clean-reasons : (b : Binding) → Clean b → (assess b).reasons ≡ []
unfolding assess
Clean-reasons b c =
    ap (λ (v : Verdict). v.reasons)
      ((assess_from-IsCheck b).silent c (record { decision = admit; reasons = [] }))

final_reasons-distinct :
    (v : Verdict) → all_distinct v.reasons ≡ true → all_distinct (final_reasons v) ≡ true
unfolding final_reasons
final_reasons-distinct v h =
    ground (arith, all_distinct-add_reason v.reasons "ALL_MATERIAL_BINDINGS_RESOLVED" h)

final_reasons_admitted :
    (v : Verdict)
    → v.decision ≡ admit
    → v.reasons ≡ []
    → final_reasons v ≡ "ALL_MATERIAL_BINDINGS_RESOLVED" ∷ []
unfolding final_reasons contains
final_reasons_admitted v d r = rw (d, r)

-- What one receipt of an accepted document may authorize beyond the invocation itself.
pub record Authorized (b : Binding) (x : Bound) : Type 0 where
  pub upload :
      x.artifact_upload_authorized ≡ true
      → Clean b × (b.requested.artifact_upload ≡ true) × (b.observation.egress_enabled ≡ true)
  pub requests :
      0 < x.authenticated_requests_authorized
      → Clean b
        × (x.authenticated_requests_authorized ≡ b.requested.authenticated_requests)
        × (b.extension.enablement_state ≢ Enablement.revoked)
  pub skill :
      x.skill_installation_authorized ≡ true
      → Clean b
        × (b.requested.skill_installation ≡ true)
        × (b.skill.held_out_validation ≡ HeldOut.pass)
        × (b.skill.install_authorized ≡ true)

bound_of-Authorized :
    (b : Binding) (admitted : Bool)
    → (admitted ≡ true → Clean b)
    → Authorized b (bound_of b admitted)
unfolding bound_of
bound_of-Authorized b admitted clean = record {
  upload = λ h. (clean (ground arith), ground arith, ground arith);
  requests = λ h. (clean (ground arith), ground arith, ground arith);
  skill = λ h. (clean (ground arith), ground arith, ground arith, ground arith);
}

module _ (docs : Documents) (raw : docs.Raw) where
  open docs use {validation_errors, read}

  receipt_for-admitted_iff :
      (errors : List String)
      → ((receipt_for docs raw errors).admitted ≡ true) ↔ ((errors ≡ []) × Clean (read raw))
  unfolding receipt_for
  receipt_for-admitted_iff [] = (
    λ e. (refl, (assess-admit_iff (read raw)).0 ((is_admit_iff _).0 e)),
    λ h. (is_admit_iff _).1 ((assess-admit_iff (read raw)).1 h.1),
  )
  receipt_for-admitted_iff (e ∷ es) = (λ h. cc, λ h. cc h.0)

  -- A document is admitted exactly when the schema reports no error and every material fact of
  -- its binding is resolved.
  pub admitted_iff :
      ((evaluate_trust_binding docs raw).admitted ≡ true)
      ↔ ((validation_errors raw ≡ []) × Clean (read raw))
  unfolding evaluate_trust_binding
  admitted_iff = receipt_for-admitted_iff (validation_errors raw)

  receipt_for-admit :
      (errors : List String)
      → (receipt_for docs raw errors).trust_decision ≡ admit
      → (receipt_for docs raw errors).admitted ≡ true
  unfolding receipt_for
  receipt_for-admit [] e = ap is_admit e
  receipt_for-admit (x ∷ xs) e = absurd (ground arith)

  pub evaluate-admit :
      (evaluate_trust_binding docs raw).trust_decision ≡ admit
      → (evaluate_trust_binding docs raw).admitted ≡ true
  unfolding evaluate_trust_binding
  evaluate-admit e = receipt_for-admit (validation_errors raw) e

  receipt_for-reasons :
      (errors : List String)
      → (all_distinct (receipt_for docs raw errors).reason_codes ≡ true)
        × ((receipt_for docs raw errors).admitted ≡ true
            → (receipt_for docs raw errors).reason_codes ≡ "ALL_MATERIAL_BINDINGS_RESOLVED" ∷ [])
  unfolding receipt_for all_distinct
  receipt_for-reasons [] = (
    final_reasons-distinct (assess (read raw)) (assess-distinct (read raw)),
    λ h.
        final_reasons_admitted (assess (read raw)) ((is_admit_iff _).0 h)
          (Clean-reasons (read raw) ((assess-admit_iff (read raw)).0 ((is_admit_iff _).0 h))),
  )
  receipt_for-reasons (e ∷ es) = (refl, λ h. cc)

  -- The reason codes of a receipt are listed once each, and an admitted document has the one code
  -- ALL_MATERIAL_BINDINGS_RESOLVED.
  pub reasons_canonical :
      (all_distinct (evaluate_trust_binding docs raw).reason_codes ≡ true)
      × ((evaluate_trust_binding docs raw).admitted ≡ true
          → (evaluate_trust_binding docs raw).reason_codes ≡ "ALL_MATERIAL_BINDINGS_RESOLVED" ∷ [])
  unfolding evaluate_trust_binding
  reasons_canonical = receipt_for-reasons (validation_errors raw)

  receipt_for-Authorized :
      (errors : List String) (x : Bound)
      → (receipt_for docs raw errors).bound ≡ some x
      → Authorized (read raw) x
  unfolding receipt_for
  receipt_for-Authorized [] x e = subst (Authorized (read raw)) (some-injective _ _ e) (
      bound_of-Authorized (read raw) (is_admit (assess (read raw)).decision)
        (λ h. (assess-admit_iff (read raw)).0 ((is_admit_iff _).0 h)))
  receipt_for-Authorized (_ ∷ _) x e = cc

  -- An upload, authenticated requests or a skill installation is authorized only for a clean
  -- binding that asks for it: the upload with egress enabled, the requests in the number asked for
  -- and with the extension not revoked, the skill with its validation passed and its installation
  -- authorized.
  pub evaluate-Authorized :
      (x : Bound) → (evaluate_trust_binding docs raw).bound ≡ some x → Authorized (read raw) x
  unfolding evaluate_trust_binding
  evaluate-Authorized x e = receipt_for-Authorized (validation_errors raw) x e
