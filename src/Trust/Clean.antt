-- ===== src/Trust/Clean.antt =====
-- The facts that a binding has to show for admission, stated apart from the evaluator's checks,
-- and for each check of src/aios_tools/execution_trust.py that it passes by exactly its facts.
use aios_tools.Prelude.{
  Bool, true, false, not, ◌≡◌, refl, ◌<◌, ◌↔◌, ◌⊎◌, inl, inr, arith, ◌==◌, string_eq, eq_iff,
  if◌then◌else◌,
}
use aios_tools.Trust.Binding.{
  Freshness, DiscoveredState, Consent, PolicyDecision, SecurityResult, Mode, read_only, write,
  EffectClass, no_external_effect, local_durable_write, read_network, remote_mutation_reversible,
  remote_mutation_high_impact, Identity, Catalog, Topology, Requested, Observation,
}
use aios_tools.Trust.Verdict.{stale, note}
use aios_tools.Trust.Checks.{
  check_discovered, check_freshness, check_content, check_manifest, check_tool_drift, check_policy,
  check_consent, check_security, check_stronger_effect, check_mode, check_topology, tool_drift,
  same_topology, consent_invalidated,
}
use aios_tools.Trust.Steps.{IsCheck, IsCheck-same, IsCheck-note, IsCheck-cite, IsCheck-flag}

abbrev pub Consented : Consent → Type 0
Consented c = (c ≡ Consent.not_required) ⊎ (c ≡ Consent.granted_bound)

abbrev pub Secure : SecurityResult → Type 0
Secure s = (s ≡ SecurityResult.pass) ⊎ (s ≡ SecurityResult.not_applicable)

-- An effect beyond plain reading, which needs evidence of its own.
abbrev pub IsStronger : Requested → Type 0
IsStronger r =
    (r.mode ≡ write)
    ⊎ (r.artifact_upload ≡ true)
    ⊎ (r.semantic_promotion ≡ true)
    ⊎ (r.skill_installation ≡ true)
    ⊎ (0 < r.authenticated_requests)

abbrev pub Compatible : Mode → EffectClass → Type 0
Compatible m e =
    (m ≡ read_only) × ((e ≡ no_external_effect) ⊎ (e ≡ read_network))
    ⊎ (m ≡ write)
      × ((e ≡ local_durable_write)
          ⊎ (e ≡ remote_mutation_reversible)
          ⊎ (e ≡ remote_mutation_high_impact))

pub discovered-IsCheck :
    (s : DiscoveredState) → IsCheck (check_discovered s) (s ≡ DiscoveredState.known)
unfolding check_discovered
discovered-IsCheck DiscoveredState.known = IsCheck-same refl
discovered-IsCheck DiscoveredState.new_pending_policy = IsCheck-note _ _ (omega arith) (λ e. cc)
discovered-IsCheck DiscoveredState.removed = IsCheck-note _ _ (omega arith) (λ e. cc)
discovered-IsCheck DiscoveredState.unknown = IsCheck-note _ _ (omega arith) (λ e. cc)

pub content-IsCheck :
    (i : Identity) → IsCheck (check_content i) (i.content_digest ≡ i.expected_content_digest)
unfolding check_content
content-IsCheck i =
    let e = eq_iff i.content_digest i.expected_content_digest in
    IsCheck-flag (not (i.content_digest == i.expected_content_digest)) _ _ (omega arith)
      (λ t p. ground (arith, e)) (λ f. ground (arith, e))

same_topology_iff : (s t : Topology) → (same_topology s t ≡ true) ↔ (s ≡ t)
unfolding same_topology
same_topology_iff s t = ground (
  arith,
  eq_iff s.controller_location t.controller_location,
  eq_iff s.tool_execution_location t.tool_execution_location,
  eq_iff s.filesystem_boundary t.filesystem_boundary,
  eq_iff s.shell_boundary t.shell_boundary,
  eq_iff s.credential_audience t.credential_audience,
  eq_iff s.network_class t.network_class,
  eq_iff s.orchestration_owner t.orchestration_owner,
  eq_iff s.inference_location t.inference_location,
  eq_iff s.worker_identity t.worker_identity,
  eq_iff s.data_egress_policy_id t.data_egress_policy_id,
)

pub topology-IsCheck :
    (t : Topology) (o : Observation) → IsCheck (check_topology t o) (t ≡ o.topology)
unfolding check_topology
topology-IsCheck t o =
    let e = same_topology_iff t o.topology in
    IsCheck-flag _ _ _ (omega arith) (λ h p. ground (arith, e)) (λ h. ground (arith, e))

pub security-IsCheck : (s : SecurityResult) → IsCheck (check_security s) (Secure s)
unfolding check_security
security-IsCheck SecurityResult.pass = IsCheck-same (inl refl)
security-IsCheck SecurityResult.not_applicable = IsCheck-same (inr refl)
security-IsCheck SecurityResult.block = IsCheck-note _ _ (omega arith) (λ e. ground arith)
security-IsCheck SecurityResult.unknown = IsCheck-note _ _ (omega arith) (λ e. ground arith)

pub evidence-IsCheck :
    (r : Requested) (s : SecurityResult)
    → IsCheck (check_stronger_effect r s) (IsStronger r → s ≡ SecurityResult.pass)
unfolding check_stronger_effect
evidence-IsCheck r s = IsCheck-flag _ _ _ (omega arith) (λ t p. ground arith) (λ f p. ground arith)

pub mode-IsCheck : (m : Mode) (e : EffectClass) → IsCheck (check_mode m e) (Compatible m e)
unfolding check_mode
mode-IsCheck m e = IsCheck-flag _ _ _ (omega arith) (λ t p. ground arith) (λ f. ground arith)

pub freshness-IsCheck : (s : Freshness) → IsCheck (check_freshness s) (s ≡ Freshness.fresh)
unfolding check_freshness
freshness-IsCheck Freshness.fresh = IsCheck-same refl
freshness-IsCheck Freshness.stale = IsCheck-note _ _ (omega arith) (λ e. cc)
freshness-IsCheck Freshness.unknown = IsCheck-note _ _ (omega arith) (λ e. cc)

pub manifest-IsCheck :
    (i : Identity)
    → IsCheck
        (check_manifest i)
        (i.dependency_manifest_digest ≡ i.expected_dependency_manifest_digest)
unfolding check_manifest
manifest-IsCheck i =
    let e = eq_iff i.dependency_manifest_digest i.expected_dependency_manifest_digest in
    IsCheck-flag _ _ _ (omega arith) (λ t p. ground (arith, e)) (λ f. ground (arith, e))

abbrev pub ToolClean : Catalog → Type 0
ToolClean c =
    (c.schema_digest ≡ c.expected_schema_digest)
    × (c.description_digest ≡ c.expected_description_digest)

tool_drift_iff : (c : Catalog) → (tool_drift c ≡ false) ↔ ToolClean c
tool_drift_iff c = ground (
  arith,
  eq_iff c.schema_digest c.expected_schema_digest,
  eq_iff c.description_digest c.expected_description_digest,
)

drift-IsCheck :
    (b : Bool) (m : Mode) {P : Type 0}
    → (b ≡ true → ¬ P)
    → (b ≡ false → P)
    → IsCheck
        (λ v. if b then consent_invalidated m (note stale "MATERIAL_TOOL_IDENTITY_DRIFT" v) else v)
        P
unfolding consent_invalidated
drift-IsCheck true write n p =
    IsCheck-cite "READ_TO_WRITE_SCHEMA_DRIFT_CONSENT_INVALIDATED"
      (IsCheck-note stale "MATERIAL_TOOL_IDENTITY_DRIFT" (omega arith) (n refl)) (n refl)
drift-IsCheck true read_only n p = IsCheck-note _ _ (omega arith) (n refl)
drift-IsCheck false m n p = IsCheck-same (p refl)

pub tool_drift-IsCheck : (c : Catalog) (m : Mode) → IsCheck (check_tool_drift c m) (ToolClean c)
unfolding check_tool_drift
tool_drift-IsCheck c m =
    drift-IsCheck (tool_drift c) m (λ t p. ground (arith, tool_drift_iff c)) (tool_drift_iff c).0

pub policy-IsCheck : (d : PolicyDecision) → IsCheck (check_policy d) (d ≡ PolicyDecision.allow)
unfolding check_policy
policy-IsCheck PolicyDecision.allow = IsCheck-same refl
policy-IsCheck PolicyDecision.deny = IsCheck-note _ _ (omega arith) (λ e. cc)
policy-IsCheck PolicyDecision.unknown = IsCheck-note _ _ (omega arith) (λ e. cc)

pub consent-IsCheck : (c : Consent) → IsCheck (check_consent c) (Consented c)
unfolding check_consent
consent-IsCheck Consent.not_required = IsCheck-same (inl refl)
consent-IsCheck Consent.granted_bound = IsCheck-same (inr refl)
consent-IsCheck Consent.required_pending = IsCheck-note _ _ (omega arith) (λ e. ground arith)
consent-IsCheck Consent.denied = IsCheck-note _ _ (omega arith) (λ e. ground arith)
consent-IsCheck Consent.unknown = IsCheck-note _ _ (omega arith) (λ e. ground arith)
