-- ===== src/Trust/Checks.antt =====
-- src/aios_tools/execution_trust.py, `evaluate_trust_binding`: the checks of an accepted document,
-- each as the step it makes on the decision and the reasons, in the order of the source.
use aios_tools.Prelude.{
  String, Bool, true, false, not, ◌&&◌, ◌||◌, Option, none, some, List, [], ◌∷◌, ltb, ◌==◌,
  string_eq, if◌then◌else◌,
}
use aios_tools.Trust.Binding.{
  Freshness, DiscoveredState, Consent, PolicyDecision, SecurityResult, Enablement, Mode, read_only,
  write, EffectClass, no_external_effect, local_durable_write, read_network,
  remote_mutation_reversible, remote_mutation_high_impact, DependencyResult, HeldOut,
  InvalidationEvent, tool_policy_changed, tool_consent_changed, browser_extension_revoked,
  AssetKind, generated_artifact, browser_extension, Identity, Catalog, Topology, Extension,
  Producer, Requested, Dependency, Observation, Skill,
}
use aios_tools.Trust.Verdict.{unknown, pending_policy, stale, block, Verdict, cite, note}

unfoldable pub check_discovered : DiscoveredState → Verdict → Verdict
check_discovered DiscoveredState.new_pending_policy v =
    note pending_policy "NEW_TOOL_PENDING_POLICY" v
check_discovered DiscoveredState.removed v = note block "REMOVED_TOOL_BLOCKED" v
check_discovered DiscoveredState.unknown v = note unknown "CATALOG_STATE_UNKNOWN" v
check_discovered DiscoveredState.known v = v

unfoldable pub check_freshness : Freshness → Verdict → Verdict
check_freshness Freshness.stale v = note stale "CATALOG_STALE" v
check_freshness Freshness.unknown v = note unknown "CATALOG_FRESHNESS_UNKNOWN" v
check_freshness Freshness.fresh v = v

unfoldable pub check_content : Identity → Verdict → Verdict
check_content identity v =
    if not (identity.content_digest == identity.expected_content_digest)
    then note stale "SAME_VERSION_DIGEST_DRIFT" v
    else v

unfoldable pub check_manifest : Identity → Verdict → Verdict
check_manifest identity v =
    if not (identity.dependency_manifest_digest == identity.expected_dependency_manifest_digest)
    then note stale "DEPENDENCY_MANIFEST_DRIFT" v
    else v

is_write : Mode → Bool
is_write write = true
is_write read_only = false

abbrev pub tool_drift : Catalog → Bool
tool_drift catalog =
    not (catalog.schema_digest == catalog.expected_schema_digest)
    || not (catalog.description_digest == catalog.expected_description_digest)

unfoldable pub consent_invalidated : Mode → Verdict → Verdict
consent_invalidated write v = cite "READ_TO_WRITE_SCHEMA_DRIFT_CONSENT_INVALIDATED" v
consent_invalidated read_only v = v

unfoldable pub check_tool_drift : Catalog → Mode → Verdict → Verdict
unfolding consent_invalidated
check_tool_drift catalog mode v =
    if tool_drift catalog
    then consent_invalidated mode (note stale "MATERIAL_TOOL_IDENTITY_DRIFT" v)
    else v

unfoldable pub check_policy : PolicyDecision → Verdict → Verdict
check_policy PolicyDecision.deny v = note block "POLICY_DENIED" v
check_policy PolicyDecision.unknown v = note pending_policy "POLICY_UNRESOLVED" v
check_policy PolicyDecision.allow v = v

unfoldable pub check_consent : Consent → Verdict → Verdict
check_consent Consent.required_pending v = note pending_policy "CONSENT_UNRESOLVED" v
check_consent Consent.unknown v = note pending_policy "CONSENT_UNRESOLVED" v
check_consent Consent.denied v = note block "CONSENT_DENIED" v
check_consent Consent.not_required v = v
check_consent Consent.granted_bound v = v

unfoldable pub check_security : SecurityResult → Verdict → Verdict
check_security SecurityResult.block v = note block "SECURITY_VALIDATION_BLOCK" v
check_security SecurityResult.unknown v = note unknown "SECURITY_TRUST_UNKNOWN" v
check_security SecurityResult.pass v = v
check_security SecurityResult.not_applicable v = v

is_pass : SecurityResult → Bool
is_pass SecurityResult.pass = true
is_pass _ = false

stronger_effect : Requested → Bool
unfolding is_write
stronger_effect requested =
    is_write requested.mode
    || requested.artifact_upload
    || requested.semantic_promotion
    || requested.skill_installation
    || ltb 0 requested.authenticated_requests

unfoldable pub check_stronger_effect : Requested → SecurityResult → Verdict → Verdict
unfolding stronger_effect is_pass
check_stronger_effect requested security v =
    if stronger_effect requested && not (is_pass security)
    then note block "SECURITY_EVIDENCE_REQUIRED_FOR_STRONGER_EFFECT" v
    else v

-- The two tests of a mode against its effect class.
mode_conflict : Mode → EffectClass → Bool
mode_conflict read_only local_durable_write = true
mode_conflict read_only remote_mutation_reversible = true
mode_conflict read_only remote_mutation_high_impact = true
mode_conflict write no_external_effect = true
mode_conflict write read_network = true
mode_conflict _ _ = false

unfoldable pub check_mode : Mode → EffectClass → Verdict → Verdict
unfolding mode_conflict
check_mode mode effect_class v =
    if mode_conflict mode effect_class then note block "MODE_EFFECT_CLASS_CONFLICT" v else v

dependency_pass : DependencyResult → Bool
dependency_pass DependencyResult.pass = true
dependency_pass _ = false

unfoldable pub check_dependency : Dependency → Verdict → Verdict
unfolding dependency_pass
check_dependency dependency v =
    let v' =
      if not (dependency.digest == dependency.approved_digest)
      then note block "TRANSITIVE_DEPENDENCY_DIGEST_UNAPPROVED" v
      else v in
    if not (dependency_pass dependency.security_result)
    then note block "TRANSITIVE_DEPENDENCY_BLOCKED" v'
    else v'

unfoldable pub check_dependencies : List Dependency → Verdict → Verdict
check_dependencies [] v = v
check_dependencies (dependency ∷ rest) v = check_dependencies rest (check_dependency dependency v)

-- `==` of two topology objects: the schema fixes their ten keys.
unfoldable pub same_topology : Topology → Topology → Bool
same_topology s t =
    s.controller_location == t.controller_location
    && s.tool_execution_location == t.tool_execution_location
    && s.filesystem_boundary == t.filesystem_boundary
    && s.shell_boundary == t.shell_boundary
    && s.credential_audience == t.credential_audience
    && s.network_class == t.network_class
    && s.orchestration_owner == t.orchestration_owner
    && s.inference_location == t.inference_location
    && s.worker_identity == t.worker_identity
    && s.data_egress_policy_id == t.data_egress_policy_id

unfoldable pub check_topology : Topology → Observation → Verdict → Verdict
unfolding same_topology
check_topology topology observation v =
    if not (same_topology topology observation.topology)
    then note block "RUNTIME_TOPOLOGY_DRIFT" v
    else v

unfoldable pub check_egress : Requested → Observation → Verdict → Verdict
check_egress requested observation v =
    if requested.artifact_upload && not observation.egress_enabled
    then note block "EGRESS_DISABLED_ARTIFACT_UPLOAD_BLOCKED" v
    else v

is_none : Option String → Bool
is_none none = true
is_none (some _) = false

unfoldable pub is_browser_extension : AssetKind → Bool
is_browser_extension browser_extension = true
is_browser_extension _ = false

unfoldable pub incomplete : Extension → Bool
unfolding is_none
incomplete extension =
    is_none extension.extension_id
    || is_none extension.resolved_revision
    || is_none extension.manifest_digest
    || is_none extension.backend_scope

unfoldable pub extension_step : Enablement → Bool → Bool → Verdict → Verdict
extension_step Enablement.revoked _ _ v = note block "EXTENSION_REVOKED" v
extension_step Enablement.unknown true _ v = note unknown "EXTENSION_ENABLEMENT_UNKNOWN" v
extension_step Enablement.enabled true true v = note block "EXTENSION_BINDING_INCOMPLETE" v
extension_step _ _ _ v = v

unfoldable pub check_extension : AssetKind → Extension → Verdict → Verdict
unfolding is_browser_extension incomplete extension_step
check_extension kind extension v =
    extension_step extension.enablement_state (is_browser_extension kind) (incomplete extension) v

is_generated : AssetKind → Bool
is_generated generated_artifact = true
is_generated _ = false

is_empty : List String → Bool
is_empty [] = true
is_empty (_ ∷ _) = false

unfoldable pub check_producer : AssetKind → Producer → Verdict → Verdict
unfolding is_generated is_none is_empty
check_producer kind producer v =
    if is_generated kind
      && (is_none producer.producer_execution_id || is_empty producer.source_receipt_ids)
    then note block "PRODUCER_LINEAGE_INCOMPLETE" v
    else v

unfoldable pub check_promotion : Requested → Bool → Verdict → Verdict
check_promotion requested promotion_allowed v =
    if requested.semantic_promotion && not promotion_allowed
    then note block "SEMANTIC_PROMOTION_NOT_AUTHORIZED" v
    else v

unfoldable pub held_out_pass : HeldOut → Bool
held_out_pass HeldOut.pass = true
held_out_pass _ = false

unfoldable pub check_held_out : Requested → Skill → Verdict → Verdict
unfolding held_out_pass
check_held_out requested skill v =
    if requested.skill_installation && not (held_out_pass skill.held_out_validation)
    then note block "HELD_OUT_VALIDATION_FAILED" v
    else v

unfoldable pub check_install : Requested → Skill → Verdict → Verdict
check_install requested skill v =
    if requested.skill_installation && not skill.install_authorized
    then note block "SKILL_INSTALLATION_NOT_AUTHORIZED" v
    else v

unfoldable pub check_event : InvalidationEvent → Verdict → Verdict
check_event tool_policy_changed v = note pending_policy "POLICY_INVALIDATION_REQUIRES_REBINDING" v
check_event tool_consent_changed v = note pending_policy "POLICY_INVALIDATION_REQUIRES_REBINDING" v
check_event browser_extension_revoked v = note block "EXTENSION_REVOKED" v
check_event _ v = note stale "MATERIAL_INVALIDATION_REQUIRES_REEVALUATION" v

unfoldable pub check_events : List InvalidationEvent → Verdict → Verdict
check_events [] v = v
check_events (event ∷ rest) v = check_events rest (check_event event v)
