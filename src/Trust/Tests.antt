-- ===== src/Trust/Tests.antt =====
-- Bindings as the runtime builds them, the evaluator's answers to them, and the theorems about it
-- at these inputs.
use aios_tools.Prelude.{
  string_eq, ◌==◌, if◌then◌else◌, true, false, none, some, [], ◌∷◌, ◌≡◌, refl, contains,
  all_distinct,
}
use aios_tools.Trust.Binding.{
  AssetKind, Freshness, DiscoveredState, Consent, PolicyDecision, SecurityResult, Enablement, Mode,
  EffectClass, HeldOut, Topology, Binding, tool_policy_changed, browser_extension_revoked,
}
use aios_tools.Trust.Verdict.{Decision, unknown, note}
use aios_tools.Trust.Checks.{
  check_discovered, check_freshness, check_content, check_manifest, check_tool_drift, check_policy,
  check_consent, check_security, check_stronger_effect, check_mode, check_dependencies,
  check_topology, check_egress, check_extension, check_producer, check_promotion, check_held_out,
  check_install, check_event, check_events,
}
use aios_tools.Trust.Evaluate.{Documents, Bound, evaluate_trust_binding, assess, assess_from}
use aios_tools.Trust.Evaluate.Admission.{
  Clean, Authorized, admitted_iff, reasons_canonical, evaluate-Authorized,
}

abbrev topology : Topology
topology = record {
  controller_location = "LOCAL_ETB_HARNESS_PROCESS";
  tool_execution_location = "LOCAL_AIOS_TOOLS_SHARED_CORE";
  filesystem_boundary = "REPOSITORY_READ_ONLY_CONFIGURATION";
  shell_boundary = "NONE";
  credential_audience = "NONE";
  network_class = "NO_EXTERNAL_EFFECT";
  orchestration_owner = "AIOS_TOOLS_EXPERIMENTAL_HARNESS";
  inference_location = "NONE";
  worker_identity = "PYTHON_PROCESS_LOCAL";
  data_egress_policy_id = "NO_EGRESS";
}

-- The binding of `build_system_health_binding`, with short digests.
abbrev pub health : Binding
health = record {
  execution_id = "etb-real-system-health-01";
  scope_key = "global-working-memory";
  capability_id = "cap:aios-tools-health";
  principal_id = "service:etb-harness";
  identity = record {
    kind = AssetKind.tool;
    stable_id = "system.health";
    version_label = "0.1.0";
    content_digest = "75";
    expected_content_digest = "75";
    dependency_manifest_digest = "81";
    expected_dependency_manifest_digest = "81";
  };
  catalog = record {
    catalog_revision = "0.1.0";
    schema_digest = "25";
    expected_schema_digest = "25";
    description_digest = "02";
    expected_description_digest = "02";
    freshness = Freshness.fresh;
    discovered_state = DiscoveredState.known;
  };
  policy = record {
    policy_id = "execution-policy.v0.1";
    policy_version = "0.4.0";
    parameter_class = "EMPTY_OBJECT";
    consent = Consent.not_required;
    decision = PolicyDecision.allow;
  };
  security = SecurityResult.not_applicable;
  runtime_topology = topology;
  extension = record {
    extension_id = none;
    resolved_revision = none;
    manifest_digest = none;
    backend_scope = none;
    enablement_state = Enablement.disabled;
  };
  producer = record { producer_execution_id = none; source_receipt_ids = [] };
  promotion_allowed = false;
  requested = record {
    mode = Mode.read_only;
    effect_class = EffectClass.no_external_effect;
    artifact_upload = false;
    semantic_promotion = false;
    skill_installation = false;
    authenticated_requests = 0;
  };
  artifact_dependencies = [];
  observation = record { topology = topology; egress_enabled = false };
  skill = record { held_out_validation = HeldOut.not_run; install_authorized = false };
  invalidation_events = [];
}

-- A binding that asks for an upload and three authenticated requests, with its evidence in place.
abbrev uploading : Binding
uploading = record health {
  security = SecurityResult.pass;
  requested = record {
    mode = Mode.write;
    effect_class = EffectClass.remote_mutation_reversible;
    artifact_upload = true;
    semantic_promotion = false;
    skill_installation = false;
    authenticated_requests = 3;
  };
  observation = record { topology = topology; egress_enabled = true };
}

abbrev pub documents : Documents
documents = record {
  Raw = Binding;
  validation_errors = λ b. if b.execution_id == "failed" then "schema" ∷ [] else [];
  read = λ b. b;
  execution_id? = λ b. some b.execution_id;
  digest = λ b. b.execution_id;
  seed_digest = λ d decision reasons. d;
}

evaluator : Unit {0}
unfolding evaluate_trust_binding assess assess_from check_discovered check_freshness check_content
    check_manifest check_tool_drift check_policy check_consent check_security check_stronger_effect
    check_mode check_dependencies check_topology check_egress check_extension check_producer
    check_promotion check_held_out check_install check_events check_event note contains all_distinct
evaluator = tt

evaluate_health : (evaluate_trust_binding documents health).admitted ≡ true
unfolding evaluator
evaluate_health = refl

-- The binding under a catalog of revision v1.
abbrev pub current : Binding
current = record health { catalog = record health.catalog { catalog_revision = "v1" } }

pub decision_current : (evaluate_trust_binding documents current).trust_decision ≡ Decision.admit
unfolding evaluator
decision_current = refl

evaluate_drift :
    (evaluate_trust_binding documents (record health {
      invalidation_events = tool_policy_changed ∷ browser_extension_revoked ∷ [];
    })).reason_codes
    ≡ "POLICY_INVALIDATION_REQUIRES_REBINDING" ∷ "EXTENSION_REVOKED" ∷ []
unfolding evaluator
evaluate_drift = refl

evaluate_removed :
    (evaluate_trust_binding documents
      (record health { security = SecurityResult.unknown })).trust_decision
    ≡ unknown
unfolding evaluator
evaluate_removed = refl

admitted_iff_example : (documents.validation_errors health ≡ []) × Clean health
unfolding evaluator
admitted_iff_example = (admitted_iff documents health).0 refl

reasons_canonical_example :
    (all_distinct (evaluate_trust_binding documents health).reason_codes ≡ true)
    × ((evaluate_trust_binding documents health).admitted ≡ true
        → (evaluate_trust_binding documents health).reason_codes
          ≡ "ALL_MATERIAL_BINDINGS_RESOLVED" ∷ [])
reasons_canonical_example = reasons_canonical documents health

abbrev upload_bound : Bound
upload_bound = record {
  scope_key = "global-working-memory";
  capability_id = "cap:aios-tools-health";
  principal_id = "service:etb-harness";
  asset_or_tool_identity = health.identity;
  catalog_revision = "0.1.0";
  policy_id = "execution-policy.v0.1";
  policy_version = "0.4.0";
  observed_runtime_topology = topology;
  security_trust = SecurityResult.pass;
  artifact_upload_authorized = true;
  authenticated_requests_authorized = 3;
  skill_installation_authorized = false;
  security_trust_grants_semantic_authority = false;
}

evaluate-Authorized_example : Authorized uploading upload_bound
unfolding evaluator
evaluate-Authorized_example = evaluate-Authorized documents uploading upload_bound refl
