-- ===== src/Trust/Evaluate.antt =====
-- src/aios_tools/execution_trust.py, `evaluate_trust_binding`: the receipt of a raw document.
-- The schema validator is `jsonschema` and the digests are SHA-256 of canonical JSON: both enter by
-- the interface `Documents`, which also says how an accepted document is read.
pub mod Admission
use aios_tools.Prelude.{
  ℕ, String, Bool, true, false, ◌&&◌, Option, none, some, List, [], ◌∷◌, if◌then◌else◌,
}
use aios_tools.Trust.Binding.{Binding, Enablement, HeldOut, Identity, SecurityResult, Topology}
use aios_tools.Trust.Verdict.{Decision, admit, unknown, Verdict, add_reason}
use aios_tools.Trust.Checks.{
  check_discovered, check_freshness, check_content, check_manifest, check_tool_drift, check_policy,
  check_consent, check_security, check_stronger_effect, check_mode, check_dependencies,
  check_topology, check_egress, check_extension, check_producer, check_promotion, check_held_out,
  check_install, check_events, held_out_pass,
}

pub record Documents : Type 1 where
  -- A JSON object, as the caller hands it over.
  pub Raw : Type 0
  -- `Draft202012Validator(_schema()).iter_errors`, sorted
  pub validation_errors : Raw → List String
  -- the fields of a document that the schema accepts
  pub read : Raw → Binding
  -- `binding.get("execution_id")`
  pub execution_id? : Raw → Option String
  -- `canonical_sha256(binding)`
  pub digest : Raw → String
  -- `canonical_sha256(receipt_seed)` over binding digest, decision and reasons
  pub seed_digest : String → Decision → List String → String

infixl 6 ◌▹◌
abbrev pub ◌▹◌ : Verdict → (Verdict → Verdict) → Verdict
v ▹ check = check v

-- The checks in the order of the source.
unfoldable pub assess_from : Binding → Verdict → Verdict
assess_from b v =
    v
    ▹ check_discovered b.catalog.discovered_state
    ▹ check_freshness b.catalog.freshness
    ▹ check_content b.identity
    ▹ check_manifest b.identity
    ▹ check_tool_drift b.catalog b.requested.mode
    ▹ check_policy b.policy.decision
    ▹ check_consent b.policy.consent
    ▹ check_security b.security
    ▹ check_stronger_effect b.requested b.security
    ▹ check_mode b.requested.mode b.requested.effect_class
    ▹ check_dependencies b.artifact_dependencies
    ▹ check_topology b.runtime_topology b.observation
    ▹ check_egress b.requested b.observation
    ▹ check_extension b.identity.kind b.extension
    ▹ check_producer b.identity.kind b.producer
    ▹ check_promotion b.requested b.promotion_allowed
    ▹ check_held_out b.requested b.skill
    ▹ check_install b.requested b.skill
    ▹ check_events b.invalidation_events

unfoldable pub assess : Binding → Verdict
assess b = assess_from b (record { decision = admit; reasons = [] })

abbrev pub is_admit : Decision → Bool
is_admit admit = true
is_admit _ = false

is_revoked : Enablement → Bool
is_revoked Enablement.revoked = true
is_revoked _ = false

-- The part of a receipt that only an accepted document has, less its copies of the semantic authority
-- and of all but the result of the security trust.
pub record Bound : Type 0 where
  pub scope_key : String
  pub capability_id : String
  pub principal_id : String
  pub asset_or_tool_identity : Identity
  pub catalog_revision : String
  pub policy_id : String
  pub policy_version : String
  pub observed_runtime_topology : Topology
  pub security_trust : SecurityResult
  pub artifact_upload_authorized : Bool
  pub authenticated_requests_authorized : ℕ
  pub skill_installation_authorized : Bool
  pub security_trust_grants_semantic_authority : Bool

pub record Receipt : Type 0 where
  pub trust_receipt_id : String
  pub execution_id : String
  pub binding_digest : String
  pub trust_decision : Decision
  pub admitted : Bool
  pub executor_invocation_authorized : Bool
  pub reason_codes : List String
  pub validation_errors : List String
  pub bound : Option Bound
  pub authority_transfer : Bool

authenticated_authorized : Binding → Bool → ℕ
unfolding is_revoked
authenticated_authorized b admitted =
    if is_revoked b.extension.enablement_state
    then 0
    else if admitted
    then b.requested.authenticated_requests
    else 0

bound_of : Binding → Bool → Bound
unfolding authenticated_authorized held_out_pass
bound_of b admitted = record {
  scope_key = b.scope_key;
  capability_id = b.capability_id;
  principal_id = b.principal_id;
  asset_or_tool_identity = b.identity;
  catalog_revision = b.catalog.catalog_revision;
  policy_id = b.policy.policy_id;
  policy_version = b.policy.policy_version;
  observed_runtime_topology = b.observation.topology;
  security_trust = b.security;
  artifact_upload_authorized =
      admitted && b.requested.artifact_upload && b.observation.egress_enabled;
  authenticated_requests_authorized = authenticated_authorized b admitted;
  skill_installation_authorized =
      admitted
      && b.requested.skill_installation
      && held_out_pass b.skill.held_out_validation
      && b.skill.install_authorized;
  security_trust_grants_semantic_authority = false;
}

final_reasons : Verdict → List String
unfolding add_reason
final_reasons v =
    if is_admit v.decision then add_reason v.reasons "ALL_MATERIAL_BINDINGS_RESOLVED" else v.reasons

execution_id_or_unknown : Option String → String
execution_id_or_unknown none = "UNKNOWN"
execution_id_or_unknown (some e) = e

module _ (docs : Documents) where
  open docs use {Raw, validation_errors, read, execution_id?, digest, seed_digest}

  -- The receipt of a document that the schema rejects.
  invalid_receipt : Raw → List String → Receipt
  unfolding execution_id_or_unknown
  invalid_receipt raw errors = record {
    trust_receipt_id = seed_digest (digest raw) unknown ("BINDING_SCHEMA_INVALID" ∷ []);
    execution_id = execution_id_or_unknown (execution_id? raw);
    binding_digest = digest raw;
    trust_decision = unknown;
    admitted = false;
    executor_invocation_authorized = false;
    reason_codes = "BINDING_SCHEMA_INVALID" ∷ [];
    validation_errors = errors;
    bound = none;
    authority_transfer = false;
  }

  valid_receipt : Raw → Verdict → Receipt
  unfolding bound_of final_reasons
  valid_receipt raw v = record {
    trust_receipt_id = seed_digest (digest raw) v.decision (final_reasons v);
    execution_id = (read raw).execution_id;
    binding_digest = digest raw;
    trust_decision = v.decision;
    admitted = is_admit v.decision;
    executor_invocation_authorized = is_admit v.decision;
    reason_codes = final_reasons v;
    validation_errors = [];
    bound = some (bound_of (read raw) (is_admit v.decision));
    authority_transfer = false;
  }

  receipt_for : Raw → List String → Receipt
  unfolding invalid_receipt valid_receipt
  receipt_for raw [] = valid_receipt raw (assess (read raw))
  receipt_for raw (e ∷ es) = invalid_receipt raw (e ∷ es)

  unfoldable pub evaluate_trust_binding : Raw → Receipt
  unfolding receipt_for
  evaluate_trust_binding raw = receipt_for raw (validation_errors raw)
