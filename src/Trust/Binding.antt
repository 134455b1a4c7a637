-- ===== src/Trust/Binding.antt =====
-- contracts/execution-trust-binding.v0.1.schema.json: the document that the evaluator of
-- src/aios_tools/execution_trust.py reads, once the schema has accepted it. An enumeration of the
-- schema is a data type; digests, names and identifiers stay texts, which are only compared.
use aios_tools.Prelude.{ℕ, String, Bool, Option, List}

pub data AssetKind : Type 0 where
  tool mcp_server skill plugin model prompt_package generated_artifact browser_extension executor :
      AssetKind

pub data Freshness : Type 0 where
  fresh stale unknown : Freshness

pub data DiscoveredState : Type 0 where
  known new_pending_policy removed unknown : DiscoveredState

pub data Consent : Type 0 where
  not_required required_pending granted_bound denied unknown : Consent

pub data PolicyDecision : Type 0 where
  allow deny unknown : PolicyDecision

pub data SecurityResult : Type 0 where
  pass block unknown not_applicable : SecurityResult

pub data Enablement : Type 0 where
  disabled enabled revoked unknown : Enablement

pub data Mode : Type 0 where
  read_only write : Mode

pub data EffectClass : Type 0 where
  no_external_effect local_durable_write read_network remote_mutation_reversible
        remote_mutation_high_impact :
      EffectClass

pub data DependencyResult : Type 0 where
  pass block unknown : DependencyResult

pub data HeldOut : Type 0 where
  pass fail not_run : HeldOut

pub data InvalidationEvent : Type 0 where
  tool_catalog_changed tool_policy_changed tool_consent_changed artifact_digest_changed
        artifact_dependency_changed runtime_topology_changed runtime_egress_policy_changed
        browser_extension_changed browser_extension_revoked skill_validation_dependency_changed
        authority_scope_changed :
      InvalidationEvent

pub record Identity : Type 0 where
  pub kind : AssetKind
  pub stable_id : String
  pub version_label : String
  pub content_digest : String
  pub expected_content_digest : String
  pub dependency_manifest_digest : String
  pub expected_dependency_manifest_digest : String

pub record Catalog : Type 0 where
  pub catalog_revision : String
  pub schema_digest : String
  pub expected_schema_digest : String
  pub description_digest : String
  pub expected_description_digest : String
  pub freshness : Freshness
  pub discovered_state : DiscoveredState

pub record Policy : Type 0 where
  pub policy_id : String
  pub policy_version : String
  pub parameter_class : String
  pub consent : Consent
  pub decision : PolicyDecision

pub record Topology : Type 0 where
  pub controller_location : String
  pub tool_execution_location : String
  pub filesystem_boundary : String
  pub shell_boundary : String
  pub credential_audience : String
  pub network_class : String
  pub orchestration_owner : String
  pub inference_location : String
  pub worker_identity : String
  pub data_egress_policy_id : String

pub record Extension : Type 0 where
  pub extension_id : Option String
  pub resolved_revision : Option String
  pub manifest_digest : Option String
  pub backend_scope : Option String
  pub enablement_state : Enablement

pub record Producer : Type 0 where
  pub producer_execution_id : Option String
  pub source_receipt_ids : List String

pub record Requested : Type 0 where
  pub mode : Mode
  pub effect_class : EffectClass
  pub artifact_upload : Bool
  pub semantic_promotion : Bool
  pub skill_installation : Bool
  pub authenticated_requests : ℕ

pub record Dependency : Type 0 where
  pub digest : String
  pub approved_digest : String
  pub security_result : DependencyResult

pub record Observation : Type 0 where
  pub topology : Topology
  pub egress_enabled : Bool

pub record Skill : Type 0 where
  pub held_out_validation : HeldOut
  pub install_authorized : Bool

pub record Binding : Type 0 where
  pub execution_id : String
  pub scope_key : String
  pub capability_id : String
  pub principal_id : String
  pub identity : Identity
  pub catalog : Catalog
  pub policy : Policy
  pub security : SecurityResult
  pub runtime_topology : Topology
  pub extension : Extension
  pub producer : Producer
  -- `semantic_authority.canon_or_trusted_promotion_allowed`
  pub promotion_allowed : Bool
  pub requested : Requested
  pub artifact_dependencies : List Dependency
  pub observation : Observation
  pub skill : Skill
  pub invalidation_events : List InvalidationEvent
