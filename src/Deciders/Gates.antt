-- ===== src/Deciders/Gates.antt =====
-- src/aios_tools/experimental/daily_debrief_gates.py: four gates on instructions, models, staged
-- artifacts and the MCP of a build. The digest of a text and `str.lower` enter as functions, and a
-- date is a number of microseconds.
pub mod Allowed
mod Tests
use aios_tools.Prelude.{
  ℕ, String, Bool, true, false, not, ◌&&◌, ◌||◌, Option, none, some, List, leb, contains, string_eq,
  ◌==◌, if◌then◌else◌,
}

pub data GateVerdict : Type 0 where
  allow deny stale unresolved : GateVerdict

pub record GateDecision : Type 0 where
  pub verdict : GateVerdict
  pub reason : String

abbrev pub gate : GateVerdict → String → GateDecision
gate verdict reason = record { verdict = verdict; reason = reason }

digest_gate : (String → String) → Option String → Option String → GateDecision → GateDecision
digest_gate digest none observed otherwise = otherwise
digest_gate digest (some expected) none otherwise = gate unresolved "instruction_digest_unverified"
digest_gate digest (some expected) (some content) otherwise =
    if not (digest content == expected) then gate stale "instruction_digest_drift" else otherwise

unfoldable pub resolve_instruction_source :
    (String → String) → List String → Bool → Option String → Option String → GateDecision
unfolding digest_gate
resolve_instruction_source digest files provider_supported expected observed =
    if not provider_supported
    then gate unresolved "provider_unsupported"
    else if contains files "CLAUDE.md"
    then digest_gate digest expected observed (gate allow "CLAUDE.md")
    else if contains files "AGENTS.md"
    then digest_gate digest expected observed (gate allow "AGENTS.md")
    else gate unresolved "no_instruction_source"

deprecated : Option ℕ → ℕ → Bool
deprecated none now = false
deprecated (some at) now = leb at now

unfoldable pub evaluate_model_lifecycle : String → String → Option ℕ → ℕ → Bool → GateDecision
unfolding deprecated
evaluate_model_lifecycle requested resolved deprecation_at now substitution_approved =
    if not (requested == resolved) && not substitution_approved
    then gate deny "silent_substitution"
    else if deprecated deprecation_at now
    then gate stale "model_deprecated_reverify"
    else if not (requested == resolved)
    then gate stale "approved_substitution_reverify"
    else gate allow "model_current"

artifact_gate : Option String → Option String → GateDecision → GateDecision
artifact_gate none observed otherwise = otherwise
artifact_gate (some expected) none otherwise = gate unresolved "artifact_digest_unverified"
artifact_gate (some expected) (some observed) otherwise =
    if not (expected == observed) then gate stale "artifact_digest_drift" else otherwise

unfoldable pub evaluate_staged_artifact_authority :
    (String → String) → String → Bool → Bool → Option String → Option String → GateDecision
unfolding artifact_gate
evaluate_staged_artifact_authority lower requested_action can_stage can_publish expected observed =
    artifact_gate expected observed (
      if lower requested_action == "stage"
      then gate (if can_stage then allow else deny) "stage_authority"
      else if lower requested_action == "publish"
      then gate (if can_publish then allow else deny) "publish_authority"
      else gate unresolved "unknown_artifact_action")

pub record CiRequest : Type 0 where
  pub capability_class : String
  pub principal_class : String
  pub mutation_expected : Bool
  pub effect_receipt_present : Bool
  pub verified_schema_revision : String
  pub observed_schema_revision : String

unfoldable pub evaluate_ci_mcp_authority : CiRequest → GateDecision
evaluate_ci_mcp_authority r =
    if r.verified_schema_revision == "" || r.observed_schema_revision == ""
    then gate unresolved "schema_revision_unverified"
    else if not (r.verified_schema_revision == r.observed_schema_revision)
    then gate stale "schema_revision_drift"
    else if not (r.capability_class == "investigate" || r.capability_class == "manage")
    then gate unresolved "unknown_capability_class"
    else if not (r.principal_class == "read_only" || r.principal_class == "scoped_write")
    then gate unresolved "unknown_principal_class"
    else if r.capability_class == "manage" && r.principal_class == "read_only"
    then gate deny "management_denied_for_read_only_principal"
    else if r.mutation_expected && not r.effect_receipt_present
    then gate deny "missing_effect_receipt"
    else gate allow "ci_mcp_authorized"
