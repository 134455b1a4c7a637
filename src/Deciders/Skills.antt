-- ===== src/Deciders/Skills.antt =====
-- src/aios_tools/experimental/skill_install_lifecycle.py: what may happen to an agent skill. The
-- digests are SHA-256 of canonical JSON, and enter as functions.
pub mod Pinned
mod Tests
use Prim.Native.String.{◌++◌}
use aios_tools.Prelude.{
  String, Bool, true, false, not, ◌||◌, Option, none, some, string_eq, ◌==◌, if◌then◌else◌, Result,
  ok, err, raise_if, ◌>>=◌, ◌>>◌, is_blank,
}

pub data SkillOperation : Type 0 where
  discover install_skill update_skill remove_skill : SkillOperation

pub data SkillDecision : Type 0 where
  discover_only install update noop remove block_drift unverified : SkillDecision

pub data SkillError : Type 0 where
  skill_name_required source_id_required target_agent_required : SkillError

pub record SkillLifecycleObservation : Type 0 where
  pub skill_name : String
  pub source_id : String
  pub source_revision : Option String
  pub candidate_digest : Option String
  pub target_agent : String
  pub operation : SkillOperation
  pub installed_source_id : Option String
  pub installed_revision : Option String
  pub installed_digest : Option String
  pub version_resolved : Bool

pub record SkillLifecycleReceipt : Type 0 where
  pub schema : String
  pub receipt_id : String
  pub skill_name : String
  pub target_agent : String
  pub decision : SkillDecision
  pub reason : String
  pub verification_invalidated : Bool
  pub historical_provenance_preserved : Bool
  pub trusted_state_granted : Bool
  pub observation_digest : String
  pub authority_transfer : Bool

-- `not value`, of a text that may be missing
unfoldable pub is_missing : Option String → Bool
is_missing none = true
is_missing (some s) = s == ""

-- `installed is not None and installed != source`
unfoldable pub drifted : Option String → String → Bool
drifted none source = false
drifted (some installed) source = not (installed == source)

-- `left == right`, of texts that may be missing
unfoldable pub same_optional : Option String → Option String → Bool
same_optional none none = true
same_optional (some s) (some t) = s == t
same_optional _ _ = false

-- The decision, its reason, and whether the verification is void.
abbrev pub Judged : Type 0
Judged = SkillDecision × String × Bool

unfoldable pub judged_pinned : SkillOperation → Bool → Judged
judged_pinned discover same = (discover_only, "discovery_does_not_install_or_trust", false)
judged_pinned install_skill same = (install, "pinned_candidate_ready_for_target_install", false)
judged_pinned update_skill same =
    if same
    then (noop, "identical_content_identity", false)
    else (update, "content_identity_changed", true)
judged_pinned remove_skill same = (remove, "remove_availability_preserve_history", false)

unfoldable pub judged_other : SkillLifecycleObservation → Judged
judged_other o =
    if not o.version_resolved
    then (unverified, "version_or_revision_unresolved", false)
    else if is_missing o.source_revision || is_missing o.candidate_digest
    then (unverified, "candidate_identity_incomplete", false)
    else if drifted o.installed_source_id o.source_id
    then (block_drift, "source_identity_drift", false)
    else judged_pinned o.operation (same_optional o.installed_digest o.candidate_digest)

is_discovery : SkillOperation → Bool
is_discovery discover = true
is_discovery _ = false

unfoldable pub judged : SkillLifecycleObservation → Judged
unfolding is_discovery
judged o =
    if is_discovery o.operation
    then (discover_only, "discovery_does_not_install_or_trust", false)
    else judged_other o

module _ (digest : SkillLifecycleObservation → String)
    (unsigned_digest : Judged → String → String) where
  unfoldable pub evaluate_skill_lifecycle :
      SkillLifecycleObservation → Result SkillError SkillLifecycleReceipt
  evaluate_skill_lifecycle o = do
    raise_if (is_blank o.skill_name) skill_name_required
    raise_if (is_blank o.source_id) source_id_required
    raise_if (is_blank o.target_agent) target_agent_required
    ok (record {
      schema = "agent-skill-install-lifecycle/v1";
      receipt_id = "asl_" ++ unsigned_digest (judged o) (digest o);
      skill_name = o.skill_name;
      target_agent = o.target_agent;
      decision = (judged o).0;
      reason = (judged o).1;
      verification_invalidated = (judged o).2;
      historical_provenance_preserved = true;
      trusted_state_granted = false;
      observation_digest = digest o;
      authority_transfer = false;
    })
