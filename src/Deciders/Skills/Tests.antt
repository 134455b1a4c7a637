-- ===== src/Deciders/Skills/Tests.antt =====
-- An update to new content of the installed source.
use aios_tools.Prelude.{
  String, true, false, some, ◌≡◌, ◌≢◌, ◌↔◌, inl, inr, refl, string_eq, ok, is_blank,
}
use aios_tools.Deciders.Skills.{
  update_skill, update, SkillLifecycleObservation, SkillLifecycleReceipt, Judged, is_missing,
  drifted, same_optional, judged_pinned, judged_other, judged, evaluate_skill_lifecycle,
}
use aios_tools.Deciders.Skills.Pinned.{IsPinned, Carries, evaluate_skill_lifecycle-IsPinned}

abbrev seen : SkillLifecycleObservation
seen = record {
  skill_name = "n";
  source_id = "s";
  source_revision = some "r2";
  candidate_digest = some "d2";
  target_agent = "a";
  operation = update_skill;
  installed_source_id = some "s";
  installed_revision = some "r1";
  installed_digest = some "d1";
  version_resolved = true;
}

abbrev digest : SkillLifecycleObservation → String
digest o = "x"

abbrev unsigned_digest : Judged → String → String
unsigned_digest j s = s

abbrev updated : SkillLifecycleReceipt
updated = record {
  schema = "agent-skill-install-lifecycle/v1";
  receipt_id = "asl_x";
  skill_name = "n";
  target_agent = "a";
  decision = update;
  reason = "content_identity_changed";
  verification_invalidated = true;
  historical_provenance_preserved = true;
  trusted_state_granted = false;
  observation_digest = "x";
  authority_transfer = false;
}

update_allowed : evaluate_skill_lifecycle digest unsigned_digest seen ≡ ok updated
unfolding evaluate_skill_lifecycle judged judged_other judged_pinned is_missing drifted
    same_optional is_blank
update_allowed = refl

evaluate_skill_lifecycle-IsPinned_example :
    IsPinned seen
    × Carries update_skill update
    × (updated.decision ≡ update → seen.installed_digest ≢ seen.candidate_digest)
    × ((updated.verification_invalidated ≡ true) ↔ (updated.decision ≡ update))
    × (updated.trusted_state_granted ≡ false)
evaluate_skill_lifecycle-IsPinned_example =
    evaluate_skill_lifecycle-IsPinned digest unsigned_digest seen updated update_allowed
      (inr (inl refl))
