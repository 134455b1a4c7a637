-- ===== src/Deciders/Skills/Pinned.antt =====
-- A skill changes only as a pinned candidate of the source that is installed.
use aios_tools.Prelude.{
  String, Bool, true, false, Option, none, some, ◌≡◌, ◌≢◌, ◌⊎◌, inl, inr, eq_iff, refl, sym, ◌∙◌,
  ◌↔◌, arith, string_eq, ok,
}
use aios_tools.Deciders.Skills.{
  SkillOperation, discover, install_skill, update_skill, remove_skill, SkillDecision, install,
  update, remove, SkillLifecycleObservation, SkillLifecycleReceipt, Judged, is_missing, drifted,
  same_optional, judged_pinned, judged_other, judged, is_discovery, evaluate_skill_lifecycle,
}

-- A candidate with a resolved revision and a digest, from the source that is installed, if one is.
pub record IsPinned (o : SkillLifecycleObservation) : Type 0 where
  pub resolved : o.version_resolved ≡ true
  pub with_revision : (revision : String) × (o.source_revision ≡ some revision) × (revision ≢ "")
  pub with_digest : (digest : String) × (o.candidate_digest ≡ some digest) × (digest ≢ "")
  pub same_source : (o.installed_source_id ≡ none) ⊎ (o.installed_source_id ≡ some o.source_id)

present_text : (t : Option String) → is_missing t ≡ false → (s : String) × (t ≡ some s) × (s ≢ "")
unfolding is_missing
present_text none h = absurd (ground arith)
present_text (some s) h = (s, refl, λ e. absurd (ground (arith, eq_iff s "")))

kept_source :
    (t : Option String) (source : String)
    → drifted t source ≡ false
    → (t ≡ none) ⊎ (t ≡ some source)
unfolding drifted
kept_source none source h = inl refl
kept_source (some s) source h = inr (ground (arith, eq_iff s source))

differ : (s t : Option String) → same_optional s t ≡ false → s ≢ t
unfolding same_optional
differ none none h e = absurd (ground arith)
differ none (some t) h e = absurd (ground arith)
differ (some s) none h e = absurd (ground arith)
differ (some s) (some t) h e = absurd (ground (arith, eq_iff s t))

-- The operation that a decision carries out.
pub data Carries : SkillOperation → SkillDecision → Type 0 where
  carries_install : Carries install_skill install
  carries_update : Carries update_skill update
  carries_remove : Carries remove_skill remove

abbrev Changing : SkillDecision → Type 0
Changing d = (d ≡ install) ⊎ (d ≡ update) ⊎ (d ≡ remove)

pinned_Carries :
    (operation : SkillOperation) (same : Bool)
    → Changing (judged_pinned operation same).0
    → Carries operation (judged_pinned operation same).0
unfolding judged_pinned
pinned_Carries discover same h = absurd (ground arith)
pinned_Carries install_skill same h = carries_install
pinned_Carries update_skill true h = absurd (ground arith)
pinned_Carries update_skill false h = carries_update
pinned_Carries remove_skill same h = carries_remove

pinned_invalid :
    (operation : SkillOperation) (same : Bool)
    → ((judged_pinned operation same).2 ≡ true) ↔ ((judged_pinned operation same).0 ≡ update)
unfolding judged_pinned
pinned_invalid discover same = (λ h. absurd (ground arith), λ h. absurd (ground arith))
pinned_invalid install_skill same = (λ h. absurd (ground arith), λ h. absurd (ground arith))
pinned_invalid update_skill true = (λ h. absurd (ground arith), λ h. absurd (ground arith))
pinned_invalid update_skill false = (λ h. refl, λ h. refl)
pinned_invalid remove_skill same = (λ h. absurd (ground arith), λ h. absurd (ground arith))

other-IsPinned :
    (o : SkillLifecycleObservation)
    → Changing (judged_other o).0
    → IsPinned o
      × (judged_other o
          ≡ judged_pinned o.operation (same_optional o.installed_digest o.candidate_digest))
unfolding judged_other
other-IsPinned o h = (
  record {
    resolved = ground arith;
    with_revision = present_text o.source_revision (ground arith);
    with_digest = present_text o.candidate_digest (ground arith);
    same_source = kept_source o.installed_source_id o.source_id (ground arith);
  },
  ground arith,
)

updated_differs :
    (operation : SkillOperation) (same : Bool)
    → (judged_pinned operation same).0 ≡ update
    → same ≡ false
unfolding judged_pinned
updated_differs discover same h = absurd (ground arith)
updated_differs install_skill same h = absurd (ground arith)
updated_differs update_skill true h = absurd (ground arith)
updated_differs update_skill false h = refl
updated_differs remove_skill same h = absurd (ground arith)

undiscovered : (o : SkillLifecycleObservation) → Changing (judged o).0 → judged o ≡ judged_other o
unfolding judged is_discovery
undiscovered o h = ground arith

-- A receipt that lets a skill be installed, updated or removed is for that operation on a candidate
-- with a resolved revision and a digest, from the source that is installed, if one is. An update is
-- to a digest that differs from the installed one. The receipt voids the verification of the skill
-- just when it is an update, so an installation over other content keeps it; it grants no trust.
pub evaluate_skill_lifecycle-IsPinned :
    (digest : SkillLifecycleObservation → String) (unsigned_digest : Judged → String → String)
    (o : SkillLifecycleObservation) (r : SkillLifecycleReceipt)
    → evaluate_skill_lifecycle digest unsigned_digest o ≡ ok r
    → (r.decision ≡ install) ⊎ (r.decision ≡ update) ⊎ (r.decision ≡ remove)
    → IsPinned o
      × Carries o.operation r.decision
      × (r.decision ≡ update → o.installed_digest ≢ o.candidate_digest)
      × ((r.verification_invalidated ≡ true) ↔ (r.decision ≡ update))
      × (r.trusted_state_granted ≡ false)
unfolding evaluate_skill_lifecycle
evaluate_skill_lifecycle-IsPinned digest unsigned_digest o r e c =
    let changes : Changing (judged o).0 = ground arith in
    let here : judged o ≡ judged_other o = undiscovered o changes in
    let (pinned, rest) = other-IsPinned o (rw (sym here) changes) in
    let whole : judged o
        ≡ judged_pinned o.operation (same_optional o.installed_digest o.candidate_digest) =
      here ∙ rest in
    let carried =
      pinned_Carries o.operation (same_optional o.installed_digest o.candidate_digest)
        (rw (sym whole) changes) in
    let voided = pinned_invalid o.operation (same_optional o.installed_digest o.candidate_digest) in
    let decided : (judged o).0 ≡ r.decision = ground arith in
    let void : (judged o).2 ≡ r.verification_invalidated = ground arith in
    (
      pinned,
      rw (sym decided, whole) carried,
      λ u. differ o.installed_digest o.candidate_digest (
          updated_differs o.operation (same_optional o.installed_digest o.candidate_digest)
            (rw (sym whole) (decided ∙ u))),
      rw (sym decided, sym void, whole) voided,
      ground arith,
    )
