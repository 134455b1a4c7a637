-- ===== src/Trust/Lineage.antt =====
-- src/aios_tools/execution_trust.py: the checks of dependencies, egress, extensions, lineage,
-- promotion, skills and invalidation events, each with the facts that it asks for.
use aios_tools.Prelude.{
  Bool, true, false, none, List, [], ◌∷◌, ◌≡◌, ◌≢◌, refl, ◌↔◌, arith, All, string_eq, eq_iff,
}
use aios_tools.Trust.Binding.{
  Enablement, DependencyResult, HeldOut, InvalidationEvent, tool_policy_changed,
  tool_consent_changed, browser_extension_revoked, AssetKind, generated_artifact, browser_extension,
  Extension, Producer, Requested, Dependency, Observation, Skill,
}
use aios_tools.Trust.Verdict.{block}
use aios_tools.Trust.Checks.{
  check_dependency, check_dependencies, check_egress, check_extension, extension_step,
  is_browser_extension, incomplete, check_producer, check_promotion, check_held_out, check_install,
  check_event, check_events,
}
use aios_tools.Trust.Steps.{
  IsCheck, IsCheck-same, IsCheck-note, IsCheck-flag, IsCheck-then, IsCheck-map,
}

abbrev pub DependencyClean : Dependency → Type 0
DependencyClean d = (d.digest ≡ d.approved_digest) × (d.security_result ≡ DependencyResult.pass)

abbrev pub Bound : Extension → Type 0
Bound x =
    (x.extension_id ≢ none)
    × (x.resolved_revision ≢ none)
    × (x.manifest_digest ≢ none)
    × (x.backend_scope ≢ none)

abbrev pub ExtensionClean : AssetKind → Extension → Type 0
ExtensionClean k x =
    (x.enablement_state ≢ Enablement.revoked)
    × (k ≡ browser_extension → x.enablement_state ≢ Enablement.unknown)
    × (k ≡ browser_extension → x.enablement_state ≡ Enablement.enabled → Bound x)

abbrev pub ProducerClean : AssetKind → Producer → Type 0
ProducerClean k p =
    k ≡ generated_artifact → (p.producer_execution_id ≢ none) × (p.source_receipt_ids ≢ [])

dependency-IsCheck : (d : Dependency) → IsCheck (check_dependency d) (DependencyClean d)
unfolding check_dependency
dependency-IsCheck d =
    let e = eq_iff d.digest d.approved_digest in
    IsCheck-then {P = d.digest ≡ d.approved_digest}
      (IsCheck-flag _ block "TRANSITIVE_DEPENDENCY_DIGEST_UNAPPROVED" (omega arith)
        (λ t p. ground (arith, e)) (λ f. ground (arith, e)))
      (IsCheck-flag _ block "TRANSITIVE_DEPENDENCY_BLOCKED" (omega arith) (λ t p. ground arith)
        (λ f. ground arith))

pub dependencies-IsCheck :
    (ds : List Dependency) → IsCheck (check_dependencies ds) (All DependencyClean ds)
unfolding check_dependencies
dependencies-IsCheck [] = IsCheck-same tt
dependencies-IsCheck (d ∷ ds) = IsCheck-then (dependency-IsCheck d) (dependencies-IsCheck ds)

pub egress-IsCheck :
    (r : Requested) (o : Observation)
    → IsCheck (check_egress r o) (r.artifact_upload ≡ true → o.egress_enabled ≡ true)
unfolding check_egress
egress-IsCheck r o = IsCheck-flag _ _ _ (omega arith) (λ t p. ground arith) (λ f p. ground arith)

abbrev StepClean : Enablement → Bool → Bool → Type 0
StepClean s browser gaps =
    (s ≢ Enablement.revoked)
    × (browser ≡ true → s ≢ Enablement.unknown)
    × (browser ≡ true → s ≡ Enablement.enabled → gaps ≡ false)

extension_step-IsCheck :
    (s : Enablement) (browser gaps : Bool)
    → IsCheck (extension_step s browser gaps) (StepClean s browser gaps)
unfolding extension_step
extension_step-IsCheck Enablement.revoked b g = IsCheck-note _ _ (omega arith) (λ h. h.0 refl)
extension_step-IsCheck Enablement.unknown true g =
    IsCheck-note _ _ (omega arith) (λ h. h.1 refl refl)
extension_step-IsCheck Enablement.enabled true true =
    IsCheck-note _ _ (omega arith) (λ h. ground arith)
extension_step-IsCheck Enablement.unknown false g = IsCheck-same (ground arith)
extension_step-IsCheck Enablement.enabled true false = IsCheck-same (ground arith)
extension_step-IsCheck Enablement.enabled false g = IsCheck-same (ground arith)
extension_step-IsCheck Enablement.disabled b g = IsCheck-same (ground arith)

browser_iff : (k : AssetKind) → (is_browser_extension k ≡ true) ↔ (k ≡ browser_extension)
unfolding is_browser_extension
browser_iff k = ground arith

complete_iff : (x : Extension) → (incomplete x ≡ false) ↔ Bound x
unfolding incomplete
complete_iff x = ground arith

pub extension-IsCheck :
    (k : AssetKind) (x : Extension) → IsCheck (check_extension k x) (ExtensionClean k x)
unfolding check_extension
extension-IsCheck k x =
    IsCheck-map {P = StepClean x.enablement_state (is_browser_extension k) (incomplete x)}
      (λ h. (
        h.0,
        (λ e. h.1 ((browser_iff k).1 e)),
        (λ e s. (complete_iff x).0 (h.2 ((browser_iff k).1 e) s)),
      ))
      (λ h. (
        h.0,
        (λ e. h.1 ((browser_iff k).0 e)),
        (λ e s. (complete_iff x).1 (h.2 ((browser_iff k).0 e) s)),
      ))
      (extension_step-IsCheck x.enablement_state (is_browser_extension k) (incomplete x))

pub producer-IsCheck :
    (k : AssetKind) (p : Producer) → IsCheck (check_producer k p) (ProducerClean k p)
unfolding check_producer
producer-IsCheck k p = IsCheck-flag _ _ _ (omega arith) (λ t h. ground arith) (λ f h. ground arith)

pub promotion-IsCheck :
    (r : Requested) (b : Bool)
    → IsCheck (check_promotion r b) (r.semantic_promotion ≡ true → b ≡ true)
unfolding check_promotion
promotion-IsCheck r b = IsCheck-flag _ _ _ (omega arith) (λ t p. ground arith) (λ f p. ground arith)

pub held_out-IsCheck :
    (r : Requested) (s : Skill)
    → IsCheck
        (check_held_out r s)
        (r.skill_installation ≡ true → s.held_out_validation ≡ HeldOut.pass)
unfolding check_held_out
held_out-IsCheck r s = IsCheck-flag _ _ _ (omega arith) (λ t p. ground arith) (λ f p. ground arith)

pub install-IsCheck :
    (r : Requested) (s : Skill)
    → IsCheck (check_install r s) (r.skill_installation ≡ true → s.install_authorized ≡ true)
unfolding check_install
install-IsCheck r s = IsCheck-flag _ _ _ (omega arith) (λ t p. ground arith) (λ f p. ground arith)

event-IsCheck : (e : InvalidationEvent) → IsCheck (check_event e) ⊥
unfolding check_event
event-IsCheck tool_policy_changed = IsCheck-note _ _ (omega arith) (λ h. h)
event-IsCheck tool_consent_changed = IsCheck-note _ _ (omega arith) (λ h. h)
event-IsCheck browser_extension_revoked = IsCheck-note _ _ (omega arith) (λ h. h)
event-IsCheck _ = IsCheck-note _ _ (omega arith) (λ h. h)

-- Any event at all stands against admission.
pub events-IsCheck : (es : List InvalidationEvent) → IsCheck (check_events es) (es ≡ [])
unfolding check_events
events-IsCheck [] = IsCheck-same refl
events-IsCheck (e ∷ es) =
    IsCheck-map (λ h. absurd h.0) (λ h. cc) (IsCheck-then (event-IsCheck e) (events-IsCheck es))
