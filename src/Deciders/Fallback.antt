-- ===== src/Deciders/Fallback.antt =====
-- src/aios_tools/experimental/resource_fallback_equivalence.py: the choice of a resource from a list
-- of prequalified ones. The digests are SHA-256 of canonical JSON, and enter as functions.
pub mod First
mod Tests
use Prim.Native.String.{◌++◌}
use aios_tools.Prelude.{
  ℕ, suc, String, Bool, true, false, not, ◌&&◌, Option, none, some, List, [], ◌∷◌, ltb, map,
  all_distinct, string_eq, ◌==◌, if◌then◌else◌, Result, ok, err, raise_if, ◌>>=◌, ◌>>◌, is_blank,
}

pub data FallbackDecision : Type 0 where
  select stale_list queue_expired no_compatible_capacity : FallbackDecision

pub data FallbackError : Type 0 where
  preference_list_digest_required validated_preference_list_digest_required candidate_list_required
        instance_count_invalid duplicate_resource_id :
      FallbackError

-- An instance count is taken to be a natural number.
pub record ResourceCandidate : Type 0 where
  pub resource_id : String
  pub compatibility_receipt_id : Option String
  pub capacity_available : Bool
  pub instance_count : ℕ
  pub environment_fingerprint : String
  pub cost_class : String
  pub performance_equivalence_class : String

pub record FallbackObservation : Type 0 where
  pub preference_list_digest : String
  pub validated_preference_list_digest : String
  pub candidates : List ResourceCandidate
  pub queue_deadline_open : Bool

pub record FallbackReceipt : Type 0 where
  pub schema : String
  pub receipt_id : String
  pub decision : FallbackDecision
  pub reason : String
  pub selected_resource_id : Option String
  pub selection_rank : Option ℕ
  pub selected_instance_count : Option ℕ
  pub selected_environment_fingerprint : Option String
  pub observation_digest : String
  pub authority_transfer : Bool

is_given : Option String → Bool
is_given none = false
is_given (some s) = not (s == "")

unfoldable pub usable : ResourceCandidate → Bool
unfolding is_given
usable c = is_given c.compatibility_receipt_id && c.capacity_available

any_empty : List ResourceCandidate → Bool
any_empty [] = false
any_empty (c ∷ rest) = if ltb c.instance_count 1 then true else any_empty rest

no_candidates : List ResourceCandidate → Bool
no_candidates [] = true
no_candidates (c ∷ rest) = false

abbrev pub id_of : ResourceCandidate → String
id_of c = c.resource_id

-- The loop over the candidates, the first of which has the given rank.
unfoldable pub first_usable : ℕ → List ResourceCandidate → Option (ℕ × ResourceCandidate)
first_usable rank [] = none
first_usable rank (c ∷ rest) =
    let later = first_usable (suc rank) rest in if usable c then some (rank, c) else later

-- The decision, its reason and the choice.
abbrev pub Choice : Type 0
Choice = FallbackDecision × String × Option (ℕ × ResourceCandidate)

choice_of : Option (ℕ × ResourceCandidate) → Choice
choice_of none = (no_compatible_capacity, "no_prequalified_candidate_with_capacity", none)
choice_of (some selected) = (select, "first_prequalified_candidate_with_capacity", some selected)

unfoldable pub chosen : FallbackObservation → Choice
unfolding choice_of
chosen o =
    if not (o.preference_list_digest == o.validated_preference_list_digest)
    then (stale_list, "preference_list_changed_after_validation", none)
    else if not o.queue_deadline_open
    then (queue_expired, "queue_deadline_expired", none)
    else choice_of (first_usable 1 o.candidates)

unfoldable pub validate : FallbackObservation → Result FallbackError Unit
unfolding any_empty no_candidates
validate o = do
  raise_if (is_blank o.preference_list_digest) preference_list_digest_required
  raise_if (is_blank o.validated_preference_list_digest) validated_preference_list_digest_required
  raise_if (no_candidates o.candidates) candidate_list_required
  raise_if (any_empty o.candidates) instance_count_invalid
  raise_if (not (all_distinct (map id_of o.candidates))) duplicate_resource_id

selected_field : {A : Type 0} → (ResourceCandidate → A) → Option (ℕ × ResourceCandidate) → Option A
selected_field f none = none
selected_field f (some (rank, c)) = some (f c)

rank_field : Option (ℕ × ResourceCandidate) → Option ℕ
rank_field none = none
rank_field (some (rank, c)) = some rank

-- `canonical_sha256` of an observation, and of a receipt without its id
module _ (digest : FallbackObservation → String) (unsigned_digest : Choice → String → String) where
  unfoldable pub select_prequalified_resource :
      FallbackObservation → Result FallbackError FallbackReceipt
  unfolding selected_field rank_field
  select_prequalified_resource o = do
    validate o
    ok (record {
      schema = "resource-fallback-equivalence/v1";
      receipt_id = "rfe_" ++ unsigned_digest (chosen o) (digest o);
      decision = (chosen o).0;
      reason = (chosen o).1;
      selected_resource_id = selected_field (λ c. c.resource_id) (chosen o).2;
      selection_rank = rank_field (chosen o).2;
      selected_instance_count = selected_field (λ c. c.instance_count) (chosen o).2;
      selected_environment_fingerprint =
          selected_field (λ c. c.environment_fingerprint) (chosen o).2;
      observation_digest = digest o;
      authority_transfer = false;
    })
