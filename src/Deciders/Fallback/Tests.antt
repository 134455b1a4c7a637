-- ===== src/Deciders/Fallback/Tests.antt =====
-- A list whose second resource may serve.
use aios_tools.Prelude.{
  ℕ, String, true, false, Option, none, some, [], ◌∷◌, ◌≡◌, refl, string_eq, ok, is_blank,
  all_distinct, contains,
}
use aios_tools.Deciders.Fallback.{
  select, ResourceCandidate, FallbackObservation, FallbackReceipt, Choice, usable, first_usable,
  chosen, validate, select_prequalified_resource,
}
use aios_tools.Deciders.Fallback.First.{FirstUsable, select_prequalified_resource-FirstUsable}

abbrev candidate : String → Option String → ResourceCandidate
candidate id receipt = record {
  resource_id = id;
  compatibility_receipt_id = receipt;
  capacity_available = true;
  instance_count = 1;
  environment_fingerprint = "e";
  cost_class = "c";
  performance_equivalence_class = "p";
}

abbrev list : FallbackObservation
list = record {
  preference_list_digest = "d";
  validated_preference_list_digest = "d";
  candidates = candidate "a" none ∷ candidate "b" (some "r") ∷ [];
  queue_deadline_open = true;
}

abbrev digest : FallbackObservation → String
digest o = "x"

abbrev unsigned_digest : Choice → String → String
unsigned_digest c s = s

abbrev second : FallbackReceipt
second = record {
  schema = "resource-fallback-equivalence/v1";
  receipt_id = "rfe_x";
  decision = select;
  reason = "first_prequalified_candidate_with_capacity";
  selected_resource_id = some "b";
  selection_rank = some 2;
  selected_instance_count = some 1;
  selected_environment_fingerprint = some "e";
  observation_digest = "x";
  authority_transfer = false;
}

second_chosen : select_prequalified_resource digest unsigned_digest list ≡ ok second
unfolding select_prequalified_resource chosen first_usable usable validate is_blank all_distinct
    contains
second_chosen = refl

select_prequalified_resource-FirstUsable_example :
    (list.preference_list_digest ≡ list.validated_preference_list_digest)
    × (list.queue_deadline_open ≡ true)
    × (rank : ℕ) × (c : ResourceCandidate) × (second.selected_resource_id ≡ some c.resource_id)
    × (second.selection_rank ≡ some rank)
    × FirstUsable list.candidates rank c
select_prequalified_resource-FirstUsable_example =
    select_prequalified_resource-FirstUsable digest unsigned_digest list second second_chosen refl
