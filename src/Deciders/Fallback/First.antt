-- ===== src/Deciders/Fallback/First.antt =====
-- The resource that is selected is the first of the list that may serve.
use aios_tools.Prelude.{
  ℕ, suc, ◌+◌, String, true, Option, none, some, ◌≢◌, ◌↔◌, ◌==◌, List, [], ◌∷◌, ◌++◌, length, All,
  ◌≡◌, refl, sym, ap, ◌∙◌, arith, string_eq, eq_iff, ok, Bool-cases, inl, inr, Option-cases,
}
use aios_tools.Deciders.Fallback.{
  select, ResourceCandidate, FallbackObservation, FallbackReceipt, Choice, is_given, usable,
  first_usable, choice_of, chosen, select_prequalified_resource, selected_field, rank_field,
}

-- A candidate with a receipt of its compatibility, and capacity.
pub record CanServe (c : ResourceCandidate) : Type 0 where
  pub compatible : (id : String) × (c.compatibility_receipt_id ≡ some id) × (id ≢ "")
  pub has_capacity : c.capacity_available ≡ true

given_text : (t : Option String) → (is_given t ≡ true) ↔ ((s : String) × (t ≡ some s) × (s ≢ ""))
unfolding is_given
given_text none = (λ h. absurd (ground arith), λ (s, e, n). absurd (ground arith))
given_text (some s) = (
  λ h. (s, refl, λ e. absurd (ground (arith, eq_iff s ""))),
  λ (t, e, n). elim (Bool-cases (s == "")) [
    | inl empty ↦ absurd (n (ground (arith, eq_iff s "")))
    | inr full ↦ ground arith
  ],
)

usable_iff : (c : ResourceCandidate) → (usable c ≡ true) ↔ CanServe c
unfolding usable
usable_iff c = (
  λ h. record {
    compatible = (given_text c.compatibility_receipt_id).0 (ground arith);
    has_capacity = ground arith;
  },
  λ s. ground (arith, (given_text c.compatibility_receipt_id).1 s.compatible, s.has_capacity),
)

-- A candidate that may serve, with those before it, none of which may.
pub record FirstUsable (candidates : List ResourceCandidate) (rank : ℕ)
    (chosen_one : ResourceCandidate) : Type 0 where
  pub before : List ResourceCandidate
  pub after : List ResourceCandidate
  pub split : candidates ≡ before ++ chosen_one ∷ after
  pub rank_is : rank ≡ suc (length before)
  pub none_before : All (λ c. ¬ CanServe c) before
  pub serves : CanServe chosen_one

first_lem :
    (offset : ℕ) (candidates : List ResourceCandidate) (rank : ℕ) (c : ResourceCandidate)
    → first_usable (suc offset) candidates ≡ some (rank, c)
    → (n : ℕ) × (rank ≡ offset + n) × FirstUsable candidates n c
unfolding first_usable
first_lem offset [] rank c h = absurd (ground arith)
first_lem offset (own ∷ rest) rank c h = elim (Bool-cases (usable own)) [
  | inl good ↦
      let same : own ≡ c = ground arith in
      (
        1,
        ground arith,
        record {
          before = [];
          after = rest;
          split = ap (λ x. x ∷ rest) same;
          rank_is = refl;
          none_before = tt;
          serves = (usable_iff c).0 (ap usable (sym same) ∙ good);
        },
      )
  | inr bad ↦
      let (n, at, found) = first_lem (suc offset) rest rank c (ground arith) in
      (
        suc n,
        omega (arith, at),
        record {
          before = own ∷ found.before;
          after = found.after;
          split = ap (λ l. own ∷ l) found.split;
          rank_is = ap suc found.rank_is;
          none_before = (λ s. absurd (ground (arith, (usable_iff own).1 s)), found.none_before);
          serves = found.serves;
        },
      )
]

-- A receipt selects a resource only from a list that is the validated one, before the deadline, and
-- then the first of it that has a receipt of compatibility and capacity, by its place from 1.
pub select_prequalified_resource-FirstUsable :
    (digest : FallbackObservation → String) (unsigned_digest : Choice → String → String)
    (o : FallbackObservation) (r : FallbackReceipt)
    → select_prequalified_resource digest unsigned_digest o ≡ ok r
    → r.decision ≡ select
    → (o.preference_list_digest ≡ o.validated_preference_list_digest)
      × (o.queue_deadline_open ≡ true)
      × (rank : ℕ) × (c : ResourceCandidate) × (r.selected_resource_id ≡ some c.resource_id)
      × (r.selection_rank ≡ some rank)
      × FirstUsable o.candidates rank c
unfolding select_prequalified_resource chosen choice_of selected_field rank_field
select_prequalified_resource-FirstUsable digest unsigned_digest o r e d =
    elim (Option-cases (first_usable 1 o.candidates)) [
      | inl gone ↦ absurd (ground arith)
      | inr ((rank, c), found) ↦
          let (n, at, first) = first_lem 0 o.candidates rank c found in
          (
            ground (arith, eq_iff o.preference_list_digest o.validated_preference_list_digest),
            ground arith,
            n,
            c,
            ground arith,
            ground (arith, at),
            first,
          )
    ]
