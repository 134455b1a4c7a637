-- ===== src/Deciders/NextAction/Ranks.antt =====
-- Which of two actions ranks first, factor by factor.
use aios_tools.Prelude.{
  ℕ, ◌<◌, Bool, true, false, List, [], ◌∷◌, ◌≡◌, ◌⊎◌, inl, inr, ◌↔◌, arith, ltb, Bool-cases, All,
}
use aios_tools.Prelude.Order.{text_le}
use aios_tools.Prelude.Sort.{IsSorted}
use aios_tools.Deciders.NextAction.{Action, factors_le, action_le}

-- The higher number ranks first, and of equal ones what `rest` says.
abbrev Higher : ℕ → ℕ → Type 0 → Type 0
Higher m n rest = (n < m) ⊎ ((m ≡ n) × rest)

-- The lower number ranks first.
abbrev Lower : ℕ → ℕ → Type 0 → Type 0
Lower m n rest = (m < n) ⊎ ((m ≡ n) × rest)

-- The action `a` ranks before `b`, or is as good and has no later id.
abbrev pub RanksBefore : Action → Action → Type 0
RanksBefore a b = Higher a.user_priority b.user_priority (
    Higher a.dependency_unblocking b.dependency_unblocking (
      Higher a.urgency b.urgency (
        Higher a.expected_value b.expected_value (
          Higher a.evidence_readiness b.evidence_readiness (
            Lower a.risk b.risk (
              Lower a.cost b.cost (
                Higher a.reversibility b.reversibility
                  (Higher a.staleness b.staleness (text_le a.action_id b.action_id ≡ true)))))))))

-- Every action ranks before all that follow it.
abbrev pub IsRanked : List Action → Type 0
IsRanked [] = Unit
IsRanked (a ∷ rest) = All (RanksBefore a) rest × IsRanked rest

compare_cases : (m n : ℕ) → (m < n) ⊎ (m ≡ n) ⊎ (n < m)
compare_cases m n = elim (Bool-cases (ltb m n)) [
  | inl less ↦ inl (ground arith)
  | inr no_less ↦ elim (Bool-cases (ltb n m)) [
    | inl more ↦ inr (inr (ground arith))
    | inr no_more ↦ inr (inl (ground arith))
  ]
]

module _ (downs : List Bool) (m n : ℕ) (ms ns : List ℕ) (rest : Bool) {R : Type 0}
    (later : (factors_le downs ms ns rest ≡ true) ↔ R) where
  Higher_iff : (factors_le (true ∷ downs) (m ∷ ms) (n ∷ ns) rest ≡ true) ↔ Higher m n R
  unfolding factors_le
  Higher_iff = (
    λ h. elim (compare_cases m n) [
      | inl less ↦ absurd (ground arith)
      | inr (inl same) ↦ inr (same, later.0 (ground arith))
      | inr (inr more) ↦ inl more
    ],
    λ h. elim h [ inl more ↦ ground arith | inr (same, r) ↦ ground (arith, later.1 r) ],
  )

  Lower_iff : (factors_le (false ∷ downs) (m ∷ ms) (n ∷ ns) rest ≡ true) ↔ Lower m n R
  unfolding factors_le
  Lower_iff = (
    λ h. elim (compare_cases m n) [
      | inl less ↦ inl less
      | inr (inl same) ↦ inr (same, later.0 (ground arith))
      | inr (inr more) ↦ absurd (ground arith)
    ],
    λ h. elim h [ inl less ↦ ground arith | inr (same, r) ↦ ground (arith, later.1 r) ],
  )

-- The sort key orders two actions as they rank.
pub action_le-RanksBefore : (a b : Action) → (action_le a b ≡ true) ↔ RanksBefore a b
unfolding action_le factors_le
action_le-RanksBefore a b =
    let last : Bool = text_le a.action_id b.action_id in
    let by_staleness = Higher_iff [] a.staleness b.staleness [] [] last ((λ h. h), (λ h. h)) in
    let by_reversibility =
      Higher_iff (true ∷ []) a.reversibility b.reversibility (a.staleness ∷ []) (b.staleness ∷ [])
        last by_staleness in
    let by_cost =
      Lower_iff (true ∷ true ∷ []) a.cost b.cost (a.reversibility ∷ a.staleness ∷ [])
        (b.reversibility ∷ b.staleness ∷ []) last by_reversibility in
    let by_risk =
      Lower_iff (false ∷ true ∷ true ∷ []) a.risk b.risk
        (a.cost ∷ a.reversibility ∷ a.staleness ∷ []) (b.cost ∷ b.reversibility ∷ b.staleness ∷ [])
        last by_cost in
    let by_evidence_readiness =
      Higher_iff (false ∷ false ∷ true ∷ true ∷ []) a.evidence_readiness b.evidence_readiness
        (a.risk ∷ a.cost ∷ a.reversibility ∷ a.staleness ∷ [])
        (b.risk ∷ b.cost ∷ b.reversibility ∷ b.staleness ∷ []) last by_risk in
    let by_expected_value =
      Higher_iff (true ∷ false ∷ false ∷ true ∷ true ∷ []) a.expected_value b.expected_value
        (a.evidence_readiness ∷ a.risk ∷ a.cost ∷ a.reversibility ∷ a.staleness ∷ [])
        (b.evidence_readiness ∷ b.risk ∷ b.cost ∷ b.reversibility ∷ b.staleness ∷ []) last
        by_evidence_readiness in
    let by_urgency =
      Higher_iff (true ∷ true ∷ false ∷ false ∷ true ∷ true ∷ []) a.urgency b.urgency
        (a.expected_value ∷ a.evidence_readiness ∷ a.risk ∷ a.cost ∷ a.reversibility ∷ a.staleness
          ∷ [])
        (b.expected_value ∷ b.evidence_readiness ∷ b.risk ∷ b.cost ∷ b.reversibility ∷ b.staleness
          ∷ [])
        last by_expected_value in
    let by_dependency_unblocking =
      Higher_iff (true ∷ true ∷ true ∷ false ∷ false ∷ true ∷ true ∷ []) a.dependency_unblocking
        b.dependency_unblocking
        (a.urgency ∷ a.expected_value ∷ a.evidence_readiness ∷ a.risk ∷ a.cost ∷ a.reversibility
          ∷ a.staleness ∷ [])
        (b.urgency ∷ b.expected_value ∷ b.evidence_readiness ∷ b.risk ∷ b.cost ∷ b.reversibility
          ∷ b.staleness ∷ [])
        last by_urgency in
    Higher_iff (true ∷ true ∷ true ∷ true ∷ false ∷ false ∷ true ∷ true ∷ []) a.user_priority
      b.user_priority
      (a.dependency_unblocking ∷ a.urgency ∷ a.expected_value ∷ a.evidence_readiness ∷ a.risk
        ∷ a.cost ∷ a.reversibility ∷ a.staleness ∷ [])
      (b.dependency_unblocking ∷ b.urgency ∷ b.expected_value ∷ b.evidence_readiness ∷ b.risk
        ∷ b.cost ∷ b.reversibility ∷ b.staleness ∷ [])
      last by_dependency_unblocking

All-RanksBefore :
    (a : Action) (others : List Action)
    → All (λ b. action_le a b ≡ true) others ↔ All (RanksBefore a) others
All-RanksBefore a [] = (λ h. h, λ h. h)
All-RanksBefore a (b ∷ others) = (
  λ h. ((action_le-RanksBefore a b).0 h.0, (All-RanksBefore a others).0 h.1),
  λ h. ((action_le-RanksBefore a b).1 h.0, (All-RanksBefore a others).1 h.1),
)

pub IsSorted-IsRanked : (actions : List Action) → IsSorted action_le actions ↔ IsRanked actions
IsSorted-IsRanked [] = (λ h. h, λ h. h)
IsSorted-IsRanked (a ∷ rest) = (
  λ h. ((All-RanksBefore a rest).0 h.0, (IsSorted-IsRanked rest).0 h.1),
  λ h. ((All-RanksBefore a rest).1 h.0, (IsSorted-IsRanked rest).1 h.1),
)
