-- ===== src/Trust/Verdict.antt =====
-- src/aios_tools/execution_trust.py: the decision lattice, `_stronger` and `_add_reason`.
use aios_tools.Prelude.{
  ℕ, String, ◌++◌, ◌∷◌, [], List, ◌≡◌, ◌≤◌, true, arith, ltb, if◌then◌else◌, contains, all_distinct,
  all_distinct-snoc, Bool-cases, inl, inr, string_eq,
}

pub data Decision : Type 0 where
  admit unknown pending_policy stale block : Decision

-- `_DECISION_PRIORITY`
abbrev pub priority : Decision → ℕ
priority admit = 0
priority unknown = 1
priority pending_policy = 2
priority stale = 3
priority block = 4

abbrev pub stronger : Decision → Decision → Decision
stronger current candidate =
    if ltb (priority current) (priority candidate) then candidate else current

unfoldable pub add_reason : List String → String → List String
unfolding contains
add_reason reasons code = if contains reasons code then reasons else reasons ++ code ∷ []

-- What the evaluator carries from check to check.
pub record Verdict : Type 0 where
  pub decision : Decision
  pub reasons : List String

unfoldable pub cite : String → Verdict → Verdict
unfolding add_reason
cite code v = record v { reasons = add_reason v.reasons code }

-- `decision = _stronger(decision, d); _add_reason(reasons, code)`
unfoldable pub note : Decision → String → Verdict → Verdict
unfolding cite
note d code v = cite code (record v { decision = stronger v.decision d })

-- A reason is listed once, however often it is added.
pub all_distinct-add_reason :
    (reasons : List String) (code : String)
    → all_distinct reasons ≡ true
    → all_distinct (add_reason reasons code) ≡ true
unfolding add_reason
all_distinct-add_reason reasons code h = elim (Bool-cases (contains reasons code)) [
  | inl old ↦ ground (arith, old)
  | inr new ↦ ground (arith, new, all_distinct-snoc reasons code h new)
]

pub stronger_right : (a b : Decision) → priority b ≤ priority (stronger a b)
stronger_right a b = ground arith

pub stronger_left : (a b : Decision) → priority a ≤ priority (stronger a b)
stronger_left a b = ground arith

pub stronger-admit : (a b : Decision) → stronger a b ≡ admit → (a ≡ admit) × (b ≡ admit)
stronger-admit a b h = ground arith

pub block_of_priority : (d : Decision) → 4 ≤ priority d → d ≡ block
block_of_priority d h = ground arith
