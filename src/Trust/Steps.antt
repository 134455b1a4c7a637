-- ===== src/Trust/Steps.antt =====
-- What every check of the trust evaluator is to the verdict, and how checks compose.
use aios_tools.Prelude.{
  String, Bool, true, false, ◌≡◌, refl, ◌≤◌, ap, ◌∙◌, arith, all_distinct, if◌then◌else◌, string_eq,
}
use aios_tools.Trust.Verdict.{
  Decision, admit, priority, Verdict, cite, note, all_distinct-add_reason, stronger_left,
}

-- `c` leaves a verdict alone where the facts `P` hold, and else excludes ADMIT. It never lowers the
-- priority and never lists a reason twice.
pub record IsCheck (c : Verdict → Verdict) (P : Type 0) : Type 0 where
  pub sound : (v : Verdict) → (c v).decision ≡ admit → (v.decision ≡ admit) × P
  pub silent : P → (v : Verdict) → c v ≡ v
  pub raises : (v : Verdict) → priority v.decision ≤ priority (c v).decision
  pub distinct : (v : Verdict) → all_distinct v.reasons ≡ true → all_distinct (c v).reasons ≡ true

pub IsCheck-same : {P : Type 0} → P → IsCheck (λ v. v) P
IsCheck-same p = record {
  sound = λ v h. (h, p);
  silent = λ _ v. refl;
  raises = λ v. omega arith;
  distinct = λ v h. h;
}

pub all_distinct-note :
    (d : Decision) (code : String) (v : Verdict)
    → all_distinct v.reasons ≡ true
    → all_distinct (note d code v).reasons ≡ true
unfolding note
all_distinct-note d code v h = all_distinct-add_reason v.reasons code h

pub priority-note :
    (d : Decision) (code : String) (v : Verdict)
    → priority v.decision ≤ priority (note d code v).decision
unfolding note
priority-note d code v = stronger_left v.decision d

note-ne-admit :
    (d : Decision) (code : String) (v : Verdict)
    → 1 ≤ priority d
    → (note d code v).decision ≡ admit
    → ⊥
unfolding note
note-ne-admit d code v h e = ground arith

pub IsCheck-note :
    {P : Type 0} (d : Decision) (code : String) → 1 ≤ priority d → ¬ P → IsCheck (note d code) P
IsCheck-note d code h n = record {
  sound = λ v e. absurd (note-ne-admit d code v h e);
  silent = λ p v. absurd (n p);
  raises = λ v. priority-note d code v;
  distinct = λ v. all_distinct-note d code v;
}

-- A further reason without a decision, behind a check that excludes ADMIT already.
pub IsCheck-cite :
    {c : Verdict → Verdict} {P : Type 0} (code : String)
    → IsCheck c P
    → ¬ P
    → IsCheck (λ v. cite code (c v)) P
unfolding cite
IsCheck-cite {c} code k n = record {
  sound = λ v e. k.sound v e;
  silent = λ p v. absurd (n p);
  raises = λ v. k.raises v;
  distinct = λ v h. all_distinct-add_reason (c v).reasons code (k.distinct v h);
}

-- A test that adds one finding where it holds, and holds exactly where the facts fail.
pub IsCheck-flag :
    {P : Type 0} (b : Bool) (d : Decision) (code : String)
    → 1 ≤ priority d
    → (b ≡ true → ¬ P)
    → (b ≡ false → P)
    → IsCheck (λ v. if b then note d code v else v) P
IsCheck-flag true d code h n p = IsCheck-note d code h (n refl)
IsCheck-flag false d code h n p = IsCheck-same (p refl)

pub IsCheck-then :
    {c d : Verdict → Verdict} {P Q : Type 0}
    → IsCheck c P
    → IsCheck d Q
    → IsCheck (λ v. d (c v)) (P × Q)
IsCheck-then {c} {d} k l = record {
  sound = λ v e. let (a, q) = l.sound (c v) e in let (b, p) = k.sound v a in (b, (p, q));
  silent = λ pq v. ap d (k.silent pq.0 v) ∙ l.silent pq.1 v;
  raises = λ v. omega (arith, k.raises v, l.raises (c v));
  distinct = λ v h. l.distinct (c v) (k.distinct v h);
}

pub IsCheck-map :
    {c : Verdict → Verdict} {P Q : Type 0} → (P → Q) → (Q → P) → IsCheck c P → IsCheck c Q
IsCheck-map to from k = record {
  sound = λ v e. let (a, p) = k.sound v e in (a, to p);
  silent = λ q v. k.silent (from q) v;
  raises = λ v. k.raises v;
  distinct = λ v h. k.distinct v h;
}
