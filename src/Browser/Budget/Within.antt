-- ===== src/Browser/Budget/Within.antt =====
-- No budget is used beyond its limit.
use aios_tools.Prelude.{
  ℕ, ◌+◌, ◌≤◌, ◌<◌, String, some, List, [], ◌∷◌, ◌≡◌, ◌≢◌, refl, ◌∙◌, sym, ap, string_eq,
  Bool-cases, eq→path, eq_iff, arith, if◌then◌else◌, Result, ok, err, Option-cases, inl, inr, ◌==◌,
}
use aios_tools.Prelude.Dict.{Dict, lookup, insert, lookup-insert}
use aios_tools.Browser.Budget.{BudgetError, Ledger, start, consume, used_of, consume_all, kept}

-- Every use is covered by a limit.
pub record IsWithin (ledger : Ledger) : Type 0 where
  pub covered :
      (key : String) (n : ℕ)
      → lookup key ledger.used ≡ some n
      → (limit : ℕ) × (lookup key ledger.limits ≡ some limit) × (n ≤ limit)

pub start-IsWithin :
    (limits : Dict String ℕ) (elapsed now : ℕ) → IsWithin (start limits elapsed now)
unfolding start lookup
start-IsWithin limits elapsed now = record { covered = λ key n e. cc }

-- What a charge that goes through has done.
pub record Charged (key : String) (amount now : ℕ) (before after : Ledger) : Type 0 where
  pub in_time : now < before.deadline
  pub added : used_of (lookup key after.used) ≡ used_of (lookup key before.used) + amount
  pub limit : ℕ
  pub limited : lookup key before.limits ≡ some limit
  pub fits : used_of (lookup key after.used) ≤ limit
  pub same_limits : after.limits ≡ before.limits
  pub same_deadline : after.deadline ≡ before.deadline
  pub others : (other : String) → key ≢ other → lookup other after.used ≡ lookup other before.used

-- A charge that goes through was made before the deadline and on a budget with a limit; it adds its
-- amount to that budget, within the limit, and leaves limits, deadline and the other budgets alone.
pub consume-Charged :
    (key : String) (amount now : ℕ) (before after : Ledger)
    → consume key amount now before ≡ ok after
    → Charged key amount now before after
unfolding consume
consume-Charged key amount now before after e = elim (Option-cases (lookup key before.limits)) [
  | inl gone ↦ absurd (ground (arith, gone))
  | inr (limit, h) ↦ record {
    in_time = ground (arith, h);
    added = ground (arith, h, law key, eq_iff key key);
    limit = limit;
    limited = h;
    fits = ground (arith, h, law key, eq_iff key key);
    same_limits = ground (arith, h);
    same_deadline = ground (arith, h);
    others = λ other ne. ground (arith, h, law other, eq_iff key other);
  }
]
  where
    law :
        (j : String)
        → lookup j (insert key (used_of (lookup key before.used) + amount) before.used) ≡ (
            if key == j
            then some (used_of (lookup key before.used) + amount)
            else lookup j before.used)
    law j = lookup-insert key j (used_of (lookup key before.used) + amount) before.used

consume-IsWithin :
    (key : String) (amount now : ℕ) (before after : Ledger)
    → consume key amount now before ≡ ok after
    → IsWithin before
    → IsWithin after
consume-IsWithin key amount now before after e w = record {
  covered = λ j n h.
      let c = consume-Charged key amount now before after e in
      elim (Bool-cases (key == j)) [
        | inl t ↦
            let same = eq→path key j t in
            (c.limit, rw c.same_limits (rw (← same) c.limited), ground (arith, same, c.fits, h))
        | inr f ↦
            rw c.same_limits
              (w.covered j n (sym (c.others j (λ p. ground (arith, eq_iff key j, p, f))) ∙ h))
      ];
}

kept-keeps :
    (key : String) (amount now : ℕ) (ledger : Ledger) (r : Result BudgetError Ledger)
    → consume key amount now ledger ≡ r
    → IsWithin ledger
    → IsWithin (kept r ledger) × ((kept r ledger).limits ≡ ledger.limits)
unfolding kept
kept-keeps key amount now ledger (ok after) e w = (
  consume-IsWithin key amount now ledger after e w,
  (consume-Charged key amount now ledger after e).same_limits,
)
kept-keeps key amount now ledger (err x) e w = (w, refl)

consume_all-keeps :
    (charges : List (String × ℕ × ℕ)) (ledger : Ledger)
    → IsWithin ledger
    → IsWithin (consume_all charges ledger) × ((consume_all charges ledger).limits ≡ ledger.limits)
unfolding consume_all
consume_all-keeps [] ledger w = (w, refl)
consume_all-keeps ((key, amount, now) ∷ rest) ledger w =
    let step = kept-keeps key amount now ledger (consume key amount now ledger) refl w in
    let others = consume_all-keeps rest (kept (consume key amount now ledger) ledger) step.0 in
    (others.0, others.1 ∙ step.1)

-- From the start of a ledger, whatever charges are made or refused, no budget is ever used beyond
-- the limit that it started with.
pub start-consume_all-IsWithin :
    (limits : Dict String ℕ) (elapsed now : ℕ) (charges : List (String × ℕ × ℕ)) (key : String)
    (n : ℕ)
    → lookup key (consume_all charges (start limits elapsed now)).used ≡ some n
    → (limit : ℕ) × (lookup key limits ≡ some limit) × (n ≤ limit)
unfolding start
start-consume_all-IsWithin limits elapsed now charges key n e =
    let (w, same) =
      consume_all-keeps charges (start limits elapsed now) (start-IsWithin limits elapsed now) in
    let (limit, h, fits) = w.covered key n e in (limit, ap (lookup key) (sym same) ∙ h, fits)
