-- ===== src/Browser/Budget.antt =====
-- src/aios_tools/browser/budget.py: `BudgetLedger`. Clock readings are natural numbers of ticks; a
-- method returns the ledger that it leaves, or raises and leaves the one it was called on.
pub mod Within
mod Tests
use aios_tools.Prelude.{
  ℕ, ◌+◌, ◌-◌, ◌≤◌, String, Option, none, some, List, [], ◌∷◌, leb, ltb, ◌≡◌, ◌≢◌, refl, string_eq,
  eq_iff, arith, if◌then◌else◌, Result, ok, err, raise_if, ◌>>=◌, ◌>>◌, Option-cases, inl, inr,
  true, false, ◌==◌,
}
use aios_tools.Prelude.Dict.{Dict, lookup, insert, lookup-insert}

-- `BudgetExceeded`, with the budget that ran out
pub data BudgetError : Type 0 where
  exceeded : String → BudgetError

pub record Ledger : Type 0 where
  pub limits : Dict String ℕ
  pub deadline : ℕ
  pub used : Dict String ℕ

unfoldable pub start : Dict String ℕ → ℕ → ℕ → Ledger
start limits elapsed_seconds now = record {
  limits = limits;
  deadline = now + elapsed_seconds;
  used = [];
}

unfoldable pub check_time : ℕ → Ledger → Result BudgetError Unit
check_time now ledger = raise_if (leb ledger.deadline now) (exceeded "elapsed_seconds")

-- `self.used.get(key, 0)`
abbrev pub used_of : Option ℕ → ℕ
used_of none = 0
used_of (some n) = n

unfoldable pub charge : String → ℕ → Ledger → Option ℕ → Result BudgetError Ledger
charge key amount ledger none = err (exceeded key)
charge key amount ledger (some limit) =
    let next_value = used_of (lookup key ledger.used) + amount in
    if ltb limit next_value
    then err (exceeded key)
    else ok (record ledger { used = insert key next_value ledger.used })

unfoldable pub consume : String → ℕ → ℕ → Ledger → Result BudgetError Ledger
unfolding check_time charge
consume key amount now ledger = do
  check_time now ledger
  charge key amount ledger (lookup key ledger.limits)

pub remaining_seconds : ℕ → Ledger → ℕ
remaining_seconds now ledger = ledger.deadline - now

-- Charges one after the other, each with its clock reading. The caller of a charge that raises
-- stops or goes on; either way the ledger is the one before it.
unfoldable pub kept : Result BudgetError Ledger → Ledger → Ledger
kept (ok after) before = after
kept (err e) before = before

unfoldable pub consume_all : List (String × ℕ × ℕ) → Ledger → Ledger
unfolding kept
consume_all [] ledger = ledger
consume_all ((key, amount, now) ∷ rest) ledger =
    consume_all rest (kept (consume key amount now ledger) ledger)
