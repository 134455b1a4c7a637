-- ===== src/Browser/Budget/Tests.antt =====
-- A ledger on small inputs, and the theorems about it there.
use aios_tools.Prelude.{ℕ, ◌≤◌, String, some, [], ◌∷◌, ◌≡◌, refl, string_eq, ok, err}
use aios_tools.Prelude.Dict.{Dict, lookup, insert}
use aios_tools.Browser.Budget.{Ledger, exceeded, start, check_time, charge, consume, consume_all}
use aios_tools.Browser.Budget.Within.{Charged, consume-Charged, start-consume_all-IsWithin}

abbrev limits : Dict String ℕ
limits = ("actions", 2) ∷ ("pages", 1) ∷ []

abbrev used_once : Ledger
used_once = record { limits = limits; deadline = 60; used = ("actions", 1) ∷ [] }

ledger : Unit {0}
unfolding start check_time charge consume consume_all lookup insert
ledger = tt

consume_first : consume "actions" 1 5 (start limits 60 0) ≡ ok used_once
unfolding ledger
consume_first = refl

consume_late : consume "actions" 1 60 used_once ≡ err (exceeded "elapsed_seconds")
unfolding ledger
consume_late = refl

consume_unknown : consume "uploads" 1 5 used_once ≡ err (exceeded "uploads")
unfolding ledger
consume_unknown = refl

consume-Charged_example : Charged "actions" 1 5 (start limits 60 0) used_once
consume-Charged_example = consume-Charged "actions" 1 5 (start limits 60 0) used_once consume_first

start-consume_all-IsWithin_example :
    (limit : ℕ) × (lookup "actions" limits ≡ some limit) × (2 ≤ limit)
unfolding ledger
start-consume_all-IsWithin_example =
    start-consume_all-IsWithin limits 60 0
      (("actions", 1, 5) ∷ ("actions", 1, 6) ∷ ("actions", 1, 7) ∷ ("pages", 1, 99) ∷ []) "actions"
      2 refl
