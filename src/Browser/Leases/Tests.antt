-- ===== src/Browser/Leases/Tests.antt =====
-- The lease registry on small inputs, and its theorems at them.
use aios_tools.Prelude.{
  ℕ, ◌+◌, leb, ◌==◌, nat_eq, ap, false, some, [], ◌∷◌, ◌≡◌, refl, arith, string_eq, ok, err,
  has_space,
}
use aios_tools.Prelude.Dict.{lookup, insert, erase, erase_all, has_key}
use aios_tools.Browser.Leases.{
  Clock, IsExact, Lease, session_lease_conflict, Registry, acquire, release, recover_stale,
  stale_refs, expired, held, same_lease,
}
use aios_tools.Browser.Leases.Recovery.{unexpired, lookup-recover_stale}
use aios_tools.Browser.Leases.Exclusive.{
  Granted, acquire-Granted, acquire_op, release_op, recover_op, perform_all, lease_stays,
  release_lem,
}

-- A clock of whole ticks.
abbrev ticks : Clock
ticks = record {
  Time = ℕ;
  zero_time = 0;
  plus = λ s t. s + t;
  at_or_before = leb;
  same_time = λ s t. s == t;
}

ticks_exact : IsExact ticks
ticks_exact s t = nat_eq.test_iff s t

abbrev lease_a : Lease ticks
lease_a = record {
  session_ref = "bs_1";
  owner_execution_id = "exec-a";
  acquired = 10;
  expires = 40;
}

abbrev lease_b : Lease ticks
lease_b = record { session_ref = "bs_2"; owner_execution_id = "exec-b"; acquired = 5; expires = 15 }

abbrev leases : Registry ticks
leases = ("bs_1", lease_a) ∷ ("bs_2", lease_b) ∷ []

registry : Unit {0}
unfolding acquire release recover_stale stale_refs expired held same_lease lookup insert erase
    erase_all has_key has_space
registry = tt

acquire_busy : acquire ticks "bs_1" "exec-b" 30 20 leases ≡ err session_lease_conflict
unfolding registry
acquire_busy = refl

recover_one : recover_stale ticks 20 leases ≡ (1, ("bs_1", lease_a) ∷ [])
unfolding registry
recover_one = refl

acquire_first :
    acquire ticks "bs_1" "exec-a" 30 10 (("bs_2", lease_b) ∷ [])
    ≡ ok (lease_a, ("bs_2", lease_b) ∷ ("bs_1", lease_a) ∷ [])
unfolding registry
acquire_first = refl

acquire-Granted_example :
    Granted ticks "bs_1" "exec-a" 30 10
      (("bs_2", lease_b) ∷ [])
      (("bs_2", lease_b) ∷ ("bs_1", lease_a) ∷ [])
      lease_a
acquire-Granted_example =
    acquire-Granted ticks "bs_1" "exec-a" 30 10 (("bs_2", lease_b) ∷ []) lease_a
      (("bs_2", lease_b) ∷ ("bs_1", lease_a) ∷ []) acquire_first

lease_stays_example :
    lookup "bs_1" (
      perform_all ticks
        (acquire_op "bs_1" "exec-b" 30 20 ∷ recover_op 30 ∷ release_op lease_b ∷ [])
        leases)
    ≡ some lease_a
unfolding registry
lease_stays_example =
    lease_stays ticks ticks_exact
      (acquire_op "bs_1" "exec-b" 30 20 ∷ recover_op 30 ∷ release_op lease_b ∷ []) leases "bs_1"
      lease_a (refl, (refl, tt)) refl refl
      (refl, (refl, ((λ e. absurd (omega (arith, ap (λ (l : Lease ticks). l.expires) e))), tt)))

release_lem_example :
    release ticks lease_b (("bs_1", lease_a) ∷ []) ≡ (false, ("bs_1", lease_a) ∷ [])
unfolding registry
release_lem_example = (release_lem ticks ticks_exact lease_b (("bs_1", lease_a) ∷ [])).1 (λ e. cc e)

lookup-recover_stale_example :
    lookup "bs_2" (recover_stale ticks 20 leases).1 ≡ unexpired ticks 20 (lookup "bs_2" leases)
unfolding registry
lookup-recover_stale_example = lookup-recover_stale ticks 20 "bs_2" leases (refl, (refl, tt))
