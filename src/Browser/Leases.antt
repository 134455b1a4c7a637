-- ===== src/Browser/Leases.antt =====
-- src/aios_tools/browser/session.py: `SessionLease` and `SessionLeaseRegistry`. The numbers of the
-- monotonic clock are floats, whose sums are rounded; they enter as the interface `Clock`.
pub mod Exclusive
pub mod Recovery
mod Tests
use aios_tools.Prelude.{
  ℕ, String, Bool, not, true, false, ◌&&◌, ◌||◌, Option, none, some, List, [], ◌∷◌, length, ◌==◌,
  string_eq, if◌then◌else◌, Result, ok, err, has_space, ◌≡◌, arith, eq_iff, ◌↔◌,
}
use aios_tools.Prelude.Dict.{Dict, lookup, insert, erase, erase_all}

-- Readings and lifetimes of the clock.
pub record Clock : Type 1 where
  pub Time : Type 0
  pub zero_time : Time
  -- `+`, `<=` and `==` of numbers
  pub plus : Time → Time → Time
  pub at_or_before : Time → Time → Bool
  pub same_time : Time → Time → Bool

pub data LeaseError : Type 0 where
  bad_owner bad_ttl session_lease_conflict : LeaseError

module _ (clock : Clock) where
  open clock use {Time, zero_time, plus, at_or_before, same_time}

  -- `==` tells the numbers that occur apart, which excludes a NaN.
  abbrev pub IsExact : Type 0
  IsExact = (s t : Time) → (same_time s t ≡ true) ↔ (s ≡ t)

  pub record Lease : Type 0 where
    pub session_ref : String
    pub owner_execution_id : String
    pub acquired : Time
    pub expires : Time

  abbrev pub Registry : Type 0
  Registry = Dict String Lease

  unfoldable pub expired : Lease → Time → Bool
  expired lease now = at_or_before lease.expires now

  -- `==` of the data class
  unfoldable pub same_lease : Lease → Lease → Bool
  same_lease a b =
      a.session_ref == b.session_ref
      && a.owner_execution_id == b.owner_execution_id
      && same_time a.acquired b.acquired
      && same_time a.expires b.expires

  pub same_lease_iff : IsExact → (a b : Lease) → (same_lease a b ≡ true) ↔ (a ≡ b)
  unfolding same_lease
  same_lease_iff exact a b = ground (
    arith,
    eq_iff a.session_ref b.session_ref,
    eq_iff a.owner_execution_id b.owner_execution_id,
    exact a.acquired b.acquired,
    exact a.expires b.expires,
  )

  -- The lease of a session stands in the way of another.
  unfoldable pub held : Option Lease → Time → Bool
  unfolding expired
  held none now = false
  held (some lease) now = not (expired lease now)

  unfoldable pub acquire :
      String → String → Time → Time → Registry → Result LeaseError (Lease × Registry)
  unfolding held
  acquire ref owner ttl now leases =
      if owner == "" || has_space owner
      then err bad_owner
      else if at_or_before ttl zero_time
      then err bad_ttl
      else if held (lookup ref leases) now
      then err session_lease_conflict
      else let lease : Lease = record {
        session_ref = ref;
        owner_execution_id = owner;
        acquired = now;
        expires = plus now ttl;
      } in
        ok (lease, insert ref lease leases)

  release_current : Option Lease → Lease → Registry → Bool × Registry
  release_current none lease leases = (false, leases)
  release_current (some current) lease leases =
      if same_lease current lease then (true, erase lease.session_ref leases) else (false, leases)

  unfoldable pub release : Lease → Registry → Bool × Registry
  unfolding release_current
  release lease leases = release_current (lookup lease.session_ref leases) lease leases

  unfoldable pub stale_refs : Time → Registry → List String
  unfolding expired
  stale_refs now [] = []
  stale_refs now ((ref, lease) ∷ rest) =
      if expired lease now then ref ∷ stale_refs now rest else stale_refs now rest

  unfoldable pub recover_stale : Time → Registry → ℕ × Registry
  recover_stale now leases =
      let stale = stale_refs now leases in (length stale, erase_all stale leases)
