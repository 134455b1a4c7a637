-- ===== src/Browser/Leases/Exclusive.antt =====
-- A lease is exclusive until it expires or its holder releases it.
use aios_tools.Prelude.{
  String, Option, ◌⊎◌, true, false, none, some, List, [], ◌∷◌, ◌≡◌, ◌≢◌, inl, inr, refl, arith,
  string_eq, eq_iff, Result, ok, err, Option-cases, has_space,
}
use aios_tools.Prelude.Dict.{
  IsDict, lookup, lookup-insert, lookup-erase, insert-IsDict, erase-IsDict,
}
use aios_tools.Browser.Leases.{
  Clock, IsExact, Lease, LeaseError, Registry, expired, held, same_lease_iff, acquire, release,
  recover_stale,
}
use aios_tools.Browser.Leases.Recovery.{lookup-recover_stale, recover_stale-IsDict}

module _ (clock : Clock) where
  -- What a grant has done.
  pub record Granted (ref owner : String) (ttl now : clock.Time) (before after : Registry clock)
      (lease : Lease clock) : Type 0 where
    pub compact : (owner ≢ "") × (has_space owner ≡ false)
    pub positive : clock.at_or_before ttl clock.zero_time ≡ false
    pub free :
        (lookup ref before ≡ none)
        ⊎ ((old : Lease clock) × (lookup ref before ≡ some old) × (expired clock old now ≡ true))
    pub of_session : lease.session_ref ≡ ref
    pub of_owner : lease.owner_execution_id ≡ owner
    pub since : lease.acquired ≡ now
    pub lifetime : lease.expires ≡ clock.plus now ttl
    pub recorded : lookup ref after ≡ some lease
    pub others : (other : String) → ref ≢ other → lookup other after ≡ lookup other before

  unheld :
      (o : Option (Lease clock)) (now : clock.Time)
      → held clock o now ≡ false
      → (o ≡ none) ⊎ ((old : Lease clock) × (o ≡ some old) × (expired clock old now ≡ true))
  unfolding held
  unheld none now h = inl refl
  unheld (some lease) now h = inr (lease, refl, ground arith)

  -- A call of `acquire` that returns has a compact owner and a positive lifetime, and found no lease
  -- of the session but an expired one. It has recorded the new lease, of the asked owner, from the
  -- clock reading to the sum of that and the lifetime, and no other session has changed.
  pub acquire-Granted :
      (ref owner : String) (ttl now : clock.Time) (leases : Registry clock) (lease : Lease clock)
      (after : Registry clock)
      → acquire clock ref owner ttl now leases ≡ ok (lease, after)
      → Granted ref owner ttl now leases after lease
  unfolding acquire
  acquire-Granted ref owner ttl now leases lease after e = record {
    compact = (λ p. ground (arith, eq_iff owner ""), ground arith);
    positive = ground arith;
    free = unheld (lookup ref leases) now (ground arith);
    of_session = ground arith;
    of_owner = ground arith;
    since = ground arith;
    lifetime = ground arith;
    recorded = ground (arith, lookup-insert ref ref lease leases, eq_iff ref ref);
    others = λ other ne. ground (arith, lookup-insert ref other lease leases, eq_iff ref other);
  }

  -- A call of the registry, with the clock reading at which it is made.
  pub data Op : Type 0 where
    acquire_op : (ref owner : String) (ttl now : clock.Time) → Op
    release_op : (lease : Lease clock) → Op
    recover_op : (now : clock.Time) → Op

  kept : Result LeaseError (Lease clock × Registry clock) → Registry clock → Registry clock
  kept (ok (lease, after)) leases = after
  kept (err e) leases = leases

  -- The registry after a call: a call that raises has changed nothing.
  pub perform : Op → Registry clock → Registry clock
  unfolding kept
  perform (acquire_op ref owner ttl now) leases =
      kept (acquire clock ref owner ttl now leases) leases
  perform (release_op lease) leases = (release clock lease leases).1
  perform (recover_op now) leases = (recover_stale clock now leases).1

  pub perform_all : List Op → Registry clock → Registry clock
  perform_all [] leases = leases
  perform_all (op ∷ ops) leases = perform_all ops (perform op leases)

  -- A call before the lease expires that does not give back that very lease.
  abbrev pub Spares : Lease clock → Op → Type 0
  Spares lease (acquire_op ref owner ttl now) = expired clock lease now ≡ false
  Spares lease (release_op other) = other ≢ lease
  Spares lease (recover_op now) = expired clock lease now ≡ false

  abbrev pub SparesAll : Lease clock → List Op → Type 0
  SparesAll lease [] = Unit
  SparesAll lease (op ∷ ops) = Spares lease op × SparesAll lease ops

  perform-IsDict : (op : Op) (leases : Registry clock) → IsDict leases → IsDict (perform op leases)
  unfolding perform acquire release
  perform-IsDict (acquire_op ref owner ttl now) leases h = ground (
    arith,
    insert-IsDict ref
        (record {
          session_ref = ref;
          owner_execution_id = owner;
          acquired = now;
          expires = clock.plus now ttl;
        })
        leases h,
  )
  perform-IsDict (release_op lease) leases h =
      ground (arith, erase-IsDict lease.session_ref leases h)
  perform-IsDict (recover_op now) leases h = recover_stale-IsDict clock now leases h

  perform-keeps :
      IsExact clock
      → (op : Op) (leases : Registry clock) (ref : String) (lease : Lease clock) → IsDict leases
      → lookup ref leases ≡ some lease
      → lease.session_ref ≡ ref
      → Spares lease op
      → lookup ref (perform op leases) ≡ some lease
  unfolding perform acquire release expired
  perform-keeps exact (acquire_op ref' owner ttl now) leases ref lease d h k s = ground (
    arith,
    eq_iff ref' ref,
    lookup-insert ref' ref
        (record {
          session_ref = ref';
          owner_execution_id = owner;
          acquired = now;
          expires = clock.plus now ttl;
        })
        leases,
  )
  perform-keeps exact (release_op other) leases ref lease d h k s =
      elim (Option-cases (lookup other.session_ref leases)) [
        | inl gone ↦ ground arith
        | inr (current, e) ↦ ground (
          arith,
          e,
          same_lease_iff clock exact current other,
          eq_iff other.session_ref ref,
          lookup-erase other.session_ref ref leases,
        )
      ]
  perform-keeps exact (recover_op now) leases ref lease d h k s =
      ground (arith, lookup-recover_stale clock now ref leases d)

  -- By a clock with exact equality, from a registry that holds a lease, any calls before its expiry
  -- leave it held, unless one of them releases that very lease: no other owner can take or free the
  -- session.
  pub lease_stays :
      IsExact clock
      → (ops : List Op) (leases : Registry clock) (ref : String) (lease : Lease clock)
      → IsDict leases
      → lookup ref leases ≡ some lease
      → lease.session_ref ≡ ref
      → SparesAll lease ops
      → lookup ref (perform_all ops leases) ≡ some lease
  unfolding perform_all
  lease_stays exact [] leases ref lease d h k s = h
  lease_stays exact (op ∷ ops) leases ref lease d h k s =
      lease_stays exact ops (perform op leases) ref lease (perform-IsDict op leases d)
        (perform-keeps exact op leases ref lease d h k s.0) k s.1

  -- By a clock with exact equality, `release` of the lease that the registry holds returns true and
  -- frees its session alone; of any other lease it returns false and changes nothing.
  pub release_lem :
      IsExact clock
      → (lease : Lease clock) (leases : Registry clock)
      → (lookup lease.session_ref leases ≡ some lease
          → ((release clock lease leases).0 ≡ true)
            × (lookup lease.session_ref (release clock lease leases).1 ≡ none)
            × ((other : String)
                → lease.session_ref ≢ other
                → lookup other (release clock lease leases).1 ≡ lookup other leases))
        × (lookup lease.session_ref leases ≢ some lease
            → release clock lease leases ≡ (false, leases))
  unfolding release
  release_lem exact lease leases = (
    (λ h.
        let same = (same_lease_iff clock exact lease lease).1 refl in
        (
          rw h (rw same refl),
          rw h (
              rw same (
                ground (
                  arith,
                  lookup-erase lease.session_ref lease.session_ref leases,
                  eq_iff lease.session_ref lease.session_ref,
                ))),
          λ other ne. rw h (
              rw same (
                ground (
                  arith,
                  lookup-erase lease.session_ref other leases,
                  eq_iff lease.session_ref other,
                ))),
        )),
    (λ ne. elim (Option-cases (lookup lease.session_ref leases)) [
      | inl gone ↦ rw gone
      | inr (current, e) ↦ ground (arith, same_lease_iff clock exact current lease, e)
    ]),
  )
