-- ===== src/Browser/Leases/Recovery.antt =====
-- `recover_stale` drops the expired leases and no others.
use aios_tools.Prelude.{
  String, false, Option, none, some, [], ◌∷◌, ◌≡◌, refl, ◌∙◌, arith, string_eq, eq_iff,
  if◌then◌else◌, contains,
}
use aios_tools.Prelude.Dict.{IsDict, lookup, has_key, lookup-erase_all, erase_all-IsDict}
use aios_tools.Browser.Leases.{Clock, Lease, Registry, expired, stale_refs, recover_stale}

module _ (clock : Clock) where
  stale_refs-absent :
      (now : clock.Time) (ref : String) (leases : Registry clock)
      → has_key ref leases ≡ false
      → contains (stale_refs clock now leases) ref ≡ false
  unfolding stale_refs has_key contains
  stale_refs-absent now ref [] h = refl
  stale_refs-absent now ref ((j, l) ∷ rest) h = ground (arith, stale_refs-absent now ref rest)

  abbrev pub unexpired : clock.Time → Option (Lease clock) → Option (Lease clock)
  unexpired now none = none
  unexpired now (some lease) = if expired clock lease now then none else some lease

  drop_stale :
      (now : clock.Time) (ref : String) (leases : Registry clock)
      → IsDict leases
      → (if contains (stale_refs clock now leases) ref then none else lookup ref leases)
        ≡ unexpired now (lookup ref leases)
  unfolding stale_refs has_key contains lookup
  drop_stale now ref [] h = refl
  drop_stale now ref ((j, l) ∷ rest) h =
      ground (arith, eq_iff j ref, drop_stale now ref rest h.1, stale_refs-absent now j rest h.0)

  -- In a registry with no session listed twice, after `recover_stale` every session has the lease it
  -- had, if that has not expired, and else none.
  pub lookup-recover_stale :
      (now : clock.Time) (ref : String) (leases : Registry clock)
      → IsDict leases
      → lookup ref (recover_stale clock now leases).1 ≡ unexpired now (lookup ref leases)
  unfolding recover_stale
  lookup-recover_stale now ref leases h =
      lookup-erase_all (stale_refs clock now leases) ref leases ∙ drop_stale now ref leases h

  pub recover_stale-IsDict :
      (now : clock.Time) (leases : Registry clock)
      → IsDict leases
      → IsDict (recover_stale clock now leases).1
  unfolding recover_stale
  recover_stale-IsDict now leases h = erase_all-IsDict (stale_refs clock now leases) leases h
