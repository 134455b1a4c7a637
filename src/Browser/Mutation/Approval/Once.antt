-- ===== src/Browser/Mutation/Approval/Once.antt =====
-- A grant serves one mutation, the one that it names.
use aios_tools.Prelude.{
  ℕ, ◌<◌, String, Result-cases, inl, inr, true, false, ◌≡◌, arith, string_eq, eq_iff, ok, err,
}
use aios_tools.Browser.Origin.{canonical_http_url, target_invalid, target_unsplittable}
use aios_tools.Browser.Mutation.Approval.{Host, Grant, mutation_permit_consumed, consume}

-- What a use of a grant has checked, and what it leaves.
pub record Used (host : Host) (target_url method key : String) (now : ℕ) (before after : Grant)
    : Type 0 where
  pub unused : before.consumed ≡ false
  pub live : now < before.expires_at
  pub target : canonical_http_url host.urls target_url ≡ ok before.target_url
  pub of_method : host.upper method ≡ before.method
  pub of_key : key ≡ before.idempotency_key
  pub spent : after ≡ record before { consumed = true }

module _ (host : Host) where
  named_target :
      (target_url method key : String) (now : ℕ) (before after : Grant)
      → consume host target_url method key now before ≡ ok after
      → canonical_http_url host.urls target_url ≡ ok before.target_url
  unfolding consume
  named_target target_url method key now before after e =
      elim (Result-cases (canonical_http_url host.urls target_url)) [
        | inr (target_invalid, raised) ↦ absurd (ground arith)
        | inr (target_unsplittable, raised) ↦ absurd (ground arith)
        | inl (canonical, found) ↦ ground (arith, eq_iff canonical before.target_url)
      ]

  -- `consume` returns only for an unused grant before its expiry, for the grant's own target, method
  -- and idempotency key; it changes the grant in nothing but that it is used.
  pub consume-Used :
      (target_url method key : String) (now : ℕ) (before after : Grant)
      → consume host target_url method key now before ≡ ok after
      → Used host target_url method key now before after
  unfolding consume
  consume-Used target_url method key now before after e = record {
    unused = ground arith;
    live = ground arith;
    target = named_target target_url method key now before after e;
    of_method = ground (arith, eq_iff (host.upper method) before.method);
    of_key = ground (arith, eq_iff key before.idempotency_key);
    spent = ground arith;
  }

  -- After one use every other use of a grant is refused, whatever it asks for and whenever it is
  -- made.
  pub consume-consume :
      (target_url method key target_url' method' key' : String) (now now' : ℕ)
      (before after : Grant)
      → consume host target_url method key now before ≡ ok after
      → consume host target_url' method' key' now' after ≡ err mutation_permit_consumed
  unfolding consume
  consume-consume target_url method key target_url' method' key' now now' before after e =
      ground arith
