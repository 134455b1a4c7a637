-- ===== src/Browser/Mutation/Approval/Bound.antt =====
-- What a grant of `build_mutation_grant` is bound to.
use aios_tools.Prelude.{
  Option-cases, ℕ, ◌+◌, ◌<◌, ◌≤◌, String, true, false, Option, none, some, ◌≡◌, ◌⊎◌, refl, arith,
  string_eq, eq_iff, ok, inl, inr,
}
use aios_tools.Prelude.Json.{
  Json, null, boolean, number, other_number, text, array, Fields, object, as_object, get, is_text,
  is_true,
}
use aios_tools.Browser.Mutation.Approval.{
  Host, Grant, is_mutating_method, is_compact_id, rollback_of, build_mutation_grant, reversible,
  high_impact, horizon, is_remote_mutation, all_match,
}

-- An approval that names the call and the grant.
pub record Covered (tool scope effect_class : String) (approval : Fields) (g : Grant) : Type 0 where
  pub approved : is_true (get "approved" approval) ≡ true
  pub one_shot : is_true (get "one_shot" approval) ≡ true
  pub covers_tool : is_text (get "tool" approval) tool ≡ true
  pub covers_scope : is_text (get "scope" approval) scope ≡ true
  pub covers_effect : is_text (get "effect_class" approval) effect_class ≡ true
  pub covers_target : is_text (get "target_url" approval) g.target_url ≡ true
  pub covers_method : is_text (get "method" approval) g.method ≡ true
  pub covers_key : is_text (get "idempotency_key" approval) g.idempotency_key ≡ true

-- An unused grant for one remote mutation of the call, for a quarter of an hour at most.
pub record Limited (tool scope effect_class : String) (now : ℕ) (g : Grant) : Type 0 where
  pub of_tool : g.tool ≡ tool
  pub of_scope : g.scope ≡ scope
  pub of_effect : g.effect_class ≡ effect_class
  pub remote : (effect_class ≡ reversible) ⊎ (effect_class ≡ high_impact)
  pub mutating : is_mutating_method g.method ≡ true
  pub compact_key : is_compact_id g.idempotency_key ≡ true
  pub live : now < g.expires_at
  pub near : g.expires_at ≤ now + horizon
  pub unused : g.consumed ≡ false

-- The approval that a grant was built from, and how it covers the grant.
pub record BoundTo (host : Host) (tool scope effect_class : String)
    (payload authority_context : Fields) (now : ℕ) (g : Grant) : Type 0 where
  pub approval : Fields
  pub supplied : get "approval" authority_context ≡ object approval
  pub covered : Covered tool scope effect_class approval g
  pub limited : Limited tool scope effect_class now g
  pub acknowledged : effect_class ≡ high_impact → is_true (get "high_impact_ack" approval) ≡ true
  -- The grant carries the digest of the payload's own rollback contract.
  pub rollback :
      effect_class ≡ reversible
      → (contract : Fields) × (print : String) × (get "rollback" payload ≡ object contract)
        × (host.contract_fingerprint (object contract) ≡ some print)
        × (g.rollback_fingerprint ≡ some print)
        × (is_text (get "rollback_fingerprint" approval) print ≡ true)

object_or_not :
    (value : Json) → ((fields : Fields) × (value ≡ object fields)) ⊎ (as_object value ≡ none)
unfolding as_object
object_or_not (object fields) = inl (fields, refl)
object_or_not null = inr refl
object_or_not (boolean _) = inr refl
object_or_not (number _) = inr refl
object_or_not other_number = inr refl
object_or_not (text _) = inr refl
object_or_not (array _) = inr refl

module _ (host : Host) (request_id tool scope effect_class : String)
    (payload authority_context : Fields) (now : ℕ) (g : Grant) where
  rollback_of-ok :
      (approval : Fields) (o : Option String)
      → rollback_of host effect_class payload approval ≡ ok o
      → effect_class ≡ reversible
      → (contract : Fields) × (print : String) × (get "rollback" payload ≡ object contract)
        × (host.contract_fingerprint (object contract) ≡ some print)
        × (o ≡ some print)
        × (is_text (get "rollback_fingerprint" approval) print ≡ true)
  unfolding rollback_of as_object
  rollback_of-ok approval o h r = elim (object_or_not (get "rollback" payload)) [
    | inr no_object ↦ absurd (ground (arith, eq_iff effect_class reversible))
    | inl (contract, s) ↦ elim (Option-cases (host.contract_fingerprint (object contract))) [
      | inl gone ↦ absurd (ground (arith, eq_iff effect_class reversible))
      | inr (print, found) ↦ (
        contract,
        print,
        s,
        found,
        ground (arith, eq_iff effect_class reversible),
        ground (arith, eq_iff effect_class reversible),
      )
    ]
  ]

  module _
      (built : build_mutation_grant host request_id tool scope effect_class payload
          authority_context now
        ≡ ok g)
      (approval : Fields) (supplied : get "approval" authority_context ≡ object approval) where
    approval_covers : Covered tool scope effect_class approval g
    unfolding build_mutation_grant as_object all_match
    approval_covers = record {
      approved = ground arith;
      one_shot = ground arith;
      covers_tool = ground arith;
      covers_scope = ground arith;
      covers_effect = ground arith;
      covers_target = ground arith;
      covers_method = ground arith;
      covers_key = ground arith;
    }

    grant_limits : Limited tool scope effect_class now g
    unfolding build_mutation_grant is_remote_mutation as_object
    grant_limits = record {
      of_tool = ground arith;
      of_scope = ground arith;
      of_effect = ground arith;
      remote = ground (arith, eq_iff effect_class reversible, eq_iff effect_class high_impact);
      mutating = ground arith;
      compact_key = ground arith;
      live = ground arith;
      near = ground arith;
      unused = ground arith;
    }

    is_acknowledged : effect_class ≡ high_impact → is_true (get "high_impact_ack" approval) ≡ true
    unfolding build_mutation_grant as_object
    is_acknowledged h = ground (arith, eq_iff effect_class high_impact)

    rollback_is : rollback_of host effect_class payload approval ≡ ok g.rollback_fingerprint
    unfolding build_mutation_grant as_object
    rollback_is = ground arith

    BoundTo-of : BoundTo host tool scope effect_class payload authority_context now g
    BoundTo-of = record {
      approval = approval;
      supplied = supplied;
      covered = approval_covers;
      limited = grant_limits;
      acknowledged = is_acknowledged;
      rollback = rollback_of-ok approval g.rollback_fingerprint rollback_is;
    }

  needs_object :
      build_mutation_grant host request_id tool scope effect_class payload authority_context now
        ≡ ok g
      → as_object (get "approval" authority_context) ≡ none
      → ⊥
  unfolding build_mutation_grant
  needs_object e h = ground arith

  -- A grant is built only for a remote mutation that an approval object covers: approved, one-shot,
  -- naming the tool, the scope, the effect class and the grant's own target, method and idempotency
  -- key. A high-impact mutation is acknowledged, a reversible one carries the fingerprint of its
  -- rollback contract, and the grant is unused and lives at most fifteen minutes.
  pub build_mutation_grant-BoundTo :
      build_mutation_grant host request_id tool scope effect_class payload authority_context now
        ≡ ok g
      → BoundTo host tool scope effect_class payload authority_context now g
  build_mutation_grant-BoundTo e = elim (object_or_not (get "approval" authority_context)) [
    | inl (approval, s) ↦ BoundTo-of e approval s
    | inr no_object ↦ absurd (needs_object e no_object)
  ]
