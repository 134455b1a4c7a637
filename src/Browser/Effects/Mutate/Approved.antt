-- ===== src/Browser/Effects/Mutate/Approved.antt =====
-- No remote change without a grant for it, and none twice under one idempotency key.
use aios_tools.Prelude.{
  String, Option, none, some, List, [], ◌∷◌, ◌++◌, ◌≡◌, ◌≢◌, refl, sym, ap, ◌∙◌, arith, string_eq,
  ok, err, Result-cases, inl, inr, step_returned,
}
use aios_tools.Prelude.Dict.{lookup}
use aios_tools.Prelude.Json.{Fields}
use aios_tools.Browser.Mutation.Approval.{Grant, consume}
use aios_tools.Browser.Mutation.Approval.Once.{Used, consume-Used}
use aios_tools.Browser.Mutation.Reservations.{Table, reserve, status_of}
use aios_tools.Browser.Mutation.Reservations.Blocked.{reserve-started}
use aios_tools.Browser.Effects.{EffectError, Request, Net}
use aios_tools.Browser.Effects.Sent.{changes, Open}
use aios_tools.Browser.Effects.Plan.{World, Times, Plan, Outcome, change_of, lifted, granted}
use aios_tools.Browser.Effects.Plan.Ended.{Ended, no_effect, unknown, replied_to}
use aios_tools.Browser.Effects.Plan.Spent.{lifted_ok, granted_ok, reserve-Open}
use aios_tools.Browser.Effects.Mutate.{Reply, plan_request, reserved, entered, mutate_request}
use aios_tools.Browser.Effects.Mutate.Once.{Good, run-Fine}

-- What stands behind a reservation: a grant for the planned mutation, used now, and a key that the
-- ledger did not know.
pub record Granted (net : Net) (grant : Option Grant) (payload : Fields) (times : Times)
    (ledger : Table) (plan : Plan) (used : Grant) (table : Table) : Type 0 where
  pub own : Grant
  pub given : grant ≡ some own
  pub planned : plan_request net payload ≡ ok plan
  pub used_now : Used net.host plan.url plan.method plan.key times.consumed_at own used
  pub held : reserve net.fingerprint own times.reserved_at ledger ≡ ok table

module _ (net : Net) where
  pub reserved-Granted :
      (grant : Option Grant) (payload : Fields) (times : Times) (ledger : Table) (plan : Plan)
      (used : Grant) (table : Table)
      → reserved net grant payload times ledger ≡ ok (plan, used, table)
      → Granted net grant payload times ledger plan used table
  unfolding reserved
  reserved-Granted grant payload times ledger plan used table e =
      let (own, given, e1) = step_returned (granted grant) _ e in
      let (plan', planned, e2) = step_returned (plan_request net payload) _ e1 in
      let (used', spent, e3) =
        step_returned
          (lifted (consume net.host plan'.url plan'.method plan'.key times.consumed_at own)) _ e2 in
      let (table', held, e4) =
        step_returned (lifted (reserve net.fingerprint own times.reserved_at ledger)) _ e3 in
      let same_plan : plan' ≡ plan = ground arith in
      let same_used : used' ≡ used = ground arith in
      let same_table : table' ≡ table = ground arith in
      record {
        own = own;
        given = granted_ok grant given;
        planned = planned ∙ ap ok same_plan;
        used_now =
            rw (sym same_plan, sym same_used)
              (consume-Used net.host plan'.url plan'.method plan'.key times.consumed_at own used'
                (lifted_ok _ spent));
        held = lifted_ok _ held ∙ ap ok same_table;
      }

  key-Open :
      (grant : Option Grant) (payload : Fields) (times : Times) (ledger : Table) (plan : Plan)
      (used : Grant) (table : Table)
      → Granted net grant payload times ledger plan used table
      → (lookup plan.key ledger ≡ none) × Open plan.key table
  key-Open grant payload times ledger plan used table g =
      reserve-Open net plan times g.own used ledger table g.used_now g.held

  -- A call that gets as far as its reservation ends in one of these ways.
  -- It raises before its change, since Playwright is missing, the browser or the context does not
  -- start, or the precheck raises; nothing was changed, and the ledger says FAILED_NO_EFFECT.
  -- Or the precheck passed and the mutation of the plan was sent, once: no answer came, the call
  -- raises, and the ledger says MUTATION_STATE_UNKNOWN; or the ledger and the reply say
  -- MUTATION_STATE_UNKNOWN, and either the response had another status than the expected one, or it
  -- had that one and the postcheck, made next, raised; or both say SUCCEEDED, the response had the
  -- expected status, and the postcheck of the plan, made next, passed with the receipt of the reply.
  pub mutate_request-Ended :
      (grant : Option Grant) (payload : Fields) (times : Times) (world : World) (plan : Plan)
      (used : Grant) (table : Table)
      → reserved net grant payload times world.ledger ≡ ok (plan, used, table)
      → Ended net plan used.request_id world.sent
          (Good net plan world.sent)
          (mutate_request net grant payload times world)
  unfolding mutate_request entered
  mutate_request-Ended grant payload times world plan used table e =
      let g = reserved-Granted grant payload times world.ledger plan used table e in
      let opened = (key-Open grant payload times world.ledger plan used table g).1 in
      rw e (run-Fine net plan used times.marked_at world.sent table opened)

  -- The decided status of a call's key.
  Ended-held :
      (plan : Plan) (owner : String) (before : List Request) (out : Outcome Reply)
      → Ended net plan owner before (Good net plan before) out
      → lookup plan.key out.1.ledger ≢ none
  unfolding status_of
  Ended-held plan owner before out (no_effect w c s) h = absurd (ground arith)
  Ended-held plan owner before out (unknown w c s) h = absurd (ground arith)
  Ended-held plan owner before out (replied_to good) h = absurd (ground (arith, good.recorded))

  held_stops :
      (grant : Grant) (payload : Fields) (times : Times) (ledger : Table)
      → lookup grant.idempotency_key ledger ≢ none
      → (e : EffectError) × (reserved net (some grant) payload times ledger ≡ err e)
  held_stops grant payload times ledger h =
      elim (Result-cases (reserved net (some grant) payload times ledger)) [
        | inr stop ↦ stop
        | inl ((plan, used, table), e) ↦
            let g = reserved-Granted (some grant) payload times ledger plan used table e in
            let same : grant ≡ g.own = ground (arith, g.given) in
            absurd (
              h (
                ap (λ o. lookup o.idempotency_key ledger) same
                ∙ (reserve-started net.fingerprint g.own times.reserved_at ledger table g.held).0))
      ]

  stopped :
      (grant : Option Grant) (payload : Fields) (times : Times) (world : World) (e : EffectError)
      → reserved net grant payload times world.ledger ≡ err e
      → (mutate_request net grant payload times world).1 ≡ world
  unfolding mutate_request entered
  stopped grant payload times world e h = rw h refl

  Ended-changed :
      (plan : Plan) (owner : String) (before : List Request) (out : Outcome Reply)
      → Ended net plan owner before (Good net plan before) out
      → changes out.1.sent ≢ changes before
      → changes out.1.sent ≡ changes before ++ change_of plan ∷ []
  Ended-changed plan owner before out (no_effect w c s) d = absurd (d c)
  Ended-changed plan owner before out (unknown w c s) d = c
  Ended-changed plan owner before out (replied_to good) d = good.sent_once

  -- After a call that got as far as its reservation, a call under the same idempotency key, with
  -- whatever grant and payload, sends nothing and leaves the ledger as it is.
  pub mutate_request-again :
      (grant : Option Grant) (again : Grant) (payload other : Fields) (times later : Times)
      (world : World) (plan : Plan) (used : Grant) (table : Table)
      → reserved net grant payload times world.ledger ≡ ok (plan, used, table)
      → again.idempotency_key ≡ plan.key
      → (mutate_request net
          (some again)
          other
          later
          (mutate_request net grant payload times world).1).1
        ≡ (mutate_request net grant payload times world).1
  mutate_request-again grant again payload other times later world plan used table e same =
      let after : World = (mutate_request net grant payload times world).1 in
      let held : lookup again.idempotency_key after.ledger ≢ none = rw same (
        Ended-held plan used.request_id world.sent _
          (mutate_request-Ended grant payload times world plan used table e)) in
      let (stop, refused) = held_stops again other later after.ledger held in
      stopped (some again) other later after stop refused

  -- A call that changes the remote state has a grant that is used up by it: unused before and not
  -- expired, for the URL, the method and the key of the payload, which passed its checks; the ledger
  -- did not know the key; and the change is the one request of the plan.
  pub mutate_request-Granted :
      (grant : Option Grant) (payload : Fields) (times : Times) (world : World)
      → changes (mutate_request net grant payload times world).1.sent ≢ changes world.sent
      → (plan : Plan) × (used : Grant) × (table : Table) × Granted net grant payload times
          world.ledger plan used table
        × (lookup plan.key world.ledger ≡ none)
        × (changes (mutate_request net grant payload times world).1.sent
            ≡ changes world.sent ++ change_of plan ∷ [])
  mutate_request-Granted grant payload times world d =
      elim (Result-cases (reserved net grant payload times world.ledger)) [
        | inr (stop, e) ↦
            absurd (d (ap (λ w. changes w.sent) (stopped grant payload times world stop e)))
        | inl ((plan, used, table), e) ↦
            let g = reserved-Granted grant payload times world.ledger plan used table e in
            let ended = mutate_request-Ended grant payload times world plan used table e in
            (
              plan,
              used,
              table,
              g,
              (key-Open grant payload times world.ledger plan used table g).0,
              Ended-changed plan used.request_id world.sent _ ended d,
            )
      ]
