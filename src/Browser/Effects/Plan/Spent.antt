-- ===== src/Browser/Effects/Plan/Spent.antt =====
-- A grant that was used and a key that was reserved, as both mutations do it.
use aios_tools.Prelude.{Option, none, some, ◌≡◌, arith, string_eq, Result, ok, err}
use aios_tools.Prelude.Dict.{lookup}
use aios_tools.Browser.Mutation.Approval.{MutationError, Grant}
use aios_tools.Browser.Mutation.Approval.Once.{Used}
use aios_tools.Browser.Mutation.Reservations.{Table, reserve}
use aios_tools.Browser.Mutation.Reservations.Blocked.{reserve-started}
use aios_tools.Browser.Effects.{Net}
use aios_tools.Browser.Effects.Sent.{Open}
use aios_tools.Browser.Effects.Plan.{Times, Plan, granted, lifted}

pub lifted_ok : {A : Type 0} (m : Result MutationError A) {a : A} → lifted m ≡ ok a → m ≡ ok a
unfolding lifted
lifted_ok (ok b) h = ground arith
lifted_ok (err e) h = absurd (ground arith)

pub granted_ok : (grant : Option Grant) {own : Grant} → granted grant ≡ ok own → grant ≡ some own
unfolding granted
granted_ok (some own) h = ground arith
granted_ok none h = absurd (ground arith)

pub reserve-Open :
    (net : Net) (plan : Plan) (times : Times) (own used : Grant) (ledger table : Table)
    → Used net.host plan.url plan.method plan.key times.consumed_at own used
    → reserve net.fingerprint own times.reserved_at ledger ≡ ok table
    → (lookup plan.key ledger ≡ none) × Open plan.key table
reserve-Open net plan times own used ledger table u h =
    rw u.of_key (reserve-started net.fingerprint own times.reserved_at ledger table h)
