-- ===== src/Browser/Effects/Reversible/Verdict.antt =====
-- What a reply of `mutate_reversible_async` says, read off the requests and their answers.
use aios_tools.Prelude.{true, false, none, some, List, [], ◌∷◌, ◌++◌, ◌≡◌, ◌≢◌, string_eq, err}
use aios_tools.Browser.Mutation.Reservations.{status_of}
use aios_tools.Browser.Effects.{EffectError, Request, Response, Net}
use aios_tools.Browser.Effects.Check.{CheckReceipt, readcheck}
use aios_tools.Browser.Effects.Check.Passed.{Passed}
use aios_tools.Browser.Effects.Sent.{changes}
use aios_tools.Browser.Effects.Plan.{World, Plan, change_of}
use aios_tools.Browser.Effects.Plan.Ended.{Sent}
use aios_tools.Browser.Effects.Reversible.{Rollback, Reply, rollback_of}

-- What the check after the mutation found; the requests after it are `checked`.
pub data Postchecked (net : Net) (plan : Plan) (changed : List Request) (reply : Reply)
    (checked : List Request) : Type 0 where
  verified_post :
      {receipt : CheckReceipt}
      → Passed net plan.postcheck plan.target_origin plan.timeout_ms changed receipt checked
      → reply.postcheck ≡ some receipt
      → reply.post_verified ≡ true
      → Postchecked net plan changed reply checked
  unverified_post :
      {e : EffectError}
      → readcheck net plan.postcheck plan.target_origin plan.timeout_ms changed ≡ (err e, checked)
      → reply.postcheck ≡ none
      → reply.post_verified ≡ false
      → Postchecked net plan changed reply checked

-- A reply that the rollback has failed.
pub record RollbackFailed (reply : Reply) : Type 0 where
  pub terminal : reply.terminal_status ≡ "ROLLBACK_FAILED"
  pub no_success : reply.semantic_success ≡ false
  pub no_receipt : reply.rollback_postcheck ≡ none

-- How the rollback ended, which was sent after `checked`.
pub data Restored (net : Net) (plan : Plan) (back : Rollback) (checked : List Request)
    (reply : Reply) (after : World) : Type 0 where
  unanswered :
      net.respond checked (rollback_of plan back) ≡ none
      → after.sent ≡ checked ++ rollback_of plan back ∷ []
      → RollbackFailed reply
      → Restored net plan back checked reply after
  refused :
      {response : Response}
      → net.respond checked (rollback_of plan back) ≡ some response
      → back.expected_status ≢ some response.status
      → after.sent ≡ checked ++ rollback_of plan back ∷ []
      → reply.rollback_status ≡ some response.status
      → RollbackFailed reply
      → Restored net plan back checked reply after
  unrestored :
      {response : Response} {e : EffectError}
      → net.respond checked (rollback_of plan back) ≡ some response
      → back.expected_status ≡ some response.status
      → readcheck net back.postcheck plan.target_origin plan.timeout_ms
          (checked ++ rollback_of plan back ∷ [])
        ≡ (err e, after.sent)
      → RollbackFailed reply
      → Restored net plan back checked reply after
  restored :
      {response : Response} {receipt : CheckReceipt}
      → net.respond checked (rollback_of plan back) ≡ some response
      → back.expected_status ≡ some response.status
      → Passed net back.postcheck plan.target_origin plan.timeout_ms
          (checked ++ rollback_of plan back ∷ [])
          receipt
          after.sent
      → reply.rollback_postcheck ≡ some receipt
      → reply.terminal_status ≡ "ROLLED_BACK"
      → reply.semantic_success ≡ reply.post_verified
      → Restored net plan back checked reply after

-- What a reply says of the mutation, which `response` answered and after which `changed` was sent.
pub data Verdict (net : Net) (plan : Plan) (back : Rollback) (before : List Request)
    (response : Response) (changed : List Request) (reply : Reply) (after : World) : Type 0 where
  -- Another status than the expected one, and no further request.
  unexpected :
      response.status ≢ plan.expected_status
      → after.sent ≡ changed
      → reply.terminal_status ≡ "MUTATION_STATE_UNKNOWN"
      → reply.semantic_success ≡ false
      → reply.rollback_attempted ≡ false
      → Verdict net plan back before response changed reply after
  reverted :
      {checked : List Request}
      → response.status ≡ plan.expected_status
      → Postchecked net plan changed reply checked
      → reply.rollback_attempted ≡ true
      → Restored net plan back checked reply after
      → changes after.sent ≡ changes before ++ change_of plan ∷ rollback_of plan back ∷ []
      → Verdict net plan back before response changed reply after

-- A reply, and the ledger and the requests after it.
pub record Good (net : Net) (plan : Plan) (back : Rollback) (before : List Request) (reply : Reply)
    (after : World) : Type 0 where
  pub response : Response
  pub changed : List Request
  pub sent : Sent net plan before reply.precheck (some response) changed
  pub answered : reply.response_status ≡ response.status
  pub verdict : Verdict net plan back before response changed reply after
  pub recorded : status_of plan.key after.ledger ≡ some reply.terminal_status
