-- ===== src/Browser/Effects/Mutate/Tests.antt =====
-- A mutation that succeeds, and the theorems at it.
use aios_tools.Prelude.{
  String, Option, ap, some, none, List, [], ◌∷◌, ◌++◌, ◌≡◌, ◌≢◌, refl, arith, string_eq, ok,
  is_ascii, is_blank, contains,
}
use aios_tools.Prelude.Dict.{lookup, insert}
use aios_tools.Prelude.Json.{get, has_field, is_text, as_text, as_object, as_int, keys_of}
use aios_tools.Prelude.Sets.{is_subset}
use aios_tools.Browser.Origin.{canonical_http_url, parse, serialize}
use aios_tools.Browser.Mutation.Approval.{
  Grant, consume, is_mutating_method, method_of, canonical_target, raise_target,
}
use aios_tools.Browser.Mutation.Approval.Tests.{grant}
use aios_tools.Browser.Mutation.Reservations.{Table, reserve, mark, status_of}
use aios_tools.Browser.Effects.{
  Request, change, origin_of, assert_target, same_origin, int_between, validate_headers,
  validate_json_body,
}
use aios_tools.Browser.Effects.Check.{readcheck, sent_check, check_request, new_context}
use aios_tools.Browser.Effects.Sent.{changes}
use aios_tools.Browser.Effects.Plan.{
  Plan, change_of, granted, lifted, plan_with, failed, concluded, change_sent,
}
use aios_tools.Browser.Effects.Plan.Ended.{Ended}
use aios_tools.Browser.Effects.Sample.{net, times, start, payload, plan, used, reserved_table}
use aios_tools.Browser.Effects.Mutate.{plan_request, reserved, run, mutate_request}
use aios_tools.Browser.Effects.Mutate.Once.{Good}
use aios_tools.Browser.Effects.Mutate.Approved.{
  Granted, mutate_request-Ended, mutate_request-again, mutate_request-Granted,
}

reserved_now : reserved net (some grant) payload times [] ≡ ok (plan, used, reserved_table)
unfolding reserved plan_request plan_with granted lifted origin_of assert_target same_origin
    int_between validate_headers validate_json_body consume is_mutating_method method_of
    canonical_target raise_target canonical_http_url parse serialize reserve lookup insert get
    has_field is_text as_text as_object as_int keys_of is_subset contains is_blank is_ascii
reserved_now = refl

mutate_request-Ended_example :
    Ended net plan used.request_id []
      (Good net plan [])
      (mutate_request net (some grant) payload times start)
mutate_request-Ended_example =
    mutate_request-Ended net (some grant) payload times start plan used reserved_table reserved_now

mutate_request-again_example :
    (mutate_request net
      (some grant)
      payload
      times
      (mutate_request net (some grant) payload times start).1).1
    ≡ (mutate_request net (some grant) payload times start).1
mutate_request-again_example =
    mutate_request-again net (some grant) grant payload payload times times start plan used
      reserved_table reserved_now refl

first_url : List Request → Option String
first_url (change url method body headers timeout ∷ rest) = some url
first_url _ = none

was_sent : changes (mutate_request net (some grant) payload times start).1.sent ≢ changes []
unfolding mutate_request run reserved plan_request plan_with granted lifted origin_of assert_target
    same_origin int_between validate_headers validate_json_body consume is_mutating_method method_of
    canonical_target raise_target canonical_http_url parse serialize reserve lookup insert get
    has_field is_text as_text as_object as_int keys_of is_subset contains is_blank is_ascii
    first_url readcheck sent_check check_request new_context change_sent concluded failed mark
    status_of changes
was_sent e = let gone : some plan.url ≡ none = ap first_url e in absurd (ground arith)

mutate_request-Granted_example :
    (p : Plan) × (u : Grant) × (table : Table) × Granted net (some grant) payload times [] p u table
    × (lookup p.key start.ledger ≡ none)
    × (changes (mutate_request net (some grant) payload times start).1.sent
        ≡ changes [] ++ change_of p ∷ [])
mutate_request-Granted_example =
    mutate_request-Granted net (some grant) payload times start was_sent
