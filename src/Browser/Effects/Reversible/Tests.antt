-- ===== src/Browser/Effects/Reversible/Tests.antt =====
-- A mutation that is rolled back, and the theorem at it.
use aios_tools.Prelude.{some, [], ◌≡◌, refl, string_eq, ok, is_ascii, is_blank, contains}
use aios_tools.Prelude.Dict.{lookup, insert}
use aios_tools.Prelude.Json.{null, get, has_field, is_text, as_text, as_object, as_int, keys_of}
use aios_tools.Prelude.Sets.{is_subset}
use aios_tools.Browser.Origin.{canonical_http_url, parse, serialize}
use aios_tools.Browser.Mutation.Approval.{
  consume, is_mutating_method, method_of, canonical_target, raise_target,
}
use aios_tools.Browser.Mutation.Approval.Tests.{grant}
use aios_tools.Browser.Mutation.Reservations.{reserve}
use aios_tools.Browser.Effects.{
  origin_of, assert_target, same_origin, int_between, validate_headers, validate_json_body,
}
use aios_tools.Browser.Effects.Plan.{granted, lifted, plan_with}
use aios_tools.Browser.Effects.Plan.Ended.{Ended}
use aios_tools.Browser.Effects.Sample.{
  net, times, start, check, reversible_payload, plan, used, reserved_table,
}
use aios_tools.Browser.Effects.Reversible.{
  Rollback, reversible_grant, bound_rollback, plan_rollback, plan_reversible, reserved,
  mutate_reversible,
}
use aios_tools.Browser.Effects.Reversible.Verdict.{Good}
use aios_tools.Browser.Effects.Reversible.Bound.{Granted, mutate_reversible-Ended}

abbrev back : Rollback
back = record {
  url = "https://example.org/";
  method = "POST";
  expected_status = some 200;
  headers = [];
  body = null;
  postcheck = check;
}

reserved_now :
    reserved net (some grant) reversible_payload times [] ≡ ok (plan, back, used, reserved_table)
unfolding reserved reversible_grant plan_reversible bound_rollback plan_rollback plan_with granted
    lifted origin_of assert_target same_origin int_between validate_headers validate_json_body
    consume is_mutating_method method_of canonical_target raise_target canonical_http_url parse
    serialize reserve lookup insert get has_field is_text as_text as_object as_int keys_of is_subset
    contains is_blank is_ascii
reserved_now = refl

mutate_reversible-Ended_example :
    Granted net (some grant) reversible_payload times [] plan back used reserved_table
    × Ended net plan used.request_id []
        (Good net plan back [])
        (mutate_reversible net (some grant) reversible_payload times start)
mutate_reversible-Ended_example =
    mutate_reversible-Ended net (some grant) reversible_payload times start plan back used
      reserved_table reserved_now
