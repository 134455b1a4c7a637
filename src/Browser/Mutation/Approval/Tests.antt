-- ===== src/Browser/Mutation/Approval/Tests.antt =====
-- A grant of a concrete approval, and the theorems on grants at it.
use aios_tools.Prelude.{
  false, String, true, some, ◌≡◌, refl, string_eq, ok, err, is_ascii, is_blank,
}
use aios_tools.Prelude.Json.{
  text, boolean, object, Fields, end, field, get, has_field, is_text, is_true, as_text, as_object,
}
use aios_tools.Browser.Origin.{canonical_http_url, parse, serialize}
use aios_tools.Browser.Origin.Tests.{urls}
use aios_tools.Browser.Mutation.Approval.{
  Host, instant, Grant, build_mutation_grant, consume, reversible, is_remote_mutation,
  is_mutating_method, is_compact_id, all_match, mutation_permit_consumed, approval_scope_mismatch,
}
use aios_tools.Browser.Mutation.Approval.Bound.{BoundTo, build_mutation_grant-BoundTo}
use aios_tools.Browser.Mutation.Approval.Once.{consume-consume}

-- Every date is the instant 500, every contract has the digest "rb".
abbrev pub host : Host
host = record {
  urls = urls;
  upper = λ s. s;
  show = λ j. "POST";
  iso_time = λ s. instant 500;
  contract_fingerprint = λ j. some "rb";
}

abbrev payload : Fields
payload = field "method" (text "POST") (
    field "idempotency_key" (text "k1")
      (field "url" (text "https://example.org") (field "rollback" (object end) end)))

abbrev approval_for : String → Fields
approval_for tool = field "approved" (boolean true) (
    field "tool" (text tool) (
      field "scope" (text "s") (
        field "effect_class" (text reversible) (
          field "target_url" (text "https://example.org/") (
            field "method" (text "POST") (
              field "idempotency_key" (text "k1") (
                field "approval_id" (text "a1") (
                  field "approved_by" (text "user") (
                    field "one_shot" (boolean true) (
                      field "rollback_fingerprint" (text "rb")
                        (field "expires_at" (text "later") end)))))))))))

abbrev authority : String → Fields
authority tool = field "approval" (object (approval_for tool)) end

abbrev pub grant : Grant
grant = record {
  request_id = "r1";
  tool = "t";
  scope = "s";
  effect_class = reversible;
  target_url = "https://example.org/";
  method = "POST";
  idempotency_key = "k1";
  approval_id = "a1";
  approved_by = "user";
  expires_at = 500;
  rollback_fingerprint = some "rb";
  consumed = false;
}

abbrev used : Grant
used = record grant { consumed = true }

approvals : Unit {0}
unfolding build_mutation_grant consume is_remote_mutation is_mutating_method is_compact_id all_match
    get has_field is_text is_true as_text as_object canonical_http_url parse serialize is_blank
    is_ascii
approvals = tt

build_covered :
    build_mutation_grant host "r1" "t" "s" reversible payload (authority "t") 100 ≡ ok grant
unfolding approvals
build_covered = refl

build_other_tool :
    build_mutation_grant host "r1" "u" "s" reversible payload (authority "t") 100
    ≡ err approval_scope_mismatch
unfolding approvals
build_other_tool = refl

consume_once : consume host "https://example.org" "POST" "k1" 200 grant ≡ ok used
unfolding approvals
consume_once = refl

build_mutation_grant-BoundTo_example :
    BoundTo host "t" "s" reversible payload (authority "t") 100 grant
build_mutation_grant-BoundTo_example =
    build_mutation_grant-BoundTo host "r1" "t" "s" reversible payload (authority "t") 100 grant
      build_covered

consume-consume_example :
    consume host "https://example.org" "PUT" "k2" 300 used ≡ err mutation_permit_consumed
consume-consume_example =
    consume-consume host "https://example.org" "POST" "k1" "https://example.org" "PUT" "k2" 200 300
      grant used consume_once
