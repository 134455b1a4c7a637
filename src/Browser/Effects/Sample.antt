-- ===== src/Browser/Effects/Sample.antt =====
-- A network that answers every request with the status 200, and payloads for it.
use aios_tools.Prelude.{true, false, none, some, [], ◌∷◌, string_eq, ◌==◌, if◌then◌else◌}
use aios_tools.Prelude.Json.{null, number, text, object, Fields, end, field}
use aios_tools.Browser.Origin.{Urls, absent}
use aios_tools.Browser.Origin.Tests.{urls}
use aios_tools.Browser.Mutation.Approval.Tests.{host, grant}
use aios_tools.Browser.Mutation.Approval.{Grant}
use aios_tools.Browser.Mutation.Reservations.{Table}
use aios_tools.Browser.Effects.{Net}
use aios_tools.Browser.Effects.Plan.{World, Times, Plan}

-- The address table of the grants, with the canonical form of the address.
abbrev own_urls : Urls
own_urls = record urls {
  urlsplit = λ raw.
      if raw == "https://example.org/"
      then some (record {
        scheme = "https";
        netloc = "example.org";
        username = none;
        password = none;
        hostname = some "example.org";
        port = absent;
        path = "/";
        query = "";
        fragment = "";
      })
      else urls.urlsplit raw;
}

abbrev pub net : Net
net = record {
  host = record host { urls = own_urls };
  respond = λ sent request. some (record { status = 200; json = none });
  addresses = λ origin. some (true ∷ []);
  allow_private_fixture = false;
  json_size = λ value. some 10;
  equal = λ one two. true;
  fingerprint = λ s. s;
  hexdigest = λ s. s;
  installed = true;
  launched = true;
  fresh_context = true;
  restored_context = λ session url owner. none;
  other_number_is_int = false;
}

abbrev pub times : Times
times = record { consumed_at = 200; reserved_at = 201; marked_at = 202 }

abbrev pub start : World
start = record { ledger = []; sent = [] }

abbrev pub check : Fields
check = field "url" (text "https://example.org") (field "expected_status" (number 200) end)

abbrev pub payload : Fields
payload = field "url" (text "https://example.org") (
    field "method" (text "POST") (
      field "idempotency_key" (text "k1") (
        field "expected_status" (number 200)
          (field "precheck" (object check) (field "postcheck" (object check) end)))))

abbrev pub reversible_payload : Fields
reversible_payload =
    field "rollback"
      (object (
        field "url" (text "https://example.org") (
          field "method" (text "POST")
            (field "expected_status" (number 200) (field "postcheck" (object check) end)))))
      payload

abbrev pub plan : Plan
plan = record {
  url = "https://example.org/";
  method = "POST";
  key = "k1";
  timeout_ms = 30000;
  expected_status = 200;
  headers = [];
  body = null;
  target_origin = "https://example.org";
  precheck = check;
  postcheck = check;
  session = null;
}

abbrev pub used : Grant
used = record grant { consumed = true }

abbrev pub reserved_table : Table
reserved_table =
    (
      "k1",
      record {
        target_fingerprint = "https://example.org/";
        method = "POST";
        approval_fingerprint = "a1";
        status = "STARTED";
        created_at = 201;
        updated_at = 201;
      },
    )
    ∷ []
