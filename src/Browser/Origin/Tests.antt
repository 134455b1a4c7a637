-- ===== src/Browser/Origin/Tests.antt =====
-- Origins of concrete addresses, with a table for `urlsplit`, and the theorems about them.
use Prim.Native.String.{◌++◌}
use aios_tools.Prelude.{
  String, false, none, some, ◌≡◌, ◌↔◌, refl, string_eq, ◌==◌, if◌then◌else◌, ok, err, is_blank,
}
use aios_tools.Browser.Origin.{
  Urls, Parts, Origin, absent, userinfo, parse, serialize, same_websocket_origin,
  canonical_http_url, same_http_origin,
}
use aios_tools.Browser.Origin.Admitted.{
  IsAdmitted, parse-IsAdmitted, Target, canonical_http_url-Target, same_websocket_origin-secure,
}

abbrev parts_of : String → String → Parts
parts_of scheme host = record {
  scheme = scheme;
  netloc = host;
  username = none;
  password = none;
  hostname = some host;
  port = absent;
  path = "";
  query = "";
  fragment = "";
}

-- The address table also has a secure websocket of the same host and one with a user name.
abbrev pub urls : Urls
urls = record {
  urlsplit = λ raw.
      if raw == "https://example.org"
      then some (parts_of "https" "example.org")
      else if raw == "wss://example.org"
      then some (parts_of "wss" "example.org")
      else if raw == "https://me@example.org"
      then some (record (parts_of "https" "example.org") { username = some "me" })
      else none;
  urlunsplit = λ scheme netloc path query. (scheme ++ "://" ++ netloc) ++ path;
  idna = λ s. some s;
  lower = λ s. s;
  is_ipv6 = λ s. false;
  show_port = λ n. "";
}

abbrev example : Origin
example = record { scheme = "https"; host = "example.org"; port = 443 }

origins : Unit {0}
unfolding parse serialize same_websocket_origin canonical_http_url same_http_origin is_blank
origins = tt

parse_https : parse urls "https://example.org" ≡ ok example
unfolding origins
parse_https = refl

parse_userinfo : parse urls "https://me@example.org" ≡ err userinfo
unfolding origins
parse_userinfo = refl

canonical_https : canonical_http_url urls "https://example.org" ≡ ok "https://example.org/"
unfolding origins
canonical_https = refl

parse-IsAdmitted_example : IsAdmitted example
parse-IsAdmitted_example = parse-IsAdmitted urls "https://example.org" example parse_https

canonical_http_url-Target_example : Target urls "https://example.org" "https://example.org/"
canonical_http_url-Target_example =
    canonical_http_url-Target urls "https://example.org" "https://example.org/" canonical_https

same_websocket_origin-secure_example :
    (parts : Parts) × (urls.urlsplit "wss://example.org" ≡ some parts)
    × ((parts.scheme ≡ "wss") ↔ (example.scheme ≡ "https"))
    × (parts.username ≡ none)
    × (parts.password ≡ none)
unfolding origins
same_websocket_origin-secure_example =
    same_websocket_origin-secure urls "wss://example.org" example refl
