-- ===== src/Browser/Origin/Admitted.antt =====
-- What an accepted target is known to be.
use aios_tools.Prelude.{
  ℕ, ◌≤◌, String, Bool, true, false, Option, none, some, ◌≡◌, ◌≢◌, ◌⊎◌, inl, inr, ◌↔◌, refl, arith,
  string_eq, eq_iff, ◌==◌, Result, ok, err, guard_passed, not, raise_if, ◌>>◌, ◌||◌, if◌then◌else◌,
}
use aios_tools.Browser.Origin.{
  Urls, Parts, Origin, OriginError, parse, parse_parts, check_host, has_percent, normal_host,
  port_or, default_port, text_or_empty, serialize, same_websocket_origin, canonical_http_url,
  websocket_parts, websocket_scheme, same_websocket, canonical_parts, origin_url, canonical_origin,
  unclean_target, missing, admitted_scheme, present, no_hostname, bad_scheme, userinfo,
}

pub record IsAdmitted (o : Origin) : Type 0 where
  pub scheme : (o.scheme ≡ "http") ⊎ (o.scheme ≡ "https")
  pub host : o.host ≢ ""
  pub no_percent : has_percent o.host ≡ false
  pub port_low : 1 ≤ o.port
  pub port_high : o.port ≤ 65535

admitted_if : (b : Bool) → not b ≡ false → b ≡ true
admitted_if true h = refl
admitted_if false h = cc

module _ (u : Urls) where
  check_host-IsAdmitted :
      (scheme : String) (host : Option String) (port : Option ℕ) (o : Origin)
      → admitted_scheme scheme ≡ true
      → check_host u scheme host port ≡ ok o
      → IsAdmitted o
  unfolding check_host admitted_scheme
  check_host-IsAdmitted scheme none port o a e = cc
  check_host-IsAdmitted scheme (some host) none o a e = cc
  check_host-IsAdmitted scheme (some host) (some port) o a e = record {
    scheme = ground (arith, eq_iff scheme "http", eq_iff scheme "https");
    host = λ p. ground (arith, eq_iff host "");
    no_percent = ground arith;
    port_low = ground arith;
    port_high = ground arith;
  }

  parse_parts-IsAdmitted :
      (parts : Option Parts) (o : Origin) → parse_parts u parts ≡ ok o → IsAdmitted o
  unfolding parse_parts
  parse_parts-IsAdmitted none o e = cc
  parse_parts-IsAdmitted (some parts) o e =
      let scheme : String = u.lower parts.scheme in
      let host : Option String = normal_host u (u.idna (text_or_empty parts.hostname)) in
      let port : Option ℕ = port_or parts.port (default_port scheme) in
      let checked : Result OriginError Origin = check_host u scheme host port in
      let named : Result OriginError Origin =
        raise_if (missing parts.hostname) no_hostname >> checked in
      let (admitted, e₁) =
        guard_passed (not (admitted_scheme scheme)) bad_scheme
          (raise_if (present parts.username || present parts.password) userinfo >> named) e in
      let (_, e₂) =
        guard_passed (present parts.username || present parts.password) userinfo named e₁ in
      let (_, e₃) = guard_passed (missing parts.hostname) no_hostname checked e₂ in
      check_host-IsAdmitted scheme host port o (admitted_if _ admitted) e₃

  -- An origin that `parse` returns has the scheme http or https, a host that is not empty and has
  -- no percent sign, and a port from 1 to 65535.
  pub parse-IsAdmitted : (raw : String) (o : Origin) → parse u raw ≡ ok o → IsAdmitted o
  unfolding parse
  parse-IsAdmitted raw o e = parse_parts-IsAdmitted (u.urlsplit raw) o (ground arith)

  -- What a canonical mutation target comes from.
  pub record Target (raw canonical : String) : Type 0 where
    pub parts : Parts
    pub origin : Origin
    pub split : u.urlsplit raw ≡ some parts
    pub parsed : parse u raw ≡ ok origin
    pub admitted : IsAdmitted origin
    pub scheme : (parts.scheme ≡ "http") ⊎ (parts.scheme ≡ "https")
    pub hostname : (name : String) × (parts.hostname ≡ some name) × (name ≢ "")
    pub no_username : (parts.username ≡ none) ⊎ (parts.username ≡ some "")
    pub no_password : (parts.password ≡ none) ⊎ (parts.password ≡ some "")
    pub no_fragment : parts.fragment ≡ ""
    pub origin_parts : Parts
    pub resplit : u.urlsplit (serialize u origin) ≡ some origin_parts
    pub path : String
    pub same_path : parts.path ≢ "" → path ≡ parts.path
    pub root_path : parts.path ≡ "" → path ≡ "/"
    pub rebuilt : canonical ≡ u.urlunsplit origin_parts.scheme origin_parts.netloc path parts.query

  host_named : (t : Option String) → missing t ≡ false → (s : String) × (t ≡ some s) × (s ≢ "")
  unfolding missing
  host_named none h = absurd (ground arith)
  host_named (some s) h = (s, refl, λ e. absurd (ground (arith, eq_iff s "")))

  unnamed : (t : Option String) → missing t ≡ true → (t ≡ none) ⊎ (t ≡ some "")
  unfolding missing
  unnamed none h = inl refl
  unnamed (some s) h = inr (ground (arith, eq_iff s ""))

  -- What `unclean_target` has let through.
  clean_target :
      (parts : Parts)
      → unclean_target u parts ≡ false
      → ((parts.scheme ≡ "http") ⊎ (parts.scheme ≡ "https"))
        × (missing parts.hostname ≡ false)
        × (missing parts.username ≡ true)
        × (missing parts.password ≡ true)
        × (parts.fragment ≡ "")
  unfolding unclean_target admitted_scheme
  clean_target parts h = (
    ground (arith, eq_iff parts.scheme "http", eq_iff parts.scheme "https"),
    ground arith,
    ground arith,
    ground arith,
    ground (arith, eq_iff parts.fragment ""),
  )

  rebuilt-Target :
      (raw canonical : String) (parts : Parts) (origin : Origin) (resplit : Option Parts)
      → u.urlsplit raw ≡ some parts
      → parse u raw ≡ ok origin
      → unclean_target u parts ≡ false
      → u.urlsplit (serialize u origin) ≡ resplit
      → origin_url u parts resplit ≡ ok canonical
      → Target raw canonical
  unfolding origin_url
  rebuilt-Target raw canonical parts origin none s q c t e = absurd (ground arith)
  rebuilt-Target raw canonical parts origin (some again) s q c t e =
      let (scheme, host, user, word, fragment) = clean_target parts c in
      record {
        parts = parts;
        origin = origin;
        split = s;
        parsed = q;
        admitted = parse-IsAdmitted raw origin q;
        scheme = scheme;
        hostname = host_named parts.hostname host;
        no_username = unnamed parts.username user;
        no_password = unnamed parts.password word;
        no_fragment = fragment;
        origin_parts = again;
        resplit = t;
        path = if parts.path == "" then "/" else parts.path;
        same_path = λ n. ground (arith, eq_iff parts.path "");
        root_path = λ n. ground (arith, eq_iff parts.path "");
        rebuilt = ground arith;
      }

  canonical_parts-Target :
      (raw canonical : String) (p : Option Parts) (r : Result OriginError Origin)
      → u.urlsplit raw ≡ p
      → parse u raw ≡ r
      → canonical_parts u raw p ≡ ok canonical
      → Target raw canonical
  unfolding canonical_parts canonical_origin
  canonical_parts-Target raw canonical none r s q e = cc
  canonical_parts-Target raw canonical (some parts) (err x) s q e = absurd (ground arith)
  canonical_parts-Target raw canonical (some parts) (ok origin) s q e =
      rebuilt-Target raw canonical parts origin (u.urlsplit (serialize u origin)) s q (ground arith)
        refl (ground arith)

  -- A mutation target is canonical only if its text splits into parts with the scheme http or https,
  -- a host name, no user name, no password and no fragment, and has an admitted origin. It is then
  -- put together from the scheme and the location that the text of that origin splits into, the path
  -- of the target, which is `/` where it has none, and its query.
  pub canonical_http_url-Target :
      (raw canonical : String) → canonical_http_url u raw ≡ ok canonical → Target raw canonical
  unfolding canonical_http_url
  canonical_http_url-Target raw canonical e =
      canonical_parts-Target raw canonical (u.urlsplit raw) (parse u raw) refl refl (ground arith)

  same_websocket-scheme :
      (scheme : String) (host : Option String) (port : Option ℕ) (allowed : Origin)
      → same_websocket u scheme host port allowed ≡ true
      → scheme ≡ websocket_scheme u allowed
  unfolding same_websocket
  same_websocket-scheme scheme none port allowed e = cc
  same_websocket-scheme scheme (some host) none allowed e = cc
  same_websocket-scheme scheme (some host) (some port) allowed e =
      ground (arith, eq_iff scheme (websocket_scheme u allowed))

  secure_iff :
      (scheme : String) (allowed : Origin)
      → scheme ≡ websocket_scheme u allowed
      → (scheme ≡ "wss") ↔ (allowed.scheme ≡ "https")
  secure_iff scheme allowed e = ground (arith, eq_iff allowed.scheme "https", eq_iff "ws" "wss")

  websocket_parts-secure :
      (p : Option Parts) (allowed : Origin)
      → websocket_parts u p allowed ≡ true
      → (parts : Parts) × (p ≡ some parts)
        × ((parts.scheme ≡ "wss") ↔ (allowed.scheme ≡ "https"))
        × (parts.username ≡ none)
        × (parts.password ≡ none)
  unfolding websocket_parts
  websocket_parts-secure none allowed e = cc
  websocket_parts-secure (some parts) allowed e = (
    parts,
    refl,
    secure_iff parts.scheme allowed (
        same_websocket-scheme parts.scheme (normal_host u (u.idna (text_or_empty parts.hostname)))
          (port_or parts.port (if parts.scheme == "wss" then 443 else 80)) allowed (ground arith)),
    ground arith,
    ground arith,
  )

  -- A websocket address is of an allowed origin only if it is secure exactly when that origin is,
  -- and carries no user name and no password.
  pub same_websocket_origin-secure :
      (raw : String) (allowed : Origin)
      → same_websocket_origin u raw allowed ≡ true
      → (parts : Parts) × (u.urlsplit raw ≡ some parts)
        × ((parts.scheme ≡ "wss") ↔ (allowed.scheme ≡ "https"))
        × (parts.username ≡ none)
        × (parts.password ≡ none)
  unfolding same_websocket_origin
  same_websocket_origin-secure raw allowed e = websocket_parts-secure (u.urlsplit raw) allowed e
