-- ===== src/Browser/Origin.antt =====
-- src/aios_tools/browser/origin.py, and `canonical_http_url` of src/aios_tools/browser/mutation.py.
-- What they use of `urllib`, `ipaddress`, the IDNA codec and case folding is the interface `Urls`.
pub mod Admitted
pub mod Tests
use Prim.Native.Char.{code}
use Prim.Native.String.{[], ◌∷◌, ◌++◌}
use aios_tools.Prelude.{
  ℕ, zero, suc, String, Bool, true, false, not, ◌&&◌, ◌||◌, Option, none, some, leb, ◌==◌, nat_eq,
  string_eq, if◌then◌else◌, Result, ok, err, raise_if, ◌>>=◌, ◌>>◌, is_blank,
}

-- `parts.port`: reading it raises where the text is no port.
pub data PortField : Type 0 where
  invalid absent : PortField
  given : ℕ → PortField

-- The result of `urlsplit`.
pub record Parts : Type 0 where
  pub scheme : String
  pub netloc : String
  pub username : Option String
  pub password : Option String
  pub hostname : Option String
  pub port : PortField
  pub path : String
  pub query : String
  pub fragment : String

pub record Urls : Type 0 where
  -- `none` is a `ValueError`
  pub urlsplit : String → Option Parts
  pub urlunsplit : String → String → String → String → String
  -- `s.encode("idna").decode("ascii")`; `none` is a `UnicodeError`
  pub idna : String → Option String
  pub lower : String → String
  -- `ipaddress.ip_address(host).version == 6`; false where that raises
  pub is_ipv6 : String → Bool
  -- `f"{port}"`
  pub show_port : ℕ → String

-- The messages of `OriginValidationError`.
pub data OriginError : Type 0 where
  empty_target invalid_url bad_scheme userinfo no_hostname bad_host_or_port : OriginError

-- `MUTATION_TARGET_INVALID`, or the `ValueError` of `urlsplit`, which nothing catches.
pub data TargetError : Type 0 where
  target_invalid target_unsplittable : TargetError

pub record Origin : Type 0 where
  pub scheme : String
  pub host : String
  pub port : ℕ

-- `s.rstrip(".")`
rstrip_dots : String → String
rstrip_dots [] = []
rstrip_dots (c ∷ s) =
    let rest = rstrip_dots s in if rest == "" && code c == 46 then [] else c ∷ rest

-- `"%" in s`
pub has_percent : String → Bool
has_percent [] = false
has_percent (c ∷ s) = code c == 37 || has_percent s

-- `port or default`: port zero counts as none
port_or : PortField → ℕ → Option ℕ
port_or invalid default = none
port_or absent default = some default
port_or (given zero) default = some default
port_or (given (suc p)) default = some (suc p)

present : Option String → Bool
present none = false
present (some _) = true

-- `not s` of a text that may be missing
missing : Option String → Bool
missing none = true
missing (some s) = s == ""

text_or_empty : Option String → String
text_or_empty none = ""
text_or_empty (some s) = s

pub admitted_scheme : String → Bool
admitted_scheme s = s == "http" || s == "https"

abbrev pub default_port : String → ℕ
default_port scheme = if scheme == "https" then 443 else 80

module _ (u : Urls) where
  open u use {urlsplit, urlunsplit, idna, lower, is_ipv6, show_port}

  -- `parsed.hostname.encode("idna").decode("ascii").rstrip(".").lower()`
  normal_host : Option String → Option String
  unfolding rstrip_dots
  normal_host none = none
  normal_host (some ascii) = some (lower (rstrip_dots ascii))

  check_host : String → Option String → Option ℕ → Result OriginError Origin
  unfolding has_percent
  check_host scheme none _ = err bad_host_or_port
  check_host scheme (some host) none = err bad_host_or_port
  check_host scheme (some host) (some port) =
      if host == "" || has_percent host || not (leb 1 port && leb port 65535)
      then err bad_host_or_port
      else ok (record { scheme = scheme; host = host; port = port })

  parse_parts : Option Parts → Result OriginError Origin
  unfolding port_or present missing text_or_empty admitted_scheme normal_host check_host
  parse_parts none = err invalid_url
  parse_parts (some parts) = do
    let scheme = lower parts.scheme
    raise_if (not (admitted_scheme scheme)) bad_scheme
    raise_if (present parts.username || present parts.password) userinfo
    raise_if (missing parts.hostname) no_hostname
    check_host scheme (normal_host (idna (text_or_empty parts.hostname)))
        (port_or parts.port (default_port scheme))

  unfoldable pub parse : String → Result OriginError Origin
  unfolding parse_parts
  parse raw = do raise_if (is_blank raw) empty_target; parse_parts (urlsplit raw)

  unfoldable pub serialize : Origin → String
  serialize o =
      (o.scheme ++ "://" ++ (if is_ipv6 o.host then "[" ++ o.host ++ "]" else o.host))
      ++ (if o.port == default_port o.scheme then "" else ":" ++ show_port o.port)

  -- `websocket_tuple`
  abbrev websocket_scheme : Origin → String
  websocket_scheme o = if o.scheme == "https" then "wss" else "ws"

  same_origin : Result OriginError Origin → Origin → Bool
  same_origin (ok o) allowed =
      o.scheme == allowed.scheme && o.host == allowed.host && o.port == allowed.port
  same_origin (err _) allowed = false

  unfoldable pub same_http_origin : String → Origin → Bool
  unfolding same_origin
  same_http_origin raw allowed = same_origin (parse raw) allowed

  same_websocket : String → Option String → Option ℕ → Origin → Bool
  same_websocket scheme (some host) (some port) allowed =
      scheme == websocket_scheme allowed && host == allowed.host && port == allowed.port
  same_websocket scheme _ _ allowed = false

  websocket_parts : Option Parts → Origin → Bool
  unfolding same_websocket port_or present missing text_or_empty normal_host
  websocket_parts none allowed = false
  websocket_parts (some parts) allowed =
      if not (parts.scheme == "ws" || parts.scheme == "wss")
        || present parts.username
        || present parts.password
        || missing parts.hostname
      then false
      else same_websocket parts.scheme (normal_host (idna (text_or_empty parts.hostname)))
          (port_or parts.port (if parts.scheme == "wss" then 443 else 80)) allowed

  unfoldable pub same_websocket_origin : String → Origin → Bool
  unfolding websocket_parts
  same_websocket_origin raw allowed = websocket_parts (urlsplit raw) allowed

  -- The parts that `canonical_http_url` refuses before it parses the origin.
  unclean_target : Parts → Bool
  unfolding missing admitted_scheme
  unclean_target parts =
      not (admitted_scheme parts.scheme)
      || missing parts.hostname
      || not (missing parts.username)
      || not (missing parts.password)
      || not (parts.fragment == "")

  -- The second `urlsplit`, of the serialized origin, raises as the first does.
  origin_url : Parts → Option Parts → Result TargetError String
  origin_url parts none = err target_unsplittable
  origin_url parts (some origin) = ok (
      urlunsplit origin.scheme origin.netloc (if parts.path == "" then "/" else parts.path)
        parts.query)

  canonical_origin : Parts → Result OriginError Origin → Result TargetError String
  unfolding origin_url
  canonical_origin parts (err _) = err target_invalid
  canonical_origin parts (ok origin) = origin_url parts (urlsplit (serialize origin))

  canonical_parts : String → Option Parts → Result TargetError String
  unfolding unclean_target canonical_origin
  canonical_parts raw none = err target_unsplittable
  canonical_parts raw (some parts) =
      if unclean_target parts then err target_invalid else canonical_origin parts (parse raw)

  unfoldable pub canonical_http_url : String → Result TargetError String
  unfolding canonical_parts
  canonical_http_url raw =
      if raw == "" then err target_invalid else canonical_parts raw (urlsplit raw)
