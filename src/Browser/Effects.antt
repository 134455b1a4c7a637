-- ===== src/Browser/Effects.antt =====
-- src/aios_tools/browser/effects_runtime.py: what a remote mutation is checked for before it is sent,
-- and its reads of the remote state. The network, the resolver, and what Playwright and the session
-- store answer are the interface `Net`; the requests sent so far are a list, the oldest first.
pub mod Check
pub mod Plan
pub mod Sent
pub mod Mutate
pub mod Reversible
pub mod Sample
use aios_tools.Prelude.{
  ℕ, suc, String, Bool, true, false, not, ◌&&◌, ◌||◌, Option, none, some, List, [], ◌∷◌, ◌++◌, leb,
  ltb, length, contains, string_eq, nat_eq, ◌==◌, if◌then◌else◌, Result, ok, err, raise_if, ◌>>=◌,
  ◌>>◌,
}
use aios_tools.Prelude.Dict.{Dict}
use aios_tools.Prelude.Json.{
  Json, null, boolean, number, text, array, object, Fields, end, field, Items, get, has_field,
  as_text, as_object, as_int, named_texts,
}
use aios_tools.Prelude.Sets.{is_subset}
use aios_tools.Browser.Origin.{Origin, OriginError, parse, serialize}
use aios_tools.Browser.Mutation.Approval.{
  MutationError, Host, Grant, is_mutating_method, method_of, canonical_target,
}

pub data EffectError : Type 0 where
  policy : MutationError → EffectError
  -- the codes of a `BrowserEffectExecutionError`
  target_blocked prepost_mismatch : EffectError
  -- an `OriginValidationError` of the resolved addresses
  not_public : EffectError
  runtime_unavailable : EffectError
  -- an exception of Playwright or of the session store
  transport : EffectError
  -- a `ValueError`
  unsupported_fields method_not_admitted key_required timeout_invalid status_required
        headers_not_object header_not_text header_sensitive header_budget body_budget
        body_not_serializable check_required check_crosses_origin check_status_invalid
        rollback_invalid session_not_object identity_required capabilities_invalid :
      EffectError

pub data Request : Type 0 where
  read : (url : String) (timeout_ms : ℕ) → Request
  change :
      (url method : String) (body : Json) (headers : Dict String String) (timeout_ms : ℕ) → Request

pub record Response : Type 0 where
  pub status : ℕ
  -- `none` where it is no JSON
  pub json : Option Json

pub record Net : Type 0 where
  pub host : Host
  -- The answer to a request, after those sent before it; `none` is an exception.
  pub respond : List Request → Request → Option Response
  -- Whether each address of an origin is global; `none` where none is found.
  pub addresses : Origin → Option (List Bool)
  pub allow_private_fixture : Bool
  -- `len(json.dumps(value).encode())`; `none` is an exception
  pub json_size : Json → Option ℕ
  -- `==` of values
  pub equal : Json → Json → Bool
  pub fingerprint : String → String
  -- `sha256(s).hexdigest()`, which the fingerprint has after its prefix
  pub hexdigest : String → String
  -- Whether Playwright can be imported, and starts a browser.
  pub installed : Bool
  pub launched : Bool
  -- A context without a session, and one restored from it, with the receipt of the session.
  pub fresh_context : Bool
  pub restored_context : Fields → String → String → Option String
  -- Whether a number that is no natural number is an `int`.
  pub other_number_is_int : Bool

sensitive_headers : List String
sensitive_headers =
    "authorization" ∷ "cookie" ∷ "proxy-authorization" ∷ "set-cookie" ∷ "host" ∷ "content-length"
    ∷ []

count_fields : Fields → ℕ
count_fields end = 0
count_fields (field key value rest) = suc (count_fields rest)

count_chars : String → ℕ
count_chars String.[] = 0
count_chars (String.◌∷◌ c s) = suc (count_chars s)

text_or : EffectError → Option String → Result EffectError String
text_or e none = err e
text_or e (some s) = ok s

int_or : EffectError → Option ℕ → Result EffectError ℕ
int_or e none = err e
int_or e (some n) = ok n

object_or : EffectError → Option Fields → Result EffectError Fields
object_or e none = err e
object_or e (some fields) = ok fields

policy_or : Result MutationError String → Result EffectError String
policy_or (ok s) = ok s
policy_or (err e) = err (policy e)

blocked_or : Result OriginError Origin → Result EffectError Origin
blocked_or (ok origin) = ok origin
blocked_or (err e) = err target_blocked

-- A range check as in `isinstance(value, int) and first <= value <= last`
unfoldable pub int_between : ℕ → ℕ → Json → EffectError → Result EffectError ℕ
unfolding int_or
int_between first last value e = do
  n ← int_or e (as_int value)
  raise_if (not (leb first n && leb n last)) e
  ok n

all_global : List Bool → Bool
all_global [] = true
all_global (g ∷ gs) = g && all_global gs

public_addresses : Option (List Bool) → Result EffectError Unit
unfolding all_global
public_addresses none = err not_public
public_addresses (some flags) = raise_if (not (all_global flags)) not_public

-- `payload.get("timeout_seconds", 30)`
timeout_value : Fields → Json
timeout_value payload =
    if has_field "timeout_seconds" payload then get "timeout_seconds" payload else number 30

module _ (net : Net) where
  open net use {host, respond, addresses, allow_private_fixture, json_size, equal, fingerprint}

  -- `_origin`
  unfoldable pub origin_of : String → Result EffectError String
  unfolding blocked_or
  origin_of raw = do origin ← blocked_or (parse host.urls raw); ok (serialize host.urls origin)

  -- `assert_public_origin`, for the origin of a text
  assert_public : Result OriginError Origin → Result EffectError Unit
  unfolding blocked_or public_addresses
  assert_public parsed = do origin ← blocked_or parsed; public_addresses (addresses origin)

  -- `_assert_target`
  unfoldable pub assert_target : String → Result EffectError String
  unfolding assert_public
  assert_target raw = do
    normalized ← origin_of raw
    if allow_private_fixture then ok tt else assert_public (parse host.urls raw)
    ok normalized

  -- `_same_origin`
  unfoldable pub same_origin : String → String → Result EffectError Bool
  same_origin first second = do one ← origin_of first; two ← origin_of second; ok (one == two)

  header_list : Fields → Result EffectError (Dict String String)
  unfolding sensitive_headers count_chars text_or
  header_list end = ok []
  header_list (field key value rest) = do
    raw ← text_or header_not_text (as_text value)
    raise_if (contains sensitive_headers (host.urls.lower key)) header_sensitive
    raise_if (ltb 128 (count_chars key) || ltb 4096 (count_chars raw)) header_budget
    others ← header_list rest
    ok ((key, raw) ∷ others)

  -- `_validate_headers`
  unfoldable pub validate_headers : Json → Result EffectError (Dict String String)
  unfolding header_list count_fields
  validate_headers null = ok []
  validate_headers (object fields) = do
    raise_if (ltb 32 (count_fields fields)) headers_not_object
    header_list fields
  validate_headers _ = err headers_not_object

  sized_body : Json → Option ℕ → Result EffectError Json
  sized_body value none = err body_not_serializable
  sized_body value (some size) = do raise_if (ltb 65536 size) body_budget; ok value

  -- `_validate_json_body`
  unfoldable pub validate_json_body : Json → Result EffectError Json
  unfolding sized_body
  validate_json_body null = ok null
  validate_json_body value = sized_body value (json_size value)
