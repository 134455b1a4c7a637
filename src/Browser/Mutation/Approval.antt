-- ===== src/Browser/Mutation/Approval.antt =====
-- src/aios_tools/browser/mutation.py: `build_mutation_grant` and `MutationGrant.consume`. Times are
-- microseconds, the resolution of `datetime`. What the code calls of the standard library and has
-- no definition here (address splitting, case folding, `str`, JSON digests, ISO dates) is `Host`.
pub mod Bound
pub mod Once
pub mod Tests
use Prim.Native.Char.{code}
use aios_tools.Prelude.{
  ℕ, suc, ◌+◌, ◌-◌, String, [], ◌∷◌, Bool, true, false, not, ◌&&◌, ◌||◌, Option, none, some, List,
  leb, ltb, ◌==◌, nat_eq, string_eq, if◌then◌else◌, Result, ok, err, raise_if, ◌>>=◌, ◌>>◌,
  is_ascii, is_blank,
}
use aios_tools.Prelude.Json.{
  Json, null, Fields, object, get, has_field, is_text, is_true, as_text, as_object,
}
use aios_tools.Browser.Origin.{
  Urls, TargetError, target_invalid, target_unsplittable, canonical_http_url,
}

-- The codes of a `MutationPolicyError`; `invalid_status` and `value_error` are a `ValueError`,
-- `type_error` is the `TypeError` of `hmac.compare_digest` on texts beyond ASCII, `overflow_error` the
-- `OverflowError` of `astimezone`.
pub data MutationError : Type 0 where
  effect_class_blocked mutation_method_blocked mutation_idempotency_required mutation_target_invalid
        mutation_input_invalid approval_required approval_invalid approval_expired
        approval_scope_mismatch approval_target_mismatch approval_method_mismatch
        approval_idempotency_mismatch rollback_required mutation_permit_consumed
        mutation_duplicate_blocked mutation_ledger_missing invalid_status value_error type_error
        overflow_error :
      MutationError

-- `datetime.fromisoformat`: an error, a time with no zone, one that `astimezone` cannot bring to UTC
-- as it leaves the years 1 to 9999 there, or an instant.
pub data IsoTime : Type 0 where
  malformed naive out_of_range : IsoTime
  instant : ℕ → IsoTime

pub record Host : Type 0 where
  pub urls : Urls
  pub upper : String → String
  -- `str(value)`
  pub show : Json → String
  -- `datetime.fromisoformat(value.replace("Z", "+00:00"))`
  pub iso_time : String → IsoTime
  -- `mutation_contract_fingerprint`; `none` where the value has no JSON text
  pub contract_fingerprint : Json → Option String

pub record Grant : Type 0 where
  pub request_id : String
  pub tool : String
  pub scope : String
  pub effect_class : String
  pub target_url : String
  pub method : String
  pub idempotency_key : String
  pub approval_id : String
  pub approved_by : String
  pub expires_at : ℕ
  pub rollback_fingerprint : Option String
  pub consumed : Bool

-- The characters of `_COMPACT_ID_RE`.
compact_char : ℕ → Bool
compact_char c =
    leb b'A' c && leb c b'Z'
    || leb b'a' c && leb c b'z'
    || leb b'0' c && leb c b'9'
    || c == b'_'
    || c == b'.'
    || c == b':'
    || c == b'-'

compact_chars : String → Bool
unfolding compact_char
compact_chars String.[] = true
compact_chars (String.◌∷◌ c s) = compact_char (code c) && compact_chars s

abbrev count_chars : String → ℕ
count_chars String.[] = 0
count_chars (String.◌∷◌ c s) = suc (count_chars s)

-- `_COMPACT_ID_RE.fullmatch`
unfoldable pub is_compact_id : String → Bool
unfolding compact_chars
is_compact_id s = leb 1 (count_chars s) && leb (count_chars s) 128 && compact_chars s

unfoldable pub is_mutating_method : String → Bool
is_mutating_method m = m == "POST" || m == "PUT" || m == "PATCH" || m == "DELETE"

abbrev pub reversible : String
reversible = "REMOTE_MUTATION_REVERSIBLE"

abbrev pub high_impact : String
high_impact = "REMOTE_MUTATION_HIGH_IMPACT"

unfoldable pub is_remote_mutation : String → Bool
is_remote_mutation effect_class = effect_class == reversible || effect_class == high_impact

-- Fifteen minutes.
abbrev pub horizon : ℕ
horizon = 900_000_000

check_expiry : IsoTime → ℕ → Result MutationError ℕ
check_expiry malformed now = err approval_invalid
check_expiry naive now = err approval_invalid
check_expiry out_of_range now = err overflow_error
check_expiry (instant parsed) now = do
  raise_if (leb parsed now) approval_expired
  raise_if (ltb horizon (parsed - now)) approval_invalid
  ok parsed

-- A field of the approval that has to be a text.
require_text : Option String → MutationError → Result MutationError String
require_text none e = err e
require_text (some s) e = ok s

unfoldable pub raise_target : Result TargetError String → Result MutationError String
raise_target (ok s) = ok s
raise_target (err target_invalid) = err mutation_target_invalid
raise_target (err target_unsplittable) = err value_error

require_object : Option Fields → MutationError → Result MutationError Fields
require_object none e = err e
require_object (some fields) e = ok fields

-- The loop over `exact_fields`.
unfoldable pub all_match : List (String × String) → Fields → Bool
all_match [] approval = true
all_match ((name, expected) ∷ rest) approval =
    is_text (get name approval) expected && all_match rest approval

module _ (host : Host) where
  open host use {urls, upper, show, iso_time, contract_fingerprint}

  -- `str(payload.get("method", "")).upper()`
  unfoldable pub method_of : Fields → String
  method_of payload = upper (if has_field "method" payload then show (get "method" payload) else "")

  -- `payload.get("mutation_url", payload.get("url"))`
  target_raw : Fields → Json
  target_raw payload =
      if has_field "mutation_url" payload then get "mutation_url" payload else get "url" payload

  unfoldable pub canonical_target : Option String → Result MutationError String
  unfolding raise_target
  canonical_target none = err mutation_target_invalid
  canonical_target (some raw) = raise_target (canonical_http_url urls raw)

  require_id : Option String → MutationError → Result MutationError String
  require_id none e = err e
  require_id (some s) e = if is_compact_id s then ok s else err e

  require_name : Option String → MutationError → Result MutationError String
  require_name none e = err e
  require_name (some s) e = if is_blank s then err e else ok s

  expiry_of : Option String → ℕ → Result MutationError ℕ
  unfolding check_expiry
  expiry_of none now = err approval_invalid
  expiry_of (some s) now = check_expiry (iso_time s) now

  approved_object : Json → Result MutationError Fields
  unfolding require_object
  approved_object value = do
    approval ← require_object (as_object value) approval_required
    raise_if (not (is_true (get "approved" approval))) approval_required
    ok approval

  -- The rollback contract of a reversible mutation, and its fingerprint.
  rollback_of : String → Fields → Fields → Result MutationError (Option String)
  unfolding require_object require_text
  rollback_of effect_class payload approval =
      if effect_class == reversible
      then (do
        rollback ← require_object (as_object (get "rollback" payload)) rollback_required
        print ← require_text (contract_fingerprint (object rollback)) mutation_input_invalid
        raise_if (not (is_text (get "rollback_fingerprint" approval) print)) approval_scope_mismatch
        ok (some print))
      else ok none

  exact_fields : String → String → String → String → String → String → List (String × String)
  exact_fields tool scope effect_class target method key =
      ("tool", tool)
      ∷ ("scope", scope)
      ∷ ("effect_class", effect_class)
      ∷ ("target_url", target)
      ∷ ("method", method)
      ∷ ("idempotency_key", key)
      ∷ []

  unfoldable pub build_mutation_grant :
      String → String → String → String → Fields → Fields → ℕ → Result MutationError Grant
  unfolding method_of target_raw canonical_target require_id require_name expiry_of approved_object
      rollback_of exact_fields
  build_mutation_grant request_id tool scope effect_class payload authority_context now = do
    raise_if (not (is_remote_mutation effect_class)) effect_class_blocked
    let method = method_of payload
    raise_if (not (is_mutating_method method)) mutation_method_blocked
    key ← require_id (as_text (get "idempotency_key" payload)) mutation_idempotency_required
    target ← canonical_target (as_text (target_raw payload))
    approval ← approved_object (get "approval" authority_context)
    raise_if (not (all_match (exact_fields tool scope effect_class target method key) approval))
        approval_scope_mismatch
    approval_id ← require_id (as_text (get "approval_id" approval)) approval_invalid
    approved_by ← require_name (as_text (get "approved_by" approval)) approval_invalid
    raise_if (not (is_true (get "one_shot" approval))) approval_invalid
    raise_if (effect_class == high_impact && not (is_true (get "high_impact_ack" approval)))
        approval_required
    rollback_fingerprint ← rollback_of effect_class payload approval
    expires_at ← expiry_of (as_text (get "expires_at" approval)) now
    ok (record {
      request_id = request_id;
      tool = tool;
      scope = scope;
      effect_class = effect_class;
      target_url = target;
      method = method;
      idempotency_key = key;
      approval_id = approval_id;
      approved_by = approved_by;
      expires_at = expires_at;
      rollback_fingerprint = rollback_fingerprint;
      consumed = false;
    })

  -- A call that raises leaves the grant as it is.
  unfoldable pub consume : String → String → String → ℕ → Grant → Result MutationError Grant
  unfolding canonical_target
  consume target_url method idempotency_key now grant = do
    raise_if grant.consumed mutation_permit_consumed
    raise_if (leb grant.expires_at now) approval_expired
    canonical ← canonical_target (some target_url)
    raise_if (not (is_ascii canonical && is_ascii grant.target_url)) type_error
    raise_if (not (canonical == grant.target_url)) approval_target_mismatch
    raise_if (not (upper method == grant.method)) approval_method_mismatch
    raise_if (not (is_ascii idempotency_key && is_ascii grant.idempotency_key)) type_error
    raise_if (not (idempotency_key == grant.idempotency_key)) approval_idempotency_mismatch
    ok (record grant { consumed = true })
