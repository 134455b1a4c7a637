-- ===== src/Browser/Capture.antt =====
-- src/aios_tools/browser/session_capture.py: `build_session_capture_grant` and
-- `SessionCaptureGrant.consume`. What the standard library does with addresses, dates, digests and
-- the order of texts enters as `Host` and `Origins`.
use Prim.Native.Char.{code}
use aios_tools.Prelude.{
  ℕ, String, Bool, true, false, not, ◌&&◌, ◌||◌, ◌-◌, Option, none, some, List, [], ◌∷◌, leb, ltb,
  length, string_eq, nat_eq, ◌==◌, if◌then◌else◌, Result, ok, err, raise_if, ◌>>=◌, ◌>>◌, is_ascii,
  is_blank,
}
use aios_tools.Prelude.Json.{
  Json, text, array, Fields, Items, no_items, item, get, has_field, is_true, as_text, as_object,
}
use aios_tools.Governance.Policy.{hex_digits}
use aios_tools.Browser.Origin.{OriginError, Origin, parse, serialize}
use aios_tools.Browser.Mutation.Approval.{
  Host, IsoTime, malformed, naive, out_of_range, instant, is_compact_id, high_impact, horizon,
}

-- The codes of a `SessionCapturePolicyError`; `type_error` is the `TypeError` of
-- `hmac.compare_digest` on texts beyond ASCII.
pub data CaptureError : Type 0 where
  effect_class_blocked session_origin_invalid session_identity_invalid auth_capture_key_required
        takeover_origin_blocked approval_required approval_scope_mismatch approval_invalid
        approval_expired auth_capture_grant_consumed type_error overflow_error :
      CaptureError

pub record CaptureGrant : Type 0 where
  pub request_id : String
  pub tool : String
  pub scope : String
  pub target_origin : String
  pub identity_context_fingerprint : String
  pub transition_origins : List String
  pub approval_id : String
  pub approved_by : String
  pub capture_key : String
  pub expires_at : ℕ
  pub consumed : Bool

pub record Origins : Type 0 where
  -- `sorted(set(texts))`
  pub sorted_set : List String → List String
  -- `_transition_digest`
  pub transition_digest : List String → String

-- The rest of a text after a prefix.
after_prefix : String → String → Option String
after_prefix String.[] s = some s
after_prefix (String.◌∷◌ c prefix) String.[] = none
after_prefix (String.◌∷◌ c prefix) (String.◌∷◌ d s) =
    let rest = after_prefix prefix s in if code c == code d then rest else none

is_hex_rest : Option String → Bool
is_hex_rest none = false
is_hex_rest (some s) = hex_digits 0 s

-- `_IDENTITY_RE.fullmatch`
unfoldable pub is_identity : String → Bool
unfolding after_prefix is_hex_rest
is_identity s = is_hex_rest (after_prefix "sha256:" s)

require : (String → Bool) → CaptureError → Option String → Result CaptureError String
require test e none = err e
require test e (some s) = if test s then ok s else err e

cons_text : String → Option (List String) → Option (List String)
cons_text s none = none
cons_text s (some ss) = some (s ∷ ss)

texts_of : Items → Option (List String)
unfolding cons_text
texts_of no_items = some []
texts_of (item (text s) rest) = cons_text s (texts_of rest)
texts_of (item _ rest) = none

-- The transition origins of a payload: at most eight texts, none where the key is missing.
transition_texts : Option (List String) → Result CaptureError (List String)
transition_texts none = err takeover_origin_blocked
transition_texts (some ss) = if leb (length ss) 8 then ok ss else err takeover_origin_blocked

transitions_value : Json → Result CaptureError (List String)
unfolding texts_of transition_texts
transitions_value (array items) = transition_texts (texts_of items)
transitions_value _ = err takeover_origin_blocked

transitions_raw : Fields → Result CaptureError (List String)
unfolding transitions_value
transitions_raw payload =
    if has_field "explicit_transition_origins" payload
    then transitions_value (get "explicit_transition_origins" payload)
    else ok []

check_expiry : IsoTime → ℕ → Result CaptureError ℕ
check_expiry malformed now = err approval_invalid
check_expiry naive now = err approval_invalid
check_expiry out_of_range now = err overflow_error
check_expiry (instant expires) now = do
  raise_if (leb expires now) approval_expired
  raise_if (ltb horizon (expires - now)) approval_invalid
  ok expires

check_field : Option String → String → Result CaptureError Unit
check_field none expected = err approval_scope_mismatch
check_field (some actual) expected = do
  raise_if (not (is_ascii actual && is_ascii expected)) type_error
  raise_if (not (actual == expected)) approval_scope_mismatch

-- The loop over `exact`.
pub check_exact : List (String × String) → Fields → Result CaptureError Unit
unfolding check_field
check_exact [] approval = ok tt
check_exact ((name, expected) ∷ rest) approval =
    check_field (as_text (get name approval)) expected >> check_exact rest approval

approved_object : Option Fields → Result CaptureError Fields
approved_object none = err approval_required
approved_object (some approval) =
    if is_true (get "approved" approval) then ok approval else err approval_required

module _ (host : Host) (origins : Origins) where
  printed : Result OriginError Origin → Result CaptureError String
  printed (ok origin) = ok (serialize host.urls origin)
  printed (err _) = err session_origin_invalid

  normalized_origin : String → Result CaptureError String
  unfolding printed
  normalized_origin raw = printed (parse host.urls raw)

  expiry_of : Option String → ℕ → Result CaptureError ℕ
  unfolding check_expiry
  expiry_of none now = err approval_invalid
  expiry_of (some s) now = check_expiry (host.iso_time s) now

  -- The origins other than the target's.
  other_origins : String → List String → Result CaptureError (List String)
  unfolding normalized_origin
  other_origins target [] = ok []
  other_origins target (raw ∷ rest) = do
    origin ← normalized_origin raw
    others ← other_origins target rest
    ok (if origin == target then others else origin ∷ others)

  exact_fields :
      String → String → String → String → String → List String → String → List (String × String)
  exact_fields tool scope effect_class target identity transitions capture_key =
      ("tool", tool)
      ∷ ("scope", scope)
      ∷ ("effect_class", effect_class)
      ∷ ("target_origin", target)
      ∷ ("identity_context_fingerprint", identity)
      ∷ ("transition_origins_fingerprint", origins.transition_digest transitions)
      ∷ ("capture_key", capture_key)
      ∷ []

  unfoldable pub build_session_capture_grant :
      String → String → String → String → Fields → Fields → ℕ → Result CaptureError CaptureGrant
  unfolding require transitions_raw expiry_of normalized_origin other_origins exact_fields
      approved_object
  build_session_capture_grant request_id tool scope effect_class payload authority_context now = do
    raise_if (not (effect_class == high_impact)) effect_class_blocked
    url ← require (λ s. not (s == "")) session_origin_invalid (as_text (get "url" payload))
    target ← normalized_origin url
    identity ←
        require is_identity session_identity_invalid
          (as_text (get "identity_context_fingerprint" payload))
    capture_key ←
        require is_compact_id auth_capture_key_required (as_text (get "capture_key" payload))
    raw ← transitions_raw payload
    others ← other_origins target raw
    let transitions = origins.sorted_set others
    approval ← approved_object (as_object (get "approval" authority_context))
    check_exact (exact_fields tool scope effect_class target identity transitions capture_key)
        approval
    raise_if
        (not (is_true (get "one_shot" approval)) || not (is_true (get "high_impact_ack" approval)))
        approval_required
    approval_id ← require is_compact_id approval_invalid (as_text (get "approval_id" approval))
    approved_by ←
        require (λ s. not (is_blank s)) approval_invalid (as_text (get "approved_by" approval))
    expires ← expiry_of (as_text (get "expires_at" approval)) now
    ok (record {
      request_id = request_id;
      tool = tool;
      scope = scope;
      target_origin = target;
      identity_context_fingerprint = identity;
      transition_origins = transitions;
      approval_id = approval_id;
      approved_by = approved_by;
      capture_key = capture_key;
      expires_at = expires;
      consumed = false;
    })

-- A call that raises leaves the grant as it is.
unfoldable pub consume : ℕ → CaptureGrant → Result CaptureError CaptureGrant
consume now grant = do
  raise_if grant.consumed auth_capture_grant_consumed
  raise_if (leb grant.expires_at now) approval_expired
  ok (record grant { consumed = true })
