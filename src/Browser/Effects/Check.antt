-- ===== src/Browser/Effects/Check.antt =====
-- src/aios_tools/browser/effects_runtime.py: `_readcheck`, a read of the remote state before and
-- after a mutation, and `_new_context`.
pub mod Passed
use aios_tools.Prelude.{
  ℕ, String, Bool, true, false, not, ◌&&◌, Option, none, some, List, [], ◌∷◌, ◌++◌, string_eq,
  nat_eq, ◌==◌, if◌then◌else◌, Result, ok, err, raise_if, ◌>>=◌, ◌>>◌,
}
use aios_tools.Prelude.Json.{
  Json, null, text, array, object, Fields, end, field, Items, no_items, item, get, has_field,
  as_text, as_object, as_array,
}
use aios_tools.Browser.Mutation.Approval.{canonical_target}
use aios_tools.Browser.Effects.{
  EffectError, prepost_mismatch, transport, check_crosses_origin, check_status_invalid,
  session_not_object, identity_required, capabilities_invalid, Request, read, Response, Net,
  text_or, object_or, policy_or, int_between, same_origin,
}

-- What a read of the state found.
pub record CheckReceipt : Type 0 where
  pub url_fingerprint : String
  pub status : ℕ
  pub json_subset_verified : Bool

response_or : Option Response → Result EffectError Response
response_or none = err transport
response_or (some response) = ok response

json_or : Option Json → Result EffectError Json
json_or none = err prepost_mismatch
json_or (some value) = ok value

all_texts : Items → Bool
all_texts no_items = true
all_texts (item (text s) rest) = all_texts rest
all_texts (item _ rest) = false

texts_list : Option Items → Bool
unfolding all_texts
texts_list none = false
texts_list (some items) = all_texts items

module _ (net : Net) where
  open net use {host, respond, equal, hexdigest}

  -- `_check_subset`
  unfoldable mutual
    pub check_subset : Json → Json → Bool
    check_subset actual (object expected) = fields_subset (as_object actual) expected
    check_subset actual expected = equal actual expected

    fields_subset : Option Fields → Fields → Bool
    fields_subset none end = false
    fields_subset none (field key value rest) = false
    fields_subset (some actual) end = true
    fields_subset (some actual) (field key value rest) =
        has_field key actual
        && check_subset (get key actual) value
        && fields_subset (some actual) rest

  -- The URL and the status that a check asks for.
  unfoldable pub check_request : Fields → String → Result EffectError (String × ℕ)
  unfolding text_or policy_or
  check_request check target_origin = do
    raw ← text_or check_crosses_origin (as_text (get "url" check))
    same ← same_origin net raw target_origin
    raise_if (not same) check_crosses_origin
    status ← int_between 100 599 (get "expected_status" check) check_status_invalid
    url ← policy_or (canonical_target host (some raw))
    ok (url, status)

  is_null : Json → Bool
  is_null null = true
  is_null _ = false

  -- The state that a response shows, against the one that a check expects.
  checked_response : String → ℕ → Json → Option Response → Result EffectError CheckReceipt
  unfolding response_or json_or is_null
  checked_response url expected_status expected_json answer = do
    response ← response_or answer
    raise_if (not (response.status == expected_status)) prepost_mismatch
    if is_null expected_json then ok tt else (do
      actual ← json_or response.json
      raise_if (not (check_subset actual expected_json)) prepost_mismatch)
    ok (record {
      url_fingerprint = hexdigest url;
      status = response.status;
      json_subset_verified = not (is_null expected_json);
    })

  unfoldable pub sent_check :
      Fields
      → ℕ
      → List Request
      → Result EffectError (String × ℕ)
      → Result EffectError CheckReceipt × List Request
  unfolding checked_response
  sent_check check timeout_ms sent (err e) = (err e, sent)
  sent_check check timeout_ms sent (ok (url, status)) = (
    checked_response url status (get "expected_json_subset" check)
        (respond sent (read url timeout_ms)),
    sent ++ read url timeout_ms ∷ [],
  )

  -- `_readcheck`, with the requests sent after it
  unfoldable pub readcheck :
      Fields → String → ℕ → List Request → Result EffectError CheckReceipt × List Request
  unfolding sent_check
  readcheck check target_origin timeout_ms sent =
      sent_check check timeout_ms sent (check_request check target_origin)

  restored_or : Option String → Result EffectError (Option String)
  restored_or none = err transport
  restored_or (some receipt) = ok (some receipt)

  required_of : Fields → Json
  required_of session =
      if has_field "required_capabilities" session
      then get "required_capabilities" session
      else array no_items

  -- `_new_context`: the receipt of the restored session
  unfoldable pub new_context : Json → String → String → Result EffectError (Option String)
  unfolding restored_or required_of text_or object_or texts_list
  new_context null url owner = do raise_if (not net.fresh_context) transport; ok none
  new_context value url owner = do
    session ← object_or session_not_object (as_object value)
    identity ← text_or identity_required (as_text (get "identity_context_fingerprint" session))
    raise_if (not (texts_list (as_array (required_of session)))) capabilities_invalid
    restored_or (net.restored_context session url owner)
