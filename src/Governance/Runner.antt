-- ===== src/Governance/Runner.antt =====
-- src/aios_tools/runner.py, `invoke`: the gates between a request and the handler of its tool.
-- The configuration files, the JSON schema of requests, the handlers, and the digests that the
-- binding of `system.health` is built from enter as `Setup`.
pub mod Approved
pub mod Gates
use aios_tools.Prelude.{
  ℕ, String, Bool, true, false, not, ◌&&◌, ◌||◌, Option, none, some, List, [], ◌∷◌, ◌++◌, contains,
  string_eq, ◌==◌, if◌then◌else◌, Result, ok, err, raise_if, ◌>>=◌, ◌>>◌, is_blank,
}
use aios_tools.Prelude.Dict.{Dict, lookup}
use aios_tools.Prelude.Json.{
  Json, null, text, object, Fields, end, get, is_text, is_true, is_false, as_text, as_object,
}
use aios_tools.Governance.Registry.{load_registry, names_of}
use aios_tools.Governance.Policy.{load_policy, lists}
use aios_tools.Browser.Policy.{BrowserError, browser_network_tool_admitted}
use aios_tools.Browser.Mutation.Approval.{Host, Grant, MutationError, build_mutation_grant}
use aios_tools.Browser.Capture.{Origins, CaptureGrant, CaptureError, build_session_capture_grant}
use aios_tools.Trust.Binding.{Binding}
use aios_tools.Trust.Evaluate.{Documents, evaluate_trust_binding}

pub record Call : Type 0 where
  pub request_id : String
  pub tool : String
  pub payload : Fields
  pub scope : String
  pub mode : String
  pub requested_by : Fields
  pub authority_context : Fields
  -- the clock
  pub now : ℕ

-- What a handler gets: the payload and the grants that the runner has built.
pub record Payload : Type 0 where
  pub fields : Fields
  pub mutation_grant : Option Grant
  pub capture_grant : Option CaptureGrant

-- The ways a handler ends: it returns, or raises a `MutationPolicyError`, a `TypeError` or
-- `ValueError`, another exception with a code, or one without.
pub data Outcome : Type 0 where
  output : Fields → Outcome
  policy_error : String → Outcome
  input_error : Outcome
  coded_error : String → Outcome
  other_error : Outcome

pub data Status : Type 0 where
  completed blocked approval_required failed : Status

pub data WriteError : Type 0 where
  write_approval_required write_approval_invalid write_approval_mismatch : WriteError

pub data Code : Type 0 where
  configuration_invalid request_invalid tool_not_registered mode_globally_blocked mode_not_allowed
        authority_transfer_blocked browser_configuration_blocked external_effect_blocked
        effect_class_not_admitted handler_not_registered trust_binding_blocked invalid_input
        internal_error :
      Code
  write_refused : WriteError → Code
  mutation_refused : MutationError → Code
  capture_refused : CaptureError → Code
  handler_code : String → Code

-- What stands in a receipt before the gates have read the configuration.
pub data Versions : Type 0 where
  unknown_versions : Versions
  versions :
      (tool_version : Json) (effect_class : String) (registry_version : String)
      (policy_version : Json)
      → Versions

pub record Receipt : Type 0 where
  pub status : Status
  pub errors : List Code
  pub versions : Versions
  pub output : Fields
  pub handler_invoked : Bool
  pub trust_id : Option String

-- A gate that stops the call: with a receipt, or by an exception that `invoke` does not catch.
pub data Stop : Type 0 where
  receipt : Receipt → Stop
  uncaught : Stop

refuse : Versions → Status → Code → Stop
refuse v status code = receipt (record {
  status = status;
  errors = code ∷ [];
  versions = v;
  output = end;
  handler_invoked = false;
  trust_id = none;
})

-- `approval.get(key) in (None, expected)`
none_or : Json → String → Bool
none_or null expected = true
none_or value expected = is_text value expected

named : Option String → Bool
named none = false
named (some s) = not (is_blank s)

approval_error : Option Fields → String → String → Result WriteError Unit
unfolding none_or named
approval_error none tool scope = err write_approval_required
approval_error (some approval) tool scope = do
  raise_if (not (is_true (get "approved" approval))) write_approval_required
  raise_if (not (named (as_text (get "approved_by" approval)))) write_approval_invalid
  raise_if (not (none_or (get "tool" approval) tool)) write_approval_mismatch
  raise_if (not (none_or (get "scope" approval) scope)) write_approval_mismatch

-- `_write_approval_error`
unfoldable pub write_approval_error : Fields → String → String → Result WriteError Unit
unfolding approval_error
write_approval_error authority_context tool scope =
    approval_error (as_object (get "approval" authority_context)) tool scope

-- `approval_codes`
is_approval_code : MutationError → Bool
is_approval_code MutationError.approval_required = true
is_approval_code MutationError.approval_invalid = true
is_approval_code MutationError.approval_expired = true
is_approval_code MutationError.approval_scope_mismatch = true
is_approval_code MutationError.approval_target_mismatch = true
is_approval_code MutationError.approval_method_mismatch = true
is_approval_code MutationError.approval_idempotency_mismatch = true
is_approval_code _ = false

is_capture_approval_code : CaptureError → Bool
is_capture_approval_code CaptureError.approval_required = true
is_capture_approval_code CaptureError.approval_invalid = true
is_capture_approval_code CaptureError.approval_expired = true
is_capture_approval_code CaptureError.approval_scope_mismatch = true
is_capture_approval_code _ = false

mutation_stop : Versions → MutationError → Stop
unfolding refuse
mutation_stop v MutationError.value_error = uncaught
mutation_stop v MutationError.type_error = uncaught
mutation_stop v MutationError.overflow_error = uncaught
mutation_stop v e =
    refuse v (if is_approval_code e then approval_required else blocked) (mutation_refused e)

capture_stop : Versions → CaptureError → Stop
unfolding refuse
capture_stop v CaptureError.type_error = uncaught
capture_stop v CaptureError.overflow_error = uncaught
capture_stop v e =
    refuse v (if is_capture_approval_code e then approval_required else blocked) (capture_refused e)

unfoldable pub is_mutation_tool : String → Bool
is_mutation_tool tool =
    tool == "browser.mutate.request"
    || tool == "browser.mutate.reversible"
    || tool == "browser.upload.execute"

-- The fields of an object, none where the value is no object.
unfoldable pub fields_of : Option Fields → Fields
fields_of none = end
fields_of (some fields) = fields

pub text_of : Option String → String
text_of none = "UNKNOWN"
text_of (some s) = s
