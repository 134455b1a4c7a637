-- ===== src/Governance/Runner/Gates.antt =====
-- The gates of `invoke` in the order of the source, and the call of the handler.
pub mod Guarded
pub mod Trusted
mod Tests
use Prim.Native.Char.{code}
use aios_tools.Prelude.{
  ℕ, String, Bool, true, false, not, ◌&&◌, ◌||◌, Option, none, some, List, [], ◌∷◌, ◌++◌, contains,
  string_eq, nat_eq, ◌==◌, if◌then◌else◌, Result, ok, err, raise_if, ◌>>=◌, ◌>>◌,
}
use aios_tools.Prelude.Dict.{Dict, lookup}
use aios_tools.Prelude.Json.{
  Json, null, text, object, Fields, end, field, get, is_text, is_true, is_false, as_text, as_object,
}
use aios_tools.Governance.Registry.{ConfigError, unhashable, load_registry, names_of}
use aios_tools.Governance.Policy.{load_policy, lists}
use aios_tools.Browser.Policy.{
  BrowserError, uncaught as browser_uncaught, browser_network_tool_admitted,
}
use aios_tools.Browser.Mutation.Approval.{Host, Grant, MutationError, build_mutation_grant}
use aios_tools.Browser.Capture.{Origins, CaptureGrant, CaptureError, build_session_capture_grant}
use aios_tools.Trust.Binding.{Binding, InvalidationEvent, tool_catalog_changed, tool_policy_changed}
use aios_tools.Trust.Verdict.{Decision}
use aios_tools.Trust.Evaluate.{Documents, evaluate_trust_binding}
use aios_tools.Trust.Evaluate as Trust
use aios_tools.Governance.Runner.{
  Call, Payload, Outcome, output, policy_error, input_error, coded_error, other_error, Status,
  completed, blocked, approval_required, failed, Code, configuration_invalid, request_invalid,
  tool_not_registered, mode_globally_blocked, mode_not_allowed, authority_transfer_blocked,
  browser_configuration_blocked, external_effect_blocked, effect_class_not_admitted,
  handler_not_registered, trust_binding_blocked, invalid_input, internal_error, write_refused,
  mutation_refused, capture_refused, handler_code, WriteError, Versions, unknown_versions, versions,
  Receipt, Stop, receipt, uncaught, refuse, write_approval_error, mutation_stop, capture_stop,
  is_mutation_tool, fields_of, text_of,
}

-- What the runner finds around it; `W` is the world that a handler acts on.
pub record Setup (W : Type 0) : Type 1 where
  pub policy_file : Option Json
  pub registry_file : Option Json
  pub browser_file : Option Json
  pub same_value : Json → Json → Bool
  pub host : Host
  pub origins : Origins
  pub documents : Documents
  -- `HANDLERS`
  pub handlers : Dict String (Payload → W → Outcome × W)
  -- `validate_request`, with the version of the tool; `none` where the schema cannot be read
  pub request_errors : Call → Json → Option (List String)
  -- `build_runtime_system_health_binding`, from the activation; `none` where it raises
  pub health_binding : Call → Fields → Option Binding
  -- the document of a binding, and the one for a binding that could not be built
  pub document_of : Binding → documents.Raw
  pub failed_document : documents.Raw

-- A call that has passed the gates of the policy.
pub record Registered : Type 0 where
  pub policy : Fields
  pub registry : Dict String Fields
  pub registry_version : String
  pub metadata : Fields
  pub effect_class : String

config_stop : ConfigError → Stop
config_stop unhashable = uncaught
config_stop _ = refuse unknown_versions blocked configuration_invalid

unknown_if_missing : Option Fields → Json → Json
unknown_if_missing none value = text "UNKNOWN"
unknown_if_missing (some _) value = value

decision_text : Decision → String
decision_text Decision.admit = "ADMIT"
decision_text Decision.unknown = "UNKNOWN"
decision_text Decision.pending_policy = "PENDING_POLICY"
decision_text Decision.stale = "STALE"
decision_text Decision.block = "BLOCK"

or_stop : {E A : Type 0} → (E → Stop) → Result E A → Result Stop A
or_stop stop (ok a) = ok a
or_stop stop (err e) = err (stop e)

starts_with : String → String → Bool
starts_with String.[] s = true
starts_with (String.◌∷◌ c prefix) String.[] = false
starts_with (String.◌∷◌ c prefix) (String.◌∷◌ d s) = code c == code d && starts_with prefix s

ends_with : String → String → Bool
ends_with suffix String.[] = suffix == ""
ends_with suffix (String.◌∷◌ c s) = suffix == String.◌∷◌ c s || ends_with suffix s

-- `{**fields, key: value}`
put : String → Json → Fields → Fields
put key value end = field key value end
put key value (field own old rest) =
    if own == key then field key value rest else field own old (put key value rest)

entries_of : Dict String Fields → Fields
entries_of [] = end
entries_of ((name, entry) ∷ rest) = field name (object entry) (entries_of rest)

shown_keys : List String
shown_keys =
    "default_mode" ∷ "allowed_modes" ∷ "durable_writes_enabled" ∷ "external_network_effects_enabled"
    ∷ "authority_transfer_allowed" ∷ "approval_required_for" ∷ "write_scope" ∷ "effect_policy"
    ∷ "execution_trust_binding" ∷ []

shown : List String → Fields → Fields
shown [] policy = end
shown (key ∷ keys) policy = field key (get key policy) (shown keys policy)

-- What `system.health` answers beyond its handler.
health_output : String → Fields → Fields → Fields → Fields
unfolding put shown shown_keys
health_output registry_version policy tools out = put "policy" (object (shown shown_keys policy)) (
    put "tools" (object tools) (
      put "policy_version" (get "policy_version" policy)
        (put "registry_version" (text registry_version) out)))

module _ {W : Type 0} (setup : Setup W) (call : Call) where
  abbrev versions_of : Registered → Versions
  versions_of r =
      versions (get "version" r.metadata) r.effect_class r.registry_version
        (get "policy_version" r.policy)

  check_request : Versions → Option (List String) → Result Stop Unit
  check_request v none = err uncaught
  check_request v (some []) = ok tt
  check_request v (some (_ ∷ _)) = err (refuse v blocked request_invalid)

  find_tool : Versions → Option Fields → Result Stop Fields
  find_tool v none = err (refuse v blocked tool_not_registered)
  find_tool v (some metadata) = ok metadata

  -- The configuration, the schema of requests and the registration of the tool.
  pub registration : Result Stop Registered
  unfolding config_stop or_stop check_request find_tool refuse text_of fields_of
  registration = do
    policy ← or_stop config_stop (load_policy setup.same_value setup.policy_file)
    loaded ← or_stop config_stop (load_registry setup.registry_file (names_of setup.handlers))
    let found = lookup call.tool loaded.0
    let shown = fields_of found
    let tool_version = unknown_if_missing found (get "version" shown)
    let effect_class = text_of (as_text (get "effect_class" shown))
    let v = versions tool_version effect_class loaded.1 (get "policy_version" policy)
    check_request v (setup.request_errors call tool_version)
    metadata ← find_tool v found
    ok (record {
      policy = policy;
      registry = loaded.0;
      registry_version = loaded.1;
      metadata = metadata;
      effect_class = effect_class;
    })

  abbrev effects_of : Registered → Fields
  effects_of r = fields_of (as_object (get "effect_policy" r.policy))

  pub mode_gate : Registered → Result Stop Unit
  unfolding refuse
  mode_gate r = do
    raise_if (not (lists "allowed_modes" call.mode r.policy))
        (refuse (versions_of r) blocked mode_globally_blocked)
    raise_if (not (is_text (get "mode" r.metadata) call.mode))
        (refuse (versions_of r) blocked mode_not_allowed)
    raise_if
        (not (is_false (get "authority_transfer" r.metadata))
          || not (is_false (get "authority_transfer_allowed" r.policy)))
        (refuse (versions_of r) blocked authority_transfer_blocked)

  browser_stop : Registered → BrowserError → Stop
  unfolding refuse
  browser_stop r browser_uncaught = uncaught
  browser_stop r _ = refuse (versions_of r) blocked browser_configuration_blocked

  -- Whether the browser policy admits the tool, asked for a network effect class alone.
  pub network_gate : Registered → Result Stop Bool
  unfolding or_stop browser_stop refuse fields_of
  network_gate r =
      if lists "network_effect_classes" r.effect_class (effects_of r)
      then (do
        admitted ←
            or_stop (browser_stop r)
              (browser_network_tool_admitted setup.browser_file call.tool r.metadata)
        raise_if (is_false (get "external_network_effects_enabled" r.policy) && not admitted)
            (refuse (versions_of r) blocked external_effect_blocked)
        ok admitted)
      else ok false

  pub effect_gate : Registered → Bool → Result Stop Unit
  unfolding refuse fields_of
  effect_gate r admitted =
      raise_if (not (lists "allowed_effect_classes" r.effect_class (effects_of r)) && not admitted)
        (refuse (versions_of r) blocked effect_class_not_admitted)

  write_stop : Registered → WriteError → Stop
  unfolding refuse
  write_stop r e = refuse (versions_of r) approval_required (write_refused e)

  pub write_gate : Registered → Result Stop Unit
  unfolding or_stop write_stop
  write_gate r =
      if call.mode == "WRITE"
      then or_stop (write_stop r) (write_approval_error call.authority_context call.tool call.scope)
      else ok tt

  pub mutation_gate : Registered → Result Stop (Option Grant)
  unfolding or_stop mutation_stop
  mutation_gate r =
      if is_mutation_tool call.tool
      then (do
        grant ← or_stop (mutation_stop (versions_of r)) (
            build_mutation_grant setup.host call.request_id call.tool call.scope r.effect_class
              call.payload call.authority_context call.now)
        ok (some grant))
      else ok none

  pub capture_gate : Registered → Result Stop (Option CaptureGrant)
  unfolding or_stop capture_stop
  capture_gate r =
      if call.tool == "browser.session.capture"
      then (do
        grant ← or_stop (capture_stop (versions_of r)) (
            build_session_capture_grant setup.host setup.origins call.request_id call.tool
              call.scope r.effect_class call.payload call.authority_context call.now)
        ok (some grant))
      else ok none

  find_handler :
      Registered → Option (Payload → W → Outcome × W) → Result Stop (Payload → W → Outcome × W)
  unfolding refuse
  find_handler r none = err (refuse (versions_of r) blocked handler_not_registered)
  find_handler r (some handler) = ok handler

  -- The binding with an event for each version that has changed under it.
  pub changed : Registered → Binding → Binding
  changed r binding = record binding {
    invalidation_events =
        binding.invalidation_events
        ++ (if binding.catalog.catalog_revision == r.registry_version
            then []
            else tool_catalog_changed ∷ [])
        ++ (if is_text (get "policy_version" r.policy) binding.policy.policy_version
            then []
            else tool_policy_changed ∷ []);
  }

  bound_receipt : Registered → Option Binding → Trust.Receipt
  unfolding changed
  bound_receipt r none = evaluate_trust_binding setup.documents setup.failed_document
  bound_receipt r (some binding) =
      evaluate_trust_binding setup.documents (setup.document_of (changed r binding))

  pub activation : Registered → Fields
  activation r = fields_of (as_object (get "execution_trust_binding" r.policy))

  -- The refusal carries the receipt of the trust binding.
  trust_refused : Registered → Trust.Receipt → Stop
  trust_refused r trust = receipt (record {
    status = blocked;
    errors = trust_binding_blocked ∷ [];
    versions = versions_of r;
    output = end;
    handler_invoked = false;
    trust_id = some trust.trust_receipt_id;
  })

  pub trust_gate : Registered → Result Stop (Option Trust.Receipt)
  unfolding refuse fields_of bound_receipt activation
  trust_gate r =
      if lists "enforced_tools" call.tool (activation r)
      then (let trust = bound_receipt r (setup.health_binding call (activation r)) in
          if is_text (get "required_decision" (activation r)) (decision_text trust.trust_decision)
          then ok (some trust)
          else err (trust_refused r trust))
      else ok none

  pub record Admission : Type 0 where
    pub registered : Registered
    pub handler : Payload → W → Outcome × W
    pub payload : Payload
    pub trust : Option Trust.Receipt

  -- Every gate, in order.
  unfoldable pub admission : Result Stop Admission
  unfolding find_handler
  admission = do
    r ← registration
    mode_gate r
    admitted ← network_gate r
    effect_gate r admitted
    write_gate r
    grant ← mutation_gate r
    capture ← capture_gate r
    handler ← find_handler r (lookup call.tool setup.handlers)
    trust ← trust_gate r
    ok (record {
      registered = r;
      handler = handler;
      payload = record { fields = call.payload; mutation_grant = grant; capture_grant = capture };
      trust = trust;
    })

  id_of : Option Trust.Receipt → Option String
  id_of none = none
  id_of (some trust) = some trust.trust_receipt_id

  -- The receipt of a call whose handler ended.
  finish : Admission → Status → List Code → Fields → Receipt
  unfolding id_of
  finish a status errors out = record {
    status = status;
    errors = errors;
    versions = versions_of a.registered;
    output = out;
    handler_invoked = true;
    trust_id = id_of a.trust;
  }

  pub conclude : Admission → Outcome → Receipt
  unfolding finish health_output starts_with ends_with
  conclude a (output out) = finish a completed [] (
      if call.tool == "system.health"
      then health_output a.registered.registry_version a.registered.policy
          (entries_of a.registered.registry) out
      else out)
  conclude a (policy_error code) =
      finish a (if starts_with "APPROVAL_" code then approval_required else blocked)
        (handler_code code ∷ []) end
  conclude a input_error = finish a failed (invalid_input ∷ []) end
  conclude a (coded_error code) =
      finish a
        (if ends_with "_BLOCKED" code || code == "TARGET_BLOCKED" || code == "UPLOAD_BLOCKED"
          then blocked
          else failed)
        (handler_code code ∷ []) end
  conclude a other_error = finish a failed (internal_error ∷ []) end

  -- The answer of `invoke`, or its exception, and the world after it.
  pub data Response : Type 0 where
    returned : Receipt → W → Response
    raised : W → Response

  handled : Admission → Outcome × W → Response
  handled a (outcome, world) = returned (conclude a outcome) world

  respond : Result Stop Admission → W → Response
  unfolding handled
  respond (err (receipt r)) world = returned r world
  respond (err uncaught) world = raised world
  respond (ok a) world = handled a (a.handler a.payload world)

  unfoldable pub invoke : W → Response
  unfolding respond
  invoke world = respond admission world
