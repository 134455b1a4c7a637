-- ===== src/Governance/Runner/Gates/Guarded.antt =====
-- A handler runs behind every gate.
use aios_tools.Prelude.{
  String, Bool, true, false, Option, some, ◌≡◌, ◌≢◌, inl, inr, arith, contains, string_eq, eq_iff,
  ok, Result-cases, Option-cases, ◌∙◌,
}
use aios_tools.Prelude.Dict.{lookup}
use aios_tools.Prelude.Json.{text, Fields, get, is_text, is_false, as_text, as_object}
use aios_tools.Governance.Registry.{load_registry, names_of, network_effect_classes}
use aios_tools.Governance.Registry.Governed.{IsGoverned, load_registry-IsGoverned}
use aios_tools.Governance.Policy.{load_policy, lists}
use aios_tools.Governance.Policy.Closed.{IsClosed, load_policy-IsClosed}
use aios_tools.Browser.Policy.{browser_network_tool_admitted}
use aios_tools.Browser.Policy.Admitted.{IsNetworkTool, browser_network_tool_admitted-IsNetworkTool}
use aios_tools.Browser.Mutation.Approval.{Grant, build_mutation_grant}
use aios_tools.Browser.Mutation.Approval.Bound.{BoundTo, build_mutation_grant-BoundTo}
use aios_tools.Governance.Runner.{
  Call, Receipt, receipt, uncaught, write_approval_error, is_mutation_tool, fields_of, text_of,
}
use aios_tools.Governance.Runner.Approved.{WriteApproved, write_approval_error-WriteApproved}
use aios_tools.Governance.Runner.Gates.{
  Setup, Registered, registration, mode_gate, network_gate, effect_gate, write_gate, mutation_gate,
  capture_gate, find_handler, trust_gate, Admission, admission, conclude, returned, handled, invoke,
  or_stop, check_request, find_tool, effects_of,
}

class_of :
    {name : String} (metadata : Fields) (effect_class : String)
    → IsGoverned name metadata
    → effect_class ≡ text_of (as_text (get "effect_class" metadata))
    → get "effect_class" metadata ≡ text effect_class
unfolding text_of as_text
class_of metadata effect_class governed e = ground (arith, governed.classified)

module _ {W : Type 0} (setup : Setup W) (call : Call) where
  -- The gates that an admitted call has passed.
  pub record Passed (a : Admission setup call) : Type 1 where
    pub registered : registration setup call ≡ ok a.registered
    pub mode : mode_gate setup call a.registered ≡ ok tt
    pub network : Bool
    pub network_asked : network_gate setup call a.registered ≡ ok network
    pub effect : effect_gate setup call a.registered network ≡ ok tt
    pub write : write_gate setup call a.registered ≡ ok tt
    pub mutation : mutation_gate setup call a.registered ≡ ok a.payload.mutation_grant
    pub capture : capture_gate setup call a.registered ≡ ok a.payload.capture_grant
    pub bound : lookup call.tool setup.handlers ≡ some a.handler
    pub trust : trust_gate setup call a.registered ≡ ok a.trust

  pub admission-Passed : (a : Admission setup call) → admission setup call ≡ ok a → Passed a
  unfolding admission find_handler
  admission-Passed a e = elim (Result-cases (registration setup call)) [
    | inr (x, p) ↦ absurd (ground arith)
    | inl (r, p) ↦ elim (Result-cases (network_gate setup call r)) [
      | inr (x, q) ↦ absurd (ground arith)
      | inl (network, q) ↦
          let same : a.registered ≡ r = ground arith in
          record {
            registered = rw same p;
            mode = ground arith;
            network = network;
            network_asked = rw same q;
            effect = ground arith;
            write = ground arith;
            mutation = ground arith;
            capture = ground arith;
            bound = ground arith;
            trust = ground arith;
          }
    ]
  ]

  registration-ok :
      (r : Registered)
      → registration setup call ≡ ok r
      → (load_policy setup.same_value setup.policy_file ≡ ok r.policy)
        × (load_registry setup.registry_file (names_of setup.handlers)
            ≡ ok (r.registry, r.registry_version))
        × (lookup call.tool r.registry ≡ some r.metadata)
        × (r.effect_class ≡ text_of (as_text (get "effect_class" r.metadata)))
  unfolding registration or_stop check_request find_tool fields_of
  registration-ok r e = elim (Result-cases (load_policy setup.same_value setup.policy_file)) [
    | inr (x, p) ↦ absurd (ground arith)
    | inl (policy, p) ↦
        elim (Result-cases (load_registry setup.registry_file (names_of setup.handlers))) [
          | inr (x, q) ↦ absurd (ground arith)
          | inl ((registry, version), q) ↦ elim (Option-cases (lookup call.tool registry)) [
            | inl gone ↦ absurd (ground arith)
            | inr (metadata, t) ↦
                let same_policy : r.policy ≡ policy = ground arith in
                let same_registry : r.registry ≡ registry = ground arith in
                let same_version : r.registry_version ≡ version = ground arith in
                let same_metadata : r.metadata ≡ metadata = ground arith in
                (
                  rw same_policy p,
                  rw same_registry (rw same_version q),
                  rw same_registry (rw same_metadata t),
                  ground arith,
                )
          ]
        ]
  ]

  network_gate-admitted :
      (r : Registered) (admitted : Bool)
      → is_false (get "external_network_effects_enabled" r.policy) ≡ true
      → lists "network_effect_classes" r.effect_class (effects_of setup call r) ≡ true
      → network_gate setup call r ≡ ok admitted
      → (admitted ≡ true)
        × (browser_network_tool_admitted setup.browser_file call.tool r.metadata ≡ ok true)
  unfolding network_gate or_stop fields_of
  network_gate-admitted r admitted closed c e =
      elim (Result-cases (browser_network_tool_admitted setup.browser_file call.tool r.metadata)) [
        | inr (x, p) ↦ absurd (ground arith)
        | inl (own, p) ↦ (ground arith, ground arith)
      ]

  -- What is true of a call whose handler runs.
  pub record Guarded (a : Admission setup call) : Type 0 where
    pub policy_loads : load_policy setup.same_value setup.policy_file ≡ ok a.registered.policy
    pub closed : IsClosed a.registered.policy
    pub governed : IsGoverned call.tool a.registered.metadata
    pub bound : lookup call.tool setup.handlers ≡ some a.handler
    pub mode_allowed : lists "allowed_modes" call.mode a.registered.policy ≡ true
    pub mode_declared : is_text (get "mode" a.registered.metadata) call.mode ≡ true
    pub classified : get "effect_class" a.registered.metadata ≡ text a.registered.effect_class
    pub remote :
        contains network_effect_classes a.registered.effect_class ≡ true
        → (browser_network_tool_admitted setup.browser_file call.tool a.registered.metadata
            ≡ ok true)
          × IsNetworkTool a.registered.metadata
    pub local :
        contains network_effect_classes a.registered.effect_class ≡ false
        → lists "allowed_effect_classes" a.registered.effect_class
            (effects_of setup call a.registered)
          ≡ true
    pub write :
        call.mode ≡ "WRITE"
        → (write_approval_error call.authority_context call.tool call.scope ≡ ok tt)
          × WriteApproved call.authority_context call.tool call.scope
    pub mutation :
        is_mutation_tool call.tool ≡ true
        → (g : Grant) × (a.payload.mutation_grant ≡ some g)
          × BoundTo setup.host call.tool call.scope a.registered.effect_class call.payload
              call.authority_context call.now g

  write_gate-approved :
      (r : Registered)
      → write_gate setup call r ≡ ok tt
      → call.mode ≡ "WRITE"
      → write_approval_error call.authority_context call.tool call.scope ≡ ok tt
  unfolding write_gate or_stop
  write_gate-approved r e w =
      elim (Result-cases (write_approval_error call.authority_context call.tool call.scope)) [
        | inr (x, p) ↦ absurd (ground (arith, eq_iff call.mode "WRITE"))
        | inl (u, p) ↦ p
      ]

  mutation_gate-bound :
      (r : Registered) (grant : Option Grant)
      → mutation_gate setup call r ≡ ok grant
      → is_mutation_tool call.tool ≡ true
      → (g : Grant) × (grant ≡ some g)
        × BoundTo setup.host call.tool call.scope r.effect_class call.payload call.authority_context
            call.now g
  unfolding mutation_gate or_stop
  mutation_gate-bound r grant e m =
      elim (Result-cases (
        build_mutation_grant setup.host call.request_id call.tool call.scope r.effect_class
          call.payload call.authority_context call.now)) [
            | inr (x, p) ↦ absurd (ground arith)
            | inl (g, p) ↦ (
              g,
              ground arith,
              build_mutation_grant-BoundTo setup.host call.request_id call.tool call.scope
                  r.effect_class call.payload call.authority_context call.now g p,
            )
          ]

  effects_are :
      (r : Registered) (closed : IsClosed r.policy) → effects_of setup call r ≡ closed.effects
  unfolding fields_of as_object
  effects_are r closed = ground (arith, closed.effect_policy)

  is_network :
      (r : Registered) (closed : IsClosed r.policy)
      → lists "network_effect_classes" r.effect_class (effects_of setup call r)
        ≡ contains network_effect_classes r.effect_class
  is_network r closed = rw (effects_are r closed) (closed.of_effects.network r.effect_class)

  local_admitted :
      (r : Registered) (admitted : Bool)
      → lists "network_effect_classes" r.effect_class (effects_of setup call r) ≡ false
      → network_gate setup call r ≡ ok admitted
      → effect_gate setup call r admitted ≡ ok tt
      → lists "allowed_effect_classes" r.effect_class (effects_of setup call r) ≡ true
  unfolding network_gate effect_gate
  local_admitted r admitted c e f = ground arith

  pub Passed-Guarded : (a : Admission setup call) → Passed a → Guarded a
  unfolding mode_gate
  Passed-Guarded a passed =
      let (policy_loads, registry_loads, found, class_is) =
        registration-ok a.registered passed.registered in
      let closed : IsClosed a.registered.policy =
        load_policy-IsClosed setup.same_value setup.policy_file a.registered.policy policy_loads in
      let (governed, _) =
        load_registry-IsGoverned setup.registry_file (names_of setup.handlers) a.registered.registry
          a.registered.registry_version call.tool a.registered.metadata registry_loads found in
      record {
        policy_loads = policy_loads;
        closed = closed;
        governed = governed;
        bound = passed.bound;
        mode_allowed = ground (arith, passed.mode);
        mode_declared = ground (arith, passed.mode);
        classified = class_of a.registered.metadata a.registered.effect_class governed class_is;
        remote = λ c.
            let (_, admitted) =
              network_gate-admitted a.registered passed.network closed.no_network
                (is_network a.registered closed ∙ c) passed.network_asked in
            (
              admitted,
              browser_network_tool_admitted-IsNetworkTool setup.browser_file call.tool
                  a.registered.metadata admitted,
            );
        local = λ c.
            local_admitted a.registered passed.network (is_network a.registered closed ∙ c)
              passed.network_asked passed.effect;
        write = λ w.
            let approved = write_gate-approved a.registered passed.write w in
            (
              approved,
              write_approval_error-WriteApproved call.authority_context call.tool call.scope
                  approved,
            );
        mutation = mutation_gate-bound a.registered a.payload.mutation_grant passed.mutation;
      }

  -- A call changes the world only behind every gate: the policy that loads is closed, the tool is
  -- registered and governed, its mode is allowed and asked for, a network effect is admitted by the
  -- browser policy and any other by the policy, a WRITE is approved for the tool and the scope, and
  -- a mutation tool has a grant bound to its approval. The change and the receipt are then those of
  -- the handler of the tool, run once.
  pub invoke-Guarded :
      (before after : W) (r : Receipt)
      → invoke setup call before ≡ returned r after
      → before ≢ after
      → (a : Admission setup call) × Guarded a
        × (after ≡ (a.handler a.payload before).1)
        × (r ≡ conclude setup call a (a.handler a.payload before).0)
  unfolding invoke handled
  invoke-Guarded before after r e changed = elim (Result-cases (admission setup call)) [
    | inr (receipt own, p) ↦ absurd (changed (ground arith))
    | inr (uncaught, p) ↦ absurd (ground arith)
    | inl (a, p) ↦ (a, Passed-Guarded a (admission-Passed a p), ground arith, ground arith)
  ]
