-- ===== src/Browser/Policy.antt =====
-- src/aios_tools/browser/policy.py: the admission of policies/browser-policy.v0.1.json, and of the
-- browser tools by it.
pub mod Admitted
pub mod Tests
use aios_tools.Prelude.Sets.{same_set}
use aios_tools.Prelude.{
  ℕ, zero, suc, String, Bool, true, false, not, ◌&&◌, ◌||◌, Option, none, some, List, [], ◌∷◌,
  contains, leb, string_eq, nat_eq, ◌==◌, if◌then◌else◌, Result, ok, err, raise_if, ◌>>=◌, ◌>>◌,
}
use aios_tools.Prelude.Json.{
  Json, null, boolean, number, text, array, object, Fields, end, field, Items, no_items, item, get,
  has_fields, is_text, is_true, is_false, as_text, as_object, as_array, keys_of,
}
use aios_tools.Governance.Registry.{network_effect_classes, remote_mutation_effect_classes}

-- A `BrowserConfigurationError`, or the `TypeError` or `AttributeError` of a value of another kind.
pub data BrowserError : Type 0 where
  browser_configuration_invalid uncaught : BrowserError

is_compound : Json → Bool
is_compound (array _) = true
is_compound (object _) = true
is_compound _ = false

text_in : Json → List String → Bool
text_in (text s) set = contains set s
text_in _ set = false

-- `if value not in {...}: raise`, which fails otherwise for a list or an object
check_in : Json → List String → Result BrowserError Unit
unfolding is_compound text_in
check_in value set = do
  raise_if (is_compound value) uncaught
  raise_if (not (text_in value set)) browser_configuration_invalid

require : Bool → Result BrowserError Unit
require condition = raise_if (not condition) browser_configuration_invalid

-- `value == [...]`, for a list of texts
are_texts : Items → List String → Bool
are_texts no_items [] = true
are_texts (item value rest) (s ∷ ss) = is_text value s && are_texts rest ss
are_texts _ _ = false

is_text_list : Option Items → List String → Bool
unfolding are_texts
is_text_list none ss = false
is_text_list (some items) ss = are_texts items ss

-- An item that is no text is none of the HTTP methods, as the empty text is none.
text_or_mark : Option String → String
text_or_mark none = ""
text_or_mark (some s) = s

items_set : Items → Result BrowserError (List String)
unfolding is_compound text_or_mark
items_set no_items = ok []
items_set (item value rest) = do
  raise_if (is_compound value) uncaught
  others ← items_set rest
  ok (text_or_mark (as_text value) ∷ others)

-- `set(value)`; the characters of a text are no HTTP methods either
set_of : Json → Result BrowserError (List String)
unfolding items_set
set_of (array items) = items_set items
set_of (object fields) = ok (keys_of fields)
set_of (text _) = ok []
set_of _ = err uncaught

object_or : BrowserError → Option Fields → Result BrowserError Fields
object_or e none = err e
object_or e (some fields) = ok fields

policy_keys : List String
policy_keys =
    "policy_version" ∷ "runtime_state" ∷ "capability_id" ∷ "admitted_tools" ∷ "allowed_schemes"
    ∷ "read_http_methods" ∷ "mutation_http_methods" ∷ "public_network_only" ∷ "service_workers"
    ∷ "websocket_policy" ∷ "downloads" ∷ "download_quarantine" ∷ "upload_intake" ∷ "mutation"
    ∷ "budgets" ∷ "interactive" ∷ []

pub check_scope : Fields → Result BrowserError Unit
unfolding check_in require is_text_list set_of
check_scope policy = do
  require (is_text (get "capability_id" policy) "cap:browser-control")
  check_in (get "runtime_state" policy) ("ACTIVATION_CANDIDATE" ∷ "ACTIVE" ∷ [])
  require (is_true (get "public_network_only" policy))
  require (is_text (get "service_workers" policy) "block")
  require (is_text (get "websocket_policy" policy) "block")
  require (is_text_list (as_array (get "allowed_schemes" policy)) ("https" ∷ "http" ∷ []))
  require (is_text_list (as_array (get "read_http_methods" policy)) ("GET" ∷ "HEAD" ∷ []))
  methods ← set_of (get "mutation_http_methods" policy)
  require (same_set methods ("POST" ∷ "PUT" ∷ "PATCH" ∷ "DELETE" ∷ []))

-- `admitted.get("browser.inspect") == {"mode": "READ_ONLY", "effect_class": "READ_NETWORK"}`
is_inspect : Option Fields → Bool
is_inspect none = false
is_inspect (some entry) =
    same_set (keys_of entry) ("mode" ∷ "effect_class" ∷ [])
    && is_text (get "mode" entry) "READ_ONLY"
    && is_text (get "effect_class" entry) "READ_NETWORK"

pub check_tool : Fields → Result BrowserError Unit
unfolding check_in require
check_tool entry = do
  check_in (get "effect_class" entry) network_effect_classes
  require (
      not (is_text (get "effect_class" entry) "READ_NETWORK")
      || is_text (get "mode" entry) "READ_ONLY")
  require (
      not (text_in (get "effect_class" entry) remote_mutation_effect_classes)
      || is_text (get "mode" entry) "WRITE")

-- The loop over `admitted.items()`.
pub check_tools : Fields → Result BrowserError Unit
unfolding object_or
check_tools end = ok tt
check_tools (field name value rest) = do
  entry ← object_or browser_configuration_invalid (as_object value)
  check_tool entry
  check_tools rest

is_empty : Fields → Bool
is_empty end = true
is_empty (field _ _ _) = false

pub check_admitted : Json → Result BrowserError Unit
unfolding object_or require is_empty is_inspect
check_admitted value = do
  admitted ← object_or browser_configuration_invalid (as_object value)
  require (not (is_empty admitted))
  require (is_inspect (as_object (get "browser.inspect" admitted)))
  check_tools admitted

-- `value == 0`, which `False` also satisfies
is_zero : Json → Bool
is_zero (number n) = n == 0
is_zero (boolean b) = not b
is_zero _ = false

all_true : List String → Fields → Bool
all_true [] fields = true
all_true (key ∷ keys) fields = is_true (get key fields) && all_true keys fields

mutation_keys : List String
mutation_keys =
    "one_shot_approval_required" ∷ "exact_target_required" ∷ "exact_method_required"
    ∷ "idempotency_key_required" ∷ "post_mutation_readback_required" ∷ "high_impact_ack_required"
    ∷ []

pub check_effects : Fields → Result BrowserError Unit
unfolding object_or check_in require is_zero all_true mutation_keys
check_effects policy = do
  quarantine ←
      object_or browser_configuration_invalid (as_object (get "download_quarantine" policy))
  check_in (get "status" quarantine) ("ACTIVE_CANDIDATE" ∷ "ACTIVE" ∷ [])
  uploads ← object_or browser_configuration_invalid (as_object (get "upload_intake" policy))
  require (is_false (get "caller_filesystem_paths" uploads))
  require (is_true (get "in_memory_playwright_payload" uploads))
  require (is_true (get "live_file_input_requires_mutation_grant" uploads))
  mutation ← object_or browser_configuration_invalid (as_object (get "mutation" policy))
  require (all_true mutation_keys mutation)
  require (is_false (get "ambiguous_state_retry" mutation))
  require (is_zero (get "max_redirects" mutation) && is_zero (get "max_retries" mutation))

-- `isinstance(value, int) and value > 0`: `True` is the integer one
is_positive : Json → Bool
is_positive (number n) = leb 1 n
is_positive (boolean b) = b
is_positive _ = false

all_positive : List String → Fields → Bool
unfolding is_positive
all_positive [] budgets = true
all_positive (key ∷ keys) budgets = is_positive (get key budgets) && all_positive keys budgets

-- An integer from one to a bound, and no `bool`.
is_within : ℕ → Json → Bool
is_within maximum (number n) = leb 1 n && leb n maximum
is_within maximum _ = false

all_within : List (String × ℕ) → Fields → Bool
unfolding is_within
all_within [] interactive = true
all_within ((key, maximum) ∷ rest) interactive =
    is_within maximum (get key interactive) && all_within rest interactive

budget_keys : List String
budget_keys =
    "elapsed_seconds" ∷ "network_requests" ∷ "pages" ∷ "websockets" ∷ "visible_text_chars"
    ∷ "mutations" ∷ "uploads" ∷ "downloads" ∷ []

interactive_limits : List (String × ℕ)
interactive_limits =
    ("max_sessions", 16)
    ∷ ("session_seconds", 900)
    ∷ ("network_requests", 240)
    ∷ ("actions", 80)
    ∷ ("observations", 80)
    ∷ ("action_batch", 12)
    ∷ ("visible_text_chars", 50_000)
    ∷ ("max_elements", 200)
    ∷ []

pub check_budgets : Fields → Result BrowserError Unit
unfolding object_or require all_positive all_within budget_keys interactive_limits
check_budgets policy = do
  budgets ← object_or uncaught (as_object (get "budgets" policy))
  require (all_positive budget_keys budgets)
  interactive ← object_or browser_configuration_invalid (as_object (get "interactive" policy))
  require (all_within interactive_limits interactive)

pub read_policy : Option Json → Result BrowserError Fields
unfolding object_or
read_policy none = err browser_configuration_invalid
read_policy (some value) = object_or uncaught (as_object value)

unfoldable pub load_browser_policy : Option Json → Result BrowserError Fields
unfolding require policy_keys
load_browser_policy file = do
  policy ← read_policy file
  require (has_fields policy_keys policy)
  check_scope policy
  check_admitted (get "admitted_tools" policy)
  check_effects policy
  check_budgets policy
  ok policy

-- `value == expected`; the modes and effect classes of an admitted tool are texts
same_text : Json → Json → Bool
same_text value (text s) = is_text value s
same_text value _ = false

covers : Option Fields → Fields → Bool
unfolding same_text
covers none metadata = false
covers (some expected) metadata =
    not (is_empty expected)
    && same_text (get "mode" metadata) (get "mode" expected)
    && same_text (get "effect_class" metadata) (get "effect_class" expected)

tools_of : Option Fields → Fields
tools_of none = end
tools_of (some tools) = tools

-- `load_browser_policy()["admitted_tools"].get(tool)`
unfoldable pub browser_network_tool_admitted :
    Option Json → String → Fields → Result BrowserError Bool
unfolding covers tools_of is_empty
browser_network_tool_admitted file tool metadata = do
  policy ← load_browser_policy file
  let admitted = tools_of (as_object (get "admitted_tools" policy))
  ok (covers (as_object (get tool admitted)) metadata)
