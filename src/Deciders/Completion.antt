-- ===== src/Deciders/Completion.antt =====
-- src/aios_tools/experimental/execution_completion.py: the evaluation of a trajectory against the
-- contract of an execution.
pub mod Complete
mod Tests
use aios_tools.Prelude.{
  ℕ, suc, String, Bool, true, false, not, ◌&&◌, ◌||◌, Option, none, some, List, [], ◌∷◌, leb, ltb,
  contains, all_distinct, string_eq, ◌==◌, if◌then◌else◌, Result, ok, err, raise_if, ◌>>=◌, ◌>>◌,
}
use aios_tools.Prelude.Dict.{Dict}
use aios_tools.Prelude.Json.{
  Json, text, array, object, boolean, Fields, end, field, Items, no_items, item, get, is_text,
  is_true, is_named, is_boolean, as_text, as_object, as_array, as_number, keys_of, named_texts,
}
use aios_tools.Prelude.Order.{text_le}
use aios_tools.Prelude.Sets.{same_set}
use aios_tools.Prelude.Sort.{sorted}

pub data PredicateState : Type 0 where
  pass fail unknown : PredicateState

-- A contract that `_valid_contract` accepts.
pub record Contract : Type 0 where
  pub workflow_id : String
  pub contract_id : String
  pub verification_owner : String
  pub required_deliverables : List String
  pub required_events : List String
  pub forbidden_events : List String
  pub required_order : List (String × String)
  pub success_predicates : List String
  pub max_steps : ℕ

-- A trajectory that `_valid_trajectory` accepts.
pub record Trajectory : Type 0 where
  pub workflow_id : String
  pub contract_id : String
  pub verification_owner : String
  pub deliverables : List String
  pub events : List String
  pub predicate_results : Dict String PredicateState
  pub terminal : Bool
  pub step_count : ℕ

-- A packet that is refused, or the `TypeError` of a predicate result that has no hash.
pub data Refusal : Type 0 where
  invalid unhashable : Refusal

contract_fields : List String
contract_fields =
    "contract_version" ∷ "scope_key" ∷ "workflow_id" ∷ "contract_id" ∷ "objective"
    ∷ "required_deliverables" ∷ "required_events" ∷ "forbidden_events" ∷ "required_order"
    ∷ "success_predicates" ∷ "verification_owner" ∷ "max_steps" ∷ []

trajectory_fields : List String
trajectory_fields =
    "scope_key" ∷ "workflow_id" ∷ "contract_id" ∷ "deliverables" ∷ "events" ∷ "predicate_results"
    ∷ "verification_owner" ∷ "terminal" ∷ "step_count" ∷ []

present : {A : Type 0} → Option A → Result Refusal A
present none = err invalid
present (some a) = ok a

-- A text that `_is_nonempty_string` accepts.
named : Json → Result Refusal String
unfolding present
named value = do raise_if (not (is_named value)) invalid; present (as_text value)

-- `_valid_string_list(value, unique=True)`, with the texts
unique_texts : Json → Result Refusal (List String)
unfolding present
unique_texts value = do
  texts ← present (named_texts value)
  raise_if (not (all_distinct texts)) invalid
  ok texts

has_pair : String → String → List (String × String) → Bool
has_pair before after [] = false
has_pair before after ((b, a) ∷ pairs) = b == before && a == after || has_pair before after pairs

-- The loop over `required_order`, with the pairs seen before.
order_pairs : List String → List (String × String) → Items → Result Refusal (List (String × String))
unfolding present named has_pair
order_pairs events seen no_items = ok []
order_pairs events seen (item value rest) = do
  pair ← present (as_object value)
  raise_if (not (same_set (keys_of pair) ("before" ∷ "after" ∷ []))) invalid
  before ← named (get "before" pair)
  after ← named (get "after" pair)
  raise_if (before == after || not (contains events before) || not (contains events after)) invalid
  raise_if (has_pair before after seen) invalid
  later ← order_pairs events ((before, after) ∷ seen) rest
  ok ((before, after) ∷ later)

-- `_valid_contract`, with what is read
unfoldable pub read_contract : Json → Result Refusal Contract
unfolding present named unique_texts order_pairs contract_fields
read_contract value = do
  contract ← present (as_object value)
  raise_if (not (same_set (keys_of contract) contract_fields)) invalid
  raise_if (not (is_text (get "contract_version" contract) "0.1")) invalid
  raise_if (not (is_text (get "scope_key" contract) "global-working-memory")) invalid
  workflow_id ← named (get "workflow_id" contract)
  contract_id ← named (get "contract_id" contract)
  _ ← named (get "objective" contract)
  verification_owner ← named (get "verification_owner" contract)
  deliverables ← unique_texts (get "required_deliverables" contract)
  events ← unique_texts (get "required_events" contract)
  forbidden ← unique_texts (get "forbidden_events" contract)
  predicates ← unique_texts (get "success_predicates" contract)
  pairs ← present (as_array (get "required_order" contract))
  order ← order_pairs events [] pairs
  max_steps ← present (as_number (get "max_steps" contract))
  ok (record {
    workflow_id = workflow_id;
    contract_id = contract_id;
    verification_owner = verification_owner;
    required_deliverables = deliverables;
    required_events = events;
    forbidden_events = forbidden;
    required_order = order;
    success_predicates = predicates;
    max_steps = max_steps;
  })

state_text : String → Result Refusal PredicateState
state_text s =
    if s == "PASS"
    then ok pass
    else if s == "FAIL"
    then ok fail
    else if s == "UNKNOWN"
    then ok unknown
    else err invalid

state_of : Json → Result Refusal PredicateState
unfolding state_text
state_of (text s) = state_text s
state_of (array _) = err unhashable
state_of (object _) = err unhashable
state_of _ = err invalid

states_of : Fields → Result Refusal (Dict String PredicateState)
unfolding state_of
states_of end = ok []
states_of (field key value rest) = do
  state ← state_of value
  states ← states_of rest
  ok ((key, state) ∷ states)

-- `_valid_trajectory`, with what is read
unfoldable pub read_trajectory : Json → Contract → Result Refusal Trajectory
unfolding present named unique_texts states_of trajectory_fields
read_trajectory value contract = do
  trajectory ← present (as_object value)
  raise_if (not (same_set (keys_of trajectory) trajectory_fields)) invalid
  raise_if (not (is_text (get "scope_key" trajectory) "global-working-memory")) invalid
  workflow_id ← named (get "workflow_id" trajectory)
  contract_id ← named (get "contract_id" trajectory)
  verification_owner ← named (get "verification_owner" trajectory)
  deliverables ← unique_texts (get "deliverables" trajectory)
  events ← present (named_texts (get "events" trajectory))
  predicates ← present (as_object (get "predicate_results" trajectory))
  raise_if (not (same_set (keys_of predicates) contract.success_predicates)) invalid
  states ← states_of predicates
  raise_if (not (is_boolean (get "terminal" trajectory))) invalid
  step_count ← present (as_number (get "step_count" trajectory))
  ok (record {
    workflow_id = workflow_id;
    contract_id = contract_id;
    verification_owner = verification_owner;
    deliverables = deliverables;
    events = events;
    predicate_results = states;
    terminal = is_true (get "terminal" trajectory);
    step_count = step_count;
  })

pub data Verdict : Type 0 where
  blocked failing partial passing : Verdict

pub record Report : Type 0 where
  pub verdict : Verdict
  pub reason : String
  pub missing_deliverables : List String
  pub missing_events : List String
  pub failed_predicates : List String
  pub unknown_predicates : List String

abbrev pub plain : Verdict → String → Report
plain verdict reason = record {
  verdict = verdict;
  reason = reason;
  missing_deliverables = [];
  missing_events = [];
  failed_predicates = [];
  unknown_predicates = [];
}

-- `any(item in banned for item in items)`
unfoldable pub meets : List String → List String → Bool
meets [] banned = false
meets (x ∷ xs) banned = contains banned x || meets xs banned

-- `items.index(item)`, of an item that is there
unfoldable pub index : List String → String → ℕ
index [] x = 0
index (y ∷ ys) x = let later = index ys x in if y == x then 0 else suc later

-- Whether a required pair stands in the wrong order.
unfoldable pub misordered : List String → List (String × String) → Bool
misordered events [] = false
misordered events ((before, after) ∷ pairs) =
    contains events before
      && contains events after
      && leb (index events after) (index events before)
    || misordered events pairs

is_state : PredicateState → PredicateState → Bool
is_state pass pass = true
is_state fail fail = true
is_state unknown unknown = true
is_state _ _ = false

-- The predicates with a result.
unfoldable pub with_state : PredicateState → Dict String PredicateState → List String
unfolding is_state
with_state state [] = []
with_state state ((key, own) ∷ rest) =
    let later = with_state state rest in if is_state own state then key ∷ later else later

-- `required - observed`
unfoldable pub minus : List String → List String → List String
minus [] observed = []
minus (x ∷ xs) observed =
    let rest = minus xs observed in if contains observed x then rest else x ∷ rest

unfoldable pub is_empty : List String → Bool
is_empty [] = true
is_empty (x ∷ xs) = false

-- The obligations that are left, once nothing has failed.
unfoldable pub pending : Bool → List String → List String → List String → Report
pending terminal deliverables events unknowns =
    if not (is_empty deliverables && is_empty events && is_empty unknowns)
    then record {
      verdict = if terminal then failing else partial;
      reason = if terminal then "TERMINAL_INCOMPLETE" else "OBLIGATIONS_PENDING";
      missing_deliverables = deliverables;
      missing_events = events;
      failed_predicates = [];
      unknown_predicates = unknowns;
    }
    else if not terminal
    then plain partial "SATISFIED_NOT_TERMINAL"
    else plain passing "CONTRACT_SATISFIED"

unfoldable pub after_failures : Contract → Trajectory → List String → Report
after_failures contract trajectory failed =
    if not (is_empty failed)
    then record (plain failing "PREDICATE_FAILED") { failed_predicates = failed }
    else pending trajectory.terminal
        (sorted text_le (minus contract.required_deliverables trajectory.deliverables))
        (sorted text_le (minus contract.required_events trajectory.events))
        (sorted text_le (with_state unknown trajectory.predicate_results))

-- What `evaluate_completion` reports of a contract and a trajectory that were read.
unfoldable pub report_of : Contract → Trajectory → Report
report_of contract trajectory =
    if not (
      contract.workflow_id == trajectory.workflow_id
      && contract.contract_id == trajectory.contract_id
      && contract.verification_owner == trajectory.verification_owner)
    then plain blocked "IDENTITY_OR_VERIFIER_MISMATCH"
    else if meets trajectory.events contract.forbidden_events
    then plain failing "FORBIDDEN_EVENT"
    else if ltb contract.max_steps trajectory.step_count
    then plain failing "STEP_BUDGET_EXCEEDED"
    else if misordered trajectory.events contract.required_order
    then plain failing "EVENT_ORDER_VIOLATION"
    else after_failures contract trajectory
        (sorted text_le (with_state fail trajectory.predicate_results))

refused : Refusal → String → Option Report
refused invalid reason = some (plain blocked reason)
refused unhashable reason = none

with_trajectory : Contract → Result Refusal Trajectory → Option Report
unfolding refused
with_trajectory contract (ok trajectory) = some (report_of contract trajectory)
with_trajectory contract (err refusal) = refused refusal "INVALID_TRAJECTORY"

with_contract : Json → Result Refusal Contract → Option Report
unfolding refused with_trajectory
with_contract trajectory (ok contract) =
    with_trajectory contract (read_trajectory trajectory contract)
with_contract trajectory (err refusal) = refused refusal "INVALID_CONTRACT"

-- `evaluate_completion`; `none` is a `TypeError`
unfoldable pub evaluate_completion : Json → Json → Option Report
unfolding with_contract
evaluate_completion contract trajectory = with_contract trajectory (read_contract contract)
