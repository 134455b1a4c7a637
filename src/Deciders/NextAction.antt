-- ===== src/Deciders/NextAction.antt =====
-- src/aios_tools/experimental/next_action_priority.py: an advisory ranking of actions that are
-- already legal. A valid action is read as its id and its factors.
pub mod Advisory
pub mod Ranks
mod Tests
use aios_tools.Prelude.{
  ℕ, String, Bool, true, false, not, ◌&&◌, ◌||◌, Option, none, some, List, [], ◌∷◌, map, leb, ltb,
  string_eq, all_distinct, if◌then◌else◌, Result, ok, err, raise_if, ◌>>=◌, ◌>>◌,
}
use aios_tools.Prelude.Json.{
  Json, boolean, Fields, Items, no_items, item, get, is_text, is_true, is_named, is_boolean,
  as_object, as_array, as_text, as_number, keys_of,
}
use aios_tools.Prelude.Order.{text_le}
use aios_tools.Prelude.Sets.{same_set}
use aios_tools.Prelude.Sort.{sorted}

pub data BlockedReason : Type 0 where
  invalid_packet invalid_policy_version invalid_scope invalid_execution_id empty_action_set
        invalid_action duplicate_action_id unavailable_action_present
        authority_incompatible_action_present :
      BlockedReason

packet_fields : List String
packet_fields = "policy_version" ∷ "scope_key" ∷ "execution_id" ∷ "actions" ∷ []

factor_fields : List String
factor_fields =
    "user_priority" ∷ "dependency_unblocking" ∷ "urgency" ∷ "expected_value" ∷ "evidence_readiness"
    ∷ "risk" ∷ "cost" ∷ "reversibility" ∷ "staleness" ∷ []

action_fields : List String
unfolding factor_fields
action_fields = "action_id" ∷ "available" ∷ "authority_compatible" ∷ factor_fields

-- What the ranking reads of an action.
pub record Action : Type 0 where
  pub action_id : String
  pub user_priority : ℕ
  pub dependency_unblocking : ℕ
  pub urgency : ℕ
  pub expected_value : ℕ
  pub evidence_readiness : ℕ
  pub risk : ℕ
  pub cost : ℕ
  pub reversibility : ℕ
  pub staleness : ℕ

-- An action with the flags of its admission.
pub record Candidate : Type 0 where
  pub action : Action
  pub available : Bool
  pub authority_compatible : Bool

-- The factors in the order of `_FACTOR_FIELDS`.
abbrev pub factors : Action → List ℕ
factors a =
    a.user_priority ∷ a.dependency_unblocking ∷ a.urgency ∷ a.expected_value ∷ a.evidence_readiness
    ∷ a.risk ∷ a.cost ∷ a.reversibility ∷ a.staleness ∷ []

factor : Option ℕ → Option ℕ
factor none = none
factor (some n) = if leb n 5 then some n else none

cons_factor : Option ℕ → Option (List ℕ) → Option (List ℕ)
cons_factor (some n) (some ns) = some (n ∷ ns)
cons_factor _ _ = none

factors_of : List String → Fields → Option (List ℕ)
unfolding factor cons_factor
factors_of [] action = some []
factors_of (key ∷ keys) action =
    cons_factor (factor (as_number (get key action))) (factors_of keys action)

with_factors : Fields → Option String → Option (List ℕ) → Option Candidate
with_factors action (some id) (some (p ∷ d ∷ u ∷ e ∷ v ∷ r ∷ c ∷ b ∷ s ∷ [])) = some (record {
  action = record {
    action_id = id;
    user_priority = p;
    dependency_unblocking = d;
    urgency = u;
    expected_value = e;
    evidence_readiness = v;
    risk = r;
    cost = c;
    reversibility = b;
    staleness = s;
  };
  available = is_true (get "available" action);
  authority_compatible = is_true (get "authority_compatible" action);
})
with_factors action _ _ = none

-- `_valid_action`, with what is read
read_action : Option Fields → Option Candidate
unfolding factors_of factor_fields action_fields with_factors
read_action none = none
read_action (some action) =
    if same_set (keys_of action) action_fields
      && is_named (get "action_id" action)
      && is_boolean (get "available" action)
      && is_boolean (get "authority_compatible" action)
    then with_factors action (as_text (get "action_id" action)) (factors_of factor_fields action)
    else none

cons_action : Option Candidate → Option (List Candidate) → Option (List Candidate)
cons_action (some c) (some cs) = some (c ∷ cs)
cons_action _ _ = none

read_actions : Items → Option (List Candidate)
unfolding read_action cons_action
read_actions no_items = some []
read_actions (item value rest) = cons_action (read_action (as_object value)) (read_actions rest)

all_available : List Candidate → Bool
all_available [] = true
all_available (a ∷ rest) = a.available && all_available rest

all_compatible : List Candidate → Bool
all_compatible [] = true
all_compatible (a ∷ rest) = a.authority_compatible && all_compatible rest

abbrev pub id_of : Candidate → String
id_of c = c.action.action_id

abbrev pub action_of : Candidate → Action
action_of c = c.action

object_or_blocked : Option Fields → Result BlockedReason Fields
object_or_blocked none = err invalid_packet
object_or_blocked (some fields) = ok fields

actions_or_blocked : Option (List Candidate) → Result BlockedReason (List Candidate)
actions_or_blocked none = err invalid_action
actions_or_blocked (some actions) = ok actions

items_or_blocked : Option Items → Result BlockedReason Items
items_or_blocked (some (item value rest)) = ok (item value rest)
items_or_blocked _ = err empty_action_set

-- `_valid_packet`, with the actions
unfoldable pub legal_actions : Json → Result BlockedReason (List Action)
unfolding object_or_blocked packet_fields read_actions actions_or_blocked items_or_blocked
    all_available all_compatible
legal_actions value = do
  packet ← object_or_blocked (as_object value)
  raise_if (not (same_set (keys_of packet) packet_fields)) invalid_packet
  raise_if (not (is_text (get "policy_version" packet) "0.1")) invalid_policy_version
  raise_if (not (is_text (get "scope_key" packet) "global-working-memory")) invalid_scope
  raise_if (not (is_named (get "execution_id" packet))) invalid_execution_id
  items ← items_or_blocked (as_array (get "actions" packet))
  actions ← actions_or_blocked (read_actions items)
  raise_if (not (all_distinct (map id_of actions))) duplicate_action_id
  raise_if (not (all_available actions)) unavailable_action_present
  raise_if (not (all_compatible actions)) authority_incompatible_action_present
  ok (map action_of actions)

-- Which factors count down in `_sort_key`: all but the risk and the cost.
abbrev pub falling : List Bool
falling = true ∷ true ∷ true ∷ true ∷ true ∷ false ∷ false ∷ true ∷ true ∷ []

-- The order of tuples, factor by factor; equal ones are left to `rest`.
unfoldable pub factors_le : List Bool → List ℕ → List ℕ → Bool → Bool
factors_le (down ∷ downs) (m ∷ ms) (n ∷ ns) rest =
    let later = factors_le downs ms ns rest in
    if ltb m n then not down else if ltb n m then down else later
factors_le _ _ _ rest = rest

-- `_sort_key(a) <= _sort_key(b)`
unfoldable pub action_le : Action → Action → Bool
action_le a b = factors_le falling (factors a) (factors b) (text_le a.action_id b.action_id)

pub data Ranking : Type 0 where
  blocked : BlockedReason → Ranking
  ranked : List Action → Ranking

ranking_of : Result BlockedReason (List Action) → Ranking
ranking_of (err reason) = blocked reason
ranking_of (ok actions) = ranked (sorted action_le actions)

-- `rank_legal_actions`: the ids and the evidence of a receipt are those of the ranked actions, and
-- the recommended action is the first of them.
unfoldable pub rank_legal_actions : Json → Ranking
unfolding ranking_of
rank_legal_actions packet = ranking_of (legal_actions packet)

unfoldable pub recommended_action : Ranking → Option String
recommended_action (ranked (a ∷ _)) = some a.action_id
recommended_action _ = none
