-- ===== src/Deciders/NextAction/Tests.antt =====
-- A packet of two actions in both orders: the risk decides, as nothing before it differs.
use aios_tools.Prelude.{
  ℕ, String, true, List, [], ◌∷◌, ◌≡◌, refl, string_eq, all_distinct, contains, ok, is_blank,
}
use aios_tools.Prelude.Json.{
  Json, Items, boolean, number, text, array, object, end, field, no_items, item, get, is_text,
  is_true, is_named, is_boolean, as_object, as_array, as_text, as_number, keys_of,
}
use aios_tools.Prelude.Sets.{same_set, is_subset}
use aios_tools.Prelude.Sort.{Reordered}
use aios_tools.Deciders.NextAction.{
  Action, legal_actions, ranked, rank_legal_actions, packet_fields, action_fields, factor_fields,
  factors_of, factor, cons_factor, with_factors, read_action, cons_action, read_actions,
  all_available, all_compatible, object_or_blocked, actions_or_blocked, items_or_blocked,
}
use aios_tools.Deciders.NextAction.Ranks.{IsRanked}
use aios_tools.Deciders.NextAction.Advisory.{rank_legal_actions-IsRanked}

abbrev action : String → ℕ → Json
action id risk = object (
    field "action_id" (text id) (
      field "available" (boolean true) (
        field "authority_compatible" (boolean true) (
          field "user_priority" (number 3) (
            field "dependency_unblocking" (number 0) (
              field "urgency" (number 0) (
                field "expected_value" (number 0) (
                  field "evidence_readiness" (number 0) (
                    field "risk" (number risk) (
                      field "cost" (number 0) (
                        field "reversibility" (number 0)
                          (field "staleness" (number 0) end))))))))))))

abbrev packet : Items → Json
packet actions = object (
    field "policy_version" (text "0.1") (
      field "scope_key" (text "global-working-memory")
        (field "execution_id" (text "e1") (field "actions" (array actions) end))))

abbrev risky_first : Json
risky_first = packet (item (action "a" 5) (item (action "b" 1) no_items))

abbrev safe_first : Json
safe_first = packet (item (action "b" 1) (item (action "a" 5) no_items))

abbrev read : String → ℕ → Action
read id r = record {
  action_id = id;
  user_priority = 3;
  dependency_unblocking = 0;
  urgency = 0;
  expected_value = 0;
  evidence_readiness = 0;
  risk = r;
  cost = 0;
  reversibility = 0;
  staleness = 0;
}

abbrev legal_risky : List Action
legal_risky = read "a" 5 ∷ read "b" 1 ∷ []

abbrev legal_safe : List Action
legal_safe = read "b" 1 ∷ read "a" 5 ∷ []

legal_risky_first : legal_actions risky_first ≡ ok legal_risky
unfolding legal_actions packet_fields action_fields factor_fields factors_of factor cons_factor
    with_factors read_action cons_action read_actions all_available all_compatible object_or_blocked
    actions_or_blocked items_or_blocked get is_text is_true is_named is_boolean as_object as_array
    as_text as_number keys_of same_set is_subset all_distinct contains is_blank
legal_risky_first = refl

legal_safe_first : legal_actions safe_first ≡ ok legal_safe
unfolding legal_actions packet_fields action_fields factor_fields factors_of factor cons_factor
    with_factors read_action cons_action read_actions all_available all_compatible object_or_blocked
    actions_or_blocked items_or_blocked get is_text is_true is_named is_boolean as_object as_array
    as_text as_number keys_of same_set is_subset all_distinct contains is_blank
legal_safe_first = refl

rank_legal_actions-IsRanked_example :
    (ranking : List Action) × (rank_legal_actions risky_first ≡ ranked ranking)
    × Reordered legal_risky ranking
    × IsRanked ranking
    × ((other : List Action) → Reordered legal_risky other → IsRanked other → other ≡ ranking)
rank_legal_actions-IsRanked_example =
    rank_legal_actions-IsRanked risky_first legal_risky legal_risky_first
