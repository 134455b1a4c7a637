-- ===== src/Browser/Policy/Tests.antt =====
-- A browser policy that admits one reading tool, and the theorem on it.
use aios_tools.Prelude.Sets.{is_subset, same_set}
use aios_tools.Prelude.{
  String, List, true, false, ◌≡◌, refl, string_eq, nat_eq, some, [], ◌∷◌, ok, contains,
}
use aios_tools.Prelude.Json.{
  Json, text, boolean, number, array, object, Fields, end, field, Items, no_items, item, get,
  has_field, has_fields, is_text, is_true, is_false, as_text, as_object, as_array, keys_of,
}
use aios_tools.Browser.Policy.{
  load_browser_policy, read_policy, check_scope, check_admitted, check_tools, check_tool,
  check_effects, check_budgets, browser_network_tool_admitted,
}
use aios_tools.Browser.Policy.Admitted.{IsNetworkTool, browser_network_tool_admitted-IsNetworkTool}

abbrev items : List String → Items
items [] = no_items
items (s ∷ ss) = item (text s) (items ss)

abbrev texts : List String → Json
texts ss = array (items ss)

abbrev all_with : Json → List String → Fields → Fields
all_with value [] rest = rest
all_with value (key ∷ keys) rest = field key value (all_with value keys rest)

abbrev yes : Json
yes = boolean true

abbrev tool : String → Fields
tool mode = field "mode" (text mode) (field "effect_class" (text "READ_NETWORK") end)

abbrev mutation : Fields
mutation =
    all_with yes
      ("one_shot_approval_required" ∷ "exact_target_required" ∷ "exact_method_required"
        ∷ "idempotency_key_required" ∷ "post_mutation_readback_required"
        ∷ "high_impact_ack_required" ∷ [])
      (field "ambiguous_state_retry" (boolean false)
        (field "max_redirects" (number 0) (field "max_retries" (number 0) end)))

abbrev limits : List String → Fields
limits keys = all_with (number 1) keys end

abbrev policy : Fields
policy = field "policy_version" (text "0.1") (
    field "runtime_state" (text "ACTIVE") (
      field "capability_id" (text "cap:browser-control") (
        field "admitted_tools" (object (field "browser.inspect" (object (tool "READ_ONLY")) end)) (
          field "allowed_schemes" (texts ("https" ∷ "http" ∷ [])) (
            field "read_http_methods" (texts ("GET" ∷ "HEAD" ∷ [])) (
              field "mutation_http_methods" (texts ("POST" ∷ "PUT" ∷ "PATCH" ∷ "DELETE" ∷ [])) (
                field "public_network_only" yes (
                  field "service_workers" (text "block") (
                    field "websocket_policy" (text "block") (
                      field "downloads" (text "quarantine") (
                        field "download_quarantine" (object (field "status" (text "ACTIVE") end)) (
                          field "upload_intake"
                            (object (
                              field "caller_filesystem_paths" (boolean false) (
                                field "in_memory_playwright_payload" yes
                                  (field "live_file_input_requires_mutation_grant" yes end))))
                            (field "mutation" (object mutation) (
                              field "budgets"
                                (object (
                                  limits (
                                    "elapsed_seconds" ∷ "network_requests" ∷ "pages" ∷ "websockets"
                                    ∷ "visible_text_chars" ∷ "mutations" ∷ "uploads" ∷ "downloads"
                                    ∷ [])))
                                (field "interactive"
                                  (object (
                                    limits (
                                      "max_sessions" ∷ "session_seconds" ∷ "network_requests"
                                      ∷ "actions" ∷ "observations" ∷ "action_batch"
                                      ∷ "visible_text_chars" ∷ "max_elements" ∷ [])))
                                  end)))))))))))))))

admissions : Unit {0}
unfolding load_browser_policy read_policy check_scope check_admitted check_tools check_tool
    check_effects check_budgets browser_network_tool_admitted is_subset same_set get has_field
    has_fields is_text is_true is_false as_text as_object as_array keys_of contains
admissions = tt

admit_inspect :
    browser_network_tool_admitted (some (object policy)) "browser.inspect" (tool "READ_ONLY")
    ≡ ok true
unfolding admissions
admit_inspect = refl

refuse_write :
    browser_network_tool_admitted (some (object policy)) "browser.inspect" (tool "WRITE") ≡ ok false
unfolding admissions
refuse_write = refl

browser_network_tool_admitted-IsNetworkTool_example : IsNetworkTool (tool "READ_ONLY")
browser_network_tool_admitted-IsNetworkTool_example =
    browser_network_tool_admitted-IsNetworkTool (some (object policy)) "browser.inspect"
      (tool "READ_ONLY") admit_inspect
