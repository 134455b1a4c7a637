-- ===== src/Browser/Policy/Admitted.antt =====
-- What the browser policy admits to the network.
use aios_tools.Prelude.{
  String, true, Option, some, ◌≡◌, inl, inr, refl, arith, contains, string_eq, eq_iff, ok,
  Result-cases, Option-cases,
}
use aios_tools.Prelude.Json.{
  Json, null, boolean, number, other_number, text, array, object, Fields, end, field, get, is_text,
  as_object,
}
use aios_tools.Governance.Registry.{network_effect_classes, remote_mutation_effect_classes}
use aios_tools.Browser.Policy.{
  check_in, text_in, is_compound, require, check_tool, check_tools, object_or, check_admitted,
  check_scope, check_effects, check_budgets, load_browser_policy, read_policy, same_text, covers,
  tools_of, browser_network_tool_admitted,
}

check_tools-get :
    (tools : Fields) (tool : String) (entry : Fields)
    → check_tools tools ≡ ok tt
    → as_object (get tool tools) ≡ some entry
    → check_tool entry ≡ ok tt
unfolding check_tools get as_object object_or
check_tools-get end tool entry h e = cc
check_tools-get (field name value rest) tool entry h e = elim (Option-cases (as_object value)) [
  | inl gone ↦ absurd (ground arith)
  | inr (own, p) ↦ elim (Result-cases (check_tool own)) [
    | inr (x, q) ↦ absurd (ground arith)
    | inl (u, q) ↦ ground (arith, check_tools-get rest tool entry)
  ]
]

-- A tool of a network effect class, in the mode that the class has.
pub record IsNetworkTool (metadata : Fields) : Type 0 where
  pub effect_class : String
  pub classified : get "effect_class" metadata ≡ text effect_class
  pub network : contains network_effect_classes effect_class ≡ true
  pub reading : effect_class ≡ "READ_NETWORK" → is_text (get "mode" metadata) "READ_ONLY" ≡ true
  pub writing :
      contains remote_mutation_effect_classes effect_class ≡ true
      → is_text (get "mode" metadata) "WRITE" ≡ true

is_text-text : (value : Json) (s : String) → is_text value s ≡ true → value ≡ text s
unfolding is_text
is_text-text null s e = cc
is_text-text (boolean _) s e = cc
is_text-text (number _) s e = cc
is_text-text other_number s e = cc
is_text-text (text t) s e = ground (arith, eq_iff t s)
is_text-text (array _) s e = cc
is_text-text (object _) s e = cc

same_text-text :
    (value expected : Json)
    → same_text value expected ≡ true
    → (s : String) × (expected ≡ text s) × (value ≡ text s)
unfolding same_text
same_text-text value null e = cc
same_text-text value (boolean _) e = cc
same_text-text value (number _) e = cc
same_text-text value other_number e = cc
same_text-text value (text s) e = (s, refl, is_text-text value s e)
same_text-text value (array _) e = cc
same_text-text value (object _) e = cc

-- The checks of one entry, read off an equal tool.
network_of :
    (effect_class mode : String) (entry metadata : Fields)
    → check_tool entry ≡ ok tt
    → get "effect_class" entry ≡ text effect_class
    → get "mode" entry ≡ text mode
    → get "effect_class" metadata ≡ text effect_class
    → get "mode" metadata ≡ text mode
    → IsNetworkTool metadata
unfolding check_tool check_in text_in require is_compound is_text
network_of effect_class mode entry metadata h p q r s = record {
  effect_class = effect_class;
  classified = r;
  network = ground arith;
  reading = λ e. ground (arith, eq_iff effect_class "READ_NETWORK");
  writing = λ e. ground arith;
}

covers-IsNetworkTool :
    (tools : Fields) (tool : String) (metadata : Fields)
    → check_tools tools ≡ ok tt
    → covers (as_object (get tool tools)) metadata ≡ true
    → IsNetworkTool metadata
unfolding covers
covers-IsNetworkTool tools tool metadata h e = elim (Option-cases (as_object (get tool tools))) [
  | inl gone ↦ absurd (ground arith)
  | inr (entry, p) ↦
      let (mode, m, m') = same_text-text (get "mode" metadata) (get "mode" entry) (ground arith) in
      let (effect_class, c, c') =
        same_text-text (get "effect_class" metadata) (get "effect_class" entry) (ground arith) in
      network_of effect_class mode entry metadata (check_tools-get tools tool entry h p) c m c' m'
]

check_admitted-tools :
    (value : Json) → check_admitted value ≡ ok tt → check_tools (tools_of (as_object value)) ≡ ok tt
unfolding check_admitted object_or tools_of
check_admitted-tools value e = elim (Option-cases (as_object value)) [
  | inl gone ↦ absurd (ground arith)
  | inr (admitted, p) ↦ ground arith
]

load_browser_policy-admits :
    (file : Option Json) (policy : Fields)
    → load_browser_policy file ≡ ok policy
    → check_tools (tools_of (as_object (get "admitted_tools" policy))) ≡ ok tt
unfolding load_browser_policy
load_browser_policy-admits file policy e = elim (Result-cases (read_policy file)) [
  | inr (x, p) ↦ absurd (ground arith)
  | inl (loaded, p) ↦ elim (Result-cases (check_scope loaded)) [
    | inr (x, q) ↦ absurd (ground arith)
    | inl (u, q) ↦ elim (Result-cases (check_admitted (get "admitted_tools" loaded))) [
      | inr (x, r) ↦ absurd (ground arith)
      | inl (v, r) ↦ elim (Result-cases (check_effects loaded)) [
        | inr (x, s) ↦ absurd (ground arith)
        | inl (w, s) ↦ elim (Result-cases (check_budgets loaded)) [
          | inr (x, t) ↦ absurd (ground arith)
          | inl (y, t) ↦
              let same : policy ≡ loaded = ground arith in
              rw same (check_admitted-tools (get "admitted_tools" loaded) r)
        ]
      ]
    ]
  ]
]

-- A tool is admitted to the network only if its own metadata has a network effect class and, for a
-- read, the mode READ_ONLY, for a remote mutation, the mode WRITE.
pub browser_network_tool_admitted-IsNetworkTool :
    (file : Option Json) (tool : String) (metadata : Fields)
    → browser_network_tool_admitted file tool metadata ≡ ok true
    → IsNetworkTool metadata
unfolding browser_network_tool_admitted
browser_network_tool_admitted-IsNetworkTool file tool metadata e =
    elim (Result-cases (load_browser_policy file)) [
      | inr (x, p) ↦ absurd (ground arith)
      | inl (policy, p) ↦
          covers-IsNetworkTool (tools_of (as_object (get "admitted_tools" policy))) tool metadata
            (load_browser_policy-admits file policy p) (ground arith)
    ]
