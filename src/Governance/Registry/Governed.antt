-- ===== src/Governance/Registry/Governed.antt =====
-- Every tool of a loaded registry is governed and has a handler.
use aios_tools.Prelude.Sets.{is_subset, is_subset-contains, same_set}
use aios_tools.Prelude.{
  String, true, false, Option, none, some, List, [], ◌∷◌, ◌≡◌, inl, inr, arith, contains, string_eq,
  eq_iff, ◌==◌, ok, step_returned, Result-cases, Option-cases, Bool-cases,
}
use aios_tools.Prelude.Dict.{Dict, lookup, insert, lookup-insert}
use aios_tools.Prelude.Json.{
  Json, null, boolean, number, other_number, text, array, object, Fields, Items, no_items, item,
  get, has_fields, is_false, as_text, as_object, as_array,
}
use aios_tools.Governance.Registry.{
  effect_classes, effect_class_of, mode_conflicts, add_entry, read_entry, add_entries, names_of,
  load_registry, load_json, entry_keys, non_empty_text, items_of,
}

-- An entry that the loader admits under a name.
pub record IsGoverned (name : String) (entry : Fields) : Type 0 where
  pub effect_class : String
  pub fields_there : has_fields entry_keys entry ≡ true
  pub named : as_text (get "name" entry) ≡ some name
  pub no_transfer : is_false (get "authority_transfer" entry) ≡ true
  pub classified : get "effect_class" entry ≡ text effect_class
  pub known : contains effect_classes effect_class ≡ true
  pub consistent : mode_conflicts effect_class (get "mode" entry) ≡ false

effect_class_of-ok :
    (value : Json) (effect_class : String)
    → effect_class_of value ≡ ok effect_class
    → (value ≡ text effect_class) × (contains effect_classes effect_class ≡ true)
unfolding effect_class_of
effect_class_of-ok null c e = cc
effect_class_of-ok (boolean _) c e = cc
effect_class_of-ok (number _) c e = cc
effect_class_of-ok other_number c e = cc
effect_class_of-ok (text s) c e = (ground arith, ground arith)
effect_class_of-ok (array _) c e = cc
effect_class_of-ok (object _) c e = cc

-- Every entry of a registry is governed.
abbrev pub AllGoverned : Dict String Fields → Type 0
AllGoverned registry =
    (name : String) (entry : Fields) → lookup name registry ≡ some entry → IsGoverned name entry

add_entry-ok :
    (entry : Fields) (before after : Dict String Fields)
    → add_entry entry before ≡ ok after
    → (name : String) × IsGoverned name entry × (after ≡ insert name entry before)
unfolding add_entry non_empty_text
add_entry-ok entry before after e = elim (Option-cases (as_text (get "name" entry))) [
  | inl gone ↦ absurd (ground arith)
  | inr (name, p) ↦ elim (Result-cases (effect_class_of (get "effect_class" entry))) [
    | inr (x, q) ↦ absurd (ground arith)
    | inl (effect_class, q) ↦ (
      name,
      record {
        effect_class = effect_class;
        fields_there = ground arith;
        named = p;
        no_transfer = ground arith;
        classified = (effect_class_of-ok (get "effect_class" entry) effect_class q).0;
        known = (effect_class_of-ok (get "effect_class" entry) effect_class q).1;
        consistent = ground arith;
      },
      ground arith,
    )
  ]
]

governs-insert :
    (own : String) (entry : Fields) (before : Dict String Fields)
    → AllGoverned before
    → IsGoverned own entry
    → AllGoverned (insert own entry before)
governs-insert own entry before h g name found s = elim (Bool-cases (own == name)) [
  | inl same ↦
      let own_name : name ≡ own = ground (arith, eq_iff own name) in
      let own_entry : found ≡ entry = ground (arith, lookup-insert own name entry before) in
      rw own_name (rw own_entry g)
  | inr other ↦ h name found (ground (arith, lookup-insert own name entry before))
]

read_entry-governs :
    (value : Option Fields) (before after : Dict String Fields)
    → AllGoverned before
    → read_entry value before ≡ ok after
    → AllGoverned after
unfolding read_entry
read_entry-governs none before after h e = cc
read_entry-governs (some entry) before after h e =
    let (name, governed, extended) = add_entry-ok entry before after e in
    rw extended (governs-insert name entry before h governed)

add_entries-governs :
    (items : Items) (before after : Dict String Fields)
    → AllGoverned before
    → add_entries items before ≡ ok after
    → AllGoverned after
unfolding add_entries
add_entries-governs no_items before after h e =
    let same : after ≡ before = ground arith in rw same h
add_entries-governs (item value rest) before after h e =
    let (middle, p, q) = step_returned (read_entry (as_object value) before) (add_entries rest) e in
    add_entries-governs rest middle after (read_entry-governs (as_object value) before middle h p) q

names_of-lookup :
    (registry : Dict String Fields) (name : String) (entry : Fields)
    → lookup name registry ≡ some entry
    → contains (names_of registry) name ≡ true
unfolding lookup names_of contains
names_of-lookup [] name entry e = cc
names_of-lookup ((own, found) ∷ rest) name entry e =
    ground (arith, eq_iff own name, eq_iff name own, names_of-lookup rest name entry)

load_registry-loaded :
    (file : Option Json) (handlers : List String) (registry : Dict String Fields) (version : String)
    → load_registry file handlers ≡ ok (registry, version)
    → (tools : Items) × (add_entries tools [] ≡ ok registry)
      × (is_subset (names_of registry) handlers ≡ true)
unfolding load_registry same_set
load_registry-loaded file handlers registry version e = elim (Result-cases (load_json file)) [
  | inr (x, p) ↦ absurd (ground arith)
  | inl (document, p) ↦
      elim (Result-cases (add_entries (items_of (as_array (get "tools" document))) [])) [
        | inr (x, q) ↦ absurd (ground arith)
        | inl (loaded, q) ↦ (items_of (as_array (get "tools" document)), ground arith, ground arith)
      ]
]

-- Every tool of a registry that loads has the fields of an entry, under its own name, a known effect
-- class that its mode allows, no transfer of authority, and a handler.
pub load_registry-IsGoverned :
    (file : Option Json) (handlers : List String) (registry : Dict String Fields)
    (version tool : String) (entry : Fields)
    → load_registry file handlers ≡ ok (registry, version)
    → lookup tool registry ≡ some entry
    → IsGoverned tool entry × (contains handlers tool ≡ true)
unfolding load_registry lookup
load_registry-IsGoverned file handlers registry version tool entry e s =
    let (tools, added, same) = load_registry-loaded file handlers registry version e in
    (
      add_entries-governs tools [] registry (λ name found absent. cc) added tool entry s,
      is_subset-contains (names_of registry) handlers tool same
          (names_of-lookup registry tool entry s),
    )
