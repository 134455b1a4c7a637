-- ===== src/Governance/Policy/Closed.antt =====
-- What a policy that loads says: no network, no transfer of authority, approved local writes only.
use aios_tools.Prelude.Sets.{is_subset, is_subset-contains, same_set, same_set-contains}
use aios_tools.Prelude.{
  String, Bool, true, false, Option, some, List, [], ◌∷◌, ◌≡◌, inl, inr, refl, arith, contains,
  string_eq, eq_iff, ◌==◌, ok, Result-cases, Option-cases,
}
use aios_tools.Prelude.Json.{
  Json, null, boolean, number, other_number, text, array, object, Fields, Items, no_items, item,
  get, is_text, is_false, is_true, has_text, as_object, as_array, as_object-object,
}
use aios_tools.Governance.Registry.{effect_classes, network_effect_classes, items_of, load_json}
use aios_tools.Governance.Policy.{
  texts_of, distinct_texts, validated_string_set, is_disjoint, lists, check_modes, check_write,
  effects_of, check_taxonomy, check_effects, trust_of, trust_heads, check_trust, load_policy,
}

texts_of-contains :
    (items : Items) (ss : List String) (c : String)
    → texts_of items ≡ some ss
    → has_text c items ≡ contains ss c
unfolding texts_of has_text contains is_text
texts_of-contains no_items ss c e = ground arith
texts_of-contains (item (text s) rest) ss c e = elim (Option-cases (texts_of rest)) [
  | inl gone ↦ absurd (ground arith)
  | inr (others, p) ↦ ground (arith, texts_of-contains rest others c p)
]
texts_of-contains (item null rest) ss c e = cc
texts_of-contains (item (boolean _) rest) ss c e = cc
texts_of-contains (item (number _) rest) ss c e = cc
texts_of-contains (item other_number rest) ss c e = cc
texts_of-contains (item (array _) rest) ss c e = cc
texts_of-contains (item (object _) rest) ss c e = cc

-- A validated list has the texts of its set.
string_set-contains :
    (value : Json) (allow_empty : Bool) (ss : List String) (c : String)
    → validated_string_set value allow_empty ≡ ok ss
    → has_text c (items_of (as_array value)) ≡ contains ss c
unfolding validated_string_set distinct_texts has_text contains as_array
string_set-contains null a ss c e = cc
string_set-contains (boolean _) a ss c e = cc
string_set-contains (number _) a ss c e = cc
string_set-contains other_number a ss c e = cc
string_set-contains (text _) a ss c e = cc
string_set-contains (object _) a ss c e = cc
string_set-contains (array no_items) a ss c e = ground arith
string_set-contains (array (item value rest)) a ss c e =
    elim (Option-cases (texts_of (item value rest))) [
      | inl gone ↦ absurd (ground arith)
      | inr (others, p) ↦ ground (arith, texts_of-contains (item value rest) others c p)
    ]

is_disjoint-contains :
    (xs ys : List String) (c : String)
    → is_disjoint xs ys ≡ true
    → contains ys c ≡ true
    → contains xs c ≡ false
unfolding is_disjoint contains
is_disjoint-contains [] ys c h p = refl
is_disjoint-contains (x ∷ xs) ys c h p = ground (arith, eq_iff x c, is_disjoint-contains xs ys c)

-- The effect policy knows the network classes and admits none of them.
pub record Effects (effects : Fields) : Type 0 where
  pub network :
      (c : String) → lists "network_effect_classes" c effects ≡ contains network_effect_classes c
  pub closed :
      (c : String)
      → contains network_effect_classes c ≡ true
      → lists "allowed_effect_classes" c effects ≡ false
  pub known :
      (c : String)
      → lists "allowed_effect_classes" c effects ≡ true
      → contains effect_classes c ≡ true

-- The trust binding is demanded of `system.health` and nothing else.
pub record Trusted (trust : Fields) : Type 0 where
  pub required : is_text (get "required_decision" trust) "ADMIT" ≡ true
  pub enforced : (tool : String) → lists "enforced_tools" tool trust ≡ (tool == "system.health")

pub record IsClosed (policy : Fields) : Type 0 where
  pub no_network : is_false (get "external_network_effects_enabled" policy) ≡ true
  pub no_authority : is_false (get "authority_transfer_allowed" policy) ≡ true
  pub write_durable :
      lists "allowed_modes" "WRITE" policy ≡ true
      → is_true (get "durable_writes_enabled" policy) ≡ true
  pub write_approved :
      lists "allowed_modes" "WRITE" policy ≡ true
      → lists "approval_required_for" "WRITE" policy ≡ true
  pub write_local :
      lists "allowed_modes" "WRITE" policy ≡ true
      → is_text (get "write_scope" policy) "LOCAL_ARTIFACTS_ONLY" ≡ true
  pub effects : Fields
  pub effect_policy : get "effect_policy" policy ≡ object effects
  pub of_effects : Effects effects
  pub trust : Fields
  pub trust_policy : get "execution_trust_binding" policy ≡ object trust
  pub of_trust : Trusted trust

Effects-of :
    (effects : Fields) (known allowed network : List String)
    → validated_string_set (get "known_effect_classes" effects) false ≡ ok known
    → validated_string_set (get "allowed_effect_classes" effects) true ≡ ok allowed
    → validated_string_set (get "network_effect_classes" effects) false ≡ ok network
    → same_set known effect_classes ≡ true
    → same_set network network_effect_classes ≡ true
    → is_subset allowed known ≡ true
    → is_disjoint allowed network ≡ true
    → Effects effects
unfolding lists
Effects-of effects known allowed network of_known of_allowed of_network same_known same_network sub
      apart =
    record {
      network = λ c. ground (
        arith,
        string_set-contains (get "network_effect_classes" effects) false network c of_network,
        same_set-contains network network_effect_classes c same_network,
      );
      closed = λ c h. ground (
        arith,
        string_set-contains (get "allowed_effect_classes" effects) true allowed c of_allowed,
        same_set-contains network network_effect_classes c same_network,
        is_disjoint-contains allowed network c apart,
      );
      known = λ c h. ground (
        arith,
        string_set-contains (get "allowed_effect_classes" effects) true allowed c of_allowed,
        is_subset-contains allowed known c sub,
        same_set-contains known effect_classes c same_known,
      );
    }

check_effects-Effects :
    (value : Json)
    → check_effects value ≡ ok tt
    → (effects : Fields) × (value ≡ object effects) × Effects effects
unfolding check_effects effects_of check_taxonomy lists
check_effects-Effects value e = elim (Option-cases (as_object value)) [
  | inl gone ↦ absurd (ground arith)
  | inr (effects, p) ↦
      elim (Result-cases (validated_string_set (get "known_effect_classes" effects) false)) [
        | inr (x, q) ↦ absurd (ground arith)
        | inl (known, of_known) ↦
            elim (Result-cases (validated_string_set (get "allowed_effect_classes" effects) true)) [
              | inr (x, q) ↦ absurd (ground arith)
              | inl (allowed, of_allowed) ↦
                  elim (Result-cases
                    (validated_string_set (get "network_effect_classes" effects) false)) [
                      | inr (x, q) ↦ absurd (ground arith)
                      | inl (network, of_network) ↦ (
                        effects,
                        as_object-object value effects p,
                        Effects-of effects known allowed network of_known of_allowed of_network
                            (ground arith) (ground arith) (ground arith) (ground arith),
                      )
                    ]
            ]
      ]
]

health_only :
    (value : Json) (enforced : List String) (tool : String)
    → validated_string_set value false ≡ ok enforced
    → same_set enforced ("system.health" ∷ []) ≡ true
    → has_text tool (items_of (as_array value)) ≡ (tool == "system.health")
unfolding contains
health_only value enforced tool of_enforced same = ground (
  arith,
  string_set-contains value false enforced tool of_enforced,
  same_set-contains enforced ("system.health" ∷ []) tool same,
  eq_iff tool "system.health",
  eq_iff "system.health" tool,
)

check_trust-Trusted :
    (value : Json)
    → check_trust value ≡ ok tt
    → (trust : Fields) × (value ≡ object trust) × Trusted trust
unfolding check_trust trust_of trust_heads lists
check_trust-Trusted value e = elim (Option-cases (as_object value)) [
  | inl gone ↦ absurd (ground arith)
  | inr (trust, p) ↦ elim (Result-cases (validated_string_set (get "enforced_tools" trust) false)) [
    | inr (x, q) ↦ absurd (ground arith)
    | inl (enforced, of_enforced) ↦ (
      trust,
      as_object-object value trust p,
      record {
        required = ground arith;
        enforced = λ tool.
            health_only (get "enforced_tools" trust) enforced tool of_enforced (ground arith);
      },
    )
  ]
]

-- The checks that a policy has passed when it loads.
load_policy-passes :
    (same_value : Json → Json → Bool) (file : Option Json) (policy : Fields)
    → load_policy same_value file ≡ ok policy
    → (check_modes same_value policy ≡ ok tt)
      × (check_write policy ≡ ok tt)
      × (check_effects (get "effect_policy" policy) ≡ ok tt)
      × (check_trust (get "execution_trust_binding" policy) ≡ ok tt)
unfolding load_policy
load_policy-passes same_value file policy e = elim (Result-cases (load_json file)) [
  | inr (x, p) ↦ absurd (ground arith)
  | inl (loaded, p) ↦ elim (Result-cases (check_modes same_value loaded)) [
    | inr (x, q) ↦ absurd (ground arith)
    | inl (u, q) ↦ elim (Result-cases (check_write loaded)) [
      | inr (x, r) ↦ absurd (ground arith)
      | inl (v, r) ↦ elim (Result-cases (check_effects (get "effect_policy" loaded))) [
        | inr (x, t) ↦ absurd (ground arith)
        | inl (w, t) ↦ elim (Result-cases (check_trust (get "execution_trust_binding" loaded))) [
          | inr (x, z) ↦ absurd (ground arith)
          | inl (y, z) ↦
              let same : policy ≡ loaded = ground arith in
              (rw same q, rw same r, rw same t, rw same z)
        ]
      ]
    ]
  ]
]

-- A policy that loads keeps the network and the transfer of authority shut, lets a WRITE mode be
-- only with durable local writes that need approval, admits only known effect classes and no
-- network class, and demands an ADMIT of the trust binding for `system.health` and no other tool.
pub load_policy-IsClosed :
    (same_value : Json → Json → Bool) (file : Option Json) (policy : Fields)
    → load_policy same_value file ≡ ok policy
    → IsClosed policy
unfolding check_modes check_write
load_policy-IsClosed same_value file policy e =
    let (modes, write, effects, trust) = load_policy-passes same_value file policy e in
    let (the_effects, effects_there, of_effects) =
      check_effects-Effects (get "effect_policy" policy) effects in
    let (the_trust, trust_there, of_trust) =
      check_trust-Trusted (get "execution_trust_binding" policy) trust in
    record {
      no_network = ground arith;
      no_authority = ground arith;
      write_durable = λ h. ground arith;
      write_approved = λ h. ground arith;
      write_local = λ h. ground arith;
      effects = the_effects;
      effect_policy = effects_there;
      of_effects = of_effects;
      trust = the_trust;
      trust_policy = trust_there;
      of_trust = of_trust;
    }
