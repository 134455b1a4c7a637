-- ===== src/Cartography/Graph/Acyclic.antt =====
-- `_find_parent_cycles` decides whether a node stands above itself.
use aios_tools.Prelude.{
  ℕ, zero, suc, String, true, Option, none, some, List, [], ◌∷◌, ◌++◌, All, contains, length, ◌≡◌,
  ◌≢◌, ◌↔◌, refl, sym, ap, ◌∙◌, arith, string_eq, eq_iff, ◌==◌, Result, ok, err, step_returned,
  Bool-cases, eq→path, inl, inr,
}
use aios_tools.Prelude.Dict.{lookup}
use aios_tools.Prelude.Json.{
  Json, null, boolean, number, other_number, text, array, object, Fields, end, field, no_items,
  item, get,
}
use aios_tools.Cartography.Graph.{
  Nodes, Ascent, root, unhashable, up, ascent, ascent_of, parent_in, Climbed, no_cycle, raised,
  out_of_fuel, cycle, ascend, climb, climb_from, GraphError, Stop, cons_cycle, cycles_from,
  unique_errors, find_parent_cycles,
}
use aios_tools.Cartography.Graph.Climb.{ids, up-contains}

-- The second is an ancestor of the first.
pub data Above (nodes : Nodes) : String → String → Type 0 where
  parent : {a b : String} → ascent nodes a ≡ up b → Above nodes a b
  further : {a b c : String} → ascent nodes a ≡ up b → Above nodes b c → Above nodes a c

-- The way up from a node comes to an end.
data Ends (nodes : Nodes) : String → Type 0 where
  at_root : {a : String} → ascent nodes a ≡ root → Ends nodes a
  above : {a b : String} → ascent nodes a ≡ up b → Ends nodes b → Ends nodes a

module _ (nodes : Nodes) where
  Above-snoc : {a b c : String} → Above nodes a b → ascent nodes b ≡ up c → Above nodes a c
  Above-snoc (parent p) u = further p (parent u)
  Above-snoc (further p q) u = further p (Above-snoc q u)

  next : (a b c : String) → ascent nodes a ≡ up b → ascent nodes a ≡ up c → b ≡ c
  next a b c p q = ground arith

  rotated : (a b : String) → Above nodes a a → ascent nodes a ≡ up b → Above nodes b b
  rotated a b (parent p) u = rw (next a b a u p) (parent p)
  rotated a b (further {b = other} p q) u = rw (next a b other u p) (Above-snoc q p)

  Ends-not-Above : {a : String} → Ends nodes a → Above nodes a a → ⊥
  Ends-not-Above (at_root r) (parent p) = absurd (ground arith)
  Ends-not-Above (at_root r) (further p q) = absurd (ground arith)
  Ends-not-Above (above {a = a} {b = b} u e) q = Ends-not-Above e (rotated a b q u)

  All-contains :
      (path : List String) (current : String)
      → All (λ x. Above nodes x current) path
      → contains path current ≡ true
      → Above nodes current current
  unfolding contains
  All-contains [] current h c = absurd (ground arith)
  All-contains (x ∷ path) current h c = elim (Bool-cases (x == current)) [
    | inl same ↦
        let moved : Above nodes x current → Above nodes current current =
          rw (eq→path x current same) (λ q. q) in
        moved h.0
    | inr other ↦ All-contains path current h.1 (ground arith)
  ]

  All-up :
      (path : List String) (current up_to : String)
      → ascent nodes current ≡ up up_to
      → All (λ x. Above nodes x current) path
      → All (λ x. Above nodes x up_to) (path ++ current ∷ [])
  All-up [] current up_to u h = (parent u, tt)
  All-up (x ∷ path) current up_to u h = (Above-snoc h.0 u, All-up path current up_to u h.1)

  Verdict : String → Climbed → Type 0
  Verdict current no_cycle = Ends nodes current
  Verdict current (cycle path) = (c : String) × Above nodes c c
  Verdict current raised = Unit
  Verdict current out_of_fuel = Unit

  ascend-Verdict :
      (current : String) (onward : String → Climbed) (a : Ascent)
      → ascent nodes current ≡ a
      → ((up_to : String) → ascent nodes current ≡ up up_to → Verdict up_to (onward up_to))
      → Verdict current (ascend onward a)
  unfolding ascend Verdict
  ascend-Verdict current onward root e h = at_root e
  ascend-Verdict current onward unhashable e h = tt
  ascend-Verdict current onward (up up_to) e h = lifted (onward up_to) (h up_to e)
    where
      lifted : (climbed : Climbed) → Verdict up_to climbed → Verdict current climbed
      lifted no_cycle v = above e v
      lifted (cycle path) v = v
      lifted raised v = tt
      lifted out_of_fuel v = tt

  climb-Verdict :
      (fuel : ℕ) (current : String) (path : List String)
      → All (λ x. Above nodes x current) path
      → Verdict current (climb fuel nodes current path)
  unfolding climb Verdict
  climb-Verdict zero current path h = tt
  climb-Verdict (suc fuel) current path h = elim (Bool-cases (contains path current)) [
    | inl seen ↦ rw seen (current, All-contains path current h seen)
    | inr new ↦ rw new (
        ascend-Verdict current _ (ascent nodes current) refl (λ up_to u.
          climb-Verdict fuel up_to (path ++ current ∷ []) (All-up path current up_to u h)))
  ]

  climb_from-Verdict : (start : String) → start ≢ "" → Verdict start (climb_from nodes start)
  unfolding climb_from
  climb_from-Verdict start n = elim (Bool-cases (start == "")) [
    | inl e ↦ absurd (n (eq→path start "" e))
    | inr e ↦ rw e (climb-Verdict (suc (length nodes)) start [] tt)
  ]

  none_left :
      (climbed : Climbed) (errors : Result Stop (List GraphError))
      → cons_cycle climbed errors ≡ ok []
      → (climbed ≡ no_cycle) × (errors ≡ ok [])
  unfolding cons_cycle
  none_left no_cycle errors h = (refl, h)
  none_left raised errors h = absurd (ground arith)
  none_left out_of_fuel errors h = absurd (ground arith)
  none_left (cycle path) (ok errors) h = absurd (ground arith)
  none_left (cycle path) (err stop) h = absurd (ground arith)

  none_found :
      (starts : Nodes) (c : String)
      → cycles_from nodes starts ≡ ok []
      → contains (ids starts) c ≡ true
      → climb_from nodes c ≡ no_cycle
  unfolding cycles_from contains
  none_found [] c h k = absurd (ground arith)
  none_found ((start, node) ∷ starts) c h k =
      let (here, rest) = none_left (climb_from nodes start) (cycles_from nodes starts) h in
      elim (Bool-cases (start == c)) [
        | inl same ↦ ap (climb_from nodes) (sym (eq→path start c same)) ∙ here
        | inr other ↦ none_found starts c rest (ground arith)
      ]

  Found : List GraphError → Type 0
  Found [] = Unit
  Found (e ∷ errors) = (c : String) × Above nodes c c

  cons-Found :
      (start : String) (climbed : Climbed) (rest : Result Stop (List GraphError))
      (errors : List GraphError)
      → Verdict start climbed
      → ((later : List GraphError) → rest ≡ ok later → Found later)
      → cons_cycle climbed rest ≡ ok errors
      → Found errors
  unfolding cons_cycle Verdict Found
  cons-Found start no_cycle rest errors v f h = f errors h
  cons-Found start raised rest errors v f h = absurd (ground arith)
  cons-Found start out_of_fuel rest errors v f h = absurd (ground arith)
  cons-Found start (cycle path) (err stop) errors v f h = absurd (ground arith)
  cons-Found start (cycle path) (ok later) [] v f h = tt
  cons-Found start (cycle path) (ok later) (e ∷ errors) v f h = v

  empty_start :
      (rest : Result Stop (List GraphError)) → cons_cycle (climb_from nodes "") rest ≡ rest
  unfolding cons_cycle climb_from
  empty_start rest = refl

  cycles-Found :
      (starts : Nodes) (errors : List GraphError)
      → cycles_from nodes starts ≡ ok errors
      → Found errors
  unfolding cycles_from Found
  cycles-Found [] [] h = tt
  cycles-Found [] (e ∷ errors) h = absurd (ground arith)
  cycles-Found ((start, node) ∷ starts) errors h = elim (Bool-cases (start == "")) [
    | inl e ↦
        let none_here =
          ap (λ s. cons_cycle (climb_from nodes s) (cycles_from nodes starts)) (eq→path start "" e)
          ∙ empty_start (cycles_from nodes starts) in
        cycles-Found starts errors (sym none_here ∙ h)
    | inr e ↦
        cons-Found start (climb_from nodes start) (cycles_from nodes starts) errors
          (climb_from-Verdict start (λ same. absurd (ground (arith, eq_iff start ""))))
          (cycles-Found starts) h
  ]

  named_parent : (value : Json) (b : String) → ascent_of value ≡ up b → b ≢ ""
  unfolding ascent_of
  named_parent null b h e = absurd (ground arith)
  named_parent (boolean c) b h e = absurd (ground arith)
  named_parent (number n) b h e = absurd (ground arith)
  named_parent other_number b h e = absurd (ground arith)
  named_parent (text s) b h e = absurd (ground (arith, eq_iff s ""))
  named_parent (array no_items) b h e = absurd (ground arith)
  named_parent (array (item value rest)) b h e = absurd (ground arith)
  named_parent (object end) b h e = absurd (ground arith)
  named_parent (object (field key value rest)) b h e = absurd (ground arith)

  named_above : (node : Option Fields) (b : String) → parent_in node ≡ up b → b ≢ ""
  unfolding parent_in
  named_above none b h e = absurd (ground arith)
  named_above (some node) b h e = named_parent (get "parent_node_id" node) b h e

  on_cycle_named : (c d : String) → Above nodes c d → d ≢ ""
  unfolding ascent
  on_cycle_named c d (parent u) = named_above (lookup c nodes) d u
  on_cycle_named c d (further {b = b} u q) = on_cycle_named b d q

  on_cycle_node : (c d : String) → Above nodes c d → contains (ids nodes) c ≡ true
  on_cycle_node c d (parent u) = up-contains nodes c d u
  on_cycle_node c d (further {b = b} u q) = up-contains nodes c b u

  ended : (c : String) (climbed : Climbed) → Verdict c climbed → climbed ≡ no_cycle → Ends nodes c
  unfolding Verdict
  ended c no_cycle v e = v
  ended c raised v e = absurd (ground arith)
  ended c out_of_fuel v e = absurd (ground arith)
  ended c (cycle path) v e = absurd (ground arith)

  no_cycles : cycles_from nodes nodes ≡ ok [] → (c : String) → Above nodes c c → ⊥
  no_cycles h c q =
      Ends-not-Above
        (ended c (climb_from nodes c) (climb_from-Verdict c (on_cycle_named c c q))
          (none_found nodes c h (on_cycle_node c c q)))
        q

  unfounded :
      (errors : List GraphError) → Found errors → ((c : String) → Above nodes c c → ⊥) → errors ≡ []
  unfolding Found
  unfounded [] f n = refl
  unfounded (e ∷ errors) (c, q) n = absurd (n c q)

  none_unique : (errors : List GraphError) → unique_errors errors ≡ [] → errors ≡ []
  unfolding unique_errors
  none_unique [] h = refl
  none_unique (e ∷ errors) h = absurd (ground arith)

  -- If `_find_parent_cycles` returns, it has no error just when no node stands above itself.
  pub find_parent_cycles-Above :
      (errors : List GraphError)
      → find_parent_cycles nodes ≡ ok errors
      → (errors ≡ []) ↔ ((c : String) → Above nodes c c → ⊥)
  unfolding find_parent_cycles unique_errors
  find_parent_cycles-Above errors h =
      let (found, e, f) = step_returned (cycles_from nodes nodes) _ h in
      let same : unique_errors found ≡ errors = ground arith in
      (
        λ none_there. no_cycles (e ∙ ap ok (none_unique found (same ∙ none_there))),
        λ none_above.
            let gone : found ≡ [] = unfounded found (cycles-Found nodes found e) none_above in
            sym same ∙ ap unique_errors gone,
      )
