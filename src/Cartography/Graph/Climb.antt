-- ===== src/Cartography/Graph/Climb.antt =====
-- The loop of `_find_parent_cycles` ends: its fuel is enough.
use aios_tools.Prelude.{
  ℕ, zero, suc, ◌+◌, ◌<◌, String, true, List, [], ◌∷◌, ◌++◌, length, length-append, all_distinct,
  all_distinct-snoc, contains, ◌≡◌, ◌≢◌, refl, ap, arith, string_eq, ◌==◌, Result, ok, err,
  Bool-cases, Result-cases, inl, inr,
}
use aios_tools.Prelude.Dict.{lookup}
use aios_tools.Prelude.Sets.{is_subset, length_of_subset, is_subset-append}
use aios_tools.Cartography.Graph.{
  Nodes, Ascent, root, unhashable, up, ascent, parent_in, Climbed, no_cycle, raised, out_of_fuel,
  cycle, ascend, climb, climb_from, GraphError, Stop, no_fuel, cons_cycle, cycles_from,
  find_parent_cycles,
}

abbrev pub ids : Nodes → List String
ids [] = []
ids ((id, node) ∷ nodes) = id ∷ ids nodes

length-ids : (nodes : Nodes) → length (ids nodes) ≡ length nodes
length-ids [] = refl
length-ids ((id, node) ∷ nodes) = ap suc (length-ids nodes)

-- Only a node has a parent.
pub up-contains :
    (nodes : Nodes) (current parent : String)
    → ascent nodes current ≡ up parent
    → contains (ids nodes) current ≡ true
unfolding ascent lookup contains parent_in
up-contains [] current parent h = absurd (ground arith)
up-contains ((id, node) ∷ nodes) current parent h = ground (arith, up-contains nodes current parent)

ascend_enough :
    (above : String → Climbed) (a : Ascent)
    → ((parent : String) → a ≡ up parent → above parent ≢ out_of_fuel)
    → ascend above a ≢ out_of_fuel
unfolding ascend
ascend_enough above root h e = absurd (ground arith)
ascend_enough above unhashable h e = absurd (ground arith)
ascend_enough above (up parent) h e = h parent refl e

climb_enough :
    (fuel : ℕ) (nodes : Nodes) (current : String) (path : List String)
    → all_distinct path ≡ true
    → is_subset path (ids nodes) ≡ true
    → length nodes < fuel + length path
    → climb fuel nodes current path ≢ out_of_fuel
unfolding climb
climb_enough zero nodes current path d s l =
    absurd (omega (arith, l, length_of_subset path (ids nodes) d s, length-ids nodes))
climb_enough (suc fuel) nodes current path d s l = elim (Bool-cases (contains path current)) [
  | inl seen ↦ rw seen (λ e. absurd (ground arith))
  | inr new ↦ rw new (
      ascend_enough _ (ascent nodes current) (λ parent above.
        climb_enough fuel nodes parent (path ++ current ∷ []) (all_distinct-snoc path current d new)
          (is_subset-append path (ids nodes) current s (up-contains nodes current parent above))
          (omega (arith, l, length-append path (current ∷ [])))))
]

no_fuel_used :
    (climbed : Climbed) (errors : Result Stop (List GraphError))
    → climbed ≢ out_of_fuel
    → errors ≢ err no_fuel
    → cons_cycle climbed errors ≢ err no_fuel
unfolding cons_cycle
no_fuel_used no_cycle errors c h e = h e
no_fuel_used raised errors c h e = absurd (ground arith)
no_fuel_used out_of_fuel errors c h e = absurd (c refl)
no_fuel_used (cycle path) (ok errors) c h e = absurd (ground arith)
no_fuel_used (cycle path) (err stop) c h e = h (ground arith)

-- No loop for a start runs out of fuel.
pub climb_from_enough : (nodes : Nodes) (start : String) → climb_from nodes start ≢ out_of_fuel
unfolding climb_from all_distinct is_subset
climb_from_enough nodes start = elim (Bool-cases (start == "")) [
  | inl e ↦ rw e (λ h. absurd (ground arith))
  | inr e ↦ rw e (climb_enough (suc (length nodes)) nodes start [] refl refl (omega arith))
]

cycles_enough : (nodes starts : Nodes) → cycles_from nodes starts ≢ err no_fuel
unfolding cycles_from
cycles_enough nodes [] e = absurd (ground arith)
cycles_enough nodes ((start, node) ∷ starts) e =
    no_fuel_used (climb_from nodes start) (cycles_from nodes starts) (climb_from_enough nodes start)
      (cycles_enough nodes starts) e

-- The loops over the parents end on every dictionary of nodes, with or without cycles: one step more
-- than there are nodes is enough for each.
pub find_parent_cycles-ends : (nodes : Nodes) → find_parent_cycles nodes ≢ err no_fuel
unfolding find_parent_cycles
find_parent_cycles-ends nodes e = elim (Result-cases (cycles_from nodes nodes)) [
  | inl (errors, f) ↦ absurd (ground arith)
  | inr (stop, f) ↦ cycles_enough nodes nodes (ground arith)
]
