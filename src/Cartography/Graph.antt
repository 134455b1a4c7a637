-- ===== src/Cartography/Graph.antt =====
-- src/aios_tools/cartography/graph_ir.py: the check of the parent hierarchy. The nodes are the
-- dictionary `nodes_by_id`; the loop runs on fuel.
pub mod Climb
pub mod Acyclic
mod Tests
use Prim.Native.String.{◌++◌ as ◌+++◌}
use aios_tools.Prelude.{
  ℕ, zero, suc, String, Bool, true, false, Option, none, some, List, [], ◌∷◌, ◌++◌, length,
  contains, string_eq, ◌==◌, if◌then◌else◌, Result, ok, err, ◌>>=◌, ◌>>◌,
}
use aios_tools.Prelude.Dict.{Dict, lookup}
use aios_tools.Prelude.Json.{
  Json, null, boolean, number, other_number, text, array, object, Fields, end, no_items, get,
}

abbrev pub Nodes : Type 0
Nodes = Dict String Fields

-- Where the loop goes from a node: out of it, on to a parent, or into the `TypeError` of a parent
-- that has no hash. A parent that is no text is the id of no node, and the loop ends there.
pub data Ascent : Type 0 where
  root unhashable : Ascent
  up : String → Ascent

ascent_of : Json → Ascent
ascent_of (text s) = if s == "" then root else up s
ascent_of (array no_items) = root
ascent_of (array _) = unhashable
ascent_of (object end) = root
ascent_of (object _) = unhashable
ascent_of _ = root

parent_in : Option Fields → Ascent
unfolding ascent_of
parent_in none = root
parent_in (some node) = ascent_of (get "parent_node_id" node)

-- `nodes_by_id.get(current, {}).get("parent_node_id")`
unfoldable pub ascent : Nodes → String → Ascent
unfolding parent_in
ascent nodes current = parent_in (lookup current nodes)

-- How the loop for one start ends; the ids of a cycle are the path with the node that closes it.
pub data Climbed : Type 0 where
  no_cycle raised out_of_fuel : Climbed
  cycle : List String → Climbed

ascend : (String → Climbed) → Ascent → Climbed
ascend above root = no_cycle
ascend above unhashable = raised
ascend above (up parent) = above parent

-- The `while` loop: the path is also what was seen.
unfoldable pub climb : ℕ → Nodes → String → List String → Climbed
unfolding ascend
climb zero nodes current path = out_of_fuel
climb (suc fuel) nodes current path =
    let later =
      ascend (λ parent. climb fuel nodes parent (path ++ current ∷ [])) (ascent nodes current) in
    if contains path current then cycle (path ++ current ∷ []) else later

-- The loop for one start: every step but the last is at a node that was not seen.
unfoldable pub climb_from : Nodes → String → Climbed
climb_from nodes start = if start == "" then no_cycle else climb (suc (length nodes)) nodes start []

pub record GraphError : Type 0 where
  pub code : String
  pub message : String
  pub pointer : String

-- `" -> ".join(path)`
unfoldable pub joined : List String → String
joined [] = ""
joined (id ∷ []) = id
joined (id ∷ next ∷ path) = id +++ " -> " +++ joined (next ∷ path)

unfoldable pub cycle_error : List String → GraphError
unfolding joined
cycle_error path = record {
  code = "HIERARCHY_CYCLE";
  message = "Parent hierarchy cycle: " +++ joined path;
  pointer = "/nodes";
}

pub data Stop : Type 0 where
  type_error no_fuel : Stop

cons_cycle : Climbed → Result Stop (List GraphError) → Result Stop (List GraphError)
cons_cycle (cycle path) errors = do later ← errors; ok (cycle_error path ∷ later)
cons_cycle no_cycle errors = errors
cons_cycle raised errors = err type_error
cons_cycle out_of_fuel errors = err no_fuel

-- The loop over the starts.
unfoldable pub cycles_from : Nodes → Nodes → Result Stop (List GraphError)
unfolding cons_cycle
cycles_from nodes [] = ok []
cycles_from nodes ((start, node) ∷ starts) =
    cons_cycle (climb_from nodes start) (cycles_from nodes starts)

-- Without the errors of a message: their codes are the same.
without_message : String → List GraphError → List GraphError
without_message message [] = []
without_message message (e ∷ errors) =
    let rest = without_message message errors in if e.message == message then rest else e ∷ rest

-- `unique`: one error for a message, at the place of the first.
unfoldable pub unique_errors : List GraphError → List GraphError
unfolding without_message
unique_errors [] = []
unique_errors (e ∷ errors) = e ∷ without_message e.message (unique_errors errors)

-- `_find_parent_cycles`
unfoldable pub find_parent_cycles : Nodes → Result Stop (List GraphError)
find_parent_cycles nodes = do errors ← cycles_from nodes nodes; ok (unique_errors errors)
