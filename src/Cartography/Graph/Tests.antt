-- ===== src/Cartography/Graph/Tests.antt =====
-- A graph with a cycle of two nodes, and the theorems at it.
use aios_tools.Prelude.{String, List, [], ◌∷◌, ◌≡◌, ◌≢◌, ◌↔◌, refl, string_eq, contains, ok, err}
use aios_tools.Prelude.Dict.{lookup}
use aios_tools.Prelude.Json.{text, null, Fields, field, end, get}
use aios_tools.Cartography.Graph.{
  Nodes, GraphError, no_fuel, joined, cycle_error, ascent, climb, climb_from, cycles_from,
  unique_errors, find_parent_cycles,
}
use aios_tools.Cartography.Graph.Climb.{find_parent_cycles-ends}
use aios_tools.Cartography.Graph.Acyclic.{Above, find_parent_cycles-Above}

abbrev below : String → Fields
below parent = field "parent_node_id" (text parent) end

abbrev nodes : Nodes
nodes = ("a", below "b") ∷ ("b", below "a") ∷ ("c", field "parent_node_id" null end) ∷ []

abbrev error : String → GraphError
error path = record { code = "HIERARCHY_CYCLE"; message = path; pointer = "/nodes" }

abbrev errors : List GraphError
errors =
    error "Parent hierarchy cycle: a -> b -> a" ∷ error "Parent hierarchy cycle: b -> a -> b" ∷ []

two_cycles : find_parent_cycles nodes ≡ ok errors
unfolding find_parent_cycles cycles_from climb_from climb ascent lookup get contains unique_errors
    cycle_error joined
two_cycles = refl

find_parent_cycles-ends_example : find_parent_cycles nodes ≢ err no_fuel
find_parent_cycles-ends_example = find_parent_cycles-ends nodes

find_parent_cycles-Above_example : (errors ≡ []) ↔ ((c : String) → Above nodes c c → ⊥)
find_parent_cycles-Above_example = find_parent_cycles-Above nodes errors two_cycles
