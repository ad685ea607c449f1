-- ===== src/Connectivity/Tests.antt =====
-- Runs on a small graph, where the theorems apply.
use rustworkx.Base.{
  ℕ, ◌≡◌, ◌≢◌, ◌≤◌, refl, ◌↔◌, ◌⊎◌, Bool, true, false, some, List, [], ◌∷◌, Memᴰ, elem, length,
  count, count_if,
}
use mathlib.Core.Option
use rustworkx.Petgraph.Walks.{Walk}
use rustworkx.Petgraph.View.{Adjacency, adjacency, list_view}
use rustworkx.DiGraph.{ok, err, null_graph, invalid_node}
use rustworkx.Connectivity.{
  scan, search, bfs_undirected, components_from, connected_components, number_from,
  number_connected_components, node_connected_component, is_connected, is_weakly_connected,
  isolates,
}
use rustworkx.Connectivity.Component.{Adjacent}
use rustworkx.Connectivity.Classes.{connected_components_lem, number_connected_components-length}
use rustworkx.Connectivity.Whole.{node_connected_component_cases, is_connected_lem, Connected}
use rustworkx.Connectivity.Count.{number_connected_components-bounds, is_connected_iff}

-- 0 → 1 ← 2, 3 → 3 and 4.
unfoldable three : Adjacency
unfolding list_view
three = adjacency (list_view 5 ((0, 1) ∷ (2, 1) ∷ (3, 3) ∷ []) refl)

connected_components_run :
    connected_components three ≡ some ((2 ∷ 1 ∷ 0 ∷ []) ∷ (3 ∷ []) ∷ (4 ∷ []) ∷ [])
unfolding three connected_components components_from bfs_undirected search scan
connected_components_run = refl

number_connected_components_run : number_connected_components three ≡ some 3
unfolding three number_connected_components number_from bfs_undirected search scan
number_connected_components_run = refl

isolates_run : isolates three ≡ 4 ∷ []
unfolding three isolates
isolates_run = refl

is_connected_run : (is_connected three ≡ ok false) × (is_weakly_connected three ≡ ok false)
unfolding three is_connected node_connected_component is_weakly_connected connected_components
    components_from bfs_undirected search scan
is_connected_run = (refl, refl)

empty_graph : is_connected (adjacency (list_view 0 [] refl)) ≡ err null_graph
unfolding list_view is_connected
empty_graph = refl

connected_components_lem_example :
    (comps : List (List ℕ)) × (connected_components three ≡ some comps)
    × ((v : ℕ) → Memᴰ v three.node_identifiers → count_if (elem v) comps ≡ 1)
    × ((c : List ℕ)
        → Memᴰ c comps
        → (r : ℕ) × Memᴰ r three.node_identifiers
          × ((v : ℕ) → Memᴰ v c ↔ Walk (Adjacent three) v r))
connected_components_lem_example = connected_components_lem three

number_connected_components-length_example :
    number_connected_components three ≡ Option.map length (connected_components three)
number_connected_components-length_example = number_connected_components-length three

number_connected_components-bounds_example :
    (k : ℕ) × (number_connected_components three ≡ some k)
    × (length (isolates three) ≤ k)
    × (k ≤ three.node_count)
number_connected_components-bounds_example = number_connected_components-bounds three

is_connected_iff_example :
    (is_connected three ≡ ok true) ↔ (number_connected_components three ≡ some 1)
is_connected_iff_example = is_connected_iff three

is_connected_lem_example :
    (three.node_identifiers ≡ [])
      × (is_connected three ≡ err null_graph)
      × (is_weakly_connected three ≡ err null_graph)
    ⊎ (b : Bool) × (three.node_identifiers ≢ [])
      × (is_connected three ≡ ok b)
      × (is_weakly_connected three ≡ ok b)
      × ((b ≡ true) ↔ Connected three)
is_connected_lem_example = is_connected_lem three

node_connected_component_cases_example :
    (elem 7 three.node_identifiers ≡ false) × (node_connected_component three 7 ≡ err invalid_node)
    ⊎ (elem 7 three.node_identifiers ≡ true)
      × (c : List ℕ) × (node_connected_component three 7 ≡ ok c)
      × ((v : ℕ) → (elem v c ≡ true) ↔ Walk (Adjacent three) v 7)
      × ((v : ℕ) → count v c ≤ 1)
node_connected_component_cases_example = node_connected_component_cases three 7
