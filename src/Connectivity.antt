-- ===== src/Connectivity.antt =====
-- rustworkx-core/src/connectivity/conn_components.rs and isolates.rs, and what
-- src/connectivity/mod.rs makes of them. A visit map is a function into Bool, and a `HashSet` is a
-- list in which no number stands twice.
pub mod Worklist
pub mod Component
pub mod Parts
pub mod Classes
pub mod Whole
pub mod Hits
pub mod Count
mod Tests
use rustworkx.Base.{
  ℕ, zero, suc, ◌+◌, Bool, true, false, not, Option, some, none, List, [], ◌∷◌, ◌++◌,
}
use rustworkx.Base.{if◌then◌else◌, ◌==◌, length, elem, filter_if}
use rustworkx.Petgraph.Stable.{Direction, outgoing, incoming}
use rustworkx.Petgraph.View.{Adjacency}
use rustworkx.DiGraph.{Outcome, ok, err, PyError, null_graph, invalid_node, panic, nonempty}

-- The variables of `bfs_undirected`.
pub record Search : Type 0 where
  pub component : List ℕ
  pub stack : List ℕ
  pub discovered : ℕ → Bool

-- `HashSet::insert`
abbrev pub insert : ℕ → List ℕ → List ℕ
insert v set = if elem v set then set else v ∷ set

-- What `VisitMap::visit` leaves; its value says whether the node was not visited before.
abbrev pub mark : ℕ → (ℕ → Bool) → ℕ → Bool
mark v map w = if w == v then true else map w

-- The inner loop.
unfoldable pub scan : List ℕ → Search → Search
scan [] s = s
scan (succ ∷ rest) s =
    let next = if s.discovered succ then s else record {
      component = insert succ s.component;
      stack = s.stack ++ succ ∷ [];
      discovered = mark succ s.discovered;
    } in
    scan rest next

module _ (graph : Adjacency) where
  open graph use {node_identifiers, neighbors_directed, node_count, contains_node}

  abbrev pub neighbors : ℕ → List ℕ
  neighbors node = neighbors_directed node outgoing ++ neighbors_directed node incoming

  -- `none` is the end of the fuel.
  unfoldable pub search : ℕ → Search → Option Search
  unfolding scan
  search zero s = elim s.stack [ [] ↦ some s | _ ∷ _ ↦ none ]
  search (suc fuel) s = elim s.stack [
    | [] ↦ some s
    | node ∷ rest ↦ search fuel (scan (neighbors node) (record s { stack = rest }))
  ]

  -- The component, and the visit map after the call. Each node but the first is queued when it is
  -- discovered.
  unfoldable pub bfs_undirected : ℕ → (ℕ → Bool) → Option (List ℕ × (ℕ → Bool))
  unfolding search
  bfs_undirected start discovered =
      elim (search (suc (length node_identifiers))
        (record { component = start ∷ []; stack = start ∷ []; discovered = discovered })) [
          | none ↦ none
          | some s ↦ some (s.component, s.discovered)
        ]

  -- The loop over starting nodes.
  unfoldable pub components_from : List ℕ → (ℕ → Bool) → Option (List (List ℕ))
  unfolding bfs_undirected
  components_from [] discovered = some []
  components_from (start ∷ rest) discovered = elim (discovered start) [
    | true ↦ components_from rest discovered
    | false ↦ elim (bfs_undirected start (mark start discovered)) [
      | none ↦ none
      | some (component, discovered') ↦ elim (components_from rest discovered') [
        | none ↦ none
        | some conn_components ↦ some (component ∷ conn_components)
      ]
    ]
  ]

  unfoldable pub connected_components : Option (List (List ℕ))
  unfolding components_from
  connected_components = components_from node_identifiers (λ _. false)

  unfoldable pub number_from : List ℕ → (ℕ → Bool) → ℕ → Option ℕ
  unfolding bfs_undirected
  number_from [] discovered num_components = some num_components
  number_from (start ∷ rest) discovered num_components = elim (discovered start) [
    | true ↦ number_from rest discovered num_components
    | false ↦ elim (bfs_undirected start (mark start discovered)) [
      | none ↦ none
      | some (_, discovered') ↦ number_from rest discovered' (num_components + 1)
    ]
  ]

  unfoldable pub number_connected_components : Option ℕ
  unfolding number_from
  number_connected_components = number_from node_identifiers (λ _. false) 0

  unfoldable pub node_connected_component : ℕ → Outcome (List ℕ)
  unfolding bfs_undirected
  node_connected_component node = elim (contains_node node) [
    | false ↦ err invalid_node
    | true ↦ elim (bfs_undirected node (λ _. false)) [
      | none ↦ err panic
      | some (component, _) ↦ ok component
    ]
  ]

  unfoldable pub is_connected : Outcome Bool
  unfolding node_connected_component
  is_connected = elim node_identifiers [
    | [] ↦ err null_graph
    | node ∷ _ ↦ elim (node_connected_component node) [
      | err e ↦ err e
      | ok component ↦ ok (length component == node_count)
    ]
  ]

  unfoldable pub is_weakly_connected : Outcome Bool
  unfolding connected_components
  is_weakly_connected = if node_count == 0 then err null_graph else elim connected_components [
    | none ↦ err panic
    | some [] ↦ err panic
    | some (first ∷ _) ↦ ok (length first == node_count)
  ]

  unfoldable pub isolates : List ℕ
  isolates =
      filter_if
        (λ x. not (nonempty (neighbors_directed x incoming ++ neighbors_directed x outgoing)))
        node_identifiers
