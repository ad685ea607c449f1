-- ===== src/Petgraph/Create.antt =====
-- The bound `Build + Create + Data + NodeIndexable + GraphProp` of the generators in
-- rustworkx-core/src/generators/, as a record: petgraph is not part of the repository. Node
-- indices are numbers, so `to_index` and `from_index` are the identity.
use rustworkx.Base.{ℕ, ◌<◌, ◌≡◌, refl, Bool, Option, some, none, List, [], ◌∷◌, ◌++◌, ltb}
use rustworkx.Base.{length, if◌then◌else◌, arith, ◌&&◌}

pub record Create (N E : Type 0) : Type 1 where
  pub G : Type 0
  pub with_capacity : ℕ → ℕ → G
  -- The new node's index and the graph.
  pub add_node : G → N → ℕ × G
  -- `none` is the panic on an endpoint that is not in the graph.
  pub add_edge : G → ℕ → ℕ → E → Option G
  pub is_directed : G → Bool
  pub node_weights : G → List N
  pub edge_references : G → List (ℕ × ℕ × E)
  -- A graph type is directed or not, whatever the value.
  pub directed_const : (g h : G) → is_directed g ≡ is_directed h
  pub node_weights-with_capacity : (n m : ℕ) → node_weights (with_capacity n m) ≡ []
  pub edge_references-with_capacity : (n m : ℕ) → edge_references (with_capacity n m) ≡ []
  pub index-add_node : (g : G) (w : N) → (add_node g w).0 ≡ length (node_weights g)
  pub node_weights-add_node :
      (g : G) (w : N) → node_weights (add_node g w).1 ≡ node_weights g ++ w ∷ []
  pub edge_references-add_node :
      (g : G) (w : N) → edge_references (add_node g w).1 ≡ edge_references g
  -- Parallel edges are kept, in the order of insertion.
  pub add_edge_lem :
      (g : G) (a b : ℕ) (w : E)
      → a < length (node_weights g)
      → b < length (node_weights g)
      → (g' : G) × (add_edge g a b w ≡ some g')
        × (node_weights g' ≡ node_weights g)
        × (edge_references g' ≡ edge_references g ++ (a, b, w) ∷ [])

-- A value of the interface: two lists.
pub record ListGraph (N E : Type 0) : Type 0 where
  pub nodes : List N
  pub edges : List (ℕ × ℕ × E)

module _ {N E : Type 0} where
  abbrev pub insert_edge : ListGraph N E → ℕ → ℕ → E → Option (ListGraph N E)
  insert_edge g a b w =
      if ltb a (length g.nodes) && ltb b (length g.nodes)
      then some (record g { edges = g.edges ++ (a, b, w) ∷ [] })
      else none

  pub insert_edge_lem :
      (g : ListGraph N E) (a b : ℕ) (w : E)
      → a < length g.nodes
      → b < length g.nodes
      → (g' : ListGraph N E) × (insert_edge g a b w ≡ some g')
        × (g'.nodes ≡ g.nodes)
        × (g'.edges ≡ g.edges ++ (a, b, w) ∷ [])
  insert_edge_lem g a b w ha hb =
      (record g { edges = g.edges ++ (a, b, w) ∷ [] }, ground arith, refl, refl)

abbrev pub list_graph : (N E : Type 0) → Bool → Create N E
list_graph N E directed = record {
  G = ListGraph N E;
  with_capacity = λ _ _. record { nodes = []; edges = [] };
  add_node = λ g w. (length g.nodes, record g { nodes = g.nodes ++ w ∷ [] });
  add_edge = insert_edge;
  is_directed = λ _. directed;
  node_weights = λ g. g.nodes;
  edge_references = λ g. g.edges;
  directed_const = λ _ _. refl;
  node_weights-with_capacity = λ _ _. refl;
  edge_references-with_capacity = λ _ _. refl;
  index-add_node = λ _ _. refl;
  node_weights-add_node = λ _ _. refl;
  edge_references-add_node = λ _ _. refl;
  add_edge_lem = insert_edge_lem;
}
