-- ===== src/Generators/Mesh.antt =====
-- rustworkx-core/src/generators/lollipop_graph.rs and barbell_graph.rs, and `pairwise` of
-- rustworkx-core/src/utils.rs.
pub mod Extends
pub mod Parts
pub mod Lollipop
pub mod Barbell
use rustworkx.Base.{
  ℕ, zero, suc, ◌+◌, ◌-◌, ◌*◌, ◌/◌, ◌&&◌, Bool, true, Option, none, some, List, [], ◌∷◌, map, range,
  if◌then◌else◌, ◌==◌, length, replicate,
}
use rustworkx.Petgraph.Create.{Create}
use rustworkx.Generators.Build.{
  Result, ok, invalid_input, ◌>>=◌, for_each, add_edge, collect_nodes, weights_or, is_none,
  get_num_nodes, checked_sub, sub, mul,
}
use rustworkx.Generators.Build.Nodes.{join}

abbrev pub zip {ℓ κ} : {A : Type ℓ} {B : Type κ} → List A → List B → List (A × B)
zip [] ys = []
zip (x ∷ xs) [] = []
zip (x ∷ xs) (y ∷ ys) = (x, y) ∷ zip xs ys

-- Each item with the one before it.
abbrev pub pairwise {ℓ} : {A : Type ℓ} → List A → List (Option A × A)
pairwise right = zip (none ∷ map some right) right

-- The weights of the path nodes.
abbrev pub path_list {ℓ} : {T : Type ℓ} → Option ℕ → Option (List T) → T → List T
path_list num_path_nodes (some ws) d = ws
path_list (some n) none d = replicate n d
path_list none none d = []

module _ {N E : Type 0} (c : Create N E) (default_node : N) (default_edge : E) where
  -- `for i in 0..meshlen - 1 { for j in i + 1..meshlen { .. } }`
  unfoldable pub mesh_edges : Bool → List ℕ → Create.G c → Result (Create.G c)
  mesh_edges overflow_checks mesh_nodes g = do
    last ← sub overflow_checks (length mesh_nodes) 1
    for_each (range 0 last)
        (λ i.
          for_each (range (i + 1) (length mesh_nodes))
            (join c default_edge mesh_nodes i mesh_nodes))
        g

  -- One round of the loop over `pairwise(path_nodes)`.
  unfoldable pub pair_round : Option ℕ × ℕ → Create.G c → Result (Create.G c)
  pair_round (none, node_b) g = ok g
  pair_round (some node_a, node_b) g = add_edge c default_edge node_a node_b g

  -- The path nodes, and their edges to the mesh and to each other.
  unfoldable pub attach_path : Bool → ℕ → List N → Create.G c → Result (Create.G c)
  attach_path overflow_checks meshlen weights g =
      let (path_nodes, g1) = collect_nodes c weights g in
      if length path_nodes == 0 then ok g1 else do
        last ← sub overflow_checks meshlen 1
        g2 ← add_edge c default_edge last meshlen g1
        for_each (pairwise path_nodes) pair_round g2

  unfoldable pub left_mesh : Bool → List N → Create.G c → Result (Create.G c)
  unfolding mesh_edges
  left_mesh overflow_checks weights g =
      let (mesh_nodes, g1) = collect_nodes c weights g in mesh_edges overflow_checks mesh_nodes g1

  -- `meshlen + pathlen` is the index of the first node of the right mesh. `barbell_graph` calls
  -- this where the mesh has a node.
  unfoldable pub right_mesh : ℕ → List N → Create.G c → Result (Create.G c)
  right_mesh pathlen weights g =
      let (mesh_nodes, g1) = collect_nodes c weights g in
      let first = length mesh_nodes + pathlen in
      add_edge c default_edge (first - 1) first g1 >>= mesh_edges true mesh_nodes

  unfoldable pub lollipop_graph :
      Bool → Option ℕ → Option ℕ → Option (List N) → Option (List N) → Result (Create.G c)
  lollipop_graph overflow_checks num_mesh_nodes num_path_nodes mesh_weights path_weights =
      if is_none num_mesh_nodes && is_none mesh_weights then invalid_input else do
        num_nodes ← get_num_nodes num_mesh_nodes mesh_weights
        less ← sub overflow_checks num_nodes 1
        product ← mul overflow_checks num_nodes less
        g ←
            left_mesh overflow_checks (weights_or mesh_weights num_nodes default_node)
              (c.with_capacity num_nodes (product / 2))
        attach_path overflow_checks num_nodes (path_list num_path_nodes path_weights default_node) g

  module _ (num_mesh_nodes num_path_nodes : Option ℕ)
      (mesh_weights path_weights : Option (List N)) where
    -- In a build with overflow checks. The room reserved for edges is not bounded. `path_nodes.len()` is the number of the weights collected.
    unfoldable pub barbell_graph : Result (Create.G c)
    barbell_graph = if is_none num_mesh_nodes && is_none mesh_weights then invalid_input else do
      num_nodes ← get_num_nodes num_mesh_nodes mesh_weights
      less ← checked_sub num_nodes 1
      g ←
          left_mesh true (weights_or mesh_weights num_nodes default_node)
            (c.with_capacity num_nodes (num_nodes * less / 2))
      g1 ← attach_path true num_nodes (path_list num_path_nodes path_weights default_node) g
      right_mesh (length (path_list num_path_nodes path_weights default_node))
          (weights_or mesh_weights num_nodes default_node) g1
