-- ===== src/Generators/Path.antt =====
-- rustworkx-core/src/generators/path_graph.rs, cycle_graph.rs, star_graph.rs, complete_graph.rs.
pub mod Laws
pub mod Line
pub mod Cycle
pub mod Star
pub mod Complete
use rustworkx.Base.{ℕ, ◌+◌, ◌*◌, ◌-◌, Bool, ◌&&◌, Option, List, range, if◌then◌else◌, ◌==◌}
use rustworkx.Petgraph.Create.{Create}
use rustworkx.Generators.Build.{
  Result, ok, invalid_input, ◌>>=◌, get_num_nodes, is_none, for_each, add_edge, add_both, add_nodes,
  weights_or,
}

module _ {N E : Type 0} (c : Create N E) (num_nodes : Option ℕ) (weights : Option (List N))
    (default_node : N) (default_edge : E) where
  -- The graph with its nodes, before the loop over edges.
  abbrev pub with_nodes : ℕ → ℕ → Create.G c
  with_nodes node_len num_edges =
      add_nodes c (weights_or weights node_len default_node) (c.with_capacity node_len num_edges)

  unfoldable pub path_graph : Bool → Result (Create.G c)
  path_graph bidirectional = if is_none weights && is_none num_nodes then invalid_input else do
    node_len ← get_num_nodes num_nodes weights
    let num_edges = if bidirectional then 2 * node_len else node_len
    if node_len == 0
        then ok (c.with_capacity node_len num_edges)
        else for_each (range 0 (node_len - 1))
            (λ a g. add_both c default_edge bidirectional a (a + 1) g)
            (with_nodes node_len num_edges)

  unfoldable pub cycle_graph : Bool → Result (Create.G c)
  cycle_graph bidirectional = if is_none weights && is_none num_nodes then invalid_input else do
    node_len ← get_num_nodes num_nodes weights
    let num_edges = if bidirectional then 2 * node_len else node_len
    if node_len == 0 then ok (c.with_capacity node_len num_edges) else do
      g ←
          for_each (range 0 (node_len - 1))
            (λ a g. add_both c default_edge bidirectional a (a + 1) g)
            (with_nodes node_len num_edges)
      add_both c default_edge bidirectional (node_len - 1) 0 g

  -- One round of the loop in `star_graph`.
  star_round : Bool → Bool → ℕ → Create.G c → Result (Create.G c)
  star_round inward bidirectional node g =
      if bidirectional
      then (do g1 ← add_edge c default_edge node 0 g; add_edge c default_edge 0 node g1)
      else if inward
      then add_edge c default_edge node 0 g
      else add_edge c default_edge 0 node g

  unfoldable pub star_graph : Bool → Bool → Result (Create.G c)
  unfolding star_round
  star_graph inward bidirectional =
      if is_none weights && is_none num_nodes then invalid_input else do
        node_len ← get_num_nodes num_nodes weights
        let num_edges = if bidirectional then 2 * node_len else node_len
        if node_len == 0
            then ok (c.with_capacity node_len num_edges)
            else for_each (range 1 node_len) (star_round inward bidirectional)
                (with_nodes node_len num_edges)

  -- One round of the inner loop in `complete_graph`.
  complete_round : ℕ → ℕ → Create.G c → Result (Create.G c)
  complete_round i j g = do
    g1 ← add_edge c default_edge i j g
    if c.is_directed g1 then add_edge c default_edge j i g1 else ok g1

  unfoldable pub complete_graph : Result (Create.G c)
  unfolding complete_round
  complete_graph = if is_none weights && is_none num_nodes then invalid_input else do
    node_len ← get_num_nodes num_nodes weights
    if node_len == 0
        then ok (c.with_capacity node_len node_len)
        else for_each (range 0 (node_len - 1))
            (λ i. for_each (range (i + 1) node_len) (complete_round i))
            (with_nodes node_len node_len)
