-- ===== src/Generators/Grid.antt =====
-- rustworkx-core/src/generators/grid_graph.rs.
pub mod Cells
pub mod Fill
pub mod Laws
use rustworkx.Base.{
  ℕ, zero, suc, ◌+◌, ◌*◌, ◌-◌, Bool, ◌&&◌, ◌||◌, Option, none, some, List, [], ◌∷◌,
}
use rustworkx.Base.{range, if◌then◌else◌, ltb, ◌==◌, replicate, length}
use mathlib.Core.Option
use rustworkx.Petgraph.Create.{Create}
use rustworkx.Generators.Build.{
  Result, ok, invalid_input, add, mul, ◌>>=◌, is_none, for_each, add_both, add_nodes,
}

module _ {N E : Type 0} (c : Create N E) (default_node : N) (default_edge : E) where
  -- `for weight in weights { if node_cnt == 0 { break; } graph.add_node(weight); node_cnt -= 1; }`
  unfoldable pub fill_weights : ℕ → List N → Create.G c → ℕ × Create.G c
  fill_weights node_cnt [] g = (node_cnt, g)
  fill_weights zero (w ∷ ws) g = (0, g)
  fill_weights (suc node_cnt) (w ∷ ws) g = fill_weights node_cnt ws (c.add_node g w).1

  -- One round of the inner loop, at cell (i, j).
  unfoldable pub grid_round : ℕ → ℕ → Bool → ℕ → ℕ → Create.G c → Result (Create.G c)
  grid_round rowlen collen bidirectional i j g = do
    g1 ←
        if ltb (i + 1) rowlen
        then add_both c default_edge bidirectional (i * collen + j) ((i + 1) * collen + j) g
        else ok g
    if ltb (j + 1) collen
        then add_both c default_edge bidirectional (i * collen + j) (i * collen + j + 1) g1
        else ok g1

  unfoldable pub grid_edges : ℕ → ℕ → Bool → Create.G c → Result (Create.G c)
  unfolding grid_round
  grid_edges rowlen collen bidirectional =
      for_each (range 0 rowlen)
        (λ i. for_each (range 0 collen) (grid_round rowlen collen bidirectional i))

  -- The `Some(weights)` arm of the match: the dimensions may become 1 × `weights.len()`.
  unfoldable pub grid_weighted : ℕ → ℕ → ℕ → List N → Bool → Create.G c → Result (Create.G c)
  unfolding grid_edges
  grid_weighted product rowlen collen weights bidirectional g =
      let widen = ltb product (length weights) && rowlen == 0 in
      let collen' = if widen then length weights else collen in
      let rowlen' = if widen then 1 else rowlen in
      let num_nodes = if widen then length weights else product in
      let (node_cnt, g1) = fill_weights num_nodes weights g in
      grid_edges rowlen' collen' bidirectional (add_nodes c (replicate node_cnt default_node) g1)

  -- The number of edges to reserve room for. Where the product is not 0, neither is a factor.
  unfoldable pub grid_capacity : Bool → ℕ → ℕ → ℕ → Bool → Result ℕ
  grid_capacity overflow_checks num_nodes rowlen collen bidirectional = do
    num_edges ← if num_nodes == 0 then ok 0 else do
      down ← mul overflow_checks (rowlen - 1) collen
      right ← mul overflow_checks (collen - 1) rowlen
      add overflow_checks down right
    if bidirectional then mul overflow_checks num_edges 2 else ok num_edges

  unfoldable pub grid_graph :
      Bool → Option ℕ → Option ℕ → Option (List N) → Bool → Result (Create.G c)
  unfolding grid_weighted grid_edges grid_capacity
  grid_graph overflow_checks rows cols weights bidirectional =
      if is_none weights && (is_none rows || is_none cols) then invalid_input else do
        let rowlen = Option.get_or rows 0
        let collen = Option.get_or cols 0
        num_nodes ← mul overflow_checks rowlen collen
        num_edges ← grid_capacity overflow_checks num_nodes rowlen collen bidirectional
        let graph = c.with_capacity num_nodes num_edges
        if num_nodes == 0 && is_none weights then ok graph else elim weights [
          | some ws ↦ grid_weighted num_nodes rowlen collen ws bidirectional graph
          | none ↦
              grid_edges rowlen collen bidirectional
                (add_nodes c (replicate num_nodes default_node) graph)
        ]
