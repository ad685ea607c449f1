-- ===== src/Generators/Rings.antt =====
-- rustworkx-core/src/generators/petersen_graph.rs.
pub mod Laws
use rustworkx.Base.{
  ℕ, Bool, ◌+◌, ◌*◌, ◌%◌, ◌||◌, List, range, if◌then◌else◌, ◌==◌, ltb, leb, replicate,
}
use rustworkx.Petgraph.Create.{Create}
use rustworkx.Generators.Build.{Result, invalid_input, mul, ◌>>=◌, for_each, collect_nodes}
use rustworkx.Generators.Build.Nodes.{join}

module _ {N E : Type 0} (c : Create N E) (default_node : N) (default_edge : E) where
  -- The three loops over edges.
  unfoldable pub petersen_edges : ℕ → ℕ → List ℕ → List ℕ → Create.G c → Result (Create.G c)
  petersen_edges n k star_nodes polygon_nodes g = do
    g1 ← for_each (range 0 n) (λ i. join c default_edge star_nodes i star_nodes ((i + k) % n)) g
    g2 ←
        for_each (range 0 n) (λ i. join c default_edge polygon_nodes i polygon_nodes ((i + 1) % n))
          g1
    for_each (range 0 n) (λ i. join c default_edge polygon_nodes i star_nodes i) g2

  unfoldable pub petersen_loops : ℕ → ℕ → Create.G c → Result (Create.G c)
  unfolding petersen_edges
  petersen_loops n k graph =
      let star = collect_nodes c (replicate n default_node) graph in
      let polygon = collect_nodes c (replicate n default_node) star.1 in
      petersen_edges n k star.0 polygon.0 polygon.1

  -- `k == 0` is tested before `2 * k` is computed, which makes no difference: `2 * 0` fits.
  unfoldable pub petersen_graph : Bool → ℕ → ℕ → Result (Create.G c)
  unfolding petersen_loops
  petersen_graph overflow_checks n k = if ltb n 3 then invalid_input else do
    twice ← mul overflow_checks 2 k
    if k == 0 || leb n twice then invalid_input else do
      num_nodes ← mul overflow_checks 2 n
      num_edges ← mul overflow_checks 3 n
      petersen_loops n k (c.with_capacity num_nodes num_edges)
