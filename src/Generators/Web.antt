-- ===== src/Generators/Web.antt =====
-- rustworkx-core/src/generators/dorogovtsev_goltsev_mendes_graph.rs.
pub mod Growth
pub mod Laws
use rustworkx.Base.{ℕ, ◌+◌, ◌/◌, ◌%◌, ◌^◌, Bool, List, [], ◌∷◌, ◌++◌, range}
use rustworkx.Petgraph.Create.{Create}
use rustworkx.Generators.Build.{Result, ok, fit, add, ◌>>=◌, for_each, add_edge}

module _ {N E : Type 0} (c : Create N E) (default_node : N) (default_edge : E) where
  -- Pairs of nodes that get a common neighbour, and the graph.
  abbrev pub Growth : Type 0
  Growth = List (ℕ × ℕ) × Create.G c

  -- One round of the inner loop.
  unfoldable pub split_edge : ℕ × ℕ → Growth → Result Growth
  split_edge (source, target) (new_endpoints, g) =
      let (new_node, g1) = c.add_node g default_node in
      (do
        g2 ← add_edge c default_edge source new_node g1
        g3 ← add_edge c default_edge target new_node g2
        ok (new_endpoints ++ (source, new_node) ∷ (target, new_node) ∷ [], g3))

  -- One round of the outer loop.
  unfoldable pub split_edges : ℕ → Growth → Result Growth
  unfolding split_edge
  split_edges i (current_endpoints, g) = do
    r ← for_each current_endpoints split_edge ([], g)
    ok (current_endpoints ++ r.0, r.1)

  unfoldable pub web_from : ℕ → Create.G c → Result (Create.G c)
  unfolding split_edges
  web_from n graph =
      let (node_0, g) = c.add_node graph default_node in
      let (node_1, g1) = c.add_node g default_node in
      (do
        g2 ← add_edge c default_edge node_0 node_1 g1
        r ← for_each (range 0 n) split_edges ((node_0, node_1) ∷ [], g2)
        ok r.1)

  -- `n as u32` keeps the low 32 bits, and `usize::pow` overflows as a product does.
  unfoldable pub dorogovtsev_goltsev_mendes_graph : Bool → ℕ → Result (Create.G c)
  unfolding web_from
  dorogovtsev_goltsev_mendes_graph overflow_checks n = do
    n_edges ← fit overflow_checks (3 ^ (n % 2 ^ 32))
    more ← add overflow_checks n_edges 3
    web_from n (c.with_capacity (more / 2) n_edges)
