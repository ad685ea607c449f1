-- ===== src/DiGraph/Listing.antt =====
-- src/digraph.rs: the methods that list edges.
pub mod Agree
mod Tests
use rustworkx.Base.{ℕ, Bool, true, false, List, [], ◌∷◌, ◌++◌, map, ◌==◌, if◌then◌else◌, filter_if}
use rustworkx.Petgraph.Stable.{Stable, EdgeReference, outgoing, incoming}
use rustworkx.DiGraph.{PyDiGraph}

module _ {O : Type 0} (st : Stable O O) where
  open st use {edges_directed, edge_references}

  unfoldable pub edge_list : PyDiGraph st → List (ℕ × ℕ)
  edge_list self = map (λ e. (e.source, e.target)) (edge_references self.graph)

  unfoldable pub weighted_edge_list : PyDiGraph st → List (ℕ × ℕ × O)
  weighted_edge_list self = map (λ e. (e.source, e.target, e.weight)) (edge_references self.graph)

  unfoldable pub in_edges : PyDiGraph st → ℕ → List (ℕ × ℕ × O)
  in_edges self node =
      map (λ x. (x.source, node, x.weight)) (edges_directed self.graph node incoming)

  unfoldable pub out_edges : PyDiGraph st → ℕ → List (ℕ × ℕ × O)
  out_edges self node =
      map (λ x. (node, x.target, x.weight)) (edges_directed self.graph node outgoing)

  unfoldable pub in_edge_indices : PyDiGraph st → ℕ → List ℕ
  in_edge_indices self node = map (λ e. e.id) (edges_directed self.graph node incoming)

  unfoldable pub out_edge_indices : PyDiGraph st → ℕ → List ℕ
  out_edge_indices self node = map (λ e. e.id) (edges_directed self.graph node outgoing)

  -- `edges(node)` of a directed graph are those out of the node.
  unfoldable pub incident_edges : PyDiGraph st → ℕ → Bool → List ℕ
  incident_edges self node all_edges =
      if all_edges
      then map (λ e. e.id)
          (edges_directed self.graph node outgoing ++ edges_directed self.graph node incoming)
      else map (λ e. e.id) (edges_directed self.graph node outgoing)

  unfoldable pub edge_indices_from_endpoints : PyDiGraph st → ℕ → ℕ → List ℕ
  edge_indices_from_endpoints self node_a node_b =
      map (λ e. e.id)
        (filter_if (λ e. e.target == node_b) (edges_directed self.graph node_a outgoing))
