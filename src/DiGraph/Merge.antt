-- ===== src/DiGraph/Merge.antt =====
-- src/digraph.rs: `merge_nodes`. Python's comparison of two weights is an argument, which may
-- raise.
pub mod Unchecked
pub mod Redirects
mod Tests
use rustworkx.Base.{
  ℕ, Bool, true, false, Option, none, some, List, [], ◌∷◌, ◌++◌, map, if◌then◌else◌, ◌==◌,
}
use rustworkx.Petgraph.Stable.{Stable, EdgeReference, outgoing, incoming}
use rustworkx.DiGraph.{
  PyDiGraph, M, Outcome, ok, err, index_error, ◌>>=◌, ◌>>◌, return, for_each, add_edge,
}
use rustworkx.DiGraph.Methods.{remove_node}

module _ {O : Type 0} (st : Stable O O) where
  open st use {edges_directed, node_weight}

  -- The edge that takes the place of one at `u`.
  unfoldable pub redirect : ℕ → ℕ → EdgeReference O → ℕ × ℕ × O
  redirect u v edge =
      if edge.source == u then (v, edge.target, edge.weight) else (edge.source, v, edge.weight)

  abbrev pub edges_to_add : ℕ → ℕ → PyDiGraph st → List (ℕ × ℕ × O)
  edges_to_add u v self =
      map (redirect u v)
        (edges_directed self.graph u outgoing ++ edges_directed self.graph u incoming)

  -- `for edge in edges_to_add { self.add_edge(edge.0, edge.1, edge.2)?; }`
  unfoldable pub add_edges : List (ℕ × ℕ × O) → M st (Unit {0})
  add_edges edges = for_each edges (λ (a, b, w). do add_edge st a b w; return tt)

  unfoldable pub merge_nodes : (O → O → Outcome Bool) → ℕ → ℕ → M st (Unit {0})
  unfolding add_edges remove_node
  merge_nodes equal u v self = elim (node_weight self.graph u) [
    | none ↦ (err index_error, self)
    | some source_weight ↦ elim (node_weight self.graph v) [
      | none ↦ (err index_error, self)
      | some target_weight ↦ elim (equal source_weight target_weight) [
        | err e ↦ (err e, self)
        | ok false ↦ (ok tt, self)
        | ok true ↦ (remove_node st u >> add_edges (edges_to_add u v self)) self
      ]
    ]
  ]
