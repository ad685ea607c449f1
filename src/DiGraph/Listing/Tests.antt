-- ===== src/DiGraph/Listing/Tests.antt =====
-- The theorems on lists of edges at a small graph.
use rustworkx.Base.{ℕ, ◌↔◌, true, false, none, Memᴰ}
use rustworkx.Petgraph.Stable.{Stable}
use rustworkx.Petgraph.Finite.Instance.{finite}
use rustworkx.DiGraph.{PyDiGraph, new, add_edge}
use rustworkx.DiGraph.Methods.{add_node}
use rustworkx.DiGraph.Listing.{
  weighted_edge_list, in_edges, out_edges, in_edge_indices, out_edge_indices,
  edge_indices_from_endpoints,
}
use rustworkx.DiGraph.Listing.Agree.{
  weighted_edge_list-out_edges, edge_indices_from_endpoints-out_edge_indices,
}

abbrev tables : Stable ℕ ℕ
tables = finite ℕ ℕ

abbrev pair : PyDiGraph tables
pair = (add_node tables 7 (add_node tables 8 (new tables false true none 0 none none)).1).1

-- The edge 0 → 1.
abbrev joined : PyDiGraph tables
joined = (add_edge tables 0 1 5 pair).1

weighted_edge_list-out_edges_example :
    (Memᴰ (0, 1, 5) (weighted_edge_list tables joined) ↔ Memᴰ (0, 1, 5) (out_edges tables joined 0))
    × (Memᴰ (0, 1, 5) (weighted_edge_list tables joined)
        ↔ Memᴰ (0, 1, 5) (in_edges tables joined 1))
weighted_edge_list-out_edges_example = weighted_edge_list-out_edges tables joined 0 1 5

edge_indices_from_endpoints-out_edge_indices_example :
    Memᴰ 0 (edge_indices_from_endpoints tables joined 0 1)
    ↔ (Memᴰ 0 (out_edge_indices tables joined 0) × Memᴰ 0 (in_edge_indices tables joined 1))
edge_indices_from_endpoints-out_edge_indices_example =
    edge_indices_from_endpoints-out_edge_indices tables joined 0 1 0
