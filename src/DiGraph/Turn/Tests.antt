-- ===== src/DiGraph/Turn/Tests.antt =====
-- The theorems on `reverse` and `make_symmetric` at a small graph.
use rustworkx.Base.{ℕ, ◌≡◌, refl, true, false, none, ◌↔◌, List}
use rustworkx.Petgraph.Stable.{Stable}
use rustworkx.Petgraph.Finite.{put_node, put_edge, put_if}
use rustworkx.Petgraph.Finite
use rustworkx.Petgraph.Finite.Scan.{first, entries, select, pairs}
use rustworkx.Petgraph.Finite.Instance.{finite}
use rustworkx.DiGraph.{
  PyDiGraph, ok, new, add_edge, add_edge_checked, add_edge_no_cycle_check, is_cycle_check_required,
  contains_node, ◌>>◌,
}
use rustworkx.DiGraph.Table.{SameNodes}
use rustworkx.DiGraph.Methods.{add_node}
use rustworkx.DiGraph.Turn.{Entry, reverse, make_symmetric, in_degree, out_degree}
use rustworkx.DiGraph.Turn.Twice.{HasEdge, Renumbered, reverse_lem, reverse-reverse}
use rustworkx.DiGraph.Turn.Backs.{Symmetric, make_symmetric_lem}

abbrev tables : Stable ℕ ℕ
tables = finite ℕ ℕ

abbrev pair : PyDiGraph tables
pair = (add_node tables 7 (add_node tables 8 (new tables false true none 0 none none)).1).1

-- The edge 0 → 1.
abbrev joined : PyDiGraph tables
joined = (add_edge tables 0 1 5 pair).1

degrees_run : (in_degree tables joined 1 ≡ 1) × (out_degree tables joined 1 ≡ 0)
unfolding finite new add_node add_edge contains_node add_edge_checked add_edge_no_cycle_check
    is_cycle_check_required put_node Finite.add_edge first entries select pairs in_degree out_degree
degrees_run = (refl, refl)

reverse_lem_example :
    (s' : PyDiGraph tables) × (reverse tables joined ≡ (ok tt, s'))
    × SameNodes tables joined s'
    × ((a b : ℕ) (w : ℕ) → HasEdge tables s' a b w ↔ HasEdge tables joined b a w)
reverse_lem_example = reverse_lem tables joined

reverse-reverse_example :
    (s' : PyDiGraph tables) × ((reverse tables >> reverse tables) joined ≡ (ok tt, s'))
    × SameNodes tables joined s'
    × Renumbered tables joined s'
reverse-reverse_example = reverse-reverse tables joined

off : joined.check_cycle ≡ false
unfolding finite new add_node add_edge contains_node add_edge_checked add_edge_no_cycle_check
    is_cycle_check_required put_node Finite.add_edge first entries select pairs
off = refl

make_symmetric_lem_example :
    Symmetric tables joined (make_symmetric tables (λ (es : List Entry). es) none joined)
make_symmetric_lem_example =
    make_symmetric_lem tables (λ (es : List Entry). es) none joined (λ es e. (λ m. m, λ m. m))
      (λ w. (w, refl)) off
