-- ===== src/DiGraph/Merge/Tests.antt =====
-- The theorems on `merge_nodes` at small graphs.
use rustworkx.Base.{ℕ, ◌≡◌, refl, Bool, true, false, none, ◌==◌, arith}
use rustworkx.Petgraph.Stable.{Stable}
use rustworkx.Petgraph.Paths.{reaches, acyclic}
use rustworkx.Petgraph.Finite.{put_node, put_edge, put_if}
use rustworkx.Petgraph.Finite
use rustworkx.Petgraph.Finite.Scan.{first, entries, select, pairs}
use rustworkx.Petgraph.Finite.Instance.{finite}
use rustworkx.DiGraph.{
  PyDiGraph, Outcome, ok, err, index_error, new, add_edge, add_edge_checked,
  add_edge_no_cycle_check, is_cycle_check_required, contains_node,
}
use rustworkx.DiGraph.Table.{Joins}
use rustworkx.DiGraph.Methods.{add_node}
use rustworkx.DiGraph.Merge.{merge_nodes}
use rustworkx.DiGraph.Merge.Redirects.{Merged, merge_nodes_lem, merge_nodes_self_loop}

abbrev tables : Stable ℕ ℕ
tables = finite ℕ ℕ

-- Two nodes of weight 7, and no edge.
abbrev pair : PyDiGraph tables
pair = (add_node tables 7 (add_node tables 7 (new tables false true none 0 none none)).1).1

abbrev joined : PyDiGraph tables
joined = (add_edge tables 0 1 5 pair).1

abbrev looped : PyDiGraph tables
looped = (add_edge tables 0 0 5 pair).1

-- Names what a run computes with.
running : Unit {0}
unfolding finite new add_node add_edge contains_node add_edge_checked add_edge_no_cycle_check
    is_cycle_check_required put_node Finite.add_edge first entries select pairs reaches acyclic
running = tt

abbrev equal : ℕ → ℕ → Outcome Bool
equal a b = ok (a == b)

-- The only edge of `joined` is the one from 0 to 1.
no_loop : ¬ Joins tables joined 0 0
unfolding running
no_loop = Stable.find_edge-none tables joined.graph 0 0 refl

merge_nodes_lem_example : Merged tables 0 1 joined (merge_nodes tables equal 0 1 joined)
unfolding running
merge_nodes_lem_example =
    merge_nodes_lem tables 0 1 joined equal 7 7 (λ e. omega (arith, e)) refl refl refl refl no_loop

merge_nodes_self_loop_example :
    (s' : PyDiGraph tables) × (merge_nodes tables equal 0 1 looped ≡ (err index_error, s'))
    × (contains_node tables s' 0 ≡ false)
unfolding running
merge_nodes_self_loop_example =
    merge_nodes_self_loop tables 0 1 looped equal 7 7 refl refl refl refl (0, 5, refl)
