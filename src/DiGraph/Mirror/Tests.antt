-- ===== src/DiGraph/Mirror/Tests.antt =====
-- The theorems on `is_symmetric` at small graphs.
use rustworkx.Base.{ℕ, ◌≡◌, refl, true, false, none}
use rustworkx.Petgraph.Stable.{Stable}
use rustworkx.Petgraph.Finite.{put_node, put_edge, put_if}
use rustworkx.Petgraph.Finite
use rustworkx.Petgraph.Finite.Scan.{first, entries, select, pairs}
use rustworkx.Petgraph.Finite.Instance.{finite}
use rustworkx.DiGraph.{
  PyDiGraph, new, add_edge, add_edge_checked, add_edge_no_cycle_check, is_cycle_check_required,
  contains_node,
}
use rustworkx.DiGraph.Table.{Joins}
use rustworkx.DiGraph.Methods.{add_node}
use rustworkx.DiGraph.Mirror.{cancel_all, is_symmetric}
use rustworkx.DiGraph.Mirror.Answers.{is_symmetric-Joins, is_symmetric_self_loops}

abbrev tables : Stable ℕ ℕ
tables = finite ℕ ℕ

abbrev pair : PyDiGraph tables
pair = (add_node tables 7 (add_node tables 8 (new tables false true none 0 none none)).1).1

-- The edges 0 → 1 and 1 → 0.
abbrev mirrored : PyDiGraph tables
mirrored = (add_edge tables 1 0 6 (add_edge tables 0 1 5 pair).1).1

-- The edge 1 → 1.
abbrev looped : PyDiGraph tables
looped = (add_edge tables 1 1 5 pair).1

-- Names what a run computes with.
running : Unit {0}
unfolding finite new add_node add_edge contains_node add_edge_checked add_edge_no_cycle_check
    is_cycle_check_required put_node Finite.add_edge first entries select pairs cancel_all
    is_symmetric
running = tt

is_symmetric-Joins_example : Joins tables mirrored 1 0
unfolding running
is_symmetric-Joins_example = is_symmetric-Joins tables mirrored refl 0 1 (0, 5, refl)

is_symmetric_self_loops_example : is_symmetric tables looped ≡ false
unfolding running
is_symmetric_self_loops_example = is_symmetric_self_loops tables looped 1 refl
