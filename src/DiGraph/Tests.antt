-- ===== src/DiGraph/Tests.antt =====
-- The theorems on `PyDiGraph` at small graphs.
use rustworkx.Base.{ℕ, ◌≡◌, ◌≢◌, refl, ◌↔◌, true, false, none, arith}
use rustworkx.Petgraph.Stable.{Stable}
use rustworkx.Petgraph.Walks.{Walk, Acyclic}
use rustworkx.Petgraph.Paths.{reaches, acyclic}
use rustworkx.Petgraph.Finite.{put_node, put_edge, put_if}
use rustworkx.Petgraph.Finite
use rustworkx.Petgraph.Finite.Scan.{first, entries, select, pairs}
use rustworkx.Petgraph.Finite.Instance.{finite}
use rustworkx.DiGraph.{
  PyDiGraph, ok, err, dag_would_cycle, new, add_edge, add_edge_checked, add_edge_no_cycle_check,
  is_cycle_check_required, contains_node,
}
use rustworkx.DiGraph.Table.{Joins}
use rustworkx.DiGraph.Cycles.{IsGuarded, add_edge-refuses_iff}
use rustworkx.DiGraph.Rewire.{remove_node_retain_edges}
use rustworkx.DiGraph.Rewire.Laws.{Bypasses, remove_node_retain_edges_lem}
use rustworkx.DiGraph.Keyed.{
  get_item, push_node, group_edges, join_groups, remove_node_retain_edges_by_key,
}
use rustworkx.DiGraph.Keyed.Groups.{KeyEquality}
use rustworkx.DiGraph.Keyed.Retains.{equal_keys, remove_node_retain_edges_by_key_lem}
use rustworkx.Base.{◌==◌, ◌%◌, Option, some}
use rustworkx.DiGraph.{Outcome, for_each}
use rustworkx.DiGraph.SelfLoop.{add_edge_self_loop}
use rustworkx.DiGraph.Simple.{IsSimple, add_edge-IsSimple}
use rustworkx.DiGraph.Steps.{Reach, start, next, adds_node, adds_edge, reachable-Acyclic}
use rustworkx.DiGraph.Methods.{add_node, grow}
use rustworkx.DiGraph.Methods.Extent.{Grew, grow_lem}
use rustworkx.DiGraph.Table.{Inserted, add_edge_no_cycle_check_lem}

abbrev tables : Stable ℕ ℕ
tables = finite ℕ ℕ

-- Two nodes, no edge, `check_cycle` set, no multigraph.
abbrev blank : PyDiGraph tables
blank = new tables true false none 0 none none

abbrev one_node : PyDiGraph tables
one_node = (add_node tables 10 blank).1

abbrev two_nodes : PyDiGraph tables
two_nodes = (add_node tables 11 one_node).1

abbrev one_edge : PyDiGraph tables
one_edge = (add_edge tables 0 1 5 two_nodes).1

-- Names what a run computes with.
running : Unit {0}
unfolding finite new add_node add_edge contains_node add_edge_checked add_edge_no_cycle_check
    is_cycle_check_required put_node Finite.add_edge first entries select pairs reaches acyclic
running = tt

one_edge_checks : one_edge.check_cycle ≡ true
unfolding running
one_edge_checks = refl

-- With the edge 0 → 1 the edge 1 → 0 is refused, and the graph stays as it was.
refused_run : add_edge tables 1 0 6 one_edge ≡ (err dag_would_cycle, one_edge)
unfolding running
refused_run = refl

-- Not a multigraph: the second edge from 0 to 1 updates the first in place.
updated_run : (add_edge tables 0 1 6 one_edge).0 ≡ ok 0
unfolding running
updated_run = refl

zero≢one : ◌≢◌ {A = ℕ} 0 1
zero≢one = omega arith

one≢zero : ◌≢◌ {A = ℕ} 1 0
one≢zero = omega arith

one_edge-Reach : Reach tables blank one_edge
one_edge-Reach = next (next (next start (adds_node 10)) (adds_node 11)) (adds_edge 0 1 5 zero≢one)

reachable-Acyclic_example : Acyclic (Joins tables one_edge)
reachable-Acyclic_example =
    reachable-Acyclic tables true false none 0 none none one_edge one_edge-Reach one_edge_checks

contains_zero : contains_node tables one_edge 0 ≡ true
unfolding running
contains_zero = refl

contains_one : contains_node tables one_edge 1 ≡ true
unfolding running
contains_one = refl

add_edge-refuses_iff_example :
    (add_edge tables 1 0 6 one_edge ≡ (err dag_would_cycle, one_edge))
    ↔ ∥ Walk (Joins tables one_edge) 1 0 ∥₁
add_edge-refuses_iff_example =
    add_edge-refuses_iff tables one_edge 1 0 6 one≢zero contains_one contains_zero one_edge_checks
      (λ _. reachable-Acyclic_example)

no_edge_in : (b : ℕ) → ¬ Joins tables two_nodes b 0
unfolding running
no_edge_in b (i, w, at) = cc at

two_nodes_zero : contains_node tables two_nodes 0 ≡ true
unfolding running
two_nodes_zero = refl

-- The graph checks for cycles, and the self loop is accepted.
add_edge_self_loop_example :
    (i : ℕ) × (s' : PyDiGraph tables) × (add_edge tables 0 0 7 two_nodes ≡ (ok i, s'))
    × (s'.check_cycle ≡ two_nodes.check_cycle)
    × ¬ Acyclic (Joins tables s')
add_edge_self_loop_example = add_edge_self_loop tables two_nodes 0 7 two_nodes_zero no_edge_in

two_nodes-IsSimple : IsSimple tables two_nodes
unfolding running
two_nodes-IsSimple single i j a b v w at_i at_j = cc at_i

add_edge-IsSimple_example : IsSimple tables one_edge
add_edge-IsSimple_example = add_edge-IsSimple tables two_nodes 0 1 5 two_nodes-IsSimple

two_nodes_one : contains_node tables two_nodes 1 ≡ true
unfolding running
two_nodes_one = refl

add_edge_no_cycle_check_lem_example :
    (i : ℕ) × (s' : PyDiGraph tables) × (add_edge_no_cycle_check tables 0 1 5 two_nodes
      ≡ (ok i, s'))
    × Inserted tables two_nodes 0 1 5 i s'
add_edge_no_cycle_check_lem_example =
    add_edge_no_cycle_check_lem tables two_nodes 0 1 5 two_nodes_zero two_nodes_one

-- A node 2 beside the edge 0 → 1.
abbrev three_nodes : PyDiGraph tables
three_nodes = (add_node tables 12 one_edge).1

grow_lem_example : Grew tables 0 3 two_nodes (grow tables 0 4 3 two_nodes)
grow_lem_example = grow_lem tables 0 3 two_nodes

-- The path 0 → 1 → 2.
abbrev two_edges : PyDiGraph tables
two_edges = (add_edge tables 1 2 8 three_nodes).1

one≢two : ◌≢◌ {A = ℕ} 1 2
one≢two = omega arith

two_edges-IsGuarded : IsGuarded tables two_edges
two_edges-IsGuarded =
    reachable-Acyclic tables true false none 0 none none two_edges
      (next (next one_edge-Reach (adds_node 12)) (adds_edge 1 2 8 one≢two))

remove_node_retain_edges_lem_example :
    Bypasses tables none 1 two_edges (remove_node_retain_edges tables 1 true none two_edges)
remove_node_retain_edges_lem_example =
    remove_node_retain_edges_lem tables 1 true none two_edges (λ v w. (true, refl))
      two_edges-IsGuarded

same_number : KeyEquality (λ (a b : ℕ). a == b)
same_number = record {
  reflexive = λ a. ground arith;
  symmetric = λ a b h. ground (arith, h);
  transitive = λ a b c h k. ground (arith, h, k);
}

-- The weights 5 and 8 have the same key.
abbrev remainder_key : Option (ℕ → Outcome ℕ)
remainder_key = some (λ w. ok (w % 3))

-- The new edge from 0 to 2 has the index 2.
bypass_run :
    (add_edge tables 0 2 9
      (remove_node_retain_edges_by_key ◌==◌ tables 1 remainder_key false two_edges).1).0
    ≡ ok 2
unfolding running group_edges get_item push_node join_groups remove_node_retain_edges_by_key
    for_each
bypass_run = refl

remove_node_retain_edges_by_key_lem_example :
    Bypasses tables
      (equal_keys ◌==◌ tables same_number remainder_key (λ w. w % 3) (λ w. refl))
      1
      two_edges
      (remove_node_retain_edges_by_key ◌==◌ tables 1 remainder_key false two_edges)
remove_node_retain_edges_by_key_lem_example =
    remove_node_retain_edges_by_key_lem ◌==◌ tables same_number remainder_key (λ w. w % 3)
      (λ w. refl) 1 false two_edges two_edges-IsGuarded
