-- ===== src/Toposort/Tests.antt =====
-- Runs of a sorter of a small graph, where the theorems apply.
use rustworkx.Base.{
  ℕ, ◌≡◌, refl, ◌↔◌, true, false, not, ◌&&◌, some, none, [], ◌∷◌, Memᴰ, elem, elem_iff,
}
use rustworkx.Petgraph.Stable.{incoming, outgoing}
use rustworkx.Petgraph.View.{View, list_view}
use rustworkx.DiGraph.{Outcome, ok, err, dag_has_cycle, value_error}
use rustworkx.Toposort.{
  TopologicalSorter, new, is_active, get_ready, done_single, mark_ready, release, release_all,
  finish, check_state,
}
use rustworkx.Toposort.Run.{Run, start, gets, finishes}
use rustworkx.Toposort.Progress.{get_ready-IsOrdered, done_single_lem, is_active_complete}

-- Three nodes: 0 and 1 come before 2.
abbrev fork : View
fork = list_view 3 ((0, 2) ∷ (1, 2) ∷ []) refl

abbrev made : TopologicalSorter → Outcome TopologicalSorter → TopologicalSorter
made other (ok s) = s
made other (err e) = other

abbrev blank : TopologicalSorter
blank = record {
  ready_nodes = [];
  predecessor_count = λ _. none;
  node2state = none;
  num_passed_out = 0;
  num_finished = 0;
  in_dir = incoming;
  out_dir = outgoing;
}

unfoldable s0 : TopologicalSorter
unfolding new list_view
s0 = made blank (new fork false true false none true)

unfoldable s1 : TopologicalSorter
unfolding get_ready s0
s1 = (get_ready s0).1

unfoldable s2 : TopologicalSorter
unfolding done_single s1 list_view check_state finish release_all release mark_ready get_ready
s2 = (done_single fork 0 s1).1

unfoldable s3 : TopologicalSorter
unfolding done_single s2 list_view check_state finish release_all release mark_ready get_ready
s3 = (done_single fork 1 s2).1

unfoldable s4 : TopologicalSorter
unfolding get_ready s3
s4 = (get_ready s3).1

unfoldable s5 : TopologicalSorter
unfolding done_single s4 list_view check_state finish release_all release mark_ready get_ready
s5 = (done_single fork 2 s4).1

life0 : Run fork false s0 [] []
unfolding new list_view s0
life0 = start false true refl

life3 : Run fork false s3 (0 ∷ 1 ∷ []) (1 ∷ 0 ∷ [])
unfolding get_ready done_single list_view check_state s1 s2 s3 release finish release_all mark_ready
life3 = finishes (finishes (gets life0) 0 refl) 1 refl

life5 : Run fork false s5 (0 ∷ 1 ∷ 2 ∷ []) (2 ∷ 1 ∷ 0 ∷ [])
unfolding get_ready done_single list_view check_state s4 s5 release finish release_all mark_ready
life5 = finishes (gets life3) 2 refl

two_ready : (get_ready s3).0 ≡ 2 ∷ []
unfolding get_ready s3 release
two_ready = refl

get_ready-IsOrdered_example :
    (elem 2 fork.node_identifiers ≡ true)
    × (elem 2 (0 ∷ 1 ∷ []) ≡ false)
    × ((u : ℕ) → Memᴰ u (fork.neighbors_directed 2 incoming) → elem u (1 ∷ 0 ∷ []) ≡ true)
unfolding get_ready s3 release
get_ready-IsOrdered_example = get_ready-IsOrdered fork life3 2 (Memᴰ.head refl)

done_single_lem_example :
    (((elem 1 (0 ∷ 1 ∷ []) && not (elem 1 (1 ∷ 0 ∷ []))) ≡ true)
      ↔ ((s' : TopologicalSorter) × (done_single fork 1 s3 ≡ (ok tt, s'))))
    × (((elem 1 (0 ∷ 1 ∷ []) && not (elem 1 (1 ∷ 0 ∷ []))) ≡ false)
        ↔ (done_single fork 1 s3 ≡ (err value_error, s3)))
done_single_lem_example = done_single_lem fork life3 1

is_active_complete_example : (elem 2 (0 ∷ 1 ∷ 2 ∷ []) ≡ true) × (elem 2 (2 ∷ 1 ∷ 0 ∷ []) ≡ true)
unfolding list_view is_active s5 release
is_active_complete_example =
    is_active_complete fork life5 refl refl 2 ((elem_iff 2 fork.node_identifiers).0 refl)

-- A cycle is refused, unless the check is turned off.
abbrev ring : View
ring = list_view 2 ((0, 1) ∷ (1, 0) ∷ []) refl

new_cycle : new ring false true false none true ≡ err dag_has_cycle
unfolding new list_view
new_cycle = refl

-- A node outside of the graph among the initial ones is refused.
new_unknown : new fork true true false (some (0 ∷ 7 ∷ [])) true ≡ err value_error
unfolding new list_view
new_unknown = refl
