-- ===== src/Generators/Tree.antt =====
-- rustworkx-core/src/generators/full_rary_tree_graph.rs.
pub mod Rounds
pub mod Laws
use rustworkx.Base.{
  ℕ, zero, suc, ◌+◌, ◌-◌, ◌*◌, Option, none, some, List, [], ◌∷◌, ◌++◌, range, if◌then◌else◌, ltb,
  length, replicate, get_elem?,
}
use rustworkx.Petgraph.Create.{Create}
use rustworkx.Generators.Build.{
  Result, ok, invalid_input, panic, ◌>>=◌, or_panic, for_each, add_edge, collect_nodes,
}

module _ {N E : Type 0} (c : Create N E) (default_edge : E) (branching_factor num_nodes : ℕ) where
  -- The variables of the `while` loop: `parents`, `nod_it` and `graph`.
  abbrev pub Growth : Type 0
  Growth = List ℕ × ℕ × Create.G c

  -- One round of `for _ in 0..branching_factor`.
  unfoldable pub child_round : List ℕ → ℕ → ℕ → Growth → Result Growth
  child_round nodes source i (parents, nod_it, g) =
      if ltb nod_it num_nodes
      then (do
        target ← or_panic (get_elem? nodes nod_it)
        a ← or_panic (get_elem? nodes source)
        b ← or_panic (get_elem? nodes target)
        g' ← add_edge c default_edge a b g
        ok (parents ++ target ∷ [], nod_it + 1, g'))
      else ok (parents, nod_it, g)

  -- `while !parents.is_empty()`, with a bound on the rounds: beyond it, it counts as a panic.
  unfoldable pub tree_loop : ℕ → List ℕ → Growth → Result (Create.G c)
  unfolding child_round
  tree_loop fuel nodes ([], nod_it, g) = ok g
  tree_loop zero nodes (source ∷ parents, nod_it, g) = panic
  tree_loop (suc fuel) nodes (source ∷ parents, nod_it, g) =
      for_each (range 0 branching_factor) (child_round nodes source) (parents, nod_it, g)
      >>= tree_loop fuel nodes

  -- `if !nodes.is_empty() { .. }`. No node is a parent twice.
  unfoldable pub plant : List ℕ → Create.G c → Result (Create.G c)
  unfolding tree_loop
  plant [] g = ok g
  plant (root ∷ rest) g = tree_loop num_nodes (root ∷ rest) (root ∷ [], 1, g)

  unfoldable pub full_rary_tree_graph : Option (List N) → N → Result (Create.G c)
  unfolding plant
  full_rary_tree_graph (some weights) default_node =
      if ltb num_nodes (length weights)
      then invalid_input
      else let start = c.with_capacity num_nodes (num_nodes * branching_factor) in
        let (given, g) = collect_nodes c weights start in
        let (others, g1) =
          collect_nodes c (replicate (num_nodes - length weights) default_node) g in
        plant (given ++ others) g1
  full_rary_tree_graph none default_node =
      let start = c.with_capacity num_nodes (num_nodes * branching_factor) in
      let (nodes, g) = collect_nodes c (replicate num_nodes default_node) start in plant nodes g
