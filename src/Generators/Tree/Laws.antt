-- ===== src/Generators/Tree/Laws.antt =====
-- full_rary_tree_graph.rs: the children of node `u` are the `branching_factor` nodes that follow
-- those of the nodes before it.
use rustworkx.Base.{ℕ, ◌+◌, ◌*◌, ◌<◌, ◌≤◌, Option, none, some, List, []}
use rustworkx.Base.{flat_map, count_from}
use rustworkx.Petgraph.Create.{Create}
use rustworkx.Generators.Build.Rules.{Pairs}
use rustworkx.Generators.Tree.Rounds.{children}

-- `v` is one of the `r` nodes below `n` that hang from `u`.
abbrev pub ChildEdge : ℕ → ℕ → ℕ → ℕ → Type 0
ChildEdge r n u v = (v < n) × (u * r < v) × (v ≤ u * r + r)

module _ (r n : ℕ) where
  abbrev tree_pairs : Pairs
  tree_pairs = flat_map (children r n) (count_from 0 n)

module _ {N E : Type 0} (c : Create N E) (e : E) (r : ℕ) where
  abbrev pub given : Option (List N) → List N
  given none = []
  given (some ws) = ws
