-- ===== src/DiGraph/Mirror.antt =====
-- src/digraph.rs: `is_symmetric`. A `HashSet` is a list in which no pair stands twice.
pub mod Answers
mod Tests
use rustworkx.Base.{ℕ, Bool, true, false, not, ◌&&◌, ◌||◌, List, [], ◌∷◌, if◌then◌else◌, ◌==◌}
use rustworkx.Petgraph.Stable.{Stable, EdgeReference}
use rustworkx.DiGraph.{PyDiGraph, nonempty}

abbrev pub has_pair : ℕ → ℕ → List (ℕ × ℕ) → Bool
has_pair a b [] = false
has_pair a b ((x, y) ∷ es) = x == a && y == b || has_pair a b es

-- `HashSet::remove`
abbrev pub drop_pair : ℕ → ℕ → List (ℕ × ℕ) → List (ℕ × ℕ)
drop_pair a b [] = []
drop_pair a b ((x, y) ∷ es) =
    let rest = drop_pair a b es in if x == a && y == b then rest else (x, y) ∷ rest

-- One round of the loop.
abbrev pub cancel : ℕ → ℕ → List (ℕ × ℕ) → List (ℕ × ℕ)
cancel source target edges =
    if has_pair target source edges
    then drop_pair target source edges
    else if has_pair source target edges
    then edges
    else (source, target) ∷ edges

module _ {O : Type 0} (st : Stable O O) where
  unfoldable pub cancel_all : List (EdgeReference O) → List (ℕ × ℕ) → List (ℕ × ℕ)
  cancel_all [] edges = edges
  cancel_all (r ∷ rs) edges = cancel_all rs (cancel r.source r.target edges)

  unfoldable pub is_symmetric : PyDiGraph st → Bool
  unfolding cancel_all
  is_symmetric self = not (nonempty (cancel_all (Stable.edge_references st self.graph) []))
