-- ===== src/DiGraph/Rewire.antt =====
-- src/digraph.rs: `remove_node_retain_edges`, with `check_condition` inside it. A Python callable
-- is a function that may raise.
pub mod Bridges
pub mod Rows
pub mod Laws
use rustworkx.Base.{ℕ, Bool, true, false, Option, none, some, List, [], ◌∷◌, ◌++◌, if◌then◌else◌}
use rustworkx.Petgraph.Stable.{Stable, EdgeReference, outgoing, incoming, is_some}
use rustworkx.DiGraph.{
  PyDiGraph, M, Outcome, ok, err, ◌>>=◌, ◌>>◌, after, return, for_each, add_edge_checked,
}

-- `let a = m?; ..` outside the state.
abbrev pub bind : {A B : Type 0} → Outcome A → (A → Outcome B) → Outcome B
bind (ok a) f = f a
bind (err e) f = err e

module _ {O : Type 0} where
  abbrev pub check_condition : Option (O → O → Outcome Bool) → O → O → Outcome Bool
  check_condition none in_weight out_weight = ok true
  check_condition (some condition) in_weight out_weight = condition in_weight out_weight

  module _ (condition : Option (O → O → Outcome Bool)) (use_outgoing : Bool) where
    -- The inner loop, for one incoming edge.
    unfoldable pub retain_row :
        EdgeReference O → List (EdgeReference O) → Outcome (List (ℕ × ℕ × O))
    retain_row x [] = ok []
    retain_row x (y ∷ ys) =
        let rest = retain_row x ys in
        bind (check_condition condition x.weight y.weight) λ keep. bind rest λ edges. ok (
          if keep
          then (x.source, y.target, if use_outgoing then y.weight else x.weight) ∷ edges
          else edges)

    unfoldable pub retain_rows :
        List (EdgeReference O) → List (EdgeReference O) → Outcome (List (ℕ × ℕ × O))
    unfolding retain_row
    retain_rows [] ys = ok []
    retain_rows (x ∷ xs) ys =
        let rest = retain_rows xs ys in
        bind (retain_row x ys) λ row. bind rest λ rows. ok (row ++ rows)

module _ {O : Type 0} (st : Stable O O) where
  open st use {edges_directed, node_weight}

  -- `for (source, target, weight) in edge_list { self._add_edge(source, target, weight)?; }`
  unfoldable pub add_all : List (ℕ × ℕ × O) → M st (Unit {0})
  add_all edge_list =
      for_each edge_list
        (λ (source, target, weight). do add_edge_checked st source target weight; return tt)

  unfoldable pub remove_node_retain_edges :
      ℕ → Bool → Option (O → O → Outcome Bool) → M st (Unit {0})
  unfolding add_all
  remove_node_retain_edges node use_outgoing condition self =
      elim (retain_rows condition use_outgoing (edges_directed self.graph node incoming)
        (edges_directed self.graph node outgoing)) [
          | err e ↦ (err e, self)
          | ok edge_list ↦ after (add_all edge_list self) λ _ s. (
            ok tt,
            record s {
              graph = st.remove_node s.graph node;
              node_removed = is_some (node_weight s.graph node);
            },
          )
        ]
