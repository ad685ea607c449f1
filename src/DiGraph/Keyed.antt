-- ===== src/DiGraph/Keyed.antt =====
-- src/digraph.rs: `remove_node_retain_edges_by_key`. How a `PyDict` compares keys is an argument
-- `same`: hashing and comparing keys raise nothing. A Python callable is a function that may raise.
pub mod Groups
pub mod Nested
pub mod Retains
use rustworkx.Base.{ℕ, Bool, Option, none, some, List, [], ◌∷◌, ◌++◌, if◌then◌else◌}
use rustworkx.Petgraph.Stable.{Stable, EdgeReference, outgoing, incoming, is_some}
use rustworkx.DiGraph.{
  PyDiGraph, M, Outcome, ok, err, ◌>>=◌, ◌>>◌, after, return, for_each, add_edge_checked,
}
use rustworkx.DiGraph.Rewire.{bind}

-- An entry of the dictionaries: its key, and the fields of `RemoveNodeEdgeValue`.
pub record RemoveNodeEdgeValue (O : Type 0) : Type 0 where
  pub key : O
  pub weight : O
  pub nodes : List ℕ

module _ {O : Type 0} (same : O → O → Bool) where
  abbrev pub Dict : Type 0
  Dict = List (RemoveNodeEdgeValue O)

  -- `get_item`
  unfoldable pub get_item : O → Dict → Option (RemoveNodeEdgeValue O)
  get_item k [] = none
  get_item k (g ∷ gs) = let rest = get_item k gs in if same g.key k then some g else rest

  -- A node is pushed to the entry of its key, or starts one.
  unfoldable pub push_node : O → O → ℕ → Dict → Dict
  push_node k weight n [] = record { key = k; weight = weight; nodes = n ∷ [] } ∷ []
  push_node k weight n (g ∷ gs) =
      let rest = push_node k weight n gs in
      if same g.key k then record g { nodes = g.nodes ++ n ∷ [] } ∷ gs else g ∷ rest

  abbrev pub key_value : Option (O → Outcome O) → O → Outcome O
  key_value none weight = ok weight
  key_value (some key_fn) weight = key_fn weight

  -- The loop over the edges on one side of the node; `end_of` is their other end.
  unfoldable pub group_edges :
      Option (O → Outcome O) → (EdgeReference O → ℕ) → List (EdgeReference O) → Dict → Outcome Dict
  unfolding push_node
  group_edges key end_of [] groups = ok groups
  group_edges key end_of (edge ∷ rest) groups =
      bind (key_value key edge.weight)
        λ k. group_edges key end_of rest (push_node k edge.weight (end_of edge) groups)

  module _ (st : Stable O O) where
    open st use {edges_directed, node_weight}

    -- The loop over `in_edges`.
    unfoldable pub join_groups : Bool → Dict → Dict → M st (Unit {0})
    unfolding get_item
    join_groups use_outgoing in_edges out_edges = for_each in_edges λ in_edge_data.
        elim (get_item in_edge_data.key out_edges) [
          | none ↦ return tt
          | some out_edge_data ↦ for_each in_edge_data.nodes λ source.
              for_each out_edge_data.nodes λ target. (do
                add_edge_checked st source target
                    (if use_outgoing then out_edge_data.weight else in_edge_data.weight)
                return tt)
        ]

    unfoldable pub remove_node_retain_edges_by_key :
        ℕ → Option (O → Outcome O) → Bool → M st (Unit {0})
    unfolding group_edges join_groups
    remove_node_retain_edges_by_key node key use_outgoing self =
        elim (group_edges key (λ e. e.source) (edges_directed self.graph node incoming) []) [
          | err e ↦ (err e, self)
          | ok in_edges ↦
              elim (group_edges key (λ e. e.target) (edges_directed self.graph node outgoing) []) [
                | err e ↦ (err e, self)
                | ok out_edges ↦ after (join_groups use_outgoing in_edges out_edges self) λ _ s. (
                  ok tt,
                  record s {
                    graph = st.remove_node s.graph node;
                    node_removed = is_some (node_weight s.graph node);
                  },
                )
              ]
        ]
