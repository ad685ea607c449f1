-- ===== src/Connectivity/Classes.antt =====
-- `connected_components` returns the classes of the nodes that walks join.
use rustworkx.Base.{
  ℕ, ◌+◌, ◌≡◌, refl, ap, ◌∙◌, inl, inr, Bool, false, some, List, [], ◌∷◌, Memᴰ, ◌↔◌,
}
use rustworkx.Base.{count_if, elem, elem_iff, length, arith, Bool-cases, Option-cases}
use mathlib.Core.Option
use rustworkx.Petgraph.Walks.{Walk}
use rustworkx.Petgraph.View.{Adjacency}
use rustworkx.Connectivity.{
  mark, bfs_undirected, components_from, number_from, connected_components,
  number_connected_components,
}
use rustworkx.Connectivity.Component.{Adjacent}
use rustworkx.Connectivity.Parts.{Parts, components_from-Parts}

module _ (graph : Adjacency) where
  open graph use {node_identifiers}

  pub connected_components-Parts :
      (comps : List (List ℕ)) × (connected_components graph ≡ some comps)
      × Parts graph node_identifiers (λ _. false) comps
  unfolding connected_components
  connected_components-Parts =
      components_from-Parts graph node_identifiers (λ _. false) (λ u w h. cc)

  -- `connected_components` returns, each node is in exactly one of the sets, and each set holds
  -- the nodes that are joined to one of the graph by edges in either direction, and no other.
  pub connected_components_lem :
      (comps : List (List ℕ)) × (connected_components graph ≡ some comps)
      × ((v : ℕ) → Memᴰ v node_identifiers → count_if (elem v) comps ≡ 1)
      × ((c : List ℕ)
          → Memᴰ c comps
          → (r : ℕ) × Memᴰ r node_identifiers × ((v : ℕ) → Memᴰ v c ↔ Walk (Adjacent graph) v r))
  connected_components_lem =
      let (comps, done, p) = connected_components-Parts in
      (
        comps,
        done,
        λ v m. p.covers v ((elem_iff v node_identifiers).1 m) refl,
        λ c m.
            let (r, k, walks, once) = p.classes c m in
            (
              r,
              k,
              λ v. (λ h. (walks v).0 ((elem_iff v c).1 h), λ w. (elem_iff v c).0 ((walks v).1 w)),
            ),
      )

  number_from-components :
      (starts : List ℕ) (map : ℕ → Bool) (n : ℕ)
      → number_from graph starts map n
        ≡ Option.map (λ cs. n + length cs) (components_from graph starts map)
  unfolding number_from components_from
  number_from-components [] map n = ap some (omega arith)
  number_from-components (start ∷ rest) map n = elim (Bool-cases (map start)) [
    | inl known ↦ rw (known, number_from, components_from) (number_from-components rest map n)
    | inr new ↦ elim (Option-cases (bfs_undirected graph start (mark start map))) [
      | inl e ↦ rw (new, e, number_from, components_from) refl
      | inr ((c, next), e) ↦
          let later = number_from-components rest next (n + 1) in
          elim (Option-cases (components_from graph rest next)) [
            | inl d ↦ rw (new, e, d, number_from, components_from) (later ∙ rw d refl)
            | inr (cs, d) ↦
                rw (new, e, d, number_from, components_from) (later ∙ rw d (ap some (omega arith)))
          ]
    ]
  ]

  -- `number_connected_components` is the number of sets that `connected_components` returns.
  pub number_connected_components-length :
      number_connected_components graph ≡ Option.map length (connected_components graph)
  unfolding number_connected_components connected_components
  number_connected_components-length =
      number_from-components node_identifiers (λ _. false) 0
      ∙ elim (Option-cases (components_from graph node_identifiers (λ _. false))) [
        | inl e ↦ rw e refl
        | inr (cs, e) ↦ rw e (ap some (omega arith))
      ]
