-- ===== src/Connectivity/Count.antt =====
-- How many components there are.
use rustworkx.Base.{
  ℕ, ◌≡◌, ◌≤◌, refl, sym, ap, ◌∙◌, subst, inl, inr, true, false, not, some, List, [], ◌∷◌, ◌++◌,
  Memᴰ, ◌↔◌,
}
use rustworkx.Base.{
  count, elem, elem_iff, length, arith, List-cases, mem-filter_if, count-filter_if,
}
use mathlib.Core.List.Memᴰ
use rustworkx.Petgraph.Walks.{Walk, here, step, Walk-append}
use rustworkx.Petgraph.Stable.{outgoing, incoming}
use rustworkx.Petgraph.View.{Adjacency}
use rustworkx.DiGraph.{ok, nonempty}
use rustworkx.Connectivity.{number_connected_components, is_connected, isolates, neighbors}
use rustworkx.Connectivity.Component.{Adjacent, Walk-sym}
use rustworkx.Connectivity.Parts.{Parts}
use rustworkx.Connectivity.Classes.{connected_components-Parts, number_connected_components-length}
use rustworkx.Connectivity.Whole.{Connected, is_connected_lem}
use rustworkx.Connectivity.Hits.{
  hits-members, hits-least, hits-most, count_if-member, count_if-single,
}

no_items-append : (xs ys : List ℕ) → nonempty (xs ++ ys) ≡ false → (xs ≡ []) × (ys ≡ [])
no_items-append [] [] h = (refl, refl)
no_items-append [] (y ∷ ys) h = cc
no_items-append (x ∷ xs) ys h = cc

module _ (graph : Adjacency) where
  open graph use {node_identifiers, neighbors_directed}

  -- A node in `isolates` has no edge.
  isolates_lem :
      (v : ℕ) → Memᴰ v (isolates graph) → Memᴰ v node_identifiers × (neighbors graph v ≡ [])
  unfolding isolates
  isolates_lem v m =
      let (k, h) = (mem-filter_if _ v node_identifiers).0 m in
      let (no_in, no_out) =
        no_items-append (neighbors_directed v incoming) (neighbors_directed v outgoing)
          (ground (arith, h)) in
      (k, rw (no_in, no_out) refl)

  isolates-once : (v : ℕ) → count v (isolates graph) ≤ 1
  unfolding isolates
  isolates-once v =
      let free = λ (x : ℕ).
        not (nonempty (neighbors_directed x incoming ++ neighbors_directed x outgoing)) in
      ground (arith, count-filter_if free v node_identifiers, graph.once v)

  -- A walk from a node without edges stays.
  stays : {v r : ℕ} → neighbors graph r ≡ [] → Walk (Adjacent graph) v r → v ≡ r
  stays e here = refl
  stays {v} {r} e (step {a} {b} n w) =
      let no : elem b (neighbors graph r) ≡ false = ap (elem b) e in cc (no, n)

  -- `number_connected_components` returns a number: no less than the number of isolates, and no
  -- more than that of the nodes.
  pub number_connected_components-bounds :
      (k : ℕ) × (number_connected_components graph ≡ some k)
      × (length (isolates graph) ≤ k)
      × (k ≤ graph.node_count)
  number_connected_components-bounds =
      let (comps, done, p) = connected_components-Parts graph in
      let member = λ (v : ℕ) (m : elem v node_identifiers ≡ true). p.covers v m refl in
      (
        length comps,
        number_connected_components-length graph ∙ rw done refl,
        omega (
          arith,
          hits-members (isolates graph) comps (λ v m. member v (
              (elem_iff v node_identifiers).1
                (isolates_lem v ((elem_iff v (isolates graph)).0 m)).0)),
          hits-most (isolates graph) comps (λ c m.
              let (r, k, walks, once) = p.classes c m in
              let only =
                count_if-single (λ v. elem v c) r (isolates graph)
                  (λ v mv h. sym (stays (isolates_lem v mv).1 (Walk-sym graph ((walks v).0 h)))) in
              omega (arith, only, isolates-once r)),
        ),
        omega (
          arith,
          hits-members node_identifiers comps member,
          hits-least node_identifiers comps (λ c m.
              let (r, k, walks, once) = p.classes c m in
              count_if-member (λ v. elem v c) r node_identifiers k ((walks r).1 here)),
          graph.node_count-length,
        ),
      )

  -- Two sets cannot both hold a node.
  one_set :
      (comps : List (List ℕ))
      → Parts graph node_identifiers (λ _. false) comps
      → Connected graph
      → (node : ℕ) → elem node node_identifiers ≡ true
      → length comps ≡ 1
  one_set [] p joined node there = absurd (omega (arith, p.covers node there refl))
  one_set (c ∷ []) p joined node there = omega arith
  one_set (c ∷ d ∷ more) p joined node there =
      let (r, m, walks, once) = p.classes c (Memᴰ.head refl) in
      let (r', m', walks', once') = p.classes d (Memᴰ.tail (Memᴰ.head refl)) in
      let in_c : elem r' c ≡ true = (walks r').1 (joined r r' m m') in
      let in_d : elem r' d ≡ true = (walks' r').1 here in
      absurd (ground (arith, p.most r', in_c, in_d))

  all_joined :
      (comps : List (List ℕ))
      → Parts graph node_identifiers (λ _. false) comps
      → length comps ≡ 1
      → Connected graph
  all_joined [] p e = absurd (omega (arith, e))
  all_joined (c ∷ d ∷ more) p e = absurd (omega (arith, e))
  all_joined (c ∷ []) p e =
      let (r, m, walks, once) = p.classes c (Memᴰ.head refl) in
      let to_r : (v : ℕ) → Memᴰ v node_identifiers → Walk (Adjacent graph) v r =
        λ v k. (walks v).0 (ground (arith, p.covers v ((elem_iff v node_identifiers).1 k) refl)) in
      λ u v mu mv. Walk-append (Walk-sym graph (to_r u mu)) (to_r v mv)

  no_sets :
      (comps : List (List ℕ))
      → Parts graph node_identifiers (λ _. false) comps
      → node_identifiers ≡ []
      → ¬ (length comps ≡ 1)
  no_sets [] p e h = omega (arith, h)
  no_sets (c ∷ more) p e h =
      let (r, m, walks, once) = p.classes c (Memᴰ.head refl) in Memᴰ.not-nil (subst (Memᴰ r) e m)

  is_connected-number :
      (comps : List (List ℕ))
      → number_connected_components graph ≡ some (length comps)
      → Parts graph node_identifiers (λ _. false) comps
      → (is_connected graph ≡ ok true) ↔ (number_connected_components graph ≡ some 1)
  is_connected-number comps number p = elim (is_connected_lem graph) [
    | inl (empty, refused, _) ↦ (
      λ h. cc (h, refused),
      λ h. let one : length comps ≡ 1 = cc (h, number) in absurd (no_sets comps p empty one),
    )
    | inr (b, has_node, answer, _, tells) ↦ (
      λ h.
          let yes : b ≡ true = cc (h, answer) in
          elim (List-cases node_identifiers) [
            | inl none_there ↦ absurd (has_node none_there)
            | inr (node, rest, e) ↦
                number ∙ ap some (one_set comps p (tells.0 yes) node (rw e (ground arith)))
          ],
      λ h.
          let one : length comps ≡ 1 = cc (h, number) in
          answer ∙ ap ok (tells.1 (all_joined comps p one)),
    )
  ]

  -- `is_connected` answers `true` exactly if `number_connected_components` is one.
  pub is_connected_iff :
      (is_connected graph ≡ ok true) ↔ (number_connected_components graph ≡ some 1)
  is_connected_iff =
      let (comps, done, p) = connected_components-Parts graph in
      is_connected-number comps (number_connected_components-length graph ∙ rw done refl) p
