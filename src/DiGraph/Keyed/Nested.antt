-- ===== src/DiGraph/Keyed/Nested.antt =====
-- The nested loops of `remove_node_retain_edges_by_key` as one over a list.
use rustworkx.Base.{
  ℕ, ◌≡◌, refl, sym, ap, ◌∙◌, subst, ◌↔◌, inl, inr, Bool, Option, none, some, List, [], ◌∷◌, ◌++◌,
  map, Memᴰ, flat_map, Memᴰ-flat_map, Memᴰ-map,
}
use rustworkx.Base.{if◌then◌else◌, Option-cases}
use mathlib.Core.List.Memᴰ
use mathlib.Core.Path.{fun_ext}
use rustworkx.Petgraph.Stable.{Stable}
use rustworkx.DiGraph.{
  PyDiGraph, M, Outcome, ok, err, after, for_each, add_edge_checked, ◌>>◌, return,
}
use rustworkx.DiGraph.Rewire.{add_all}
use rustworkx.DiGraph.Keyed.{RemoveNodeEdgeValue, Dict, get_item, join_groups}

module _ {O : Type 0} {st : Stable O O} where
  after-after :
      {A B C : Type 0} (r : Outcome A × PyDiGraph st) (f : A → M st B) (g : B → M st C)
      → after (after r f) g ≡ after r (λ a s. after (f a s) g)
  after-after (ok a, s) f g = refl
  after-after (err e, s) f g = refl

  for_each-append :
      {A : Type 0} (xs ys : List A) (body : A → M st (Unit {0})) (s : PyDiGraph st)
      → for_each (xs ++ ys) body s ≡ after (for_each xs body s) (λ _. for_each ys body)
  unfolding for_each
  for_each-append [] ys body s = refl
  for_each-append (x ∷ xs) ys body s =
      ap (λ k. after (body x s) (λ _. k)) (fun_ext (for_each-append xs ys body))
      ∙ sym (after-after (body x s) (λ _. for_each xs body) (λ _. for_each ys body))

  for_each-flat_map :
      {A B : Type 0} (f : A → List B) (xs : List A) (body : B → M st (Unit {0}))
      → for_each (flat_map f xs) body ≡ for_each xs (λ a. for_each (f a) body)
  unfolding for_each
  for_each-flat_map f [] body = refl
  for_each-flat_map f (x ∷ xs) body = fun_ext λ s.
      for_each-append (f x) (flat_map f xs) body s
      ∙ ap (λ k. after (for_each (f x) body s) (λ _. k)) (for_each-flat_map f xs body)

  for_each-map :
      {A B : Type 0} (f : A → B) (xs : List A) (body : B → M st (Unit {0}))
      → for_each (map f xs) body ≡ for_each xs (λ a. body (f a))
  unfolding for_each
  for_each-map f [] body = refl
  for_each-map f (x ∷ xs) body = ap (λ k s. after (body (f x) s) (λ _. k)) (for_each-map f xs body)

module _ {O : Type 0} (same : O → O → Bool) (st : Stable O O) where
  open st use {edges_directed}

  abbrev pub cross : O → List ℕ → List ℕ → List (ℕ × ℕ × O)
  cross weight sources targets =
      flat_map (λ source. map (λ target. (source, target, weight)) targets) sources

  -- The edges that the loop over `in_edges` asks for.
  abbrev pub row : Bool → Dict same → RemoveNodeEdgeValue O → List (ℕ × ℕ × O)
  row use_outgoing out_edges g = elim (get_item same g.key out_edges) [
    | none ↦ []
    | some h ↦ cross (if use_outgoing then h.weight else g.weight) g.nodes h.nodes
  ]

  abbrev pub insertion : ℕ × ℕ × O → M st (Unit {0})
  insertion (source, target, weight) = (do add_edge_checked st source target weight; return tt)

  for_each-cross :
      (weight : O) (sources targets : List ℕ)
      → for_each sources (λ source. for_each targets (λ target. insertion (source, target, weight)))
        ≡ for_each (cross weight sources targets) insertion
  for_each-cross weight sources targets = sym (
      for_each-flat_map (λ source. map (λ target. (source, target, weight)) targets) sources
        insertion
      ∙ ap (for_each sources)
          (fun_ext λ source. for_each-map (λ target. (source, target, weight)) targets insertion))

  pub join_groups-add_all :
      (use_outgoing : Bool) (in_edges out_edges : Dict same)
      → join_groups same st use_outgoing in_edges out_edges
        ≡ add_all st (flat_map (row use_outgoing out_edges) in_edges)
  unfolding join_groups add_all for_each
  join_groups-add_all use_outgoing in_edges out_edges =
      ap (for_each in_edges) (
        fun_ext λ g.
          elim (get_item same g.key out_edges)
            as (λ (o : Option (RemoveNodeEdgeValue O)).
              (elim o as (λ _. M st (Unit {0})) [
                | none ↦ return tt
                | some h ↦ for_each g.nodes (λ source. for_each h.nodes (λ target.
                    insertion (source, target, if use_outgoing then h.weight else g.weight)))
              ])
              ≡ for_each
                  (elim o [
                    | none ↦ []
                    | some h ↦ cross (if use_outgoing then h.weight else g.weight) g.nodes h.nodes
                  ])
                  insertion) [
                    | none ↦ refl
                    | some h ↦
                        for_each-cross (if use_outgoing then h.weight else g.weight) g.nodes h.nodes
                  ])
      ∙ sym (for_each-flat_map (row use_outgoing out_edges) in_edges insertion)

  pub mem-cross :
      (weight w : O) (sources targets : List ℕ) (a b : ℕ)
      → Memᴰ (a, b, w) (cross weight sources targets)
        ↔ (Memᴰ a sources × Memᴰ b targets × (w ≡ weight))
  mem-cross weight w sources targets a b =
      let to_target : ℕ → ℕ → ℕ × ℕ × O = λ source target. (source, target, weight) in
      let rows = Memᴰ-flat_map (λ source. map (to_target source) targets) (a, b, w) sources in
      (
        λ m.
            let (source, ms, mr) = rows.0 m in
            let (target, mt, e) = (Memᴰ-map (to_target source) (a, b, w) targets).0 mr in
            let ea : a ≡ source = ap (λ t. t.0) e in
            let eb : b ≡ target = ap (λ t. t.1) e in
            (
              subst (λ x. Memᴰ x sources) (sym ea) ms,
              subst (λ x. Memᴰ x targets) (sym eb) mt,
              ap (λ t. t.2) e,
            ),
        λ (ms, mt, e). rows.1 (a, ms, (Memᴰ-map (to_target a) (a, b, w) targets).1 (b, mt, cc e)),
      )

  row-none :
      (use_outgoing : Bool) (out_edges : Dict same) (g : RemoveNodeEdgeValue O)
      → get_item same g.key out_edges ≡ none
      → row use_outgoing out_edges g ≡ []
  row-none use_outgoing out_edges g h = rw (h, row) refl

  row-some :
      (use_outgoing : Bool) (out_edges : Dict same) (g h : RemoveNodeEdgeValue O)
      → get_item same g.key out_edges ≡ some h
      → row use_outgoing out_edges g
        ≡ cross (if use_outgoing then h.weight else g.weight) g.nodes h.nodes
  row-some use_outgoing out_edges g h e = rw (e, row) refl

  -- The edges of one entry.
  pub mem-row :
      (use_outgoing : Bool) (out_edges : Dict same) (g : RemoveNodeEdgeValue O) (a b : ℕ)
      → ((w : O) × Memᴰ (a, b, w) (row use_outgoing out_edges g)) ↔ (
          (h : RemoveNodeEdgeValue O) × (get_item same g.key out_edges ≡ some h)
          × Memᴰ a g.nodes
          × Memᴰ b h.nodes)
  mem-row use_outgoing out_edges g a b = (
    λ (w, m). elim (Option-cases (get_item same g.key out_edges)) [
      | inl missing ↦
          absurd
            (Memᴰ.not-nil (subst (Memᴰ (a, b, w)) (row-none use_outgoing out_edges g missing) m))
      | inr (h, got) ↦
          let (ma, mb, _) =
            (mem-cross (if use_outgoing then h.weight else g.weight) w g.nodes h.nodes a b).0
              (subst (Memᴰ (a, b, w)) (row-some use_outgoing out_edges g h got) m) in
          (h, got, ma, mb)
    ],
    λ (h, got, ma, mb).
        let weight = if use_outgoing then h.weight else g.weight in
        (
          weight,
          subst (Memᴰ (a, b, weight)) (sym (row-some use_outgoing out_edges g h got))
              ((mem-cross weight weight g.nodes h.nodes a b).1 (ma, mb, refl)),
        ),
  )
