-- ===== src/DiGraph/Merge/Unchecked.antt =====
-- Insertions in a graph that does not check for cycles.
use rustworkx.Base.{
  ℕ, ◌≡◌, refl, sym, ap, ◌∙◌, subst, ◌↔◌, ◌⊎◌, inl, inr, Bool, true, false, ◌&&◌, List, [], ◌∷◌,
  Memᴰ,
}
use rustworkx.Base.{Bool-cases, arith}
use mathlib.Core.List.Memᴰ
use rustworkx.Petgraph.Stable.{Stable}
use rustworkx.DiGraph.{
  PyDiGraph, Outcome, ok, err, index_error, for_each, add_edge, add_edge_checked,
  add_edge_no_cycle_check, contains_node,
}
use rustworkx.DiGraph.Table.{Joins, SameNodes, Inserted, add_edge_no_cycle_check_lem}
use rustworkx.DiGraph.Rewire.Bridges.{Joins-cons}
use rustworkx.DiGraph.Merge.{add_edges}

module _ {O : Type 0} (st : Stable O O) where
  abbrev pub both_there : PyDiGraph st → ℕ → ℕ → Bool
  both_there s p c = contains_node st s p && contains_node st s c

  add_edge-unchecked :
      (s : PyDiGraph st) (p c : ℕ) (w : O)
      → s.check_cycle ≡ false
      → both_there s p c ≡ true
      → (i : ℕ) × (s' : PyDiGraph st) × (add_edge st p c w s ≡ (ok i, s'))
        × Inserted st s p c w i s'
  unfolding add_edge add_edge_checked
  add_edge-unchecked s p c w off there =
      let hp : contains_node st s p ≡ true = ground arith in
      let hc : contains_node st s c ≡ true = ground arith in
      let (i, s', done, ins) = add_edge_no_cycle_check_lem st s p c w hp hc in
      let plain : add_edge st p c w s ≡ add_edge_no_cycle_check st p c w s = ground arith in
      (i, s', plain ∙ done, ins)

  add_edge-missing :
      (s : PyDiGraph st) (p c : ℕ) (w : O)
      → both_there s p c ≡ false
      → add_edge st p c w s ≡ (err index_error, s)
  unfolding add_edge
  add_edge-missing s p c w h = elim (Bool-cases (contains_node st s p)) [
    | inl hp ↦ let hc : contains_node st s c ≡ false = ground arith in rw (hp, hc, add_edge) refl
    | inr np ↦ rw (np, add_edge) refl
  ]

  -- All edges of `l` are added, or the call stops at one that has an endpoint outside of the graph.
  pub data Added (s : PyDiGraph st) (l : List (ℕ × ℕ × O)) (r : Outcome (Unit {0}) × PyDiGraph st)
      : Type 0 where
    adds :
        (s' : PyDiGraph st)
        → r ≡ (ok tt, s')
        → SameNodes st s s'
        → ((p c : ℕ) (w : O) → Memᴰ (p, c, w) l → both_there s p c ≡ true)
        → ((a b : ℕ) → Joins st s' a b ↔ (Joins st s a b ⊎ ((w : O) × Memᴰ (a, b, w) l)))
        → Added s l r
    stops :
        (s' : PyDiGraph st)
        → r ≡ (err index_error, s')
        → SameNodes st s s'
        → (p c : ℕ) (w : O) → Memᴰ (p, c, w) l
        → both_there s p c ≡ false
        → Added s l r

  pub SameNodes-refl : (s : PyDiGraph st) → SameNodes st s s
  SameNodes-refl s = record {
    nodes = λ n. refl;
    check_cycle = refl;
    node_removed = refl;
    multigraph = refl;
    attrs = refl;
  }

  pub SameNodes-trans :
      {s t u : PyDiGraph st} → SameNodes st s t → SameNodes st t u → SameNodes st s u
  SameNodes-trans a b = record {
    nodes = λ n. b.nodes n ∙ a.nodes n;
    check_cycle = b.check_cycle ∙ a.check_cycle;
    node_removed = b.node_removed ∙ a.node_removed;
    multigraph = b.multigraph ∙ a.multigraph;
    attrs = b.attrs ∙ a.attrs;
  }

  both_there-SameNodes :
      {s t : PyDiGraph st} → SameNodes st s t → (p c : ℕ) → both_there t p c ≡ both_there s p c
  unfolding contains_node
  both_there-SameNodes same p c = rw (same.nodes p, same.nodes c) refl

  pub add_edges-Added :
      (l : List (ℕ × ℕ × O)) (s : PyDiGraph st)
      → s.check_cycle ≡ false
      → Added s l (add_edges st l s)
  unfolding add_edges for_each
  add_edges-Added [] s off =
      adds s refl (SameNodes-refl s) (λ p c w m. absurd (Memᴰ.not-nil m))
        (λ a b. (inl, λ h. elim h [ inl old ↦ old | inr (w, m) ↦ absurd (Memᴰ.not-nil m) ]))
  add_edges-Added ((p, c, w) ∷ l) s off = elim (Bool-cases (both_there s p c)) [
    | inr missing ↦
        stops s (rw (add_edge-missing s p c w missing) refl) (SameNodes-refl s) p c w
          (Memᴰ.head refl) missing
    | inl there ↦
        let (i, s1, done, ins) = add_edge-unchecked s p c w off there in
        elim (add_edges-Added l s1 (ins.same.check_cycle ∙ off)) [
          | stops s2 e same p' c' w' m bad ↦
              stops s2 (rw done e) (SameNodes-trans ins.same same) p' c' w' (Memᴰ.tail m)
                (sym (both_there-SameNodes ins.same p' c') ∙ bad)
          | adds s2 e same all joins ↦
              adds s2 (rw done e) (SameNodes-trans ins.same same)
                (λ p' c' w' m. elim (Memᴰ.cases_cons m) [
                  | inl at ↦
                      let ep : p' ≡ p = ap (λ t. t.0) at in
                      let ec : c' ≡ c = ap (λ t. t.1) at in
                      subst (λ x. both_there s x c' ≡ true) (sym ep)
                        (subst (λ y. both_there s p y ≡ true) (sym ec) there)
                  | inr later ↦ sym (both_there-SameNodes ins.same p' c') ∙ all p' c' w' later
                ])
                (Joins-cons st s2 ins joins)
        ]
  ]
