-- ===== src/DiGraph/Turn/Twice.antt =====
-- `reverse` turns every edge, and twice it changes nothing but indices.
use rustworkx.Base.{ℕ, ◌≡◌, ◌≤◌, refl, sym, ap, ◌∙◌, ◌↔◌, inl, inr, false, some, List, [], ◌∷◌}
use rustworkx.Base.{
  ◌==◌, ==_iff, count, elem, elem_iff, elem-count, Bool-cases, Option-cases, arith,
}
use rustworkx.Petgraph.Stable.{Stable, is_some}
use rustworkx.DiGraph.{PyDiGraph, ok, for_each, ◌>>◌}
use rustworkx.DiGraph.Table.{SameNodes}
use rustworkx.DiGraph.Merge.Unchecked.{SameNodes-refl, SameNodes-trans}
use rustworkx.DiGraph.Turn.{turn, reverse}
use rustworkx.DiGraph.Turn.Half.{Table, Turned, Half, Half-Turned}

module _ {O : Type 0} (st : Stable O O) where
  open st use {edge, edge_indices}

  -- An edge from `a` to `b` with the weight `w`.
  abbrev pub HasEdge : PyDiGraph st → ℕ → ℕ → O → Type 0
  HasEdge s a b w = (i : ℕ) × (edge s.graph i ≡ some (a, b, w))

  turn_lem :
      (s : PyDiGraph st) (idx x y : ℕ) (w : O)
      → edge s.graph idx ≡ some (x, y, w)
      → (s' : PyDiGraph st) × (turn st idx s ≡ (ok tt, s'))
        × SameNodes st s s'
        × Turned (edge s.graph) (edge s'.graph) idx x y w
  unfolding turn
  turn_lem s idx x y w at =
      let rest = st.remove_edge s.graph idx in
      let kept = λ (n : ℕ). ap is_some (st.nodes-remove_edge s.graph idx n) in
      let (hx, hy) = st.endpoints s.graph idx x y w at in
      let (j, g, done, empty, edges, nodes) =
        st.add_edge-some rest y x w (kept y ∙ hy) (kept x ∙ hx) in
      (
        record s { graph = g },
        rw (at, done, turn) refl,
        record {
          nodes = λ n. nodes n ∙ st.nodes-remove_edge s.graph idx n;
          check_cycle = refl;
          node_removed = refl;
          multigraph = refl;
          attrs = refl;
        },
        record {
          slot = j;
          was = at;
          free = elim (Bool-cases (idx == j)) [
            | inl e ↦ inl (sym ((==_iff idx j).0 e))
            | inr n ↦ inr (sym (st.edges-remove_edge s.graph idx j ∙ rw n refl) ∙ empty)
          ];
          table = λ k. edges k ∙ rw (st.edges-remove_edge s.graph idx k) refl;
        },
      )

  turn_all :
      (old : Table O) (rest : List ℕ) (s : PyDiGraph st)
      → ((i : ℕ) → count i rest ≤ 1)
      → Half old rest (edge s.graph)
      → (s' : PyDiGraph st) × (for_each rest (turn st) s ≡ (ok tt, s'))
        × SameNodes st s s'
        × Half old [] (edge s'.graph)
  unfolding for_each
  turn_all old [] s once half = (s, refl, SameNodes-refl st s, half)
  turn_all old (idx ∷ rest) s once half =
      let (same, there) = half.todo idx (ground arith) in
      elim (Option-cases (old idx)) [
        | inl missing ↦ cc (missing, there)
        | inr ((x, y, w), at) ↦
            let (s1, done, kept, turned) = turn_lem s idx x y w (same ∙ at) in
            let new : elem idx rest ≡ false = ground (arith, once idx, elem-count idx rest) in
            let (s2, done', kept', half') =
              turn_all old rest s1 (λ i. ground (arith, once i))
                (Half-Turned old idx x y w rest (edge s.graph) (edge s1.graph) new half turned) in
            (s2, rw done done', SameNodes-trans st kept kept', half')
      ]

  reverse_all :
      (s : PyDiGraph st)
      → (s' : PyDiGraph st) × (reverse st s ≡ (ok tt, s'))
        × SameNodes st s s'
        × Half (edge s.graph) [] (edge s'.graph)
  unfolding reverse
  reverse_all s =
      let listed = λ (i : ℕ). st.mem-edge_indices s.graph i in
      let indices = edge_indices s.graph in
      let none_else : (i a b : ℕ) (w : O)
          → elem i indices ≡ false
          → edge s.graph i ≡ some (a, b, w)
          → ⊥ =
        λ i a b w out at.
          let inside = (elem_iff i indices).1 ((listed i).1 (ap is_some at)) in cc (inside, out) in
      turn_all (edge s.graph) indices s (st.edge_indices-once s.graph) (record {
        todo = λ i m. (refl, (listed i).0 ((elem_iff i indices).0 m));
        to = λ i. i;
        from = λ k. k;
        kept = λ i a b w out at. absurd (none_else i a b w out at);
        came = λ k a b w out at. absurd (none_else k a b w out at);
      })

  -- `reverse` returns normally: an edge with a weight joins two nodes exactly if one with that
  -- weight joined them in the other direction before. Nodes and attributes stay.
  pub reverse_lem :
      (s : PyDiGraph st)
      → (s' : PyDiGraph st) × (reverse st s ≡ (ok tt, s'))
        × SameNodes st s s'
        × ((a b : ℕ) (w : O) → HasEdge s' a b w ↔ HasEdge s b a w)
  reverse_lem s =
      let (s', done, same, half) = reverse_all s in
      (
        s',
        done,
        same,
        λ a b w. (
          λ (i, at). (half.from i, (half.came i a b w refl at).1),
          λ (i, at). (half.to i, (half.kept i b a w refl at).1),
        ),
      )

  -- The edges are the same, under other indices: the edge `i` of the one graph is the edge `to i`
  -- of the other, with its ends and its weight, and `from` leads back.
  pub record Renumbered (s s' : PyDiGraph st) : Type 0 where
    pub to : ℕ → ℕ
    pub from : ℕ → ℕ
    pub kept :
        (i a b : ℕ) (w : O)
        → edge s.graph i ≡ some (a, b, w)
        → (edge s'.graph (to i) ≡ some (a, b, w)) × (from (to i) ≡ i)
    pub came :
        (k a b : ℕ) (w : O)
        → edge s'.graph k ≡ some (a, b, w)
        → (edge s.graph (from k) ≡ some (a, b, w)) × (to (from k) ≡ k)

  -- Two calls of `reverse` return normally and leave the edges that there were, parallel ones
  -- included: the indices of the edges before and after correspond one to one, and an edge keeps
  -- its ends and its weight. Nodes and attributes stay.
  pub reverse-reverse :
      (s : PyDiGraph st)
      → (s' : PyDiGraph st) × ((reverse st >> reverse st) s ≡ (ok tt, s'))
        × SameNodes st s s'
        × Renumbered s s'
  reverse-reverse s =
      let (s1, done, same, half) = reverse_all s in
      let (s2, done', same', half') = reverse_all s1 in
      (
        s2,
        rw done done',
        SameNodes-trans st same same',
        record {
          to = λ i. half'.to (half.to i);
          from = λ k. half.from (half'.from k);
          kept = λ i a b w at.
              let (_, mid, back) = half.kept i a b w refl at in
              let (_, last, back') = half'.kept (half.to i) b a w refl mid in
              (last, ap half.from back' ∙ back);
          came = λ k a b w at.
              let (_, mid, back') = half'.came k a b w refl at in
              let (_, first, back) = half.came (half'.from k) b a w refl mid in
              (first, ap half'.to back ∙ back');
        },
      )
