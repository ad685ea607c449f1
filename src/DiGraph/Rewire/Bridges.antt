-- ===== src/DiGraph/Rewire/Bridges.antt =====
-- Insertions that bridge a node: they are never refused, and close no cycle.
use rustworkx.Base.{
  ℕ, ◌≡◌, ◌≢◌, refl, sym, ap, ◌∙◌, subst, ◌↔◌, ◌⊎◌, inl, inr, true, some, List, [], ◌∷◌, Memᴰ,
}
use rustworkx.Base.{◌==◌, ==_iff, Bool-cases}
use mathlib.Core.List.Memᴰ
use mathlib.Core.Logic.{∥∥₁_elim}
use mathlib.Core.HLevel.{⊥_prop}
use rustworkx.Petgraph.Stable.{Stable, is_some}
use rustworkx.Petgraph.Walks.{Walk, here, step}
use rustworkx.DiGraph.{PyDiGraph, Outcome, ok, for_each, add_edge_checked, contains_node}
use rustworkx.DiGraph.Table.{Joins, SameNodes, Inserted, Inserted-Within}
use rustworkx.DiGraph.Cycles.{
  IsGuarded, refused, inserted, add_edge_checked-Checked, add_edge_checked-IsGuarded,
  has_path_connecting-Walk,
}
use rustworkx.DiGraph.SelfLoop.{Joins-Inserted}
use rustworkx.DiGraph.Rewire.{add_all}

module _ {O : Type 0} (st : Stable O O) where
  open st use {edge, node_weight}

  -- `p` and `c` are nodes, and some node lies between them.
  pub record Bridged (s : PyDiGraph st) (p c : ℕ) : Type 0 where
    pub source : contains_node st s p ≡ true
    pub target : contains_node st s c ≡ true
    pub mid : ℕ
    pub into : Joins st s p mid
    pub out : Joins st s mid c

  no_back :
      (s : PyDiGraph st) (p c : ℕ)
      → Bridged s p c
      → IsGuarded st s
      → s.check_cycle ≡ true
      → ¬ Walk (Joins st s) p c
  no_back s p c b guarded on w = guarded on p b.mid b.into (step b.out w)

  add_bridge :
      (s : PyDiGraph st) (p c : ℕ) (w : O)
      → Bridged s p c
      → IsGuarded st s
      → (i : ℕ) × (s' : PyDiGraph st) × (add_edge_checked st p c w s ≡ (ok i, s'))
        × Inserted st s p c w i s'
        × IsGuarded st s'
  add_bridge s p c w b guarded = elim (add_edge_checked-Checked st s p c w b.source b.target) [
    | refused on back e ↦ absurd (
        ∥∥₁_elim ((has_path_connecting-Walk st s p c b.source b.target).0 back) ⊥_prop
          (no_back s p c b guarded on))
    | inserted i s' passed e ins ↦ (
      i,
      s',
      e,
      ins,
      λ on.
          let was : s.check_cycle ≡ true = sym ins.same.check_cycle ∙ on in
          let apart : p ≢ c =
            λ same. no_back s p c b guarded was (subst (λ x. Walk (Joins st s) p x) same here) in
          subst (λ r. IsGuarded st r.1) e
            (add_edge_checked-IsGuarded st s p c w b.source b.target apart guarded) on,
    )
  ]

  -- No edge is lost in an insertion.
  Inserted-old :
      {s : PyDiGraph st} {p c : ℕ} {w : O} {i : ℕ} {s' : PyDiGraph st}
      → Inserted st s p c w i s'
      → (a b : ℕ) → Joins st s a b
      → Joins st s' a b
  Inserted-old {s} {p} {c} {w} {i} {s'} ins a b (j, v, at) = elim (Bool-cases (i == j)) [
    | inr n ↦ (j, v, ins.edges j ∙ rw n at)
    | inl e ↦
        let same : i ≡ j = (==_iff i j).0 e in
        let here_ : edge s.graph i ≡ some (a, b, v) = rw same at in
        elim ins.slot [
          | inl (empty, _) ↦ cc (empty, here_)
          | inr (_, (u, old)) ↦
              let ea : some (p, c, u) ≡ some (a, b, v) = sym old ∙ here_ in
              let pa : p ≡ a = cc ea in
              let cb : c ≡ b = cc ea in
              subst (λ x. Joins st s' x b) pa
                (subst (λ y. Joins st s' p y) cb (Joins-Inserted st ins))
        ]
  ]

  pub Inserted-Joins :
      {s : PyDiGraph st} {p c : ℕ} {w : O} {i : ℕ} {s' : PyDiGraph st}
      → Inserted st s p c w i s'
      → (a b : ℕ) → Joins st s' a b ↔ (Joins st s a b ⊎ (a ≡ p) × (b ≡ c))
  Inserted-Joins {s} {p} {c} {w} {i} {s'} ins a b = (
    Inserted-Within st ins a b,
    λ h. elim h [
      | inl old ↦ Inserted-old ins a b old
      | inr (ea, eb) ↦
          subst (λ x. Joins st s' x b) (sym ea)
            (subst (λ y. Joins st s' p y) (sym eb) (Joins-Inserted st ins))
    ],
  )

  -- The edges after an insertion and those of `l`.
  pub Joins-cons :
      (s2 : PyDiGraph st) {s s1 : PyDiGraph st} {p c : ℕ} {w : O} {i : ℕ} {l : List (ℕ × ℕ × O)}
      → Inserted st s p c w i s1
      → ((a b : ℕ) → Joins st s2 a b ↔ (Joins st s1 a b ⊎ ((v : O) × Memᴰ (a, b, v) l)))
      → (a b : ℕ) → Joins st s2 a b ↔ (Joins st s a b ⊎ ((v : O) × Memᴰ (a, b, v) ((p, c, w) ∷ l)))
  Joins-cons s2 {w = w} ins joins a b = (
    λ h. elim ((joins a b).0 h) [
      | inr (v, m) ↦ inr (v, Memᴰ.tail m)
      | inl one ↦ elim ((Inserted-Joins ins a b).0 one) [
        | inl old ↦ inl old
        | inr (ea, eb) ↦ inr (w, Memᴰ.head (cc (ea, eb)))
      ]
    ],
    λ h. elim h [
      | inl old ↦ (joins a b).1 (inl (Inserted-old ins a b old))
      | inr (v, m) ↦ elim (Memᴰ.cases_cons m) [
        | inr t ↦ (joins a b).1 (inr (v, t))
        | inl e ↦
            (joins a b).1
              (inl ((Inserted-Joins ins a b).1 (inr (ap (λ t. t.0) e, ap (λ t. t.1) e))))
      ]
    ],
  )

  Bridged-Inserted :
      {s : PyDiGraph st} {p c : ℕ} {w : O} {i : ℕ} {s' : PyDiGraph st}
      → Inserted st s p c w i s'
      → (a b : ℕ) → Bridged s a b
      → Bridged s' a b
  unfolding contains_node
  Bridged-Inserted ins a b h = record {
    source = ap is_some (ins.same.nodes a) ∙ h.source;
    target = ap is_some (ins.same.nodes b) ∙ h.target;
    mid = h.mid;
    into = Inserted-old ins a h.mid h.into;
    out = Inserted-old ins h.mid b h.out;
  }

  -- A normal return that inserts the edges of `l`.
  pub record AddsAll (s : PyDiGraph st) (l : List (ℕ × ℕ × O))
      (r : Outcome (Unit {0}) × PyDiGraph st) : Type 0 where
    pub after_all : PyDiGraph st
    pub returns : r ≡ (ok tt, after_all)
    pub same : SameNodes st s after_all
    pub guarded : IsGuarded st after_all
    pub joins : (a b : ℕ) → Joins st after_all a b ↔ (Joins st s a b ⊎ ((w : O) × Memᴰ (a, b, w) l))

  pub add_all_lem :
      (l : List (ℕ × ℕ × O)) (s : PyDiGraph st)
      → ((p c : ℕ) (w : O) → Memᴰ (p, c, w) l → Bridged s p c)
      → IsGuarded st s
      → AddsAll s l (add_all st l s)
  unfolding add_all for_each
  add_all_lem [] s all guarded = record {
    after_all = s;
    returns = refl;
    same = record {
      nodes = λ n. refl;
      check_cycle = refl;
      node_removed = refl;
      multigraph = refl;
      attrs = refl;
    };
    guarded = guarded;
    joins = λ a b. (inl, λ h. elim h [ inl old ↦ old | inr (w, m) ↦ absurd (Memᴰ.not-nil m) ]);
  }
  add_all_lem ((p, c, w) ∷ l) s all guarded =
      let (i, s1, done, ins, guarded1) = add_bridge s p c w (all p c w (Memᴰ.head refl)) guarded in
      let rest =
        add_all_lem l s1 (λ a b v m. Bridged-Inserted ins a b (all a b v (Memᴰ.tail m))) guarded1 in
      record {
        after_all = rest.after_all;
        returns = rw done rest.returns;
        same = record {
          nodes = λ n. rest.same.nodes n ∙ ins.same.nodes n;
          check_cycle = rest.same.check_cycle ∙ ins.same.check_cycle;
          node_removed = rest.same.node_removed ∙ ins.same.node_removed;
          multigraph = rest.same.multigraph ∙ ins.same.multigraph;
          attrs = rest.same.attrs ∙ ins.same.attrs;
        };
        guarded = rest.guarded;
        joins = Joins-cons rest.after_all ins rest.joins;
      }
