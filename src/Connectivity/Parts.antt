-- ===== src/Connectivity/Parts.antt =====
-- The components of all nodes.
use rustworkx.Base.{
  ℕ, ◌≡◌, ◌≤◌, refl, sym, ap, ◌∙◌, subst, inl, inr, Bool, true, false, ◌||◌, some, List, [], ◌∷◌,
  Memᴰ, ◌↔◌,
}
use rustworkx.Base.{◌==◌, ==_iff, count, count_if, elem, arith, Bool-cases}
use mathlib.Core.List.Memᴰ
use rustworkx.Petgraph.Walks.{Walk, here, step, Walk-append}
use rustworkx.Petgraph.View.{Adjacency}
use rustworkx.Connectivity.{mark, bfs_undirected, components_from}
use rustworkx.Connectivity.Component.{Adjacent, Closed, Finds, bfs_undirected-Finds}

module _ (graph : Adjacency) where
  -- The components that the loop over `starts` finds where `old` are the nodes discovered.
  pub record Parts (starts : List ℕ) (old : ℕ → Bool) (comps : List (List ℕ)) : Type 0 where
    pub classes :
        (c : List ℕ)
        → Memᴰ c comps
        → (r : ℕ) × Memᴰ r starts
          × ((v : ℕ) → (elem v c ≡ true) ↔ Walk (Adjacent graph) v r)
          × ((v : ℕ) → count v c ≤ 1)
    pub fresh : (v : ℕ) → old v ≡ true → count_if (elem v) comps ≡ 0
    pub most : (v : ℕ) → count_if (elem v) comps ≤ 1
    pub covers : (v : ℕ) → elem v starts ≡ true → old v ≡ false → count_if (elem v) comps ≡ 1

  Parts-known :
      (start : ℕ) (rest : List ℕ) (old : ℕ → Bool) (comps : List (List ℕ))
      → old start ≡ true
      → Parts rest old comps
      → Parts (start ∷ rest) old comps
  Parts-known start rest old comps h p = record {
    classes = λ c m. let (r, k, walks, once) = p.classes c m in (r, Memᴰ.tail k, walks, once);
    fresh = p.fresh;
    most = p.most;
    covers = λ v k new. elim (Bool-cases (v == start)) [
      | inl at ↦ absurd (let known = ap old ((==_iff v start).0 at) ∙ h in cc (known, new))
      | inr other ↦ p.covers v (ground arith) new
    ];
  }

  -- What a call on `start` finds.
  abbrev Found : ℕ → (ℕ → Bool) → Type 0
  Found start old =
      Finds graph start old (mark start old) (bfs_undirected graph start (mark start old))

  find :
      (start : ℕ) (old : ℕ → Bool)
      → Closed graph old
      → old start ≡ false
      → (f : Found start old) × Closed graph f.discovered
        × ((v : ℕ) → f.discovered v ≡ old v || elem v f.component)
  find start old closed new =
      let f =
        bfs_undirected-Finds graph start old (mark start old) (λ v h. ground arith)
          (λ v h. ground arith) closed new in
      let now : (v : ℕ) → f.discovered v ≡ old v || elem v f.component = λ v.
        elim (Bool-cases (v == start)) [
          | inl at ↦
              let same : v ≡ start = (==_iff v start).0 at in
              ground (
                arith,
                f.kept v (ground arith),
                ap (λ x. elem x f.component) same,
                (f.reached start).1 here,
              )
          | inr other ↦ ground (arith, f.now v)
        ] in
      (
        f,
        λ u w h r. elim (Bool-cases (old u)) [
          | inl before ↦ ground (arith, closed u w before r, now w)
          | inr after ↦
              let in_u : elem u f.component ≡ true = ground (arith, now u, h, after) in
              let in_w = (f.reached w).1 (Walk-append ((f.reached u).0 in_u) (step r here)) in
              ground (arith, in_w, now w)
        ],
        now,
      )

  Parts-new :
      (start : ℕ) (rest : List ℕ) (old : ℕ → Bool) (comps : List (List ℕ))
      → old start ≡ false
      → (f : Found start old) → ((v : ℕ) → f.discovered v ≡ old v || elem v f.component)
      → Parts rest f.discovered comps
      → Parts (start ∷ rest) old (f.component ∷ comps)
  Parts-new start rest old comps new f now p =
      let has_start : elem start f.component ≡ true = (f.reached start).1 here in
      record {
        classes = λ c m. elim (Memᴰ.cases_cons m) [
          | inl e ↦ (
            start,
            Memᴰ.head refl,
            λ v.
                subst (λ l. (elem v l ≡ true) ↔ Walk (Adjacent graph) v start) (sym e)
                  (f.reached v),
            λ v. subst (λ l. count v l ≤ 1) (sym e) (f.once v),
          )
          | inr k ↦ let (r, k', walks, once) = p.classes c k in (r, Memᴰ.tail k', walks, once)
        ];
        fresh = λ v h. ground (arith, h, f.fresh v, now v, p.fresh v);
        most = λ v. ground (arith, p.most v, p.fresh v, now v);
        covers = λ v k new_v. elim (Bool-cases (v == start)) [
          | inl at ↦
              let in_v : elem v f.component ≡ true =
                ap (λ x. elem x f.component) ((==_iff v start).0 at) ∙ has_start in
              ground (arith, in_v, now v, p.fresh v)
          | inr other ↦ ground (arith, k, new_v, now v, p.fresh v, p.covers v)
        ];
      }

  pub components_from-Parts :
      (starts : List ℕ) (old : ℕ → Bool)
      → Closed graph old
      → (comps : List (List ℕ)) × (components_from graph starts old ≡ some comps)
        × Parts starts old comps
  unfolding components_from
  components_from-Parts [] old closed = (
    [],
    refl,
    record {
      classes = λ c m. absurd (Memᴰ.not-nil m);
      fresh = λ v h. refl;
      most = λ v. omega arith;
      covers = λ v k. cc;
    },
  )
  components_from-Parts (start ∷ rest) old closed = elim (Bool-cases (old start)) [
    | inl known ↦
        let (comps, done, p) = components_from-Parts rest old closed in
        (comps, rw (known, components_from) done, Parts-known start rest old comps known p)
    | inr new ↦
        let (f, closed', now) = find start old closed new in
        let (comps, done, p) = components_from-Parts rest f.discovered closed' in
        (
          f.component ∷ comps,
          rw (new, f.returns, done, components_from) refl,
          Parts-new start rest old comps new f now p,
        )
  ]
