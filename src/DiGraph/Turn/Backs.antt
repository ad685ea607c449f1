-- ===== src/DiGraph/Turn/Backs.antt =====
-- `make_symmetric` in a graph that does not check for cycles.
use rustworkx.Base.{
  ℕ, ◌≡◌, refl, ap, ◌∙◌, ◌↔◌, ◌⊎◌, inl, inr, true, false, Option, some, List, [], ◌∷◌, Memᴰ,
}
use rustworkx.Base.{Bool-cases, Option-cases, arith}
use mathlib.Core.List.Memᴰ
use rustworkx.Petgraph.Stable.{Stable, EdgeReference, is_some}
use rustworkx.DiGraph.{PyDiGraph, Outcome, ok, for_each, add_edge_checked, contains_node}
use rustworkx.DiGraph.Table.{Joins, SameNodes, Inserted, add_edge_no_cycle_check_lem}
use rustworkx.DiGraph.Rewire.Bridges.{Inserted-Joins}
use rustworkx.DiGraph.Merge.Unchecked.{SameNodes-refl, SameNodes-trans}
use rustworkx.DiGraph.Turn.{Entry, contains_key, collect_entries, payload, add_back, make_symmetric}
use rustworkx.DiGraph.Turn.Pairs.{contains_key-Memᴰ, mem-collect_entries, keys-collect_entries}

module _ {O : Type 0} (st : Stable O O) where
  open st use {edge, edge_references}

  module _ (edge_payload_fn : Option (O → Outcome O)) (edges : List Entry)
      (total : (w : O) → (v : O) × (payload st edge_payload_fn w ≡ ok v)) where
    -- An entry of an edge, whose ends are nodes.
    pub record Alive (s : PyDiGraph st) (a b i : ℕ) : Type 0 where
      pub source : contains_node st s a ≡ true
      pub target : contains_node st s b ≡ true
      pub there : is_some (edge s.graph i) ≡ true

    -- What the loop over `l` does.
    pub record Back (s : PyDiGraph st) (l : List Entry) (r : Outcome (Unit {0}) × PyDiGraph st)
        : Type 0 where
      pub after_all : PyDiGraph st
      pub returns : r ≡ (ok tt, after_all)
      pub same : SameNodes st s after_all
      pub joins :
          (x y : ℕ)
          → Joins st after_all x y
            ↔ (Joins st s x y ⊎ (i : ℕ) × Memᴰ (y, x, i) l × (contains_key x y edges ≡ false))

    pub add_back-skips :
        (s : PyDiGraph st) (a b i : ℕ)
        → contains_key b a edges ≡ true
        → add_back st edge_payload_fn edges (a, b, i) s ≡ (ok tt, s)
    unfolding add_back
    add_back-skips s a b i h = rw h refl

    add_back-adds :
        (s : PyDiGraph st) (a b i : ℕ)
        → contains_key b a edges ≡ false
        → s.check_cycle ≡ false
        → Alive s a b i
        → (w : O) × (j : ℕ) × (s' : PyDiGraph st) × (add_back st edge_payload_fn edges (a, b, i) s
            ≡ (ok tt, s'))
          × Inserted st s b a w j s'
    unfolding add_back add_edge_checked
    add_back-adds s a b i h off alive = elim (Option-cases (edge s.graph i)) [
      | inl missing ↦ cc (missing, alive.there)
      | inr ((x, y, forward), at) ↦
          let (w, found) = total forward in
          let (j, s', done, ins) =
            add_edge_no_cycle_check_lem st s b a w alive.target alive.source in
          let plain : add_edge_checked st b a w s ≡ (ok j, s') = ground (arith, done) in
          (w, j, s', rw (h, at, found, add_back, plain) refl, ins)
    ]

    Alive-Inserted :
        (s s' : PyDiGraph st) {p c j : ℕ} {w : O} (a b i : ℕ)
        → Inserted st s p c w j s'
        → Alive s a b i
        → Alive s' a b i
    unfolding contains_node
    Alive-Inserted s s' a b i ins alive = record {
      source = ap is_some (ins.same.nodes a) ∙ alive.source;
      target = ap is_some (ins.same.nodes b) ∙ alive.target;
      there = ground (arith, ins.edges i, alive.there);
    }

    make_all :
        (l : List Entry) (s : PyDiGraph st)
        → s.check_cycle ≡ false
        → ((a b i : ℕ) → Memᴰ (a, b, i) l → Alive s a b i)
        → Back s l (for_each l (add_back st edge_payload_fn edges) s)
    unfolding for_each
    make_all [] s off alive = record {
      after_all = s;
      returns = refl;
      same = SameNodes-refl st s;
      joins = λ x y. (inl, λ h. elim h [ inl o ↦ o | inr (i, m, _) ↦ absurd (Memᴰ.not-nil m) ]);
    }
    make_all ((a, b, i) ∷ l) s off alive = elim (Bool-cases (contains_key b a edges)) [
      | inl known ↦
          let rest = make_all l s off (λ p q j m. alive p q j (Memᴰ.tail m)) in
          record {
            after_all = rest.after_all;
            returns = rw (add_back-skips s a b i known) rest.returns;
            same = rest.same;
            joins = λ x y. (
              λ h. elim ((rest.joins x y).0 h) [
                | inl o ↦ inl o
                | inr (j, m, n) ↦ inr (j, Memᴰ.tail m, n)
              ],
              λ h. (rest.joins x y).1 (elim h [
                | inl o ↦ inl o
                | inr (j, m, n) ↦ elim (Memᴰ.cases_cons m) [
                  | inr k ↦ inr (j, k, n)
                  | inl e ↦ absurd (
                      let ey : y ≡ a = ap (λ t. t.0) e in
                      let ex : x ≡ b = ap (λ t. t.1) e in
                      let wrong : contains_key x y edges ≡ true =
                        ap (λ t. contains_key t y edges) ex
                        ∙ ap (λ t. contains_key b t edges) ey
                        ∙ known in
                      cc (wrong, n))
                ]
              ]),
            );
          }
      | inr new ↦
          let (w, j, s1, done, ins) =
            add_back-adds s a b i new off (alive a b i (Memᴰ.head refl)) in
          let rest =
            make_all l s1 (ins.same.check_cycle ∙ off)
              (λ p q k m. Alive-Inserted s s1 p q k ins (alive p q k (Memᴰ.tail m))) in
          record {
            after_all = rest.after_all;
            returns = rw done rest.returns;
            same = SameNodes-trans st ins.same rest.same;
            joins = λ x y. (
              λ h. elim ((rest.joins x y).0 h) [
                | inr (k, m, n) ↦ inr (k, Memᴰ.tail m, n)
                | inl one ↦ elim ((Inserted-Joins st ins x y).0 one) [
                  | inl o ↦ inl o
                  | inr (ex, ey) ↦ inr (
                    i,
                    Memᴰ.head (cc (ex, ey)),
                    ap (λ t. contains_key t y edges) ex ∙ ap (λ t. contains_key b t edges) ey ∙ new,
                  )
                ]
              ],
              λ h. (rest.joins x y).1 (elim h [
                | inl o ↦ inl ((Inserted-Joins st ins x y).1 (inl o))
                | inr (k, m, n) ↦ elim (Memᴰ.cases_cons m) [
                  | inr t ↦ inr (k, t, n)
                  | inl e ↦
                      inl ((Inserted-Joins st ins x y).1 (inr (ap (λ t. t.1) e, ap (λ t. t.0) e)))
                ]
              ]),
            );
          }
    ]

  -- A graph in which every edge has one in the other direction, and no further ones are new.
  pub record Symmetric (s : PyDiGraph st) (r : Outcome (Unit {0}) × PyDiGraph st) : Type 0 where
    pub after_all : PyDiGraph st
    pub returns : r ≡ (ok tt, after_all)
    pub same : SameNodes st s after_all
    pub joins : (x y : ℕ) → Joins st after_all x y ↔ (Joins st s x y ⊎ Joins st s y x)

  -- In a graph that does not check for cycles and with a callable that raises nothing,
  -- `make_symmetric` returns normally, in whatever order the `HashMap` yields its entries: two
  -- nodes are then joined exactly if they were before, in this direction or the other. Nodes and
  -- attributes stay.
  pub make_symmetric_lem :
      (order : List Entry → List Entry) (edge_payload_fn : Option (O → Outcome O))
      (s : PyDiGraph st)
      → ((es : List Entry) (e : Entry) → Memᴰ e (order es) ↔ Memᴰ e es)
      → ((w : O) → (v : O) × (payload st edge_payload_fn w ≡ ok v))
      → s.check_cycle ≡ false
      → Symmetric s (make_symmetric st order edge_payload_fn s)
  unfolding make_symmetric contains_node
  make_symmetric_lem order edge_payload_fn s same_entries total off =
      let refs = edge_references s.graph in
      let edges = collect_entries st refs [] in
      let at_edge : (a b i : ℕ)
          → Memᴰ (a, b, i) edges
          → (w : O) × (edge s.graph i ≡ some (a, b, w)) =
        λ a b i m. elim (mem-collect_entries st refs [] a b i m) [
          | inl none_there ↦ absurd (Memᴰ.not-nil none_there)
          | inr (r, mr, e) ↦
              let found = (st.mem-edge_references s.graph r).0 mr in
              let ea : a ≡ r.source = ap (λ t. t.0) e in
              let eb : b ≡ r.target = ap (λ t. t.1) e in
              let ei : i ≡ r.id = ap (λ t. t.2) e in
              (r.weight, ap (edge s.graph) ei ∙ found ∙ cc (ea, eb))
        ] in
      let key_of : (a b : ℕ) → Joins st s a b → contains_key a b edges ≡ true = λ a b (i, w, at).
        let r : EdgeReference O = record { id = i; source = a; target = b; weight = w } in
        keys-collect_entries st refs [] r (inl ((st.mem-edge_references s.graph r).1 at)) in
      let back = make_all edge_payload_fn edges total (order edges) s off (λ a b i m.
        let (w, at) = at_edge a b i ((same_entries edges (a, b, i)).0 m) in
        let (ha, hb) = st.endpoints s.graph i a b w at in
        record { source = ha; target = hb; there = ap is_some at }) in
      record {
        after_all = back.after_all;
        returns = back.returns;
        same = back.same;
        joins = λ x y. (
          λ h. elim ((back.joins x y).0 h) [
            | inl o ↦ inl o
            | inr (i, m, _) ↦
                let (w, at) = at_edge y x i ((same_entries edges (y, x, i)).0 m) in inr (i, w, at)
          ],
          λ h. (back.joins x y).1 (elim h [
            | inl o ↦ inl o
            | inr o ↦ elim (Bool-cases (contains_key x y edges)) [
              | inl known ↦
                  let (i, m) = (contains_key-Memᴰ x y edges).0 known in
                  let (w, at) = at_edge x y i m in inl (i, w, at)
              | inr new ↦
                  let (i, m) = (contains_key-Memᴰ y x edges).0 (key_of y x o) in
                  inr (i, (same_entries edges (y, x, i)).1 m, new)
            ]
          ]),
        );
      }
