-- ===== src/DiGraph/Guard.antt =====
-- Every method keeps what `check_cycle` promises, self loops apart.
use rustworkx.Base.{ℕ, ◌≡◌, ◌≢◌, refl, sym, ◌∙◌, ◌⊎◌, inl, inr, false, Option, some, none}
use rustworkx.Base.{if◌then◌else◌, ◌==◌, arith, Bool-cases, Option-cases}
use rustworkx.Petgraph.Stable.{Stable, Linked, without_node, with_weight}
use rustworkx.Petgraph.Walks.{Acyclic-of_subset}
use rustworkx.DiGraph.{
  PyDiGraph, add_edge_checked, add_edge_no_cycle_check, contains_node, parallel,
}
use rustworkx.DiGraph.Cycles.{IsGuarded, add_edge_checked-IsGuarded}

module _ {O : Type 0} (st : Stable O O) where
  open st use {G, edge, node_weight}

  -- `h` has no edge between nodes that `g` does not join.
  abbrev pub Fewer : G → G → Type 0
  Fewer h g = (a b : ℕ) → Linked (edge h) a b → Linked (edge g) a b

  pub Fewer-remove_edge : (g : G) (j : ℕ) → Fewer (st.remove_edge g j) g
  Fewer-remove_edge g j a b (i, w, at) = (i, w, ground (arith, at, st.edges-remove_edge g j i))

  pub Fewer-remove_node : (g : G) (n : ℕ) → Fewer (st.remove_node g n) g
  Fewer-remove_node g n a b (i, w, at) =
      (i, w, kept (edge g i) (sym (st.edges-remove_node g n i) ∙ at))
    where
      kept : (o : Option (ℕ × ℕ × O)) → without_node n o ≡ some (a, b, w) → o ≡ some (a, b, w)
      kept none e = cc
      kept (some (x, y, v)) e = ground arith

  pub Fewer-set_edge_weight : (g : G) (j : ℕ) (v : O) → Fewer (st.set_edge_weight g j v) g
  Fewer-set_edge_weight g j v a b (i, w, at) =
      before (edge g i) refl (sym (st.edges-set_edge_weight g j v i) ∙ at)
    where
      before :
          (o : Option (ℕ × ℕ × O))
          → edge g i ≡ o
          → (if j == i then with_weight v o else o) ≡ some (a, b, w)
          → Linked (edge g) a b
      before none e f = ground arith
      before (some (x, y, u)) e f = (i, u, ground arith)

  pub Fewer-add_node : (g : G) (w : O) → Fewer (st.add_node g w).1 g
  Fewer-add_node g v a b (i, w, at) = (i, w, sym (st.edges-add_node g v i) ∙ at)

  pub Fewer-set_node_weight : (g : G) (n : ℕ) (w : O) → Fewer (st.set_node_weight g n w) g
  Fewer-set_node_weight g n v a b (i, w, at) = (i, w, sym (st.edges-set_node_weight g n v i) ∙ at)

  pub Fewer-clear : (g : G) → Fewer (st.clear g) g
  Fewer-clear g a b (i, w, at) = cc (st.edges-clear g i, at)

  pub Fewer-clear_edges : (g : G) → Fewer (st.clear_edges g) g
  Fewer-clear_edges g a b (i, w, at) = cc (st.edges-clear_edges g i, at)

  pub IsGuarded-Fewer :
      (s s' : PyDiGraph st)
      → s'.check_cycle ≡ s.check_cycle
      → Fewer s'.graph s.graph
      → IsGuarded st s
      → IsGuarded st s'
  IsGuarded-Fewer s s' same fewer guarded on = Acyclic-of_subset fewer (guarded (sym same ∙ on))

  -- An endpoint that is not in the graph leaves everything as it was.
  pub add_edge_checked_missing :
      (s : PyDiGraph st) (p c : ℕ) (w : O)
      → (contains_node st s p ≡ false) ⊎ (contains_node st s c ≡ false)
      → (add_edge_checked st p c w s).1 ≡ s
  unfolding add_edge_checked add_edge_no_cycle_check contains_node
  add_edge_checked_missing s p c w missing = elim (Option-cases (parallel st s p c)) [
    | inl absent ↦ ground (arith, st.add_edge-none s.graph p c w)
    | inr (i, found) ↦
        let hit : st.find_edge s.graph p c ≡ some i = ground arith in
        let (v, at) = st.find_edge-some s.graph p c i hit in
        let (hp, hc) = st.endpoints s.graph i p c v at in
        elim missing [ inl e ↦ cc (hp, e) | inr e ↦ cc (hc, e) ]
  ]

  -- `_add_edge` keeps the promise for any two different indices.
  pub add_edge_checked-keeps :
      (s : PyDiGraph st) (p c : ℕ) (w : O)
      → p ≢ c
      → IsGuarded st s
      → IsGuarded st (add_edge_checked st p c w s).1
  add_edge_checked-keeps s p c w ne guarded = elim (Bool-cases (contains_node st s p)) [
    | inl hp ↦ elim (Bool-cases (contains_node st s c)) [
      | inl hc ↦ add_edge_checked-IsGuarded st s p c w hp hc ne guarded
      | inr nc ↦ rw (add_edge_checked_missing s p c w (inr nc)) guarded
    ]
    | inr np ↦ rw (add_edge_checked_missing s p c w (inl np)) guarded
  ]
