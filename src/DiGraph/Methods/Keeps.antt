-- ===== src/DiGraph/Methods/Keeps.antt =====
-- The methods that remove or update keep what `check_cycle` promises, and so do those that add
-- edges between different nodes.
use rustworkx.Base.{ℕ, suc, zero, ◌≢◌, refl, inl, inr, true, List, Memᴰ}
use rustworkx.Base.{Option-cases, Bool-cases, leb}
use Prim.Native.Nat.{max}
use rustworkx.Petgraph.Stable.{Stable}
use rustworkx.DiGraph.{PyDiGraph, M, add_edge_checked, after, return}
use rustworkx.DiGraph.Cycles.{IsGuarded, add_edge-IsGuarded}
use rustworkx.DiGraph.Guard.{
  IsGuarded-Fewer, Fewer-remove_edge, Fewer-remove_node, Fewer-set_edge_weight, Fewer-add_node,
  Fewer-set_node_weight, Fewer-clear, Fewer-clear_edges, add_edge_checked-keeps,
}
use rustworkx.DiGraph.Loops.{after_inv, for_each_inv, collect_inv}
use rustworkx.DiGraph.Methods.{
  update_edge, update_edge_by_index, set_item, del_item, clear, clear_edges, remove_node,
  remove_nodes_from, remove_edge, remove_edge_from_index, remove_edges_from, add_node,
  add_nodes_from, add_edges_from, add_edges_from_no_data, grow, extend_from_edge_list,
  extend_from_weighted_edge_list,
}

module _ {O : Type 0} (st : Stable O O) where
  open st use {edge, find_edge, node_weight}

  -- A method that keeps the promise from every state.
  abbrev pub Keeps : {A : Type 0} → M st A → Type 0
  Keeps m = (s : PyDiGraph st) → IsGuarded st s → IsGuarded st (m s).1

  pub update_edge-Keeps : (a b : ℕ) (w : O) → Keeps (update_edge st a b w)
  unfolding update_edge
  update_edge-Keeps a b w s h = elim (Option-cases (find_edge s.graph a b)) [
    | inl e ↦ rw (e, update_edge) h
    | inr (i, e) ↦
        rw (e, update_edge)
          (IsGuarded-Fewer st s (record s { graph = st.set_edge_weight s.graph i w }) refl
            (Fewer-set_edge_weight st s.graph i w) h)
  ]

  pub update_edge_by_index-Keeps : (i : ℕ) (w : O) → Keeps (update_edge_by_index st i w)
  unfolding update_edge_by_index
  update_edge_by_index-Keeps i w s h = elim (Option-cases (edge s.graph i)) [
    | inl e ↦ rw (e, update_edge_by_index) h
    | inr (t, e) ↦
        rw (e, update_edge_by_index)
          (IsGuarded-Fewer st s (record s { graph = st.set_edge_weight s.graph i w }) refl
            (Fewer-set_edge_weight st s.graph i w) h)
  ]

  pub set_item-Keeps : (n : ℕ) (w : O) → Keeps (set_item st n w)
  unfolding set_item
  set_item-Keeps n w s h = elim (Option-cases (node_weight s.graph n)) [
    | inl e ↦ rw (e, set_item) h
    | inr (v, e) ↦
        rw (e, set_item)
          (IsGuarded-Fewer st s (record s { graph = st.set_node_weight s.graph n w }) refl
            (Fewer-set_node_weight st s.graph n w) h)
  ]

  pub del_item-Keeps : (n : ℕ) → Keeps (del_item st n)
  unfolding del_item
  del_item-Keeps n s h = elim (Option-cases (node_weight s.graph n)) [
    | inl e ↦ rw (e, del_item) h
    | inr (v, e) ↦
        rw (e, del_item)
          (IsGuarded-Fewer st s (record s { graph = st.remove_node s.graph n; node_removed = true })
            refl (Fewer-remove_node st s.graph n) h)
  ]

  pub clear-Keeps : Keeps (clear st)
  unfolding clear
  clear-Keeps s h =
      IsGuarded-Fewer st s (record s { graph = st.clear s.graph; node_removed = true }) refl
        (Fewer-clear st s.graph) h

  pub clear_edges-Keeps : Keeps (clear_edges st)
  unfolding clear_edges
  clear_edges-Keeps s h =
      IsGuarded-Fewer st s (record s { graph = st.clear_edges s.graph }) refl
        (Fewer-clear_edges st s.graph) h

  pub remove_node-Keeps : (n : ℕ) → Keeps (remove_node st n)
  unfolding remove_node
  remove_node-Keeps n s h =
      IsGuarded-Fewer st s (record s { graph = st.remove_node s.graph n; node_removed = true }) refl
        (Fewer-remove_node st s.graph n) h

  pub remove_nodes_from-Keeps : (ns : List ℕ) → Keeps (remove_nodes_from st ns)
  unfolding remove_nodes_from
  remove_nodes_from-Keeps ns =
      for_each_inv (IsGuarded st) ns (remove_node st) (λ n _. remove_node-Keeps n)

  pub remove_edge-Keeps : (a b : ℕ) → Keeps (remove_edge st a b)
  unfolding remove_edge
  remove_edge-Keeps a b s h = elim (Option-cases (find_edge s.graph a b)) [
    | inl e ↦ rw (e, remove_edge) h
    | inr (i, e) ↦
        rw (e, remove_edge)
          (IsGuarded-Fewer st s (record s { graph = st.remove_edge s.graph i }) refl
            (Fewer-remove_edge st s.graph i) h)
  ]

  pub remove_edge_from_index-Keeps : (i : ℕ) → Keeps (remove_edge_from_index st i)
  unfolding remove_edge_from_index
  remove_edge_from_index-Keeps i s h =
      IsGuarded-Fewer st s (record s { graph = st.remove_edge s.graph i }) refl
        (Fewer-remove_edge st s.graph i) h

  pub remove_edges_from-Keeps : (es : List (ℕ × ℕ)) → Keeps (remove_edges_from st es)
  unfolding remove_edges_from
  remove_edges_from-Keeps es = for_each_inv (IsGuarded st) es _ (λ p _. remove_edge-Keeps p.0 p.1)

  pub add_node-Keeps : (w : O) → Keeps (add_node st w)
  unfolding add_node
  add_node-Keeps w s h =
      IsGuarded-Fewer st s (record s { graph = (st.add_node s.graph w).1 }) refl
        (Fewer-add_node st s.graph w) h

  pub add_nodes_from-Keeps : (ws : List O) → Keeps (add_nodes_from st ws)
  unfolding add_nodes_from
  add_nodes_from-Keeps ws = collect_inv (IsGuarded st) ws (add_node st) (λ w _. add_node-Keeps w)

  pub add_edges_from-Keeps :
      (es : List (ℕ × ℕ × O))
      → ((p c : ℕ) (w : O) → Memᴰ (p, c, w) es → p ≢ c)
      → Keeps (add_edges_from st es)
  unfolding add_edges_from
  add_edges_from-Keeps es apart =
      collect_inv (IsGuarded st) es _
        (λ t m s. add_edge-IsGuarded st s t.0 t.1 t.2 (apart t.0 t.1 t.2 m))

  pub add_edges_from_no_data-Keeps :
      (py_none : O) (es : List (ℕ × ℕ))
      → ((p c : ℕ) → Memᴰ (p, c) es → p ≢ c)
      → Keeps (add_edges_from_no_data st py_none es)
  unfolding add_edges_from_no_data
  add_edges_from_no_data-Keeps py_none es apart =
      collect_inv (IsGuarded st) es _
        (λ t m s. add_edge-IsGuarded st s t.0 t.1 py_none (apart t.0 t.1 m))

  grow-Keeps : (py_none : O) (fuel n : ℕ) → Keeps (grow st py_none fuel n)
  unfolding grow
  grow-Keeps py_none zero n s h = elim (Bool-cases (leb (st.node_count s.graph) n)) [
    | inl t ↦ rw (t, grow) h
    | inr f ↦ rw (f, grow) h
  ]
  grow-Keeps py_none (suc fuel) n s h = elim (Bool-cases (leb (st.node_count s.graph) n)) [
    | inl t ↦
        rw (t, grow)
          (grow-Keeps py_none fuel n (record s { graph = (st.add_node s.graph py_none).1 })
            (IsGuarded-Fewer st s (record s { graph = (st.add_node s.graph py_none).1 }) refl
              (Fewer-add_node st s.graph py_none) h))
    | inr f ↦ rw (f, grow) h
  ]

  extend_one-Keeps :
      (py_none : O) (a b : ℕ) (w : O)
      → a ≢ b
      → (s : PyDiGraph st) → IsGuarded st s
      → IsGuarded st
          (after
            (grow st py_none (suc (max a b)) (max a b) s)
            (λ _ s1. after (add_edge_checked st a b w s1) (λ _. return tt))).1
  extend_one-Keeps py_none a b w ne s h =
      after_inv (IsGuarded st) (grow st py_none (suc (max a b)) (max a b) s) _
        (grow-Keeps py_none (suc (max a b)) (max a b) s h)
        λ _ s1 h1.
          after_inv (IsGuarded st) (add_edge_checked st a b w s1) _
            (add_edge_checked-keeps st s1 a b w ne h1) (λ _ _ h2. h2)

  pub extend_from_weighted_edge_list-Keeps :
      (py_none : O) (es : List (ℕ × ℕ × O))
      → ((p c : ℕ) (w : O) → Memᴰ (p, c, w) es → p ≢ c)
      → Keeps (extend_from_weighted_edge_list st py_none es)
  unfolding extend_from_weighted_edge_list
  extend_from_weighted_edge_list-Keeps py_none es apart =
      for_each_inv (IsGuarded st) es _
        (λ t m. extend_one-Keeps py_none t.0 t.1 t.2 (apart t.0 t.1 t.2 m))

  pub extend_from_edge_list-Keeps :
      (py_none : O) (es : List (ℕ × ℕ))
      → ((p c : ℕ) → Memᴰ (p, c) es → p ≢ c)
      → Keeps (extend_from_edge_list st py_none es)
  unfolding extend_from_edge_list
  extend_from_edge_list-Keeps py_none es apart =
      for_each_inv (IsGuarded st) es _
        (λ t m. extend_one-Keeps py_none t.0 t.1 py_none (apart t.0 t.1 m))
