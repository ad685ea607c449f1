-- ===== src/DiGraph/SelfLoop.antt =====
-- A self loop is no longer edge than the quick test `is_cycle_check_required` looks for.
use rustworkx.Base.{ℕ, ◌≡◌, refl, ◌∙◌, true, false, List, [], ◌∷◌, Memᴰ}
use rustworkx.Base.{==_iff, arith}
use rustworkx.Petgraph.Stable.{Stable, incoming}
use rustworkx.Petgraph.Walks.{here, Acyclic}
use rustworkx.DiGraph.{
  PyDiGraph, ok, nonempty, is_cycle_check_required, add_edge_checked, add_edge, contains_node,
}
use rustworkx.DiGraph.Table.{Joins, Inserted, add_edge_no_cycle_check_lem}

empty_list {ℓ} : {A : Type ℓ} (l : List A) → ((a : A) → ¬ Memᴰ a l) → nonempty l ≡ false
empty_list [] h = refl
empty_list (x ∷ l) h = absurd (h x (Memᴰ.head refl))

module _ {O : Type 0} (st : Stable O O) where
  open st use {edge, edges_directed}

  pub Joins-Inserted :
      {s : PyDiGraph st} {p c : ℕ} {w : O} {i : ℕ} {s' : PyDiGraph st}
      → Inserted st s p c w i s'
      → Joins st s' p c
  Joins-Inserted {w} {i} ins = (i, w, ins.edges i ∙ rw ((==_iff i i).1 refl))

  -- On a node of the graph that no edge enters, `add_edge` accepts a self loop whatever `check_cycle` says, and
  -- the graph then has a cycle.
  pub add_edge_self_loop :
      (s : PyDiGraph st) (a : ℕ) (w : O)
      → contains_node st s a ≡ true
      → ((b : ℕ) → ¬ Joins st s b a)
      → (i : ℕ) × (s' : PyDiGraph st) × (add_edge st a a w s ≡ (ok i, s'))
        × (s'.check_cycle ≡ s.check_cycle)
        × ¬ Acyclic (Joins st s')
  unfolding add_edge add_edge_checked is_cycle_check_required
  add_edge_self_loop s a w ha root =
      let (i, s', done, ins) = add_edge_no_cycle_check_lem st s a a w ha ha in
      let none_in : nonempty (edges_directed s.graph a incoming) ≡ false =
        empty_list (edges_directed s.graph a incoming) λ r m.
          let (target, at) = (st.mem-edges_directed s.graph a incoming r).0 m in
          root r.source (r.id, r.weight, rw (← target) at) in
      (
        i,
        s',
        ground (arith, ha, none_in, done),
        ins.same.check_cycle,
        λ acyclic. acyclic a a (Joins-Inserted ins) here,
      )
