-- ===== src/DiGraph/Methods/Extent.antt =====
-- The loop that adds nodes up to an index, in `extend_from_edge_list` and its weighted form.
use rustworkx.Base.{ℕ, zero, suc, ◌+◌, ◌≡◌, ◌≤◌, refl, ◌∙◌, inl, inr, false, arith}
use rustworkx.Base.{leb, Bool-cases}
use Prim.Native.Nat.{max}
use rustworkx.Petgraph.Stable.{Stable}
use rustworkx.DiGraph.{PyDiGraph, Outcome, ok}
use rustworkx.DiGraph.Methods.{grow}

module _ {O : Type 0} (st : Stable O O) (py_none : O) where
  open st use {node_count, edge}

  -- What the loop leaves behind.
  pub record Grew (max_index : ℕ) (s : PyDiGraph st) (r : Outcome (Unit {0}) × PyDiGraph st)
      : Type 0 where
    pub returns : r.0 ≡ ok tt
    pub count : node_count r.1.graph ≡ max (node_count s.graph) (suc max_index)
    pub edges : (i : ℕ) → edge r.1.graph i ≡ edge s.graph i
    pub check_cycle : r.1.check_cycle ≡ s.check_cycle

  grow-Grew :
      (fuel max_index : ℕ) (s : PyDiGraph st)
      → suc max_index ≤ node_count s.graph + fuel
      → Grew max_index s (grow st py_none fuel max_index s)
  unfolding grow
  grow-Grew zero max_index s h =
      let large : leb (node_count s.graph) max_index ≡ false = ground arith in
      rw (large, grow)
        (record { returns = refl; count = ground arith; edges = λ i. refl; check_cycle = refl })
  grow-Grew (suc fuel) max_index s h = elim (Bool-cases (leb (node_count s.graph) max_index)) [
    | inl small ↦
        let s1 = record s { graph = (st.add_node s.graph py_none).1 } in
        let one = st.node_count-add_node s.graph py_none in
        let rest = grow-Grew fuel max_index s1 (rw one (omega arith)) in
        let le : node_count s.graph ≤ max_index = ground arith in
        rw (small, grow)
          (record {
            returns = rest.returns;
            count = rest.count ∙ rw one (omega arith);
            edges = λ i. rest.edges i ∙ st.edges-add_node s.graph py_none i;
            check_cycle = rest.check_cycle;
          })
    | inr large ↦
        rw (large, grow)
          (record { returns = refl; count = ground arith; edges = λ i. refl; check_cycle = refl })
  ]

  -- The loop ends: `max_index + 1` rounds are enough, and the graph then has `max_index + 1` nodes,
  -- or as many as before where that is more. The edges stay. It counts nodes only: in a graph with
  -- removed nodes the indices up to `max_index` need not all be in use afterwards.
  pub grow_lem :
      (max_index : ℕ) (s : PyDiGraph st)
      → Grew max_index s (grow st py_none (suc max_index) max_index s)
  grow_lem max_index s = grow-Grew (suc max_index) max_index s (omega arith)
