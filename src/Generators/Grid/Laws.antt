-- ===== src/Generators/Grid/Laws.antt =====
-- grid_graph.rs: the cells of a grid, joined to their neighbours.
use rustworkx.Base.{
  ℕ, zero, suc, ◌+◌, ◌*◌, ◌-◌, ◌<◌, ◌^◌, ◌≡◌, refl, ap, ◌∙◌, sym, Bool, true, false, ◌&&◌, ◌||◌,
  Option, none, some, List, [],
}
use rustworkx.Base.{
  length, range, Memᴰ-range, replicate, if◌then◌else◌, ltb, ◌==◌, arith, Bool-cases, inl, inr,
}
use mathlib.Core.Option
use rustworkx.Petgraph.Create.{Create}
use rustworkx.Generators.Build.{ok, is_none, fit_lem, add_both, add_nodes}
use rustworkx.Generators.Build.Rules.{
  size, weigh, Adds, Adds-ok, Adds-bind, Adds-for_each, Grows, add_nodes-Grows,
}
use rustworkx.Generators.Build.Spec.{Builds, Builds-Adds, Draws, Draws-Builds}
use rustworkx.Generators.Build.Links.{Adds-add_both}
use rustworkx.Generators.Grid.{grid_round, grid_edges, grid_weighted, grid_graph}
use rustworkx.Generators.Grid.Cells.{
  cell, grid_row, grid_pairs, down, right, GridEdge, Memᴰ-grid_pairs, length-grid_pairs,
}
use rustworkx.Base.{ltb→lt}
use rustworkx.Generators.Path.Laws.{eq-nil}
use rustworkx.Generators.Grid.Fill.{
  filled, filled-nil, length-filled, fill_weights-Grows, grid_capacity_fits,
}

in_grid : (r c i j : ℕ) → i < r → j < c → i * c + j < r * c
in_grid r c i j hi hj = grind arith

module _ {N E : Type 0} (c : Create N E) (d : N) (e : E) where
  Adds-grid_round :
      (bi : Bool) (r k i j : ℕ) (g : Create.G c)
      → i < r
      → j < k
      → size c e g ≡ r * k
      → Adds c e g (cell bi r k i j) (grid_round c d e r k bi i j g)
  unfolding grid_round
  Adds-grid_round bi r k i j g hi hj sized =
      Adds-bind c e g _ _ first λ g' same. second g' (same ∙ sized)
    where
      first :
          Adds c e g
            (down bi r k i j)
            (if ltb (i + 1) r then add_both c e bi (i * k + j) ((i + 1) * k + j) g else ok g)
      first = elim (Bool-cases (ltb (i + 1) r)) [
        | inl t ↦ rw t (
            Adds-add_both c e g bi (i * k + j) ((i + 1) * k + j) (rw sized (in_grid r k i j hi hj))
              (rw sized (in_grid r k (i + 1) j (ltb→lt _ _ t) hj)))
        | inr f ↦ rw f (Adds-ok c e g)
      ]

      second :
          (g' : Create.G c)
          → size c e g' ≡ r * k
          → Adds c e g'
              (right bi r k i j)
              (if ltb (j + 1) k then add_both c e bi (i * k + j) (i * k + j + 1) g' else ok g')
      second g' s = elim (Bool-cases (ltb (j + 1) k)) [
        | inl t ↦
            let next = in_grid r k i (j + 1) hi (ltb→lt _ _ t) in
            rw t (
              Adds-add_both c e g' bi (i * k + j) (i * k + j + 1) (rw s (in_grid r k i j hi hj))
                (omega arith))
        | inr f ↦ rw f (Adds-ok c e g')
      ]

  Adds-grid_edges :
      (bi : Bool) (r k : ℕ) (g : Create.G c)
      → size c e g ≡ r * k
      → Adds c e g (grid_pairs bi r k) (grid_edges c d e r k bi g)
  unfolding grid_edges
  Adds-grid_edges bi r k g sized =
      Adds-for_each c e (grid_row bi r k) _ (r * k) (range 0 r)
        (λ i m g1 s1.
          Adds-for_each c e (cell bi r k i) (grid_round c d e r k bi i) (r * k) (range 0 k)
            (λ j m' g2 s2.
              Adds-grid_round bi r k i j g2 ((Memᴰ-range i 0 r).0 m).1 ((Memᴰ-range j 0 k).0 m').1
                s2)
            g1 s1)
        g sized

  grid-Builds :
      (bi : Bool) (r k n m : ℕ) (ws : List N) (g : Create.G c)
      → length ws ≡ r * k
      → Grows c e (c.with_capacity n m) ws g
      → Builds c e ws (grid_pairs bi r k) (grid_edges c d e r k bi g)
  grid-Builds bi r k n m ws g len grown =
      Builds-Adds c e n m grown
        (Adds-grid_edges bi r k g (rw (grown.nodes, c.node_weights-with_capacity n m) len))

-- The dimensions in use: weights with no rows are laid out as one row.
abbrev pub grid_dims {ℓ} : {T : Type ℓ} → Option ℕ → Option ℕ → Option (List T) → ℕ × ℕ
grid_dims rows cols none = (Option.get_or rows 0, Option.get_or cols 0)
grid_dims rows cols (some ws) =
    if ltb 0 (length ws) && Option.get_or rows 0 == 0
    then (1, length ws)
    else (Option.get_or rows 0, Option.get_or cols 0)

no_edges : (w r k : ℕ) → r * k ≡ 0 → w * ((r - 1) * k + r * (k - 1)) ≡ 0
no_edges w zero k h = omega arith
no_edges w (suc r) zero h = omega arith
no_edges w (suc r) (suc k) h = absurd (omega arith)

no_grid : (bi : Bool) (r k : ℕ) → r * k ≡ 0 → grid_pairs bi r k ≡ []
no_grid bi r k h =
    eq-nil (grid_pairs bi r k) (length-grid_pairs bi r k ∙ no_edges (if bi then 2 else 1) r k h)

and_false : (b : Bool) → (b && false) ≡ false
and_false true = refl
and_false false = refl

widen_eq : (r k l : ℕ) → (ltb (r * k) l && r == 0) ≡ (ltb 0 l && r == 0)
widen_eq zero k l = let z : 0 * k ≡ 0 = omega arith in rw z
widen_eq (suc r) k l = ground arith

module _ {N E : Type 0} (c : Create N E) (d : N) (e : E) (bi : Bool) where
  weighted-Builds :
      (r k n m : ℕ) (ws : List N)
      → let (r', k') = grid_dims (some r) (some k) (some ws) in
        Builds c e
          (filled (r' * k') ws d)
          (grid_pairs bi r' k')
          (grid_weighted c d e (r * k) r k ws bi (c.with_capacity n m))
  unfolding grid_weighted
  weighted-Builds r k n m ws = elim (Bool-cases (ltb 0 (length ws) && r == 0)) [
    | inl t ↦
        let o : 1 * length ws ≡ length ws = omega arith in
        let row : length (filled (length ws) ws d) ≡ 1 * length ws =
          length-filled (length ws) ws d ∙ sym o in
        rw (widen_eq r k (length ws), t, o)
          (grid-Builds c d e bi 1 (length ws) n m (filled (length ws) ws d) _ row
            (fill_weights-Grows c d e (length ws) ws (c.with_capacity n m)))
    | inr f ↦
        rw (widen_eq r k (length ws), f)
          (grid-Builds c d e bi r k n m (filled (r * k) ws d) _ (length-filled (r * k) ws d)
            (fill_weights-Grows c d e (r * k) ws (c.with_capacity n m)))
  ]

  plain-Builds :
      (r k n m : ℕ)
      → Builds c e (filled (r * k) [] d) (grid_pairs bi r k) (
          if r * k == 0 && true
          then ok (c.with_capacity n m)
          else grid_edges c d e r k bi (add_nodes c (replicate (r * k) d) (c.with_capacity n m)))
  plain-Builds r k n m = elim (Bool-cases (r * k == 0)) [
    | inl t ↦
        let z : r * k ≡ 0 = ground arith in
        rw t (record {
          out = c.with_capacity n m;
          returns = refl;
          nodes = rw z (c.node_weights-with_capacity n m);
          edges = c.edge_references-with_capacity n m ∙ sym (ap (weigh c e) (no_grid bi r k z));
        })
    | inr f ↦ rw f (
        grid-Builds c d e bi r k n m (filled (r * k) [] d) _ (length-filled (r * k) [] d) (
          rw (filled-nil (r * k) d)
            (add_nodes-Grows c e (replicate (r * k) d) (c.with_capacity n m))))
  ]

  -- The weights as a list, with none where they are not given.
  abbrev pub weights_given : Option (List N) → List N
  weights_given none = []
  weights_given (some ws) = ws

  grid_graph-Builds :
      (overflow_checks : Bool) (rows cols : Option ℕ) (weights : Option (List N))
      → (is_none weights && (is_none rows || is_none cols)) ≡ false
      → 4 * (Option.get_or rows 0 * Option.get_or cols 0) < 2 ^ 64
      → let (r, k) = grid_dims rows cols weights in
        Builds c e
          (filled (r * k) (weights_given weights) d)
          (grid_pairs bi r k)
          (grid_graph c d e overflow_checks rows cols weights bi)
  unfolding grid_graph
  grid_graph-Builds overflow_checks rows cols (some ws) h small =
      let r = Option.get_or rows 0 in
      let k = Option.get_or cols 0 in
      let (m, room) = grid_capacity_fits c d e overflow_checks r k bi small in
      rw (fit_lem overflow_checks (r * k) (omega arith), room, and_false (r * k == 0))
        (weighted-Builds r k (r * k) m ws)
  grid_graph-Builds overflow_checks (some r) (some k) none h small =
      let (m, room) = grid_capacity_fits c d e overflow_checks r k bi small in
      rw (fit_lem overflow_checks (r * k) (omega arith), room) (plain-Builds r k (r * k) m)
  grid_graph-Builds overflow_checks (some r) none none h small = cc
  grid_graph-Builds overflow_checks none cols none h small = cc

  -- `grid_graph`, given weights or both counts, with fewer than 2 ^ 62 cells, returns the graph on
  -- the cells of the grid, row by row, in which each cell has an edge to the cell below and to the
  -- cell on its right, and back if `bidirectional`. The weights given are used in order, those in
  -- excess are dropped and those missing are the default; but weights with no rows, or with 0
  -- rows, make a single row of all of them. The build may check for overflow or not.
  pub grid_graph-Draws :
      (overflow_checks : Bool) (rows cols : Option ℕ) (weights : Option (List N))
      → (is_none weights && (is_none rows || is_none cols)) ≡ false
      → 4 * (Option.get_or rows 0 * Option.get_or cols 0) < 2 ^ 64
      → let (r, k) = grid_dims rows cols weights in
        Draws c e
          (filled (r * k) (weights_given weights) d)
          (GridEdge bi r k)
          ((if bi then 2 else 1) * ((r - 1) * k + r * (k - 1)))
          (grid_graph c d e overflow_checks rows cols weights bi)
  grid_graph-Draws overflow_checks rows cols weights h small =
      let (r, k) = grid_dims rows cols weights in
      Draws-Builds c e (GridEdge bi r k) (grid_pairs bi r k) _
        (grid_graph-Builds overflow_checks rows cols weights h small) (Memᴰ-grid_pairs bi r k)
        (length-grid_pairs bi r k)
