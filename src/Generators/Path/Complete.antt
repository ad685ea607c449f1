-- ===== src/Generators/Path/Complete.antt =====
-- complete_graph.rs: every pair of nodes, in both directions where the graph type is directed.
use rustworkx.Base.{
  ℕ, zero, suc, ◌+◌, ◌-◌, ◌*◌, ◌/◌, ◌<◌, ◌≡◌, refl, ◌↔◌, ◌⊎◌, inl, inr, Bool, true, Option, List,
}
use rustworkx.Base.{
  Memᴰ, length, flat_map, range, count_from, length-flat_map, length-append, length-range,
  if◌then◌else◌,
}
use rustworkx.Base.{arith, ap, ◌∙◌, Memᴰ-range, ⊎_elim}
use rustworkx.Petgraph.Create.{Create}
use rustworkx.Generators.Build.{ok, get_num_nodes, weights_or, for_each}
use rustworkx.Generators.Build.Rules.{
  Pairs, size, Adds, Adds-for_each, Adds-if, Adds-bind, Adds-add_edge, Adds-ok,
}
use rustworkx.Generators.Build.Spec.{Draws, Draws-Builds}
use rustworkx.Generators.Build.Links.{link, LinkEdge, Memᴰ-link, length-link, Memᴰ-loop}
use rustworkx.Generators.Path.{complete_graph, complete_round}
use rustworkx.Generators.Path.Laws.{Builds-loop}

-- `u` and `v` are different nodes below `n`, in ascending order unless the graph is directed.
abbrev pub CompleteEdge : Bool → ℕ → ℕ → ℕ → Type 0
CompleteEdge dir n u v = ((u < v) × (v < n)) ⊎ ((dir ≡ true) × (v < u) × (u < n))

module _ (dir : Bool) where
  abbrev pub mesh_row : ℕ → ℕ → Pairs
  mesh_row n i = flat_map (link dir i) (range (i + 1) n)

  abbrev pub mesh_pairs : ℕ → Pairs
  mesh_pairs n = flat_map (mesh_row n) (range 0 (n - 1))

  pub Memᴰ-mesh_pairs : (n u v : ℕ) → Memᴰ (u, v) (mesh_pairs n) ↔ CompleteEdge dir n u v
  Memᴰ-mesh_pairs n u v = (
    λ m.
        let (i, lo, hi, k) = (Memᴰ-loop (mesh_row n) (u, v) 0 (n - 1)).0 m in
        let (j, lo', hi', k') = (Memᴰ-loop (link dir i) (u, v) (i + 1) n).0 k in
        ground (arith, (Memᴰ-link dir i j u v).0 k'),
    ⊎_elim (λ h. back u v h.0 h.1 (inl (refl, refl)))
        (λ h. back v u h.1 h.2 (inr (h.0, refl, refl))),
  )
    where
      back : (i j : ℕ) → i < j → j < n → LinkEdge dir i j u v → Memᴰ (u, v) (mesh_pairs n)
      back i j lo hi k = (Memᴰ-loop (mesh_row n) (u, v) 0 (n - 1)).1 (
        i,
        omega arith,
        omega arith,
        (Memᴰ-loop (link dir i) (u, v) (i + 1) n).1
            (j, omega arith, hi, (Memᴰ-link dir i j u v).1 k),
      )

  -- m + (m - 1) + … + 1
  abbrev triangle : ℕ → ℕ
  triangle zero = 0
  triangle (suc m) = suc m + triangle m

  triangle_lem : (m : ℕ) → triangle m * 2 ≡ m * (m + 1)
  triangle_lem zero = omega arith
  triangle_lem (suc m) = omega (arith, triangle_lem m)

  abbrev way : ℕ
  way = if dir then 2 else 1

  length-mesh_row : (n i : ℕ) → length (mesh_row n i) ≡ way * (n - (i + 1))
  length-mesh_row n i =
      length-flat_map (link dir i) way (range (i + 1) n) (length-link dir i)
      ∙ ap (λ (t : ℕ). way * t) (length-range (i + 1) n)

  length-mesh_rows :
      (m s : ℕ) → length (flat_map (mesh_row (s + m + 1)) (count_from s m)) ≡ way * triangle m
  length-mesh_rows zero s = omega arith
  length-mesh_rows (suc m) s =
      let rest : length (flat_map (mesh_row (s + suc m + 1)) (count_from (s + 1) m))
          ≡ way * triangle m =
        let e : s + suc m + 1 ≡ s + 1 + m + 1 = omega arith in rw e (length-mesh_rows m (s + 1)) in
      let here : way * (s + suc m + 1 - (s + 1)) ≡ way * suc m =
        ap (λ (t : ℕ). way * t) (omega arith) in
      omega (
        arith,
        length-append (mesh_row (s + suc m + 1) s)
            (flat_map (mesh_row (s + suc m + 1)) (count_from (s + 1) m)),
        length-mesh_row (s + suc m + 1) s,
        rest,
        here,
      )

  pub length-mesh_pairs : (n : ℕ) → length (mesh_pairs n) ≡ way * (n * (n - 1) / 2)
  length-mesh_pairs zero = omega arith
  length-mesh_pairs (suc m) =
      let e : suc m ≡ 0 + m + 1 = omega arith in
      let f : suc m - 1 ≡ m = omega arith in
      let count : triangle m ≡ suc m * m / 2 = omega (arith, triangle_lem m) in
      let g : suc m - 1 - 0 ≡ m = omega arith in
      let rows : length (flat_map (mesh_row (suc m)) (count_from 0 m)) ≡ way * triangle m =
        rw e (length-mesh_rows m 0) in
      rw (g, f) (rows ∙ ap (λ (t : ℕ). way * t) count)

module _ {N E : Type 0} (c : Create N E) (num : Option ℕ) (ws : Option (List N)) (d : N)
    (e : E) where
  abbrev directed : Bool
  directed = c.is_directed (c.with_capacity 0 0)

  Adds-complete_round :
      (i j : ℕ) (g : Create.G c)
      → i < size c e g
      → j < size c e g
      → Adds c e g (link directed i j) (complete_round c num ws d e i j g)
  unfolding complete_round
  Adds-complete_round i j g hi hj = Adds-bind c e g _ _ (Adds-add_edge c e g i j hi hj) λ g' same.
      rw (c.directed_const g' (c.with_capacity 0 0)) (
        Adds-if c e g' directed _ _ (Adds-add_edge c e g' j i (omega arith) (omega arith))
          (Adds-ok c e g'))

  -- `complete_graph` on n nodes, given or counted by the weights, returns the graph with one
  -- edge for each pair of nodes, from the lower index to the higher, and in a directed graph one
  -- for each ordered pair.
  pub complete_graph-Draws :
      (n : ℕ)
      → get_num_nodes num ws ≡ ok n
      → Draws c e
          (weights_or ws n d)
          (CompleteEdge directed n)
          ((if directed then 2 else 1) * (n * (n - 1) / 2))
          (complete_graph c num ws d e)
  unfolding complete_graph
  complete_graph-Draws n h =
      Draws-Builds c e (CompleteEdge directed n) (mesh_pairs directed n) _
        (Builds-loop c num ws d e (λ k. k)
          (λ k.
            for_each (range 0 (k - 1))
              (λ i. for_each (range (i + 1) k) (complete_round c num ws d e i)))
          (mesh_pairs directed) refl n h
          λ g sized _.
            Adds-for_each c e (mesh_row directed n) _ n (range 0 (n - 1))
              (λ i m g1 s1.
                Adds-for_each c e (link directed i) (complete_round c num ws d e i) n
                  (range (i + 1) n)
                  (λ j m' g2 s2.
                    let hi = (Memᴰ-range i 0 (n - 1)).0 m in
                    let hj = (Memᴰ-range j (i + 1) n).0 m' in
                    Adds-complete_round i j g2 (omega arith) (omega arith))
                  g1 s1)
              g sized)
        (Memᴰ-mesh_pairs directed n) (length-mesh_pairs directed n)
