-- ===== src/Generators/Rings/Laws.antt =====
-- petersen_graph.rs: a star polygon, a polygon around it, and the spokes between them.
use rustworkx.Base.{
  ℕ, ◌+◌, ◌*◌, ◌%◌, ◌^◌, ◌<◌, ◌≤◌, ◌≡◌, refl, ap, Bool, ◌∙◌, ◌↔◌, ◌⊎◌, inl, inr, ◌||◌, [], ◌∷◌,
  ◌++◌,
}
use rustworkx.Base.{
  Memᴰ, Memᴰ-append, Memᴰ-range, length, length-append, length-flat_map, length-range,
  length-replicate, flat_map, range, ◌==◌, ltb, leb, replicate, arith, count_from, Bool-cases,
}
use native.Mathlib.Nat.{mod-lt}
use rustworkx.Petgraph.Create.{Create}
use rustworkx.Generators.Build.{invalid_input, fit_lem, collect_nodes}
use rustworkx.Generators.Build.Rules.{
  Pairs, size, Adds, Adds-bind, Adds-for_each, collect_nodes-Grows, collect_nodes-indices,
}
use rustworkx.Generators.Build.Spec.{Draws, Draws-Builds, Builds, Builds-Adds}
use rustworkx.Generators.Build.Links.{Memᴰ-loop}
use rustworkx.Generators.Build.Nodes.{Adds-join, Grows-append, replicate_add, Memᴰ-only}
use rustworkx.Generators.Rings.{petersen_graph, petersen_loops, petersen_edges}

module _ (n k : ℕ) where
  abbrev star : ℕ → Pairs
  star i = (i, (i + k) % n) ∷ []

  abbrev polygon : ℕ → Pairs
  polygon i = (n + i, n + (i + 1) % n) ∷ []

  abbrev spoke : ℕ → Pairs
  spoke i = (n + i, i) ∷ []

  abbrev petersen_pairs : Pairs
  petersen_pairs =
      flat_map star (range 0 n) ++ (flat_map polygon (range 0 n) ++ flat_map spoke (range 0 n))

  -- The star nodes are 0, …, n - 1, the polygon nodes n, …, 2 * n - 1. A star node has an edge to
  -- the one `k` places on, a polygon node to the next one and to its star node.
  abbrev pub PetersenEdge : ℕ → ℕ → Type 0
  PetersenEdge u v =
      ((u < n) × (v ≡ (u + k) % n))
      ⊎ ((i : ℕ) × (i < n) × (u ≡ n + i) × (v ≡ n + (i + 1) % n))
      ⊎ ((v < n) × (u ≡ n + v))

  Memᴰ-star : (u v : ℕ) → Memᴰ (u, v) (flat_map star (range 0 n)) ↔ ((u < n) × (v ≡ (u + k) % n))
  Memᴰ-star u v = (
    λ m.
        let (i, lo, hi, at) = (Memᴰ-loop star (u, v) 0 n).0 m in
        let (eu, ev) = (Memᴰ-only u v i ((i + k) % n)).0 at in (omega arith, rw eu ev),
    λ h.
        (Memᴰ-loop star (u, v) 0 n).1
          (u, omega arith, h.0, (Memᴰ-only u v u ((u + k) % n)).1 (refl, h.1)),
  )

  Memᴰ-polygon :
      (u v : ℕ)
      → Memᴰ (u, v) (flat_map polygon (range 0 n))
        ↔ ((i : ℕ) × (i < n) × (u ≡ n + i) × (v ≡ n + (i + 1) % n))
  Memᴰ-polygon u v = (
    λ m.
        let (i, lo, hi, at) = (Memᴰ-loop polygon (u, v) 0 n).0 m in
        let (eu, ev) = (Memᴰ-only u v (n + i) (n + (i + 1) % n)).0 at in (i, hi, eu, ev),
    λ (i, h, eu, ev).
        (Memᴰ-loop polygon (u, v) 0 n).1
          (i, omega arith, h, (Memᴰ-only u v (n + i) (n + (i + 1) % n)).1 (eu, ev)),
  )

  Memᴰ-spoke : (u v : ℕ) → Memᴰ (u, v) (flat_map spoke (range 0 n)) ↔ ((v < n) × (u ≡ n + v))
  Memᴰ-spoke u v = (
    λ m.
        let (i, lo, hi, at) = (Memᴰ-loop spoke (u, v) 0 n).0 m in
        let (eu, ev) = (Memᴰ-only u v (n + i) i).0 at in (omega arith, omega arith),
    λ h.
        (Memᴰ-loop spoke (u, v) 0 n).1
          (v, omega arith, h.0, (Memᴰ-only u v (n + v) v).1 (h.1, refl)),
  )

  Memᴰ-petersen_pairs : (u v : ℕ) → Memᴰ (u, v) petersen_pairs ↔ PetersenEdge u v
  Memᴰ-petersen_pairs u v =
      let stars = flat_map star (range 0 n) in
      let rings = flat_map polygon (range 0 n) in
      let spokes = flat_map spoke (range 0 n) in
      let (to, from) = Memᴰ-append (u, v) stars (rings ++ spokes) in
      let (to', from') = Memᴰ-append (u, v) rings spokes in
      (
        λ m. elim (to m) [
          | inl a ↦ inl ((Memᴰ-star u v).0 a)
          | inr r ↦ elim (to' r) [
            | inl b ↦ inr (inl ((Memᴰ-polygon u v).0 b))
            | inr d ↦ inr (inr ((Memᴰ-spoke u v).0 d))
          ]
        ],
        λ h. elim h [
          | inl a ↦ from (inl ((Memᴰ-star u v).1 a))
          | inr (inl b) ↦ from (inr (from' (inl ((Memᴰ-polygon u v).1 b))))
          | inr (inr d) ↦ from (inr (from' (inr ((Memᴰ-spoke u v).1 d))))
        ],
      )

  length-petersen_pairs : length petersen_pairs ≡ 3 * n
  length-petersen_pairs =
      let stars = flat_map star (range 0 n) in
      let rings = flat_map polygon (range 0 n) in
      let spokes = flat_map spoke (range 0 n) in
      omega (
        arith,
        length-append stars (rings ++ spokes),
        length-append rings spokes,
        length-flat_map star 1 (range 0 n) (λ _. refl),
        length-flat_map polygon 1 (range 0 n) (λ _. refl),
        length-flat_map spoke 1 (range 0 n) (λ _. refl),
        length-range 0 n,
      )

module _ {N E : Type 0} (c : Create N E) (d : N) (e : E) where
  Adds-petersen_edges :
      (n k : ℕ) (g : Create.G c)
      → 0 < n
      → size c e g ≡ 2 * n
      → Adds c e g
          (petersen_pairs n k)
          (petersen_edges c d e n k (count_from 0 n) (count_from n n) g)
  unfolding petersen_edges
  Adds-petersen_edges n k g pos sized =
      let below : (i : ℕ) → Memᴰ i (range 0 n) → i < n = λ i m. ((Memᴰ-range i 0 n).0 m).1 in
      Adds-bind c e g _ _
        (Adds-for_each c e (star n k) _ (2 * n) (range 0 n)
          (λ i m g1 s1.
            Adds-join c e 0 n i 0 n ((i + k) % n) i ((i + k) % n) g1 (below i m)
              (mod-lt (i + k) pos) (omega arith) (omega arith) (omega arith) (omega arith))
          g sized)
        λ g' same.
          Adds-bind c e g' _ _
            (Adds-for_each c e (polygon n k) _ (2 * n) (range 0 n)
              (λ i m g1 s1.
                Adds-join c e n n i n n ((i + 1) % n) (n + i) (n + (i + 1) % n) g1 (below i m)
                  (mod-lt (i + 1) pos) (omega arith) (omega arith) (omega arith) (omega arith))
              g' (same ∙ sized))
            λ g2 same2.
              Adds-for_each c e (spoke n k) _ (2 * n) (range 0 n)
                (λ i m g1 s1.
                  Adds-join c e n n i 0 n i (n + i) i g1 (below i m) (below i m) (omega arith)
                    (omega arith) (omega arith) (omega arith))
                g2 (same2 ∙ same ∙ sized)

  petersen-Builds :
      (n k : ℕ)
      → 0 < n
      → Builds c e
          (replicate (2 * n) d)
          (petersen_pairs n k)
          (petersen_loops c d e n k (c.with_capacity (2 * n) (3 * n)))
  unfolding petersen_loops
  petersen-Builds n k pos =
      let g = c.with_capacity (2 * n) (3 * n) in
      let star = collect_nodes c (replicate n d) g in
      let polygon = collect_nodes c (replicate n d) star.1 in
      let first = collect_nodes-Grows c e (replicate n d) g in
      let second = collect_nodes-Grows c e (replicate n d) star.1 in
      let none_yet : size c e g ≡ 0 = ap length (c.node_weights-with_capacity (2 * n) (3 * n)) in
      let some_now : size c e star.1 ≡ n =
        rw (first.nodes, c.node_weights-with_capacity (2 * n) (3 * n)) (length-replicate n d) in
      let all : size c e polygon.1 ≡ 2 * n =
        ap length second.nodes
        ∙ length-append (Create.node_weights c star.1) (replicate n d)
        ∙ omega (arith, some_now, length-replicate n d) in
      let double : replicate (2 * n) d ≡ replicate n d ++ replicate n d =
        ap (λ (m : ℕ). replicate m d) (omega arith) ∙ replicate_add n n d in
      let stars : star.0 ≡ count_from 0 n =
        collect_nodes-indices c e (replicate n d) g 0 none_yet
        ∙ ap (count_from 0) (length-replicate n d) in
      let polygons : polygon.0 ≡ count_from n n =
        collect_nodes-indices c e (replicate n d) star.1 n some_now
        ∙ ap (count_from n) (length-replicate n d) in
      rw (double, stars, polygons)
        (Builds-Adds c e (2 * n) (3 * n) (Grows-append c e first second)
          (Adds-petersen_edges n k polygon.1 pos all))

  -- `petersen_graph`, for `2 * k` and `3 * n` below 2 ^ 64, refuses `n < 3`, `k = 0` and
  -- `2 * k ≥ n`, and no other input: else it returns the generalised Petersen graph on 2 * n
  -- nodes, with its 3 * n edges. The build may check for overflow or not.
  pub petersen_graph-Draws :
      (overflow_checks : Bool) (n k : ℕ)
      → 2 * k < 2 ^ 64
      → 3 * n < 2 ^ 64
      → let r = petersen_graph c d e overflow_checks n k in
        ((n < 3) ⊎ (k ≡ 0) ⊎ (n ≤ 2 * k)) × (r ≡ invalid_input)
        ⊎ (3 ≤ n)
          × (0 < k)
          × (2 * k < n)
          × Draws c e (replicate (2 * n) d) (PetersenEdge n k) (3 * n) r
  unfolding petersen_graph
  petersen_graph-Draws overflow_checks n k hk hn = elim (Bool-cases (ltb n 3)) [
    | inl small ↦ inl (inl (ground arith), rw small refl)
    | inr large ↦
        let twice = fit_lem overflow_checks (2 * k) hk in
        elim (Bool-cases (k == 0 || leb n (2 * k))) [
          | inl wide ↦ inl (inr (ground arith), rw (large, twice, wide) refl)
          | inr fits ↦
              let num_nodes = fit_lem overflow_checks (2 * n) (omega arith) in
              let num_edges = fit_lem overflow_checks (3 * n) hn in
              inr (
                ground arith,
                ground arith,
                ground arith,
                rw (large, twice, fits, num_nodes, num_edges)
                    (Draws-Builds c e (PetersenEdge n k) (petersen_pairs n k) (3 * n)
                      (petersen-Builds n k (ground arith)) (Memᴰ-petersen_pairs n k)
                      (length-petersen_pairs n k)),
              )
        ]
  ]
