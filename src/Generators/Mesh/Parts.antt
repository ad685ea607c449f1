-- ===== src/Generators/Mesh/Parts.antt =====
-- The meshes and the path that lollipops and barbells are made of.
use rustworkx.Base.{
  ℕ, zero, suc, ◌+◌, ◌-◌, ◌*◌, ◌/◌, ◌<◌, ◌≤◌, ◌≡◌, refl, ap, ◌∙◌, ◌↔◌, Bool, true, false, some,
  List, [], ◌∷◌, map,
}
use rustworkx.Base.{
  Memᴰ, Memᴰ-flat_map, Memᴰ-count_from, Memᴰ-range, length, length-append, length-flat_map,
  length-count_from, flat_map, range, count_from, if◌then◌else◌, ◌==◌, suc==zero, arith,
}
use rustworkx.Petgraph.Create.{Create}
use rustworkx.Generators.Build.{ok, sub_lem, for_each, collect_nodes, add_edge, ◌>>=◌}
use rustworkx.Generators.Build.Rules.{
  Pairs, size, Adds, Adds-ok, Adds-bind, Adds-add_edge, Adds-for_each, collect_nodes-Grows,
  collect_nodes-indices,
}
use rustworkx.Generators.Build.Links.{link, Memᴰ-loop}
use rustworkx.Generators.Build.Nodes.{Adds-join, Memᴰ-only}
use rustworkx.Generators.Path.Complete.{mesh_row, length-mesh_pairs}
use rustworkx.Generators.Mesh.{
  zip, pairwise, mesh_edges, pair_round, attach_path, left_mesh, right_mesh,
}
use rustworkx.Generators.Mesh.Extends.{Extends, Extends-Adds}

length-flat_map-same {ℓ κ} :
    {A : Type ℓ} {B : Type κ} (f g : A → List B) (xs : List A)
    → ((a : A) → length (f a) ≡ length (g a))
    → length (flat_map f xs) ≡ length (flat_map g xs)
length-flat_map-same f g [] h = refl
length-flat_map-same f g (x ∷ xs) h = omega (
  arith,
  length-append (f x) (flat_map f xs),
  length-append (g x) (flat_map g xs),
  h x,
  length-flat_map-same f g xs h,
)

-- The pairs of a mesh on the nodes s, …, s + n - 1.
abbrev mesh_one : ℕ → ℕ → ℕ → Pairs
mesh_one s i j = (s + i, s + j) ∷ []

abbrev mesh_from : ℕ → ℕ → ℕ → Pairs
mesh_from s n i = flat_map (mesh_one s i) (range (i + 1) n)

abbrev pub mesh_at : ℕ → ℕ → Pairs
mesh_at s n = flat_map (mesh_from s n) (range 0 (n - 1))

pub Memᴰ-mesh_at : (s n u v : ℕ) → Memᴰ (u, v) (mesh_at s n) ↔ ((s ≤ u) × (u < v) × (v < s + n))
Memᴰ-mesh_at s n u v = (
  λ m.
      let (i, lo, hi, k) = (Memᴰ-loop (mesh_from s n) (u, v) 0 (n - 1)).0 m in
      let (j, lo', hi', k') = (Memᴰ-loop (mesh_one s i) (u, v) (i + 1) n).0 k in
      let (eu, ev) = (Memᴰ-only u v (s + i) (s + j)).0 k' in
      (omega arith, omega arith, omega arith),
  λ h. (Memᴰ-loop (mesh_from s n) (u, v) 0 (n - 1)).1 (
    u - s,
    omega arith,
    omega arith,
    (Memᴰ-loop (mesh_one s (u - s)) (u, v) (u - s + 1) n).1 (
      v - s,
      omega arith,
      omega arith,
      (Memᴰ-only u v (s + (u - s)) (s + (v - s))).1 (omega arith, omega arith),
    ),
  ),
)

pub length-mesh_at : (s n : ℕ) → length (mesh_at s n) ≡ n * (n - 1) / 2
length-mesh_at s n =
    length-flat_map-same (mesh_from s n) (mesh_row false n) (range 0 (n - 1))
      (λ i. length-flat_map-same (mesh_one s i) (link false i) (range (i + 1) n) (λ j. refl))
    ∙ length-mesh_pairs false n
    ∙ omega arith

abbrev before : ℕ → Pairs
before j = (j - 1, j) ∷ []

-- The nodes s, …, s + n - 1, each with an edge from the one before.
abbrev pub line_at : ℕ → ℕ → Pairs
line_at s n = flat_map before (count_from s n)

pub Memᴰ-line_at :
    (s n u v : ℕ) → 0 < s → Memᴰ (u, v) (line_at s n) ↔ ((s ≤ v) × (v < s + n) × (u + 1 ≡ v))
Memᴰ-line_at s n u v pos = (
  λ m.
      let (j, hj, k) = (Memᴰ-flat_map before (u, v) (count_from s n)).0 m in
      let (lo, hi) = (Memᴰ-count_from j s n).0 hj in
      let (eu, ev) = (Memᴰ-only u v (j - 1) j).0 k in (omega arith, omega arith, omega arith),
  λ (lo, hi, e).
      (Memᴰ-flat_map before (u, v) (count_from s n)).1
        (v, (Memᴰ-count_from v s n).1 (lo, hi), (Memᴰ-only u v (v - 1) v).1 (omega arith, refl)),
)

pub length-line_at : (s n : ℕ) → length (line_at s n) ≡ n
length-line_at s n =
    length-flat_map before 1 (count_from s n) (λ j. refl) ∙ omega (arith, length-count_from s n)

module _ {N E : Type 0} (c : Create N E) (d : N) (e : E) where
  Adds-mesh_edges :
      (checks : Bool) (s n : ℕ) (g : Create.G c)
      → 0 < n
      → s + n ≤ size c e g
      → Adds c e g (mesh_at s n) (mesh_edges c d e checks (count_from s n) g)
  unfolding mesh_edges
  Adds-mesh_edges checks s n g pos fits =
      rw (length-count_from s n, sub_lem checks n 1 pos)
        (Adds-for_each c e (mesh_from s n) _ (size c e g) (range 0 (n - 1))
          (λ i m g1 s1.
            Adds-for_each c e (mesh_one s i) _ (size c e g) (range (i + 1) n)
              (λ j m' g2 s2.
                let hi = (Memᴰ-range i 0 (n - 1)).0 m in
                let hj = (Memᴰ-range j (i + 1) n).0 m' in
                Adds-join c e s n i s n j (s + i) (s + j) g2 (omega arith) (omega arith)
                  (omega arith) (omega arith) refl refl)
              g1 s1)
          g refl)

  Adds-chain :
      (i q : ℕ) (g : Create.G c)
      → i + q < size c e g
      → Adds c e g (line_at (i + 1) q) (
          for_each
            (zip (some i ∷ map some (count_from (i + 1) q)) (count_from (i + 1) q))
            (pair_round c d e)
            g)
  unfolding for_each pair_round
  Adds-chain i zero g fits = Adds-ok c e g
  Adds-chain i (suc q) g fits =
      let back : i + 1 - 1 ≡ i = omega arith in
      rw back (
        Adds-bind c e g (add_edge c e i (i + 1) g) _
          (Adds-add_edge c e g i (i + 1) (omega arith) (omega arith))
          λ g' same. Adds-chain (i + 1) q g' (omega arith))

  pub left_mesh-Extends :
      (checks : Bool) (ws : List N) (g : Create.G c)
      → 0 < length ws
      → size c e g ≡ 0
      → Extends c e g ws (mesh_at 0 (length ws)) (left_mesh c d e checks ws g)
  unfolding left_mesh
  left_mesh-Extends checks ws g pos empty =
      let grown = collect_nodes-Grows c e ws g in
      rw (collect_nodes-indices c e ws g 0 empty) (
        Extends-Adds c e grown (
          Adds-mesh_edges checks 0 (length ws) (collect_nodes c ws g).1 pos
            (omega (arith, ap length grown.nodes, length-append (Create.node_weights c g) ws))))

  pub attach_path-Extends :
      (checks : Bool) (n : ℕ) (ws : List N) (g : Create.G c)
      → 0 < n
      → size c e g ≡ n
      → Extends c e g ws (line_at n (length ws)) (attach_path c d e checks n ws g)
  unfolding attach_path for_each pair_round
  attach_path-Extends checks n ws g pos sized =
      let grown = collect_nodes-Grows c e ws g in
      let total : size c e (collect_nodes c ws g).1 ≡ n + length ws =
        omega (arith, ap length grown.nodes, length-append (Create.node_weights c g) ws) in
      rw (collect_nodes-indices c e ws g n sized, sub_lem checks n 1 pos)
        (Extends-Adds c e grown (walk (length ws) (collect_nodes c ws g).1 total))
    where
      walk :
          (p : ℕ) (g1 : Create.G c)
          → size c e g1 ≡ n + p
          → Adds c e g1 (line_at n p) (
              if length (count_from n p) == 0
              then ok g1
              else (add_edge c e (n - 1) n g1
                  >>= for_each (pairwise (count_from n p)) (pair_round c d e)))
      walk zero g1 total = Adds-ok c e g1
      walk (suc p) g1 total = rw (suc==zero (length (count_from (n + 1) p))) (
          Adds-bind c e g1 (add_edge c e (n - 1) n g1) _
            (Adds-add_edge c e g1 (n - 1) n (omega arith) (omega arith))
            λ g' same. Adds-chain n p g' (omega arith))

  pub right_mesh-Extends :
      (p : ℕ) (ws : List N) (g : Create.G c)
      → 0 < length ws
      → size c e g ≡ length ws + p
      → Extends c e g ws
          ((length ws + p - 1, length ws + p) ∷ mesh_at (length ws + p) (length ws))
          (right_mesh c d e p ws g)
  unfolding right_mesh
  right_mesh-Extends p ws g pos sized =
      let first = length ws + p in
      let g1 = (collect_nodes c ws g).1 in
      let grown = collect_nodes-Grows c e ws g in
      let total : size c e g1 ≡ first + length ws =
        omega (arith, ap length grown.nodes, length-append (Create.node_weights c g) ws) in
      rw (collect_nodes-indices c e ws g first sized, length-count_from first (length ws))
        (Extends-Adds c e grown (
          Adds-bind c e g1 (add_edge c e (first - 1) first g1) _
            (Adds-add_edge c e g1 (first - 1) first (omega arith) (omega arith))
            λ g' same. Adds-mesh_edges true first (length ws) g' pos (omega arith)))
