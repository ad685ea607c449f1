-- ===== src/Generators/Mesh/Barbell.antt =====
-- barbell_graph.rs: two meshes joined by a path.
use rustworkx.Base.{
  ℕ, zero, suc, ◌+◌, ◌-◌, ◌*◌, ◌/◌, ◌<◌, ◌≤◌, ◌≡◌, refl, ap, ◌∙◌, ◌↔◌, ◌⊎◌, inl, inr, true, Option,
  List, ◌∷◌, ◌++◌,
}
use rustworkx.Base.{Memᴰ, Memᴰ-append, length, length-append, arith, subst}
use rustworkx.Petgraph.Create.{Create}
use rustworkx.Generators.Build.{ok, panic, checked_sub, get_num_nodes, weights_or}
use rustworkx.Generators.Build.Rules.{Pairs, size}
use rustworkx.Generators.Build.Spec.{Draws, Draws-Builds}
use rustworkx.Generators.Build.Links.{length-weights_or, Memᴰ-pair}
use rustworkx.Generators.Mesh.{path_list, barbell_graph, right_mesh}
use rustworkx.Generators.Mesh.Extends.{Extends, Extends-bind, Builds-Extends}
use rustworkx.Generators.Mesh.Parts.{
  mesh_at, line_at, Memᴰ-mesh_at, Memᴰ-line_at, length-mesh_at, length-line_at, attach_path-Extends,
  right_mesh-Extends,
}
use rustworkx.Generators.Mesh.Lollipop.{not_missing, left-Extends}

-- The left mesh is 0, …, m - 1, the right mesh m + p, …, m + p + m - 1, and the path runs from the
-- last node of the one to the first node of the other.
abbrev pub BarbellEdge : ℕ → ℕ → ℕ → ℕ → Type 0
BarbellEdge m p u v =
    ((u < v) × (v < m))
    ⊎ ((m ≤ v) × (v ≤ m + p) × (u + 1 ≡ v))
    ⊎ ((m + p ≤ u) × (u < v) × (v < m + p + m))

abbrev right_pairs : ℕ → ℕ → Pairs
right_pairs m p = (m + p - 1, m + p) ∷ mesh_at (m + p) m

abbrev barbell_pairs : ℕ → ℕ → Pairs
barbell_pairs m p = mesh_at 0 m ++ (line_at m p ++ right_pairs m p)

Memᴰ-barbell_pairs : (m p u v : ℕ) → 0 < m → Memᴰ (u, v) (barbell_pairs m p) ↔ BarbellEdge m p u v
Memᴰ-barbell_pairs m p u v pos = ground (
  arith,
  Memᴰ-append (u, v) (mesh_at 0 m) (line_at m p ++ right_pairs m p),
  Memᴰ-append (u, v) (line_at m p) (right_pairs m p),
  Memᴰ-pair u v (m + p - 1) (m + p) (mesh_at (m + p) m),
  Memᴰ-mesh_at 0 m u v,
  Memᴰ-mesh_at (m + p) m u v,
  Memᴰ-line_at m p u v pos,
)

length-barbell_pairs : (m p : ℕ) → length (barbell_pairs m p) ≡ 2 * (m * (m - 1) / 2) + p + 1
length-barbell_pairs m p = omega (
  arith,
  length-append (mesh_at 0 m) (line_at m p ++ right_pairs m p),
  length-append (line_at m p) (right_pairs m p),
  length-mesh_at 0 m,
  length-mesh_at (m + p) m,
  length-line_at m p,
)

module _ {N E : Type 0} (c : Create N E) (d : N) (e : E) where
  right-Extends :
      (num : Option ℕ) (ws : Option (List N)) (m p : ℕ) (g : Create.G c)
      → get_num_nodes num ws ≡ ok m
      → 0 < m
      → size c e g ≡ m + p
      → Extends c e g
          (weights_or ws m d)
          (right_pairs m p)
          (right_mesh c d e p (weights_or ws m d) g)
  right-Extends num ws m p g h pos sized =
      let l = length-weights_or num ws m d h in
      subst
        (λ k.
          Extends c e g (weights_or ws m d) (right_pairs k p)
            (right_mesh c d e p (weights_or ws m d) g))
        l (right_mesh-Extends c d e p (weights_or ws m d) g (omega arith) (omega arith))

  -- `barbell_graph` on meshes of m nodes, given or counted by the weights, panics for no nodes,
  -- and else returns the graph of two meshes, each node with an edge to each later one of its mesh,
  -- joined by a path from the last node of the first to the first node of the second.
  pub barbell_graph-Draws :
      (num_mesh num_path : Option ℕ) (mesh_weights path_weights : Option (List N)) (m : ℕ)
      → get_num_nodes num_mesh mesh_weights ≡ ok m
      → let path = path_list num_path path_weights d in
        (m ≡ 0) × (barbell_graph c d e num_mesh num_path mesh_weights path_weights ≡ panic)
        ⊎ (0 < m)
          × Draws c e
              (weights_or mesh_weights m d ++ (path ++ weights_or mesh_weights m d))
              (BarbellEdge m (length path))
              (2 * (m * (m - 1) / 2) + length path + 1)
              (barbell_graph c d e num_mesh num_path mesh_weights path_weights)
  unfolding barbell_graph
  barbell_graph-Draws num_mesh num_path mesh_weights path_weights zero h =
      inl (refl, rw (not_missing num_mesh mesh_weights 0 h, h) refl)
  barbell_graph-Draws num_mesh num_path mesh_weights path_weights (suc k) h =
      let m = suc k in
      let path = path_list num_path path_weights d in
      let pos : 0 < m = omega arith in
      let checked : checked_sub m 1 ≡ ok (m - 1) = ground arith in
      let start = c.with_capacity m (m * (m - 1) / 2) in
      let mesh = length-weights_or num_mesh mesh_weights m d h in
      inr (
        pos,
        rw (not_missing num_mesh mesh_weights m h, h, checked)
            (Draws-Builds c e (BarbellEdge m (length path)) (barbell_pairs m (length path)) _
              (Builds-Extends c e m (m * (m - 1) / 2) (
                Extends-bind c e start 0 _ _ (ap length (c.node_weights-with_capacity m _))
                  (left-Extends c d e true num_mesh mesh_weights m _ h pos)
                  λ g same.
                    let sized : size c e g ≡ m = same ∙ omega (arith, mesh) in
                    Extends-bind c e g m _ _ sized
                      (attach_path-Extends c d e true m path g pos sized)
                      λ g' same'.
                        right-Extends num_mesh mesh_weights m (length path) g' h pos same'))
              (λ u v. Memᴰ-barbell_pairs m (length path) u v pos)
              (length-barbell_pairs m (length path))),
      )
