-- ===== src/Generators/Mesh/Lollipop.antt =====
-- lollipop_graph.rs: a mesh and a path from its last node.
use rustworkx.Base.{
  ℕ, zero, suc, ◌+◌, ◌-◌, ◌*◌, ◌/◌, ◌^◌, ◌<◌, ◌≤◌, ◌≡◌, refl, ap, ◌∙◌, ◌↔◌, ◌⊎◌, inl, inr, Bool,
  true, false, ◌&&◌, Option, none, some, List, [], ◌∷◌, ◌++◌,
}
use rustworkx.Base.{Memᴰ, Memᴰ-append, length, length-append, arith, subst, range}
use mathlib.Core.List.Memᴰ
use rustworkx.Petgraph.Create.{Create}
use rustworkx.Generators.Build.{
  ok, panic, sub_lem, fit_lem, Result, for_each, get_num_nodes, is_none, weights_or,
}
use rustworkx.Generators.Build.Rules.{Pairs}
use rustworkx.Generators.Build.Spec.{Draws, Draws-Builds}
use rustworkx.Generators.Build.Links.{length-weights_or}
use rustworkx.Generators.Build.Nodes.{join}
use rustworkx.Generators.Build.{collect_nodes}
use rustworkx.Generators.Path.Laws.{eq-nil}
use rustworkx.Generators.Mesh.{path_list, lollipop_graph, left_mesh, attach_path}
use rustworkx.Generators.Mesh.Extends.{Extends, Extends-bind, Builds-Extends}
use rustworkx.Generators.Mesh.Parts.{
  mesh_at, line_at, Memᴰ-mesh_at, Memᴰ-line_at, length-mesh_at, length-line_at, left_mesh-Extends,
  attach_path-Extends,
}

-- The mesh is 0, …, m - 1, the path m - 1, …, m + p - 1; every edge goes up.
abbrev pub LollipopEdge : ℕ → ℕ → ℕ → ℕ → Type 0
LollipopEdge m p u v = ((u < v) × (v < m)) ⊎ ((m ≤ v) × (v < m + p) × (u + 1 ≡ v))

abbrev pub lollipop_pairs : ℕ → ℕ → Pairs
lollipop_pairs m p = mesh_at 0 m ++ line_at m p

Memᴰ-lollipop_pairs :
    (m p u v : ℕ) → 0 < m → Memᴰ (u, v) (lollipop_pairs m p) ↔ LollipopEdge m p u v
Memᴰ-lollipop_pairs m p u v pos = ground (
  arith,
  Memᴰ-append (u, v) (mesh_at 0 m) (line_at m p),
  Memᴰ-mesh_at 0 m u v,
  Memᴰ-line_at m p u v pos,
)

length-lollipop_pairs : (m p : ℕ) → length (lollipop_pairs m p) ≡ m * (m - 1) / 2 + p
length-lollipop_pairs m p =
    length-append (mesh_at 0 m) (line_at m p) ∙ rw (length-mesh_at 0 m, length-line_at m p) refl

pub not_missing :
    {N : Type 0} (num : Option ℕ) (ws : Option (List N)) (n : ℕ)
    → get_num_nodes num ws ≡ ok n
    → (is_none num && is_none ws) ≡ false
not_missing num (some ws) n h = ground arith
not_missing none none n h = cc
not_missing (some k) none n h = refl

-- A loop whose rounds do nothing.
idle_loop :
    {A G : Type 0} (body : A → G → Result G) (xs : List A) (g : G)
    → ((a : A) (g : G) → body a g ≡ ok g)
    → for_each xs body g ≡ ok g
unfolding for_each
idle_loop body [] g idle = refl
idle_loop body (x ∷ xs) g idle = rw (idle x g) (idle_loop body xs g idle)

no_pairs : (u v : ℕ) → Memᴰ {A = ℕ × ℕ} (u, v) [] ↔ LollipopEdge 0 0 u v
no_pairs u v = (λ m. absurd (Memᴰ.not-nil m), λ h. absurd (omega arith))

module _ {N E : Type 0} (c : Create N E) (d : N) (e : E) where
  pub left-Extends :
      (checks : Bool) (num : Option ℕ) (ws : Option (List N)) (m k : ℕ)
      → get_num_nodes num ws ≡ ok m
      → 0 < m
      → Extends c e
          (c.with_capacity m k)
          (weights_or ws m d)
          (mesh_at 0 m)
          (left_mesh c d e checks (weights_or ws m d) (c.with_capacity m k))
  left-Extends checks num ws m k h pos =
      let len = length-weights_or num ws m d h in
      subst
        (λ l.
          Extends c e (c.with_capacity m k) (weights_or ws m d) (mesh_at 0 l)
            (left_mesh c d e checks (weights_or ws m d) (c.with_capacity m k)))
        len
        (left_mesh-Extends c d e checks (weights_or ws m d) (c.with_capacity m k)
          (omega (arith, len)) (ap length (c.node_weights-with_capacity m k)))

  module _ (num_mesh num_path : Option ℕ) (mesh_weights path_weights : Option (List N)) where
    abbrev path_nodes : List N
    path_nodes = path_list num_path path_weights d

    some_mesh :
        (checks : Bool) (m : ℕ)
        → get_num_nodes num_mesh mesh_weights ≡ ok m
        → 0 < m
        → m * (m - 1) < 2 ^ 64
        → Draws c e
            (weights_or mesh_weights m d ++ path_nodes)
            (LollipopEdge m (length path_nodes))
            (m * (m - 1) / 2 + length path_nodes)
            (lollipop_graph c d e checks num_mesh num_path mesh_weights path_weights)
    unfolding lollipop_graph
    some_mesh checks m h pos small =
        let start = c.with_capacity m (m * (m - 1) / 2) in
        rw
          (
            not_missing num_mesh mesh_weights m h,
            h,
            sub_lem checks m 1 pos,
            fit_lem checks (m * (m - 1)) small,
          )
          (Draws-Builds c e (LollipopEdge m (length path_nodes))
            (lollipop_pairs m (length path_nodes)) _
            (Builds-Extends c e m (m * (m - 1) / 2) (
              Extends-bind c e start 0 _ _ (ap length (c.node_weights-with_capacity m _))
                (left-Extends checks num_mesh mesh_weights m _ h pos)
                λ g same.
                  attach_path-Extends c d e checks m path_nodes g pos
                    (same ∙ omega (arith, length-weights_or num_mesh mesh_weights m d h))))
            (λ u v. Memᴰ-lollipop_pairs m (length path_nodes) u v pos)
            (length-lollipop_pairs m (length path_nodes)))

    no_mesh :
        get_num_nodes num_mesh mesh_weights ≡ ok 0
        → lollipop_graph c d e true num_mesh num_path mesh_weights path_weights ≡ panic
    unfolding lollipop_graph
    no_mesh h = rw (not_missing num_mesh mesh_weights 0 h, h) refl

    idle_row : (i : ℕ) (g : Create.G c) → for_each (range (i + 1) 0) (join c e [] i []) g ≡ ok g
    unfolding for_each
    idle_row i g = let z : 0 - (i + 1) ≡ 0 = omega arith in rw z refl

    idle_rows :
        (last : ℕ) (g : Create.G c)
        → for_each (range 0 last) (λ i. for_each (range (i + 1) 0) (join c e [] i [])) g ≡ ok g
    idle_rows last g = idle_loop _ (range 0 last) g idle_row

    empty_mesh : (g : Create.G c) → left_mesh c d e false [] g ≡ ok g
    unfolding left_mesh collect_nodes
    empty_mesh g = idle_rows (2 ^ 64 - 1) g

    no_nodes :
        get_num_nodes num_mesh mesh_weights ≡ ok 0
        → length path_nodes ≡ 0
        → Draws c e
            (weights_or mesh_weights 0 d ++ path_nodes)
            (LollipopEdge 0 (length path_nodes))
            (0 * (0 - 1) / 2 + length path_nodes)
            (lollipop_graph c d e false num_mesh num_path mesh_weights path_weights)
    unfolding lollipop_graph attach_path collect_nodes
    no_nodes h no_path =
        let none_mesh : weights_or mesh_weights 0 d ≡ [] =
          eq-nil (weights_or mesh_weights 0 d) (length-weights_or num_mesh mesh_weights 0 d h) in
        let none_path : path_nodes ≡ [] = eq-nil path_nodes no_path in
        rw (not_missing num_mesh mesh_weights 0 h, h, none_mesh, none_path, empty_mesh)
          (Draws-Builds c e (LollipopEdge 0 0) [] 0
            (record {
              out = c.with_capacity 0 0;
              returns = refl;
              nodes = c.node_weights-with_capacity 0 0;
              edges = c.edge_references-with_capacity 0 0;
            })
            no_pairs refl)

    -- `lollipop_graph` on a mesh of m nodes, given or counted by the weights, where `m * (m - 1)`
    -- is below 2 ^ 64. It panics for no mesh nodes in a build with overflow checks. With a mesh
    -- node, or with no nodes at all in a build without the checks, it returns the graph that has an
    -- edge from each node of the mesh to each later one, and a path on from the last, one edge for
    -- each path node. A path with no mesh in a build without the checks is left out.
    pub lollipop_graph-Draws :
        (checks : Bool) (m : ℕ)
        → get_num_nodes num_mesh mesh_weights ≡ ok m
        → m * (m - 1) < 2 ^ 64
        → (0 < m) ⊎ (checks ≡ true) ⊎ (length path_nodes ≡ 0)
        → let r = lollipop_graph c d e checks num_mesh num_path mesh_weights path_weights in
          (m ≡ 0) × (checks ≡ true) × (r ≡ panic)
          ⊎ ((0 < m) ⊎ (checks ≡ false))
            × Draws c e
                (weights_or mesh_weights m d ++ path_nodes)
                (LollipopEdge m (length path_nodes))
                (m * (m - 1) / 2 + length path_nodes)
                r
    lollipop_graph-Draws checks (suc k) h small _ =
        inr (inl (omega arith), some_mesh checks (suc k) h (omega arith) small)
    lollipop_graph-Draws true zero h small _ = inl (refl, refl, no_mesh h)
    lollipop_graph-Draws false zero h small cases_ = elim cases_ [
      | inl pos ↦ absurd (omega arith)
      | inr (inl on) ↦ cc on
      | inr (inr no_path) ↦ inr (inr refl, no_nodes h no_path)
    ]
