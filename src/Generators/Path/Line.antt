-- ===== src/Generators/Path/Line.antt =====
-- path_graph.rs: the edges join consecutive nodes.
use rustworkx.Base.{ℕ, ◌+◌, ◌-◌, ◌*◌, ◌<◌, ◌≡◌, refl, ◌↔◌, ◌⊎◌, inl, inr, Bool, true, Option, List}
use rustworkx.Base.{Memᴰ, length, flat_map, range, length-flat_map, length-range, if◌then◌else◌}
use rustworkx.Base.{arith, ⊎_elim, ap, ◌∙◌}
use rustworkx.Petgraph.Create.{Create}
use rustworkx.Generators.Build.{ok, get_num_nodes, add_both, for_each, weights_or}
use rustworkx.Generators.Build.Rules.{Pairs, size, Adds, Adds-for_each}
use rustworkx.Generators.Build.Spec.{Draws, Draws-Builds}
use rustworkx.Generators.Build.Links.{
  link, LinkEdge, Adds-add_both, length-link, Memᴰ-link, Memᴰ-loop,
}
use rustworkx.Base.{Memᴰ-range}
use rustworkx.Generators.Path.{path_graph}
use rustworkx.Generators.Path.Laws.{Builds-loop}

abbrev pub path_pairs : Bool → ℕ → Pairs
path_pairs bi n = flat_map (λ a. link bi a (a + 1)) (range 0 (n - 1))

-- `u` and `v` are consecutive nodes below `n`, in the order of the path, or in either order.
abbrev pub PathEdge : Bool → ℕ → ℕ → ℕ → Type 0
PathEdge bi n u v = ((v ≡ u + 1) × (v < n)) ⊎ ((bi ≡ true) × (u ≡ v + 1) × (u < n))

pub Memᴰ-path_pairs : (bi : Bool) (n u v : ℕ) → Memᴰ (u, v) (path_pairs bi n) ↔ PathEdge bi n u v
Memᴰ-path_pairs bi n u v = (
  λ m.
      let (i, lo, hi, k) = (Memᴰ-loop (λ a. link bi a (a + 1)) (u, v) 0 (n - 1)).0 m in
      ground (arith, (Memᴰ-link bi i (i + 1) u v).0 k),
  ⊎_elim (λ h. back u (omega arith) (inl (refl, h.0)))
      (λ h. back v (omega arith) (inr (h.0, h.1, refl))),
)
  where
    back : (i : ℕ) → i < n - 1 → LinkEdge bi i (i + 1) u v → Memᴰ (u, v) (path_pairs bi n)
    back i h k =
        (Memᴰ-loop (λ a. link bi a (a + 1)) (u, v) 0 (n - 1)).1
          (i, omega arith, h, (Memᴰ-link bi i (i + 1) u v).1 k)

pub length-path_pairs :
    (bi : Bool) (n : ℕ) → length (path_pairs bi n) ≡ (if bi then 2 else 1) * (n - 1)
length-path_pairs bi n =
    length-flat_map (λ a. link bi a (a + 1)) _ (range 0 (n - 1)) (λ a. length-link bi a (a + 1))
    ∙ ap (λ (t : ℕ). (if bi then 2 else 1) * t) (length-range 0 (n - 1) ∙ omega arith)

module _ {N E : Type 0} (c : Create N E) where
  pub Adds-path :
      (e : E) (bi : Bool) (n : ℕ) (g : Create.G c)
      → size c e g ≡ n
      → Adds c e g
          (path_pairs bi n)
          (for_each (range 0 (n - 1)) (λ a g. add_both c e bi a (a + 1) g) g)
  Adds-path e bi n =
      Adds-for_each c e (λ a. link bi a (a + 1)) (λ a g. add_both c e bi a (a + 1) g) n
        (range 0 (n - 1))
        λ a m g sized.
          let r = (Memᴰ-range a 0 (n - 1)).0 m in
          Adds-add_both c e g bi a (a + 1) (omega arith) (omega arith)

  -- `path_graph` on n nodes, given or counted by the weights, returns the graph whose edges are
  -- (a, a + 1), with (a + 1, a) if `bidirectional`: n - 1 of them, or 2 * (n - 1).
  pub path_graph-Draws :
      (num : Option ℕ) (ws : Option (List N)) (d : N) (e : E) (bi : Bool) (n : ℕ)
      → get_num_nodes num ws ≡ ok n
      → Draws c e
          (weights_or ws n d)
          (PathEdge bi n)
          ((if bi then 2 else 1) * (n - 1))
          (path_graph c num ws d e bi)
  unfolding path_graph
  path_graph-Draws num ws d e bi n h =
      Draws-Builds c e (PathEdge bi n) (path_pairs bi n) _
        (Builds-loop c num ws d e (λ k. if bi then 2 * k else k)
          (λ k. for_each (range 0 (k - 1)) (λ a g. add_both c e bi a (a + 1) g)) (path_pairs bi)
          refl n h λ g sized _. Adds-path e bi n g sized)
        (Memᴰ-path_pairs bi n) (length-path_pairs bi n)
