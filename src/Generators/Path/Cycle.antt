-- ===== src/Generators/Path/Cycle.antt =====
-- cycle_graph.rs: the path, closed by the edge from its last node to its first.
use rustworkx.Base.{
  ℕ, zero, suc, ◌+◌, ◌-◌, ◌*◌, ◌%◌, ◌<◌, ◌≡◌, refl, ◌↔◌, ◌⊎◌, inl, inr, Bool, true, false, Option,
  List, [],
}
use rustworkx.Base.{
  Memᴰ, length, ◌++◌, if◌then◌else◌, length-append, arith, Memᴰ-append, eq_or_lt, ap, ◌∙◌, sym,
}
use native.Mathlib.Nat.{mod-eq_of_lt, mod-eq-sub-mod}
use rustworkx.Petgraph.Create.{Create}
use rustworkx.Generators.Build.{ok, ◌>>=◌, get_num_nodes, add_both, for_each, weights_or}
use rustworkx.Generators.Build.Rules.{Pairs, size, Adds, Adds-bind}
use rustworkx.Base.{range}
use rustworkx.Generators.Build.Spec.{Draws, Draws-Builds}
use rustworkx.Generators.Build.Links.{link, no_mem, Adds-add_both, Memᴰ-link}
use rustworkx.Generators.Path.{cycle_graph}
use rustworkx.Generators.Path.Laws.{Builds-loop}
use rustworkx.Generators.Path.Line.{path_pairs, Memᴰ-path_pairs, length-path_pairs, Adds-path}

abbrev cycle_pairs : Bool → ℕ → Pairs
cycle_pairs bi zero = []
cycle_pairs bi (suc k) = path_pairs bi (suc k) ++ link bi (suc k - 1) 0

mod_self : (k : ℕ) → suc k % suc k ≡ 0
mod_self k = grind (arith, mod-eq-sub-mod)

-- `v` follows `u` round the cycle, or the other way round.
abbrev pub CycleEdge : Bool → ℕ → ℕ → ℕ → Type 0
CycleEdge bi n u v = ((u < n) × (v ≡ (u + 1) % n)) ⊎ ((bi ≡ true) × (v < n) × (u ≡ (v + 1) % n))

next_cases :
    (k u : ℕ) → u < suc k → ((u + 1) % suc k ≡ u + 1) × (u < k) ⊎ ((u + 1) % suc k ≡ 0) × (u ≡ k)
next_cases k u h = elim (eq_or_lt u k (omega arith)) [
  | inl e ↦ inr (ap (λ (t : ℕ). t % suc k) (omega arith) ∙ mod_self k, sym e)
  | inr l ↦ inl (mod-eq_of_lt (omega arith), l)
]

Memᴰ-cycle_pairs : (bi : Bool) (n u v : ℕ) → Memᴰ (u, v) (cycle_pairs bi n) ↔ CycleEdge bi n u v
Memᴰ-cycle_pairs bi zero u v = (λ m. absurd (no_mem (u, v) m), λ h. absurd (omega arith))
Memᴰ-cycle_pairs bi (suc k) u v = ground (
  arith,
  Memᴰ-append (u, v) (path_pairs bi (suc k)) (link bi (suc k - 1) 0),
  Memᴰ-path_pairs bi (suc k) u v,
  Memᴰ-link bi (suc k - 1) 0 u v,
  next_cases k u,
  next_cases k v,
)

length-cycle_pairs : (bi : Bool) (n : ℕ) → length (cycle_pairs bi n) ≡ (if bi then 2 else 1) * n
length-cycle_pairs bi zero = omega arith
length-cycle_pairs true (suc k) = omega (
  arith,
  length-append (path_pairs true (suc k)) (link true (suc k - 1) 0),
  length-path_pairs true (suc k),
)
length-cycle_pairs false (suc k) = omega (
  arith,
  length-append (path_pairs false (suc k)) (link false (suc k - 1) 0),
  length-path_pairs false (suc k),
)

module _ {N E : Type 0} (c : Create N E) where
  -- `cycle_graph` on n nodes, given or counted by the weights, returns the graph whose edges are
  -- (a, (a + 1) % n), with the reverse of each if `bidirectional`: n of them, or 2 * n.
  pub cycle_graph-Draws :
      (num : Option ℕ) (ws : Option (List N)) (d : N) (e : E) (bi : Bool) (n : ℕ)
      → get_num_nodes num ws ≡ ok n
      → Draws c e
          (weights_or ws n d)
          (CycleEdge bi n)
          ((if bi then 2 else 1) * n)
          (cycle_graph c num ws d e bi)
  unfolding cycle_graph
  cycle_graph-Draws num ws d e bi n h =
      Draws-Builds c e (CycleEdge bi n) (cycle_pairs bi n) _
        (Builds-loop c num ws d e (λ k. if bi then 2 * k else k)
          (λ k g.
            for_each (range 0 (k - 1)) (λ a g'. add_both c e bi a (a + 1) g') g
            >>= add_both c e bi (k - 1) 0)
          (cycle_pairs bi) refl n h (close n))
        (Memᴰ-cycle_pairs bi n) (length-cycle_pairs bi n)
    where
      close :
          (k : ℕ) (g : Create.G c)
          → size c e g ≡ k
          → 0 < k
          → Adds c e g (cycle_pairs bi k) (
              for_each (range 0 (k - 1)) (λ a g'. add_both c e bi a (a + 1) g') g
              >>= add_both c e bi (k - 1) 0)
      close zero g sized pos = absurd (omega arith)
      close (suc k) g sized pos =
          Adds-bind c e g _ (add_both c e bi (suc k - 1) 0) (Adds-path c e bi (suc k) g sized)
            λ g' same. Adds-add_both c e g' bi (suc k - 1) 0 (omega arith) (omega arith)
