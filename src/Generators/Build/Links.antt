-- ===== src/Generators/Build/Links.antt =====
-- Edges with their reverse, and membership in what a loop over a range appends.
use rustworkx.Base.{ℕ, ◌≤◌, ◌<◌, ◌≡◌, refl, ◌↔◌, ◌⊎◌, Bool, true, false, List, [], ◌∷◌}
use rustworkx.Base.{Memᴰ, length, flat_map, range, Memᴰ-flat_map, Memᴰ-range, Memᴰ-cons}
use rustworkx.Base.{Option, none, some, if◌then◌else◌, arith, length-replicate}
use mathlib.Core.List.Memᴰ
use rustworkx.Petgraph.Create.{Create}
use rustworkx.Generators.Build.{ok, get_num_nodes, add_edge, add_both, weights_or}
use rustworkx.Generators.Build.Rules.{Pairs, size, Adds, Adds-ok, Adds-add_edge, Adds-bind, Adds-if}

abbrev pub link : Bool → ℕ → ℕ → Pairs
link bidirectional a b = (a, b) ∷ (if bidirectional then (b, a) ∷ [] else [])

pub Adds-add_both :
    {N E : Type 0} (c : Create N E) (e : E) (g : Create.G c) (bidirectional : Bool) (a b : ℕ)
    → a < size c e g
    → b < size c e g
    → Adds c e g (link bidirectional a b) (add_both c e bidirectional a b g)
unfolding add_both
Adds-add_both c e g bidirectional a b ha hb =
    Adds-bind c e g (add_edge c e a b g)
      (λ g'. if bidirectional then add_edge c e b a g' else ok g') (Adds-add_edge c e g a b ha hb)
      λ g' same.
        Adds-if c e g' bidirectional (add_edge c e b a g') (ok g')
          (Adds-add_edge c e g' b a (omega arith) (omega arith)) (Adds-ok c e g')

pub length-link : (bi : Bool) (a b : ℕ) → length (link bi a b) ≡ (if bi then 2 else 1)
length-link true a b = refl
length-link false a b = refl

abbrev pub LinkEdge : Bool → ℕ → ℕ → ℕ → ℕ → Type 0
LinkEdge bi a b u v = ((u ≡ a) × (v ≡ b)) ⊎ ((bi ≡ true) × (u ≡ b) × (v ≡ a))

pub Memᴰ-pair :
    (u v a b : ℕ) (ps : Pairs) → Memᴰ (u, v) ((a, b) ∷ ps) ↔ (((u ≡ a) × (v ≡ b)) ⊎ Memᴰ (u, v) ps)
Memᴰ-pair u v a b ps = ground (arith, Memᴰ-cons (u, v) (a, b) ps)

pub no_mem : (p : ℕ × ℕ) → ¬ Memᴰ p []
no_mem p m = Memᴰ.not-nil m

pub Memᴰ-link : (bi : Bool) (a b u v : ℕ) → Memᴰ (u, v) (link bi a b) ↔ LinkEdge bi a b u v
Memᴰ-link true a b u v =
    ground (arith, Memᴰ-pair u v a b ((b, a) ∷ []), Memᴰ-pair u v b a [], no_mem (u, v))
Memᴰ-link false a b u v = ground (arith, Memᴰ-pair u v a b [], no_mem (u, v))

pub Memᴰ-loop :
    (f : ℕ → Pairs) (p : ℕ × ℕ) (s t : ℕ)
    → Memᴰ p (flat_map f (range s t)) ↔ ((i : ℕ) × (s ≤ i) × (i < t) × Memᴰ p (f i))
Memᴰ-loop f p s t = (
  λ m.
      let (i, hi, hf) = (Memᴰ-flat_map f p (range s t)).0 m in
      let r = (Memᴰ-range i s t).0 hi in (i, r.0, r.1, hf),
  λ (i, h, k, hf). (Memᴰ-flat_map f p (range s t)).1 (i, (Memᴰ-range i s t).1 (h, k), hf),
)

pub length-weights_or :
    {N : Type 0} (c : Option ℕ) (ws : Option (List N)) (n : ℕ) (d : N)
    → get_num_nodes c ws ≡ ok n
    → length (weights_or ws n d) ≡ n
length-weights_or c (some ws) n d h = ground arith
length-weights_or c none n d h = length-replicate n d
