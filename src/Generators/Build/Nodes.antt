-- ===== src/Generators/Build/Nodes.antt =====
-- Edges between nodes that are named by their place in a collected list of indices.
use rustworkx.Base.{
  ℕ, zero, suc, ◌+◌, ◌<◌, ◌≡◌, ◌∙◌, ap, ◌↔◌, List, [], ◌∷◌, ◌++◌, append_assoc, some, Memᴰ,
}
use rustworkx.Base.{get_elem?, count_from, arith, replicate}
use rustworkx.Petgraph.Create.{Create}
use rustworkx.Generators.Build.{Result, ◌>>=◌, or_panic, add_edge}
use rustworkx.Generators.Build.Rules.{size, Adds, Adds-add_edge, Grows}
use rustworkx.Generators.Build.Links.{Memᴰ-pair, no_mem}

pub get_elem?-count_from : (s n i : ℕ) → i < n → get_elem? (count_from s n) i ≡ some (s + i)
get_elem?-count_from s zero i h = absurd (omega arith)
get_elem?-count_from s (suc n) zero h = ap some (omega arith)
get_elem?-count_from s (suc n) (suc i) h =
    get_elem?-count_from (s + 1) n i (omega arith) ∙ ap some (omega arith)

pub replicate_add {ℓ} :
    {A : Type ℓ} (n m : ℕ) (a : A) → replicate (n + m) a ≡ replicate n a ++ replicate m a
replicate_add zero m a = ap (λ (k : ℕ). replicate k a) (omega arith)
replicate_add {A} (suc n) m a =
    let e : suc n + m ≡ suc (n + m) = omega arith in
    ap (λ (k : ℕ). replicate k a) e ∙ ap (λ (l : List A). a ∷ l) (replicate_add n m a)

pub Memᴰ-only : (u v a b : ℕ) → Memᴰ {A = ℕ × ℕ} (u, v) ((a, b) ∷ []) ↔ ((u ≡ a) × (v ≡ b))
Memᴰ-only u v a b = ground (arith, Memᴰ-pair u v a b [], no_mem (u, v))

module _ {N E : Type 0} (c : Create N E) (e : E) where
  -- `graph.add_edge(nodes[i], others[j], default_edge_weight())`, which panics out of range.
  abbrev pub join : List ℕ → ℕ → List ℕ → ℕ → Create.G c → Result (Create.G c)
  join nodes i others j g = do
    a ← or_panic (get_elem? nodes i)
    b ← or_panic (get_elem? others j)
    add_edge c e a b g

  pub Adds-join :
      (s n i t m j a b : ℕ) (g : Create.G c)
      → i < n
      → j < m
      → s + n < suc (size c e g)
      → t + m < suc (size c e g)
      → a ≡ s + i
      → b ≡ t + j
      → Adds c e g ((a, b) ∷ []) (join (count_from s n) i (count_from t m) j g)
  Adds-join s n i t m j a b g hi hj hs ht ea eb =
      rw (get_elem?-count_from s n i hi, get_elem?-count_from t m j hj, ← ea, ← eb)
        (Adds-add_edge c e g a b (omega arith) (omega arith))

  pub Grows-append :
      {g g' g'' : Create.G c} {vs ws : List N}
      → Grows c e g vs g'
      → Grows c e g' ws g''
      → Grows c e g (vs ++ ws) g''
  Grows-append {g} {vs} {ws} h k = record {
    nodes = k.nodes ∙ rw h.nodes (append_assoc (Create.node_weights c g) vs ws);
    edges = k.edges ∙ h.edges;
  }
