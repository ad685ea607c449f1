-- ===== src/Generators/Path/Star.antt =====
-- star_graph.rs: node 0 is joined to every other node.
use rustworkx.Base.{
  ℕ, ◌-◌, ◌*◌, ◌<◌, ◌≡◌, refl, ◌↔◌, ◌⊎◌, inl, inr, Bool, true, false, Option, List, [], ◌∷◌,
}
use rustworkx.Base.{Memᴰ, length, flat_map, range, length-flat_map, length-range, if◌then◌else◌}
use rustworkx.Base.{arith, ap, ◌∙◌, Memᴰ-range, ⊎_elim}
use rustworkx.Petgraph.Create.{Create}
use rustworkx.Generators.Build.{ok, for_each, get_num_nodes, weights_or, add_edge}
use rustworkx.Generators.Build.Rules.{
  Pairs, size, Adds, Adds-for_each, Adds-if, Adds-bind, Adds-add_edge,
}
use rustworkx.Generators.Build.Spec.{Draws, Draws-Builds}
use rustworkx.Generators.Build.Links.{Memᴰ-loop, Memᴰ-pair, no_mem}
use rustworkx.Generators.Path.{star_graph, star_round}
use rustworkx.Generators.Path.Laws.{Builds-loop}

abbrev spoke : Bool → Bool → ℕ → Pairs
spoke inward bi a = if bi then (a, 0) ∷ (0, a) ∷ [] else if inward then (a, 0) ∷ [] else (0, a) ∷ []

-- An edge into or out of node 0, as `inward` and `bidirectional` say.
abbrev pub StarEdge : Bool → Bool → ℕ → ℕ → ℕ → Type 0
StarEdge inward bi n u v =
    ((v ≡ 0) × (0 < u) × (u < n) × ((bi ≡ true) ⊎ (inward ≡ true)))
    ⊎ ((u ≡ 0) × (0 < v) × (v < n) × ((bi ≡ true) ⊎ (inward ≡ false)))

abbrev SpokeEdge : Bool → Bool → ℕ → ℕ → ℕ → Type 0
SpokeEdge inward bi a u v =
    ((u ≡ a) × (v ≡ 0) × ((bi ≡ true) ⊎ (inward ≡ true)))
    ⊎ ((u ≡ 0) × (v ≡ a) × ((bi ≡ true) ⊎ (inward ≡ false)))

Memᴰ-spoke :
    (inward bi : Bool) (a u v : ℕ) → Memᴰ (u, v) (spoke inward bi a) ↔ SpokeEdge inward bi a u v
Memᴰ-spoke inward true a u v =
    ground (arith, Memᴰ-pair u v a 0 ((0, a) ∷ []), Memᴰ-pair u v 0 a [], no_mem (u, v))
Memᴰ-spoke true false a u v = ground (arith, Memᴰ-pair u v a 0 [], no_mem (u, v))
Memᴰ-spoke false false a u v = ground (arith, Memᴰ-pair u v 0 a [], no_mem (u, v))

length-spoke : (inward bi : Bool) (a : ℕ) → length (spoke inward bi a) ≡ (if bi then 2 else 1)
length-spoke inward true a = refl
length-spoke true false a = refl
length-spoke false false a = refl

module _ (inward bi : Bool) (n : ℕ) where
  abbrev star_pairs : Pairs
  star_pairs = flat_map (spoke inward bi) (range 1 n)

  Memᴰ-star_pairs : (u v : ℕ) → Memᴰ (u, v) star_pairs ↔ StarEdge inward bi n u v
  Memᴰ-star_pairs u v = (
    λ m.
        let (i, lo, hi, k) = (Memᴰ-loop (spoke inward bi) (u, v) 1 n).0 m in
        ground (arith, (Memᴰ-spoke inward bi i u v).0 k),
    ⊎_elim (λ h. back u h.1 h.2 (inl (refl, h.0, h.3)))
        (λ h. back v h.1 h.2 (inr (h.0, refl, h.3))),
  )
    where
      back : (i : ℕ) → 0 < i → i < n → SpokeEdge inward bi i u v → Memᴰ (u, v) star_pairs
      back i lo hi k =
          (Memᴰ-loop (spoke inward bi) (u, v) 1 n).1
            (i, omega arith, hi, (Memᴰ-spoke inward bi i u v).1 k)

  length-star_pairs : length star_pairs ≡ (if bi then 2 else 1) * (n - 1)
  length-star_pairs =
      length-flat_map (spoke inward bi) _ (range 1 n) (length-spoke inward bi)
      ∙ ap (λ (t : ℕ). (if bi then 2 else 1) * t) (length-range 1 n)

module _ {N E : Type 0} (c : Create N E) where
  Adds-star_round :
      (num : Option ℕ) (ws : Option (List N)) (d : N) (e : E) (inward bi : Bool) (a : ℕ)
      (g : Create.G c)
      → a < size c e g
      → Adds c e g (spoke inward bi a) (star_round c num ws d e inward bi a g)
  unfolding star_round
  Adds-star_round num ws d e inward bi a g h =
      Adds-if c e g bi _ _
        (Adds-bind c e g _ (add_edge c e 0 a) (Adds-add_edge c e g a 0 h (omega arith))
          λ g' same. Adds-add_edge c e g' 0 a (omega arith) (omega arith))
        (Adds-if c e g inward _ _ (Adds-add_edge c e g a 0 h (omega arith))
          (Adds-add_edge c e g 0 a (omega arith) h))

  -- `star_graph` on n nodes, given or counted by the weights, returns the graph whose edges join
  -- node 0 and each other node: towards node 0 if `inward`, away from it if not, and both ways
  -- if `bidirectional`.
  pub star_graph-Draws :
      (num : Option ℕ) (ws : Option (List N)) (d : N) (e : E) (inward bi : Bool) (n : ℕ)
      → get_num_nodes num ws ≡ ok n
      → Draws c e
          (weights_or ws n d)
          (StarEdge inward bi n)
          ((if bi then 2 else 1) * (n - 1))
          (star_graph c num ws d e inward bi)
  unfolding star_graph
  star_graph-Draws num ws d e inward bi n h =
      Draws-Builds c e (StarEdge inward bi n) (star_pairs inward bi n) _
        (Builds-loop c num ws d e (λ k. if bi then 2 * k else k)
          (λ k. for_each (range 1 k) (star_round c num ws d e inward bi)) (star_pairs inward bi)
          refl n h
          λ g sized _.
            Adds-for_each c e (spoke inward bi) (star_round c num ws d e inward bi) n (range 1 n)
              (λ a m g' sized'.
                Adds-star_round num ws d e inward bi a g' (omega (arith, (Memᴰ-range a 1 n).0 m)))
              g sized)
        (Memᴰ-star_pairs inward bi n) (length-star_pairs inward bi n)
