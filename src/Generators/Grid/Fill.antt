-- ===== src/Generators/Grid/Fill.antt =====
-- grid_graph.rs: the weights of the nodes, and the room that is reserved.
use rustworkx.Base.{
  ℕ, zero, suc, ◌+◌, ◌*◌, ◌-◌, ◌<◌, ◌≤◌, ◌^◌, ◌≡◌, refl, ap, ◌∙◌, Bool, List, [], ◌∷◌,
}
use rustworkx.Base.{length, replicate, ◌==◌, arith, Bool-cases, inl, inr, append_assoc}
use rustworkx.Petgraph.Create.{Create}
use rustworkx.Generators.Build.{ok, fit_lem, add_nodes}
use rustworkx.Generators.Build.Rules.{Grows, add_nodes-Grows}
use rustworkx.Generators.Grid.{fill_weights, grid_capacity}
use rustworkx.Generators.Grid.Cells.{}

-- The weights of `n` nodes: those given, as far as they go, then the default.
abbrev pub filled {ℓ} : {T : Type ℓ} → ℕ → List T → T → List T
filled zero ws d = []
filled (suc n) [] d = d ∷ filled n [] d
filled (suc n) (w ∷ ws) d = w ∷ filled n ws d

pub filled-nil {ℓ} : {T : Type ℓ} (n : ℕ) (d : T) → filled n [] d ≡ replicate n d
filled-nil zero d = refl
filled-nil (suc n) d = ap (λ l. d ∷ l) (filled-nil n d)

pub length-filled {ℓ} : {T : Type ℓ} (n : ℕ) (ws : List T) (d : T) → length (filled n ws d) ≡ n
length-filled zero ws d = refl
length-filled (suc n) [] d = ap suc (length-filled n [] d)
length-filled (suc n) (w ∷ ws) d = ap suc (length-filled n ws d)

less_down : (r k : ℕ) → (r - 1) * k ≤ r * k
less_down zero k = omega arith
less_down (suc r) k = let q : suc r - 1 ≡ r = omega arith in rw q (omega (arith, suc-mul r k))
  where
    suc-mul : (r k : ℕ) → suc r * k ≡ r * k + k
    suc-mul r k = grind arith

module _ {N E : Type 0} (c : Create N E) (d : N) (e : E) where
  pub fill_weights-Grows :
      (n : ℕ) (ws : List N) (g : Create.G c)
      → Grows c e g
          (filled n ws d)
          (add_nodes c (replicate (fill_weights c d e n ws g).0 d) (fill_weights c d e n ws g).1)
  unfolding fill_weights
  fill_weights-Grows n [] g = rw (filled-nil n d) (add_nodes-Grows c e (replicate n d) g)
  fill_weights-Grows zero (w ∷ ws) g = add_nodes-Grows c e [] g
  fill_weights-Grows (suc n) (w ∷ ws) g =
      let rest = fill_weights-Grows n ws (c.add_node g w).1 in
      record {
        nodes =
            rw (rest.nodes, c.node_weights-add_node g w)
              (append_assoc (c.node_weights g) (w ∷ []) (filled n ws d));
        edges = rest.edges ∙ c.edge_references-add_node g w;
      }

  -- The room for the edges of a grid of fewer than 2 ^ 62 cells fits.
  pub grid_capacity_fits :
      (overflow_checks : Bool) (r k : ℕ) (bi : Bool)
      → 4 * (r * k) < 2 ^ 64
      → (m : ℕ) × (grid_capacity c d e overflow_checks (r * k) r k bi ≡ ok m)
  unfolding grid_capacity
  grid_capacity_fits overflow_checks r k bi small = elim (Bool-cases (r * k == 0)) [
    | inl t ↦ elim (Bool-cases bi) [
      | inl both ↦ rw (t, both) (0, refl)
      | inr one ↦ rw (t, one) (0, refl)
    ]
    | inr f ↦
        let down = (r - 1) * k in
        let right = (k - 1) * r in
        let le_down = less_down r k in
        let swapped : k * r ≡ r * k = grind arith in
        let le_right : right ≤ r * k = omega (arith, less_down k r, swapped) in
        let fit_down = fit_lem overflow_checks down (omega (arith, le_down)) in
        let fit_right = fit_lem overflow_checks right (omega (arith, le_right)) in
        let fit_sum = fit_lem overflow_checks (down + right) (omega (arith, le_down, le_right)) in
        let fit_both =
          fit_lem overflow_checks ((down + right) * 2) (omega (arith, le_down, le_right)) in
        elim (Bool-cases bi) [
          | inl both ↦
              rw (f, fit_down, fit_right, fit_sum, both, fit_both) ((down + right) * 2, refl)
          | inr one ↦ rw (f, fit_down, fit_right, fit_sum, one) (down + right, refl)
        ]
  ]
