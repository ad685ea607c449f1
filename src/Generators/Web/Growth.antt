-- ===== src/Generators/Web/Growth.antt =====
-- The edges that dorogovtsev_goltsev_mendes_graph.rs adds, as pairs of numbers.
use rustworkx.Base.{ℕ, zero, suc, ◌+◌, ◌*◌, ◌^◌, ◌≡◌, sym, ap, ◌∙◌, [], ◌∷◌, ◌++◌}
use rustworkx.Base.{length, length-append, arith}
use native.Mathlib.Nat.{pow-suc}
use rustworkx.Generators.Build.Rules.{Pairs}

power_of_three : (k x : ℕ) → 3 ^ suc k * x ≡ 3 ^ k * (3 * x)
power_of_three k x = rw (pow-suc 3 k) (shuffle (3 ^ k) x)
  where
    shuffle : (p x : ℕ) → p * 3 * x ≡ p * (3 * x)
    shuffle p x = grind arith

-- For each pair a new node, the first of them `n`, that is joined from both of its ends.
abbrev pub splits : ℕ → Pairs → Pairs
splits n [] = []
splits n ((a, b) ∷ ps) = (a, n) ∷ (b, n) ∷ splits (n + 1) ps

-- The number of nodes and the edges after `k` rounds, in each of which every edge gets a new node.
abbrev pub web : ℕ → ℕ × Pairs → ℕ × Pairs
web zero (n, ps) = (n, ps)
web (suc k) (n, ps) = web k (n + length ps, ps ++ splits n ps)

length-splits : (n : ℕ) (ps : Pairs) → length (splits n ps) ≡ 2 * length ps
length-splits n [] = omega arith
length-splits n (p ∷ ps) = omega (arith, length-splits (n + 1) ps)

-- The counts: the edges triple, and there are `(edges + 3) / 2` nodes.
pub length-web :
    (k n : ℕ) (ps : Pairs)
    → n * 2 ≡ length ps + 3
    → (length (web k (n, ps)).1 ≡ 3 ^ k * length ps)
      × ((web k (n, ps)).0 * 2 ≡ length (web k (n, ps)).1 + 3)
length-web zero n ps h = (omega arith, h)
length-web (suc k) n ps h =
    let both : length (ps ++ splits n ps) ≡ 3 * length ps =
      omega (arith, length-append ps (splits n ps), length-splits n ps) in
    let (edges, nodes) =
      length-web k (n + length ps) (ps ++ splits n ps) (omega (arith, both, h)) in
    (edges ∙ ap (λ (l : ℕ). 3 ^ k * l) both ∙ sym (power_of_three k (length ps)), nodes)
