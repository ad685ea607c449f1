-- ===== src/Generators/Path/Laws.antt =====
-- What the four generators have in common: the nodes come first, and no nodes means no edges.
use rustworkx.Base.{ℕ, zero, suc, ◌<◌, ◌≡◌, refl, ap, ◌∙◌, false, ◌&&◌, Option, none, some, List}
use rustworkx.Base.{[], ◌∷◌, length, if◌then◌else◌, ◌==◌, suc==zero, arith, sym}
use rustworkx.Petgraph.Create.{Create}
use rustworkx.Generators.Build.{
  Result, ok, invalid_input, ◌>>=◌, get_num_nodes, is_none, weights_or,
}
use rustworkx.Generators.Build.Rules.{Pairs, size, weigh, Adds, add_nodes-Grows}
use rustworkx.Generators.Build.Spec.{Builds, Builds-Adds}
use rustworkx.Generators.Build.Links.{length-weights_or}
use rustworkx.Generators.Path.{with_nodes}

given :
    {N : Type 0} (num : Option ℕ) (ws : Option (List N)) (n : ℕ)
    → get_num_nodes num ws ≡ ok n
    → (is_none ws && is_none num) ≡ false
given num (some ws) n h = refl
given none none n h = cc
given (some k) none n h = refl

pub eq-nil {ℓ} : {A : Type ℓ} (xs : List A) → length xs ≡ 0 → xs ≡ []
eq-nil [] h = refl
eq-nil (x ∷ xs) h = absurd (omega arith)

module _ {N E : Type 0} (c : Create N E) (num : Option ℕ) (ws : Option (List N)) (d : N)
    (e : E) where
  size-with_nodes :
      (n m : ℕ) → get_num_nodes num ws ≡ ok n → size c e (with_nodes c num ws d e n m) ≡ n
  size-with_nodes n m h =
      let grown = add_nodes-Grows c e (weights_or ws n d) (c.with_capacity n m) in
      rw (grown.nodes, c.node_weights-with_capacity n m) (length-weights_or num ws n d h)

  pub Builds-loop :
      (m : ℕ → ℕ) (loop : ℕ → Create.G c → Result (Create.G c)) (ps : ℕ → Pairs)
      → ps 0 ≡ []
      → (n : ℕ) → get_num_nodes num ws ≡ ok n
      → ((g : Create.G c) → size c e g ≡ n → 0 < n → Adds c e g (ps n) (loop n g))
      → Builds c e (weights_or ws n d) (ps n) (
          if is_none ws && is_none num
          then invalid_input
          else (get_num_nodes num ws >>= λ k.
              if k == 0
              then ok (c.with_capacity k (m k))
              else loop k (with_nodes c num ws d e k (m k))))
  Builds-loop m loop ps empty zero h step =
      rw (given num ws 0 h, h)
        (record {
          out = c.with_capacity 0 (m 0);
          returns = refl;
          nodes =
              c.node_weights-with_capacity 0 (m 0)
              ∙ sym (eq-nil _ (length-weights_or num ws 0 d h));
          edges = c.edge_references-with_capacity 0 (m 0) ∙ sym (ap (weigh c e) empty);
        })
  Builds-loop m loop ps empty (suc n) h step =
      rw (given num ws (suc n) h, h, suc==zero n)
        (Builds-Adds c e (suc n) (m (suc n))
          (add_nodes-Grows c e (weights_or ws (suc n) d) (c.with_capacity (suc n) (m (suc n))))
          (step (with_nodes c num ws d e (suc n) (m (suc n)))
            (size-with_nodes (suc n) (m (suc n)) h) (omega arith)))
