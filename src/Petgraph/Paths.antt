-- ===== src/Petgraph/Paths.antt =====
-- Reachability in a list of edges is decided by recursion on the list.
use rustworkx.Base.{
  ℕ, ◌≡◌, refl, subst, ◌↔◌, inl, inr, Bool, true, not, ◌&&◌, ◌||◌, List, [], ◌∷◌, Memᴰ,
}
use rustworkx.Base.{◌==◌, ==_iff, Memᴰ-cons, arith, Bool-cases}
use mathlib.Core.List.Memᴰ
use rustworkx.Petgraph.Walks.{
  Walk, here, step, Walk-map, Walk-append, Walk-split, Within, Acyclic, Acyclic-insert,
  Acyclic-of_subset,
}

abbrev pub In : List (ℕ × ℕ) → ℕ → ℕ → Type 0
In es a b = Memᴰ (a, b) es

unfoldable pub reaches : List (ℕ × ℕ) → ℕ → ℕ → Bool
reaches [] a b = a == b
reaches ((x, y) ∷ es) a b = reaches es a b || (reaches es a x && reaches es y b)

In-Within : (x y : ℕ) (es : List (ℕ × ℕ)) → Within (In es) x y (In ((x, y) ∷ es))
In-Within x y es a b m = ground (arith, Memᴰ-cons (a, b) (x, y) es, m)

no_edges : {a b : ℕ} → Walk (In []) b a → a ≡ b
no_edges here = refl
no_edges (step m w) = absurd (Memᴰ.not-nil m)

pub reaches_iff : (es : List (ℕ × ℕ)) (a b : ℕ) → (reaches es a b ≡ true) ↔ Walk (In es) b a
unfolding reaches
reaches_iff [] a b =
    (λ e. subst (λ t. Walk (In []) t a) ((==_iff a b).0 e) here, λ w. (==_iff a b).1 (no_edges w))
reaches_iff ((x, y) ∷ es) a b = (
  λ e. elim (Bool-cases (reaches es a b)) [
    | inl direct ↦ keep ((reaches_iff es a b).0 direct)
    | inr far ↦
        Walk-append (keep ((reaches_iff es a x).0 (ground arith)))
          (step (Memᴰ.head refl) (keep ((reaches_iff es y b).0 (ground arith))))
  ],
  λ w. elim (Walk-split (In-Within x y es) w) [
    | inl v ↦ ground (arith, (reaches_iff es a b).1 v)
    | inr (to, from) ↦ ground (arith, (reaches_iff es a x).1 to, (reaches_iff es y b).1 from)
  ],
)
  where
    keep : {s t : ℕ} → Walk (In es) t s → Walk (In ((x, y) ∷ es)) t s
    keep = Walk-map (λ _ _ m. Memᴰ.tail m)

unfoldable pub acyclic : List (ℕ × ℕ) → Bool
unfolding reaches
acyclic [] = true
acyclic ((x, y) ∷ es) = acyclic es && not (reaches es y x)

pub acyclic_iff : (es : List (ℕ × ℕ)) → (acyclic es ≡ true) ↔ Acyclic (In es)
unfolding acyclic
acyclic_iff [] = (λ _ a b m. absurd (Memᴰ.not-nil m), λ _. refl)
acyclic_iff ((x, y) ∷ es) = (
  λ e.
      Acyclic-insert (In-Within x y es) ((acyclic_iff es).0 (ground arith))
        (λ w. ground (arith, (reaches_iff es y x).1 w)),
  λ h.
      let rest = (acyclic_iff es).1 (Acyclic-of_subset (λ _ _ m. Memᴰ.tail m) h) in
      elim (Bool-cases (reaches es y x)) [
        | inl back ↦
            absurd (
              h x y (Memᴰ.head refl)
                (Walk-map (λ _ _ m. Memᴰ.tail m) ((reaches_iff es y x).0 back)))
        | inr none_ ↦ ground (arith, rest)
      ],
)
