-- ===== src/Connectivity/Hits.antt =====
-- The memberships of nodes in sets, counted by nodes and by sets.
use rustworkx.Base.{
  ℕ, ◌+◌, ◌≡◌, ◌≤◌, ◌<◌, refl, sym, ap, ◌∙◌, inl, inr, Bool, true, List, [], ◌∷◌, Memᴰ,
}
use rustworkx.Base.{==_iff, count, count_if, elem, length, arith, Bool-cases}
use mathlib.Core.List.Memᴰ

-- The members of `vs` in the sets of `cs`, each as often as it stands in them.
abbrev pub hits : List ℕ → List (List ℕ) → ℕ
hits vs [] = 0
hits vs (c ∷ cs) = count_if (λ v. elem v c) vs + hits vs cs

hits-nil : (cs : List (List ℕ)) → hits [] cs ≡ 0
hits-nil [] = refl
hits-nil (c ∷ cs) = omega (arith, hits-nil cs)

hits-cons :
    (v : ℕ) (vs : List ℕ) (cs : List (List ℕ))
    → hits (v ∷ vs) cs ≡ count_if (elem v) cs + hits vs cs
hits-cons v vs [] = omega arith
hits-cons v vs (c ∷ cs) = omega (arith, hits-cons v vs cs)

-- Counted by members.
pub hits-members :
    (vs : List ℕ) (cs : List (List ℕ))
    → ((v : ℕ) → elem v vs ≡ true → count_if (elem v) cs ≡ 1)
    → hits vs cs ≡ length vs
hits-members [] cs h = hits-nil cs
hits-members (v ∷ vs) cs h =
    omega
      (arith, hits-cons v vs cs, h v (ground arith), hits-members vs cs (λ w m. h w (ground arith)))

-- Counted by sets.
pub hits-least :
    (vs : List ℕ) (cs : List (List ℕ))
    → ((c : List ℕ) → Memᴰ c cs → 0 < count_if (λ v. elem v c) vs)
    → length cs ≤ hits vs cs
hits-least vs [] h = omega arith
hits-least vs (c ∷ cs) h =
    omega (arith, h c (Memᴰ.head refl), hits-least vs cs (λ d m. h d (Memᴰ.tail m)))

pub hits-most :
    (vs : List ℕ) (cs : List (List ℕ))
    → ((c : List ℕ) → Memᴰ c cs → count_if (λ v. elem v c) vs ≤ 1)
    → hits vs cs ≤ length cs
hits-most vs [] h = omega arith
hits-most vs (c ∷ cs) h =
    omega (arith, h c (Memᴰ.head refl), hits-most vs cs (λ d m. h d (Memᴰ.tail m)))

pub count_if-member :
    (p : ℕ → Bool) (a : ℕ) (vs : List ℕ) → Memᴰ a vs → p a ≡ true → 0 < count_if p vs
count_if-member p a [] m h = absurd (Memᴰ.not-nil m)
count_if-member p a (v ∷ vs) m h = elim (Memᴰ.cases_cons m) [
  | inl e ↦ let here_ : p v ≡ true = ap p (sym e) ∙ h in ground arith
  | inr k ↦ ground (arith, count_if-member p a vs k h)
]

-- A test that at most one member passes, which stands there once.
pub count_if-single :
    (p : ℕ → Bool) (a : ℕ) (vs : List ℕ)
    → ((v : ℕ) → Memᴰ v vs → p v ≡ true → v ≡ a)
    → count_if p vs ≤ count a vs
count_if-single p a [] h = omega arith
count_if-single p a (v ∷ vs) h = elim (Bool-cases (p v)) [
  | inl t ↦
      let same : v ≡ a = h v (Memᴰ.head refl) t in
      ground (arith, (==_iff a v).1 (sym same), count_if-single p a vs (λ w m. h w (Memᴰ.tail m)))
  | inr f ↦ ground (arith, count_if-single p a vs (λ w m. h w (Memᴰ.tail m)))
]
