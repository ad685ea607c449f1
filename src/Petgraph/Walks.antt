-- ===== src/Petgraph/Walks.antt =====
-- Walks along a relation on node indices, cycles, and what one more edge does to them.
use rustworkx.Base.{ℕ, ◌≡◌, ◌≢◌, ◌⊎◌, inl, inr, refl, sym, subst}

-- The walks to `t`, by their source.
pub data Walk (R : ℕ → ℕ → Type 0) (t : ℕ) : ℕ → Type 0 where
  here : Walk R t t
  step : {a b : ℕ} → R a b → Walk R t b → Walk R t a

-- No edge lies on a closed walk.
abbrev pub Acyclic : (ℕ → ℕ → Type 0) → Type 0
Acyclic R = (a b : ℕ) → R a b → ¬ Walk R a b

pub Walk-map :
    {R S : ℕ → ℕ → Type 0} {t a : ℕ} → ((x y : ℕ) → R x y → S x y) → Walk R t a → Walk S t a
Walk-map f here = here
Walk-map f (step {a} {b} r w) = step (f a b r) (Walk-map f w)

pub Walk-append : {R : ℕ → ℕ → Type 0} {t b a : ℕ} → Walk R b a → Walk R t b → Walk R t a
Walk-append here v = v
Walk-append (step r w) v = step r (Walk-append w v)

-- Fewer edges have no more cycles.
pub Acyclic-of_subset : {R S : ℕ → ℕ → Type 0} → ((x y : ℕ) → R x y → S x y) → Acyclic S → Acyclic R
Acyclic-of_subset f acyclic a b r w = acyclic a b (f a b r) (Walk-map f w)

-- A walk, from its end.
pub Walk-flip : {R : ℕ → ℕ → Type 0} {t s : ℕ} → Walk (λ a b. R b a) t s → Walk R s t
Walk-flip here = here
Walk-flip (step r w) = Walk-append (Walk-flip w) (step r here)

pub Acyclic-flip : {R : ℕ → ℕ → Type 0} → Acyclic R → Acyclic (λ a b. R b a)
Acyclic-flip acyclic a b r w = acyclic b a r (Walk-flip w)

-- `S` has the edges of `R` and at most one more, from `p` to `c`.
abbrev pub Within : (ℕ → ℕ → Type 0) → ℕ → ℕ → (ℕ → ℕ → Type 0) → Type 0
Within R p c S = (a b : ℕ) → S a b → R a b ⊎ (a ≡ p) × (b ≡ c)

-- A walk with the new edge reaches `p` without it, and goes on from `c` without it.
pub Walk-split :
    {R S : ℕ → ℕ → Type 0} {p c t s : ℕ}
    → Within R p c S
    → Walk S t s
    → Walk R t s ⊎ Walk R p s × Walk R t c
Walk-split within here = inl here
Walk-split {R} {p} {c} {t} within (step {a} {b} e w) = elim (within a b e) [
  | inl r ↦ elim (Walk-split within w) [
    | inl v ↦ inl (step r v)
    | inr (to, from) ↦ inr (step r to, from)
  ]
  | inr (ep, ec) ↦ elim (Walk-split within w) [
    | inl v ↦ inr (subst (Walk R p) (sym ep) here, subst (Walk R t) ec v)
    | inr (to, from) ↦ inr (subst (Walk R p) (sym ep) here, from)
  ]
]

-- An edge from `p` to `c` closes no cycle if `p` is not reached from `c`.
pub Acyclic-insert :
    {R S : ℕ → ℕ → Type 0} {p c : ℕ} → Within R p c S → Acyclic R → ¬ Walk R p c → Acyclic S
Acyclic-insert {R} {S} {p} {c} within acyclic apart a b e w = elim (within a b e) [
  | inl r ↦ elim (Walk-split within w) [
    | inl v ↦ acyclic a b r v
    | inr (to, from) ↦ apart (Walk-append from (step r to))
  ]
  | inr (ep, ec) ↦ elim (Walk-split within w) [
    | inl v ↦ apart (subst (λ x. Walk R x c) ep (subst (Walk R a) ec v))
    | inr (to, from) ↦ apart (subst (Walk R p) ec to)
  ]
]

-- A walk that ends elsewhere has a first edge and a last edge.
pub Walk-first : {R : ℕ → ℕ → Type 0} {t s : ℕ} → s ≢ t → Walk R t s → (b : ℕ) × R s b
Walk-first ne here = absurd (ne refl)
Walk-first ne (step {a} {b} r w) = (b, r)

Walk-end : {R : ℕ → ℕ → Type 0} {t s : ℕ} → Walk R t s → (s ≡ t) ⊎ ((a : ℕ) × R a t)
Walk-end here = inl refl
Walk-end {R} {t} (step {a} {b} r w) = elim (Walk-end w) [
  | inl e ↦ inr (a, subst (R a) e r)
  | inr l ↦ inr l
]

pub Walk-last : {R : ℕ → ℕ → Type 0} {t s : ℕ} → s ≢ t → Walk R t s → (a : ℕ) × R a t
Walk-last ne w = elim (Walk-end w) [ inl e ↦ absurd (ne e) | inr l ↦ l ]
