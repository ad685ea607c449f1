-- ===== src/Petgraph/Finite/Scan.antt =====
-- Searches through the entries of a table below a bound.
use rustworkx.Base.{
  ℕ, zero, suc, ◌+◌, ◌≤◌, ◌<◌, ◌≡◌, refl, sym, ap, ◌∙◌, ◌↔◌, ◌⊎◌, inl, inr, ⊎_elim, Bool, true,
  false, ◌&&◌, Option, some, none, List, [], ◌∷◌, Memᴰ,
}
use rustworkx.Base.{◌==◌, ==_iff, if◌then◌else◌, arith, Bool-cases, Memᴰ-cons, eq_or_lt}
use mathlib.Core.List.Memᴰ
use rustworkx.Base
use rustworkx.Base.{ltb}
use rustworkx.Petgraph.Stable.{Direction, EdgeReference, is_some, starts_at}

module _ {E : Type 0} (look : ℕ → Option (ℕ × ℕ × E)) where
  abbrev joins? : ℕ → ℕ → Option (ℕ × ℕ × E) → Bool
  joins? a b none = false
  joins? a b (some (x, y, w)) = x == a && y == b

  -- The index of an edge from `a` to `b` below `n`.
  unfoldable pub first : ℕ → ℕ → ℕ → Option ℕ
  first zero a b = none
  first (suc n) a b = if joins? a b (look n) then some n else first n a b

  joins?-some :
      (a b : ℕ) (o : Option (ℕ × ℕ × E)) → joins? a b o ≡ true → (w : E) × (o ≡ some (a, b, w))
  joins?-some a b none h = cc
  joins?-some a b (some (x, y, w)) h = (w, ground arith)

  joins?_self : (a b : ℕ) (w : E) → joins? a b (some (a, b, w)) ≡ true
  joins?_self a b w = ground arith

  pub first-some : (n a b i : ℕ) → first n a b ≡ some i → (w : E) × (look i ≡ some (a, b, w))
  unfolding first
  first-some zero a b i h = cc
  first-some (suc n) a b i h = elim (Bool-cases (joins? a b (look n))) [
    | inl t ↦
        let (w, at) = joins?-some a b (look n) t in
        let here : n ≡ i = ground arith in (w, rw (← here) at)
    | inr f ↦ first-some n a b i (ground arith)
  ]

  pub first-none : (n a b i : ℕ) (w : E) → first n a b ≡ none → look i ≡ some (a, b, w) → n ≤ i
  unfolding first
  first-none zero a b i w h at = omega arith
  first-none (suc n) a b i w h at = elim (Bool-cases (joins? a b (look n))) [
    | inl t ↦ ground arith
    | inr f ↦ elim (eq_or_lt n i (first-none n a b i w (ground arith) at)) [
      | inl e ↦
          let hit : joins? a b (look n) ≡ true = rw (← e, at) (joins?_self a b w) in cc (f, hit)
      | inr l ↦ l
    ]
  ]

  -- The references of the edges below `n`.
  abbrev push : ℕ → Option (ℕ × ℕ × E) → List (EdgeReference E) → List (EdgeReference E)
  push n none rs = rs
  push n (some (a, b, w)) rs = record { id = n; source = a; target = b; weight = w } ∷ rs

  unfoldable pub entries : ℕ → List (EdgeReference E)
  entries zero = []
  entries (suc n) = push n (look n) (entries n)

  mem-push :
      (n : ℕ) (o : Option (ℕ × ℕ × E)) (rs : List (EdgeReference E)) (r : EdgeReference E)
      → Memᴰ r (push n o rs) ↔ ((r.id ≡ n) × (o ≡ some (r.source, r.target, r.weight)) ⊎ Memᴰ r rs)
  mem-push n none rs r = (inr, ⊎_elim (λ h. cc) (λ m. m))
  mem-push n (some (a, b, w)) rs r =
      ground (arith, Memᴰ-cons r (record { id = n; source = a; target = b; weight = w }) rs)

  pub mem-entries :
      (n : ℕ) (r : EdgeReference E)
      → Memᴰ r (entries n) ↔ ((r.id < n) × (look r.id ≡ some (r.source, r.target, r.weight)))
  unfolding entries
  mem-entries zero r = (λ m. absurd (Memᴰ.not-nil m), λ h. absurd (omega arith))
  mem-entries (suc n) r = (
    λ m. elim ((mem-push n (look n) (entries n) r).0 m) [
      | inl (e, at) ↦ (omega arith, rw e at)
      | inr t ↦ let (l, at) = (mem-entries n r).0 t in (omega arith, at)
    ],
    λ (l, at). (mem-push n (look n) (entries n) r).1 (elim (eq_or_lt r.id n (omega arith)) [
      | inl e ↦ inl (sym e, rw e at)
      | inr k ↦ inr ((mem-entries n r).1 (k, at))
    ]),
  )

  -- The references that start at `a`, in the given direction.
  unfoldable pub select : ℕ → Direction → List (EdgeReference E) → List (EdgeReference E)
  select a d [] = []
  select a d (r ∷ rs) = if starts_at d r == a then r ∷ select a d rs else select a d rs

  pub mem-select :
      (a : ℕ) (d : Direction) (rs : List (EdgeReference E)) (r : EdgeReference E)
      → Memᴰ r (select a d rs) ↔ ((starts_at d r ≡ a) × Memᴰ r rs)
  unfolding select
  mem-select a d [] r = (λ m. absurd (Memᴰ.not-nil m), λ h. h.1)
  mem-select a d (x ∷ rs) r = elim (Bool-cases (starts_at d x == a)) [
    | inl t ↦ rw t (
      λ m. elim (Memᴰ.cases_cons m) [
        | inl e ↦ (rw e ((==_iff (starts_at d x) a).0 t), Memᴰ.head e)
        | inr k ↦ let (s, l) = (mem-select a d rs r).0 k in (s, Memᴰ.tail l)
      ],
      λ (s, m). elim (Memᴰ.cases_cons m) [
        | inl e ↦ Memᴰ.head e
        | inr k ↦ Memᴰ.tail ((mem-select a d rs r).1 (s, k))
      ],
    )
    | inr f ↦ rw f (
      λ m. let (s, l) = (mem-select a d rs r).0 m in (s, Memᴰ.tail l),
      λ (s, m). elim (Memᴰ.cases_cons m) [
        | inl e ↦ cc (f, (==_iff (starts_at d x) a).1 (ap (starts_at d) (sym e) ∙ s))
        | inr k ↦ (mem-select a d rs r).1 (s, k)
      ],
    )
  ]

  unfoldable pub pairs : List (EdgeReference E) → List (ℕ × ℕ)
  pairs [] = []
  pairs (r ∷ rs) = (r.source, r.target) ∷ pairs rs

  pub mem-pairs :
      (rs : List (EdgeReference E)) (a b : ℕ)
      → Memᴰ (a, b) (pairs rs)
        ↔ ((r : EdgeReference E) × Memᴰ r rs × (r.source ≡ a) × (r.target ≡ b))
  unfolding pairs
  mem-pairs [] a b = (λ m. absurd (Memᴰ.not-nil m), λ h. absurd (Memᴰ.not-nil h.1))
  mem-pairs (x ∷ rs) a b = (
    λ m. elim (Memᴰ.cases_cons m) [
      | inl e ↦ (x, Memᴰ.head refl, cc e, cc e)
      | inr k ↦ let (r, l, s, t) = (mem-pairs rs a b).0 k in (r, Memᴰ.tail l, s, t)
    ],
    λ (r, m, s, t). elim (Memᴰ.cases_cons m) [
      | inl e ↦ Memᴰ.head (cc (e, s, t))
      | inr k ↦ Memᴰ.tail ((mem-pairs rs a b).1 (r, k, s, t))
    ],
  )

  unfoldable pub indices : List (EdgeReference E) → List ℕ
  indices [] = []
  indices (r ∷ rs) = r.id ∷ indices rs

  pub mem-indices :
      (rs : List (EdgeReference E)) (i : ℕ)
      → Memᴰ i (indices rs) ↔ ((r : EdgeReference E) × Memᴰ r rs × (r.id ≡ i))
  unfolding indices
  mem-indices [] i = (λ m. absurd (Memᴰ.not-nil m), λ h. absurd (Memᴰ.not-nil h.1))
  mem-indices (x ∷ rs) i = (
    λ m. elim (Memᴰ.cases_cons m) [
      | inl e ↦ (x, Memᴰ.head refl, sym e)
      | inr k ↦ let (r, l, s) = (mem-indices rs i).0 k in (r, Memᴰ.tail l, s)
    ],
    λ (r, m, s). elim (Memᴰ.cases_cons m) [
      | inl e ↦ Memᴰ.head (cc (e, s))
      | inr k ↦ Memᴰ.tail ((mem-indices rs i).1 (r, k, s))
    ],
  )

  indices-push :
      (n i : ℕ) (o : Option (ℕ × ℕ × E)) (rs : List (EdgeReference E))
      → Base.count i (indices (push n o rs)) ≤ Base.count i (indices rs) + (if i == n then 1 else 0)
  unfolding indices
  indices-push n i none rs = omega arith
  indices-push n i (some (a, b, w)) rs = omega arith

  pub indices-once : (n i : ℕ) → Base.count i (indices (entries n)) ≤ (if ltb i n then 1 else 0)
  unfolding indices entries
  indices-once zero i = omega arith
  indices-once (suc n) i = ground (arith, indices-once n i, indices-push n i (look n) (entries n))

-- The entries below `n` that are there.
unfoldable pub count : {A : Type 0} → ℕ → (ℕ → Option A) → ℕ
count zero look = 0
count (suc n) look = (if is_some (look n) then 1 else 0) + count n look

pub count-beyond :
    {A : Type 0} (n k : ℕ) (v : Option A) (look : ℕ → Option A)
    → n ≤ k
    → count n (λ i. if k == i then v else look i) ≡ count n look
unfolding count
count-beyond zero k v look h = refl
count-beyond (suc n) k v look h =
    let other : (k == n) ≡ false = ground arith in
    rw other (
      ap (λ (t : ℕ). (if is_some (look n) then 1 else 0) + t)
        (count-beyond n k v look (omega arith)))
