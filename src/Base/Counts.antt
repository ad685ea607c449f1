-- ===== src/Base/Counts.antt =====
-- How often a number stands in a list, and in how many places a test holds.
use Prim.Native.Nat.{ℕ, suc, ◌+◌, ◌≤◌, ◌<◌}
use mathlib.Core.Path.{◌≡◌, refl, ap, ◌∙◌}
use mathlib.Core.Logic.{◌↔◌, inl, inr}
use mathlib.Core.Bool.{Bool, true, false, not, ◌||◌}
use mathlib.Core.List.{List, [], ◌∷◌, ◌++◌, Memᴰ}
use mathlib.Core.List.Memᴰ
use native.Mathlib.Omega.{arith}
use rustworkx.Base.Tests.{◌==◌, ==_iff, if◌then◌else◌, Bool-cases}
use rustworkx.Base.Lists.{length, Memᴰ-cons}

abbrev pub count : ℕ → List ℕ → ℕ
count v [] = 0
count v (w ∷ rest) = (if v == w then 1 else 0) + count v rest

abbrev pub elem : ℕ → List ℕ → Bool
elem a [] = false
elem a (x ∷ xs) = a == x || elem a xs

abbrev pub count_if {ℓ} : {A : Type ℓ} → (A → Bool) → List A → ℕ
count_if p [] = 0
count_if p (x ∷ xs) = (if p x then 1 else 0) + count_if p xs

-- The library's `filter` takes decisions.
abbrev pub filter_if {ℓ} : {A : Type ℓ} → (A → Bool) → List A → List A
filter_if p [] = []
filter_if p (x ∷ xs) = let rest = filter_if p xs in if p x then x ∷ rest else rest

pub count-append :
    (v : ℕ) (front back : List ℕ) → count v (front ++ back) ≡ count v front + count v back
count-append v [] back = omega arith
count-append v (w ∷ front) back = let tail = count-append v front back in ground (arith, tail)

pub elem_iff : (a : ℕ) (xs : List ℕ) → (elem a xs ≡ true) ↔ Memᴰ a xs
elem_iff a [] = (λ e. cc, λ m. absurd (Memᴰ.not-nil m))
elem_iff a (x ∷ xs) = ground (arith, elem_iff a xs, Memᴰ-cons a x xs)

pub elem-count : (a : ℕ) (xs : List ℕ) → elem a xs ≡ not (count a xs == 0)
elem-count a [] = refl
elem-count a (x ∷ xs) = ground (arith, elem-count a xs)

pub count-filter_if :
    (p : ℕ → Bool) (a : ℕ) (xs : List ℕ)
    → count a (filter_if p xs) ≡ (if p a then count a xs else 0)
count-filter_if p a [] = ground arith
count-filter_if p a (x ∷ xs) = elim (Bool-cases (a == x)) [
  | inl e ↦ let same : a ≡ x = (==_iff a x).0 e in ground (arith, count-filter_if p a xs, ap p same)
  | inr n ↦ ground (arith, count-filter_if p a xs)
]

pub mem-filter_if {ℓ} :
    {A : Type ℓ} (p : A → Bool) (a : A) (xs : List A)
    → Memᴰ a (filter_if p xs) ↔ (Memᴰ a xs × (p a ≡ true))
mem-filter_if p a [] = (λ m. absurd (Memᴰ.not-nil m), λ m. absurd (Memᴰ.not-nil m.0))
mem-filter_if p a (x ∷ xs) = elim (Bool-cases (p x)) [
  | inl t ↦ rw t (
    λ m. elim (Memᴰ.cases_cons m) [
      | inl e ↦ (Memᴰ.head e, ap p e ∙ t)
      | inr k ↦ let (k', h) = (mem-filter_if p a xs).0 k in (Memᴰ.tail k', h)
    ],
    λ (m, h). elim (Memᴰ.cases_cons m) [
      | inl e ↦ Memᴰ.head e
      | inr k ↦ Memᴰ.tail ((mem-filter_if p a xs).1 (k, h))
    ],
  )
  | inr f ↦ rw f (
    λ m. let (k, h) = (mem-filter_if p a xs).0 m in (Memᴰ.tail k, h),
    λ (m, h). elim (Memᴰ.cases_cons m) [
      | inl e ↦ absurd (let wrong : p a ≡ false = ap p e ∙ f in cc (wrong, h))
      | inr k ↦ (mem-filter_if p a xs).1 (k, h)
    ],
  )
]

pub count_if-zero {ℓ} :
    {A : Type ℓ} (p : A → Bool) (a : A) (xs : List A) → count_if p xs ≡ 0 → Memᴰ a xs → p a ≡ false
count_if-zero p a [] h m = absurd (Memᴰ.not-nil m)
count_if-zero p a (x ∷ xs) h m = elim (Memᴰ.cases_cons m) [
  | inl e ↦ ap p e ∙ ground arith
  | inr t ↦ count_if-zero p a xs (omega arith) t
]

pub count_if-pos {ℓ} :
    {A : Type ℓ} (p : A → Bool) (xs : List A)
    → 0 < count_if p xs
    → (a : A) × Memᴰ a xs × (p a ≡ true)
count_if-pos p [] h = absurd (omega arith)
count_if-pos p (x ∷ xs) h = elim (Bool-cases (p x)) [
  | inl t ↦ (x, Memᴰ.head refl, t)
  | inr f ↦ let (a, m, e) = count_if-pos p xs (ground arith) in (a, Memᴰ.tail m, e)
]

pub count_if-le-length {ℓ} : {A : Type ℓ} (p : A → Bool) (xs : List A) → count_if p xs ≤ length xs
count_if-le-length p [] = omega arith
count_if-le-length p (x ∷ xs) = ground (arith, count_if-le-length p xs)

-- A list with one occurrence of `a` fewer, if there is one.
abbrev pub erase : ℕ → List ℕ → List ℕ
erase a [] = []
erase a (x ∷ xs) = let rest = erase a xs in if a == x then xs else x ∷ rest

pub length-erase : (a : ℕ) (xs : List ℕ) → elem a xs ≡ true → length xs ≡ suc (length (erase a xs))
length-erase a [] h = cc
length-erase a (x ∷ xs) h = ground (arith, length-erase a xs)

pub count-erase :
    (v a : ℕ) (xs : List ℕ)
    → elem a xs ≡ true
    → count v xs ≡ (if v == a then 1 else 0) + count v (erase a xs)
count-erase v a [] h = cc
count-erase v a (x ∷ xs) h = ground (arith, count-erase v a xs)

-- A list that holds all of another, as often, and is no longer, holds no more.
pub count-le_of_length :
    (xs ys : List ℕ)
    → ((v : ℕ) → count v xs ≤ count v ys)
    → length ys ≤ length xs
    → (v : ℕ) → count v ys ≤ count v xs
count-le_of_length [] [] h l v = omega arith
count-le_of_length [] (y ∷ ys) h l v = absurd (omega arith)
count-le_of_length (x ∷ xs) ys h l v =
    let there : elem x ys ≡ true = ground (arith, elem-count x ys, h x) in
    let rest =
      count-le_of_length xs (erase x ys) (λ w. omega (arith, h w, count-erase w x ys there))
        (omega (arith, length-erase x ys there)) v in
    omega (arith, rest, count-erase v x ys there)

-- A list that holds no more of anything is no longer.
pub length-le_of_count :
    (xs ys : List ℕ) → ((v : ℕ) → count v xs ≤ count v ys) → length xs ≤ length ys
length-le_of_count [] ys h = omega arith
length-le_of_count (x ∷ xs) ys h =
    let there : elem x ys ≡ true = ground (arith, elem-count x ys, h x) in
    omega (
      arith,
      length-le_of_count xs (erase x ys) (λ v. omega (arith, h v, count-erase v x ys there)),
      length-erase x ys there,
    )
