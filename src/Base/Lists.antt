-- ===== src/Base/Lists.antt =====
-- Lists measured and indexed by native numbers, under the library's names.
use Prim.Native.Nat.{ℕ, zero, suc, ◌+◌, ◌*◌}
use mathlib.Core.Path.{◌≡◌, refl, ap, ◌∙◌, subst}
use mathlib.Core.Logic.{◌↔◌, ◌⊎◌, inl, inr, ⊎_elim}
use mathlib.Core.List.{List, [], ◌∷◌, ◌++◌, map, Memᴰ, append_assoc}
use mathlib.Core.List.Memᴰ
use mathlib.Core.Option.{Option, none, some}
use native.Mathlib.Omega.{arith}

module _ {ℓ} {A : Type ℓ} where
  abbrev pub length : List A → ℕ
  length [] = 0
  length (x ∷ xs) = suc (length xs)

  abbrev pub get_elem? : List A → ℕ → Option A
  get_elem? [] i = none
  get_elem? (x ∷ xs) zero = some x
  get_elem? (x ∷ xs) (suc i) = get_elem? xs i

  abbrev pub replicate : ℕ → A → List A
  replicate zero a = []
  replicate (suc n) a = a ∷ replicate n a

  pub length-append : (xs ys : List A) → length (xs ++ ys) ≡ length xs + length ys
  length-append [] ys = omega arith
  length-append (x ∷ xs) ys = omega (arith, length-append xs ys)

  pub length-replicate : (n : ℕ) (a : A) → length (replicate n a) ≡ n
  length-replicate zero a = refl
  length-replicate (suc n) a = ap suc (length-replicate n a)

  pub Memᴰ-cons : (a x : A) (xs : List A) → Memᴰ a (x ∷ xs) ↔ ((a ≡ x) ⊎ Memᴰ a xs)
  Memᴰ-cons a x xs = (Memᴰ.cases_cons, ⊎_elim Memᴰ.head Memᴰ.tail)

  pub Memᴰ-append : (a : A) (xs ys : List A) → Memᴰ a (xs ++ ys) ↔ (Memᴰ a xs ⊎ Memᴰ a ys)
  Memᴰ-append a xs ys = (Memᴰ.append_cases xs, ⊎_elim (Memᴰ.append_left ys) (Memᴰ.append_right xs))

pub length-map {ℓ κ} :
    {A : Type ℓ} {B : Type κ} (f : A → B) (xs : List A) → length (map f xs) ≡ length xs
length-map f [] = refl
length-map f (x ∷ xs) = ap suc (length-map f xs)

module _ {ℓ κ} {A : Type ℓ} {B : Type κ} where
  -- What a loop over `xs` appends, in order.
  abbrev pub flat_map : (A → List B) → List A → List B
  flat_map f [] = []
  flat_map f (x ∷ xs) = f x ++ flat_map f xs

  pub Memᴰ-flat_map :
      (f : A → List B) (b : B) (xs : List A)
      → Memᴰ b (flat_map f xs) ↔ ((a : A) × Memᴰ a xs × Memᴰ b (f a))
  Memᴰ-flat_map f b [] = (λ m. absurd (Memᴰ.not-nil m), λ t. absurd (Memᴰ.not-nil t.1))
  Memᴰ-flat_map f b (x ∷ xs) = (
    λ m. elim ((Memᴰ-append b (f x) (flat_map f xs)).0 m) [
      | inl h ↦ (x, Memᴰ.head refl, h)
      | inr t ↦ let (a, ha, hb) = (Memᴰ-flat_map f b xs).0 t in (a, Memᴰ.tail ha, hb)
    ],
    λ (a, ha, hb). elim (Memᴰ.cases_cons ha) [
      | inl e ↦ Memᴰ.append_left (flat_map f xs) (subst (λ y. Memᴰ b (f y)) e hb)
      | inr t ↦ Memᴰ.append_right (f x) ((Memᴰ-flat_map f b xs).1 (a, t, hb))
    ],
  )

  pub flat_map-append :
      (f : A → List B) (xs ys : List A) → flat_map f (xs ++ ys) ≡ flat_map f xs ++ flat_map f ys
  flat_map-append f [] ys = refl
  flat_map-append f (x ∷ xs) ys = simp (flat_map-append f xs ys, append_assoc)

  -- A loop whose rounds append equally many items.
  pub length-flat_map :
      (f : A → List B) (k : ℕ) (xs : List A)
      → ((a : A) → length (f a) ≡ k)
      → length (flat_map f xs) ≡ k * length xs
  length-flat_map f k [] h = omega arith
  length-flat_map f k (x ∷ xs) h =
      omega (arith, length-append (f x) (flat_map f xs), h x, length-flat_map f k xs h)

pub Memᴰ-map {ℓ κ} :
    {A : Type ℓ} {B : Type κ} (f : A → B) (b : B) (xs : List A)
    → Memᴰ b (map f xs) ↔ ((a : A) × Memᴰ a xs × (b ≡ f a))
Memᴰ-map f b [] = (λ m. absurd (Memᴰ.not-nil m), λ t. absurd (Memᴰ.not-nil t.1))
Memᴰ-map f b (x ∷ xs) = (
  λ m. elim (Memᴰ.cases_cons m) [
    | inl e ↦ (x, Memᴰ.head refl, e)
    | inr t ↦ let (a, ma, e) = (Memᴰ-map f b xs).0 t in (a, Memᴰ.tail ma, e)
  ],
  λ (a, ma, e). elim (Memᴰ.cases_cons ma) [
    | inl same ↦ Memᴰ.head (e ∙ ap f same)
    | inr t ↦ Memᴰ.tail ((Memᴰ-map f b xs).1 (a, t, e))
  ],
)

pub List-cases {ℓ} :
    {A : Type ℓ} (xs : List A) → (xs ≡ []) ⊎ ((x : A) × (rest : List A) × (xs ≡ x ∷ rest))
List-cases [] = inl refl
List-cases (x ∷ xs) = inr (x, xs, refl)
