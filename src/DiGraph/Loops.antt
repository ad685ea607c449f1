-- ===== src/DiGraph/Loops.antt =====
-- Invariants of the state through chains and loops of methods, whatever they return.
use rustworkx.Base.{List, [], ◌∷◌, Memᴰ, refl}
use rustworkx.Petgraph.Stable.{Stable}
use rustworkx.DiGraph.{PyDiGraph, M, Outcome, ok, err, after, for_each, collect}

module _ {O : Type 0} {st : Stable O O} (P : PyDiGraph st → Type 0) where
  pub after_inv :
      {A B : Type 0} (r : Outcome A × PyDiGraph st) (f : A → M st B)
      → P r.1
      → ((a : A) (s : PyDiGraph st) → P s → P (f a s).1)
      → P (after r f).1
  after_inv (ok a, s) f h keep = keep a s h
  after_inv (err e, s) f h keep = h

  pub for_each_inv :
      {A : Type 0} (xs : List A) (body : A → M st (Unit {0}))
      → ((a : A) → Memᴰ a xs → (s : PyDiGraph st) → P s → P (body a s).1)
      → (s : PyDiGraph st) → P s
      → P (for_each xs body s).1
  unfolding for_each
  for_each_inv [] body keep s h = h
  for_each_inv (a ∷ xs) body keep s h =
      after_inv (body a s) (λ _. for_each xs body) (keep a (Memᴰ.head refl) s h)
        (λ _. for_each_inv xs body (λ b m. keep b (Memᴰ.tail m)))

  pub collect_inv :
      {A B : Type 0} (xs : List A) (body : A → M st B)
      → ((a : A) → Memᴰ a xs → (s : PyDiGraph st) → P s → P (body a s).1)
      → (s : PyDiGraph st) → P s
      → P (collect xs body s).1
  unfolding collect
  collect_inv [] body keep s h = h
  collect_inv (a ∷ xs) body keep s h =
      after_inv (body a s) _ (keep a (Memᴰ.head refl) s h) λ b s1 h1.
        after_inv (collect xs body s1) _ (collect_inv xs body (λ x m. keep x (Memᴰ.tail m)) s1 h1)
          (λ _ _ h2. h2)
