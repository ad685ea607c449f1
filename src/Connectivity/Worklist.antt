-- ===== src/Connectivity/Worklist.antt =====
-- The worklist of `bfs_undirected`: what a round does to its variables, and that the fuel lasts.
use rustworkx.Base.{
  ℕ, ◌+◌, ◌≡◌, ◌≤◌, ◌<◌, refl, ap, ◌∙◌, inl, inr, Bool, true, false, not, ◌&&◌, ◌||◌, List, [], ◌∷◌,
  ◌++◌, Memᴰ,
}
use rustworkx.Base.{
  ◌==◌, ==_iff, count, count_if, elem, elem_iff, elem-count, length, length-append, arith,
  Bool-cases,
}
use rustworkx.Connectivity.{Search, scan, insert, mark}

pub elem-append : (v : ℕ) (xs ys : List ℕ) → elem v (xs ++ ys) ≡ elem v xs || elem v ys
elem-append v [] ys = refl
elem-append v (x ∷ xs) ys = ground (arith, elem-append v xs ys)

-- A node that is marked leaves those that are not.
unmark :
    (x : ℕ) (map : ℕ → Bool) (xs : List ℕ)
    → map x ≡ false
    → count_if (λ v. not (map v)) xs ≡ count_if (λ v. not (mark x map v)) xs + count x xs
unmark x map [] h = omega arith
unmark x map (v ∷ xs) h = elim (Bool-cases (v == x)) [
  | inl e ↦ let same : v ≡ x = (==_iff v x).0 e in ground (arith, unmark x map xs h, ap map same, h)
  | inr n ↦ ground (arith, unmark x map xs h)
]

elem-insert : (v x : ℕ) (xs : List ℕ) → elem v (insert x xs) ≡ elem v xs || v == x
elem-insert v x xs = elim (Bool-cases (v == x)) [
  | inl e ↦ let same : v ≡ x = (==_iff v x).0 e in ground (arith, ap (λ w. elem w xs) same)
  | inr n ↦ ground arith
]

known : (x v : ℕ) (map : ℕ → Bool) → map x ≡ true → v == x ≡ true → map v ≡ true
known x v map h e = ap map ((==_iff v x).0 e) ∙ h

fresh : (x v : ℕ) (map : ℕ → Bool) → map x ≡ false → v == x ≡ true → map v ≡ false
fresh x v map h e = ap map ((==_iff v x).0 e) ∙ h

-- The state after a new node.
abbrev found : ℕ → Search → Search
found x s = record {
  component = insert x s.component;
  stack = s.stack ++ x ∷ [];
  discovered = mark x s.discovered;
}

scan-known :
    (x : ℕ) (xs : List ℕ) (s : Search) → s.discovered x ≡ true → scan (x ∷ xs) s ≡ scan xs s
unfolding scan
scan-known x xs s h = rw h refl

scan-new :
    (x : ℕ) (xs : List ℕ) (s : Search)
    → s.discovered x ≡ false
    → scan (x ∷ xs) s ≡ scan xs (found x s)
unfolding scan
scan-new x xs s h = rw h refl

-- What the inner loop over `xs` does.
pub record Scanned (xs : List ℕ) (s t : Search) : Type 0 where
  pub discovered : (v : ℕ) → t.discovered v ≡ s.discovered v || elem v xs
  pub component :
      (v : ℕ) → elem v t.component ≡ elem v s.component || (elem v xs && not (s.discovered v))
  pub stack : (v : ℕ) → elem v t.stack ≡ elem v s.stack || (elem v xs && not (s.discovered v))
  pub once : ((v : ℕ) → count v s.component ≤ 1) → (v : ℕ) → count v t.component ≤ 1

pub scan-Scanned : (xs : List ℕ) (s : Search) → Scanned xs s (scan xs s)
unfolding scan
scan-Scanned [] s = record {
  discovered = λ v. ground arith;
  component = λ v. ground arith;
  stack = λ v. ground arith;
  once = λ h. h;
}
scan-Scanned (x ∷ xs) s = elim (Bool-cases (s.discovered x)) [
  | inl old ↦
      let rest = scan-Scanned xs s in
      rw (scan-known x xs s old) (record {
        discovered = λ v. ground (arith, rest.discovered v, known x v s.discovered old);
        component = λ v. ground (arith, rest.component v, known x v s.discovered old);
        stack = λ v. ground (arith, rest.stack v, known x v s.discovered old);
        once = rest.once;
      })
  | inr new ↦
      let rest = scan-Scanned xs (found x s) in
      rw (scan-new x xs s new) (record {
        discovered = λ v. ground (arith, rest.discovered v);
        component = λ v.
            ground
              (arith, rest.component v, elem-insert v x s.component, fresh x v s.discovered new);
        stack = λ v.
            ground
              (arith, rest.stack v, elem-append v s.stack (x ∷ []), fresh x v s.discovered new);
        once = λ h. rest.once (λ v. ground (arith, h v, elem-count v s.component));
      })
]

pos_count : (x : ℕ) (xs : List ℕ) → elem x xs ≡ true → 0 < count x xs
pos_count x xs h = ground (arith, elem-count x xs)

-- With the nodes that are not discovered and those in the queue, a round takes one.
pub scan-work :
    (nodes xs : List ℕ) (s : Search)
    → ((v : ℕ) → count v nodes ≤ 1)
    → ((v : ℕ) → Memᴰ v xs → Memᴰ v nodes)
    → count_if (λ v. not ((scan xs s).discovered v)) nodes + length (scan xs s).stack
      ≡ count_if (λ v. not (s.discovered v)) nodes + length s.stack
unfolding scan
scan-work nodes [] s once within = refl
scan-work nodes (x ∷ xs) s once within = elim (Bool-cases (s.discovered x)) [
  | inl old ↦ rw (scan-known x xs s old) (scan-work nodes xs s once (λ v m. within v (Memᴰ.tail m)))
  | inr new ↦
      let there = (elem_iff x nodes).1 (within x (Memᴰ.head refl)) in
      rw (scan-new x xs s new) (
        omega (
          arith,
          scan-work nodes xs (found x s) once (λ v m. within v (Memᴰ.tail m)),
          unmark x s.discovered nodes new,
          length-append s.stack (x ∷ []),
          once x,
          pos_count x nodes there,
        ))
]
