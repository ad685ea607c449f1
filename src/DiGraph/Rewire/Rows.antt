-- ===== src/DiGraph/Rewire/Rows.antt =====
-- The edges that `remove_node_retain_edges` collects.
use rustworkx.Base.{
  ℕ, ◌≡◌, refl, sym, ap, ◌∙◌, ◌↔◌, inl, inr, Bool, true, false, Option, List, [], ◌∷◌, ◌++◌, Memᴰ,
  Memᴰ-append,
}
use rustworkx.Base.{if◌then◌else◌}
use mathlib.Core.List.Memᴰ
use rustworkx.Petgraph.Stable.{EdgeReference}
use rustworkx.DiGraph.{Outcome, ok}
use rustworkx.DiGraph.Rewire.{check_condition, retain_row, retain_rows}

module _ {O : Type 0} (condition : Option (O → O → Outcome Bool)) (use_outgoing : Bool) where
  -- The condition raises nothing.
  abbrev pub IsTotal : Type 0
  IsTotal = (v w : O) → (keep : Bool) × (check_condition condition v w ≡ ok keep)

  abbrev Edges : Type 0
  Edges = List (ℕ × ℕ × O)

  abbrev chosen : EdgeReference O → EdgeReference O → ℕ × ℕ × O
  chosen x y = (x.source, y.target, if use_outgoing then y.weight else x.weight)

  -- `t` comes of `x` and an edge of `ys` that the condition accepts together.
  abbrev InRow : ℕ × ℕ × O → EdgeReference O → List (EdgeReference O) → Type 0
  InRow t x ys =
      (y : EdgeReference O) × Memᴰ y ys
      × (check_condition condition x.weight y.weight ≡ ok true)
      × (t ≡ chosen x y)

  row_lem :
      IsTotal
      → (x : EdgeReference O) (ys : List (EdgeReference O))
      → (l : Edges) × (retain_row condition use_outgoing x ys ≡ ok l)
        × ((t : ℕ × ℕ × O) → Memᴰ t l ↔ InRow t x ys)
  unfolding retain_row
  row_lem total x [] =
      ([], refl, λ t. (λ m. absurd (Memᴰ.not-nil m), λ r. absurd (Memᴰ.not-nil r.1)))
  row_lem total x (y ∷ ys) =
      let (l, done, mem) = row_lem total x ys in
      let (keep, checked) = total x.weight y.weight in
      (
        if keep then chosen x y ∷ l else l,
        rw (checked, done) refl,
        λ t. (
          λ m. extend t l mem keep checked m,
          λ (z, mz, ok_z, e). elim (Memᴰ.cases_cons mz) [
            | inl same ↦ first t l keep z same checked ok_z e
            | inr later ↦ later_ t l keep ((mem t).1 (z, later, ok_z, e))
          ],
        ),
      )
    where
      extend :
          (t : ℕ × ℕ × O) (l : Edges)
          → ((t : ℕ × ℕ × O) → Memᴰ t l ↔ InRow t x ys)
          → (keep : Bool) → check_condition condition x.weight y.weight ≡ ok keep
          → Memᴰ t (if keep then chosen x y ∷ l else l)
          → InRow t x (y ∷ ys)
      extend t l mem false checked m =
          let (z, mz, ok_z, e) = (mem t).0 m in (z, Memᴰ.tail mz, ok_z, e)
      extend t l mem true checked m = elim (Memᴰ.cases_cons m) [
        | inl e ↦ (y, Memᴰ.head refl, checked, e)
        | inr later ↦ let (z, mz, ok_z, e) = (mem t).0 later in (z, Memᴰ.tail mz, ok_z, e)
      ]

      later_ :
          (t : ℕ × ℕ × O) (l : Edges) (keep : Bool)
          → Memᴰ t l
          → Memᴰ t (if keep then chosen x y ∷ l else l)
      later_ t l true m = Memᴰ.tail m
      later_ t l false m = m

      first :
          (t : ℕ × ℕ × O) (l : Edges) (keep : Bool) (z : EdgeReference O)
          → z ≡ y
          → check_condition condition x.weight y.weight ≡ ok keep
          → check_condition condition x.weight z.weight ≡ ok true
          → t ≡ chosen x z
          → Memᴰ t (if keep then chosen x y ∷ l else l)
      first t l true z same checked ok_z e = Memᴰ.head (e ∙ ap (chosen x) same)
      first t l false z same checked ok_z e = absurd (
          let again : check_condition condition x.weight z.weight
              ≡ check_condition condition x.weight y.weight =
            ap (λ (r : EdgeReference O). check_condition condition x.weight r.weight) same in
          let wrong : ◌≡◌ {A = Outcome Bool} (ok true) (ok false) = sym ok_z ∙ again ∙ checked in
          cc wrong)

  abbrev pub InRows : ℕ × ℕ × O → List (EdgeReference O) → List (EdgeReference O) → Type 0
  InRows t xs ys = (x : EdgeReference O) × Memᴰ x xs × InRow t x ys

  pub retain_rows_lem :
      IsTotal
      → (xs ys : List (EdgeReference O))
      → (l : Edges) × (retain_rows condition use_outgoing xs ys ≡ ok l)
        × ((t : ℕ × ℕ × O) → Memᴰ t l ↔ InRows t xs ys)
  unfolding retain_rows
  retain_rows_lem total [] ys =
      ([], refl, λ t. (λ m. absurd (Memᴰ.not-nil m), λ r. absurd (Memᴰ.not-nil r.1)))
  retain_rows_lem total (x ∷ xs) ys =
      let (row, done, mem) = row_lem total x ys in
      let (rows, done', mem') = retain_rows_lem total xs ys in
      (
        row ++ rows,
        rw (done, done') refl,
        λ t. (
          λ m. elim ((Memᴰ-append t row rows).0 m) [
            | inl a ↦ (x, Memᴰ.head refl, (mem t).0 a)
            | inr b ↦ let (z, mz, r) = (mem' t).0 b in (z, Memᴰ.tail mz, r)
          ],
          λ (z, mz, (y, my, ok_y, e)). elim (Memᴰ.cases_cons mz) [
            | inl same ↦ (Memᴰ-append t row rows).1 (
                inl (
                  (mem t).1 (
                    y,
                    my,
                    sym (
                          ap (λ (r : EdgeReference O). check_condition condition r.weight y.weight)
                            same)
                        ∙ ok_y,
                    e ∙ ap (λ (r : EdgeReference O). chosen r y) same,
                  )))
            | inr later ↦ (Memᴰ-append t row rows).1 (inr ((mem' t).1 (z, later, (y, my, ok_y, e))))
          ],
        ),
      )
