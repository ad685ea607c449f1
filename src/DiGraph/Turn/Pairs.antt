-- ===== src/DiGraph/Turn/Pairs.antt =====
-- The entries of the `HashMap` in `make_symmetric`.
use rustworkx.Base.{
  ℕ, ◌≡◌, refl, sym, ap, ◌↔◌, ◌⊎◌, inl, inr, true, ◌&&◌, ◌||◌, List, [], ◌∷◌, Memᴰ,
}
use rustworkx.Base.{◌==◌, ==_iff, Bool-cases, arith}
use mathlib.Core.List.Memᴰ
use rustworkx.Petgraph.Stable.{Stable, EdgeReference}
use rustworkx.DiGraph.Turn.{Entry, insert_entry, contains_key, collect_entries}

pub contains_key-Memᴰ :
    (a b : ℕ) (es : List Entry) → (contains_key a b es ≡ true) ↔ ((i : ℕ) × Memᴰ (a, b, i) es)
contains_key-Memᴰ a b [] = (λ h. cc, λ (i, m). absurd (Memᴰ.not-nil m))
contains_key-Memᴰ a b ((x, y, j) ∷ es) = (
  λ h. elim (Bool-cases (x == a && y == b)) [
    | inl t ↦
        let ex : x ≡ a = (==_iff x a).0 (ground arith) in
        let ey : y ≡ b = (==_iff y b).0 (ground arith) in (j, Memᴰ.head (cc (ex, ey)))
    | inr f ↦ let (i, m) = (contains_key-Memᴰ a b es).0 (ground (arith, h, f)) in (i, Memᴰ.tail m)
  ],
  λ (i, m). elim (Memᴰ.cases_cons m) [
    | inl e ↦
        let ea : a ≡ x = ap (λ t. t.0) e in
        let eb : b ≡ y = ap (λ t. t.1) e in
        ground (arith, (==_iff x a).1 (sym ea), (==_iff y b).1 (sym eb))
    | inr k ↦ let rest = (contains_key-Memᴰ a b es).1 (i, k) in ground (arith, rest)
  ],
)

-- An entry is new or was there.
mem-insert_entry :
    (e t : Entry) (es : List Entry) → Memᴰ t (insert_entry e es) → (t ≡ e) ⊎ Memᴰ t es
unfolding insert_entry
mem-insert_entry e t [] m = inl (Memᴰ.eq_of_singleton m)
mem-insert_entry (a, b, i) t ((x, y, j) ∷ es) m = elim (Bool-cases (x == a && y == b)) [
  | inl h ↦ elim (Memᴰ.cases_cons (rw h at m)) [ inl e ↦ inl e | inr k ↦ inr (Memᴰ.tail k) ]
  | inr h ↦ elim (Memᴰ.cases_cons (rw h at m)) [
    | inl e ↦ inr (Memᴰ.head e)
    | inr k ↦ elim (mem-insert_entry (a, b, i) t es k) [ inl e ↦ inl e | inr o ↦ inr (Memᴰ.tail o) ]
  ]
]

keys-insert_entry :
    (a b i p q : ℕ) (es : List Entry)
    → contains_key p q (insert_entry (a, b, i) es) ≡ (a == p && b == q) || contains_key p q es
unfolding insert_entry
keys-insert_entry a b i p q [] = refl
keys-insert_entry a b i p q ((x, y, j) ∷ es) = ground (arith, keys-insert_entry a b i p q es)

module _ {O : Type 0} (st : Stable O O) where
  open st use {edge, edge_references}

  -- The entries are edges, and every pair that is joined has one.
  pub mem-collect_entries :
      (rs : List (EdgeReference O)) (es : List Entry) (a b i : ℕ)
      → Memᴰ (a, b, i) (collect_entries st rs es)
      → Memᴰ (a, b, i) es
        ⊎ ((r : EdgeReference O) × Memᴰ r rs × ◌≡◌ {A = Entry} (a, b, i) (r.source, r.target, r.id))
  unfolding collect_entries
  mem-collect_entries [] es a b i m = inl m
  mem-collect_entries (r ∷ rs) es a b i m =
      elim (mem-collect_entries rs (insert_entry (r.source, r.target, r.id) es) a b i m) [
        | inr (x, k, e) ↦ inr (x, Memᴰ.tail k, e)
        | inl k ↦ elim (mem-insert_entry (r.source, r.target, r.id) (a, b, i) es k) [
          | inl e ↦ inr (r, Memᴰ.head refl, e)
          | inr old ↦ inl old
        ]
      ]

  pub keys-collect_entries :
      (rs : List (EdgeReference O)) (es : List Entry) (r : EdgeReference O)
      → Memᴰ r rs ⊎ (contains_key r.source r.target es ≡ true)
      → contains_key r.source r.target (collect_entries st rs es) ≡ true
  unfolding collect_entries
  keys-collect_entries [] es r h = elim h [ inl m ↦ absurd (Memᴰ.not-nil m) | inr e ↦ e ]
  keys-collect_entries (x ∷ rs) es r h =
      let grown = keys-insert_entry x.source x.target x.id r.source r.target es in
      keys-collect_entries rs (insert_entry (x.source, x.target, x.id) es) r (elim h [
        | inr e ↦ inr (ground (arith, grown, e))
        | inl m ↦ elim (Memᴰ.cases_cons m) [
          | inr k ↦ inl k
          | inl e ↦
              let es_ : x.source ≡ r.source = ap (λ (t : EdgeReference O). t.source) (sym e) in
              let et : x.target ≡ r.target = ap (λ (t : EdgeReference O). t.target) (sym e) in
              inr (
                ground
                  (arith, grown, (==_iff x.source r.source).1 es_, (==_iff x.target r.target).1 et))
        ]
      ])
