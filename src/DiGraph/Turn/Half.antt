-- ===== src/DiGraph/Turn/Half.antt =====
-- A table of edges in which some edges are turned, as `reverse` leaves it after each round.
use rustworkx.Base.{
  ℕ, ◌≡◌, refl, sym, ap, ◌∙◌, ◌⊎◌, inl, inr, true, false, Option, some, none, List, ◌∷◌,
}
use rustworkx.Base.{if◌then◌else◌, ◌==◌, ==_iff, elem, Bool-cases, arith}
use rustworkx.Petgraph.Stable.{is_some}

==_sym : (a b : ℕ) → (a == b) ≡ (b == a)
==_sym a b = ground arith

abbrev pub Table : Type 0 → Type 0
Table O = ℕ → Option (ℕ × ℕ × O)

module _ {O : Type 0} where
  -- One edge is turned: its entry is cleared, and a free one is written.
  pub record Turned (look look' : Table O) (idx x y : ℕ) (w : O) : Type 0 where
    pub slot : ℕ
    pub was : look idx ≡ some (x, y, w)
    pub free : (slot ≡ idx) ⊎ (look slot ≡ none)
    pub table :
        (k : ℕ)
        → look' k ≡ (if slot == k then some (y, x, w) else if idx == k then none else look k)

  module _ (old : Table O) where
    -- The edges in `rest` are still to be turned, and the others are turned: each edge with the old
    -- index `i` now has the index `to i`, and each with the index `k` had the index `from k`.
    pub record Half (rest : List ℕ) (look : Table O) : Type 0 where
      pub todo : (i : ℕ) → elem i rest ≡ true → (look i ≡ old i) × (is_some (old i) ≡ true)
      pub to : ℕ → ℕ
      pub from : ℕ → ℕ
      pub kept :
          (i a b : ℕ) (w : O)
          → elem i rest ≡ false
          → old i ≡ some (a, b, w)
          → (elem (to i) rest ≡ false) × (look (to i) ≡ some (b, a, w)) × (from (to i) ≡ i)
      pub came :
          (k a b : ℕ) (w : O)
          → elem k rest ≡ false
          → look k ≡ some (a, b, w)
          → (elem (from k) rest ≡ false) × (old (from k) ≡ some (b, a, w)) × (to (from k) ≡ k)

    module _ (idx x y : ℕ) (w : O) (rest : List ℕ) (look look' : Table O)
        (once : elem idx rest ≡ false) (half : Half (idx ∷ rest) look)
        (t : Turned look look' idx x y w) where
      not_idx : (i : ℕ) → elem i rest ≡ true → (idx == i) ≡ false
      not_idx i m = elim (Bool-cases (idx == i)) [
        | inl e ↦ cc (ap (λ j. elem j rest) ((==_iff idx i).0 e), once, m)
        | inr n ↦ n
      ]

      not_slot : (i : ℕ) → elem i rest ≡ true → (t.slot == i) ≡ false
      not_slot i m = elim (Bool-cases (t.slot == i)) [
        | inr n ↦ n
        | inl e ↦
            let at_slot : t.slot ≡ i = (==_iff t.slot i).0 e in
            elim t.free [
              | inl f ↦
                  let same : idx ≡ i = sym f ∙ at_slot in cc ((==_iff idx i).1 same, not_idx i m)
              | inr f ↦
                  let (kept, there) = half.todo i (ground (arith, m)) in
                  let empty : old i ≡ none = sym kept ∙ ap look (sym at_slot) ∙ f in
                  cc (empty, there)
            ]
      ]

      slot_out : elem t.slot rest ≡ false
      slot_out = elim (Bool-cases (elem t.slot rest)) [
        | inl m ↦ cc (not_slot t.slot m, (==_iff t.slot t.slot).1 refl)
        | inr n ↦ n
      ]

      off_slot :
          (k : ℕ) {a b : ℕ} {v : O}
          → look k ≡ some (a, b, v)
          → (idx == k) ≡ false
          → (t.slot == k) ≡ false
      off_slot k at not_it = elim (Bool-cases (t.slot == k)) [
        | inr n ↦ n
        | inl e ↦
            let at_slot : t.slot ≡ k = (==_iff t.slot k).0 e in
            elim t.free [
              | inl f ↦ let same : idx ≡ k = sym f ∙ at_slot in cc ((==_iff idx k).1 same, not_it)
              | inr f ↦ let empty : look k ≡ none = ap look (sym at_slot) ∙ f in cc (empty, at)
            ]
      ]

      was_old : old idx ≡ some (x, y, w)
      was_old = sym (half.todo idx (ground arith)).0 ∙ t.was

      pub Half-Turned : Half rest look'
      Half-Turned = record {
        todo = λ i m.
            let (same, there) = half.todo i (ground (arith, m)) in
            (t.table i ∙ rw (not_slot i m, not_idx i m) same, there);
        to = λ i. if i == idx then t.slot else half.to i;
        from = λ k. if k == t.slot then idx else half.from k;
        kept = λ i a b v out at. elim (Bool-cases (i == idx)) [
          | inl this ↦
              let same : i ≡ idx = (==_iff i idx).0 this in
              let is : some (x, y, w) ≡ some (a, b, v) = sym was_old ∙ sym (ap old same) ∙ at in
              let at_slot : (t.slot == t.slot) ≡ true = (==_iff t.slot t.slot).1 refl in
              (
                rw this slot_out,
                rw this (t.table t.slot ∙ rw at_slot (cc is)),
                rw (this, at_slot) (sym same),
              )
          | inr other ↦
              let (out', at', back) = half.kept i a b v (ground (arith, out, other)) at in
              let not_it : (idx == half.to i) ≡ false = ground (arith, out') in
              let off = off_slot (half.to i) at' not_it in
              (
                rw other (ground (arith, out')),
                rw other (t.table (half.to i) ∙ rw (off, not_it) at'),
                rw (other, ==_sym (half.to i) t.slot ∙ off) back,
              )
        ];
        came = λ k a b v out at. elim (Bool-cases (t.slot == k)) [
          | inl here_ ↦
              let written : some (y, x, w) ≡ some (a, b, v) =
                sym (t.table k ∙ rw here_ refl) ∙ at in
              let there : (k == t.slot) ≡ true = ==_sym k t.slot ∙ here_ in
              (
                rw there once,
                rw there (cc (written, was_old)),
                rw (there, (==_iff idx idx).1 refl) ((==_iff t.slot k).0 here_),
              )
          | inr other ↦ elim (Bool-cases (idx == k)) [
            | inl gone ↦
                let cleared : look' k ≡ none = t.table k ∙ rw (other, gone) refl in cc (cleared, at)
            | inr stays ↦
                let unchanged : look' k ≡ look k = t.table k ∙ rw (other, stays) refl in
                let there : (k == t.slot) ≡ false = ==_sym k t.slot ∙ other in
                let (out', at', back) =
                  half.came k a b v (ground (arith, out, stays)) (sym unchanged ∙ at) in
                let not_it : (half.from k == idx) ≡ false = ground (arith, out') in
                (rw there (ground (arith, out')), rw there at', rw (there, not_it) back)
          ]
        ];
      }
