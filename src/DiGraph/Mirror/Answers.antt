-- ===== src/DiGraph/Mirror/Answers.antt =====
-- What an answer of `is_symmetric` says.
use rustworkx.Base.{
  ℕ, ◌≡◌, refl, sym, ap, ◌∙◌, inl, inr, Bool, true, false, not, ◌&&◌, ◌||◌, List, [], ◌∷◌, Memᴰ,
  if◌then◌else◌, ◌==◌, ==_iff, Bool-cases, arith,
}
use mathlib.Core.List.Memᴰ
use rustworkx.Petgraph.Stable.{Stable, EdgeReference}
use rustworkx.DiGraph.{PyDiGraph, nonempty}
use rustworkx.DiGraph.Table.{Joins}
use rustworkx.DiGraph.Mirror.{has_pair, drop_pair, cancel, cancel_all, is_symmetric}

has_pair-drop_pair :
    (p q a b : ℕ) (es : List (ℕ × ℕ))
    → has_pair p q (drop_pair a b es) ≡ has_pair p q es && not (a == p && b == q)
has_pair-drop_pair p q a b [] = refl
has_pair-drop_pair p q a b ((x, y) ∷ es) = ground (arith, has_pair-drop_pair p q a b es)

has_pair-cancel :
    (p q s t : ℕ) (es : List (ℕ × ℕ))
    → has_pair p q (cancel s t es) ≡ (
        if has_pair t s es
        then has_pair p q es && not (t == p && s == q)
        else has_pair p q es || (s == p && t == q))
has_pair-cancel p q s t es = elim (Bool-cases (has_pair t s es)) [
  | inl h ↦ rw h (has_pair-drop_pair p q t s es)
  | inr h ↦ rw h (elim (Bool-cases (has_pair s t es)) [
    | inr n ↦ rw n (ground arith)
    | inl y ↦ rw y (elim (Bool-cases (s == p && t == q)) [
      | inr n ↦ ground arith
      | inl e ↦
          let es_ : s ≡ p = (==_iff s p).0 (ground arith) in
          let et : t ≡ q = (==_iff t q).0 (ground arith) in
          let both : has_pair s t es ≡ has_pair p q es =
            ap (λ x. has_pair x t es) es_ ∙ ap (λ x. has_pair p x es) et in
          ground (arith, both, y)
    ])
  ])
]

no_pairs : (es : List (ℕ × ℕ)) → nonempty es ≡ false → (p q : ℕ) → has_pair p q es ≡ false
no_pairs [] h p q = refl
no_pairs (x ∷ es) h p q = cc

module _ {O : Type 0} (st : Stable O O) where
  open st use {edge, edge_references}

  -- An edge of the list from `a` to `b`.
  abbrev among : ℕ → ℕ → List (EdgeReference O) → Bool
  among a b [] = false
  among a b (r ∷ rs) = r.source == a && r.target == b || among a b rs

  among-Memᴰ :
      (a b : ℕ) (rs : List (EdgeReference O))
      → among a b rs ≡ true
      → (r : EdgeReference O) × Memᴰ r rs × (r.source ≡ a) × (r.target ≡ b)
  among-Memᴰ a b [] h = cc
  among-Memᴰ a b (x ∷ rs) h = elim (Bool-cases (x.source == a && x.target == b)) [
    | inl t ↦ (
      x,
      Memᴰ.head refl,
      (==_iff x.source a).0 (ground arith),
      (==_iff x.target b).0 (ground arith),
    )
    | inr f ↦
        let (r, m, es, et) = among-Memᴰ a b rs (ground (arith, h, f)) in (r, Memᴰ.tail m, es, et)
  ]

  Memᴰ-among :
      (r : EdgeReference O) (rs : List (EdgeReference O))
      → Memᴰ r rs
      → among r.source r.target rs ≡ true
  Memᴰ-among r [] m = absurd (Memᴰ.not-nil m)
  Memᴰ-among r (x ∷ rs) m = elim (Memᴰ.cases_cons m) [
    | inl e ↦
        let es : x.source ≡ r.source = ap (λ (t : EdgeReference O). t.source) (sym e) in
        let et : x.target ≡ r.target = ap (λ (t : EdgeReference O). t.target) (sym e) in
        ground (arith, (==_iff x.source r.source).1 es, (==_iff x.target r.target).1 et)
    | inr k ↦ let rest = Memᴰ-among r rs k in ground (arith, rest)
  ]

  -- A pair whose reverse does not come stays in the set.
  unanswered :
      (p q : ℕ) (rs : List (EdgeReference O)) (es : List (ℕ × ℕ))
      → among q p rs ≡ false
      → has_pair q p es ≡ false
      → (has_pair p q es || among p q rs) ≡ true
      → has_pair p q (cancel_all st rs es) ≡ true
  unfolding cancel_all
  unanswered p q [] es absent apart here_ = ground (arith, here_)
  unanswered p q (r ∷ rs) es absent apart here_ =
      let one = has_pair-cancel p q r.source r.target es in
      let back = has_pair-cancel q p r.source r.target es in
      let read : r.source == p && r.target == q ≡ true → has_pair r.target r.source es ≡ false =
        λ t.
          let es_ : r.source ≡ p = (==_iff r.source p).0 (ground arith) in
          let et : r.target ≡ q = (==_iff r.target q).0 (ground arith) in
          ap (λ x. has_pair x r.source es) et ∙ ap (λ x. has_pair q x es) es_ ∙ apart in
      unanswered p q rs (cancel r.source r.target es) (ground (arith, absent))
        (ground (arith, absent, apart, back)) (ground (arith, absent, here_, one, read))

  -- If `is_symmetric` answers `true`, then for every edge there is one in the other direction.
  pub is_symmetric-Joins :
      (s : PyDiGraph st) → is_symmetric st s ≡ true → (a b : ℕ) → Joins st s a b → Joins st s b a
  unfolding is_symmetric
  is_symmetric-Joins s answer a b (i, w, at) =
      let refs = edge_references s.graph in
      let r : EdgeReference O = record { id = i; source = a; target = b; weight = w } in
      let there : among a b refs ≡ true =
        Memᴰ-among r refs ((st.mem-edge_references s.graph r).1 at) in
      elim (Bool-cases (among b a refs)) [
        | inl back ↦
            let (x, m, es, et) = among-Memᴰ b a refs back in
            let found = (st.mem-edge_references s.graph x).0 m in
            (x.id, x.weight, found ∙ cc (es, et))
        | inr absent ↦
            let stays = unanswered a b refs [] absent refl there in
            let gone = no_pairs (cancel_all st refs []) (ground (arith, answer)) a b in
            cc (stays, gone)
      ]

  -- An odd number of edges of the list join `a` to itself.
  abbrev pub odd_loops : ℕ → List (EdgeReference O) → Bool
  odd_loops a [] = false
  odd_loops a (r ∷ rs) =
      let rest = odd_loops a rs in if r.source == a && r.target == a then not rest else rest

  loops-cancel :
      (a : ℕ) (rs : List (EdgeReference O)) (es : List (ℕ × ℕ))
      → has_pair a a (cancel_all st rs es)
        ≡ (if odd_loops a rs then not (has_pair a a es) else has_pair a a es)
  unfolding cancel_all
  loops-cancel a [] es = refl
  loops-cancel a (r ∷ rs) es =
      let one = has_pair-cancel a a r.source r.target es in
      let later = loops-cancel a rs (cancel r.source r.target es) in
      elim (Bool-cases (r.source == a && r.target == a)) [
        | inl t ↦
            let es_ : r.source ≡ a = (==_iff r.source a).0 (ground arith) in
            let et : r.target ≡ a = (==_iff r.target a).0 (ground arith) in
            let turned : has_pair r.target r.source es ≡ has_pair a a es =
              ap (λ x. has_pair x r.source es) et ∙ ap (λ x. has_pair a x es) es_ in
            ground (arith, one, later, turned, t)
        | inr f ↦ ground (arith, one, later, f)
      ]

  -- `is_symmetric` answers `false` for every graph in which an odd number of edges joins some node
  -- to itself, although such an edge is its own reverse.
  pub is_symmetric_self_loops :
      (s : PyDiGraph st) (a : ℕ)
      → odd_loops a (edge_references s.graph) ≡ true
      → is_symmetric st s ≡ false
  unfolding is_symmetric
  is_symmetric_self_loops s a odd =
      let stays = loops-cancel a (edge_references s.graph) [] in
      elim (Bool-cases (nonempty (cancel_all st (edge_references s.graph) []))) [
        | inl some_ ↦ ground (arith, some_)
        | inr nothing ↦
            let gone = no_pairs (cancel_all st (edge_references s.graph) []) nothing a a in
            absurd (ground (arith, gone, stays, odd))
      ]
