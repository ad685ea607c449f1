-- ===== src/Toposort/Tracks.antt =====
-- What the counts and the ready list say while nodes are released.
use rustworkx.Base.{
  ℕ, suc, ◌+◌, ◌-◌, ◌≡◌, ◌<◌, refl, ap, ◌∙◌, ◌⊎◌, inl, inr, true, ◌&&◌, Option, some, none, List,
  [], ◌∷◌, ◌++◌, Memᴰ,
}
use rustworkx.Base.{
  if◌then◌else◌, ◌==◌, ==_iff, count, elem, length, count-append, arith, Option-cases, Bool-cases,
  subst,
}
use mathlib.Core.Path.{fun_ext}
use rustworkx.Petgraph.View.{View}
use rustworkx.DiGraph.{ok}
use rustworkx.Toposort.{TopologicalSorter, put, release, release_all}

-- The fields that `release` leaves alone.
pub record SameRest (s s' : TopologicalSorter) : Type 0 where
  pub node2state : s'.node2state ≡ s.node2state
  pub num_passed_out : s'.num_passed_out ≡ s.num_passed_out
  pub num_finished : s'.num_finished ≡ s.num_finished
  pub in_dir : s'.in_dir ≡ s.in_dir
  pub out_dir : s'.out_dir ≡ s.out_dir

same_rest :
    (s : TopologicalSorter) (ready : List ℕ) (counts : ℕ → Option ℕ)
    → SameRest s (record s { ready_nodes = ready; predecessor_count = counts })
same_rest s ready counts = record {
  node2state = refl;
  num_passed_out = refl;
  num_finished = refl;
  in_dir = refl;
  out_dir = refl;
}

none_already :
    (x : ℕ) (s : TopologicalSorter)
    → s.predecessor_count x ≡ none
    → (v : ℕ) → s.predecessor_count v ≡ (if x == v then none else s.predecessor_count v)
none_already x s e v = elim (Bool-cases (x == v)) [
  | inl f ↦ let same : x ≡ v = (==_iff x v).0 f in ground (arith, ap s.predecessor_count same, e)
  | inr n ↦ rw n refl
]

module _ (dag : View) (passed : List ℕ) where
  abbrev pub in_degree : TopologicalSorter → ℕ → ℕ
  in_degree s v = length (dag.neighbors_directed v s.in_dir)

  -- With `rem v` edges into `v` still to come: a node is handed out or ready exactly if none is
  -- left, and then once; a count that is stored is the number left; where none is stored, all
  -- edges are left or none.
  pub record Tracks (rem : ℕ → ℕ) (s : TopologicalSorter) : Type 0 where
    pub handed :
        (v : ℕ)
        → count v (s.ready_nodes ++ passed)
          ≡ (if elem v dag.node_identifiers && rem v == 0 then 1 else 0)
    pub stored : (v k : ℕ) → s.predecessor_count v ≡ some k → (k ≡ rem v) × (0 < k)
    pub absent : (v : ℕ) → s.predecessor_count v ≡ none → (rem v ≡ 0) ⊎ (rem v ≡ in_degree s v)

  -- `rem` with one edge fewer into `x`.
  abbrev pub less : ℕ → (ℕ → ℕ) → ℕ → ℕ
  less x rem v = if v == x then rem v - 1 else rem v

  -- The last edge into `x` makes it ready.
  Tracks-last :
      (x : ℕ) (rem : ℕ → ℕ) (counts : ℕ → Option ℕ) (s : TopologicalSorter)
      → elem x dag.node_identifiers ≡ true
      → rem x ≡ 1
      → ((v : ℕ) → counts v ≡ (if x == v then none else s.predecessor_count v))
      → Tracks rem s
      → Tracks
          (less x rem)
          (record s { ready_nodes = s.ready_nodes ++ x ∷ []; predecessor_count = counts })
  Tracks-last x rem counts s there last cleared t = record {
    handed = λ v.
        let both : count v (s.ready_nodes ++ x ∷ [] ++ passed)
            ≡ count v (s.ready_nodes ++ passed) + count v (x ∷ []) =
          omega (
            arith,
            count-append v (s.ready_nodes ++ x ∷ []) passed,
            count-append v s.ready_nodes (x ∷ []),
            count-append v s.ready_nodes passed,
          ) in
        elim (Bool-cases (v == x)) [
          | inl e ↦
              let same : v ≡ x = (==_iff v x).0 e in
              ground (
                arith,
                both,
                t.handed v,
                ap rem same,
                there,
                last,
                ap (λ (w : ℕ). elem w dag.node_identifiers) same,
              )
          | inr n ↦ ground (arith, both, t.handed v)
        ];
    stored = λ v k e. ground (arith, cleared v, t.stored v k);
    absent = λ v e. elim (Bool-cases (v == x)) [
      | inl f ↦ let same : v ≡ x = (==_iff v x).0 f in ground (arith, ap rem same, last)
      | inr n ↦ ground (arith, cleared v, t.absent v)
    ];
  }

  -- Another edge into `x` lowers its count, or makes one.
  Tracks-more :
      (x k : ℕ) (rem : ℕ → ℕ) (s : TopologicalSorter)
      → rem x ≡ suc k
      → 0 < k
      → Tracks rem s
      → Tracks (less x rem) (record s { predecessor_count = put x (some k) s.predecessor_count })
  Tracks-more x k rem s left more t = record {
    handed = λ v. elim (Bool-cases (v == x)) [
      | inl e ↦ let same : v ≡ x = (==_iff v x).0 e in ground (arith, t.handed v, ap rem same)
      | inr n ↦ ground (arith, t.handed v)
    ];
    stored = λ v j e. elim (Bool-cases (v == x)) [
      | inl f ↦ let same : v ≡ x = (==_iff v x).0 f in ground (arith, ap rem same)
      | inr n ↦ ground (arith, t.stored v j)
    ];
    absent = λ v e. elim (Bool-cases (v == x)) [
      | inl f ↦ ground arith
      | inr n ↦ ground (arith, t.absent v)
    ];
  }

  pub release_lem :
      (x : ℕ) (rem : ℕ → ℕ) (s : TopologicalSorter)
      → elem x dag.node_identifiers ≡ true
      → 0 < rem x
      → Tracks rem s
      → (s' : TopologicalSorter) × (release dag x s ≡ (ok tt, s'))
        × SameRest s s'
        × Tracks (less x rem) s'
  unfolding release
  release_lem x rem s there some_left t = elim (Option-cases (s.predecessor_count x)) [
    | inl e ↦
        let all : rem x ≡ in_degree s x = ground (arith, t.absent x e) in
        elim (Bool-cases (rem x == 1)) [
          | inl one ↦
              let last : rem x ≡ 1 = (==_iff (rem x) 1).0 one in
              (
                record s { ready_nodes = s.ready_nodes ++ x ∷ [] },
                ground arith,
                same_rest s _ _,
                Tracks-last x rem s.predecessor_count s there last (none_already x s e) t,
              )
          | inr several ↦
              let k = in_degree s x - 1 in
              let left : rem x ≡ suc k = omega (arith, all, some_left) in
              (
                record s { predecessor_count = put x (some k) s.predecessor_count },
                ground arith,
                same_rest s _ _,
                Tracks-more x k rem s left (ground arith) t,
              )
        ]
    | inr (k, e) ↦
        let left = t.stored x k e in
        elim (Bool-cases (k == 1)) [
          | inl one ↦ (
            record s {
              ready_nodes = s.ready_nodes ++ x ∷ [];
              predecessor_count = put x none s.predecessor_count;
            },
            ground arith,
            same_rest s _ _,
            Tracks-last x rem (put x none s.predecessor_count) s there (ground arith) (λ v. refl) t,
          )
          | inr several ↦ (
            record s { predecessor_count = put x (some (k - 1)) s.predecessor_count },
            ground arith,
            same_rest s _ _,
            Tracks-more x (k - 1) rem s (omega (arith, left)) (ground arith) t,
          )
        ]
  ]

  -- Releasing `xs` leaves `rem` edges where there were `rem` and those of `xs`.
  pub release_all_lem :
      (xs : List ℕ) (rem all : ℕ → ℕ) (s : TopologicalSorter)
      → ((x : ℕ) → Memᴰ x xs → elem x dag.node_identifiers ≡ true)
      → ((v : ℕ) → all v ≡ rem v + count v xs)
      → Tracks all s
      → (s' : TopologicalSorter) × (release_all dag xs s ≡ (ok tt, s'))
        × SameRest s s'
        × Tracks rem s'
  unfolding release_all
  release_all_lem [] rem all s there e t =
      let same : all ≡ rem = fun_ext (λ v. omega (arith, e v)) in
      (s, refl, same_rest s _ _, subst (λ r. Tracks r s) same t)
  release_all_lem (x ∷ xs) rem all s there e t =
      let (s1, done, rest, t1) =
        release_lem x all s (there x (Memᴰ.head refl)) (ground (arith, e x)) t in
      let (s2, done2, rest2, t2) =
        release_all_lem xs rem (less x all) s1 (λ y m. there y (Memᴰ.tail m))
          (λ v. ground (arith, e v)) t1 in
      (
        s2,
        rw done done2,
        record {
          node2state = rest2.node2state ∙ rest.node2state;
          num_passed_out = rest2.num_passed_out ∙ rest.num_passed_out;
          num_finished = rest2.num_finished ∙ rest.num_finished;
          in_dir = rest2.in_dir ∙ rest.in_dir;
          out_dir = rest2.out_dir ∙ rest.out_dir;
        },
        t2,
      )
