-- ===== src/Toposort/Run.antt =====
-- The calls on a sorter of all nodes that checks its arguments, and what they keep.
use rustworkx.Base.{
  ℕ, ◌+◌, ◌≡◌, ◌≤◌, refl, sym, ap, ◌∙◌, inl, inr, Bool, true, false, not, Option, some, none, List,
  [], ◌∷◌, ◌++◌,
}
use rustworkx.Base.{
  if◌then◌else◌, ◌==◌, ==_iff, count, count_if, elem, elem-count, length, arith, Bool-cases,
  count-filter_if, append-nil,
}
use rustworkx.Petgraph.Stable.{Direction, outgoing, incoming}
use rustworkx.Petgraph.View.{View, opposite}
use rustworkx.DiGraph.{ok, err, PyError, nonempty}
use rustworkx.Toposort.{
  TopologicalSorter, NodeState, ready, done, put, new, get_ready, mark_ready, done_single, sources,
}
use rustworkx.Toposort.Tracks.{Tracks}

count_nonempty : (xs : List ℕ) → not (nonempty xs) ≡ (length xs == 0)
count_nonempty [] = refl
count_nonempty (x ∷ xs) = ground arith

undone-nil : (xs : List ℕ) → count_if (λ u. not (elem u [])) xs ≡ length xs
undone-nil [] = refl
undone-nil (x ∷ xs) = omega (arith, undone-nil xs)

pub undone-cons :
    (n : ℕ) (finished xs : List ℕ)
    → elem n finished ≡ false
    → count_if (λ u. not (elem u finished)) xs
      ≡ count_if (λ u. not (elem u (n ∷ finished))) xs + count n xs
undone-cons n finished [] h = omega arith
undone-cons n finished (x ∷ xs) h = elim (Bool-cases (x == n)) [
  | inl e ↦
      let same : x ≡ n = (==_iff x n).0 e in
      ground (arith, undone-cons n finished xs h, ap (λ w. elem w finished) same, h)
  | inr d ↦ ground (arith, undone-cons n finished xs h)
]

pub mark_ready_lem :
    (xs : List ℕ) (m : ℕ → Option NodeState) (v : ℕ)
    → mark_ready xs m v ≡ (if elem v xs then some ready else m v)
unfolding mark_ready
mark_ready_lem [] m v = refl
mark_ready_lem (x ∷ xs) m v = ground (arith, mark_ready_lem xs (put x (some ready) m) v)

-- Where the nodes stand that come before a node in a sort: at the other end of an edge into it, and
-- in a reverse sort at the other end of an edge out of it.
abbrev pub before : Bool → Direction
before true = outgoing
before false = incoming

module _ (dag : View) where
  -- The edges into `v` from nodes that are not in `finished`.
  abbrev pub undone : Direction → List ℕ → ℕ → ℕ
  undone dir finished v = count_if (λ u. not (elem u finished)) (dag.neighbors_directed v dir)

  -- A life of a sorter that was made with this `reverse`: the nodes that `get_ready` has returned so far, and those marked done, the
  -- last one first.
  pub data Run (reverse : Bool) : TopologicalSorter → List ℕ → List ℕ → Type 0 where
    start :
        (dag_check_cycle check_cycle : Bool) {s : TopologicalSorter}
        → new dag dag_check_cycle check_cycle reverse none true ≡ ok s
        → Run reverse s [] []
    gets :
        {s : TopologicalSorter} {passed finished : List ℕ}
        → Run reverse s passed finished
        → Run reverse (get_ready s).1 (passed ++ (get_ready s).0) finished
    finishes :
        {s s' : TopologicalSorter} {passed finished : List ℕ}
        → Run reverse s passed finished
        → (node : ℕ) → done_single dag node s ≡ (ok tt, s')
        → Run reverse s' passed (node ∷ finished)
    fails :
        {s s' : TopologicalSorter} {passed finished : List ℕ}
        → Run reverse s passed finished
        → (node : ℕ) (e : PyError) → done_single dag node s ≡ (err e, s')
        → Run reverse s' passed finished

  pub record Inv (dir : Direction) (s : TopologicalSorter) (passed finished : List ℕ) : Type 0 where
    pub in_dir : s.in_dir ≡ dir
    pub out_dir : s.out_dir ≡ opposite dir
    pub tracks : Tracks dag passed (undone dir finished) s
    pub table : ℕ → Option NodeState
    pub node2state : s.node2state ≡ some table
    pub states :
        (v : ℕ)
        → table v
          ≡ (if elem v finished then some done else if elem v passed then some ready else none)
    pub passed_out : s.num_passed_out ≡ length passed
    pub num_finished : s.num_finished ≡ length finished
    pub within : (v : ℕ) → count v finished ≤ count v passed

  pub sources-Tracks :
      (dir : Direction) (s : TopologicalSorter)
      → s.in_dir ≡ dir
      → s.ready_nodes ≡ sources dag dir
      → s.predecessor_count ≡ (λ _. none)
      → Tracks dag [] (undone dir []) s
  sources-Tracks dir s ed er ec =
      let free = λ (v : ℕ). not (nonempty (dag.neighbors_directed v dir)) in
      record {
        handed = λ v.
            let ins = dag.neighbors_directed v dir in
            let once = dag.once v in
            rw (er, append-nil (sources dag dir), undone-nil ins)
              (ground (
                arith,
                count-filter_if free v dag.node_identifiers,
                count_nonempty ins,
                elem-count v dag.node_identifiers,
                once,
              ));
        stored = λ v k e. let never : none ≡ some k = sym (ap (λ f. f v) ec) ∙ e in cc never;
        absent = λ v e. inr (undone-nil (dag.neighbors_directed v dir) ∙ rw ed refl);
      }
