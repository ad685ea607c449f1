-- ===== src/Toposort/Progress.antt =====
-- What a user of the sorter relies on: the order, and that all nodes come.
use rustworkx.Base.{
  ℕ, zero, suc, ◌≡◌, ◌<◌, ◌≤◌, refl, sym, ap, subst, ◌↔◌, ◌⊎◌, inl, inr, Bool, true, false, not,
  ◌&&◌, List, [], ◌∷◌, ◌++◌, Memᴰ,
}
use rustworkx.Base.{
  ◌==◌, ==_iff, count, count_if-zero, count_if-pos, count-le_of_length, elem, elem_iff, elem-count,
  erase, length, length-erase, count-erase, count-append, arith, Bool-cases,
}
use rustworkx.Petgraph.Walks.{Walk, here, step, Acyclic, Acyclic-of_subset, Acyclic-flip}
use rustworkx.Petgraph.Stable.{Direction, outgoing, incoming}
use rustworkx.Petgraph.View.{View}
use rustworkx.DiGraph.{ok, err, value_error, nonempty}
use rustworkx.Toposort.{TopologicalSorter, is_active, get_ready, done_single}
use rustworkx.Toposort.Run.{Run, before, undone}
use rustworkx.Toposort.Keeps.{Run-Inv, marks, refuses, done_single-Marks}

module _ (dag : View) {reverse : Bool} {s : TopologicalSorter} {passed finished : List ℕ}
    (run : Run dag reverse s passed finished) where
  -- On a sorter of all nodes that checks its arguments, a node that `get_ready` returns is in the
  -- graph, was not returned before, and all nodes with an edge into it are marked done; if the
  -- sorter was made with `reverse`, all nodes that it has an edge to are marked done instead.
  pub get_ready-IsOrdered :
      (v : ℕ)
      → Memᴰ v (get_ready s).0
      → (elem v dag.node_identifiers ≡ true)
        × (elem v passed ≡ false)
        × ((u : ℕ) → Memᴰ u (dag.neighbors_directed v (before reverse)) → elem u finished ≡ true)
  unfolding get_ready
  get_ready-IsOrdered v m =
      let inv = Run-Inv dag run in
      let there = (elem_iff v s.ready_nodes).1 m in
      let sum = inv.tracks.handed v in
      let split = count-append v s.ready_nodes passed in
      let some_here : 0 < count v s.ready_nodes = ground (arith, elem-count v s.ready_nodes) in
      let free : undone dag (before reverse) finished v ≡ 0 = ground (arith, sum, split) in
      (
        ground (arith, sum, split),
        ground (arith, sum, split, elem-count v passed),
        λ u k. ground (
          arith,
          count_if-zero (λ w. not (elem w finished)) u (dag.neighbors_directed v (before reverse))
              free k,
        ),
      )

  -- On a sorter of all nodes that checks its arguments `done` accepts a node exactly if it was
  -- handed out and is not marked done; for any other number it raises a `ValueError` and changes
  -- nothing.
  pub done_single_lem :
      (n : ℕ)
      → (((elem n passed && not (elem n finished)) ≡ true)
          ↔ ((s' : TopologicalSorter) × (done_single dag n s ≡ (ok tt, s'))))
        × (((elem n passed && not (elem n finished)) ≡ false)
            ↔ (done_single dag n s ≡ (err value_error, s)))
  done_single_lem n =
      elim (done_single-Marks dag (before reverse) s passed finished n (Run-Inv dag run)) [
        | marks handed fresh s' e inv ↦
            ((λ _. (s', e), λ _. ground arith), (λ h. ground arith, λ h. cc (e, h)))
        | refuses why e ↦ ((λ h. ground arith, λ (s', h). cc (e, h)), (λ _. e, λ _. ground arith))
      ]

no_items : (xs : List ℕ) → nonempty xs ≡ false → xs ≡ []
no_items [] h = refl
no_items (x ∷ xs) h = cc

elem-count_zero : (w : ℕ) (xs : List ℕ) → elem w xs ≡ false → count w xs ≡ 0
elem-count_zero w xs h = ground (arith, elem-count w xs)

module _ (dag : View) where
  -- The edges in the direction of the sort.
  abbrev Before : Direction → ℕ → ℕ → Type 0
  Before dir u v = Memᴰ u (dag.neighbors_directed v dir)

  Before-Acyclic : (dir : Direction) → dag.toposort_is_ok ≡ true → Acyclic (Before dir)
  Before-Acyclic outgoing h = Acyclic-flip (dag.toposort_iff.0 h)
  Before-Acyclic incoming h =
      Acyclic-of_subset
        (λ u v m. (elem_iff v (dag.neighbors_directed u outgoing)).0 (
          ground (
            arith,
            (elem_iff u (dag.neighbors_directed v incoming)).1 m,
            elem-count u (dag.neighbors_directed v incoming),
            elem-count v (dag.neighbors_directed u outgoing),
            dag.transposed u v outgoing,
          )))
        (dag.toposort_iff.0 h)

  -- In a finite graph with no cycle, no set of nodes has all its members waiting for others of it.
  descend :
      (dir : Direction) (finished : List ℕ)
      → Acyclic (Before dir)
      → ((v : ℕ)
          → elem v dag.node_identifiers ≡ true
          → elem v finished ≡ false
          → (u : ℕ) × Before dir u v
            × (elem u dag.node_identifiers ≡ true)
            × (elem u finished ≡ false))
      → (fuel : ℕ) (left : List ℕ) (v : ℕ) → length left ≤ fuel
      → elem v dag.node_identifiers ≡ true
      → elem v finished ≡ false
      → ((w : ℕ)
          → elem w dag.node_identifiers ≡ true
          → (elem w left ≡ true) ⊎ Walk (Before dir) w v)
      → ⊥
  descend dir finished acyclic blocked zero left v short there open_ seen =
      let (u, b, there_u, open_u) = blocked v there open_ in
      elim (seen u there_u) [
        | inr w ↦ acyclic u v b w
        | inl m ↦ omega (arith, length-erase u left m)
      ]
  descend dir finished acyclic blocked (suc fuel) left v short there open_ seen =
      let (u, b, there_u, open_u) = blocked v there open_ in
      elim (seen u there_u) [
        | inr w ↦ acyclic u v b w
        | inl m ↦
            descend dir finished acyclic blocked fuel (erase u left) u
              (omega (arith, length-erase u left m)) there_u open_u
              λ w there_w. elim (Bool-cases (w == u)) [
                | inl e ↦ inr (subst (λ x. Walk (Before dir) x u) (sym ((==_iff w u).0 e)) here)
                | inr other ↦ elim (seen w there_w) [
                  | inr walk ↦ inr (step b walk)
                  | inl k ↦ inl (
                      ground (
                        arith,
                        k,
                        elem-count w left,
                        elem-count w (erase u left),
                        count-erase w u left m,
                      ))
                ]
              ]
      ]

-- On a sorter of all nodes of a graph without a cycle that checks its arguments: when no more
-- progress can be made, every node has been handed out and marked done.
pub is_active_complete :
    (dag : View) {reverse : Bool} {s : TopologicalSorter} {passed finished : List ℕ}
    → Run dag reverse s passed finished
    → dag.toposort_is_ok ≡ true
    → is_active s ≡ false
    → (v : ℕ) → Memᴰ v dag.node_identifiers
    → (elem v passed ≡ true) × (elem v finished ≡ true)
unfolding is_active
is_active_complete dag {reverse} {s} {passed} {finished} run h idle v m =
    let inv = Run-Inv dag run in
    let all_done : (w : ℕ) → count w passed ≤ count w finished =
      count-le_of_length finished passed inv.within
        (ground (arith, inv.passed_out, inv.num_finished)) in
    let nothing : s.ready_nodes ≡ [] = no_items s.ready_nodes (ground arith) in
    let open_passed : (w : ℕ)
        → elem w dag.node_identifiers ≡ true
        → elem w finished ≡ false
        → (u : ℕ) × Before dag (before reverse) u w
          × (elem u dag.node_identifiers ≡ true)
          × (elem u finished ≡ false) =
      λ w there open_.
        let none_out : count w passed ≡ 0 =
          omega (arith, all_done w, elem-count_zero w finished open_) in
        let sum : count w (s.ready_nodes ++ passed) ≡ count w passed =
          ap (λ (l : List ℕ). count w (l ++ passed)) nothing in
        let waits : 0 < undone dag (before reverse) finished w =
          ground (arith, inv.tracks.handed w, there, sum, none_out) in
        let (u, b, fresh) =
          count_if-pos (λ x. not (elem x finished)) (dag.neighbors_directed w (before reverse))
            waits in
        (
          u,
          b,
          (elem_iff u dag.node_identifiers).1 (dag.closed w u (before reverse) b).1,
          ground arith,
        ) in
    elim (Bool-cases (elem v finished)) [
      | inl done_ ↦
          (ground (arith, inv.within v, elem-count v passed, elem-count v finished), done_)
      | inr open_ ↦ absurd (
          descend dag (before reverse) finished (Before-Acyclic dag (before reverse) h) open_passed
            (length dag.node_identifiers) dag.node_identifiers v (omega arith)
            ((elem_iff v dag.node_identifiers).1 m) open_ (λ w there. inl there))
    ]
