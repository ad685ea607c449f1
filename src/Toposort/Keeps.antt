-- ===== src/Toposort/Keeps.antt =====
-- Every call on a sorter keeps its invariant.
use rustworkx.Base.{
  ℕ, ◌+◌, ◌≡◌, refl, ap, ◌∙◌, subst, ◌⊎◌, inl, inr, Bool, true, false, not, ◌&&◌, Option, some,
  none, List, [], ◌∷◌, ◌++◌,
}
use rustworkx.Base.{
  ◌==◌, ==_iff, count, elem, elem_iff, elem-count, length-append, count-append, arith, Bool-cases,
}
use rustworkx.Petgraph.Stable.{Direction, outgoing, incoming}
use rustworkx.Petgraph.View.{View, opposite}
use rustworkx.DiGraph.{Outcome, ok, err, value_error}
use rustworkx.Toposort.{
  TopologicalSorter, NodeState, ready, done, put, new, get_ready, mark_ready, finish, check_state,
  done_single, sources, traversal_directions,
}
use rustworkx.Toposort.Tracks.{release_all_lem}
use rustworkx.Toposort.Run.{
  Run, before, start, gets, finishes, fails, Inv, undone, sources-Tracks, undone-cons,
  mark_ready_lem,
}

opposite-opposite : (d : Direction) → opposite (opposite d) ≡ d
opposite-opposite outgoing = refl
opposite-opposite incoming = refl

in_dir-before : (reverse : Bool) → (traversal_directions reverse).0 ≡ before reverse
in_dir-before true = refl
in_dir-before false = refl

out_dir-before : (reverse : Bool) → (traversal_directions reverse).1 ≡ opposite (before reverse)
out_dir-before true = refl
out_dir-before false = refl

module _ (dag : View) where
  Inv-new :
      (dag_check_cycle check_cycle reverse : Bool) (s : TopologicalSorter)
      → new dag dag_check_cycle check_cycle reverse none true ≡ ok s
      → Inv dag (before reverse) s [] []
  unfolding new
  Inv-new dag_check_cycle check_cycle reverse s h =
      let made : TopologicalSorter = record {
        ready_nodes = sources dag (traversal_directions reverse).0;
        predecessor_count = λ _. none;
        node2state = some (λ _. none);
        num_passed_out = 0;
        num_finished = 0;
        in_dir = (traversal_directions reverse).0;
        out_dir = (traversal_directions reverse).1;
      } in
      let holds : Inv dag (before reverse) made [] [] = record {
        in_dir = in_dir-before reverse;
        out_dir = out_dir-before reverse;
        tracks =
            sources-Tracks dag (before reverse) made (in_dir-before reverse)
              (ap (sources dag) (in_dir-before reverse)) refl;
        table = λ _. none;
        node2state = refl;
        states = λ v. refl;
        passed_out = refl;
        num_finished = refl;
        within = λ v. omega arith;
      } in
      elim (Bool-cases (not dag_check_cycle && check_cycle && not dag.toposort_is_ok)) [
        | inl refused ↦ cc (refused, h)
        | inr fine ↦
            let same : made ≡ s = cc (rw (fine, new) at h) in
            subst (λ t. Inv dag (before reverse) t [] []) same holds
      ]

  -- A node that is ready was not handed out before.
  ready-fresh :
      (dir : Direction) (s : TopologicalSorter) (passed finished : List ℕ)
      → Inv dag dir s passed finished
      → (v : ℕ) → elem v s.ready_nodes ≡ true
      → elem v finished ≡ false
  ready-fresh dir s passed finished inv v m = ground (
    arith,
    inv.tracks.handed v,
    inv.within v,
    count-append v s.ready_nodes passed,
    elem-count v s.ready_nodes,
    elem-count v finished,
  )

  Inv-gets :
      (dir : Direction) (s : TopologicalSorter) (passed finished : List ℕ)
      → Inv dag dir s passed finished
      → Inv dag dir (get_ready s).1 (passed ++ (get_ready s).0) finished
  unfolding get_ready
  Inv-gets dir s passed finished inv = record {
    in_dir = inv.in_dir;
    out_dir = inv.out_dir;
    tracks = record {
      handed = λ v. omega (
        arith,
        inv.tracks.handed v,
        count-append v passed s.ready_nodes,
        count-append v s.ready_nodes passed,
      );
      stored = inv.tracks.stored;
      absent = inv.tracks.absent;
    };
    table = mark_ready s.ready_nodes inv.table;
    node2state = rw inv.node2state refl;
    states = λ v. ground (
      arith,
      mark_ready_lem s.ready_nodes inv.table v,
      inv.states v,
      ready-fresh dir s passed finished inv v,
      elem-count v (passed ++ s.ready_nodes),
      elem-count v passed,
      elem-count v s.ready_nodes,
      count-append v passed s.ready_nodes,
    );
    passed_out = omega (arith, inv.passed_out, length-append passed s.ready_nodes);
    num_finished = inv.num_finished;
    within = λ v. omega (arith, inv.within v, count-append v passed s.ready_nodes);
  }

  -- `done_single` on a node that was handed out and is not done.
  finish_lem :
      (dir : Direction) (s : TopologicalSorter) (passed finished : List ℕ) (n : ℕ)
      (m : ℕ → Option NodeState) (inv : Inv dag dir s passed finished)
      → elem n passed ≡ true
      → elem n finished ≡ false
      → (s' : TopologicalSorter) × (finish dag n
            (record s { node2state = some (put n (some done) inv.table) })
          ≡ (ok tt, s'))
        × Inv dag dir s' passed (n ∷ finished)
  unfolding finish
  finish_lem dir s passed finished n m inv handed fresh =
      let marked = record s { node2state = some (put n (some done) inv.table) } in
      let succs = dag.neighbors_directed n s.out_dir in
      let (s1, done1, same, tracks) =
        release_all_lem dag passed succs (undone dag dir (n ∷ finished)) (undone dag dir finished)
          marked (λ x k. (elem_iff x dag.node_identifiers).1 (dag.closed n x s.out_dir k).1)
          (λ v.
            let ins = dag.neighbors_directed v dir in
            let turned : count v succs ≡ count n ins =
              dag.transposed n v s.out_dir
              ∙ ap (λ d. count n (dag.neighbors_directed v d))
                  (ap opposite inv.out_dir ∙ opposite-opposite dir) in
            omega (arith, undone-cons n finished ins fresh, turned))
          (record {
            handed = inv.tracks.handed;
            stored = inv.tracks.stored;
            absent = inv.tracks.absent;
          }) in
      (
        record s1 { num_finished = s1.num_finished + 1 },
        rw done1 refl,
        record {
          in_dir = same.in_dir ∙ inv.in_dir;
          out_dir = same.out_dir ∙ inv.out_dir;
          tracks = record {
            handed = tracks.handed;
            stored = tracks.stored;
            absent = tracks.absent;
          };
          table = put n (some done) inv.table;
          node2state = same.node2state;
          states = λ v. ground (arith, inv.states v);
          passed_out = same.num_passed_out ∙ inv.passed_out;
          num_finished = omega (arith, same.num_finished, inv.num_finished);
          within = λ v. elim (Bool-cases (v == n)) [
            | inl e ↦
                let at_n : v ≡ n = (==_iff v n).0 e in
                ground (
                  arith,
                  handed,
                  fresh,
                  elem-count n passed,
                  elem-count n finished,
                  ap (λ w. count w passed) at_n,
                  ap (λ w. count w finished) at_n,
                )
            | inr other ↦ ground (arith, inv.within v)
          ];
        },
      )

  -- What `done_single` does on any number: a node that was handed out and is not done is marked, and
  -- for any other the call raises and changes nothing.
  pub data Marks (dir : Direction) (s : TopologicalSorter) (passed finished : List ℕ) (n : ℕ)
      (r : Outcome (Unit {0}) × TopologicalSorter) : Type 0 where
    marks :
        elem n passed ≡ true
        → elem n finished ≡ false
        → (s' : TopologicalSorter) → r ≡ (ok tt, s')
        → Inv dag dir s' passed (n ∷ finished)
        → Marks dir s passed finished n r
    refuses :
        (elem n passed ≡ false) ⊎ (elem n finished ≡ true)
        → r ≡ (err value_error, s)
        → Marks dir s passed finished n r

  pub done_single-Marks :
      (dir : Direction) (s : TopologicalSorter) (passed finished : List ℕ) (n : ℕ)
      → Inv dag dir s passed finished
      → Marks dir s passed finished n (done_single dag n s)
  unfolding done_single check_state
  done_single-Marks dir s passed finished n inv =
      let read : done_single dag n s ≡ check_state dag n (some inv.table) s =
        ap (λ t. check_state dag n t s) inv.node2state in
      elim (Bool-cases (elem n finished)) [
        | inl old ↦
            let state : inv.table n ≡ some done = ground (arith, inv.states n) in
            refuses (inr old) (read ∙ rw state refl)
        | inr fresh ↦ elim (Bool-cases (elem n passed)) [
          | inl handed ↦
              let state : inv.table n ≡ some ready = ground (arith, inv.states n) in
              let (s', finished_now, inv') =
                finish_lem dir s passed finished n inv.table inv handed fresh in
              marks handed fresh s' (read ∙ rw state finished_now) inv'
          | inr unknown ↦
              let state : inv.table n ≡ none = ground (arith, inv.states n) in
              refuses (inl unknown) (read ∙ rw state refl)
        ]
      ]

  pub Run-Inv :
      {reverse : Bool} {s : TopologicalSorter} {passed finished : List ℕ}
      → Run dag reverse s passed finished
      → Inv dag (before reverse) s passed finished
  Run-Inv {reverse} (start dag_check check {s} h) = Inv-new dag_check check reverse s h
  Run-Inv {reverse} (gets {s} {passed} {finished} r) =
      Inv-gets (before reverse) s passed finished (Run-Inv r)
  Run-Inv {reverse} (finishes {s} {s'} {passed} {finished} r n h) =
      elim (done_single-Marks (before reverse) s passed finished n (Run-Inv r)) [
        | marks _ _ s1 e inv ↦
            let same : s1 ≡ s' = cc (e, h) in
            subst (λ t. Inv dag (before reverse) t passed (n ∷ finished)) same inv
        | refuses _ e ↦ cc (e, h)
      ]
  Run-Inv {reverse} (fails {s} {s'} {passed} {finished} r n x h) =
      elim (done_single-Marks (before reverse) s passed finished n (Run-Inv r)) [
        | marks _ _ s1 e inv ↦ cc (e, h)
        | refuses _ e ↦
            let same : s ≡ s' = cc (e, h) in
            subst (λ t. Inv dag (before reverse) t passed finished) same (Run-Inv r)
      ]
