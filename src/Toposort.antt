-- ===== src/Toposort.antt =====
-- src/toposort.rs: `TopologicalSorter`, a sorter that hands nodes out as others are marked done.
-- The graph is an argument of each method, as the sorter holds a reference to it.
pub mod Tracks
pub mod Run
pub mod Keeps
pub mod Progress
mod Tests
use rustworkx.Base.{
  ℕ, zero, suc, ◌+◌, ◌-◌, Bool, true, false, not, ◌&&◌, ◌||◌, Option, some, none, List, [], ◌∷◌,
  ◌++◌,
}
use rustworkx.Base.{if◌then◌else◌, ◌==◌, ltb, length, elem, filter_if}
use rustworkx.Petgraph.Stable.{Direction, outgoing, incoming}
use rustworkx.Petgraph.View.{View}
use rustworkx.DiGraph.{Outcome, ok, err, PyError, dag_has_cycle, value_error, panic, nonempty}

pub data NodeState : Type 0 where
  ready done : NodeState

pub record TopologicalSorter : Type 0 where
  pub ready_nodes : List ℕ
  pub predecessor_count : ℕ → Option ℕ
  pub node2state : Option (ℕ → Option NodeState)
  pub num_passed_out : ℕ
  pub num_finished : ℕ
  pub in_dir : Direction
  pub out_dir : Direction

-- `HashMap::insert`, and `remove` for `none`.
abbrev pub put {ℓ} : {A : Type ℓ} → ℕ → A → (ℕ → A) → ℕ → A
put k v m j = if k == j then v else m j

-- src/dag_algo/mod.rs
abbrev pub traversal_directions : Bool → Direction × Direction
traversal_directions reverse = if reverse then (outgoing, incoming) else (incoming, outgoing)

-- The nodes of `initial`, each with a count of zero, up to the first that is not in the graph.
unfoldable pub collect_initial : View → List ℕ → (ℕ → Option ℕ) → Outcome (List ℕ × (ℕ → Option ℕ))
collect_initial dag [] counts = ok ([], counts)
collect_initial dag (node ∷ rest) counts =
    let others = collect_initial dag rest (put node (some 0) counts) in
    if elem node dag.node_identifiers
    then elim others [ ok (nodes, counts') ↦ ok (node ∷ nodes, counts') | err e ↦ err e ]
    else err value_error

-- The nodes with no neighbour in the direction that edges come from.
abbrev pub sources : View → Direction → List ℕ
sources dag in_dir =
    filter_if (λ node. not (nonempty (dag.neighbors_directed node in_dir))) dag.node_identifiers

-- `dag_check_cycle` is the graph's own flag.
unfoldable pub new : View → Bool → Bool → Bool → Option (List ℕ) → Bool → Outcome TopologicalSorter
unfolding collect_initial
new dag dag_check_cycle check_cycle reverse initial check_args =
    if not dag_check_cycle && check_cycle && not dag.toposort_is_ok
    then err dag_has_cycle
    else let (in_dir, out_dir) = traversal_directions reverse in
      let start = λ (nodes : List ℕ) (counts : ℕ → Option ℕ). ok (record {
        ready_nodes = nodes;
        predecessor_count = counts;
        node2state = if check_args then some (λ _. none) else none;
        num_passed_out = 0;
        num_finished = 0;
        in_dir = in_dir;
        out_dir = out_dir;
      }) in
      elim initial [
        | none ↦ start (sources dag in_dir) (λ _. none)
        | some nodes ↦ elim (collect_initial dag nodes (λ _. none)) [
          | ok (found, counts) ↦ start found counts
          | err e ↦ err e
        ]
      ]

unfoldable pub is_active : TopologicalSorter → Bool
is_active self = ltb self.num_finished self.num_passed_out || nonempty self.ready_nodes

-- `node2state.insert(nx, NodeState::Ready)` for each node.
unfoldable pub mark_ready : List ℕ → (ℕ → Option NodeState) → ℕ → Option NodeState
mark_ready [] m = m
mark_ready (nx ∷ rest) m = mark_ready rest (put nx (some ready) m)

-- The nodes, and the sorter after the call.
unfoldable pub get_ready : TopologicalSorter → List ℕ × TopologicalSorter
unfolding mark_ready
get_ready self = (
  self.ready_nodes,
  record self {
    num_passed_out = self.num_passed_out + length self.ready_nodes;
    ready_nodes = [];
    node2state = elim self.node2state [
      | none ↦ none
      | some m ↦ some (mark_ready self.ready_nodes m)
    ];
  },
)

-- `m?; k`
abbrev pub after :
    Outcome (Unit {0}) × TopologicalSorter
    → (TopologicalSorter → Outcome (Unit {0}) × TopologicalSorter)
    → Outcome (Unit {0}) × TopologicalSorter
after (ok _, s) k = k s
after (err e, s) k = (err e, s)

module _ (dag : View) where
  -- The body of the loop over successors in `done_single`.
  unfoldable pub release : ℕ → TopologicalSorter → Outcome (Unit {0}) × TopologicalSorter
  release succ self = elim (self.predecessor_count succ) [
    | some in_degree ↦
        if in_degree == 0
        then (err value_error, self)
        else if in_degree == 1
        then (
          ok tt,
          record self {
            ready_nodes = self.ready_nodes ++ succ ∷ [];
            predecessor_count = put succ none self.predecessor_count;
          },
        )
        else (
          ok tt,
          record self {
            predecessor_count = put succ (some (in_degree - 1)) self.predecessor_count;
          },
        )
    | none ↦
        let count = length (dag.neighbors_directed succ self.in_dir) in
        if count == 0
        then (err panic, self)
        else if count - 1 == 0
        then (ok tt, record self { ready_nodes = self.ready_nodes ++ succ ∷ [] })
        else (
          ok tt,
          record self { predecessor_count = put succ (some (count - 1)) self.predecessor_count },
        )
  ]

  unfoldable pub release_all : List ℕ → TopologicalSorter → Outcome (Unit {0}) × TopologicalSorter
  release_all [] self = (ok tt, self)
  release_all (succ ∷ rest) self = after (release succ self) (release_all rest)

  -- What `done_single` does once the node is marked.
  unfoldable pub finish : ℕ → TopologicalSorter → Outcome (Unit {0}) × TopologicalSorter
  unfolding release_all
  finish node self =
      after (release_all (dag.neighbors_directed node self.out_dir) self)
        λ s. (ok tt, record s { num_finished = s.num_finished + 1 })

  -- The match on `node2state`, and what follows.
  unfoldable pub check_state :
      ℕ → Option (ℕ → Option NodeState) → TopologicalSorter → Outcome (Unit {0}) × TopologicalSorter
  unfolding finish
  check_state node none self = finish node self
  check_state node (some m) self = elim (m node) [
    | none ↦ (err value_error, self)
    | some done ↦ (err value_error, self)
    | some ready ↦ finish node (record self { node2state = some (put node (some done) m) })
  ]

  unfoldable pub done_single : ℕ → TopologicalSorter → Outcome (Unit {0}) × TopologicalSorter
  unfolding check_state
  done_single node self = check_state node self.node2state self

  -- `done`, on the node or nodes of its argument.
  unfoldable pub mark_done : List ℕ → TopologicalSorter → Outcome (Unit {0}) × TopologicalSorter
  mark_done [] self = (ok tt, self)
  mark_done (node ∷ rest) self = after (done_single node self) (mark_done rest)
