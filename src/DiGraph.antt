-- ===== src/DiGraph.antt =====
-- src/digraph.rs: the state of `PyDiGraph`, and its methods that add edges. Python objects are
-- values of an abstract type, and `cycle_state`, the scratch space of a search, is left out.
pub mod Methods
pub mod Table
pub mod Cycles
pub mod SelfLoop
pub mod Guard
pub mod Loops
pub mod Steps
pub mod Simple
pub mod Rewire
pub mod Keyed
pub mod Merge
pub mod Turn
pub mod Mirror
pub mod Listing
mod Tests
use rustworkx.Base.{
  ℕ, zero, suc, Bool, true, false, not, ◌&&◌, ◌||◌, Option, some, none, List, [], ◌∷◌,
}
use rustworkx.Base.{if◌then◌else◌}
use rustworkx.Petgraph.Stable.{Stable, Direction, EdgeReference, outgoing, incoming, is_some}

-- The exceptions that the methods raise; `panic` is a Rust panic.
pub data PyError : Type 0 where
  dag_would_cycle dag_has_cycle index_error no_edge_between_nodes value_error : PyError
  null_graph invalid_node panic : PyError

pub data Outcome {ℓ} (A : Type ℓ) : Type ℓ where
  ok : A → Outcome A
  err : PyError → Outcome A

pub record PyDiGraph {O : Type 0} (st : Stable O O) : Type 0 where
  pub graph : Stable.G st
  pub check_cycle : Bool
  pub node_removed : Bool
  pub multigraph : Bool
  pub attrs : O

-- A method on `&mut self`: what was changed before an error stays changed.
abbrev pub M : {O : Type 0} → Stable O O → Type 0 → Type 0
M st A = PyDiGraph st → Outcome A × PyDiGraph st

module _ {O : Type 0} {st : Stable O O} where
  abbrev pub after :
      {A B : Type 0} → Outcome A × PyDiGraph st → (A → M st B) → Outcome B × PyDiGraph st
  after (ok a, s) f = f a s
  after (err e, s) f = (err e, s)

  infixl 5 ◌>>=◌ ◌>>◌
  abbrev pub ◌>>=◌ : {A B : Type 0} → M st A → (A → M st B) → M st B
  ◌>>=◌ m f s = after (m s) f

  abbrev pub ◌>>◌ : {A B : Type 0} → M st A → M st B → M st B
  ◌>>◌ m k s = after (m s) (λ _. k)

  abbrev pub return : {A : Type 0} → A → M st A
  return a s = (ok a, s)

  abbrev pub raise : {A : Type 0} → PyError → M st A
  raise e s = (err e, s)

  -- `for a in xs { body(a)?; }`
  unfoldable pub for_each : {A : Type 0} → List A → (A → M st (Unit {0})) → M st (Unit {0})
  for_each [] body = return tt
  for_each (a ∷ xs) body = body a >> for_each xs body

  -- `for a in xs { out.push(body(a)?); }`
  unfoldable pub collect : {A B : Type 0} → List A → (A → M st B) → M st (List B)
  collect [] body = return []
  collect (a ∷ xs) body = do b ← body a; bs ← collect xs body; return (b ∷ bs)

-- `.next().is_some()`
abbrev pub nonempty {ℓ} : {A : Type ℓ} → List A → Bool
nonempty [] = false
nonempty (_ ∷ _) = true

module _ {O : Type 0} (st : Stable O O) where
  open st use {edges_directed, find_edge, has_path_connecting, node_weight, set_edge_weight}

  unfoldable pub new : Bool → Bool → Option O → O → Option ℕ → Option ℕ → PyDiGraph st
  new check_cycle multigraph attrs py_none node_count_hint edge_count_hint = record {
    graph = st.with_capacity (hint node_count_hint) (hint edge_count_hint);
    check_cycle = check_cycle;
    node_removed = false;
    multigraph = multigraph;
    attrs = elim attrs [ some o ↦ o | none ↦ py_none ];
  }
    where
      hint : Option ℕ → ℕ
      hint none = 0
      hint (some n) = n

  unfoldable pub is_cycle_check_required : PyDiGraph st → ℕ → ℕ → Bool
  is_cycle_check_required dag a b =
      nonempty (edges_directed dag.graph a incoming)
      && nonempty (edges_directed dag.graph b outgoing)
      && not (is_some (find_edge dag.graph a b))

  -- The edge that an insertion updates in place.
  abbrev pub parallel : PyDiGraph st → ℕ → ℕ → Option ℕ
  parallel self p_index c_index =
      if not self.multigraph then find_edge self.graph p_index c_index else none

  unfoldable pub add_edge_no_cycle_check : ℕ → ℕ → O → M st ℕ
  add_edge_no_cycle_check p_index c_index edge self = elim (parallel self p_index c_index) [
    | some index ↦ (ok index, record self { graph = set_edge_weight self.graph index edge })
    | none ↦ elim (st.add_edge self.graph p_index c_index edge) [
      | none ↦ (err panic, self)
      | some (index, g) ↦ (ok index, record self { graph = g })
    ]
  ]

  -- `_add_edge`
  unfoldable pub add_edge_checked : ℕ → ℕ → O → M st ℕ
  add_edge_checked p_index c_index edge self =
      if self.check_cycle
        && is_cycle_check_required self p_index c_index
        && has_path_connecting self.graph c_index p_index
      then (err dag_would_cycle, self)
      else add_edge_no_cycle_check p_index c_index edge self

  unfoldable pub contains_node : PyDiGraph st → ℕ → Bool
  contains_node self n = is_some (node_weight self.graph n)

  -- `add_edge`
  unfoldable pub add_edge : ℕ → ℕ → O → M st ℕ
  add_edge parent child edge self =
      if not (contains_node self parent) || not (contains_node self child)
      then (err index_error, self)
      else add_edge_checked parent child edge self

  -- src/dag_algo/mod.rs
  unfoldable pub is_directed_acyclic_graph : PyDiGraph st → Bool
  is_directed_acyclic_graph graph = st.toposort_is_ok graph.graph

  unfoldable pub set_check_cycle : Bool → M st (Unit {0})
  set_check_cycle value self =
      if not self.check_cycle && value && not (is_directed_acyclic_graph self)
      then (err dag_has_cycle, self)
      else (ok tt, record self { check_cycle = value })
