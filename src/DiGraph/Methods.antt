-- ===== src/DiGraph/Methods.antt =====
-- src/digraph.rs: the other methods of `PyDiGraph`. Lists stand for the Python iterables, whose
-- items are taken to have the type that the method extracts.
pub mod Keeps
pub mod Grown
pub mod Extent
use rustworkx.Base.{
  ℕ, zero, suc, Bool, true, false, not, ◌&&◌, ◌||◌, Option, some, none, List, [], ◌∷◌,
}
use rustworkx.Base.{if◌then◌else◌, ◌==◌, leb, length, map, ◌++◌, flat_map}
use Prim.Native.Nat.{max}
use rustworkx.Petgraph.Stable.{Stable, Direction, EdgeReference, outgoing, incoming, is_some}
use rustworkx.DiGraph.{
  PyDiGraph, M, Outcome, PyError, ok, err, panic, index_error, no_edge_between_nodes,
}
use rustworkx.DiGraph.{
  ◌>>=◌, ◌>>◌, return, raise, for_each, collect, add_edge, add_edge_checked, contains_node,
}

abbrev pub direction_of : Bool → Direction
direction_of true = outgoing
direction_of false = incoming

module _ {O : Type 0} (st : Stable O O) where
  open st use {edge, find_edge, edges_directed, node_weight}

  -- A step on the petgraph value alone.
  abbrev pub modify : (Stable.G st → Stable.G st) → M st (Unit {0})
  modify f self = (ok tt, record self { graph = f self.graph })

  unfoldable pub has_edge : PyDiGraph st → ℕ → ℕ → Bool
  has_edge self node_a node_b = is_some (find_edge self.graph node_a node_b)

  unfoldable pub get_edge_data : PyDiGraph st → ℕ → ℕ → Outcome O
  get_edge_data self node_a node_b = elim (find_edge self.graph node_a node_b) [
    | none ↦ err no_edge_between_nodes
    | some i ↦ elim (edge self.graph i) [ none ↦ err panic | some (a, b, w) ↦ ok w ]
  ]

  unfoldable pub get_edge_data_by_index : PyDiGraph st → ℕ → Outcome O
  get_edge_data_by_index self i = elim (edge self.graph i) [
    | none ↦ err index_error
    | some (a, b, w) ↦ ok w
  ]

  unfoldable pub get_edge_endpoints_by_index : PyDiGraph st → ℕ → Outcome (ℕ × ℕ)
  get_edge_endpoints_by_index self i = elim (edge self.graph i) [
    | none ↦ err index_error
    | some (a, b, w) ↦ ok (a, b)
  ]

  unfoldable pub get_node_data : PyDiGraph st → ℕ → Outcome O
  get_node_data self node = elim (node_weight self.graph node) [
    | none ↦ err index_error
    | some w ↦ ok w
  ]

  -- The weights of the edges in `rs` that end at `node_b`.
  unfoldable pub weights_to : ℕ → List (EdgeReference O) → List O
  weights_to node_b [] = []
  weights_to node_b (r ∷ rs) =
      if r.target == node_b then r.weight ∷ weights_to node_b rs else weights_to node_b rs

  unfoldable pub get_all_edge_data : PyDiGraph st → ℕ → ℕ → Outcome (List O)
  get_all_edge_data self node_a node_b =
      elim (weights_to node_b (edges_directed self.graph node_a outgoing)) [
        | [] ↦ err no_edge_between_nodes
        | w ∷ ws ↦ ok (w ∷ ws)
      ]

  unfoldable pub update_edge : ℕ → ℕ → O → M st (Unit {0})
  update_edge source target weight self = elim (find_edge self.graph source target) [
    | none ↦ (err no_edge_between_nodes, self)
    | some i ↦ (ok tt, record self { graph = st.set_edge_weight self.graph i weight })
  ]

  unfoldable pub update_edge_by_index : ℕ → O → M st (Unit {0})
  update_edge_by_index i weight self = elim (edge self.graph i) [
    | none ↦ (err index_error, self)
    | some _ ↦ (ok tt, record self { graph = st.set_edge_weight self.graph i weight })
  ]

  -- `__setitem__`
  unfoldable pub set_item : ℕ → O → M st (Unit {0})
  set_item idx value self = elim (node_weight self.graph idx) [
    | none ↦ (err index_error, self)
    | some _ ↦ (ok tt, record self { graph = st.set_node_weight self.graph idx value })
  ]

  -- `__delitem__`
  unfoldable pub del_item : ℕ → M st (Unit {0})
  del_item idx self = elim (node_weight self.graph idx) [
    | none ↦ (err index_error, self)
    | some _ ↦ (ok tt, record self { graph = st.remove_node self.graph idx; node_removed = true })
  ]

  unfoldable pub clear : M st (Unit {0})
  clear self = (ok tt, record self { graph = st.clear self.graph; node_removed = true })

  unfoldable pub clear_edges : M st (Unit {0})
  clear_edges = modify st.clear_edges

  unfoldable pub remove_node : ℕ → M st (Unit {0})
  remove_node node self =
      (ok tt, record self { graph = st.remove_node self.graph node; node_removed = true })

  unfoldable pub remove_nodes_from : List ℕ → M st (Unit {0})
  unfolding remove_node
  remove_nodes_from index_list = for_each index_list remove_node

  unfoldable pub remove_edge : ℕ → ℕ → M st (Unit {0})
  remove_edge parent child self = elim (find_edge self.graph parent child) [
    | none ↦ (err no_edge_between_nodes, self)
    | some i ↦ (ok tt, record self { graph = st.remove_edge self.graph i })
  ]

  unfoldable pub remove_edge_from_index : ℕ → M st (Unit {0})
  remove_edge_from_index i = modify (λ g. st.remove_edge g i)

  -- The loop body finds and removes an edge as `remove_edge` does.
  unfoldable pub remove_edges_from : List (ℕ × ℕ) → M st (Unit {0})
  remove_edges_from index_list = for_each index_list (λ (x, y). remove_edge x y)

  unfoldable pub add_node : O → M st ℕ
  add_node obj self =
      let (index, g) = st.add_node self.graph obj in (ok index, record self { graph = g })

  unfoldable pub add_nodes_from : List O → M st (List ℕ)
  add_nodes_from obj_list = collect obj_list add_node

  -- `self.graph.add_edge(a, b, edge)`, which panics on a missing endpoint.
  unfoldable pub link_nodes : ℕ → ℕ → O → M st (Unit {0})
  link_nodes a b weight self = elim (st.add_edge self.graph a b weight) [
    | none ↦ (err panic, self)
    | some (i, g) ↦ (ok tt, record self { graph = g })
  ]

  unfoldable pub add_child : ℕ → O → O → M st ℕ
  add_child parent obj weight = do
    child_node ← add_node obj
    link_nodes parent child_node weight
    return child_node

  unfoldable pub add_parent : ℕ → O → O → M st ℕ
  add_parent child obj weight = do
    parent_node ← add_node obj
    link_nodes parent_node child weight
    return parent_node

  unfoldable pub add_edges_from : List (ℕ × ℕ × O) → M st (List ℕ)
  add_edges_from obj_list = collect obj_list (λ (p, c, w). add_edge st p c w)

  unfoldable pub add_edges_from_no_data : O → List (ℕ × ℕ) → M st (List ℕ)
  add_edges_from_no_data py_none obj_list = collect obj_list (λ (p, c). add_edge st p c py_none)

  -- `while max_index >= self.node_count() { self.graph.add_node(py.None()); }`, where running out of
  -- fuel is a panic.
  unfoldable pub grow : O → ℕ → ℕ → M st (Unit {0})
  grow py_none zero max_index self = elim (leb (st.node_count self.graph) max_index) [
    | true ↦ (err panic, self)
    | false ↦ (ok tt, self)
  ]
  grow py_none (suc fuel) max_index self = elim (leb (st.node_count self.graph) max_index) [
    | true ↦
        grow py_none fuel max_index (record self { graph = (st.add_node self.graph py_none).1 })
    | false ↦ (ok tt, self)
  ]

  unfoldable pub extend_from_weighted_edge_list : O → List (ℕ × ℕ × O) → M st (Unit {0})
  extend_from_weighted_edge_list py_none edge_list = for_each edge_list (λ (source, target, weight).
      do
        grow py_none (suc (max source target)) (max source target)
        add_edge_checked st source target weight
        return tt)

  unfoldable pub extend_from_edge_list : O → List (ℕ × ℕ) → M st (Unit {0})
  extend_from_edge_list py_none edge_list = for_each edge_list (λ (source, target). do
    grow py_none (suc (max source target)) (max source target)
    add_edge_checked st source target py_none
    return tt)

  -- One round of the loop in `insert_between`.
  unfoldable pub reroute : ℕ → ℕ → Bool → EdgeReference O → M st (Unit {0})
  reroute node node_between true r = do
    add_edge_checked st node_between node r.weight
    add_edge_checked st node r.target r.weight
    modify (λ g. st.remove_edge g r.id)
  reroute node node_between false r = do
    add_edge_checked st r.source node r.weight
    add_edge_checked st node node_between r.weight
    modify (λ g. st.remove_edge g r.id)

  unfoldable pub insert_between : ℕ → ℕ → Bool → M st (Unit {0})
  insert_between node node_between direction self =
      for_each (edges_directed self.graph node_between (direction_of direction))
        (reroute node node_between direction) self

  unfoldable pub insert_node_on_in_edges : ℕ → ℕ → M st (Unit {0})
  insert_node_on_in_edges node ref_node = insert_between node ref_node false

  unfoldable pub insert_node_on_out_edges : ℕ → ℕ → M st (Unit {0})
  insert_node_on_out_edges node ref_node = insert_between node ref_node true

  unfoldable pub insert_node_on_in_edges_multiple : ℕ → List ℕ → M st (Unit {0})
  insert_node_on_in_edges_multiple node ref_nodes =
      for_each ref_nodes (λ ref_node. insert_between node ref_node false)

  unfoldable pub insert_node_on_out_edges_multiple : ℕ → List ℕ → M st (Unit {0})
  insert_node_on_out_edges_multiple node ref_nodes =
      for_each ref_nodes (λ ref_node. insert_between node ref_node true)
