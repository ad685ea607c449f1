-- ===== src/DiGraph/Steps.antt =====
-- A life of a `PyDiGraph`: any sequence of method calls from `PyDiGraph(...)` on.
use rustworkx.Base.{ℕ, ◌≡◌, ◌≢◌, Bool, true, Option, List, Memᴰ}
use rustworkx.Petgraph.Stable.{Stable, EdgeReference}
use rustworkx.Petgraph.Walks.{Acyclic}
use rustworkx.DiGraph.{PyDiGraph, new, add_edge, contains_node, set_check_cycle}
use rustworkx.DiGraph.Table.{Joins}
use rustworkx.DiGraph.Cycles.{IsGuarded, add_edge-IsGuarded, set_check_cycle-IsGuarded}
use rustworkx.DiGraph.Methods.{
  update_edge, update_edge_by_index, set_item, del_item, clear, clear_edges, remove_node,
  remove_nodes_from, remove_edge, remove_edge_from_index, remove_edges_from, add_node,
  add_nodes_from, add_edges_from, add_edges_from_no_data, extend_from_edge_list,
  extend_from_weighted_edge_list, insert_between, direction_of, add_child, add_parent,
}
use rustworkx.DiGraph.Rewire.{remove_node_retain_edges}
use rustworkx.DiGraph.Rewire.Rows.{IsTotal}
use rustworkx.DiGraph.Rewire.Laws.{remove_node_retain_edges_lem}
use rustworkx.Base.{subst, sym}
use rustworkx.DiGraph.{Outcome, ok}
use rustworkx.DiGraph.Keyed.{key_value, remove_node_retain_edges_by_key}
use rustworkx.DiGraph.Turn.{Entry, reverse, make_symmetric}
use rustworkx.DiGraph.Turn.Keeps.{reverse-Keeps, make_symmetric-Keeps}
use rustworkx.DiGraph.Keyed.Groups.{KeyEquality}
use rustworkx.DiGraph.Keyed.Retains.{remove_node_retain_edges_by_key_lem}
use rustworkx.DiGraph.Methods.Keeps
use rustworkx.DiGraph.Methods.Grown
use rustworkx.DiGraph.Methods.Grown.{other_end}

module _ {O : Type 0} (st : Stable O O) where
  -- One call. The methods that add edges are called with different endpoints, and those that
  -- join a new or moved node with nodes that exist and are not joined to it on that side.
  pub data Step (s : PyDiGraph st) : PyDiGraph st → Type 0 where
    sets_check_cycle : (value : Bool) → Step s (set_check_cycle st value s).1
    adds_node : (w : O) → Step s (add_node st w s).1
    adds_nodes : (ws : List O) → Step s (add_nodes_from st ws s).1
    adds_edge : (p c : ℕ) (w : O) → p ≢ c → Step s (add_edge st p c w s).1
    adds_edges :
        (es : List (ℕ × ℕ × O))
        → ((p c : ℕ) (w : O) → Memᴰ (p, c, w) es → p ≢ c)
        → Step s (add_edges_from st es s).1
    adds_edges_no_data :
        (py_none : O) (es : List (ℕ × ℕ))
        → ((p c : ℕ) → Memᴰ (p, c) es → p ≢ c)
        → Step s (add_edges_from_no_data st py_none es s).1
    extends :
        (py_none : O) (es : List (ℕ × ℕ))
        → ((p c : ℕ) → Memᴰ (p, c) es → p ≢ c)
        → Step s (extend_from_edge_list st py_none es s).1
    extends_weighted :
        (py_none : O) (es : List (ℕ × ℕ × O))
        → ((p c : ℕ) (w : O) → Memᴰ (p, c, w) es → p ≢ c)
        → Step s (extend_from_weighted_edge_list st py_none es s).1
    adds_child :
        (parent : ℕ) (obj weight : O)
        → contains_node st s parent ≡ true
        → Step s (add_child st parent obj weight s).1
    adds_parent :
        (child : ℕ) (obj weight : O)
        → contains_node st s child ≡ true
        → Step s (add_parent st child obj weight s).1
    inserts :
        (node ref_node : ℕ) (direction : Bool)
        → node ≢ ref_node
        → ((r : EdgeReference O)
            → Memᴰ r (Stable.edges_directed st s.graph ref_node (direction_of direction))
            → node ≢ other_end st direction r)
        → Step s (insert_between st node ref_node direction s).1
    updates_edge : (a b : ℕ) (w : O) → Step s (update_edge st a b w s).1
    updates_index : (i : ℕ) (w : O) → Step s (update_edge_by_index st i w s).1
    sets_item : (n : ℕ) (w : O) → Step s (set_item st n w s).1
    dels_item : (n : ℕ) → Step s (del_item st n s).1
    clears : Step s (clear st s).1
    clears_edges : Step s (clear_edges st s).1
    removes_node : (n : ℕ) → Step s (remove_node st n s).1
    removes_nodes : (ns : List ℕ) → Step s (remove_nodes_from st ns s).1
    removes_edge : (a b : ℕ) → Step s (remove_edge st a b s).1
    removes_index : (i : ℕ) → Step s (remove_edge_from_index st i s).1
    removes_edges : (es : List (ℕ × ℕ)) → Step s (remove_edges_from st es s).1
    removes_retaining :
        (n : ℕ) (use_outgoing : Bool) (condition : Option (O → O → Outcome Bool))
        → IsTotal condition use_outgoing
        → Step s (remove_node_retain_edges st n use_outgoing condition s).1
    removes_by_key :
        (same : O → O → Bool) (n : ℕ) (use_outgoing : Bool) (key : Option (O → Outcome O))
        (k : O → O)
        → KeyEquality same
        → ((w : O) → key_value same key w ≡ ok (k w))
        → Step s (remove_node_retain_edges_by_key same st n key use_outgoing s).1
    reverses : Step s (reverse st s).1
    makes_symmetric :
        (order : List Entry → List Entry) (edge_payload_fn : Option (O → Outcome O))
        → ((es : List Entry) (e : Entry) → Memᴰ e (order es) → Memᴰ e es)
        → Step s (make_symmetric st order edge_payload_fn s).1

  pub data Reach (s : PyDiGraph st) : PyDiGraph st → Type 0 where
    start : Reach s s
    next : {t u : PyDiGraph st} → Reach s t → Step t u → Reach s u

  pub Step-IsGuarded : {s u : PyDiGraph st} → IsGuarded st s → Step s u → IsGuarded st u
  Step-IsGuarded {s} h (sets_check_cycle v) = set_check_cycle-IsGuarded st v s h
  Step-IsGuarded {s} h (adds_node w) = Keeps.add_node-Keeps st w s h
  Step-IsGuarded {s} h (adds_nodes ws) = Keeps.add_nodes_from-Keeps st ws s h
  Step-IsGuarded {s} h (adds_edge p c w ne) = add_edge-IsGuarded st s p c w ne h
  Step-IsGuarded {s} h (adds_edges es ne) = Keeps.add_edges_from-Keeps st es ne s h
  Step-IsGuarded {s} h (adds_edges_no_data o es ne) =
      Keeps.add_edges_from_no_data-Keeps st o es ne s h
  Step-IsGuarded {s} h (extends o es ne) = Keeps.extend_from_edge_list-Keeps st o es ne s h
  Step-IsGuarded {s} h (extends_weighted o es ne) =
      Keeps.extend_from_weighted_edge_list-Keeps st o es ne s h
  Step-IsGuarded {s} h (adds_child p o w ex) = Grown.add_child-Keeps st p o w s ex h
  Step-IsGuarded {s} h (adds_parent c o w ex) = Grown.add_parent-Keeps st c o w s ex h
  Step-IsGuarded {s} h (inserts n r d ne ap) = Grown.insert_between-Keeps st n r d s ne ap h
  Step-IsGuarded {s} h (updates_edge a b w) = Keeps.update_edge-Keeps st a b w s h
  Step-IsGuarded {s} h (updates_index i w) = Keeps.update_edge_by_index-Keeps st i w s h
  Step-IsGuarded {s} h (sets_item n w) = Keeps.set_item-Keeps st n w s h
  Step-IsGuarded {s} h (dels_item n) = Keeps.del_item-Keeps st n s h
  Step-IsGuarded {s} h clears = Keeps.clear-Keeps st s h
  Step-IsGuarded {s} h clears_edges = Keeps.clear_edges-Keeps st s h
  Step-IsGuarded {s} h (removes_node n) = Keeps.remove_node-Keeps st n s h
  Step-IsGuarded {s} h (removes_nodes ns) = Keeps.remove_nodes_from-Keeps st ns s h
  Step-IsGuarded {s} h (removes_edge a b) = Keeps.remove_edge-Keeps st a b s h
  Step-IsGuarded {s} h (removes_index i) = Keeps.remove_edge_from_index-Keeps st i s h
  Step-IsGuarded {s} h (removes_edges es) = Keeps.remove_edges_from-Keeps st es s h
  Step-IsGuarded {s} h (removes_retaining n u k total) =
      let b = remove_node_retain_edges_lem st n u k s total h in
      subst (λ r. IsGuarded st r.1) (sym b.returns) b.guarded
  Step-IsGuarded {s} h (removes_by_key same n u key k eq total) =
      let b = remove_node_retain_edges_by_key_lem same st eq key k total n u s h in
      subst (λ r. IsGuarded st r.1) (sym b.returns) b.guarded
  Step-IsGuarded {s} h reverses = reverse-Keeps st s h
  Step-IsGuarded {s} h (makes_symmetric order f listed) = make_symmetric-Keeps st order f s listed h

  Reach-IsGuarded : {s u : PyDiGraph st} → IsGuarded st s → Reach s u → IsGuarded st u
  Reach-IsGuarded h start = h
  Reach-IsGuarded h (next r st_) = Step-IsGuarded (Reach-IsGuarded h r) st_

  -- After the constructor and any sequence of the calls that `Step` lists, under the conditions
  -- listed there, the graph is acyclic whenever `check_cycle` is set: no call asks for an edge
  -- from a node to itself, `add_child` and `add_parent` name a node of the graph, and
  -- `insert_between` inserts a node that is not yet joined to the reference node on that side, the
  -- condition of `remove_node_retain_edges` raises nothing, and nor do the keys of
  -- `remove_node_retain_edges_by_key`, which are compared by an equivalence; the `HashMap` of
  -- `make_symmetric` yields no entry that it does not hold.
  pub reachable-Acyclic :
      (check_cycle multigraph : Bool) (attrs : Option O) (py_none : O) (n m : Option ℕ)
      (s : PyDiGraph st)
      → Reach (new st check_cycle multigraph attrs py_none n m) s
      → s.check_cycle ≡ true
      → Acyclic (Joins st s)
  unfolding new
  reachable-Acyclic check_cycle multigraph attrs py_none n m s r =
      Reach-IsGuarded (λ on a b (i, w, at) walk. cc (st.edges-with_capacity _ _ i, at)) r
