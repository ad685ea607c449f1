-- ===== src/DiGraph/Keyed/Retains.antt =====
-- `remove_node_retain_edges_by_key` joins what `remove_node_retain_edges` joins for equal keys.
use rustworkx.Base.{
  ℕ, ◌≡◌, refl, sym, ap, ◌∙◌, subst, ◌↔◌, inl, inr, Bool, true, Option, some, List, [], Memᴰ,
  flat_map, Memᴰ-flat_map,
}
use mathlib.Core.List.Memᴰ
use rustworkx.Petgraph.Stable.{Stable, EdgeReference, outgoing, incoming}
use rustworkx.DiGraph.{PyDiGraph, Outcome, ok}
use rustworkx.DiGraph.Cycles.{IsGuarded}
use rustworkx.DiGraph.Rewire.Laws.{Bridge, Bypasses, Bypasses-add_all}
use rustworkx.DiGraph.Keyed.{
  RemoveNodeEdgeValue, Dict, get_item, key_value, remove_node_retain_edges_by_key,
}
use rustworkx.DiGraph.Keyed.Nested.{row, mem-row, join_groups-add_all}
use rustworkx.DiGraph.Keyed.Groups.{
  KeyEquality, nodes_of, nodes_of-get_item, Ends, Groups, group_edges-Groups,
}

module _ {O : Type 0} (same : O → O → Bool) (st : Stable O O) (eq : KeyEquality same)
    (key : Option (O → Outcome O)) (k : O → O)
    (total : (w : O) → key_value same key w ≡ ok (k w)) where
  open st use {edges_directed}

  -- The condition that two edges have equal keys.
  abbrev pub equal_keys : Option (O → O → Outcome Bool)
  equal_keys = some (λ v w. ok (same (k v) (k w)))

  module _ (s : PyDiGraph st) (node : ℕ) where
    abbrev into : List (EdgeReference O)
    into = edges_directed s.graph node incoming

    abbrev out : List (EdgeReference O)
    out = edges_directed s.graph node outgoing

    -- Two edges with equal keys, one into the node and one out of it.
    abbrev Pair : ℕ → ℕ → Type 0
    Pair a b =
        (x : EdgeReference O) × (y : EdgeReference O) × Memᴰ x into
        × Memᴰ y out
        × (a ≡ x.source)
        × (b ≡ y.target)
        × (same (k x.weight) (k y.weight) ≡ true)

    Pair-Bridge : (a b : ℕ) → Pair a b ↔ Bridge st equal_keys s node a b
    Pair-Bridge a c = (
      λ (x, y, mx, my, ea, ec, e).
          let (tx, at_x) = (st.mem-edges_directed s.graph node incoming x).0 mx in
          let (ty, at_y) = (st.mem-edges_directed s.graph node outgoing y).0 my in
          record {
            i = x.id;
            j = y.id;
            v = x.weight;
            w = y.weight;
            into = cc (at_x, tx, ea);
            out = cc (at_y, ty, ec);
            accepted = ap ok e;
          },
      λ b.
          let x : EdgeReference O = record { id = b.i; source = a; target = node; weight = b.v } in
          let y : EdgeReference O = record { id = b.j; source = node; target = c; weight = b.w } in
          (
            x,
            y,
            (st.mem-edges_directed s.graph node incoming x).1 (refl, b.into),
            (st.mem-edges_directed s.graph node outgoing y).1 (refl, b.out),
            refl,
            refl,
            cc (b.accepted),
          ),
    )

    abbrev Sources : Outcome (Dict same) → Type 0
    Sources = Groups same eq key k total (λ (e : EdgeReference O). e.source) into []

    abbrev Targets : Outcome (Dict same) → Type 0
    Targets = Groups same eq key k total (λ (e : EdgeReference O). e.target) out []

    -- The edge that put a node into an entry of `into`.
    source_of :
        (r : Outcome (Dict same)) (ins : Sources r) (g : RemoveNodeEdgeValue O) (a : ℕ)
        → Memᴰ g ins.groups
        → Memᴰ a g.nodes
        → Ends same eq key k total (λ e. e.source) into g.key a
    source_of r ins g a mg ma = elim (ins.sound g a mg ma) [
      | inl (_, none_there, _, _) ↦ absurd (Memᴰ.not-nil none_there)
      | inr e ↦ e
    ]

    -- The edge that put a node into the entry of a key.
    target_of :
        (r : Outcome (Dict same)) (outs : Targets r) (q : O) (h : RemoveNodeEdgeValue O) (b : ℕ)
        → get_item same q outs.groups ≡ some h
        → Memᴰ b h.nodes
        → Ends same eq key k total (λ e. e.target) out q b
    target_of r outs q h b got mb = elim (nodes_of-get_item same eq q outs.groups) [
      | inl (missing, _) ↦ cc (missing, got)
      | inr (h', got', nodes, _, _) ↦
          let one : h' ≡ h = cc (got', got) in
          elim ((outs.found q b).0
            (subst (Memᴰ b) (sym (nodes ∙ ap (λ (x : RemoveNodeEdgeValue O). x.nodes) one)) mb)) [
              | inl none_there ↦ absurd (Memᴰ.not-nil none_there)
              | inr e ↦ e
            ]
    ]

    mem-rows :
        (use_outgoing : Bool) (a b : ℕ) (r r' : Outcome (Dict same)) (ins : Sources r)
        (outs : Targets r')
        → ((w : O) × Memᴰ (a, b, w) (flat_map (row same st use_outgoing outs.groups) ins.groups))
          ↔ Pair a b
    mem-rows use_outgoing a b r r' ins outs =
        let rows =
          λ (w : O). Memᴰ-flat_map (row same st use_outgoing outs.groups) (a, b, w) ins.groups in
        (
          λ (w, m).
              let (g, mg, mr) = (rows w).0 m in
              let (h, got, ma, mb) = (mem-row same st use_outgoing outs.groups g a b).0 (w, mr) in
              let (x, mx, ex, ea) = source_of r ins g a mg ma in
              let (y, my, ey, eb) = target_of r' outs g.key h b got mb in
              (
                x,
                y,
                mx,
                my,
                ea,
                eb,
                eq.transitive (k x.weight) g.key (k y.weight) ex
                    (eq.symmetric (k y.weight) g.key ey),
              ),
          λ (x, y, mx, my, ea, eb, e).
              let ma : Memᴰ a (nodes_of same eq (k x.weight) ins.groups) =
                (ins.found (k x.weight) a).1 (inr (x, mx, eq.reflexive (k x.weight), ea)) in
              elim (nodes_of-get_item same eq (k x.weight) ins.groups) [
                | inl (_, empty) ↦ absurd (Memᴰ.not-nil (subst (Memᴰ a) empty ma))
                | inr (g, _, nodes, mg, eg) ↦
                    let mb : Memᴰ b (nodes_of same eq g.key outs.groups) = (outs.found g.key b).1 (
                      inr (
                        y,
                        my,
                        eq.transitive (k y.weight) (k x.weight) g.key
                            (eq.symmetric (k x.weight) (k y.weight) e)
                            (eq.symmetric g.key (k x.weight) eg),
                        eb,
                      )) in
                    elim (nodes_of-get_item same eq g.key outs.groups) [
                      | inl (_, empty) ↦ absurd (Memᴰ.not-nil (subst (Memᴰ b) empty mb))
                      | inr (h, got, nodes', _, _) ↦
                          let (w, mr) =
                            (mem-row same st use_outgoing outs.groups g a b).1
                              (h, got, subst (Memᴰ a) nodes ma, subst (Memᴰ b) nodes' mb) in
                          (w, (rows w).1 (g, mg, mr))
                    ]
              ],
        )

  -- Under keys that a callable gives without raising, or the weights themselves, and that are
  -- compared by an equivalence, and in a graph that keeps what `check_cycle` promises,
  -- `remove_node_retain_edges_by_key` does what `remove_node_retain_edges` does for the condition
  -- that the keys are equal: the node is gone, and two other nodes are joined exactly if they were
  -- before or an edge into the node has the key of one out of it.
  pub remove_node_retain_edges_by_key_lem :
      (node : ℕ) (use_outgoing : Bool) (s : PyDiGraph st)
      → IsGuarded st s
      → Bypasses st equal_keys node s
          (remove_node_retain_edges_by_key same st node key use_outgoing s)
  unfolding remove_node_retain_edges_by_key
  remove_node_retain_edges_by_key_lem node use_outgoing s guarded =
      let ins = group_edges-Groups same eq key k total (λ e. e.source) (into s node) [] in
      let outs = group_edges-Groups same eq key k total (λ e. e.target) (out s node) [] in
      rw
        (
          ins.returns,
          outs.returns,
          remove_node_retain_edges_by_key,
          join_groups-add_all same st use_outgoing ins.groups outs.groups,
        )
        (Bypasses-add_all st equal_keys node s
          (flat_map (row same st use_outgoing outs.groups) ins.groups)
          (λ a b.
            let pairs = mem-rows s node use_outgoing a b _ _ ins outs in
            let bridges = Pair-Bridge s node a b in
            (λ h. bridges.0 (pairs.0 h), λ h. pairs.1 (bridges.1 h)))
          guarded)
