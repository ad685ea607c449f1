-- ===== src/DiGraph/Rewire/Laws.antt =====
-- `remove_node_retain_edges` joins the nodes that the removed node joined.
use rustworkx.Base.{
  ℕ, ◌≡◌, ◌≢◌, refl, sym, ap, ◌∙◌, ◌↔◌, ◌⊎◌, inl, inr, Bool, true, Option, some, none,
}
use rustworkx.Base.{if◌then◌else◌, ◌==◌, arith}
use rustworkx.Petgraph.Stable.{
  Stable, EdgeReference, outgoing, incoming, is_some, without_node, Linked,
}
use rustworkx.Base.{List, Memᴰ}
use rustworkx.DiGraph.{PyDiGraph, Outcome, ok, contains_node, after}
use rustworkx.DiGraph.Table.{Joins}
use rustworkx.DiGraph.Cycles.{IsGuarded}
use rustworkx.DiGraph.Guard.{IsGuarded-Fewer, Fewer-remove_node}
use rustworkx.DiGraph.Rewire.{add_all, check_condition, remove_node_retain_edges}
use rustworkx.DiGraph.Rewire.Bridges.{Bridged, add_all_lem}
use rustworkx.DiGraph.Rewire.Rows.{IsTotal, InRows, retain_rows_lem}

module _ {O : Type 0} (st : Stable O O) where
  open st use {G, edge, node_weight, edges_directed}

  pub Linked-remove_node :
      (g : G) (n a b : ℕ)
      → Linked (edge (st.remove_node g n)) a b ↔ ((a ≢ n) × (b ≢ n) × Linked (edge g) a b)
  Linked-remove_node g n a b = (
    λ l.
        let (i, w, at) = l in
        let kept = apart (edge g i) w (sym (st.edges-remove_node g n i) ∙ at) in
        (kept.0, kept.1, Fewer-remove_node st g n a b l),
    λ (na, nb, (i, w, at)). (i, w, st.edges-remove_node g n i ∙ rw at (stays w na nb)),
  )
    where
      apart :
          (o : Option (ℕ × ℕ × O)) (w : O) → without_node n o ≡ some (a, b, w) → (a ≢ n) × (b ≢ n)
      apart none w e = cc
      apart (some (x, y, v)) w e = ground arith

      stays : (w : O) → a ≢ n → b ≢ n → without_node n (some (a, b, w)) ≡ some (a, b, w)
      stays w na nb = ground arith

  -- An edge from `a` to `node` and one from `node` to `b`, which the condition accepts.
  pub record Bridge (condition : Option (O → O → Outcome Bool)) (s : PyDiGraph st) (node a b : ℕ)
      : Type 0 where
    pub i : ℕ
    pub j : ℕ
    pub v : O
    pub w : O
    pub into : edge s.graph i ≡ some (a, node, v)
    pub out : edge s.graph j ≡ some (node, b, w)
    pub accepted : check_condition condition v w ≡ ok true

  -- What the call returns and leaves.
  pub record Bypasses (condition : Option (O → O → Outcome Bool)) (node : ℕ) (s : PyDiGraph st)
      (r : Outcome (Unit {0}) × PyDiGraph st) : Type 0 where
    pub after_all : PyDiGraph st
    pub returns : r ≡ (ok tt, after_all)
    pub nodes :
        (n : ℕ)
        → node_weight after_all.graph n ≡ (if node == n then none else node_weight s.graph n)
    pub node_removed : after_all.node_removed ≡ contains_node st s node
    pub guarded : IsGuarded st after_all
    pub joins :
        (a b : ℕ)
        → Joins st after_all a b
          ↔ ((a ≢ node) × (b ≢ node) × (Joins st s a b ⊎ Bridge condition s node a b))

  Bridge-InRows :
      (condition : Option (O → O → Outcome Bool)) (use_outgoing : Bool) (s : PyDiGraph st)
      (node a b : ℕ)
      → ((w : O) × InRows condition use_outgoing
            (a, b, w)
            (edges_directed s.graph node incoming)
            (edges_directed s.graph node outgoing))
        ↔ Bridge condition s node a b
  Bridge-InRows condition use_outgoing s node a b = (
    λ (w, (x, mx, (y, my, okay, e))).
        let (tx, at_x) = (st.mem-edges_directed s.graph node incoming x).0 mx in
        let (ty, at_y) = (st.mem-edges_directed s.graph node outgoing y).0 my in
        let ea : a ≡ x.source = ap (λ t. t.0) e in
        let eb : b ≡ y.target = ap (λ t. t.1) e in
        record {
          i = x.id;
          j = y.id;
          v = x.weight;
          w = y.weight;
          into = cc (at_x, tx, ea);
          out = cc (at_y, ty, eb);
          accepted = okay;
        },
    λ k.
        let x : EdgeReference O = record { id = k.i; source = a; target = node; weight = k.v } in
        let y : EdgeReference O = record { id = k.j; source = node; target = b; weight = k.w } in
        (
          if use_outgoing then k.w else k.v,
          (
            x,
            (st.mem-edges_directed s.graph node incoming x).1 (refl, k.into),
            (y, (st.mem-edges_directed s.graph node outgoing y).1 (refl, k.out), k.accepted, refl),
          ),
        ),
  )

  Bridge-Bridged :
      (condition : Option (O → O → Outcome Bool)) (s : PyDiGraph st) (node a b : ℕ)
      → Bridge condition s node a b
      → Bridged st s a b
  unfolding contains_node
  Bridge-Bridged condition s node a b k = record {
    source = (st.endpoints s.graph k.i a node k.v k.into).0;
    target = (st.endpoints s.graph k.j node b k.w k.out).1;
    mid = node;
    into = (k.i, k.v, k.into);
    out = (k.j, k.w, k.out);
  }

  -- What the methods that retain edges do in the end.
  abbrev pub drop_node : ℕ → PyDiGraph st → Outcome (Unit {0}) × PyDiGraph st
  drop_node node s = (
    ok tt,
    record s {
      graph = st.remove_node s.graph node;
      node_removed = is_some (node_weight s.graph node);
    },
  )

  -- Edges that bridge `node` are added, and the node is removed.
  pub Bypasses-add_all :
      (condition : Option (O → O → Outcome Bool)) (node : ℕ) (s : PyDiGraph st)
      (l : List (ℕ × ℕ × O))
      → ((a b : ℕ) → ((w : O) × Memᴰ (a, b, w) l) ↔ Bridge condition s node a b)
      → IsGuarded st s
      → Bypasses condition node s (after (add_all st l s) (λ _. drop_node node))
  unfolding contains_node
  Bypasses-add_all condition node s l there guarded =
      let all =
        add_all_lem st l s (λ p c w m. Bridge-Bridged condition s node p c ((there p c).0 (w, m)))
          guarded in
      let last = (drop_node node all.after_all).1 in
      record {
        after_all = last;
        returns = ap (λ r. after r (λ _. drop_node node)) all.returns;
        nodes = λ n. st.nodes-remove_node all.after_all.graph node n ∙ rw (all.same.nodes n) refl;
        node_removed = ap is_some (all.same.nodes node);
        guarded =
            IsGuarded-Fewer st all.after_all last refl
              (Fewer-remove_node st all.after_all.graph node) all.guarded;
        joins = λ a b. (
          λ k.
              let (na, nb, k') = (Linked-remove_node all.after_all.graph node a b).0 k in
              (
                na,
                nb,
                elim ((all.joins a b).0 k') [ inl old ↦ inl old | inr m ↦ inr ((there a b).0 m) ],
              ),
          λ (na, nb, h). (Linked-remove_node all.after_all.graph node a b).1 (
            na,
            nb,
            (all.joins a b).1 (elim h [ inl old ↦ inl old | inr k ↦ inr ((there a b).1 k) ]),
          ),
        );
      }

  -- In a graph that keeps what `check_cycle` promises, and with a condition that raises nothing,
  -- `remove_node_retain_edges` returns normally, whatever `check_cycle` says: `node` is gone, two
  -- other nodes are joined exactly if they were before or the condition accepted an edge into
  -- `node` with one out of it, and the graph keeps the promise. `node_removed` then says whether
  -- this call removed a node.
  pub remove_node_retain_edges_lem :
      (node : ℕ) (use_outgoing : Bool) (condition : Option (O → O → Outcome Bool))
      (s : PyDiGraph st)
      → IsTotal condition use_outgoing
      → IsGuarded st s
      → Bypasses condition node s (remove_node_retain_edges st node use_outgoing condition s)
  unfolding remove_node_retain_edges contains_node
  remove_node_retain_edges_lem node use_outgoing condition s total guarded =
      let (l, done, mem) =
        retain_rows_lem condition use_outgoing total (edges_directed s.graph node incoming)
          (edges_directed s.graph node outgoing) in
      let there = Bridge-InRows condition use_outgoing s node in
      rw (done, remove_node_retain_edges)
        (Bypasses-add_all condition node s l
          (λ a b. (
            λ (w, m). (there a b).0 (w, (mem (a, b, w)).0 m),
            λ k. let (w, r) = (there a b).1 k in (w, (mem (a, b, w)).1 r),
          ))
          guarded)
