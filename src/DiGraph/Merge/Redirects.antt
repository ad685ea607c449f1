-- ===== src/DiGraph/Merge/Redirects.antt =====
-- What `merge_nodes` leaves.
use rustworkx.Base.{
  ℕ, ◌≡◌, ◌≢◌, refl, sym, ap, ◌∙◌, subst, ◌↔◌, ◌⊎◌, inl, inr, Bool, true, false, some, none, Memᴰ,
  Memᴰ-append, Memᴰ-map,
}
use rustworkx.Base.{if◌then◌else◌, ◌==◌, ==_iff, arith}
use mathlib.Core.List.Memᴰ
use rustworkx.Petgraph.Stable.{Stable, EdgeReference, outgoing, incoming, is_some}
use rustworkx.DiGraph.{PyDiGraph, Outcome, ok, err, index_error, contains_node}
use rustworkx.DiGraph.Table.{Joins}
use rustworkx.DiGraph.Methods.{remove_node}
use rustworkx.DiGraph.Rewire.Laws.{Linked-remove_node}
use rustworkx.DiGraph.Merge.{redirect, edges_to_add, add_edges, merge_nodes}
use rustworkx.DiGraph.Merge.Unchecked.{both_there, adds, stops, add_edges-Added}

module _ {O : Type 0} (st : Stable O O) where
  open st use {edges_directed, node_weight}

  module _ (u v : ℕ) (s : PyDiGraph st) where
    -- The state after `remove_node`.
    abbrev without_u : PyDiGraph st
    without_u = record s { graph = st.remove_node s.graph u; node_removed = true }

    redirect-out :
        (r : EdgeReference O) → r.source ≡ u → redirect st u v r ≡ (v, r.target, r.weight)
    unfolding redirect
    redirect-out r e = let at = (==_iff r.source u).1 e in rw at refl

    redirect-in : (r : EdgeReference O) → r.source ≢ u → redirect st u v r ≡ (r.source, v, r.weight)
    unfolding redirect
    redirect-in r ne = ground (arith, ==_iff r.source u)

    -- An edge out of `u` takes the place of one from `v`.
    moved-out : (b : ℕ) → Joins st s u b → (w : O) × Memᴰ (v, b, w) (edges_to_add st u v s)
    moved-out b (i, w, at) =
        let r : EdgeReference O = record { id = i; source = u; target = b; weight = w } in
        (
          w,
          (Memᴰ-map (redirect st u v) (v, b, w) _).1 (
            r,
            Memᴰ.append_left _ ((st.mem-edges_directed s.graph u outgoing r).1 (refl, at)),
            sym (redirect-out r refl),
          ),
        )

    moved-in : (a : ℕ) → a ≢ u → Joins st s a u → (w : O) × Memᴰ (a, v, w) (edges_to_add st u v s)
    moved-in a ne (i, w, at) =
        let r : EdgeReference O = record { id = i; source = a; target = u; weight = w } in
        (
          w,
          (Memᴰ-map (redirect st u v) (a, v, w) _).1 (
            r,
            Memᴰ.append_right _ ((st.mem-edges_directed s.graph u incoming r).1 (refl, at)),
            sym (redirect-in r ne),
          ),
        )

    -- Where no edge joins `u` to itself, these are all.
    moved :
        ¬ Joins st s u u
        → (a b : ℕ) (w : O) → Memᴰ (a, b, w) (edges_to_add st u v s)
        → ((a ≡ v) × Joins st s u b) ⊎ ((b ≡ v) × Joins st s a u)
    moved simple a b w m =
        let (r, mr, e) = (Memᴰ-map (redirect st u v) (a, b, w) _).0 m in
        elim ((Memᴰ-append r (edges_directed s.graph u outgoing) _).0 mr) [
          | inl mo ↦
              let (tr, at) = (st.mem-edges_directed s.graph u outgoing r).0 mo in
              let to = e ∙ redirect-out r tr in
              let eb : b ≡ r.target = ap (λ t. t.1) to in
              let from_u : Joins st s u r.target = (r.id, r.weight, cc (at, tr)) in
              inl (ap (λ t. t.0) to, subst (Joins st s u) (sym eb) from_u)
          | inr mi ↦
              let (tr, at) = (st.mem-edges_directed s.graph u incoming r).0 mi in
              let to_u : Joins st s r.source u = (r.id, r.weight, cc (at, tr)) in
              let ne : r.source ≢ u = λ same. simple (subst (λ x. Joins st s x u) same to_u) in
              let to = e ∙ redirect-in r ne in
              let ea : a ≡ r.source = ap (λ t. t.0) to in
              inr (ap (λ t. t.1) to, subst (λ x. Joins st s x u) (sym ea) to_u)
        ]

    -- The graph after `u` was merged into `v`.
    pub record Merged (r : Outcome (Unit {0}) × PyDiGraph st) : Type 0 where
      pub after_all : PyDiGraph st
      pub returns : r ≡ (ok tt, after_all)
      pub nodes :
          (n : ℕ) → node_weight after_all.graph n ≡ (if u == n then none else node_weight s.graph n)
      pub joins :
          (a b : ℕ)
          → Joins st after_all a b ↔ (
              (a ≢ u) × (b ≢ u) × Joins st s a b
              ⊎ (a ≡ v) × Joins st s u b
              ⊎ (b ≡ v) × Joins st s a u)

    merges :
        (equal : O → O → Outcome Bool) (x y : O)
        → node_weight s.graph u ≡ some x
        → node_weight s.graph v ≡ some y
        → equal x y ≡ ok true
        → merge_nodes st equal u v s ≡ add_edges st (edges_to_add st u v s) without_u
    unfolding merge_nodes remove_node
    merges equal x y hu hv same = rw (hu, hv, same, merge_nodes) refl

    u_gone : contains_node st without_u u ≡ false
    unfolding contains_node
    u_gone = ap is_some (st.nodes-remove_node s.graph u u) ∙ ground arith

    stays : (n : ℕ) → n ≢ u → contains_node st s n ≡ true → contains_node st without_u n ≡ true
    unfolding contains_node
    stays n ne h = ground (arith, st.nodes-remove_node s.graph u n)

    -- Both ends of an edge that is added are in the graph.
    ends_there :
        u ≢ v
        → contains_node st s v ≡ true
        → ¬ Joins st s u u
        → (a b : ℕ) (w : O) → Memᴰ (a, b, w) (edges_to_add st u v s)
        → both_there st without_u a b ≡ true
    unfolding contains_node
    ends_there ne there simple a b w m =
        let v_there = stays v (λ e. ne (sym e)) there in
        elim (moved simple a b w m) [
          | inl (ea, (i, w', at)) ↦
              let nb : b ≢ u = λ e. simple (subst (Joins st s u) e (i, w', at)) in
              let b_there = stays b nb (st.endpoints s.graph i u b w' at).1 in
              let a_there = ap (contains_node st without_u) ea ∙ v_there in
              ground (arith, a_there, b_there)
          | inr (eb, (i, w', at)) ↦
              let na : a ≢ u = λ e. simple (subst (λ t. Joins st s t u) e (i, w', at)) in
              let a_there = stays a na (st.endpoints s.graph i a u w' at).0 in
              let b_there = ap (contains_node st without_u) eb ∙ v_there in
              ground (arith, a_there, b_there)
        ]

    -- Between two different nodes whose weights compare equal, in a graph that does not check for
    -- cycles and in which no edge joins `u` to itself, `merge_nodes` returns normally: `u` is gone,
    -- each edge from or to `u` is one from or to `v`, and the other edges stay.
    pub merge_nodes_lem :
        (equal : O → O → Outcome Bool) (x y : O)
        → u ≢ v
        → node_weight s.graph u ≡ some x
        → node_weight s.graph v ≡ some y
        → equal x y ≡ ok true
        → s.check_cycle ≡ false
        → ¬ Joins st s u u
        → Merged (merge_nodes st equal u v s)
    unfolding contains_node
    merge_nodes_lem equal x y ne hu hv same off simple =
        let begins = merges equal x y hu hv same in
        elim (add_edges-Added st (edges_to_add st u v s) without_u off) [
          | stops s' e kept p c w m bad ↦
              absurd (let there = ends_there ne (ap is_some hv) simple p c w m in cc (there, bad))
          | adds s' e kept all joins ↦ record {
            after_all = s';
            returns = begins ∙ e;
            nodes = λ n. kept.nodes n ∙ st.nodes-remove_node s.graph u n;
            joins = λ a b. (
              λ h. elim ((joins a b).0 h) [
                | inl old ↦ inl ((Linked-remove_node st s.graph u a b).0 old)
                | inr (w, m) ↦ inr (moved simple a b w m)
              ],
              λ h. (joins a b).1 (elim h [
                | inl old ↦ inl ((Linked-remove_node st s.graph u a b).1 old)
                | inr (inl (ea, l)) ↦
                    let (w, m) = moved-out b l in
                    inr (w, subst (λ t. Memᴰ (t, b, w) (edges_to_add st u v s)) (sym ea) m)
                | inr (inr (eb, l)) ↦
                    let na : a ≢ u =
                      λ same_node. simple (subst (λ t. Joins st s t u) same_node l) in
                    let (w, m) = moved-in a na l in
                    inr (w, subst (λ t. Memᴰ (a, t, w) (edges_to_add st u v s)) (sym eb) m)
              ]),
            );
          }
        ]

    -- A call whose two nodes have equal weights, on a node with an edge to itself and in a graph
    -- that does not check for cycles, raises an `IndexError` after it has removed the node.
    pub merge_nodes_self_loop :
        (equal : O → O → Outcome Bool) (x y : O)
        → node_weight s.graph u ≡ some x
        → node_weight s.graph v ≡ some y
        → equal x y ≡ ok true
        → s.check_cycle ≡ false
        → Joins st s u u
        → (s' : PyDiGraph st) × (merge_nodes st equal u v s ≡ (err index_error, s'))
          × (contains_node st s' u ≡ false)
    unfolding contains_node
    merge_nodes_self_loop equal x y hu hv same off loop_ =
        let begins = merges equal x y hu hv same in
        let (w, m) = moved-out u loop_ in
        elim (add_edges-Added st (edges_to_add st u v s) without_u off) [
          | stops s' e kept p c w' m' bad ↦ (s', begins ∙ e, ap is_some (kept.nodes u) ∙ u_gone)
          | adds s' e kept all joins ↦ absurd (ground (arith, all v u w m, u_gone))
        ]
