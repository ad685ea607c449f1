-- ===== src/DiGraph/Methods/Grown.antt =====
-- `add_child`, `add_parent` and `insert_between` keep what `check_cycle` promises.
use rustworkx.Base.{
  ℕ, ◌≡◌, ◌≢◌, refl, sym, ap, ◌∙◌, ◌⊎◌, inl, inr, Bool, true, false, some, none, Memᴰ,
}
use rustworkx.Base.{Bool-cases, subst}
use rustworkx.Petgraph.Stable.{Stable, EdgeReference, Linked, is_some}
use rustworkx.Petgraph.Walks.{Within, Acyclic-insert, Walk-first, Walk-last}
use rustworkx.DiGraph.{PyDiGraph, add_edge_checked, return, contains_node}
use rustworkx.DiGraph.Table.{Joins, Within-table}
use rustworkx.DiGraph.Cycles.{IsGuarded}
use rustworkx.DiGraph.Guard.{
  IsGuarded-Fewer, Fewer-remove_edge, Fewer-add_node, add_edge_checked-keeps,
}
use rustworkx.DiGraph.Loops.{after_inv, for_each_inv}
use rustworkx.DiGraph.Methods.{
  modify, add_node, link_nodes, add_child, add_parent, reroute, insert_between, direction_of,
}
use rustworkx.DiGraph.Methods.Keeps.{Keeps}

module _ {O : Type 0} (st : Stable O O) where
  open st use {edge, find_edge, node_weight, edges_directed}

  missing_link :
      (s : PyDiGraph st) (a b : ℕ) (w : O)
      → (contains_node st s a ≡ false) ⊎ (contains_node st s b ≡ false)
      → (link_nodes st a b w s).1 ≡ s
  unfolding link_nodes contains_node
  missing_link s a b w missing = rw (st.add_edge-none s.graph a b w missing, link_nodes)

  LinkedNodes : (s : PyDiGraph st) (a b : ℕ) (w : O) → (s' : PyDiGraph st) → Type 0
  LinkedNodes s a b w s' = (s'.check_cycle ≡ s.check_cycle) × Within (Joins st s) a b (Joins st s')

  link-Within : (s : PyDiGraph st) (a b : ℕ) (w : O) → LinkedNodes s a b w (link_nodes st a b w s).1
  unfolding link_nodes LinkedNodes contains_node
  link-Within s a b w = elim (Bool-cases (contains_node st s a)) [
    | inl ha ↦ elim (Bool-cases (contains_node st s b)) [
      | inl hb ↦
          let (i, g, done, empty, edges, nodes) = st.add_edge-some s.graph a b w ha hb in
          rw (done, link_nodes) (refl, Within-table (edge s.graph) (edge g) a b i w edges)
      | inr nb ↦ rw (missing_link s a b w (inr nb)) (refl, λ x y l. inl l)
    ]
    | inr na ↦ rw (missing_link s a b w (inl na)) (refl, λ x y l. inl l)
  ]

  -- A node that was just added is on no edge.
  fresh_target :
      (g : Stable.G st) (w : O) (a b : ℕ)
      → Linked (edge (st.add_node g w).1) a b
      → (a ≢ (st.add_node g w).0) × (b ≢ (st.add_node g w).0)
  fresh_target g w a b (i, v, at) =
      let before : edge g i ≡ some (a, b, v) = sym (st.edges-add_node g w i) ∙ at in
      let (ha, hb) = st.endpoints g i a b v before in
      let gone = st.index-add_node g w in
      (
        λ e. cc (ap is_some (subst (λ n. node_weight g n ≡ none) (sym e) gone), ha),
        λ e. cc (ap is_some (subst (λ n. node_weight g n ≡ none) (sym e) gone), hb),
      )

  fresh_ne :
      (s : PyDiGraph st) (a : ℕ) (w : O)
      → contains_node st s a ≡ true
      → (st.add_node s.graph w).0 ≢ a
  unfolding contains_node
  fresh_ne s a w ha e =
      cc
        (ap is_some (subst (λ k. node_weight s.graph k ≡ none) e (st.index-add_node s.graph w)), ha)

  pub add_child-Keeps :
      (parent : ℕ) (obj weight : O) (s : PyDiGraph st)
      → contains_node st s parent ≡ true
      → IsGuarded st s
      → IsGuarded st (add_child st parent obj weight s).1
  unfolding add_child add_node contains_node LinkedNodes
  add_child-Keeps parent obj weight s hp guarded =
      let (n, g) = st.add_node s.graph obj in
      let s1 = record s { graph = g } in
      let first : IsGuarded st s1 =
        IsGuarded-Fewer st s s1 refl (Fewer-add_node st s.graph obj) guarded in
      let (same, within) = link-Within s1 parent n weight in
      after_inv (IsGuarded st) (link_nodes st parent n weight s1) (λ _. return n)
        (λ on. Acyclic-insert within (first (sym same ∙ on)) (λ walk.
          let (b, l) = Walk-first (fresh_ne s parent obj hp) walk in
          (fresh_target s.graph obj n b l).0 refl))
        (λ _ _ h. h)

  pub add_parent-Keeps :
      (child : ℕ) (obj weight : O) (s : PyDiGraph st)
      → contains_node st s child ≡ true
      → IsGuarded st s
      → IsGuarded st (add_parent st child obj weight s).1
  unfolding add_parent add_node LinkedNodes
  add_parent-Keeps child obj weight s hc guarded =
      let (n, g) = st.add_node s.graph obj in
      let s1 = record s { graph = g } in
      let first : IsGuarded st s1 =
        IsGuarded-Fewer st s s1 refl (Fewer-add_node st s.graph obj) guarded in
      let (same, within) = link-Within s1 n child weight in
      after_inv (IsGuarded st) (link_nodes st n child weight s1) (λ _. return n)
        (λ on. Acyclic-insert within (first (sym same ∙ on)) (λ walk.
          let (a, l) = Walk-last (λ e. fresh_ne s child obj hc (sym e)) walk in
          (fresh_target s.graph obj a n l).1 refl))
        (λ _ _ h. h)

  -- The end of an edge that `insert_between` joins to the node in its place.
  abbrev pub other_end : Bool → EdgeReference O → ℕ
  other_end true r = r.target
  other_end false r = r.source

  drop-Keeps : (i : ℕ) → Keeps st (modify st (λ g. st.remove_edge g i))
  drop-Keeps i s h =
      IsGuarded-Fewer st s (record s { graph = st.remove_edge s.graph i }) refl
        (Fewer-remove_edge st s.graph i) h

  reroute-Keeps :
      (node ref_node : ℕ) (direction : Bool) (r : EdgeReference O)
      → node ≢ ref_node
      → node ≢ other_end direction r
      → Keeps st (reroute st node ref_node direction r)
  unfolding reroute
  reroute-Keeps node ref_node true r ne apart s h =
      after_inv (IsGuarded st) (add_edge_checked st ref_node node r.weight s) _
        (add_edge_checked-keeps st s ref_node node r.weight (λ e. ne (sym e)) h)
        λ _ s1 h1.
          after_inv (IsGuarded st) (add_edge_checked st node r.target r.weight s1) _
            (add_edge_checked-keeps st s1 node r.target r.weight apart h1)
            (λ _ s2 h2. drop-Keeps r.id s2 h2)
  reroute-Keeps node ref_node false r ne apart s h =
      after_inv (IsGuarded st) (add_edge_checked st r.source node r.weight s) _
        (add_edge_checked-keeps st s r.source node r.weight (λ e. apart (sym e)) h)
        λ _ s1 h1.
          after_inv (IsGuarded st) (add_edge_checked st node ref_node r.weight s1) _
            (add_edge_checked-keeps st s1 node ref_node r.weight ne h1)
            (λ _ s2 h2. drop-Keeps r.id s2 h2)

  -- `insert_between` keeps a graph that checks for cycles acyclic, where the node to insert is
  -- neither the reference node nor the other end of one of the edges to reroute.
  pub insert_between-Keeps :
      (node ref_node : ℕ) (direction : Bool) (s : PyDiGraph st)
      → node ≢ ref_node
      → ((r : EdgeReference O)
          → Memᴰ r (edges_directed s.graph ref_node (direction_of direction))
          → node ≢ other_end direction r)
      → IsGuarded st s
      → IsGuarded st (insert_between st node ref_node direction s).1
  unfolding insert_between
  insert_between-Keeps node ref_node direction s ne apart h =
      for_each_inv (IsGuarded st) (edges_directed s.graph ref_node (direction_of direction))
        (reroute st node ref_node direction)
        (λ r m. reroute-Keeps node ref_node direction r ne (apart r m)) s h
