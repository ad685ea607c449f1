-- ===== src/Connectivity/Whole.antt =====
-- The set of one node, and graphs that are one component.
use rustworkx.Base.{
  ℕ, ◌≡◌, ◌≢◌, ◌≤◌, refl, sym, ap, ◌∙◌, ◌⊎◌, inl, inr, Bool, true, false, List, [], ◌∷◌, Memᴰ, ◌↔◌,
}
use rustworkx.Base.{
  ◌==◌, ==_iff, count, count_if, elem, elem_iff, elem-count, length, arith, Bool-cases, List-cases,
  count-le_of_length, length-le_of_count,
}
use rustworkx.Petgraph.Walks.{Walk, Walk-append}
use rustworkx.Petgraph.View.{Adjacency}
use rustworkx.DiGraph.{ok, err, null_graph, invalid_node}
use rustworkx.Connectivity.{node_connected_component, is_connected, is_weakly_connected}
use rustworkx.Connectivity.Component.{
  Adjacent, Walk-sym, Walk-Closed, bfs_undirected-Finds, neighbors-closed,
}
use rustworkx.Connectivity.Classes.{connected_components-Parts}

Bool-ext : (a b : Bool) → (a ≡ true → b ≡ true) → (b ≡ true → a ≡ true) → a ≡ b
Bool-ext true b f g = sym (f refl)
Bool-ext false true f g = g refl
Bool-ext false false f g = refl

module _ (graph : Adjacency) where
  open graph use {node_identifiers}

  -- The set of a node.
  pub node_connected_component_lem :
      (node : ℕ)
      → elem node node_identifiers ≡ true
      → (c : List ℕ) × (node_connected_component graph node ≡ ok c)
        × ((v : ℕ) → (elem v c ≡ true) ↔ Walk (Adjacent graph) v node)
        × ((v : ℕ) → count v c ≤ 1)
  unfolding node_connected_component
  node_connected_component_lem node there =
      let f =
        bfs_undirected-Finds graph node (λ _. false) (λ _. false) (λ v. cc) (λ v h. h) (λ u w. cc)
          refl in
      (
        f.component,
        rw (graph.contains_node-elem node, there, f.returns, node_connected_component) refl,
        f.reached,
        f.once,
      )

  -- `node_connected_component` raises `InvalidNode` on a number that is no node of the graph, and
  -- on a node returns a set: the nodes that walks in either direction lead to, each once.
  pub node_connected_component_cases :
      (node : ℕ)
      → (elem node node_identifiers ≡ false)
          × (node_connected_component graph node ≡ err invalid_node)
        ⊎ (elem node node_identifiers ≡ true)
          × (c : List ℕ) × (node_connected_component graph node ≡ ok c)
          × ((v : ℕ) → (elem v c ≡ true) ↔ Walk (Adjacent graph) v node)
          × ((v : ℕ) → count v c ≤ 1)
  unfolding node_connected_component
  node_connected_component_cases node = elim (Bool-cases (elem node node_identifiers)) [
    | inl there ↦
        let (c, done, walks, once) = node_connected_component_lem node there in
        inr (there, c, done, walks, once)
    | inr outside ↦
        inl (outside, rw (graph.contains_node-elem node, outside, node_connected_component) refl)
  ]

  Walk-inside :
      {v r : ℕ}
      → Walk (Adjacent graph) v r
      → elem r node_identifiers ≡ true
      → elem v node_identifiers ≡ true
  Walk-inside w h =
      Walk-Closed graph (λ x. elem x node_identifiers)
        (λ u x _ r.
          (elem_iff x node_identifiers).1 (neighbors-closed graph u x ((elem_iff x _).0 r)))
        w h

  -- Every two nodes are joined.
  abbrev pub Connected : Type 0
  Connected =
      (u v : ℕ) → Memᴰ u node_identifiers → Memᴰ v node_identifiers → Walk (Adjacent graph) v u

  inside :
      (c : List ℕ) (r : ℕ)
      → elem r node_identifiers ≡ true
      → ((v : ℕ) → (elem v c ≡ true) ↔ Walk (Adjacent graph) v r)
      → ((v : ℕ) → count v c ≤ 1)
      → (v : ℕ) → count v c ≤ count v node_identifiers
  inside c r there walks once v = elim (Bool-cases (elem v c)) [
    | inl h ↦
        ground (arith, once v, Walk-inside ((walks v).0 h) there, elem-count v node_identifiers)
    | inr h ↦ ground (arith, elem-count v c)
  ]

  -- A component is as large as the graph exactly if the graph is connected.
  pub length_component_iff :
      (c : List ℕ) (r : ℕ)
      → elem r node_identifiers ≡ true
      → ((v : ℕ) → (elem v c ≡ true) ↔ Walk (Adjacent graph) v r)
      → ((v : ℕ) → count v c ≤ 1)
      → ((length c == graph.node_count) ≡ true) ↔ Connected
  length_component_iff c r there walks once =
      let within = inside c r there walks once in
      (
        λ e.
            let all =
              count-le_of_length c node_identifiers within (
                omega (arith, (==_iff (length c) graph.node_count).0 e, graph.node_count-length)) in
            let joined : (v : ℕ) → Memᴰ v node_identifiers → Walk (Adjacent graph) v r = λ v m.
              (walks v).0 (
                ground (
                  arith,
                  all v,
                  (elem_iff v node_identifiers).1 m,
                  elem-count v node_identifiers,
                  elem-count v c,
                )) in
            λ u v mu mv. Walk-append (Walk-sym graph (joined u mu)) (joined v mv),
        λ h.
            let all : (v : ℕ) → count v node_identifiers ≤ count v c = λ v.
              elim (Bool-cases (elem v node_identifiers)) [
                | inl m ↦
                    let w =
                      h r v ((elem_iff r node_identifiers).0 there)
                        ((elem_iff v node_identifiers).0 m) in
                    ground (arith, graph.once v, (walks v).1 w, elem-count v c)
                | inr m ↦ ground (arith, elem-count v node_identifiers)
              ] in
            (==_iff (length c) graph.node_count).1 (
              omega (
                arith,
                graph.node_count-length,
                length-le_of_count c node_identifiers within,
                length-le_of_count node_identifiers c all,
              )),
      )

  -- The answers of both functions on a graph with a node.
  is_connected-node :
      (node : ℕ) (rest : List ℕ)
      → node_identifiers ≡ node ∷ rest
      → (b : Bool) × (is_connected graph ≡ ok b) × ((b ≡ true) ↔ Connected)
  unfolding is_connected
  is_connected-node node rest e =
      let there : elem node node_identifiers ≡ true = rw e (ground arith) in
      let (c, done, walks, once) = node_connected_component_lem node there in
      (
        length c == graph.node_count,
        rw (e, done, is_connected) refl,
        length_component_iff c node there walks once,
      )

  is_weakly_connected-node :
      (node : ℕ) (rest : List ℕ)
      → node_identifiers ≡ node ∷ rest
      → (b : Bool) × (is_weakly_connected graph ≡ ok b) × ((b ≡ true) ↔ Connected)
  unfolding is_weakly_connected
  is_weakly_connected-node node rest e =
      let there : elem node node_identifiers ≡ true = rw e (ground arith) in
      let some_node : (graph.node_count == 0) ≡ false =
        ground (arith, graph.node_count-length, ap length e) in
      let (comps, done, p) = connected_components-Parts graph in
      elim (List-cases comps) [
        | inl none_found ↦
            let zero_times = ap (count_if (elem node)) none_found in
            absurd (omega (arith, zero_times, p.covers node there refl))
        | inr (first, more, f) ↦
            let (r, m, walks, once) = p.classes first (rw f (Memᴰ.head refl)) in
            (
              length first == graph.node_count,
              rw (some_node, done, f, is_weakly_connected) refl,
              length_component_iff first r ((elem_iff r node_identifiers).1 m) walks once,
            )
      ]

  -- A graph with no node raises `NullGraph`; for any other `is_connected` tells whether every two
  -- nodes are joined, and `is_weakly_connected` the same.
  pub is_connected_lem :
      (node_identifiers ≡ [])
        × (is_connected graph ≡ err null_graph)
        × (is_weakly_connected graph ≡ err null_graph)
      ⊎ (b : Bool) × (node_identifiers ≢ [])
        × (is_connected graph ≡ ok b)
        × (is_weakly_connected graph ≡ ok b)
        × ((b ≡ true) ↔ Connected)
  unfolding is_connected is_weakly_connected
  is_connected_lem = elim (List-cases node_identifiers) [
    | inl e ↦
        let empty : graph.node_count ≡ 0 = graph.node_count-length ∙ ap length e in
        inl (e, rw e refl, rw empty refl)
    | inr (node, rest, e) ↦
        let (b, done, tells) = is_connected-node node rest e in
        let (b', done', tells') = is_weakly_connected-node node rest e in
        let same : b' ≡ b = Bool-ext b' b (λ h. tells.1 (tells'.0 h)) (λ h. tells'.1 (tells.0 h)) in
        inr (b, λ h. cc (h, e), done, done' ∙ ap ok same, tells)
  ]
