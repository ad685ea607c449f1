-- ===== src/DiGraph/Table.antt =====
-- `add_edge_no_cycle_check` as a write to the table of edges.
use rustworkx.Base.{ℕ, ◌≡◌, refl, sym, ap, ◌∙◌, ◌⊎◌, inl, inr, true, false, Option, some, none}
use rustworkx.Base.{if◌then◌else◌, ◌==◌, ==_iff, Bool-cases, Option-cases, arith}
use rustworkx.Petgraph.Stable.{Stable, Linked, with_weight}
use rustworkx.Petgraph.Walks.{Within}
use rustworkx.DiGraph.{PyDiGraph, ok, add_edge_no_cycle_check, contains_node}

-- One entry that is written joins at most one more pair.
pub Within-table :
    {O : Type 0} (look look' : ℕ → Option (ℕ × ℕ × O)) (p c i : ℕ) (w : O)
    → ((j : ℕ) → look' j ≡ (if i == j then some (p, c, w) else look j))
    → Within (Linked look) p c (Linked look')
Within-table look look' p c i w table a b (j, v, at) = elim (Bool-cases (i == j)) [
  | inl e ↦
      let here : some (p, c, w) ≡ some (a, b, v) = sym (table j ∙ rw e) ∙ at in
      inr (cc here, cc here)
  | inr n ↦ inl (j, v, sym (table j ∙ rw n) ∙ at)
]

module _ {O : Type 0} (st : Stable O O) where
  open st use {edge, node_weight, find_edge}

  abbrev pub Joins : PyDiGraph st → ℕ → ℕ → Type 0
  Joins s = Linked (edge s.graph)

  -- The nodes and the attributes of `s'` are those of `s`.
  pub record SameNodes (s s' : PyDiGraph st) : Type 0 where
    pub nodes : (n : ℕ) → node_weight s'.graph n ≡ node_weight s.graph n
    pub check_cycle : s'.check_cycle ≡ s.check_cycle
    pub node_removed : s'.node_removed ≡ s.node_removed
    pub multigraph : s'.multigraph ≡ s.multigraph
    pub attrs : s'.attrs ≡ s.attrs

  -- `s'` is `s` with the entry `i` of its edges set to (p, c, w): a new entry, or in a graph that
  -- is no multigraph the entry of an edge from `p` to `c`.
  pub record Inserted (s : PyDiGraph st) (p c : ℕ) (w : O) (i : ℕ) (s' : PyDiGraph st)
      : Type 0 where
    pub same : SameNodes s s'
    pub edges : (j : ℕ) → edge s'.graph j ≡ (if i == j then some (p, c, w) else edge s.graph j)
    pub slot :
        (edge s.graph i ≡ none) × ((s.multigraph ≡ true) ⊎ ¬ Joins s p c)
        ⊎ (s.multigraph ≡ false) × ((v : O) × (edge s.graph i ≡ some (p, c, v)))

  update_Inserted :
      (s : PyDiGraph st) (p c i : ℕ) (w : O)
      → s.multigraph ≡ false
      → find_edge s.graph p c ≡ some i
      → Inserted s p c w i (record s { graph = st.set_edge_weight s.graph i w })
  update_Inserted s p c i w single found =
      let (v, at) = st.find_edge-some s.graph p c i found in
      record {
        same = record {
          nodes = st.nodes-set_edge_weight s.graph i w;
          check_cycle = refl;
          node_removed = refl;
          multigraph = refl;
          attrs = refl;
        };
        edges = λ j. elim (Bool-cases (i == j)) [
          | inl e ↦
              let same_index = (==_iff i j).0 e in
              st.edges-set_edge_weight s.graph i w j
              ∙ rw e (rw (← same_index) (ap (with_weight w) at))
          | inr n ↦ st.edges-set_edge_weight s.graph i w j ∙ rw n
        ];
        slot = inr (single, (v, at));
      }

  insert_Inserted :
      (s : PyDiGraph st) (p c : ℕ) (w : O)
      → contains_node st s p ≡ true
      → contains_node st s c ≡ true
      → (s.multigraph ≡ true) ⊎ ¬ Joins s p c
      → (i : ℕ) × (g : Stable.G st) × (st.add_edge s.graph p c w ≡ some (i, g))
        × Inserted s p c w i (record s { graph = g })
  unfolding contains_node
  insert_Inserted s p c w hp hc free =
      let (i, g, done, empty, edges, nodes) = st.add_edge-some s.graph p c w hp hc in
      (
        i,
        g,
        done,
        record {
          same = record {
            nodes = nodes;
            check_cycle = refl;
            node_removed = refl;
            multigraph = refl;
            attrs = refl;
          };
          edges = edges;
          slot = inl (empty, free);
        },
      )

  -- Between nodes of the graph `add_edge_no_cycle_check` returns the index of the entry that it
  -- writes: a free entry, or in a graph that is no multigraph the entry of an edge with these
  -- endpoints. All other entries, all nodes and all attributes stay.
  pub add_edge_no_cycle_check_lem :
      (s : PyDiGraph st) (p c : ℕ) (w : O)
      → contains_node st s p ≡ true
      → contains_node st s c ≡ true
      → (i : ℕ) × (s' : PyDiGraph st) × (add_edge_no_cycle_check st p c w s ≡ (ok i, s'))
        × Inserted s p c w i s'
  unfolding add_edge_no_cycle_check
  add_edge_no_cycle_check_lem s p c w hp hc = elim (Bool-cases s.multigraph) [
    | inl m ↦
        let (i, g, done, ins) = insert_Inserted s p c w hp hc (inl m) in
        (i, record s { graph = g }, ground (arith, done), ins)
    | inr m ↦ elim (Option-cases (find_edge s.graph p c)) [
      | inl absent ↦
          let (i, g, done, ins) =
            insert_Inserted s p c w hp hc (inr (st.find_edge-none s.graph p c absent)) in
          (i, record s { graph = g }, ground (arith, done), ins)
      | inr (i, found) ↦ (
        i,
        record s { graph = st.set_edge_weight s.graph i w },
        ground arith,
        update_Inserted s p c i w m found,
      )
    ]
  ]

  -- The insertion adds at most the edge from `p` to `c`.
  pub Inserted-Within :
      {s : PyDiGraph st} {p c : ℕ} {w : O} {i : ℕ} {s' : PyDiGraph st}
      → Inserted s p c w i s'
      → Within (Joins s) p c (Joins s')
  Inserted-Within {s} {p} {c} {w} {i} {s'} ins =
      Within-table (edge s.graph) (edge s'.graph) p c i w ins.edges
