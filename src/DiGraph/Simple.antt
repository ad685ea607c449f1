-- ===== src/DiGraph/Simple.antt =====
-- Without `multigraph` there are no parallel edges.
use rustworkx.Base.{ℕ, ◌≡◌, sym, ◌∙◌, inl, inr, false, not, ◌||◌, some}
use rustworkx.Base.{◌==◌, ==_iff, Bool-cases, arith}
use rustworkx.Petgraph.Stable.{Stable}
use rustworkx.DiGraph.{PyDiGraph, add_edge, contains_node}
use rustworkx.DiGraph.Table.{Inserted}
use rustworkx.DiGraph.Cycles.{refused, inserted, add_edge_checked-Checked}

module _ {O : Type 0} (st : Stable O O) where
  open st use {edge}

  -- Two edges with the same endpoints are one edge.
  abbrev pub IsSimple : PyDiGraph st → Type 0
  IsSimple s =
      s.multigraph ≡ false
      → (i j a b : ℕ) (v w : O) → edge s.graph i ≡ some (a, b, v)
      → edge s.graph j ≡ some (a, b, w)
      → i ≡ j

  -- The index under which an insertion stands is the only one for its endpoints.
  only_entry :
      {s : PyDiGraph st} {p c : ℕ} {w : O} {i : ℕ} {s' : PyDiGraph st}
      → Inserted st s p c w i s'
      → IsSimple s
      → s.multigraph ≡ false
      → (j : ℕ) (v : O) → edge s.graph j ≡ some (p, c, v)
      → i ≡ j
  only_entry {s} {p} {c} {w} {i} ins simple single j v at = elim ins.slot [
    | inl (empty, inl multi) ↦ cc (single, multi)
    | inl (empty, inr apart) ↦ absurd (apart (j, v, at))
    | inr (m, (u, old)) ↦ simple single i j p c u v old at
  ]

  Inserted-IsSimple :
      {s : PyDiGraph st} {p c : ℕ} {w : O} {k : ℕ} {s' : PyDiGraph st}
      → Inserted st s p c w k s'
      → IsSimple s
      → IsSimple s'
  Inserted-IsSimple {s} {p} {c} {w} {k} {s'} ins simple single i j a b u v at_i at_j =
      let single' : s.multigraph ≡ false = sym ins.same.multigraph ∙ single in
      elim (Bool-cases (k == i)) [
        | inl ei ↦ elim (Bool-cases (k == j)) [
          | inl ej ↦ sym ((==_iff k i).0 ei) ∙ (==_iff k j).0 ej
          | inr nj ↦
              let here : some (p, c, w) ≡ some (a, b, u) = sym (ins.edges i ∙ rw ei) ∙ at_i in
              let old : edge s.graph j ≡ some (a, b, v) = sym (ins.edges j ∙ rw nj) ∙ at_j in
              sym ((==_iff k i).0 ei) ∙ only_entry ins simple single' j v (cc (here, old))
        ]
        | inr ni ↦ elim (Bool-cases (k == j)) [
          | inl ej ↦
              let here : some (p, c, w) ≡ some (a, b, v) = sym (ins.edges j ∙ rw ej) ∙ at_j in
              let old : edge s.graph i ≡ some (a, b, u) = sym (ins.edges i ∙ rw ni) ∙ at_i in
              sym (only_entry ins simple single' i u (cc (here, old))) ∙ (==_iff k j).0 ej
          | inr nj ↦
              simple single' i j a b u v (sym (ins.edges i ∙ rw ni) ∙ at_i)
                (sym (ins.edges j ∙ rw nj) ∙ at_j)
        ]
      ]

  -- `add_edge` never makes parallel edges in a graph that is no multigraph and has none.
  pub add_edge-IsSimple :
      (s : PyDiGraph st) (p c : ℕ) (w : O) → IsSimple s → IsSimple (add_edge st p c w s).1
  unfolding add_edge
  add_edge-IsSimple s p c w simple =
      elim (Bool-cases (not (contains_node st s p) || not (contains_node st s c))) [
        | inl missing ↦ rw missing simple
        | inr there ↦
            rw there (elim (add_edge_checked-Checked st s p c w (ground arith) (ground arith)) [
              | refused on back e ↦ rw e simple
              | inserted i s' passed e ins ↦ rw e (Inserted-IsSimple ins simple)
            ])
      ]
