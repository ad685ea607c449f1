-- ===== src/DiGraph/Turn.antt =====
-- src/digraph.rs: `reverse`, `make_symmetric` and the degrees. The order in which a `HashMap`
-- yields its entries is an argument, and a Python callable is a function that may raise.
pub mod Half
pub mod Twice
pub mod Pairs
pub mod Backs
pub mod Keeps
mod Tests
use rustworkx.Base.{
  ℕ, Bool, true, false, ◌&&◌, Option, none, some, List, [], ◌∷◌, if◌then◌else◌, ◌==◌, ◌||◌, length,
}
use rustworkx.Petgraph.Stable.{Stable, EdgeReference, outgoing, incoming}
use rustworkx.DiGraph.{
  PyDiGraph, M, Outcome, ok, err, panic, ◌>>=◌, ◌>>◌, return, raise, for_each, add_edge_checked,
}

-- An entry of the `HashMap` in `make_symmetric`: source, target and index of an edge.
abbrev pub Entry : Type 0
Entry = ℕ × ℕ × ℕ

-- `HashMap::insert`
unfoldable pub insert_entry : Entry → List Entry → List Entry
insert_entry e [] = e ∷ []
insert_entry (a, b, i) ((x, y, j) ∷ es) =
    let rest = insert_entry (a, b, i) es in
    if x == a && y == b then (a, b, i) ∷ es else (x, y, j) ∷ rest

abbrev pub contains_key : ℕ → ℕ → List Entry → Bool
contains_key a b [] = false
contains_key a b ((x, y, j) ∷ es) = x == a && y == b || contains_key a b es

module _ {O : Type 0} (st : Stable O O) where
  open st use {edge, edges_directed, edge_indices, edge_references}

  unfoldable pub in_degree : PyDiGraph st → ℕ → ℕ
  in_degree self node = length (edges_directed self.graph node incoming)

  unfoldable pub out_degree : PyDiGraph st → ℕ → ℕ
  out_degree self node = length (edges_directed self.graph node outgoing)

  -- The body of the loop in `reverse`.
  unfoldable pub turn : ℕ → M st (Unit {0})
  turn idx self = elim (edge self.graph idx) [
    | none ↦ (err panic, self)
    | some (source_node, dest_node, weight) ↦
        elim (st.add_edge (st.remove_edge self.graph idx) dest_node source_node weight) [
          | none ↦ (err panic, record self { graph = st.remove_edge self.graph idx })
          | some (i, g) ↦ (ok tt, record self { graph = g })
        ]
  ]

  unfoldable pub reverse : M st (Unit {0})
  unfolding turn
  reverse self = for_each (edge_indices self.graph) turn self

  -- `collect` into the `HashMap`.
  unfoldable pub collect_entries : List (EdgeReference O) → List Entry → List Entry
  unfolding insert_entry
  collect_entries [] es = es
  collect_entries (r ∷ rs) es = collect_entries rs (insert_entry (r.source, r.target, r.id) es)

  abbrev pub payload : Option (O → Outcome O) → O → Outcome O
  payload none forward_weight = ok forward_weight
  payload (some callback) forward_weight = callback forward_weight

  -- The body of the loop in `make_symmetric`.
  unfoldable pub add_back : Option (O → Outcome O) → List Entry → Entry → M st (Unit {0})
  add_back edge_payload_fn edges (a, b, i) self =
      if contains_key b a edges then (ok tt, self) else elim (edge self.graph i) [
        | none ↦ (err panic, self)
        | some (_, _, forward_weight) ↦ elim (payload edge_payload_fn forward_weight) [
          | err e ↦ (err e, self)
          | ok weight ↦ (do add_edge_checked st b a weight; return tt) self
        ]
      ]

  unfoldable pub make_symmetric :
      (List Entry → List Entry) → Option (O → Outcome O) → M st (Unit {0})
  unfolding add_back collect_entries
  make_symmetric order edge_payload_fn self =
      let edges = collect_entries (edge_references self.graph) [] in
      for_each (order edges) (add_back edge_payload_fn edges) self
