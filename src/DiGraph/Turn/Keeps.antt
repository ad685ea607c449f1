-- ===== src/DiGraph/Turn/Keeps.antt =====
-- `reverse` and `make_symmetric` keep what `check_cycle` promises.
use rustworkx.Base.{
  ℕ, ◌≡◌, ◌≢◌, refl, sym, ap, ◌∙◌, subst, inl, inr, true, false, Option, some, List, [], Memᴰ,
}
use rustworkx.Base.{Bool-cases, Option-cases}
use rustworkx.Petgraph.Stable.{Stable}
use rustworkx.Petgraph.Walks.{Acyclic-flip, Acyclic-of_subset}
use rustworkx.DiGraph.{PyDiGraph, Outcome, ok, err, add_edge_checked}
use rustworkx.DiGraph.Cycles.{IsGuarded}
use rustworkx.DiGraph.Guard.{add_edge_checked-keeps}
use rustworkx.DiGraph.Loops.{for_each_inv, after_inv}
use rustworkx.DiGraph.Turn.{
  Entry, contains_key, collect_entries, payload, add_back, make_symmetric, reverse,
}
use rustworkx.DiGraph.Turn.Pairs.{contains_key-Memᴰ}
use rustworkx.DiGraph.Turn.Twice.{reverse_lem}

module _ {O : Type 0} (st : Stable O O) where
  open st use {edge, edge_references}

  pub reverse-Keeps : (s : PyDiGraph st) → IsGuarded st s → IsGuarded st (reverse st s).1
  reverse-Keeps s guarded =
      let (s', done, same, turned) = reverse_lem st s in
      subst (λ r. IsGuarded st r.1) (sym done)
        λ on.
          Acyclic-of_subset
            (λ a b (i, w, at). let (j, at') = (turned a b w).0 (i, at) in (j, w, at'))
            (Acyclic-flip (guarded (sym same.check_cycle ∙ on)))

  module _ (edge_payload_fn : Option (O → Outcome O)) (edges : List Entry) where
    -- An edge from a node to itself is its own reverse.
    add_back-Keeps :
        (a b i : ℕ) (s : PyDiGraph st)
        → Memᴰ (a, b, i) edges
        → IsGuarded st s
        → IsGuarded st (add_back st edge_payload_fn edges (a, b, i) s).1
    unfolding add_back
    add_back-Keeps a b i s m guarded = elim (Bool-cases (contains_key b a edges)) [
      | inl known ↦ rw known guarded
      | inr new ↦ elim (Option-cases (edge s.graph i)) [
        | inl missing ↦ rw (new, missing) guarded
        | inr ((x, y, forward), at) ↦
            let apart : b ≢ a = λ same.
              let known : contains_key a b edges ≡ true = (contains_key-Memᴰ a b edges).1 (i, m) in
              let turned : contains_key b a edges ≡ true =
                ap (λ t. contains_key t a edges) same
                ∙ ap (λ t. contains_key a t edges) (sym same)
                ∙ known in
              cc (turned, new) in
            outcome (x, y, forward) at new apart (payload st edge_payload_fn forward) refl
      ]
    ]
      where
        outcome :
            (t : ℕ × ℕ × O)
            → edge s.graph i ≡ some t
            → contains_key b a edges ≡ false
            → b ≢ a
            → (o : Outcome O) → payload st edge_payload_fn t.2 ≡ o
            → IsGuarded st (add_back st edge_payload_fn edges (a, b, i) s).1
        outcome t at new apart (err e) found = rw (new, at, found, add_back) guarded
        outcome t at new apart (ok w) found =
            rw (new, at, found, add_back)
              (after_inv (IsGuarded st) (add_edge_checked st b a w s) (λ _ t. (ok tt, t))
                (add_edge_checked-keeps st s b a w apart guarded) (λ _ t h. h))

  pub make_symmetric-Keeps :
      (order : List Entry → List Entry) (edge_payload_fn : Option (O → Outcome O))
      (s : PyDiGraph st)
      → ((es : List Entry) (e : Entry) → Memᴰ e (order es) → Memᴰ e es)
      → IsGuarded st s
      → IsGuarded st (make_symmetric st order edge_payload_fn s).1
  unfolding make_symmetric
  make_symmetric-Keeps order edge_payload_fn s listed guarded =
      let edges = collect_entries st (edge_references s.graph) [] in
      for_each_inv (IsGuarded st) (order edges) (add_back st edge_payload_fn edges)
        (λ (a, b, i) m t g.
          add_back-Keeps edge_payload_fn edges a b i t (listed edges (a, b, i) m) g)
        s guarded
