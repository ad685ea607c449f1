-- ===== src/DiGraph/Listing/Agree.antt =====
-- The lists of edges agree with one another.
use rustworkx.Base.{
  ℕ, ◌≡◌, refl, sym, ap, ◌∙◌, ◌↔◌, Bool, some, Memᴰ, Memᴰ-map, ◌==◌, ==_iff, mem-filter_if,
}
use rustworkx.Petgraph.Stable.{Stable, EdgeReference, outgoing, incoming}
use rustworkx.DiGraph.{PyDiGraph}
use rustworkx.DiGraph.Listing.{
  weighted_edge_list, in_edges, out_edges, in_edge_indices, out_edge_indices,
  edge_indices_from_endpoints,
}

module _ {O : Type 0} (st : Stable O O) (s : PyDiGraph st) where
  open st use {edge, edges_directed, edge_references}

  -- An edge with these endpoints and this weight.
  abbrev pub Stored : ℕ → ℕ → O → Type 0
  Stored a b w = (i : ℕ) × (edge s.graph i ≡ some (a, b, w))

  weighted_edge_list_lem :
      (a b : ℕ) (w : O) → Memᴰ (a, b, w) (weighted_edge_list st s) ↔ Stored a b w
  unfolding weighted_edge_list
  weighted_edge_list_lem a b w =
      let listed =
        Memᴰ-map (λ (e : EdgeReference O). (e.source, e.target, e.weight)) (a, b, w)
          (edge_references s.graph) in
      (
        λ m.
            let (r, mr, e) = listed.0 m in
            (r.id, (st.mem-edge_references s.graph r).0 mr ∙ ap some (sym e)),
        λ (i, at). listed.1 (
          record { id = i; source = a; target = b; weight = w },
          (st.mem-edge_references s.graph _).1 at,
          refl,
        ),
      )

  out_edges_lem : (a b : ℕ) (w : O) → Memᴰ (a, b, w) (out_edges st s a) ↔ Stored a b w
  unfolding out_edges
  out_edges_lem a b w =
      let listed =
        Memᴰ-map (λ (e : EdgeReference O). (a, e.target, e.weight)) (a, b, w)
          (edges_directed s.graph a outgoing) in
      (
        λ m.
            let (r, mr, e) = listed.0 m in
            let (ea, at) = (st.mem-edges_directed s.graph a outgoing r).0 mr in
            (r.id, at ∙ ap some (cc (e, ea))),
        λ (i, at). listed.1 (
          record { id = i; source = a; target = b; weight = w },
          (st.mem-edges_directed s.graph a outgoing _).1 (refl, at),
          refl,
        ),
      )

  in_edges_lem : (a b : ℕ) (w : O) → Memᴰ (a, b, w) (in_edges st s b) ↔ Stored a b w
  unfolding in_edges
  in_edges_lem a b w =
      let listed =
        Memᴰ-map (λ (e : EdgeReference O). (e.source, b, e.weight)) (a, b, w)
          (edges_directed s.graph b incoming) in
      (
        λ m.
            let (r, mr, e) = listed.0 m in
            let (eb, at) = (st.mem-edges_directed s.graph b incoming r).0 mr in
            (r.id, at ∙ ap some (cc (e, eb))),
        λ (i, at). listed.1 (
          record { id = i; source = a; target = b; weight = w },
          (st.mem-edges_directed s.graph b incoming _).1 (refl, at),
          refl,
        ),
      )

  -- An edge is in `weighted_edge_list` exactly if it is in `out_edges` of its source, and exactly
  -- if it is in `in_edges` of its target.
  pub weighted_edge_list-out_edges :
      (a b : ℕ) (w : O)
      → (Memᴰ (a, b, w) (weighted_edge_list st s) ↔ Memᴰ (a, b, w) (out_edges st s a))
        × (Memᴰ (a, b, w) (weighted_edge_list st s) ↔ Memᴰ (a, b, w) (in_edges st s b))
  weighted_edge_list-out_edges a b w =
      let whole = weighted_edge_list_lem a b w in
      let out = out_edges_lem a b w in
      let into = in_edges_lem a b w in
      (
        (λ m. out.1 (whole.0 m), λ m. whole.1 (out.0 m)),
        (λ m. into.1 (whole.0 m), λ m. whole.1 (into.0 m)),
      )

  indices_out :
      (a i : ℕ)
      → Memᴰ i (out_edge_indices st s a) ↔ ((b : ℕ) × (w : O) × (edge s.graph i ≡ some (a, b, w)))
  unfolding out_edge_indices
  indices_out a i =
      let listed = Memᴰ-map (λ (e : EdgeReference O). e.id) i (edges_directed s.graph a outgoing) in
      (
        λ m.
            let (r, mr, e) = listed.0 m in
            let (ea, at) = (st.mem-edges_directed s.graph a outgoing r).0 mr in
            (r.target, r.weight, ap (edge s.graph) e ∙ at ∙ cc ea),
        λ (b, w, at). listed.1 (
          record { id = i; source = a; target = b; weight = w },
          (st.mem-edges_directed s.graph a outgoing _).1 (refl, at),
          refl,
        ),
      )

  indices_in :
      (b i : ℕ)
      → Memᴰ i (in_edge_indices st s b) ↔ ((a : ℕ) × (w : O) × (edge s.graph i ≡ some (a, b, w)))
  unfolding in_edge_indices
  indices_in b i =
      let listed = Memᴰ-map (λ (e : EdgeReference O). e.id) i (edges_directed s.graph b incoming) in
      (
        λ m.
            let (r, mr, e) = listed.0 m in
            let (eb, at) = (st.mem-edges_directed s.graph b incoming r).0 mr in
            (r.source, r.weight, ap (edge s.graph) e ∙ at ∙ cc eb),
        λ (a, w, at). listed.1 (
          record { id = i; source = a; target = b; weight = w },
          (st.mem-edges_directed s.graph b incoming _).1 (refl, at),
          refl,
        ),
      )

  -- `edge_indices_from_endpoints` has the indices that `out_edge_indices` of the first node and
  -- `in_edge_indices` of the second have in common.
  pub edge_indices_from_endpoints-out_edge_indices :
      (a b i : ℕ)
      → Memᴰ i (edge_indices_from_endpoints st s a b)
        ↔ (Memᴰ i (out_edge_indices st s a) × Memᴰ i (in_edge_indices st s b))
  unfolding edge_indices_from_endpoints
  edge_indices_from_endpoints-out_edge_indices a b i =
      let to_b : EdgeReference O → Bool = λ e. e.target == b in
      let listed = Memᴰ-map (λ (e : EdgeReference O). e.id) i _ in
      let kept =
        λ (r : EdgeReference O). mem-filter_if to_b r (edges_directed s.graph a outgoing) in
      (
        λ m.
            let (r, mr, e) = listed.0 m in
            let (mo, t) = (kept r).0 mr in
            let (ea, at) = (st.mem-edges_directed s.graph a outgoing r).0 mo in
            let eb : r.target ≡ b = (==_iff r.target b).0 t in
            let here_ : edge s.graph i ≡ some (a, b, r.weight) =
              ap (edge s.graph) e ∙ at ∙ cc (ea, eb) in
            ((indices_out a i).1 (b, r.weight, here_), (indices_in b i).1 (a, r.weight, here_)),
        λ (mo, mi).
            let (c, w, at) = (indices_out a i).0 mo in
            let (d, v, at') = (indices_in b i).0 mi in
            let eb : c ≡ b = cc (at, at') in
            let r : EdgeReference O = record { id = i; source = a; target = c; weight = w } in
            listed.1 (
              r,
              (kept r).1
                  ((st.mem-edges_directed s.graph a outgoing r).1 (refl, at), (==_iff c b).1 eb),
              refl,
            ),
      )
