-- ===== src/Connectivity/Component.antt =====
-- `bfs_undirected` finds the nodes that walks lead to.
use rustworkx.Base.{
  ℕ, zero, suc, ◌+◌, ◌≡◌, ◌≤◌, refl, sym, ap, subst, inl, inr, Bool, true, false, not, ◌||◌, Option,
  some, List, [], ◌∷◌, Memᴰ, ◌↔◌,
}
use rustworkx.Base.{
  ◌==◌, ==_iff, count, count_if, count_if-le-length, elem, elem-count, length, count-append, arith,
  Bool-cases, List-cases,
}
use mathlib.Core.List.Memᴰ
use rustworkx.Petgraph.Walks.{Walk, here, step, Walk-append}
use rustworkx.Petgraph.Stable.{outgoing, incoming}
use rustworkx.Petgraph.View.{Adjacency}
use rustworkx.Connectivity.{Search, scan, search, neighbors, bfs_undirected}
use rustworkx.Connectivity.Worklist.{scan-Scanned, scan-work}

module _ (graph : Adjacency) where
  -- An edge, in whichever direction.
  abbrev pub Adjacent : ℕ → ℕ → Type 0
  Adjacent u w = elem w (neighbors graph u) ≡ true

  neighbors-counts : (u w : ℕ) → count w (neighbors graph u) ≡ count u (neighbors graph w)
  neighbors-counts u w = omega (
    arith,
    count-append w (graph.neighbors_directed u outgoing) (graph.neighbors_directed u incoming),
    count-append u (graph.neighbors_directed w outgoing) (graph.neighbors_directed w incoming),
    graph.transposed u w outgoing,
    graph.transposed u w incoming,
  )

  pub Adjacent-sym : (u w : ℕ) → Adjacent u w → Adjacent w u
  Adjacent-sym u w h = ground (
    arith,
    h,
    elem-count w (neighbors graph u),
    elem-count u (neighbors graph w),
    neighbors-counts u w,
  )

  pub Walk-sym : {t s : ℕ} → Walk Adjacent t s → Walk Adjacent s t
  Walk-sym here = here
  Walk-sym (step {a} {b} r w) = Walk-append (Walk-sym w) (step (Adjacent-sym a b r) here)

  pub neighbors-closed : (u w : ℕ) → Memᴰ w (neighbors graph u) → Memᴰ w graph.node_identifiers
  neighbors-closed u w m = elim (Memᴰ.append_cases (graph.neighbors_directed u outgoing) m) [
    | inl k ↦ (graph.closed u w outgoing k).1
    | inr k ↦ (graph.closed u w incoming k).1
  ]

  -- No edge leaves the set.
  abbrev pub Closed : (ℕ → Bool) → Type 0
  Closed set = (u w : ℕ) → set u ≡ true → Adjacent u w → set w ≡ true

  pub Walk-Closed :
      (set : ℕ → Bool) → Closed set → {t s : ℕ} → Walk Adjacent t s → set s ≡ true → set t ≡ true
  Walk-Closed set closed here h = h
  Walk-Closed set closed (step {a} {b} r w) h = Walk-Closed set closed w (closed a b h r)

  module _ (start : ℕ) (old : ℕ → Bool) where
    pub record Inv (first s : Search) : Type 0 where
      pub kept : (v : ℕ) → first.discovered v ≡ true → s.discovered v ≡ true
      pub from_old : (v : ℕ) → s.discovered v ≡ true → (old v || elem v s.component) ≡ true
      pub marked : (v : ℕ) → elem v s.component ≡ true → (v == start || s.discovered v) ≡ true
      pub walks : (v : ℕ) → elem v s.component ≡ true → Walk Adjacent v start
      pub has_start : elem start s.component ≡ true
      pub queued : (v : ℕ) → elem v s.stack ≡ true → elem v s.component ≡ true
      pub frontier :
          (u w : ℕ)
          → elem u s.component ≡ true
          → Adjacent u w
          → (elem u s.stack || s.discovered w) ≡ true
      pub once : (v : ℕ) → count v s.component ≤ 1

    -- One round.
    Inv-round :
        (first s : Search) (node : ℕ) (rest : List ℕ)
        → s.stack ≡ node ∷ rest
        → Inv first s
        → Inv first (scan (neighbors graph node) (record s { stack = rest }))
    Inv-round first s node rest e inv =
        let sc = scan-Scanned (neighbors graph node) (record s { stack = rest }) in
        let popped = λ (v : ℕ). ap (elem v) e in
        let node_in = inv.queued node (ground (arith, popped node)) in
        record {
          kept = λ v h. ground (arith, sc.discovered v, inv.kept v h);
          from_old = λ v h. ground (arith, h, sc.discovered v, sc.component v, inv.from_old v);
          marked = λ v h. ground (arith, h, sc.discovered v, sc.component v, inv.marked v);
          walks = λ v h. elim (Bool-cases (elem v s.component)) [
            | inl before ↦ inv.walks v before
            | inr new ↦
                Walk-append (inv.walks node node_in)
                  (step (ground (arith, sc.component v, h, new)) here)
          ];
          has_start = ground (arith, sc.component start, inv.has_start);
          queued = λ v h. ground (arith, h, sc.stack v, sc.component v, inv.queued v, popped v);
          frontier = λ u w h r. elim (Bool-cases (u == node)) [
            | inl at ↦
                let same : u ≡ node = (==_iff u node).0 at in
                let near : elem w (neighbors graph node) ≡ true =
                  subst (λ x. elem w (neighbors graph x) ≡ true) same r in
                ground (arith, near, sc.discovered w)
            | inr other ↦ ground (
              arith,
              h,
              r,
              sc.discovered w,
              sc.component u,
              sc.stack u,
              inv.frontier u w,
              popped u,
            )
          ];
          once = sc.once inv.once;
        }

    -- The loop ends within the fuel.
    pub search_lem :
        (fuel : ℕ) (first s : Search)
        → Inv first s
        → count_if (λ v. not (s.discovered v)) graph.node_identifiers + length s.stack ≤ fuel
        → (t : Search) × (search graph fuel s ≡ some t) × Inv first t × (t.stack ≡ [])
    unfolding search
    search_lem zero first s inv h = elim (List-cases s.stack) [
      | inl empty ↦ (s, rw empty refl, inv, empty)
      | inr (node, rest, e) ↦ absurd (omega (arith, ap length e, h))
    ]
    search_lem (suc fuel) first s inv h = elim (List-cases s.stack) [
      | inl empty ↦ (s, rw empty refl, inv, empty)
      | inr (node, rest, e) ↦
          let (t, done, inv', empty) =
            search_lem fuel first (scan (neighbors graph node) (record s { stack = rest }))
              (Inv-round first s node rest e inv)
              (omega (
                arith,
                h,
                ap length e,
                scan-work graph.node_identifiers (neighbors graph node) (record s { stack = rest })
                    graph.once (neighbors-closed node),
              )) in
          (t, rw e done, inv', empty)
    ]

    -- What a call finds where `old` are the nodes that are discovered, but for `start`.
    pub record Finds (map : ℕ → Bool) (r : Option (List ℕ × (ℕ → Bool))) : Type 0 where
      pub component : List ℕ
      pub discovered : ℕ → Bool
      pub returns : r ≡ some (component, discovered)
      pub kept : (v : ℕ) → map v ≡ true → discovered v ≡ true
      pub reached : (v : ℕ) → (elem v component ≡ true) ↔ Walk Adjacent v start
      pub now : (v : ℕ) → (discovered v || v == start) ≡ (old v || elem v component)
      pub fresh : (v : ℕ) → elem v component ≡ true → old v ≡ false
      pub once : (v : ℕ) → count v component ≤ 1

    Inv-start :
        (map : ℕ → Bool)
        → ((v : ℕ) → map v ≡ true → (old v || v == start) ≡ true)
        → let s : Search = record {
          component = start ∷ [];
          stack = start ∷ [];
          discovered = map;
        } in
          Inv s s
    Inv-start map between = record {
      kept = λ v h. h;
      from_old = λ v h. ground (arith, between v h);
      marked = λ v h. ground arith;
      walks = λ v h.
          let same : v ≡ start = (==_iff v start).0 (ground arith) in
          subst (λ x. Walk Adjacent x start) (sym same) here;
      has_start = ground arith;
      queued = λ v h. h;
      frontier = λ u w h r. ground arith;
      once = λ v. ground arith;
    }

    -- Nodes that are discovered are not joined to those that are not.
    apart : Closed old → old start ≡ false → (v : ℕ) → Walk Adjacent v start → old v ≡ false
    apart closed outside v w = elim (Bool-cases (old v)) [
      | inl inside ↦ let back = Walk-Closed old closed (Walk-sym w) inside in cc (back, outside)
      | inr out ↦ out
    ]

    -- A set that the loop leaves with an empty queue holds what walks lead to.
    full :
        (first t : Search)
        → Inv first t
        → t.stack ≡ []
        → Closed old
        → old start ≡ false
        → Closed (λ v. elem v t.component)
    full first t inv empty closed outside u w h r =
        let step_on : Walk Adjacent w start = Walk-append (inv.walks u h) (step r here) in
        ground (
          arith,
          inv.frontier u w h r,
          ap (elem u) empty,
          inv.from_old w,
          apart closed outside w step_on,
        )

    pub bfs_undirected-Finds :
        (map : ℕ → Bool)
        → ((v : ℕ) → map v ≡ true → (old v || v == start) ≡ true)
        → ((v : ℕ) → old v ≡ true → map v ≡ true)
        → Closed old
        → old start ≡ false
        → Finds map (bfs_undirected graph start map)
    unfolding bfs_undirected
    bfs_undirected-Finds map between before closed outside =
        let s : Search = record { component = start ∷ []; stack = start ∷ []; discovered = map } in
        let (t, done, inv, empty) =
          search_lem (suc (length graph.node_identifiers)) s s (Inv-start map between)
            (omega (arith, count_if-le-length (λ v. not (map v)) graph.node_identifiers)) in
        record {
          component = t.component;
          discovered = t.discovered;
          returns = rw (done, bfs_undirected) refl;
          kept = inv.kept;
          reached = λ v. (
            inv.walks v,
            λ w.
                Walk-Closed (λ x. elem x t.component) (full s t inv empty closed outside) w
                  inv.has_start,
          );
          now = λ v. elim (Bool-cases (v == start)) [
            | inl at ↦
                let same : v ≡ start = (==_iff v start).0 at in
                ground (arith, inv.has_start, ap (λ x. elem x t.component) same)
            | inr other ↦ ground (arith, inv.from_old v, inv.marked v, inv.kept v, before v)
          ];
          fresh = λ v h. apart closed outside v (inv.walks v h);
          once = inv.once;
        }
