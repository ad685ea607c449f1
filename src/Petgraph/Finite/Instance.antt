-- ===== src/Petgraph/Finite/Instance.antt =====
-- The two tables are a stable graph: every law of the interface.
use rustworkx.Base
use rustworkx.Base.{◌≤◌}
use rustworkx.Base.{
  ℕ, suc, ◌<◌, ◌≡◌, refl, ◌∙◌, ◌↔◌, ◌⊎◌, inl, inr, Bool, true, false, some, none, List, Memᴰ,
}
use rustworkx.Base.{
  ◌==◌, ==_iff, if◌then◌else◌, arith, Bool-cases, Option-cases, ltb, ltb→lt, ltb→le,
}
use mathlib.Core.Bool.{So-prop}
use mathlib.Core.Logic.{∥∥₁_elim}
use rustworkx.Petgraph.Walks.{Walk, Walk-map, Acyclic, Acyclic-of_subset}
use rustworkx.Petgraph.Stable.{Stable, Direction, EdgeReference, Linked, is_some, starts_at}
use rustworkx.Petgraph.Paths.{In, reaches, reaches_iff, acyclic, acyclic_iff}
use rustworkx.Petgraph.Finite.{
  Tables, empty, put_if, put_node, put_edge, add_edge, weigh_edge, drop_edge, weigh_node, drop_node,
  drop_edges,
}
use rustworkx.Petgraph.Finite.Scan.{
  first, first-some, first-none, entries, mem-entries, select, mem-select, pairs, mem-pairs,
  indices, indices-once, mem-indices, count, count-beyond,
}

module _ {N E : Type 0} where
  abbrev pub edge_refs : Tables N E → List (EdgeReference E)
  edge_refs g = entries g.edge g.edges

  in_range : (g : Tables N E) (i : ℕ) {t : ℕ × ℕ × E} → g.edge i ≡ some t → i < g.edges
  in_range g i at = elim (Bool-cases (ltb i g.edges)) [
    | inl l ↦ ltb→lt i g.edges l
    | inr m ↦ cc (g.edges_end i (ltb→le i g.edges m), at)
  ]

  Linked-In : (g : Tables N E) (a b : ℕ) → Linked g.edge a b → In (pairs g.edge (edge_refs g)) a b
  Linked-In g a b (i, w, at) = (mem-pairs g.edge (edge_refs g) a b).1 (
    record { id = i; source = a; target = b; weight = w },
    (mem-entries g.edge g.edges _).1 (in_range g i at, at),
    refl,
    refl,
  )

  In-Linked : (g : Tables N E) (a b : ℕ) → In (pairs g.edge (edge_refs g)) a b → Linked g.edge a b
  In-Linked g a b m =
      let (r, l, s, t) = (mem-pairs g.edge (edge_refs g) a b).0 m in
      let (_, at) = (mem-entries g.edge g.edges r).0 l in (r.id, r.weight, at ∙ cc (s, t))

  pub absent-Linked :
      (g : Tables N E) (a b : ℕ) → first g.edge g.edges a b ≡ none → ¬ Linked g.edge a b
  absent-Linked g a b h (i, w, at) =
      let out = first-none g.edge g.edges a b i w h at in
      let l = in_range g i at in absurd (omega arith)

  pub finite_directed :
      (g : Tables N E) (a : ℕ) (d : Direction) (r : EdgeReference E)
      → Memᴰ r (select g.edge a d (edge_refs g))
        ↔ ((starts_at d r ≡ a) × (g.edge r.id ≡ some (r.source, r.target, r.weight)))
  finite_directed g a d r = (
    λ m.
        let (s, l) = (mem-select g.edge a d (edge_refs g) r).0 m in
        (s, ((mem-entries g.edge g.edges r).0 l).1),
    λ (s, at).
        (mem-select g.edge a d (edge_refs g) r).1
          (s, (mem-entries g.edge g.edges r).1 (in_range g r.id at, at)),
  )

  pub finite_indices :
      (g : Tables N E) (i : ℕ) → Memᴰ i (indices g.edge (edge_refs g)) ↔ (is_some (g.edge i) ≡ true)
  finite_indices g i = (
    λ m.
        let (r, l, e) = (mem-indices g.edge (edge_refs g) i).0 m in
        let (_, at) = (mem-entries g.edge g.edges r).0 l in rw (← e, at),
    λ h. elim (Option-cases (g.edge i)) [
      | inl n ↦ cc (h, n)
      | inr ((a, b, w), at) ↦ (mem-indices g.edge (edge_refs g) i).1 (
        record { id = i; source = a; target = b; weight = w },
        (mem-entries g.edge g.edges _).1 (in_range g i at, at),
        refl,
      )
    ],
  )

  pub finite_references :
      (g : Tables N E) (r : EdgeReference E)
      → Memᴰ r (edge_refs g) ↔ (g.edge r.id ≡ some (r.source, r.target, r.weight))
  finite_references g r = (
    λ m. ((mem-entries g.edge g.edges r).0 m).1,
    λ at. (mem-entries g.edge g.edges r).1 (in_range g r.id at, at),
  )

  pub finite_once : (g : Tables N E) (i : ℕ) → Base.count i (indices g.edge (edge_refs g)) ≤ 1
  finite_once g i = ground (arith, indices-once g.edge g.edges i)

  pub finite_path :
      (g : Tables N E) (a b : ℕ)
      → (reaches (pairs g.edge (edge_refs g)) a b ≡ true) ↔ ∥ Walk (Linked g.edge) b a ∥₁
  finite_path g a b = (
    λ e. ∣ Walk-map (In-Linked g) ((reaches_iff (pairs g.edge (edge_refs g)) a b).0 e) ∣₁,
    λ t.
        ∥∥₁_elim t (So-prop _)
          λ w. (reaches_iff (pairs g.edge (edge_refs g)) a b).1 (Walk-map (Linked-In g) w),
  )

  pub finite_acyclic :
      (g : Tables N E) → (acyclic (pairs g.edge (edge_refs g)) ≡ true) ↔ Acyclic (Linked g.edge)
  finite_acyclic g = (
    λ e. Acyclic-of_subset (Linked-In g) ((acyclic_iff (pairs g.edge (edge_refs g))).0 e),
    λ h. (acyclic_iff (pairs g.edge (edge_refs g))).1 (Acyclic-of_subset (In-Linked g) h),
  )

  put_if-some :
      (g : Tables N E) (a b : ℕ) (w : E) (x y : Bool) (p : is_some (g.node a) ≡ x)
      (q : is_some (g.node b) ≡ y)
      → x ≡ true
      → y ≡ true
      → (j : ℕ) × (g' : Tables N E) × (put_if g a b w x y p q ≡ some (j, g'))
        × (g.edge j ≡ none)
        × ((i : ℕ) → g'.edge i ≡ (if j == i then some (a, b, w) else g.edge i))
        × ((i : ℕ) → g'.node i ≡ g.node i)
  unfolding put_if
  put_if-some g a b w true true p q hx hy =
      (g.edges, put_edge g a b w p q, refl, g.edges_end g.edges (omega arith), λ i. refl, λ i. refl)
  put_if-some g a b w true false p q hx hy = cc
  put_if-some g a b w false y p q hx hy = cc

  put_if-none :
      (g : Tables N E) (a b : ℕ) (w : E) (x y : Bool) (p : is_some (g.node a) ≡ x)
      (q : is_some (g.node b) ≡ y)
      → (x ≡ false) ⊎ (y ≡ false)
      → put_if g a b w x y p q ≡ none
  unfolding put_if
  put_if-none g a b w true true p q (inl e) = cc
  put_if-none g a b w true true p q (inr e) = cc
  put_if-none g a b w true false p q h = refl
  put_if-none g a b w false y p q h = refl

  pub finite_count :
      (g : Tables N E) (w : N)
      → count (put_node g w).nodes (put_node g w).node ≡ suc (count g.nodes g.node)
  unfolding put_node count
  finite_count g w =
      let beyond = count-beyond g.nodes g.nodes (some w) g.node (omega arith) in
      rw ((==_iff g.nodes g.nodes).1 refl) (omega (arith, beyond))

  pub finite_add_edge-some :
      (g : Tables N E) (a b : ℕ) (w : E)
      → is_some (g.node a) ≡ true
      → is_some (g.node b) ≡ true
      → (j : ℕ) × (g' : Tables N E) × (add_edge g a b w ≡ some (j, g'))
        × (g.edge j ≡ none)
        × ((i : ℕ) → g'.edge i ≡ (if j == i then some (a, b, w) else g.edge i))
        × ((i : ℕ) → g'.node i ≡ g.node i)
  unfolding add_edge
  finite_add_edge-some g a b w ha hb =
      put_if-some g a b w (is_some (g.node a)) (is_some (g.node b)) refl refl ha hb

  pub finite_add_edge-none :
      (g : Tables N E) (a b : ℕ) (w : E)
      → (is_some (g.node a) ≡ false) ⊎ (is_some (g.node b) ≡ false)
      → add_edge g a b w ≡ none
  unfolding add_edge
  finite_add_edge-none g a b w h =
      put_if-none g a b w (is_some (g.node a)) (is_some (g.node b)) refl refl h

unfoldable pub finite : (N E : Type 0) → Stable N E
unfolding put_node weigh_edge drop_edge weigh_node drop_node drop_edges
finite N E = record {
  G = Tables N E;
  node_weight = λ g. g.node;
  edge = λ g. g.edge;
  with_capacity = λ _ _. empty;
  node_count = λ g. count g.nodes g.node;
  edge_count = λ g. count g.edges g.edge;
  find_edge = λ g a b. first g.edge g.edges a b;
  edges_directed = λ g a d. select g.edge a d (edge_refs g);
  edge_indices = λ g. indices g.edge (edge_refs g);
  edge_references = edge_refs;
  has_path_connecting = λ g a b. reaches (pairs g.edge (edge_refs g)) a b;
  toposort_is_ok = λ g. acyclic (pairs g.edge (edge_refs g));
  add_node = λ g w. (g.nodes, put_node g w);
  add_edge = add_edge;
  set_edge_weight = weigh_edge;
  set_node_weight = weigh_node;
  remove_node = drop_node;
  remove_edge = drop_edge;
  clear = λ _. empty;
  clear_edges = drop_edges;
  endpoints = λ g. g.endpoints;
  nodes-with_capacity = λ _ _ _. refl;
  edges-with_capacity = λ _ _ _. refl;
  find_edge-some = λ g a b i. first-some g.edge g.edges a b i;
  find_edge-none = absent-Linked;
  mem-edges_directed = finite_directed;
  mem-edge_indices = finite_indices;
  edge_indices-once = finite_once;
  mem-edge_references = finite_references;
  has_path_iff = λ g a b _ _. finite_path g a b;
  toposort_iff = finite_acyclic;
  index-add_node = λ g w. g.nodes_end g.nodes (omega arith);
  node_count-add_node = finite_count;
  nodes-add_node = λ g w i. refl;
  edges-add_node = λ g w i. refl;
  add_edge-some = finite_add_edge-some;
  add_edge-none = finite_add_edge-none;
  edges-set_edge_weight = λ g j w i. refl;
  nodes-set_edge_weight = λ g j w i. refl;
  edges-set_node_weight = λ g n w i. refl;
  nodes-set_node_weight = λ g n w i. refl;
  nodes-remove_node = λ g n i. refl;
  edges-remove_node = λ g n i. refl;
  nodes-remove_edge = λ g j i. refl;
  edges-remove_edge = λ g j i. refl;
  nodes-clear = λ g i. refl;
  edges-clear = λ g i. refl;
  nodes-clear_edges = λ g i. refl;
  edges-clear_edges = λ g i. refl;
}
