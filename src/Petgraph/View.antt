-- ===== src/Petgraph/View.antt =====
-- What an algorithm that is generic in a directed graph reads of it: the `visit` traits
-- `IntoNodeIdentifiers` and `IntoNeighborsDirected` of petgraph, which is not part of the
-- repository, and `algo::toposort`.
use rustworkx.Base.{
  ℕ, zero, suc, ◌+◌, ◌-◌, ◌≡◌, ◌≤◌, ◌<◌, refl, sym, ap, ◌↔◌, inl, inr, Bool, true, ◌&&◌, List, [],
  ◌∷◌, Memᴰ,
}
use rustworkx.Base.{
  count, range, count_from, Memᴰ-range, Memᴰ-cons, if◌then◌else◌, ltb, ◌==◌, arith,
}
use mathlib.Core.List.Memᴰ
use rustworkx.Base.{elem, length}
use rustworkx.Petgraph.Walks.{Acyclic, Acyclic-of_subset}
use rustworkx.Petgraph.Stable.{Direction, outgoing, incoming}
use rustworkx.Petgraph.Paths.{acyclic, acyclic_iff}

abbrev pub opposite : Direction → Direction
opposite outgoing = incoming
opposite incoming = outgoing

pub record View : Type 0 where
  pub node_identifiers : List ℕ
  -- A neighbour stands in the list once for each edge.
  pub neighbors_directed : ℕ → Direction → List ℕ
  -- `algo::toposort(graph, None).is_ok()`
  pub toposort_is_ok : Bool
  pub once : (v : ℕ) → count v node_identifiers ≤ 1
  pub closed :
      (v w : ℕ) (d : Direction)
      → Memᴰ w (neighbors_directed v d)
      → Memᴰ v node_identifiers × Memᴰ w node_identifiers
  pub transposed :
      (v w : ℕ) (d : Direction)
      → count w (neighbors_directed v d) ≡ count v (neighbors_directed w (opposite d))
  pub toposort_iff :
      (toposort_is_ok ≡ true) ↔ Acyclic (λ v w. Memᴰ w (neighbors_directed v outgoing))

-- What an algorithm for directed and undirected graphs reads. An undirected graph gives all
-- neighbours of a node in either direction.
pub record Adjacency : Type 0 where
  pub node_identifiers : List ℕ
  pub neighbors_directed : ℕ → Direction → List ℕ
  pub node_count : ℕ
  pub contains_node : ℕ → Bool
  pub once : (v : ℕ) → count v node_identifiers ≤ 1
  pub closed :
      (v w : ℕ) (d : Direction)
      → Memᴰ w (neighbors_directed v d)
      → Memᴰ v node_identifiers × Memᴰ w node_identifiers
  pub transposed :
      (v w : ℕ) (d : Direction)
      → count w (neighbors_directed v d) ≡ count v (neighbors_directed w (opposite d))
  pub node_count-length : node_count ≡ length node_identifiers
  pub contains_node-elem : (v : ℕ) → contains_node v ≡ elem v node_identifiers

-- A directed graph, for such an algorithm.
abbrev pub adjacency : View → Adjacency
adjacency g = record {
  node_identifiers = g.node_identifiers;
  neighbors_directed = g.neighbors_directed;
  node_count = length g.node_identifiers;
  contains_node = λ v. elem v g.node_identifiers;
  once = g.once;
  closed = g.closed;
  transposed = g.transposed;
  node_count-length = refl;
  contains_node-elem = λ v. refl;
}

-- A value: the nodes below a bound, and a list of edges between them.
abbrev pub ends : List (ℕ × ℕ) → ℕ → Direction → List ℕ
ends [] v d = []
ends ((a, b) ∷ es) v outgoing = let rest = ends es v outgoing in if v == a then b ∷ rest else rest
ends ((a, b) ∷ es) v incoming = let rest = ends es v incoming in if v == b then a ∷ rest else rest

mem-ends : (es : List (ℕ × ℕ)) (v w : ℕ) → Memᴰ w (ends es v outgoing) ↔ Memᴰ (v, w) es
mem-ends [] v w = (λ m. absurd (Memᴰ.not-nil m), λ m. absurd (Memᴰ.not-nil m))
mem-ends ((a, b) ∷ es) v w =
    ground (arith, mem-ends es v w, Memᴰ-cons w b (ends es v outgoing), Memᴰ-cons (v, w) (a, b) es)

mem-ends-incoming : (es : List (ℕ × ℕ)) (v w : ℕ) → Memᴰ w (ends es v incoming) ↔ Memᴰ (w, v) es
mem-ends-incoming [] v w = (λ m. absurd (Memᴰ.not-nil m), λ m. absurd (Memᴰ.not-nil m))
mem-ends-incoming ((a, b) ∷ es) v w = ground (
  arith,
  mem-ends-incoming es v w,
  Memᴰ-cons w a (ends es v incoming),
  Memᴰ-cons (w, v) (a, b) es,
)

ends-transposed :
    (es : List (ℕ × ℕ)) (v w : ℕ) → count w (ends es v outgoing) ≡ count v (ends es w incoming)
ends-transposed [] v w = refl
ends-transposed ((a, b) ∷ es) v w = ground (arith, ends-transposed es v w)

pub count-count_from : (v s n : ℕ) → v < s → count v (count_from s n) ≡ 0
count-count_from v s zero h = refl
count-count_from v s (suc n) h = ground (arith, count-count_from v (s + 1) n)

pub count_from-once : (v s n : ℕ) → count v (count_from s n) ≤ 1
count_from-once v s zero = omega arith
count_from-once v s (suc n) =
    ground (arith, count_from-once v (s + 1) n, count-count_from v (s + 1) n)

abbrev pub inside : ℕ → List (ℕ × ℕ) → Bool
inside n [] = true
inside n ((a, b) ∷ es) = ltb a n && ltb b n && inside n es

inside-mem :
    (n a b : ℕ) (es : List (ℕ × ℕ)) → inside n es ≡ true → Memᴰ (a, b) es → (a < n) × (b < n)
inside-mem n a b [] h m = absurd (Memᴰ.not-nil m)
inside-mem n a b ((x, y) ∷ es) h m = elim (Memᴰ.cases_cons m) [
  | inl e ↦
      let ex : a ≡ x = ap (λ t. t.0) e in
      let ey : b ≡ y = ap (λ t. t.1) e in (ground arith, ground arith)
  | inr t ↦ inside-mem n a b es (ground arith) t
]

module _ (n : ℕ) (es : List (ℕ × ℕ)) (h : inside n es ≡ true) where
  pub ends-closed :
      (v w : ℕ) (d : Direction) → Memᴰ w (ends es v d) → Memᴰ v (range 0 n) × Memᴰ w (range 0 n)
  ends-closed v w outgoing m =
      let (hv, hw) = inside-mem n v w es h ((mem-ends es v w).0 m) in
      ((Memᴰ-range v 0 n).1 (omega arith, hv), (Memᴰ-range w 0 n).1 (omega arith, hw))
  ends-closed v w incoming m =
      let (hw, hv) = inside-mem n w v es h ((mem-ends-incoming es v w).0 m) in
      ((Memᴰ-range v 0 n).1 (omega arith, hv), (Memᴰ-range w 0 n).1 (omega arith, hw))

  pub ends-opposite :
      (v w : ℕ) (d : Direction) → count w (ends es v d) ≡ count v (ends es w (opposite d))
  ends-opposite v w outgoing = ends-transposed es v w
  ends-opposite v w incoming = sym (ends-transposed es w v)

  pub ends-toposort : (acyclic es ≡ true) ↔ Acyclic (λ v w. Memᴰ w (ends es v outgoing))
  ends-toposort = (
    λ e. Acyclic-of_subset (λ v w m. (mem-ends es v w).0 m) ((acyclic_iff es).0 e),
    λ a. (acyclic_iff es).1 (Acyclic-of_subset (λ v w m. (mem-ends es v w).1 m) a),
  )

  unfoldable pub list_view : View
  unfolding acyclic
  list_view = record {
    node_identifiers = range 0 n;
    neighbors_directed = ends es;
    toposort_is_ok = acyclic es;
    once = λ v. count_from-once v 0 (n - 0);
    closed = ends-closed;
    transposed = ends-opposite;
    toposort_iff = ends-toposort;
  }
