-- ===== src/Petgraph/Stable.antt =====
-- petgraph's `StableGraph<N, E, Directed>`, as far as src/digraph.rs uses it: the operations, and
-- their documented behaviour in terms of two views, the weight of a node index and the endpoints
-- and weight of an edge index. Petgraph is not part of the repository.
use rustworkx.Base.{ℕ, suc, ◌≡◌, ◌↔◌, ◌⊎◌, Bool, true, false, Option, some, none, List, Memᴰ, ◌==◌}
use rustworkx.Base.{if◌then◌else◌, ◌||◌, ◌&&◌, ◌≤◌, count}
use rustworkx.Petgraph.Walks.{Walk, Acyclic}

pub data Direction : Type 0 where
  outgoing incoming : Direction

pub record EdgeReference (E : Type 0) : Type 0 where
  pub id : ℕ
  pub source : ℕ
  pub target : ℕ
  pub weight : E

-- An edge joins `a` to `b` in a table of edges.
abbrev pub Linked : {E : Type 0} → (ℕ → Option (ℕ × ℕ × E)) → ℕ → ℕ → Type 0
Linked {E} look a b = (i : ℕ) × (w : E) × (look i ≡ some (a, b, w))

abbrev pub is_some {ℓ} : {A : Type ℓ} → Option A → Bool
is_some none = false
is_some (some _) = true

-- A table of edges without those that start or end at `n`.
abbrev pub without_node : {E : Type 0} → ℕ → Option (ℕ × ℕ × E) → Option (ℕ × ℕ × E)
without_node n none = none
without_node n (some (a, b, w)) = if a == n || b == n then none else some (a, b, w)

-- A table entry with another weight.
abbrev pub with_weight : {E : Type 0} → E → Option (ℕ × ℕ × E) → Option (ℕ × ℕ × E)
with_weight v none = none
with_weight v (some (a, b, w)) = some (a, b, v)

abbrev pub starts_at : {E : Type 0} → Direction → EdgeReference E → ℕ
starts_at outgoing r = r.source
starts_at incoming r = r.target

pub record Stable (N E : Type 0) : Type 1 where
  pub G : Type 0
  pub node_weight : G → ℕ → Option N
  -- `edge_endpoints` and `edge_weight`.
  pub edge : G → ℕ → Option (ℕ × ℕ × E)
  pub with_capacity : ℕ → ℕ → G
  pub node_count : G → ℕ
  pub edge_count : G → ℕ
  pub find_edge : G → ℕ → ℕ → Option ℕ
  pub edges_directed : G → ℕ → Direction → List (EdgeReference E)
  pub edge_indices : G → List ℕ
  pub edge_references : G → List (EdgeReference E)
  pub has_path_connecting : G → ℕ → ℕ → Bool
  -- `algo::toposort(graph, None).is_ok()`
  pub toposort_is_ok : G → Bool
  -- The new index and the graph. `none` is the panic on a missing endpoint.
  pub add_node : G → N → ℕ × G
  pub add_edge : G → ℕ → ℕ → E → Option (ℕ × G)
  -- A write through `edge_weight_mut`.
  pub set_edge_weight : G → ℕ → E → G
  -- A write through `node_weight_mut`.
  pub set_node_weight : G → ℕ → N → G
  pub remove_node : G → ℕ → G
  pub remove_edge : G → ℕ → G
  pub clear : G → G
  pub clear_edges : G → G
  -- Every edge of a graph joins nodes of it.
  pub endpoints :
      (g : G) (i a b : ℕ) (w : E)
      → edge g i ≡ some (a, b, w)
      → (is_some (node_weight g a) ≡ true) × (is_some (node_weight g b) ≡ true)
  pub nodes-with_capacity : (n m i : ℕ) → node_weight (with_capacity n m) i ≡ none
  pub edges-with_capacity : (n m i : ℕ) → edge (with_capacity n m) i ≡ none
  pub find_edge-some :
      (g : G) (a b i : ℕ) → find_edge g a b ≡ some i → (w : E) × (edge g i ≡ some (a, b, w))
  pub find_edge-none : (g : G) (a b : ℕ) → find_edge g a b ≡ none → ¬ Linked (edge g) a b
  pub mem-edges_directed :
      (g : G) (a : ℕ) (d : Direction) (r : EdgeReference E)
      → Memᴰ r (edges_directed g a d)
        ↔ ((starts_at d r ≡ a) × (edge g r.id ≡ some (r.source, r.target, r.weight)))
  pub mem-edge_indices : (g : G) (i : ℕ) → Memᴰ i (edge_indices g) ↔ (is_some (edge g i) ≡ true)
  pub edge_indices-once : (g : G) (i : ℕ) → count i (edge_indices g) ≤ 1
  pub mem-edge_references :
      (g : G) (r : EdgeReference E)
      → Memᴰ r (edge_references g) ↔ (edge g r.id ≡ some (r.source, r.target, r.weight))
  pub has_path_iff :
      (g : G) (a b : ℕ)
      → is_some (node_weight g a) ≡ true
      → is_some (node_weight g b) ≡ true
      → (has_path_connecting g a b ≡ true) ↔ ∥ Walk (Linked (edge g)) b a ∥₁
  pub toposort_iff : (g : G) → (toposort_is_ok g ≡ true) ↔ Acyclic (Linked (edge g))
  pub index-add_node : (g : G) (w : N) → node_weight g (add_node g w).0 ≡ none
  pub node_count-add_node : (g : G) (w : N) → node_count (add_node g w).1 ≡ suc (node_count g)
  pub nodes-add_node :
      (g : G) (w : N) (i : ℕ)
      → node_weight (add_node g w).1 i ≡ (if (add_node g w).0 == i then some w else node_weight g i)
  pub edges-add_node : (g : G) (w : N) (i : ℕ) → edge (add_node g w).1 i ≡ edge g i
  pub add_edge-some :
      (g : G) (a b : ℕ) (w : E)
      → is_some (node_weight g a) ≡ true
      → is_some (node_weight g b) ≡ true
      → (j : ℕ) × (g' : G) × (add_edge g a b w ≡ some (j, g'))
        × (edge g j ≡ none)
        × ((i : ℕ) → edge g' i ≡ (if j == i then some (a, b, w) else edge g i))
        × ((i : ℕ) → node_weight g' i ≡ node_weight g i)
  pub add_edge-none :
      (g : G) (a b : ℕ) (w : E)
      → (is_some (node_weight g a) ≡ false) ⊎ (is_some (node_weight g b) ≡ false)
      → add_edge g a b w ≡ none
  pub edges-set_edge_weight :
      (g : G) (j : ℕ) (w : E) (i : ℕ)
      → edge (set_edge_weight g j w) i ≡ (if j == i then with_weight w (edge g i) else edge g i)
  pub nodes-set_edge_weight :
      (g : G) (j : ℕ) (w : E) (i : ℕ) → node_weight (set_edge_weight g j w) i ≡ node_weight g i
  pub edges-set_node_weight :
      (g : G) (n : ℕ) (w : N) (i : ℕ) → edge (set_node_weight g n w) i ≡ edge g i
  pub nodes-set_node_weight :
      (g : G) (n : ℕ) (w : N) (i : ℕ)
      → node_weight (set_node_weight g n w) i
        ≡ (if n == i && is_some (node_weight g i) then some w else node_weight g i)
  pub nodes-remove_node :
      (g : G) (n i : ℕ)
      → node_weight (remove_node g n) i ≡ (if n == i then none else node_weight g i)
  pub edges-remove_node : (g : G) (n i : ℕ) → edge (remove_node g n) i ≡ without_node n (edge g i)
  pub nodes-remove_edge : (g : G) (j i : ℕ) → node_weight (remove_edge g j) i ≡ node_weight g i
  pub edges-remove_edge :
      (g : G) (j i : ℕ) → edge (remove_edge g j) i ≡ (if j == i then none else edge g i)
  pub nodes-clear : (g : G) (i : ℕ) → node_weight (clear g) i ≡ none
  pub edges-clear : (g : G) (i : ℕ) → edge (clear g) i ≡ none
  pub nodes-clear_edges : (g : G) (i : ℕ) → node_weight (clear_edges g) i ≡ node_weight g i
  pub edges-clear_edges : (g : G) (i : ℕ) → edge (clear_edges g) i ≡ none
