-- ===== src/Petgraph/Finite.antt =====
-- A value of `Stable`: two tables, empty from a bound on, with new entries put at the bound.
pub mod Scan
pub mod Instance
use rustworkx.Base.{
  ℕ, zero, suc, ◌+◌, ◌≤◌, ◌<◌, ◌≡◌, refl, sym, ap, ◌∙◌, ◌↔◌, ◌⊎◌, inl, inr, subst, Bool, true,
  false, not, ◌&&◌, ◌||◌, Option, some, none, List, [], ◌∷◌, ◌++◌, Memᴰ,
}
use rustworkx.Base.{◌==◌, ==_iff, if◌then◌else◌, arith, Bool-cases, Option-cases, eq_or_lt}
use mathlib.Core.Bool.{So-prop}
use mathlib.Core.Logic.{∥∥₁_elim}
use rustworkx.Petgraph.Walks.{Walk, Walk-map, Acyclic, Acyclic-of_subset}
use rustworkx.Petgraph.Stable.{
  Stable, Direction, EdgeReference, Linked, is_some, without_node, with_weight, starts_at,
}
use rustworkx.Petgraph.Paths.{In, reaches, reaches_iff, acyclic, acyclic_iff}
use Scan.{
  first, first-some, first-none, entries, mem-entries, select, mem-select, pairs, mem-pairs,
  indices, mem-indices, count, count-beyond,
}

pub record Tables (N E : Type 0) : Type 0 where
  pub node : ℕ → Option N
  pub edge : ℕ → Option (ℕ × ℕ × E)
  pub nodes : ℕ
  pub edges : ℕ
  pub nodes_end : (i : ℕ) → nodes ≤ i → node i ≡ none
  pub edges_end : (i : ℕ) → edges ≤ i → edge i ≡ none
  pub endpoints :
      (i a b : ℕ) (w : E)
      → edge i ≡ some (a, b, w)
      → (is_some (node a) ≡ true) × (is_some (node b) ≡ true)

abbrev with_node : {A : Type 0} → ℕ → A → Option A → Option A
with_node n w none = none
with_node n w (some v) = some w

module _ {N E : Type 0} where
  abbrev pub empty : Tables N E
  empty = record {
    node = λ _. none;
    edge = λ _. none;
    nodes = 0;
    edges = 0;
    nodes_end = λ _ _. refl;
    edges_end = λ _ _. refl;
    endpoints = λ i a b w e. cc;
  }

  unfoldable pub put_node : Tables N E → N → Tables N E
  put_node g w = record g {
    node = λ i. if g.nodes == i then some w else g.node i;
    nodes = suc g.nodes;
    nodes_end = λ i h. ground (arith, g.nodes_end i);
    endpoints = λ i a b v e. let (ha, hb) = g.endpoints i a b v e in (ground arith, ground arith);
  }

  unfoldable pub put_edge :
      (g : Tables N E) (a b : ℕ) (w : E)
      → is_some (g.node a) ≡ true
      → is_some (g.node b) ≡ true
      → Tables N E
  put_edge g a b w ha hb = record g {
    edge = λ i. if g.edges == i then some (a, b, w) else g.edge i;
    edges = suc g.edges;
    edges_end = λ i h. ground (arith, g.edges_end i);
    endpoints = λ i x y v e. ground (arith, g.endpoints i x y v);
  }

  pub put_if :
      (g : Tables N E) (a b : ℕ) (w : E) (x y : Bool)
      → is_some (g.node a) ≡ x
      → is_some (g.node b) ≡ y
      → Option (ℕ × Tables N E)
  unfolding put_edge
  put_if g a b w true true ha hb = some (g.edges, put_edge g a b w ha hb)
  put_if g a b w true false ha hb = none
  put_if g a b w false y ha hb = none

  unfoldable pub add_edge : Tables N E → ℕ → ℕ → E → Option (ℕ × Tables N E)
  unfolding put_if
  add_edge g a b w = put_if g a b w (is_some (g.node a)) (is_some (g.node b)) refl refl

  unfoldable pub weigh_edge : Tables N E → ℕ → E → Tables N E
  weigh_edge g j v = record g {
    edge = λ i. if j == i then with_weight v (g.edge i) else g.edge i;
    edges_end = λ i h. ground (arith, g.edges_end i h);
    endpoints = λ i a b w e. elim (Option-cases (g.edge i)) [
      | inl n ↦ ground arith
      | inr ((x, y, u), at) ↦ ground (arith, g.endpoints i x y u at)
    ];
  }

  unfoldable pub drop_edge : Tables N E → ℕ → Tables N E
  drop_edge g j = record g {
    edge = λ i. if j == i then none else g.edge i;
    edges_end = λ i h. ground (arith, g.edges_end i h);
    endpoints = λ i a b w e. ground (arith, g.endpoints i a b w);
  }

  unfoldable pub weigh_node : Tables N E → ℕ → N → Tables N E
  weigh_node g n w = record g {
    node = λ i. if n == i && is_some (g.node i) then some w else g.node i;
    nodes_end = λ i h. ground (arith, g.nodes_end i h);
    endpoints = λ i a b v e. let (ha, hb) = g.endpoints i a b v e in (ground arith, ground arith);
  }

  unfoldable pub drop_node : Tables N E → ℕ → Tables N E
  drop_node g n = record g {
    node = λ i. if n == i then none else g.node i;
    edge = λ i. without_node n (g.edge i);
    nodes_end = λ i h. ground (arith, g.nodes_end i h);
    edges_end = λ i h. ground (arith, g.edges_end i h);
    endpoints = λ i a b v e. elim (Option-cases (g.edge i)) [
      | inl m ↦ ground arith
      | inr ((x, y, u), at) ↦ ground (arith, g.endpoints i x y u at)
    ];
  }

  unfoldable pub drop_edges : Tables N E → Tables N E
  drop_edges g = record g {
    edge = λ _. none;
    edges = 0;
    edges_end = λ _ _. refl;
    endpoints = λ i a b w e. cc;
  }
