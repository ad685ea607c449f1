-- ===== src/Generators/Mesh/Extends.antt =====
-- Stages that append nodes and edges, and their composition.
use rustworkx.Base.{
  ℕ, ◌+◌, ◌≡◌, refl, ap, ◌∙◌, List, ◌++◌, append_assoc, length, length-append, arith,
}
use mathlib.Core.List.{map-append}
use rustworkx.Petgraph.Create.{Create}
use rustworkx.Generators.Build.{Result, ok, ◌>>=◌}
use rustworkx.Generators.Build.Rules.{Pairs, weigh, size, Adds, Grows}
use rustworkx.Generators.Build.Spec.{Builds}

module _ {N E : Type 0} (c : Create N E) (e : E) where
  open c use {G, node_weights, edge_references}

  -- `r` is a normal return of `g` with the nodes `ws` and the edges `ps` appended.
  pub record Extends (g : G) (ws : List N) (ps : Pairs) (r : Result G) : Type 0 where
    pub out : G
    pub returns : r ≡ ok out
    pub nodes : node_weights out ≡ node_weights g ++ ws
    pub edges : edge_references out ≡ edge_references g ++ weigh c e ps

  pub Extends-Adds :
      {g g' : G} {ws : List N} {ps : Pairs} {r : Result G}
      → Grows c e g ws g'
      → Adds c e g' ps r
      → Extends g ws ps r
  Extends-Adds h k = record {
    out = k.out;
    returns = k.returns;
    nodes = k.nodes ∙ h.nodes;
    edges = k.edges ∙ rw h.edges refl;
  }

  pub Extends-bind :
      (g : G) (n : ℕ) {vs ws : List N} {ps qs : Pairs} (m : Result G) (k : G → Result G)
      → size c e g ≡ n
      → Extends g vs ps m
      → ((g' : G) → size c e g' ≡ n + length vs → Extends g' ws qs (k g'))
      → Extends g (vs ++ ws) (ps ++ qs) (m >>= k)
  Extends-bind g n {vs} {ws} {ps} {qs} m k sized first rest =
      let grown : size c e first.out ≡ n + length vs =
        ap length first.nodes ∙ length-append (node_weights g) vs ∙ omega (arith, sized) in
      let then_ = rest first.out grown in
      record {
        out = then_.out;
        returns = rw first.returns then_.returns;
        nodes = rw (then_.nodes, first.nodes) (append_assoc (node_weights g) vs ws);
        edges = rw (then_.edges, first.edges) (simp (map-append, append_assoc));
      }

  pub Builds-Extends :
      (n m : ℕ) {ws : List N} {ps : Pairs} {r : Result G}
      → Extends (c.with_capacity n m) ws ps r
      → Builds c e ws ps r
  Builds-Extends n m h = record {
    out = h.out;
    returns = h.returns;
    nodes = h.nodes ∙ rw (c.node_weights-with_capacity n m) refl;
    edges = h.edges ∙ rw (c.edge_references-with_capacity n m) refl;
  }
