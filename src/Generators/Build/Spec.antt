-- ===== src/Generators/Build/Spec.antt =====
-- What a generator promises: the node weights, the directed edges as a relation, their number,
-- and one weight on every edge.
use rustworkx.Base.{ℕ, ◌≡◌, refl, ap, ◌∙◌, ◌↔◌, List, [], ◌∷◌, map, Memᴰ, length}
use rustworkx.Base.{replicate}
use rustworkx.Petgraph.Create.{Create}
use rustworkx.Generators.Build.{Result, ok}
use rustworkx.Generators.Build.Rules.{Pairs, weigh, Adds, Grows}

module _ {N E : Type 0} (c : Create N E) (e : E) where
  open c use {G, node_weights, edge_references, with_capacity}

  -- The (source, target) pairs of a graph, in the order of insertion.
  abbrev pub edge_list : G → Pairs
  edge_list g = map (λ t. (t.0, t.1)) (edge_references g)

  abbrev pub edge_weights : G → List E
  edge_weights g = map (λ t. t.2) (edge_references g)

  pub record Builds (ws : List N) (ps : Pairs) (r : Result G) : Type 0 where
    pub out : G
    pub returns : r ≡ ok out
    pub nodes : node_weights out ≡ ws
    pub edges : edge_references out ≡ weigh c e ps

  pub Builds-Adds :
      (n m : ℕ) {g : G} {ws : List N} {ps : Pairs} {r : Result G}
      → Grows c e (with_capacity n m) ws g
      → Adds c e g ps r
      → Builds ws ps r
  Builds-Adds n m h k = record {
    out = k.out;
    returns = k.returns;
    nodes = k.nodes ∙ h.nodes ∙ rw (c.node_weights-with_capacity n m);
    edges = k.edges ∙ rw (h.edges, c.edge_references-with_capacity n m);
  }

  pub record Draws (ws : List N) (Edge : ℕ → ℕ → Type 0) (count : ℕ) (r : Result G) : Type 0 where
    pub graph : G
    pub returns : r ≡ ok graph
    pub nodes : node_weights graph ≡ ws
    pub edges : (u v : ℕ) → Memᴰ (u, v) (edge_list graph) ↔ Edge u v
    pub edge_count : length (edge_list graph) ≡ count
    pub weights : edge_weights graph ≡ replicate count e

  edge_list-weigh : (ps : Pairs) → map (λ t. (t.0, t.1)) (weigh c e ps) ≡ ps
  edge_list-weigh [] = refl
  edge_list-weigh (p ∷ ps) = ap (λ (l : Pairs). p ∷ l) (edge_list-weigh ps)

  edge_weights-weigh : (ps : Pairs) → map (λ t. t.2) (weigh c e ps) ≡ replicate (length ps) e
  edge_weights-weigh [] = refl
  edge_weights-weigh (p ∷ ps) = ap (λ (l : List E). e ∷ l) (edge_weights-weigh ps)

  pub Draws-Builds :
      {ws : List N} {r : Result G} (Edge : ℕ → ℕ → Type 0) (ps : Pairs) (count : ℕ)
      → Builds ws ps r
      → ((u v : ℕ) → Memᴰ (u, v) ps ↔ Edge u v)
      → length ps ≡ count
      → Draws ws Edge count r
  Draws-Builds Edge ps count b mem len =
      let listed : edge_list b.out ≡ ps = rw b.edges (edge_list-weigh ps) in
      record {
        graph = b.out;
        returns = b.returns;
        nodes = b.nodes;
        edges = λ u v. rw listed (mem u v);
        edge_count = ap length listed ∙ len;
        weights = rw (b.edges, ← len) (edge_weights-weigh ps);
      }
