-- ===== src/Generators/Build/Rules.antt =====
-- What a run of `add_edge` calls appends, composed as the loops are.
use rustworkx.Base.{ℕ, ◌<◌, ◌+◌, ◌≡◌, refl, sym, ap, ◌∙◌, Bool, true, false}
use rustworkx.Base.{List, [], ◌∷◌, ◌++◌, map, Memᴰ, append-nil, append_assoc, length, flat_map}
use rustworkx.Base.{length-append, count_from, if◌then◌else◌, arith}
use mathlib.Core.List.{map-append}
use rustworkx.Petgraph.Create.{Create}
use rustworkx.Generators.Build.{Result, ok, ◌>>=◌, for_each, add_edge, add_nodes, collect_nodes}

abbrev pub Pairs : Type 0
Pairs = List (ℕ × ℕ)

module _ {N E : Type 0} (c : Create N E) (e : E) where
  open c use {G, node_weights, edge_references}

  abbrev pub weigh : Pairs → List (ℕ × ℕ × E)
  weigh = map (λ p. (p.0, p.1, e))

  abbrev pub size : G → ℕ
  size g = length (node_weights g)

  -- `r` is a normal return of `g` with the edges `ps` appended.
  pub record Adds (g : G) (ps : Pairs) (r : Result G) : Type 0 where
    pub out : G
    pub returns : r ≡ ok out
    pub nodes : node_weights out ≡ node_weights g
    pub edges : edge_references out ≡ edge_references g ++ weigh ps

  pub Adds-ok : (g : G) → Adds g [] (ok g)
  Adds-ok g = record { out = g; returns = refl; nodes = refl; edges = sym (append-nil _) }

  pub Adds-add_edge :
      (g : G) (a b : ℕ) → a < size g → b < size g → Adds g ((a, b) ∷ []) (add_edge c e a b g)
  unfolding add_edge
  Adds-add_edge g a b ha hb =
      let (g', done, nodes, edges) = c.add_edge_lem g a b e ha hb in
      record { out = g'; returns = rw done; nodes = nodes; edges = edges }

  pub Adds-bind :
      (g : G) {ps qs : Pairs} (m : Result G) (k : G → Result G)
      → Adds g ps m
      → ((g' : G) → size g' ≡ size g → Adds g' qs (k g'))
      → Adds g (ps ++ qs) (m >>= k)
  Adds-bind g {ps} {qs} m k first rest =
      let then_ = rest first.out (ap length first.nodes) in
      record {
        out = then_.out;
        returns = rw first.returns then_.returns;
        nodes = then_.nodes ∙ first.nodes;
        edges = rw (then_.edges, first.edges) (simp (map-append, append_assoc));
      }

  pub Adds-if :
      (g : G) {ps qs : Pairs} (b : Bool) (m k : Result G)
      → Adds g ps m
      → Adds g qs k
      → Adds g (if b then ps else qs) (if b then m else k)
  Adds-if g true m k hm hk = hm
  Adds-if g false m k hm hk = hk

  pub Adds-for_each {ℓ} :
      {A : Type ℓ} (f : A → Pairs) (body : A → G → Result G) (n : ℕ) (xs : List A)
      → ((a : A) → Memᴰ a xs → (g : G) → size g ≡ n → Adds g (f a) (body a g))
      → (g : G) → size g ≡ n
      → Adds g (flat_map f xs) (for_each xs body g)
  unfolding for_each
  Adds-for_each f body n [] step g sized = Adds-ok g
  Adds-for_each f body n (a ∷ xs) step g sized =
      Adds-bind g (body a g) (for_each xs body) (step a (Memᴰ.head refl) g sized)
        λ g' same. Adds-for_each f body n xs (λ b m. step b (Memᴰ.tail m)) g' (same ∙ sized)

  -- The loops over nodes.
  pub record Grows (g : G) (ws : List N) (g' : G) : Type 0 where
    pub nodes : node_weights g' ≡ node_weights g ++ ws
    pub edges : edge_references g' ≡ edge_references g

  pub add_nodes-Grows : (ws : List N) (g : G) → Grows g ws (add_nodes c ws g)
  unfolding add_nodes
  add_nodes-Grows [] g = record { nodes = sym (append-nil _); edges = refl }
  add_nodes-Grows (w ∷ ws) g =
      let rest = add_nodes-Grows ws (c.add_node g w).1 in
      record {
        nodes =
            rw (rest.nodes, c.node_weights-add_node g w)
              (append_assoc (node_weights g) (w ∷ []) ws);
        edges = rest.edges ∙ c.edge_references-add_node g w;
      }

  pub collect_nodes-Grows : (ws : List N) (g : G) → Grows g ws (collect_nodes c ws g).1
  unfolding collect_nodes
  collect_nodes-Grows [] g = record { nodes = sym (append-nil _); edges = refl }
  collect_nodes-Grows (w ∷ ws) g =
      let rest = collect_nodes-Grows ws (c.add_node g w).1 in
      record {
        nodes =
            rw (rest.nodes, c.node_weights-add_node g w)
              (append_assoc (node_weights g) (w ∷ []) ws);
        edges = rest.edges ∙ c.edge_references-add_node g w;
      }

  -- The collected indices are consecutive.
  pub collect_nodes-indices :
      (ws : List N) (g : G) (n : ℕ)
      → size g ≡ n
      → (collect_nodes c ws g).0 ≡ count_from n (length ws)
  unfolding collect_nodes
  collect_nodes-indices [] g n sized = refl
  collect_nodes-indices (w ∷ ws) g n sized =
      let grown : size (c.add_node g w).1 ≡ n + 1 =
        rw (c.node_weights-add_node g w) (omega (arith, length-append (node_weights g) (w ∷ []))) in
      cc (c.index-add_node g w, collect_nodes-indices ws (c.add_node g w).1 (n + 1) grown)
