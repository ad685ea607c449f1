-- ===== src/Generators/Web/Laws.antt =====
-- dorogovtsev_goltsev_mendes_graph.rs: every edge gets a triangle, again and again.
use rustworkx.Base.{
  ℕ, zero, suc, ◌+◌, ◌-◌, ◌/◌, ◌^◌, ◌<◌, ◌≤◌, ◌%◌, Bool, ◌≡◌, refl, sym, ap, ◌∙◌, inl, inr, [], ◌∷◌,
  ◌++◌, Memᴰ, Memᴰ-append, append_assoc, append-nil,
}
use rustworkx.Base.{length, length-map, length-replicate, replicate, count_from, arith, subst}
use mathlib.Core.List.{map-append}
use mathlib.Core.List.Memᴰ
use native.Mathlib.Nat.{pow-le-pow_right}
use rustworkx.Petgraph.Create.{Create}
use rustworkx.Generators.Build.{Result, ok, fit_lem, ◌>>=◌, for_each, add_edge}
use rustworkx.Generators.Build.Rules.{Pairs, weigh, size, Adds-add_edge}
use rustworkx.Generators.Build.Nodes.{replicate_add}
use rustworkx.Generators.Web.{split_edge, split_edges, web_from, dorogovtsev_goltsev_mendes_graph}
use rustworkx.Generators.Web.Growth.{splits, web, length-web}

module _ {N E : Type 0} (c : Create N E) (d : N) (e : E) where
  -- Every pair joins nodes below `n`.
  abbrev Below : ℕ → Pairs → Type 0
  Below n ps = (a b : ℕ) → Memᴰ (a, b) ps → (a < n) × (b < n)

  -- A graph of `n` default nodes with the edges `ps`, in this order.
  record Holds (n : ℕ) (ps : Pairs) (g : Create.G c) : Type 0 where
    nodes : Create.node_weights c g ≡ replicate n d
    edges : Create.edge_references c g ≡ weigh c e ps
    below : Below n ps

  Holds-size : {n : ℕ} {ps : Pairs} {g : Create.G c} → Holds n ps g → size c e g ≡ n
  Holds-size {n} h = ap length h.nodes ∙ length-replicate n d

  Holds-add_node :
      {n : ℕ} {ps : Pairs} (g : Create.G c)
      → Holds n ps g
      → ((c.add_node g d).0 ≡ n) × Holds (n + 1) ps (c.add_node g d).1
  Holds-add_node {n} {ps} g h = (
    c.index-add_node g d ∙ Holds-size h,
    record {
      nodes = c.node_weights-add_node g d ∙ rw (h.nodes, replicate_add n 1 d) refl;
      edges = c.edge_references-add_node g d ∙ h.edges;
      below = λ a b m. let k = h.below a b m in (omega arith, omega arith);
    },
  )

  Holds-add_edge :
      {n : ℕ} {ps : Pairs} (g : Create.G c) (a b : ℕ)
      → Holds n ps g
      → a < n
      → b < n
      → (g' : Create.G c) × (add_edge c e a b g ≡ ok g') × Holds n (ps ++ (a, b) ∷ []) g'
  Holds-add_edge {n} {ps} g a b h ha hb =
      let sized = Holds-size h in
      let new = Adds-add_edge c e g a b (omega arith) (omega arith) in
      (
        new.out,
        new.returns,
        record {
          nodes = new.nodes ∙ h.nodes;
          edges = new.edges ∙ rw h.edges (simp map-append);
          below = λ x y m. elim ((Memᴰ-append (x, y) ps ((a, b) ∷ [])).0 m) [
            | inl old ↦ h.below x y old
            | inr new_ ↦ elim (Memᴰ.cases_cons new_) [
              | inl same ↦
                  let ex : x ≡ a = ap (λ t. t.0) same in
                  let ey : y ≡ b = ap (λ t. t.1) same in (omega arith, omega arith)
              | inr none_ ↦ absurd (Memᴰ.not-nil none_)
            ]
          ];
        },
      )

  unroll :
      (a b n : ℕ) (new : Pairs) (g g2 g3 : Create.G c)
      → (c.add_node g d).0 ≡ n
      → add_edge c e a n (c.add_node g d).1 ≡ ok g2
      → add_edge c e b n g2 ≡ ok g3
      → split_edge c d e (a, b) (new, g) ≡ ok (new ++ (a, n) ∷ (b, n) ∷ [], g3)
  unfolding split_edge
  unroll a b n new g g2 g3 at done2 done3 = rw (at, done2, done3) refl

  -- The inner loop over `xs`, all of them in the graph.
  Holds-split_edges :
      (xs : Pairs) (n : ℕ) (ps new : Pairs) (g : Create.G c)
      → Holds n (ps ++ new) g
      → Below n xs
      → (g' : Create.G c) × (for_each xs (split_edge c d e) (new, g) ≡ ok (new ++ splits n xs, g'))
        × Holds (n + length xs) (ps ++ (new ++ splits n xs)) g'
  unfolding for_each split_edge
  Holds-split_edges [] n ps new g h below =
      let z : n + 0 ≡ n = omega arith in (g, rw (append-nil new) refl, rw (append-nil new, z) h)
  Holds-split_edges ((a, b) ∷ xs) n ps new g h below =
      let (ha, hb) = below a b (Memᴰ.head refl) in
      let la : a < n + 1 = omega (arith, ha) in
      let lb : b < n + 1 = omega (arith, hb) in
      let ln : n < n + 1 = omega arith in
      let (at, h1) = Holds-add_node g h in
      let (g2, done2, h2) = Holds-add_edge (c.add_node g d).1 a n h1 la ln in
      let (g3, done3, h3) = Holds-add_edge g2 b n h2 lb ln in
      let regroup : ps ++ new ++ (a, n) ∷ [] ++ (b, n) ∷ [] ≡ ps ++ (new ++ (a, n) ∷ (b, n) ∷ []) =
        simp append_assoc in
      let mid = new ++ (a, n) ∷ (b, n) ∷ [] in
      let unrolled : for_each ((a, b) ∷ xs) (split_edge c d e) (new, g)
          ≡ for_each xs (split_edge c d e) (mid, g3) =
        ap (λ r. r >>= for_each xs (split_edge c d e)) (unroll a b n new g g2 g3 at done2 done3) in
      let more = splits (n + 1) xs in
      let (g', done, last) =
        Holds-split_edges xs (n + 1) ps (new ++ (a, n) ∷ (b, n) ∷ []) g3
          (subst (λ l. Holds (n + 1) l g3) regroup h3)
          (λ x y m. let k = below x y (Memᴰ.tail m) in (omega arith, omega arith)) in
      let total : n + suc (length xs) ≡ n + 1 + length xs = omega arith in
      let tidy = sym (append_assoc new ((a, n) ∷ (b, n) ∷ []) more) in
      (
        g',
        unrolled ∙ done ∙ ap (λ (l : Pairs). ok (l, g')) (sym tidy),
        subst (λ k. Holds k (ps ++ (new ++ (a, n) ∷ (b, n) ∷ more)) g') (sym total)
            (subst (λ l. Holds (n + 1 + length xs) (ps ++ l) g') (sym tidy) last),
      )

  Holds-rounds :
      (k s n : ℕ) (ps : Pairs) (g : Create.G c)
      → Holds n ps g
      → (g' : Create.G c) × (for_each (count_from s k) (split_edges c d e) (ps, g)
          ≡ ok ((web k (n, ps)).1, g'))
        × Holds (web k (n, ps)).0 (web k (n, ps)).1 g'
  unfolding for_each split_edges
  Holds-rounds zero s n ps g h = (g, refl, h)
  Holds-rounds (suc k) s n ps g h =
      let (g1, done, h1) =
        Holds-split_edges ps n ps [] g (subst (λ l. Holds n l g) (sym (append-nil ps)) h) h.below in
      let (g', done', h') = Holds-rounds k (s + 1) (n + length ps) (ps ++ splits n ps) g1 h1 in
      (g', rw done done', h')

  unroll_start :
      (n : ℕ) (start g2 g' : Create.G c) (qs : Pairs)
      → (c.add_node start d).0 ≡ 0
      → (c.add_node (c.add_node start d).1 d).0 ≡ 1
      → add_edge c e 0 1 (c.add_node (c.add_node start d).1 d).1 ≡ ok g2
      → for_each (count_from 0 n) (split_edges c d e) ((0, 1) ∷ [], g2) ≡ ok (qs, g')
      → web_from c d e n start ≡ ok g'
  unfolding web_from
  unroll_start n start g2 g' qs at_0 at_1 done rounds =
      let z : n - 0 ≡ n = omega arith in rw (at_0, at_1, done, z, rounds) refl

  unroll_capacity :
      (overflow_checks : Bool) (n : ℕ)
      → n ≤ 40
      → dorogovtsev_goltsev_mendes_graph c d e overflow_checks n
        ≡ web_from c d e n (c.with_capacity ((3 ^ n + 3) / 2) (3 ^ n))
  unfolding dorogovtsev_goltsev_mendes_graph
  unroll_capacity overflow_checks n small =
      let low : n % 2 ^ 32 ≡ n = omega arith in
      let one : 0 < 3 = omega arith in
      let bound : 3 ^ n ≤ 3 ^ 40 = pow-le-pow_right one small in
      rw
        (
          low,
          fit_lem overflow_checks (3 ^ n) (omega (arith, bound)),
          fit_lem overflow_checks (3 ^ n + 3) (omega (arith, bound)),
        )
        refl

  -- What the generator returns: default nodes, and the edges of `n` rounds from the edge (0, 1), in
  -- their order and each with the default weight.
  pub record IsWeb (n : ℕ) (r : Result (Create.G c)) : Type 0 where
    pub graph : Create.G c
    pub returns : r ≡ ok graph
    pub nodes : Create.node_weights c graph ≡ replicate ((3 ^ n + 3) / 2) d
    pub edges : Create.edge_references c graph ≡ weigh c e (web n (2, (0, 1) ∷ [])).1
    pub edge_count : length (Create.edge_references c graph) ≡ 3 ^ n

  -- For `n` up to 40, and whether the build checks for overflow or not,
  -- `dorogovtsev_goltsev_mendes_graph` returns a graph of `(3 ^ n + 3) / 2` nodes and `3 ^ n`
  -- edges, all with the default weights. Its edges are those of `n` rounds from the edge (0, 1), in
  -- each of which every edge that is there gets a new node, in order, with an edge to it from both
  -- of its ends.
  pub dorogovtsev_goltsev_mendes_graph-IsWeb :
      (overflow_checks : Bool) (n : ℕ)
      → n ≤ 40
      → IsWeb n (dorogovtsev_goltsev_mendes_graph c d e overflow_checks n)
  dorogovtsev_goltsev_mendes_graph-IsWeb overflow_checks n small =
      let start = c.with_capacity ((3 ^ n + 3) / 2) (3 ^ n) in
      let h0 : Holds 0 [] start = record {
        nodes = c.node_weights-with_capacity _ _;
        edges = c.edge_references-with_capacity _ _;
        below = λ a b m. absurd (Memᴰ.not-nil m);
      } in
      let z : 0 < 2 = omega arith in
      let o : 1 < 2 = omega arith in
      let (at_0, h1) = Holds-add_node start h0 in
      let (at_1, h2) = Holds-add_node (c.add_node start d).1 h1 in
      let (g2, done, h3) = Holds-add_edge (c.add_node (c.add_node start d).1 d).1 0 1 h2 z o in
      let (g', rounds, h) = Holds-rounds n 0 2 ((0, 1) ∷ []) g2 h3 in
      let all = web n (2, (0, 1) ∷ []) in
      let (len, size_n) = length-web n 2 ((0, 1) ∷ []) (omega arith) in
      let count : length all.1 ≡ 3 ^ n = omega (arith, len) in
      let half : all.0 ≡ (3 ^ n + 3) / 2 = omega (arith, count, size_n) in
      record {
        graph = g';
        returns =
            unroll_capacity overflow_checks n small
            ∙ unroll_start n start g2 g' all.1 at_0 at_1 done rounds;
        nodes = h.nodes ∙ ap (λ (k : ℕ). replicate k d) half;
        edges = h.edges;
        edge_count = ap length h.edges ∙ length-map _ all.1 ∙ count;
      }
