-- ===== src/Generators/Tree/Rounds.antt =====
-- The `while` loop of full_rary_tree_graph.rs: the children of each node in turn.
use rustworkx.Base.{
  ℕ, zero, suc, ◌+◌, ◌-◌, ◌*◌, ◌<◌, ◌≤◌, ◌≡◌, refl, sym, ap, ◌∙◌, inl, inr, true, false, List, [],
  ◌∷◌, ◌++◌, append_assoc,
}
use rustworkx.Base.{
  flat_map, range, count_from, ltb, arith, get_elem?, append-nil, some, length, eq_or_lt,
  length-range,
}
use mathlib.Core.List.{map-append}
use Prim.Native.Nat.{min}
use rustworkx.Petgraph.Create.{Create}
use rustworkx.Generators.Build.{Result, ok, ◌>>=◌, for_each}
use rustworkx.Generators.Build.Rules.{Pairs, size, weigh, Adds, Adds-ok, Adds-add_edge}
use rustworkx.Generators.Build.Nodes.{get_elem?-count_from}
use rustworkx.Generators.Tree.{Growth, child_round, tree_loop}

pub count_from-append : (s n m : ℕ) → count_from s n ++ count_from (s + n) m ≡ count_from s (n + m)
count_from-append s zero m =
    let e : s + 0 ≡ s = omega arith in let f : 0 + m ≡ m = omega arith in rw (e, f) refl
count_from-append s (suc n) m =
    let e : s + suc n ≡ s + 1 + n = omega arith in
    let f : suc n + m ≡ suc (n + m) = omega arith in
    rw (e, f) (ap (λ (l : List ℕ). s ∷ l) (count_from-append (s + 1) n m))

stuck : (r k : ℕ) → k ≡ k * r + 1 → r ≡ 0
stuck zero k h = refl
stuck (suc r) k h = absurd (let e : k * suc r ≡ k * r + k = omega arith in omega (arith, e, h))

flat_map-nothing {ℓ κ} :
    {A : Type ℓ} {B : Type κ} (f : A → List B) (xs : List A)
    → ((x : A) → f x ≡ [])
    → flat_map f xs ≡ []
flat_map-nothing f [] h = refl
flat_map-nothing f (x ∷ xs) h = rw (h x) (flat_map-nothing f xs h)

module _ (r n : ℕ) where
  -- The first node below the `n`th that has no parent among the nodes before `k`.
  abbrev pub reach : ℕ → ℕ
  reach k = min n (k * r + 1)

  abbrev pub child : ℕ → ℕ → Pairs
  child u v = (u, v) ∷ []

  -- The edges to the children of `u`.
  abbrev pub children : ℕ → Pairs
  children u = flat_map (child u) (count_from (reach u) (reach (u + 1) - reach u))

  -- With no node in the queue, no later node has children.
  children-nothing : (k : ℕ) → k ≡ reach k → flat_map children (count_from k (n - k)) ≡ []
  children-nothing k h = elim (eq_or_lt k n (omega arith)) [
    | inl e ↦ let z : n - k ≡ 0 = omega arith in rw z refl
    | inr l ↦
        let none_ : r ≡ 0 = stuck r k (omega arith) in
        flat_map-nothing children (count_from k (n - k)) λ u.
          let same : (u + 1) * r ≡ u * r = rw none_ (omega arith) in
          let z : reach (u + 1) - reach u ≡ 0 = omega (arith, same) in rw z refl
  ]

module _ {N E : Type 0} (c : Create N E) (e : E) (r n : ℕ) where
  -- A round that ends with the given queue and counter, having added `ps`.
  pub record Rounds (g : Create.G c) (ps : Pairs) (parents : List ℕ) (it : ℕ)
      (m : Result (Growth c e r n)) : Type 0 where
    pub out : Create.G c
    pub returns : m ≡ ok (parents, it, out)
    pub nodes : Create.node_weights c out ≡ Create.node_weights c g
    pub edges : Create.edge_references c out ≡ Create.edge_references c g ++ weigh c e ps

  Rounds-bind :
      (g : Create.G c) {ps qs : Pairs} {a b : List ℕ} {t t' : ℕ} (m : Result (Growth c e r n))
      (k : Growth c e r n → Result (Growth c e r n))
      → Rounds g ps a t m
      → ((g' : Create.G c) → size c e g' ≡ size c e g → Rounds g' qs b t' (k (a, t, g')))
      → Rounds g (ps ++ qs) b t' (m >>= k)
  Rounds-bind g {ps} {qs} m k first rest =
      let then_ = rest first.out (ap length first.nodes) in
      record {
        out = then_.out;
        returns = rw first.returns then_.returns;
        nodes = then_.nodes ∙ first.nodes;
        edges = rw (then_.edges, first.edges) (simp (map-append, append_assoc));
      }

  nodes_at : (i : ℕ) → i < n → get_elem? (count_from 0 n) i ≡ some i
  nodes_at i h = get_elem?-count_from 0 n i h ∙ ap some (omega arith)

  Rounds-round :
      (u i k q t : ℕ) (g : Create.G c)
      → u < n
      → size c e g ≡ n
      → t ≡ k + q
      → t < n
      → Rounds g
          (child r n u t)
          (count_from k (q + 1))
          (t + 1)
          (child_round c e r n (count_from 0 n) u i (count_from k q, t, g))
  unfolding child_round
  Rounds-round u i k q t g hu sized et h =
      let new = Adds-add_edge c e g u t (omega arith) (omega arith) in
      let below : ltb t n ≡ true = ground arith in
      let queue : count_from k q ++ t ∷ [] ≡ count_from k (q + 1) =
        rw et (count_from-append k q 1) in
      record {
        out = new.out;
        returns = rw (below, nodes_at t h, nodes_at u hu, nodes_at t h, new.returns, queue) refl;
        nodes = new.nodes;
        edges = new.edges;
      }

  child_round-full :
      (u i k q t : ℕ) (g : Create.G c)
      → t ≡ n
      → child_round c e r n (count_from 0 n) u i (count_from k q, t, g) ≡ ok (count_from k q, t, g)
  unfolding child_round
  child_round-full u i k q t g et = let full : ltb t n ≡ false = ground arith in rw full refl

  pub Rounds-for_each :
      (u k : ℕ) (xs : List ℕ) (q t q' t' : ℕ) (g : Create.G c)
      → u < n
      → size c e g ≡ n
      → t ≡ k + q
      → t ≤ n
      → q' ≡ min (n - k) (q + length xs)
      → t' ≡ k + q'
      → Rounds g
          (flat_map (child r n u) (count_from t (q' - q)))
          (count_from k q')
          t'
          (for_each xs (child_round c e r n (count_from 0 n) u) (count_from k q, t, g))
  unfolding for_each
  Rounds-for_each u k [] q t q' t' g hu sized et le eq' et' =
      let e1 : q' - q ≡ 0 = omega arith in
      let e2 : q' ≡ q = omega arith in
      let e3 : t' ≡ t = omega arith in
      rw (e1, e2, e3) (record { out = g; returns = refl; nodes = refl; edges = sym (append-nil _) })
  Rounds-for_each u k (x ∷ xs) q t q' t' g hu sized et le eq' et' = elim (eq_or_lt t n le) [
    | inl same ↦
        rw (child_round-full u x k q t g (sym same))
          (Rounds-for_each u k xs q t q' t' g hu sized et le (omega arith) et')
    | inr below ↦
        let e1 : q' - q ≡ suc (q' - (q + 1)) = omega arith in
        rw e1 (
          Rounds-bind g (child_round c e r n (count_from 0 n) u x (count_from k q, t, g)) _
            (Rounds-round u x k q t g hu sized et below)
            λ g' same.
              Rounds-for_each u k xs (q + 1) (t + 1) q' t' g' hu (same ∙ sized) (omega arith)
                (omega arith) (omega arith) et')
  ]

  -- The loop from the `k`th node on, with the nodes up to `t` in the queue.
  pub Adds-tree_loop :
      (fuel k q t : ℕ) (g : Create.G c)
      → size c e g ≡ n
      → t ≡ k + q
      → t ≡ reach r n k
      → n - k ≤ fuel
      → Adds c e g
          (flat_map (children r n) (count_from k (n - k)))
          (tree_loop c e r n fuel (count_from 0 n) (count_from k q, t, g))
  unfolding tree_loop
  Adds-tree_loop fuel k zero t g sized et er enough =
      rw (children-nothing r n k (omega arith)) (Adds-ok c e g)
  Adds-tree_loop zero k (suc q) t g sized et er enough = absurd (omega arith)
  Adds-tree_loop (suc fuel) k (suc q) t g sized et er enough =
      let q' = min (n - (k + 1)) (q + length (range 0 r)) in
      let step_ : n - k ≡ suc (n - (k + 1)) = omega arith in
      let rounds =
        Rounds-for_each k (k + 1) (range 0 r) q t q' (k + 1 + q') g (omega arith) sized
          (omega arith) (omega arith) refl refl in
      let same_q : q' - q ≡ reach r n (k + 1) - reach r n k = omega (arith, length-range 0 r) in
      let rest =
        Adds-tree_loop fuel (k + 1) q' (k + 1 + q') rounds.out (ap length rounds.nodes ∙ sized) refl
          (omega (arith, length-range 0 r)) (omega arith) in
      let block : flat_map (child r n k) (count_from t (q' - q)) ≡ children r n k =
        ap (λ (x : ℕ). flat_map (child r n k) (count_from x (q' - q))) er
        ∙ ap (λ (y : ℕ). flat_map (child r n k) (count_from (reach r n k) y)) same_q in
      rw step_ (record {
        out = rest.out;
        returns = rw rounds.returns rest.returns;
        nodes = rest.nodes ∙ rounds.nodes;
        edges = rw (rest.edges, rounds.edges, block) (simp (map-append, append_assoc));
      })
