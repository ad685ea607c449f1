-- ===== src/Generators/Grid/Cells.antt =====
-- The edges of a grid by the coordinates of their ends.
use rustworkx.Base.{
  ℕ, zero, suc, ◌+◌, ◌*◌, ◌-◌, ◌<◌, ◌≡◌, refl, ◌∙◌, ◌↔◌, ◌⊎◌, inl, inr, ⊎_elim, Bool, true, false,
}
use rustworkx.Base.{
  [], ◌++◌, Memᴰ, length, length-append, flat_map, range, count_from, ltb, if◌then◌else◌, arith,
}
use rustworkx.Base.{Memᴰ-append}
use rustworkx.Generators.Build.Rules.{Pairs}
use rustworkx.Generators.Build.Links.{link, LinkEdge, Memᴰ-link, Memᴰ-loop, length-link, no_mem}

row_sum :
    (k n c : ℕ)
    → k * ((n - (n - 1)) * c + (c - 1)) + k * ((n - 1) * c + n * (c - 1))
      ≡ k * ((suc n - 1) * c + suc n * (c - 1))
row_sum k zero c = omega arith
row_sum k (suc n) c =
    let p : suc n - (suc n - 1) ≡ 1 = omega arith in
    let q : suc n - 1 ≡ n = omega arith in
    let s : suc (suc n) - 1 ≡ suc n = omega arith in rw (p, q, s) (omega arith)

module _ (bi : Bool) (r c : ℕ) where
  abbrev pub down : ℕ → ℕ → Pairs
  down i j = if ltb (i + 1) r then link bi (i * c + j) ((i + 1) * c + j) else []

  abbrev pub right : ℕ → ℕ → Pairs
  right i j = if ltb (j + 1) c then link bi (i * c + j) (i * c + j + 1) else []

  abbrev pub cell : ℕ → ℕ → Pairs
  cell i j = down i j ++ right i j

  abbrev pub grid_row : ℕ → Pairs
  grid_row i = flat_map (cell i) (range 0 c)

  abbrev pub grid_pairs : Pairs
  grid_pairs = flat_map grid_row (range 0 r)

  -- Cell (i', j') is below (i, j), or to its right.
  abbrev pub Beside : ℕ → ℕ → ℕ → ℕ → Type 0
  Beside i j i' j' = ((i' ≡ i + 1) × (j' ≡ j)) ⊎ ((i' ≡ i) × (j' ≡ j + 1))

  -- `u` and `v` are the numbers, row by row, of two cells of the grid of `r` rows and `c` columns
  -- that lie side by side: in this order, or in either if `bi`.
  pub record GridEdge (u v : ℕ) : Type 0 where
    pub i : ℕ
    pub j : ℕ
    pub i' : ℕ
    pub j' : ℕ
    pub in_rows : (i < r) × (i' < r)
    pub in_cols : (j < c) × (j' < c)
    pub source : u ≡ i * c + j
    pub target : v ≡ i' * c + j'
    pub beside : Beside i j i' j' ⊎ ((bi ≡ true) × Beside i' j' i j)

  Memᴰ-down :
      (i j u v : ℕ)
      → Memᴰ (u, v) (down i j) ↔ ((i + 1 < r) × LinkEdge bi (i * c + j) ((i + 1) * c + j) u v)
  Memᴰ-down i j u v = ground (arith, Memᴰ-link bi (i * c + j) ((i + 1) * c + j) u v, no_mem (u, v))

  Memᴰ-right :
      (i j u v : ℕ)
      → Memᴰ (u, v) (right i j) ↔ ((j + 1 < c) × LinkEdge bi (i * c + j) (i * c + j + 1) u v)
  Memᴰ-right i j u v = ground (arith, Memᴰ-link bi (i * c + j) (i * c + j + 1) u v, no_mem (u, v))

  down_edge :
      (i j u v : ℕ)
      → i + 1 < r
      → j < c
      → LinkEdge bi (i * c + j) ((i + 1) * c + j) u v
      → GridEdge u v
  down_edge i j u v hi hj (inl e) = record {
    i = i;
    j = j;
    i' = i + 1;
    j' = j;
    in_rows = omega arith;
    in_cols = (hj, hj);
    source = e.0;
    target = e.1;
    beside = inl (inl (refl, refl));
  }
  down_edge i j u v hi hj (inr e) = record {
    i = i + 1;
    j = j;
    i' = i;
    j' = j;
    in_rows = omega arith;
    in_cols = (hj, hj);
    source = e.1;
    target = e.2;
    beside = inr (e.0, inl (refl, refl));
  }

  right_edge :
      (i j u v : ℕ) → i < r → j + 1 < c → LinkEdge bi (i * c + j) (i * c + j + 1) u v → GridEdge u v
  right_edge i j u v hi hj (inl e) = record {
    i = i;
    j = j;
    i' = i;
    j' = j + 1;
    in_rows = (hi, hi);
    in_cols = omega arith;
    source = e.0;
    target = omega arith;
    beside = inl (inr (refl, refl));
  }
  right_edge i j u v hi hj (inr e) = record {
    i = i;
    j = j + 1;
    i' = i;
    j' = j;
    in_rows = (hi, hi);
    in_cols = omega arith;
    source = omega arith;
    target = e.2;
    beside = inr (e.0, inr (refl, refl));
  }

  grid_mem : (i j u v : ℕ) → i < r → j < c → Memᴰ (u, v) (cell i j) → Memᴰ (u, v) grid_pairs
  grid_mem i j u v hi hj m =
      (Memᴰ-loop grid_row (u, v) 0 r).1
        (i, omega arith, hi, (Memᴰ-loop (cell i) (u, v) 0 c).1 (j, omega arith, hj, m))

  mem_down :
      (i j u v : ℕ)
      → i + 1 < r
      → j < c
      → LinkEdge bi (i * c + j) ((i + 1) * c + j) u v
      → Memᴰ (u, v) grid_pairs
  mem_down i j u v hi hj k =
      grid_mem i j u v (omega arith) hj
        ((Memᴰ-append (u, v) (down i j) (right i j)).1 (inl ((Memᴰ-down i j u v).1 (hi, k))))

  mem_right :
      (i j u v : ℕ)
      → i < r
      → j + 1 < c
      → LinkEdge bi (i * c + j) (i * c + j + 1) u v
      → Memᴰ (u, v) grid_pairs
  mem_right i j u v hi hj k =
      grid_mem i j u v hi (omega arith)
        ((Memᴰ-append (u, v) (down i j) (right i j)).1 (inr ((Memᴰ-right i j u v).1 (hj, k))))

  moved : (w a b a' b' : ℕ) → w ≡ a * c + b → a ≡ a' → b ≡ b' → w ≡ a' * c + b'
  moved w a b a' b' e p q = cc

  edge_mem :
      (u v i j i' j' : ℕ)
      → (i < r) × (i' < r)
      → (j < c) × (j' < c)
      → u ≡ i * c + j
      → v ≡ i' * c + j'
      → Beside i j i' j' ⊎ ((bi ≡ true) × Beside i' j' i j)
      → Memᴰ (u, v) grid_pairs
  edge_mem u v i j i' j' h k s t (inl (inl (p, q))) =
      mem_down i j u v (omega arith) k.0 (inl (s, moved v i' j' (i + 1) j t p q))
  edge_mem u v i j i' j' h k s t (inl (inr (p, q))) =
      mem_right i j u v h.0 (omega arith) (inl (s, moved v i' j' i (j + 1) t p q ∙ omega arith))
  edge_mem u v i j i' j' h k s t (inr (b, inl (p, q))) =
      mem_down i' j' u v (omega arith) k.1 (inr (b, moved u i j (i' + 1) j' s p q, t))
  edge_mem u v i j i' j' h k s t (inr (b, inr (p, q))) =
      mem_right i' j' u v h.1 (omega arith)
        (inr (b, moved u i j i' (j' + 1) s p q ∙ omega arith, t))

  pub Memᴰ-grid_pairs : (u v : ℕ) → Memᴰ (u, v) grid_pairs ↔ GridEdge u v
  Memᴰ-grid_pairs u v = (
    λ m.
        let (i, _, hi, k) = (Memᴰ-loop grid_row (u, v) 0 r).0 m in
        let (j, _, hj, k') = (Memᴰ-loop (cell i) (u, v) 0 c).0 k in
        ⊎_elim (λ a. let (h, l) = (Memᴰ-down i j u v).0 a in down_edge i j u v h hj l)
          (λ a. let (h, l) = (Memᴰ-right i j u v).0 a in right_edge i j u v hi h l)
          ((Memᴰ-append (u, v) (down i j) (right i j)).0 k'),
    λ e. edge_mem u v e.i e.j e.i' e.j' e.in_rows e.in_cols e.source e.target e.beside,
  )

  -- The number of edges.
  abbrev way : ℕ
  way = if bi then 2 else 1

  length-right : (i j : ℕ) → length (right i j) ≡ (if ltb (j + 1) c then way else 0)
  length-right i j = ground (arith, length-link bi (i * c + j) (i * c + j + 1))

  length-down : (i j : ℕ) → length (down i j) ≡ (if ltb (i + 1) r then way else 0)
  length-down i j = ground (arith, length-link bi (i * c + j) ((i + 1) * c + j))

  length-cells :
      (i n j : ℕ)
      → j + n ≡ c
      → length (flat_map (cell i) (count_from j n))
        ≡ (if ltb (i + 1) r then way * n else 0) + way * (n - 1)
  length-cells i zero j e = ground arith
  length-cells i (suc n) j e =
      let rest = length-cells i n (j + 1) (omega arith) in
      let here = length-append (down i j) (right i j) in
      let whole = length-append (cell i j) (flat_map (cell i) (count_from (j + 1) n)) in
      ground (arith, rest, here, whole, length-right i j, length-down i j)

  length-row : (i n : ℕ) → i + suc n ≡ r → length (grid_row i) ≡ way * ((n - (n - 1)) * c + (c - 1))
  length-row i zero e =
      let z : c - 0 ≡ c = omega arith in
      let out : ltb (i + 1) r ≡ false = ground arith in
      rw z (length-cells i c 0 (omega arith) ∙ rw out (omega arith))
  length-row i (suc n) e =
      let z : c - 0 ≡ c = omega arith in
      let below : ltb (i + 1) r ≡ true = ground arith in
      let p : suc n - (suc n - 1) ≡ 1 = omega arith in
      rw z (length-cells i c 0 (omega arith) ∙ rw (below, p) (omega arith))

  length-rows :
      (n i : ℕ)
      → i + n ≡ r
      → length (flat_map grid_row (count_from i n)) ≡ way * ((n - 1) * c + n * (c - 1))
  length-rows zero i e = omega arith
  length-rows (suc n) i e =
      let whole = length-append (grid_row i) (flat_map grid_row (count_from (i + 1) n)) in
      omega (arith, whole, length-row i n e, length-rows n (i + 1) (omega arith), row_sum way n c)

  pub length-grid_pairs : length grid_pairs ≡ way * ((r - 1) * c + r * (c - 1))
  length-grid_pairs = let z : r - 0 ≡ r = omega arith in rw z (length-rows r 0 (omega arith))
