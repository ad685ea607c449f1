-- ===== src/DiGraph/Cycles.antt =====
-- With `check_cycle` set, no insertion closes a cycle of two or more edges.
use rustworkx.Base.{
  ℕ, ◌≡◌, ◌≢◌, refl, sym, ◌∙◌, ◌↔◌, ◌⊎◌, inl, inr, Bool, true, false, not, ◌&&◌, List, [], ◌∷◌,
  Memᴰ,
}
use rustworkx.Base.{Bool-cases, Option-cases, arith, ◌||◌}
use mathlib.Core.List.Memᴰ
use mathlib.Core.Logic.{∥∥₁_elim}
use mathlib.Core.Path.{subst₂}
use mathlib.Core.HLevel.{⊥_prop}
use rustworkx.Petgraph.Stable.{Stable, is_some, outgoing, incoming}
use rustworkx.Petgraph.Walks.{
  Walk, Acyclic, Acyclic-insert, Acyclic-of_subset, Walk-first, Walk-last,
}
use rustworkx.DiGraph.{
  PyDiGraph, Outcome, ok, err, dag_would_cycle, nonempty, is_cycle_check_required, add_edge_checked,
  add_edge, contains_node, set_check_cycle, is_directed_acyclic_graph,
}
use rustworkx.DiGraph.Table.{Joins, Inserted, add_edge_no_cycle_check_lem, Inserted-Within}

nonempty-mem {ℓ} : {A : Type ℓ} {a : A} (l : List A) → Memᴰ a l → nonempty l ≡ true
nonempty-mem [] m = absurd (Memᴰ.not-nil m)
nonempty-mem (x ∷ l) m = refl

module _ {O : Type 0} (st : Stable O O) where
  open st use {edge, node_weight, find_edge, edges_directed, has_path_connecting}

  -- The invariant that `check_cycle` promises.
  abbrev pub IsGuarded : PyDiGraph st → Type 0
  IsGuarded s = s.check_cycle ≡ true → Acyclic (Joins st s)

  -- A walk from `c` to `p` between different nodes is seen by the quick test, unless there is an
  -- edge from `p` to `c` already.
  is_cycle_check_required-true :
      (s : PyDiGraph st) (p c : ℕ)
      → p ≢ c
      → Walk (Joins st s) p c
      → is_some (find_edge s.graph p c) ≡ false
      → is_cycle_check_required st s p c ≡ true
  unfolding is_cycle_check_required
  is_cycle_check_required-true s p c ne w absent =
      let (b, (i, v, out)) = Walk-first (λ e. ne (sym e)) w in
      let (a, (j, u, into)) = Walk-last (λ e. ne (sym e)) w in
      let leaving = nonempty-mem (edges_directed s.graph c outgoing) (
        (st.mem-edges_directed s.graph c outgoing
            (record { id = i; source = c; target = b; weight = v })).1
          (refl, out)) in
      let entering = nonempty-mem (edges_directed s.graph p incoming) (
        (st.mem-edges_directed s.graph p incoming
            (record { id = j; source = a; target = p; weight = u })).1
          (refl, into)) in
      rw (leaving, entering, absent)

  -- Without the full check there is no walk back, or the edge is there already.
  pub unrequired_lem :
      (s : PyDiGraph st) (p c : ℕ)
      → p ≢ c
      → is_cycle_check_required st s p c ≡ false
      → Joins st s p c ⊎ ¬ Walk (Joins st s) p c
  unrequired_lem s p c ne skipped = elim (Option-cases (find_edge s.graph p c)) [
    | inl absent ↦ inr (λ w. cc (is_cycle_check_required-true s p c ne w (rw absent)))
    | inr (i, found) ↦ let (v, at) = st.find_edge-some s.graph p c i found in inl (i, v, at)
  ]

  pub has_path_connecting-Walk :
      (s : PyDiGraph st) (p c : ℕ)
      → contains_node st s p ≡ true
      → contains_node st s c ≡ true
      → (has_path_connecting s.graph c p ≡ true) ↔ ∥ Walk (Joins st s) p c ∥₁
  unfolding contains_node
  has_path_connecting-Walk s p c hp hc = st.has_path_iff s.graph c p hc hp

  -- What `_add_edge` does on existing endpoints: it refuses and changes nothing, having found a
  -- walk back, or it inserts.
  pub data Checked (s : PyDiGraph st) (p c : ℕ) (w : O) (r : Outcome ℕ × PyDiGraph st)
      : Type 0 where
    refused :
        s.check_cycle ≡ true
        → has_path_connecting s.graph c p ≡ true
        → r ≡ (err dag_would_cycle, s)
        → Checked s p c w r
    inserted :
        (i : ℕ) (s' : PyDiGraph st)
        → (s.check_cycle ≡ false)
          ⊎ (is_cycle_check_required st s p c ≡ false)
          ⊎ (has_path_connecting s.graph c p ≡ false)
        → r ≡ (ok i, s')
        → Inserted st s p c w i s'
        → Checked s p c w r

  pub add_edge_checked-Checked :
      (s : PyDiGraph st) (p c : ℕ) (w : O)
      → contains_node st s p ≡ true
      → contains_node st s c ≡ true
      → Checked s p c w (add_edge_checked st p c w s)
  unfolding add_edge_checked
  add_edge_checked-Checked s p c w hp hc =
      let test =
        s.check_cycle && is_cycle_check_required st s p c && has_path_connecting s.graph c p in
      elim (Bool-cases test) [
        | inl t ↦ refused (ground arith) (ground arith) (rw t)
        | inr f ↦
            let (i, s', done, ins) = add_edge_no_cycle_check_lem st s p c w hp hc in
            inserted i s' (ground arith) (rw f done) ins
      ]

  Inserted-Acyclic :
      (s : PyDiGraph st) (p c : ℕ) (w : O) (i : ℕ) (s' : PyDiGraph st)
      → Inserted st s p c w i s'
      → Joins st s p c ⊎ ¬ Walk (Joins st s) p c
      → Acyclic (Joins st s)
      → Acyclic (Joins st s')
  Inserted-Acyclic s p c w i s' ins (inl old) acyclic =
      Acyclic-of_subset
        (λ a b l. elim (Inserted-Within st ins a b l) [
          | inl r ↦ r
          | inr (ep, ec) ↦ subst₂ (Joins st s) (sym ep) (sym ec) old
        ])
        acyclic
  Inserted-Acyclic s p c w i s' ins (inr apart) acyclic =
      Acyclic-insert (Inserted-Within st ins) acyclic apart

  pub add_edge_checked-IsGuarded :
      (s : PyDiGraph st) (p c : ℕ) (w : O)
      → contains_node st s p ≡ true
      → contains_node st s c ≡ true
      → p ≢ c
      → IsGuarded s
      → IsGuarded (add_edge_checked st p c w s).1
  add_edge_checked-IsGuarded s p c w hp hc ne guarded =
      elim (add_edge_checked-Checked s p c w hp hc) [
        | refused on back e ↦ rw e guarded
        | inserted i s' passed e ins ↦ rw e λ on.
            let was : s.check_cycle ≡ true = sym ins.same.check_cycle ∙ on in
            Inserted-Acyclic s p c w i s' ins
              (elim passed [
                | inl off ↦ cc (was, off)
                | inr (inl skip) ↦ unrequired_lem s p c ne skip
                | inr (inr none_) ↦
                    inr (λ v. cc ((has_path_connecting-Walk s p c hp hc).1 ∣ v ∣₁, none_))
              ])
              (guarded was)
      ]

  -- `add_edge` between different nodes keeps the promise, whatever it returns.
  pub add_edge-IsGuarded :
      (s : PyDiGraph st) (p c : ℕ) (w : O) → p ≢ c → IsGuarded s → IsGuarded (add_edge st p c w s).1
  unfolding add_edge
  add_edge-IsGuarded s p c w ne guarded =
      elim (Bool-cases (not (contains_node st s p) || not (contains_node st s c))) [
        | inl missing ↦ rw missing guarded
        | inr there ↦
            rw there (add_edge_checked-IsGuarded s p c w (ground arith) (ground arith) ne guarded)
      ]

  absent-Walk :
      (s : PyDiGraph st) (p c : ℕ)
      → p ≢ c
      → contains_node st s p ≡ true
      → contains_node st s c ≡ true
      → s.check_cycle ≡ true
      → IsGuarded s
      → (s.check_cycle ≡ false)
        ⊎ (is_cycle_check_required st s p c ≡ false)
        ⊎ (has_path_connecting s.graph c p ≡ false)
      → ¬ Walk (Joins st s) p c
  absent-Walk s p c ne hp hc on guarded (inl off) v = cc (on, off)
  absent-Walk s p c ne hp hc on guarded (inr (inl skip)) v = elim (unrequired_lem s p c ne skip) [
    | inl l ↦ guarded on p c l v
    | inr apart ↦ apart v
  ]
  absent-Walk s p c ne hp hc on guarded (inr (inr none_)) v =
      cc ((has_path_connecting-Walk s p c hp hc).1 ∣ v ∣₁, none_)

  -- Between two different nodes of a graph that checks for cycles and is acyclic, `add_edge`
  -- raises `DAGWouldCycle` and changes nothing exactly when the first node is reached from the
  -- second.
  pub add_edge-refuses_iff :
      (s : PyDiGraph st) (p c : ℕ) (w : O)
      → p ≢ c
      → contains_node st s p ≡ true
      → contains_node st s c ≡ true
      → s.check_cycle ≡ true
      → IsGuarded s
      → (add_edge st p c w s ≡ (err dag_would_cycle, s)) ↔ ∥ Walk (Joins st s) p c ∥₁
  unfolding add_edge
  add_edge-refuses_iff s p c w ne hp hc on guarded =
      rw (hp, hc)
        (elim (add_edge_checked-Checked s p c w hp hc) [
          | refused _ back e ↦ (λ _. (has_path_connecting-Walk s p c hp hc).0 back, λ _. e)
          | inserted i s' passed e ins ↦ (
            λ f. cc (e, f),
            λ v. absurd (∥∥₁_elim v ⊥_prop (absent-Walk s p c ne hp hc on guarded passed)),
          )
        ])

  -- Setting `check_cycle` looks for cycles first, and fails on a graph that has one.
  pub set_check_cycle-IsGuarded :
      (value : Bool) (s : PyDiGraph st) → IsGuarded s → IsGuarded (set_check_cycle st value s).1
  unfolding set_check_cycle is_directed_acyclic_graph
  set_check_cycle-IsGuarded value s guarded =
      let test = not s.check_cycle && value && not (st.toposort_is_ok s.graph) in
      elim (Bool-cases test) [
        | inl t ↦ rw t guarded
        | inr f ↦ rw f λ on. elim (Bool-cases s.check_cycle) [
          | inl was ↦ guarded was
          | inr off ↦ (st.toposort_iff s.graph).0 (ground arith)
        ]
      ]
