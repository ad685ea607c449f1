-- ===== src/DiGraph/Keyed/Groups.antt =====
-- The dictionaries of `remove_node_retain_edges_by_key` hold the edges by their keys.
use rustworkx.Base.{
  ℕ, ◌≡◌, refl, sym, ap, ◌∙◌, subst, ◌↔◌, ◌⊎◌, inl, inr, Bool, true, Option, none, some, List, [],
  ◌∷◌, ◌++◌, Memᴰ, Memᴰ-append,
}
use rustworkx.Base.{if◌then◌else◌, Bool-cases}
use mathlib.Core.List.Memᴰ
use rustworkx.Petgraph.Stable.{EdgeReference}
use rustworkx.DiGraph.{Outcome, ok}
use rustworkx.DiGraph.Keyed.{RemoveNodeEdgeValue, Dict, get_item, push_node, key_value, group_edges}

-- Keys are compared by an equivalence.
pub record KeyEquality {O : Type 0} (same : O → O → Bool) : Type 0 where
  pub reflexive : (a : O) → same a a ≡ true
  pub symmetric : (a b : O) → same a b ≡ true → same b a ≡ true
  pub transitive : (a b c : O) → same a b ≡ true → same b c ≡ true → same a c ≡ true

module _ {O : Type 0} (same : O → O → Bool) (eq : KeyEquality same) where
  abbrev Entry : Type 0
  Entry = RemoveNodeEdgeValue O

  -- The nodes under a key.
  abbrev pub nodes_of : O → Dict same → List ℕ
  nodes_of q [] = []
  nodes_of q (g ∷ gs) = let rest = nodes_of q gs in if same g.key q then g.nodes else rest

  pub nodes_of-get_item :
      (q : O) (gs : Dict same)
      → (get_item same q gs ≡ none) × (nodes_of q gs ≡ [])
        ⊎ (g : Entry) × (get_item same q gs ≡ some g)
          × (nodes_of q gs ≡ g.nodes)
          × Memᴰ g gs
          × (same g.key q ≡ true)
  unfolding get_item
  nodes_of-get_item q [] = inl (refl, refl)
  nodes_of-get_item q (g ∷ gs) = elim (Bool-cases (same g.key q)) [
    | inl t ↦ inr (g, rw t refl, rw t refl, Memᴰ.head refl, t)
    | inr f ↦ elim (nodes_of-get_item q gs) [
      | inl (a, b) ↦ inl (rw f a, rw f b)
      | inr (h, a, b, m, t) ↦ inr (h, rw f a, rw f b, Memᴰ.tail m, t)
    ]
  ]

  nodes_of-push_node :
      (q k w : O) (n : ℕ) (gs : Dict same)
      → nodes_of q (push_node same k w n gs)
        ≡ (if same k q then nodes_of q gs ++ n ∷ [] else nodes_of q gs)
  unfolding push_node
  nodes_of-push_node q k w n [] = refl
  nodes_of-push_node q k w n (g ∷ gs) = elim (Bool-cases (same g.key k)) [
    | inl t ↦ elim (Bool-cases (same k q)) [
      | inl u ↦ rw (t, u, eq.transitive g.key k q t u) refl
      | inr v ↦ elim (Bool-cases (same g.key q)) [
        | inl x ↦ let wrong = eq.transitive k g.key q (eq.symmetric g.key k t) x in cc (wrong, v)
        | inr y ↦ rw (t, v, y) refl
      ]
    ]
    | inr f ↦ elim (Bool-cases (same g.key q)) [
      | inl x ↦ elim (Bool-cases (same k q)) [
        | inl u ↦ let wrong = eq.transitive g.key q k x (eq.symmetric k q u) in cc (wrong, f)
        | inr v ↦ rw (f, v, x) refl
      ]
      | inr y ↦ rw (f, y) (nodes_of-push_node q k w n gs)
    ]
  ]

  -- A node in an entry was there, or is the new one under its key.
  mem-push_node :
      (k w : O) (n : ℕ) (gs : Dict same) (g : Entry) (m : ℕ)
      → Memᴰ g (push_node same k w n gs)
      → Memᴰ m g.nodes
      → ((h : Entry) × Memᴰ h gs × Memᴰ m h.nodes × (h.key ≡ g.key))
        ⊎ (m ≡ n) × (same k g.key ≡ true)
  unfolding push_node
  mem-push_node k w n [] g m mg mm = elim (Memᴰ.cases_cons mg) [
    | inl e ↦ inr (
      Memᴰ.eq_of_singleton (subst (λ (x : Entry). Memᴰ m x.nodes) e mm),
      ap (λ (x : Entry). same k x.key) e ∙ eq.reflexive k,
    )
    | inr t ↦ absurd (Memᴰ.not-nil t)
  ]
  mem-push_node k w n (g0 ∷ gs) g m mg mm = elim (Bool-cases (same g0.key k)) [
    | inl t ↦ elim (Memᴰ.cases_cons (rw t at mg)) [
      | inl e ↦
          elim ((Memᴰ-append m g0.nodes (n ∷ [])).0 (subst (λ (x : Entry). Memᴰ m x.nodes) e mm)) [
            | inl old ↦ inl (g0, Memᴰ.head refl, old, ap (λ (x : Entry). x.key) (sym e))
            | inr new ↦ inr (
              Memᴰ.eq_of_singleton new,
              ap (λ (x : Entry). same k x.key) e ∙ eq.symmetric g0.key k t,
            )
          ]
      | inr later ↦ inl (g, Memᴰ.tail later, mm, refl)
    ]
    | inr f ↦ elim (Memᴰ.cases_cons (rw f at mg)) [
      | inl e ↦ inl (
        g0,
        Memᴰ.head refl,
        subst (λ (x : Entry). Memᴰ m x.nodes) e mm,
        ap (λ (x : Entry). x.key) (sym e),
      )
      | inr later ↦ elim (mem-push_node k w n gs g m later mm) [
        | inl (h, mh, mn, ek) ↦ inl (h, Memᴰ.tail mh, mn, ek)
        | inr new ↦ inr new
      ]
    ]
  ]

  module _ (key : Option (O → Outcome O)) (k : O → O)
      (total : (w : O) → key_value same key w ≡ ok (k w)) (end_of : EdgeReference O → ℕ) where
    -- `n` is the other end of an edge of `xs` whose key is `q`.
    abbrev pub Ends : List (EdgeReference O) → O → ℕ → Type 0
    Ends xs q n = (x : EdgeReference O) × Memᴰ x xs × (same (k x.weight) q ≡ true) × (n ≡ end_of x)

    pub record Groups (xs : List (EdgeReference O)) (acc : Dict same) (r : Outcome (Dict same))
        : Type 0 where
      pub groups : Dict same
      pub returns : r ≡ ok groups
      pub found :
          (q : O) (n : ℕ) → Memᴰ n (nodes_of q groups) ↔ (Memᴰ n (nodes_of q acc) ⊎ Ends xs q n)
      pub sound :
          (g : Entry) (n : ℕ)
          → Memᴰ g groups
          → Memᴰ n g.nodes
          → ((h : Entry) × Memᴰ h acc × Memᴰ n h.nodes × (h.key ≡ g.key)) ⊎ Ends xs g.key n

    pub group_edges-Groups :
        (xs : List (EdgeReference O)) (acc : Dict same)
        → Groups xs acc (group_edges same key end_of xs acc)
    unfolding group_edges
    group_edges-Groups [] acc = record {
      groups = acc;
      returns = refl;
      found = λ q n. (inl, λ h. elim h [ inl m ↦ m | inr (x, m, _, _) ↦ absurd (Memᴰ.not-nil m) ]);
      sound = λ g n mg mn. inl (g, mg, mn, refl);
    }
    group_edges-Groups (x ∷ xs) acc =
        let next = push_node same (k x.weight) x.weight (end_of x) acc in
        let rest = group_edges-Groups xs next in
        record {
          groups = rest.groups;
          returns = rw (total x.weight) rest.returns;
          found = λ q n. (
            λ h. elim ((rest.found q n).0 h) [
              | inr (y, m, u, e) ↦ inr (y, Memᴰ.tail m, u, e)
              | inl m ↦ elim ((pushed x acc q n).0 m) [
                | inl old ↦ inl old
                | inr (u, e) ↦ inr (x, Memᴰ.head refl, u, e)
              ]
            ],
            λ h. (rest.found q n).1 (elim h [
              | inl old ↦ inl ((pushed x acc q n).1 (inl old))
              | inr (y, m, u, e) ↦ elim (Memᴰ.cases_cons m) [
                | inl same_edge ↦ inl (
                    (pushed x acc q n).1 (
                      inr (
                        sym (ap (λ (z : EdgeReference O). same (k z.weight) q) same_edge) ∙ u,
                        e ∙ ap end_of same_edge,
                      )))
                | inr later ↦ inr (y, later, u, e)
              ]
            ]),
          );
          sound = λ g n mg mn. elim (rest.sound g n mg mn) [
            | inr (y, m, u, e) ↦ inr (y, Memᴰ.tail m, u, e)
            | inl (h, mh, mm, ek) ↦
                elim (mem-push_node (k x.weight) x.weight (end_of x) acc h n mh mm) [
                  | inl (h0, mh0, mm0, ek0) ↦ inl (h0, mh0, mm0, ek0 ∙ ek)
                  | inr (e, u) ↦ inr (x, Memᴰ.head refl, ap (same (k x.weight)) (sym ek) ∙ u, e)
                ]
          ];
        }
      where
        pushed :
            (x : EdgeReference O) (acc : Dict same) (q : O) (n : ℕ)
            → Memᴰ n (nodes_of q (push_node same (k x.weight) x.weight (end_of x) acc))
              ↔ (Memᴰ n (nodes_of q acc) ⊎ (same (k x.weight) q ≡ true) × (n ≡ end_of x))
        pushed x acc q n =
            let grown = nodes_of-push_node q (k x.weight) x.weight (end_of x) acc in
            elim (Bool-cases (same (k x.weight) q)) [
              | inl t ↦
                  let longer = grown ∙ rw t refl in
                  let split = Memᴰ-append n (nodes_of q acc) (end_of x ∷ []) in
                  (
                    λ m. elim (split.0 (subst (Memᴰ n) longer m)) [
                      | inl old ↦ inl old
                      | inr new ↦ inr (t, Memᴰ.eq_of_singleton new)
                    ],
                    λ h.
                        subst (Memᴰ n) (sym longer)
                          (split.1 (elim h [ inl old ↦ inl old | inr (_, e) ↦ inr (Memᴰ.head e) ])),
                  )
              | inr f ↦
                  let kept = grown ∙ rw f refl in
                  (
                    λ m. inl (subst (Memᴰ n) kept m),
                    λ h. elim h [
                      | inl old ↦ subst (Memᴰ n) (sym kept) old
                      | inr (t, _) ↦ cc (t, f)
                    ],
                  )
            ]
