-- ===== src/Generators/Build.antt =====
-- What the generators share: results, loops over ranges and node lists, and a calculus for what
-- a run of `add_edge` calls appends. Closures for default weights are taken to return the same
-- value at each call, as those of src/generators.rs do (`|| py.None()`).
pub mod Rules
pub mod Spec
pub mod Links
pub mod Nodes
use rustworkx.Base.{
  ℕ, zero, suc, ◌+◌, ◌-◌, ◌*◌, ◌%◌, ◌^◌, ◌<◌, ◌≤◌, ◌≡◌, Bool, Option, none, some, List, [], ◌∷◌,
}
use rustworkx.Base.{if◌then◌else◌, arith, ltb, length, get_elem?, replicate}
use rustworkx.Petgraph.Create.{Create}

-- `InvalidInputError` is the generators' one error. `panic` is an index or an endpoint out of
-- range, an `unwrap` of `None`, or an overflow or a subtraction below zero where those are checked.
pub data Result {ℓ} (A : Type ℓ) : Type ℓ where
  ok : A → Result A
  invalid_input panic : Result A

infixl 5 ◌>>=◌
abbrev pub ◌>>=◌ {ℓ κ} : {A : Type ℓ} {B : Type κ} → Result A → (A → Result B) → Result B
ok a >>= f = f a
invalid_input >>= f = invalid_input
panic >>= f = panic

abbrev pub or_panic {ℓ} : {A : Type ℓ} → Option A → Result A
or_panic none = panic
or_panic (some a) = ok a

-- usize has 64 bits. A result that does not fit is a panic in a build with overflow checks, and
-- wraps in one without them, such as the release profile of Cargo.toml.
abbrev pub fit : Bool → ℕ → Result ℕ
fit overflow_checks x =
    if ltb x (2 ^ 64) then ok x else if overflow_checks then panic else ok (x % 2 ^ 64)

abbrev pub add : Bool → ℕ → ℕ → Result ℕ
add overflow_checks a b = fit overflow_checks (a + b)

abbrev pub mul : Bool → ℕ → ℕ → Result ℕ
mul overflow_checks a b = fit overflow_checks (a * b)

abbrev pub sub : Bool → ℕ → ℕ → Result ℕ
sub overflow_checks a b =
    if ltb a b then (if overflow_checks then panic else ok (a + 2 ^ 64 - b)) else ok (a - b)

-- `a - b` on usize in a build with overflow checks.
abbrev pub checked_sub : ℕ → ℕ → Result ℕ
checked_sub a b = if ltb a b then panic else ok (a - b)

pub fit_lem : (overflow_checks : Bool) (x : ℕ) → x < 2 ^ 64 → fit overflow_checks x ≡ ok x
fit_lem overflow_checks x h = ground arith

pub sub_lem : (overflow_checks : Bool) (a b : ℕ) → b ≤ a → sub overflow_checks a b ≡ ok (a - b)
sub_lem overflow_checks a b h = ground arith

-- utils.rs: `get_num_nodes`, whose `unwrap` panics where both are missing.
abbrev pub get_num_nodes {ℓ} : {T : Type ℓ} → Option ℕ → Option (List T) → Result ℕ
get_num_nodes num_nodes (some v) = ok (length v)
get_num_nodes num_nodes none = or_panic num_nodes

abbrev pub is_none {ℓ} : {A : Type ℓ} → Option A → Bool
is_none none = Bool.true
is_none (some _) = Bool.false

-- `for a in xs { body }` over a graph that the body changes.
unfoldable pub for_each {ℓ} : {A : Type ℓ} {S : Type 0} → List A → (A → S → Result S) → S → Result S
for_each [] body s = ok s
for_each (a ∷ xs) body s = body a s >>= for_each xs body

-- The weights that a generator gives its `n` nodes.
abbrev pub weights_or {ℓ} : {T : Type ℓ} → Option (List T) → ℕ → T → List T
weights_or (some ws) n d = ws
weights_or none n d = replicate n d

module _ {N E : Type 0} (c : Create N E) where
  open c use {G}

  -- `graph.add_edge(a, b, default_edge_weight())`
  unfoldable pub add_edge : E → ℕ → ℕ → G → Result G
  add_edge e a b g = or_panic (c.add_edge g a b e)

  -- `for weight in weights { graph.add_node(weight); }`
  unfoldable pub add_nodes : List N → G → G
  add_nodes [] g = g
  add_nodes (w ∷ ws) g = add_nodes ws (c.add_node g w).1

  -- `weights.into_iter().map(|weight| graph.add_node(weight)).collect()`
  unfoldable pub collect_nodes : List N → G → List ℕ × G
  collect_nodes [] g = ([], g)
  collect_nodes (w ∷ ws) g =
      let (i, g1) = c.add_node g w in let (is, g2) = collect_nodes ws g1 in (i ∷ is, g2)

  -- `graph.add_edge(a, b, ..); if bidirectional { graph.add_edge(b, a, ..); }`
  unfoldable pub add_both : E → Bool → ℕ → ℕ → G → Result G
  unfolding add_edge
  add_both e bidirectional a b g = do
    g1 ← add_edge e a b g
    if bidirectional then add_edge e b a g1 else ok g1
