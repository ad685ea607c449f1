-- ===== src/Base/Ranges.antt =====
-- The ranges that `for` loops run through.
use Prim.Native.Nat.{ℕ, zero, suc, ◌+◌, ◌-◌, ◌≤◌, ◌<◌}
use mathlib.Core.Path.{◌≡◌, refl, ap}
use mathlib.Core.Logic.{◌↔◌, inl, inr}
use mathlib.Core.List.{List, [], ◌∷◌, Memᴰ}
use mathlib.Core.List.Memᴰ
use native.Mathlib.Omega.{arith}
use rustworkx.Base.Lists.{length}
use rustworkx.Base.Tests.{eq_or_lt}

-- `count` numbers from `start` on.
abbrev pub count_from : ℕ → ℕ → List ℕ
count_from start zero = []
count_from start (suc n) = start ∷ count_from (start + 1) n

-- `a..b`, which is empty where `b ≤ a`.
abbrev pub range : ℕ → ℕ → List ℕ
range a b = count_from a (b - a)

pub length-count_from : (s n : ℕ) → length (count_from s n) ≡ n
length-count_from s zero = refl
length-count_from s (suc n) = ap suc (length-count_from (s + 1) n)

pub Memᴰ-count_from : (i s n : ℕ) → Memᴰ i (count_from s n) ↔ ((s ≤ i) × (i < s + n))
Memᴰ-count_from i s zero = (λ m. absurd (Memᴰ.not-nil m), λ h. absurd (omega arith))
Memᴰ-count_from i s (suc n) = (
  λ m. elim (Memᴰ.cases_cons m) [
    | inl e ↦ omega arith
    | inr t ↦ let h = (Memᴰ-count_from i (s + 1) n).0 t in omega arith
  ],
  λ h. elim (eq_or_lt s i h.0) [
    | inl e ↦ Memᴰ.head e
    | inr l ↦ Memᴰ.tail ((Memᴰ-count_from i (s + 1) n).1 (omega arith))
  ],
)

pub Memᴰ-range : (i a b : ℕ) → Memᴰ i (range a b) ↔ ((a ≤ i) × (i < b))
Memᴰ-range i a b = let m = Memᴰ-count_from i a (b - a) in ground (arith, m)

pub length-range : (a b : ℕ) → length (range a b) ≡ b - a
length-range a b = length-count_from a (b - a)
