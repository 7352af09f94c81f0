-- ===== src/Prelude/Lexicographic.antt =====
-- Lexicographic orders: `ORDER BY a, b, …` and Python's order on tuples.
use Prim.Native.Nat.{ℕ, compare, Ordering}
use mathlib.Core.Path.{◌≡◌}
use mathlib.Core.Logic.{◌⊎◌}
use mathlib.Core.Bool.{Bool, true, false}
use native.Mathlib.Omega.{arith}

-- `a` before `b`, and where they are equal the rest decides.
unfoldable pub then_by : ℕ → ℕ → Bool → Bool
then_by a b rest = elim (compare a b) [
  | Ordering.lt ↦ true
  | Ordering.eq ↦ rest
  | Ordering.gt ↦ false
]

pub then_by_trans :
    (a b c : ℕ) (r s t : Bool)
    → (r ≡ true → s ≡ true → t ≡ true)
    → then_by a b r ≡ true
    → then_by b c s ≡ true
    → then_by a c t ≡ true
unfolding then_by
then_by_trans a b c r s t h p q = ground arith

pub then_by_total :
    (a b : ℕ) (r s : Bool)
    → (r ≡ true) ⊎ (s ≡ true)
    → (then_by a b r ≡ true) ⊎ (then_by b a s ≡ true)
unfolding then_by
then_by_total a b r s h = ground arith
