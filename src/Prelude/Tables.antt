-- ===== src/Prelude/Tables.antt =====
-- What holds at every index of a table, by evaluation.
use Prim.Native.Nat.{ℕ, zero, suc, ◌<◌}
use mathlib.Core.Path.{◌≡◌, ap, ◌∙◌}
use mathlib.Core.Logic.{inl, inr}
use mathlib.Core.Bool.{Bool, true, false, ◌&&◌}
use mathlib.Core.Option.{Option, none, some}
use native.Mathlib.Omega.{arith}
use environment_check.Prelude.Tests.{◌==◌, ==_iff, Bool-cases, and_both}

abbrev pub below : (ℕ → Bool) → ℕ → Bool
below f zero = true
below f (suc n) = f n && below f n

pub below_lem : (f : ℕ → Bool) (n i : ℕ) → below f n ≡ true → i < n → f i ≡ true
below_lem f zero i h b = absurd (omega (arith, b))
below_lem f (suc n) i h b = elim (Bool-cases (i == n)) [
  | inl y ↦ ap f ((==_iff i n).0 y) ∙ (and_both (f n) (below f n) h).0
  | inr y ↦ below_lem f n i (and_both (f n) (below f n) h).1 (ground (arith, b))
]

abbrev pub is_value : ℕ → Option ℕ → Bool
is_value i none = false
is_value i (some j) = j == i

pub value_of : (i : ℕ) (o : Option ℕ) → is_value i o ≡ true → o ≡ some i
value_of i none h = cc
value_of i (some j) h = ap some ((==_iff j i).0 h)
