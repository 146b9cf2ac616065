-- ===== src/Prelude/Maps.antt =====
-- Maps from numbers as functions.
use Prim.Native.Nat.{ℕ}
use environment_check.Prelude.Tests.{◌==◌, if◌then◌else◌}

abbrev pub set_at {ℓ} : {A : Type ℓ} → ℕ → A → (ℕ → A) → ℕ → A
set_at i a f j = if j == i then a else f j
