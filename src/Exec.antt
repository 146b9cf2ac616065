-- ===== src/Exec.antt =====
-- Methods that change an object and may fail. What was written before a failure stays written, as
-- it does when an exception leaves a C++ method, so the state comes back beside a fault too.
use environment_check.Outcome.{Outcome, returns, fails}

abbrev pub Exec {ℓ} : Type ℓ → Type ℓ → Type ℓ
Exec S A = S → Outcome A × S

module _ {ℓ} {S A : Type ℓ} where
  abbrev pub pure : A → Exec S A
  pure a s = (returns a, s)

  abbrev pub lift : Outcome A → Exec S A
  lift r s = (r, s)

  -- A const method.
  abbrev pub reads : (S → Outcome A) → Exec S A
  reads f s = (f s, s)

abbrev pub modify : {S : Type 0} → (S → S) → Exec S (Unit {0})
modify f s = (returns tt, f s)

module _ {ℓ} {S A B : Type ℓ} where
  abbrev pub continue : Outcome A × S → (A → Exec S B) → Outcome B × S
  continue (returns a, s) f = f a s
  continue (fails e, s) f = (fails e, s)

  infixl 5 ◌>>=◌ ◌>>◌
  abbrev pub ◌>>=◌ : Exec S A → (A → Exec S B) → Exec S B
  ◌>>=◌ m f s = continue (m s) f

  abbrev pub ◌>>◌ : Exec S A → Exec S B → Exec S B
  m >> n = m >>= λ _. n
