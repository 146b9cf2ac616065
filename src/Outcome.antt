-- ===== src/Outcome.antt =====
-- How a C++ function ends: it returns, or it fails with an exception that nothing in the code
-- catches, a failed check that kills the process, or undefined behaviour of the standard library.
use environment_check.Prelude.{Bool, true, false}

pub data Fault : Type 0 where
  -- `std::out_of_range`, which `std::map::at` throws on a missing key.
  out_of_range : Fault
  -- FOREVER_CHECK, and FOREVER_DCHECK in a build without NDEBUG.
  check_failed : Fault
  -- `top` or `pop` of an empty `std::priority_queue`, or a read through a null pointer.
  undefined_behaviour : Fault
  -- `std::bad_function_call`, from a call of an empty `std::function`.
  bad_function_call : Fault

pub data Outcome {ℓ} (A : Type ℓ) : Type ℓ where
  returns : A → Outcome A
  fails : Fault → Outcome A

infixl 5 ◌>>=◌ ◌>>◌
abbrev pub ◌>>=◌ {ℓ κ} : {A : Type ℓ} {B : Type κ} → Outcome A → (A → Outcome B) → Outcome B
returns a >>= f = f a
fails e >>= f = fails e

abbrev pub ◌>>◌ {ℓ} : {B : Type ℓ} → Outcome (Unit {0}) → Outcome B → Outcome B
m >> k = m >>= λ _. k

abbrev pub check : Bool → Outcome (Unit {0})
check true = returns tt
check false = fails check_failed
