-- ===== src/CheckEnv/System.antt =====
-- What the checks ask the operating system for. The answers do not change while a check runs, other
-- than by its own `ptrace`.
use environment_check.Prelude.{ℕ, ◌<◌, ◌≡◌, arith, Option, Bool, List, ltb, if◌then◌else◌, length}
use environment_check.Outcome.{Outcome, returns, fails, undefined_behaviour}

pub record System : Type 0 where
  -- What can be read after `fopen`, or none where that returns null; the same for `popen`.
  pub file : List ℕ → Option (List ℕ)
  pub command : List ℕ → Option (List ℕ)
  -- Whether `access` with F_OK, X_OK and R_OK returns 0.
  pub exists : List ℕ → Bool
  pub executable : List ℕ → Bool
  pub readable : List ℕ → Bool
  -- The value of a system property, empty where there is none.
  pub property : List ℕ → List ℕ
  pub pid : ℕ
  pub ppid : ℕ
  pub uid : ℕ
  -- Whether `dlopen` finds a library, and `dlsym` a symbol in it.
  pub library : List ℕ → Bool
  pub symbol : List ℕ → List ℕ → Bool
  -- Whether `ptrace(PTRACE_TRACEME)` succeeds, and what the files hold once it has made the parent
  -- the tracer of the process.
  pub traceable : Bool
  pub file_when_traced : List ℕ → Option (List ℕ)

-- `sprintf` into a buffer, which needs a byte for the NUL.
unfoldable pub print_into : ℕ → List ℕ → Outcome (List ℕ)
print_into size s = if ltb (length s) size then returns s else fails undefined_behaviour

pub print_into_fits : (size : ℕ) (s : List ℕ) → length s < size → print_into size s ≡ returns s
unfolding print_into
print_into_fits size s h = ground arith
