-- ===== src/WeakPtr/Meaning.antt =====
-- What a program means by its weak pointers alone.
use environment_check.Prelude.{
  ℕ, Option, none, some, Bool, true, false, List, [], ◌∷◌, ◌==◌, ◌&&◌, not, ltb, length,
  if◌then◌else◌, set_at,
}
use environment_check.RefPtr.{pointer_at, set}
use environment_check.RefPtr.References.{references}
use environment_check.RefPtr.Allowed.{is_empty_at}
use environment_check.WeakPtr.{
  WeakCall, makes_factory, destroys_factory, gets, copies, moves, copy_assigns, move_assigns,
  resets, destroys,
}

-- The flag of each variable, which variables are living factories, and the object of each variable.
pub record Weak : Type 0 where
  pub flags : List (Option ℕ)
  pub alive : ℕ → Bool
  pub ptr : ℕ → Option ℕ

abbrev pub allowed : Bool → Weak → Option Weak
allowed b a = if b then some a else none

-- A weak pointer that exists.
abbrev pub is_weak : ℕ → Weak → Bool
is_weak i a = ltb i (length a.flags) && not (a.alive i)

-- The flag and the object of `r` for `i`.
abbrev pub same_as : ℕ → ℕ → List (Option ℕ) → Weak → Weak
same_as i r others a = record a {
  flags = set i (pointer_at r a.flags) others;
  ptr = set_at i (a.ptr r) a.ptr;
}

-- `none` where the call is not allowed: a constructor runs on a variable in use, a flag gets the
-- address of one in use, or a factory is treated as a weak pointer or a weak pointer as a factory.
unfoldable pub abstract_weak_step : WeakCall → Weak → Option Weak
abstract_weak_step (makes_factory j p v) a =
    allowed (is_empty_at j a.flags && references p a.flags == 0) (record {
      flags = set j (some p) a.flags;
      alive = set_at j true a.alive;
      ptr = set_at j (some v) a.ptr;
    })
abstract_weak_step (destroys_factory j) a =
    allowed (ltb j (length a.flags) && a.alive j)
      (record a { flags = set j none a.flags; alive = set_at j false a.alive })
abstract_weak_step (gets i j) a =
    allowed (is_empty_at i a.flags && a.alive j) (same_as i j a.flags a)
abstract_weak_step (copies i r) a =
    allowed (is_empty_at i a.flags && is_weak r a) (same_as i r a.flags a)
abstract_weak_step (moves i r) a =
    allowed (is_empty_at i a.flags && is_weak r a)
      (record (same_as i r a.flags a) { flags = set r none (set i (pointer_at r a.flags) a.flags) })
abstract_weak_step (copy_assigns i r) a =
    allowed (is_weak i a && is_weak r a) (same_as i r a.flags a)
abstract_weak_step (move_assigns i r) a =
    allowed (is_weak i a && is_weak r a) (same_as i r (set r none a.flags) a)
abstract_weak_step (resets i) a = allowed (is_weak i a) (record a { flags = set i none a.flags })
abstract_weak_step (destroys i) a = allowed (is_weak i a) (record a { flags = set i none a.flags })

abbrev pub then_weak : (Weak → Option Weak) → Option Weak → Option Weak
then_weak f none = none
then_weak f (some a) = f a

unfoldable pub abstract_weak_run : List WeakCall → Weak → Option Weak
abstract_weak_run [] a = some a
abstract_weak_run (c ∷ cs) a = then_weak (abstract_weak_run cs) (abstract_weak_step c a)
