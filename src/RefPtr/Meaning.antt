-- ===== src/RefPtr/Meaning.antt =====
-- What a program means by its pointers alone.
use environment_check.Prelude.{ℕ, Option, none, some, List, [], ◌∷◌, ◌==◌, ◌&&◌, ltb, length}
use environment_check.RefPtr.{
  pointer_at, set, Call, makes, constructs, copies, moves, copy_assigns, move_assigns, swaps,
  destroys,
}
use environment_check.RefPtr.References.{references}
use environment_check.RefPtr.Allowed.{is_empty_at, given, then_steps}

-- The calls as assignments of plain pointers; `none` where the call is not allowed: a constructor
-- runs on a variable in use, a new object gets the address of one in use, or a plain pointer
-- refers to no object.
unfoldable pub abstract_step : Call → List (Option ℕ) → Option (List (Option ℕ))
abstract_step (makes i p) vs = given (is_empty_at i vs && references p vs == 0) (set i (some p) vs)
abstract_step (constructs i p) vs =
    given (is_empty_at i vs && ltb 0 (references p vs)) (set i (some p) vs)
abstract_step (copies i r) vs = given (is_empty_at i vs) (set i (pointer_at r vs) vs)
abstract_step (moves i r) vs =
    given (is_empty_at i vs && ltb r (length vs)) (set r none (set i (pointer_at r vs) vs))
abstract_step (copy_assigns i r) vs = given (ltb i (length vs)) (set i (pointer_at r vs) vs)
abstract_step (move_assigns i r) vs =
    given (ltb i (length vs) && ltb r (length vs)) (set i (pointer_at r vs) (set r none vs))
abstract_step (swaps i r) vs =
    given (ltb i (length vs) && ltb r (length vs))
      (set r (pointer_at i vs) (set i (pointer_at r vs) vs))
abstract_step (destroys i) vs = given (ltb i (length vs)) (set i none vs)

unfoldable pub abstract_run : List Call → List (Option ℕ) → Option (List (Option ℕ))
abstract_run [] vs = some vs
abstract_run (c ∷ cs) vs = then_steps (abstract_run cs) (abstract_step c vs)
