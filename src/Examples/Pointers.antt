-- ===== src/Examples/Pointers.antt =====
-- Reference-counted objects and the variables that point to them.
use environment_check.Prelude.{
  if◌then◌else◌, ℕ, ◌≡◌, refl, Option, none, some, List, [], ◌∷◌, arith,
}
use environment_check.Outcome.{returns, fails, undefined_behaviour}
use environment_check.RefPtr.{
  pointer_at, set, Call, makes, constructs, copies, copy_assigns, move_assigns, swaps, destroys,
  run,
}
use environment_check.RefPtr.References.{references}
use environment_check.RefPtr.Meaning.{abstract_step, abstract_run}
use environment_check.RefPtr.Refinement.{store_of}
use environment_check.SharedPtr
use environment_check.SharedPtr.Refinement.{is_held_beside}
use environment_check.SharedPtr.Run.{
  meaning_step, meaning_run, run-meaning_run, copy_assign-is_held_beside,
}
use environment_check.RefPtr.Run.{run-abstract_run}

abbrev no_pointers : List (Option ℕ)
no_pointers = none ∷ none ∷ none ∷ []

-- Every kind of call, with an assignment of a variable to itself.
abbrev program : List Call
program =
    makes 0 7
    ∷ copies 1 0
    ∷ destroys 0
    ∷ constructs 0 7
    ∷ move_assigns 2 1
    ∷ copy_assigns 2 2
    ∷ makes 1 8
    ∷ swaps 0 1
    ∷ copy_assigns 0 2
    ∷ []

abbrev left : List (Option ℕ)
left = some 7 ∷ some 7 ∷ some 7 ∷ []

left_lem : abstract_run program no_pointers ≡ some left
unfolding abstract_run abstract_step set pointer_at references
left_lem = refl

run-abstract_run_example : run program (store_of no_pointers) ≡ (returns tt, store_of left)
run-abstract_run_example = run-abstract_run program no_pointers (omega arith) left_lem

left_at_two : pointer_at 2 left ≡ some 7
unfolding pointer_at
left_at_two = refl

abbrev shared_program : List SharedPtr.Call
shared_program =
    SharedPtr.wraps 0 7
    ∷ SharedPtr.copies 1 0
    ∷ SharedPtr.moves 2 0
    ∷ SharedPtr.copy_assigns 0 1
    ∷ SharedPtr.move_assigns 1 2
    ∷ SharedPtr.resets 0
    ∷ []

shared_left : meaning_run shared_program no_pointers ≡ some (none ∷ some 7 ∷ none ∷ [])
unfolding meaning_run meaning_step set pointer_at references
shared_left = refl

run-meaning_run_example :
    SharedPtr.run shared_program (SharedPtr.Refinement.store_of no_pointers)
    ≡ (returns tt, SharedPtr.Refinement.store_of (none ∷ some 7 ∷ none ∷ []))
run-meaning_run_example = run-meaning_run shared_program no_pointers (omega arith) shared_left

-- An assignment of the only pointer to itself.
copy_assign-is_held_beside_example :
    (SharedPtr.copy_assign 0 0 (SharedPtr.Refinement.store_of (some 7 ∷ []))).0 ≡ (
      if is_held_beside 0 (pointer_at 0 (some 7 ∷ [])) (some 7 ∷ [])
      then returns tt
      else fails undefined_behaviour)
copy_assign-is_held_beside_example =
    copy_assign-is_held_beside (some 7 ∷ []) 0 0 (omega arith) (omega arith)
