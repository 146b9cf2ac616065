-- ===== src/Examples/WeakPointers.antt =====
-- A factory, two weak pointers, and the end of the factory.
use environment_check.Prelude.{◌≡◌, refl, some, none, false, true, List, [], ◌∷◌, set_at, arith}
use environment_check.Outcome.{returns}
use environment_check.RefPtr.{pointer_at, set}
use environment_check.RefPtr.References.{references}
use environment_check.WeakPtr.{
  WeakPtrs, WeakCall, makes_factory, destroys_factory, gets, copies, weak_run,
}
use environment_check.WeakPtr.Meaning.{Weak, abstract_weak_run, abstract_weak_step}
use environment_check.WeakPtr.Steps.{code_of}
use environment_check.WeakPtr.Run.{Answers, blanks, blank, weak_run-Answers}

abbrev made_and_gone : List WeakCall
made_and_gone = makes_factory 0 70 900 ∷ gets 1 0 ∷ copies 2 1 ∷ destroys_factory 0 ∷ []

abbrev left : Weak
left = record {
  flags = none ∷ some 70 ∷ some 70 ∷ [];
  alive = set_at 0 false (set_at 0 true (λ _. false));
  ptr = set_at 2 (some 900) (set_at 1 (some 900) (set_at 0 (some 900) (λ _. none)));
}

allowed : abstract_weak_run made_and_gone (blank 3) ≡ some left
unfolding abstract_weak_run abstract_weak_step pointer_at set references
allowed = refl

weak_run-Answers_example :
    (s : WeakPtrs) × (weak_run made_and_gone (code_of (blanks 3) (λ _. false) (λ _. none))
      ≡ (returns tt, s))
    × Answers left 2 s
weak_run-Answers_example = weak_run-Answers made_and_gone 3 2 (omega arith) allowed
