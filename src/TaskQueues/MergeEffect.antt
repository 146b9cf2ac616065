-- ===== src/TaskQueues/MergeEffect.antt =====
-- The tasks of a set of queues: they turn on the sources alone, and a new member brings its own.
use mathlib.Core.List.Perm
use mathlib.Core.List.{append_assoc, perm_append_comm}
use environment_check.Prelude.{
  ℕ, ◌≡◌, refl, ap, ◌∙◌, Option, none, some, false, List, [], ◌∷◌, ◌++◌, Perm, ◌==◌, ==_iff,
  contains, ltb, Bool-cases, inl, inr, arith,
}
use environment_check.DelayedTask.{DelayedTask}
use environment_check.TaskSource.{eligible}
use environment_check.TaskQueues.Entries.{Entries, TaskQueueEntry, update, insert}
use environment_check.TaskQueues.Consistent.{offered_by}

abbrev pub at_entry : Entries → List DelayedTask → Option TaskQueueEntry → List DelayedTask
at_entry m rest none = rest
at_entry m rest (some e) = eligible e.task_source ++ rest

pub offered_by_step :
    (m : Entries) (x : ℕ) (xs : List ℕ) → offered_by m (x ∷ xs) ≡ at_entry m (offered_by m xs) (m x)
unfolding offered_by
offered_by_step m x xs = ground arith

-- Only the sources count.
abbrev pub SameSources : Entries → Entries → Type 0
SameSources m n = (x : ℕ) (rest : List DelayedTask) → at_entry m rest (m x) ≡ at_entry n rest (n x)

pub offered_by-SameSources :
    (m n : Entries) (xs : List ℕ) → SameSources m n → offered_by m xs ≡ offered_by n xs
offered_by-SameSources m n [] same = unfold offered_by in refl
offered_by-SameSources m n (x ∷ xs) same =
    rw (offered_by_step m x xs, offered_by_step n x xs, offered_by-SameSources m n xs same)
      (same x (offered_by n xs))

pub update-SameSources :
    (m : Entries) (q : ℕ) (e f : TaskQueueEntry)
    → m q ≡ some e
    → f.task_source ≡ e.task_source
    → SameSources (update m q (some f)) m
update-SameSources m q e f h same x rest = elim (Bool-cases (x == q)) [
  | inl y ↦ let x≡q = (==_iff x q).0 y in rw (y, ap m x≡q ∙ h) (ap (λ s. eligible s ++ rest) same)
  | inr n ↦ rw n
]

-- A new member of the set brings the tasks of its source.
pub offered_by-insert :
    (m : Entries) (a : ℕ) (xs : List ℕ)
    → contains a xs ≡ false
    → Perm (offered_by m (insert a xs)) (offered_by m (a ∷ xs))
unfolding insert
offered_by-insert m a [] c = Perm.refl _
offered_by-insert m a (x ∷ xs) c = elim (Bool-cases (ltb a x)) [
  | inl l ↦ rw l (Perm.refl _)
  | inr l ↦
      let n : (a == x) ≡ false = ground arith in
      let c' : contains a xs ≡ false = ground arith in
      rw
        (
          l,
          n,
          offered_by_step m x (insert a xs),
          offered_by_step m a (x ∷ xs),
          offered_by_step m x xs,
        )
        (Perm.trans (under (m x) _ _ (offered_by-insert m a xs c'))
          (rw (offered_by_step m a xs) (swap_entries (m x) (m a) (offered_by m xs))))
]
  where
    under :
        (o : Option TaskQueueEntry) (xs ys : List DelayedTask)
        → Perm xs ys
        → Perm (at_entry m xs o) (at_entry m ys o)
    under none xs ys p = p
    under (some e) xs ys p = Perm.append_left _ p

    swap_entries :
        (o p : Option TaskQueueEntry) (xs : List DelayedTask)
        → Perm (at_entry m (at_entry m xs p) o) (at_entry m (at_entry m xs o) p)
    swap_entries none p xs = Perm.refl _
    swap_entries (some e) none xs = Perm.refl _
    swap_entries (some e) (some f) xs =
        rw
          (
            ← append_assoc (eligible e.task_source) (eligible f.task_source) xs,
            ← append_assoc (eligible f.task_source) (eligible e.task_source) xs,
          )
          (Perm.append_right xs
            (perm_append_comm (eligible e.task_source) (eligible f.task_source)))
