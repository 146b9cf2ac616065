-- ===== src/TaskSource/Contents.antt =====
-- What a task source holds: its well-formedness, and the tasks that its operations add and remove.
use mathlib.Core.List.Perm
use mathlib.Core.List.{perm_middle}
use environment_check.Prelude.{
  ℕ, zero, suc, ◌≡◌, refl, Bool, true, false, List, [], ◌∷◌, Perm, All, length, length-append,
  arith, ◌==◌, ◌||◌, sym, is_nil, if◌then◌else◌, Bool-cases, ◌⊎◌, inl, inr,
}
use environment_check.Outcome.{returns, fails, check_failed}
use environment_check.DelayedTask.{
  DelayedTask, TaskSourceGrade, user_interaction, dart_micro_tasks, unspecified, push,
}
use environment_check.DelayedTask.Heap.{IsHeap, All-push, push-IsHeap, push-perm}
use environment_check.TaskSource.{
  TaskSource, new_source, shut_down, push_by, register, get_num_pending_tasks, is_empty,
  pause_secondary, resume_secondary, eligible,
}

-- Whether the switches of `RegisterTask` and `PopTask` send a grade to the primary heap.
abbrev pub is_primary : TaskSourceGrade → Bool
is_primary user_interaction = true
is_primary dart_micro_tasks = false
is_primary unspecified = true

abbrev pub HasHeap : Bool → DelayedTask → Type 0
HasHeap b t = is_primary t.task_source_grade ≡ b

-- Both heaps are in order, and each task stands in the heap of its grade.
pub record IsValid (s : TaskSource) : Type 0 where
  pub primary_heap : IsHeap s.primary_task_queue
  pub secondary_heap : IsHeap s.secondary_task_queue
  pub primary_grades : All (HasHeap true) s.primary_task_queue
  pub secondary_grades : All (HasHeap false) s.secondary_task_queue

pub new_source-IsValid : (id : ℕ) → IsValid (new_source id)
new_source-IsValid id = record {
  primary_heap = tt;
  secondary_heap = tt;
  primary_grades = tt;
  secondary_grades = tt;
}

pub shut_down-IsValid : {s : TaskSource} → IsValid s → IsValid (shut_down s)
unfolding shut_down
shut_down-IsValid v = record {
  primary_heap = tt;
  secondary_heap = tt;
  primary_grades = tt;
  secondary_grades = tt;
}

push_primary-IsValid :
    (t : DelayedTask) (s : TaskSource)
    → HasHeap true t
    → IsValid s
    → IsValid (record s { primary_task_queue = push t s.primary_task_queue })
push_primary-IsValid t s g v = record {
  primary_heap = push-IsHeap t _ v.primary_heap;
  secondary_heap = v.secondary_heap;
  primary_grades = All-push (HasHeap true) t _ g v.primary_grades;
  secondary_grades = v.secondary_grades;
}

push_by-IsValid :
    (g : TaskSourceGrade) (t : DelayedTask) (s : TaskSource)
    → HasHeap (is_primary g) t
    → IsValid s
    → IsValid (push_by g t s)
unfolding push_by
push_by-IsValid user_interaction t s e v = push_primary-IsValid t s e v
push_by-IsValid unspecified t s e v = push_primary-IsValid t s e v
push_by-IsValid dart_micro_tasks t s e v = record {
  primary_heap = v.primary_heap;
  secondary_heap = push-IsHeap t _ v.secondary_heap;
  primary_grades = v.primary_grades;
  secondary_grades = All-push (HasHeap false) t _ e v.secondary_grades;
}

pub register-IsValid : (t : DelayedTask) (s : TaskSource) → IsValid s → IsValid (register t s)
unfolding register
register-IsValid t s v = push_by-IsValid t.task_source_grade t s refl v

-- Whether the source offers what is in the heap of a grade.
abbrev pub offers : TaskSource → TaskSourceGrade → Bool
offers s g = is_primary g || s.secondary_pause_requests == 0

push_by-eligible :
    (g : TaskSourceGrade) (t : DelayedTask) (s : TaskSource)
    → Perm (eligible (push_by g t s)) (if offers s g then t ∷ eligible s else eligible s)
unfolding push_by eligible
push_by-eligible user_interaction t s = elim (Bool-cases (s.secondary_pause_requests == 0)) [
  | inl e ↦ rw e (Perm.append_right _ (push-perm t s.primary_task_queue))
  | inr e ↦ rw e (push-perm t s.primary_task_queue)
]
push_by-eligible unspecified t s = elim (Bool-cases (s.secondary_pause_requests == 0)) [
  | inl e ↦ rw e (Perm.append_right _ (push-perm t s.primary_task_queue))
  | inr e ↦ rw e (push-perm t s.primary_task_queue)
]
push_by-eligible dart_micro_tasks t s = elim (Bool-cases (s.secondary_pause_requests == 0)) [
  | inl e ↦
      rw e (Perm.trans (Perm.append_left _ (push-perm t s.secondary_task_queue)) (perm_middle _ _))
  | inr e ↦ rw e (Perm.refl _)
]

-- A registered task joins the tasks on offer exactly if its heap is on offer, and no other does.
pub register-eligible :
    (t : DelayedTask) (s : TaskSource)
    → Perm
        (eligible (register t s))
        (if offers s t.task_source_grade then t ∷ eligible s else eligible s)
unfolding register
register-eligible t s = push_by-eligible t.task_source_grade t s

pub get_num_pending_tasks-length : (s : TaskSource) → get_num_pending_tasks s ≡ length (eligible s)
unfolding get_num_pending_tasks eligible
get_num_pending_tasks-length s = elim (Bool-cases (s.secondary_pause_requests == 0)) [
  | inl e ↦ rw e (sym (length-append s.primary_task_queue s.secondary_task_queue))
  | inr e ↦ rw e
]

pub is_empty-is_nil : (s : TaskSource) → is_empty s ≡ is_nil (eligible s)
unfolding is_empty
is_empty-is_nil s = zero_length (eligible s) _ (get_num_pending_tasks-length s)
  where
    zero_length : (xs : List DelayedTask) (n : ℕ) → n ≡ length xs → (n == 0) ≡ is_nil xs
    zero_length [] n e = rw e
    zero_length (x ∷ xs) n e = rw e (ground arith)

task_queue_id-push_by :
    (g : TaskSourceGrade) (t : DelayedTask) (s : TaskSource)
    → (push_by g t s).task_queue_id ≡ s.task_queue_id
unfolding push_by
task_queue_id-push_by user_interaction t s = refl
task_queue_id-push_by _ t s = refl

pub task_queue_id-register :
    (t : DelayedTask) (s : TaskSource) → (register t s).task_queue_id ≡ s.task_queue_id
unfolding register
task_queue_id-register t s = task_queue_id-push_by t.task_source_grade t s

pub pause_secondary-IsValid : {s : TaskSource} → IsValid s → IsValid (pause_secondary s)
unfolding pause_secondary
pause_secondary-IsValid v = record {
  primary_heap = v.primary_heap;
  secondary_heap = v.secondary_heap;
  primary_grades = v.primary_grades;
  secondary_grades = v.secondary_grades;
}

-- `ResumeSecondary` fails its check on a source that is not paused, and else takes one request back.
pub resume_secondary-cases :
    (s : TaskSource)
    → ((s.secondary_pause_requests ≡ 0) × (resume_secondary s ≡ fails check_failed))
      ⊎ ((n : ℕ) × (s.secondary_pause_requests ≡ suc n)
          × (resume_secondary s ≡ returns (record s { secondary_pause_requests = n })))
unfolding resume_secondary
resume_secondary-cases s = by_requests s.secondary_pause_requests refl
  where
    by_requests :
        (n : ℕ)
        → s.secondary_pause_requests ≡ n
        → ((s.secondary_pause_requests ≡ 0) × (resume_secondary s ≡ fails check_failed))
          ⊎ ((n : ℕ) × (s.secondary_pause_requests ≡ suc n)
              × (resume_secondary s ≡ returns (record s { secondary_pause_requests = n })))
    by_requests zero e = inl (e, rw (e, resume_secondary))
    by_requests (suc n) e = inr (n, e, rw (e, resume_secondary))
