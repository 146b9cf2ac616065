-- ===== src/TaskSource/Top.antt =====
-- `TaskSource::Top` and `PopTask`: the task that a source gives next.
use mathlib.Core.List.Perm
use mathlib.Core.List.{perm_middle, append-nil}
use environment_check.Prelude.{
  ℕ, zero, suc, ◌≡◌, refl, true, false, List, [], ◌∷◌, ◌++◌, Perm, All, All-append, All-imp, arith,
  ◌==◌, sym, ◌∙◌, is_nil, Bool-cases, inl, inr,
}
use environment_check.Outcome.{returns, fails, check_failed}
use environment_check.DelayedTask.{
  DelayedTask, TaskSourceGrade, user_interaction, dart_micro_tasks, unspecified, ◌>◌,
}
use environment_check.DelayedTask.Order.{
  not_greater_trans, not_greater_of_greater, not_greater_refl,
}
use environment_check.DelayedTask.Heap.{IsHeap, Before}
use environment_check.TaskSource.{
  TaskSource, pop_task, pop_primary, pop_secondary, choose, top, is_empty, eligible,
}
use environment_check.TaskSource.Contents.{IsValid, is_primary, is_empty-is_nil}

-- `t` is the task that the source gives next, and `s'` is the source once it is popped.
pub record Gives (s : TaskSource) (t : DelayedTask) (s' : TaskSource) : Type 0 where
  pub at_top : top s ≡ returns (record { task_queue_id = s.task_queue_id; task = t })
  pub popped : pop_task t.task_source_grade s ≡ returns s'
  pub earliest : All (Before t) (eligible s)
  pub rest : Perm (eligible s) (t ∷ eligible s')
  pub valid : IsValid s'
  pub same_id : s'.task_queue_id ≡ s.task_queue_id
  pub same_pauses : s'.secondary_pause_requests ≡ s.secondary_pause_requests

pop_task-primary :
    (g : TaskSourceGrade) (s : TaskSource) → is_primary g ≡ true → pop_task g s ≡ pop_primary s
unfolding pop_task
pop_task-primary user_interaction s e = refl
pop_task-primary unspecified s e = refl
pop_task-primary dart_micro_tasks s e = cc

pop_task-secondary :
    (g : TaskSourceGrade) (s : TaskSource) → is_primary g ≡ false → pop_task g s ≡ pop_secondary s
unfolding pop_task
pop_task-secondary dart_micro_tasks s e = refl
pop_task-secondary user_interaction s e = cc
pop_task-secondary unspecified s e = cc

abbrev source : ℕ → List DelayedTask → List DelayedTask → ℕ → TaskSource
source id ps qs n = record {
  task_queue_id = id;
  primary_task_queue = ps;
  secondary_task_queue = qs;
  secondary_pause_requests = n;
}

top-choose :
    (s : TaskSource) (t : DelayedTask)
    → is_empty s ≡ false
    → choose s ≡ returns t
    → top s ≡ returns (record { task_queue_id = s.task_queue_id; task = t })
unfolding top
top-choose s t e c = rw (e, c)

take_primary :
    (id n : ℕ) (t : DelayedTask) (ps qs : List DelayedTask)
    → IsValid (source id (t ∷ ps) qs n)
    → choose (source id (t ∷ ps) qs n) ≡ returns t
    → All (Before t) (eligible (source id (t ∷ ps) qs n))
    → Gives (source id (t ∷ ps) qs n) t (source id ps qs n)
unfolding eligible pop_primary
take_primary id n t ps qs v c b = record {
  at_top = top-choose _ t (unfold is_empty in ground arith) c;
  popped = pop_task-primary _ _ v.primary_grades.0;
  earliest = b;
  rest = elim (Bool-cases (n == 0)) [ inl e ↦ rw e (Perm.refl _) | inr e ↦ rw e (Perm.refl _) ];
  valid = record {
    primary_heap = v.primary_heap.1;
    secondary_heap = v.secondary_heap;
    primary_grades = v.primary_grades.1;
    secondary_grades = v.secondary_grades;
  };
  same_id = refl;
  same_pauses = refl;
}

take_secondary :
    (id : ℕ) (t : DelayedTask) (ps qs : List DelayedTask)
    → IsValid (source id ps (t ∷ qs) 0)
    → choose (source id ps (t ∷ qs) 0) ≡ returns t
    → All (Before t) (ps ++ t ∷ qs)
    → Gives (source id ps (t ∷ qs) 0) t (source id ps qs 0)
unfolding eligible pop_secondary
take_secondary id t ps qs v c b = record {
  at_top = top-choose _ t (unfold is_empty in ground arith) c;
  popped = pop_task-secondary _ _ v.secondary_grades.0;
  earliest = b;
  rest = perm_middle ps qs;
  valid = record {
    primary_heap = v.primary_heap;
    secondary_heap = v.secondary_heap.1;
    primary_grades = v.primary_grades;
    secondary_grades = v.secondary_grades.1;
  };
  same_id = refl;
  same_pauses = refl;
}

abbrev Next : TaskSource → Type 0
Next s = (t : DelayedTask) × (s' : TaskSource) × Gives s t s'

-- What stands behind the head of a heap, and the head itself.
heap_earliest :
    (t : DelayedTask) (xs : List DelayedTask) → IsHeap (t ∷ xs) → All (Before t) (t ∷ xs)
heap_earliest t xs h = (not_greater_refl t, h.0)

-- The earlier of two heads comes before the whole of the other heap.
heap_later :
    (t u : DelayedTask) (xs : List DelayedTask)
    → Before t u
    → IsHeap (u ∷ xs)
    → All (Before t) (u ∷ xs)
heap_later t u xs b h = (b, All-imp (Before u) (λ x. not_greater_trans t u x b) xs h.0)

running :
    (id : ℕ) (ps qs : List DelayedTask)
    → IsValid (source id ps qs 0)
    → is_nil (ps ++ qs) ≡ false
    → Next (source id ps qs 0)
unfolding choose eligible
running id [] [] v e = cc
running id (p ∷ ps) [] v e =
    (p, _, take_primary id 0 p ps [] v refl (rw append-nil (heap_earliest p ps v.primary_heap)))
running id [] (q ∷ qs) v e =
    (q, _, take_secondary id q [] qs v refl (heap_earliest q qs v.secondary_heap))
running id (p ∷ ps) (q ∷ qs) v e = elim (Bool-cases (p > q)) [
  | inl g ↦ (
    q,
    _,
    take_secondary id q (p ∷ ps) qs v (rw g) (
        All-append (Before q) (p ∷ ps) (q ∷ qs)
          (heap_later q p ps (not_greater_of_greater p q g) v.primary_heap)
          (heap_earliest q qs v.secondary_heap)),
  )
  | inr g ↦ (
    p,
    _,
    take_primary id 0 p ps (q ∷ qs) v (rw g) (
        All-append (Before p) (p ∷ ps) (q ∷ qs) (heap_earliest p ps v.primary_heap)
          (heap_later p q qs g v.secondary_heap)),
  )
]

paused :
    (id n : ℕ) (ps qs : List DelayedTask)
    → IsValid (source id ps qs (suc n))
    → is_nil ps ≡ false
    → Next (source id ps qs (suc n))
unfolding choose eligible
paused id n [] qs v e = cc
paused id n (p ∷ ps) qs v e = (
  p,
  _,
  take_primary id (suc n) p ps qs v (ground arith)
      (rw (suc-ne-zero n) (heap_earliest p ps v.primary_heap)),
)
  where
    suc-ne-zero : (n : ℕ) → (suc n == 0) ≡ false
    suc-ne-zero n = ground arith

by_pauses :
    (id n : ℕ) (ps qs : List DelayedTask)
    → IsValid (source id ps qs n)
    → is_nil (eligible (source id ps qs n)) ≡ false
    → Next (source id ps qs n)
unfolding eligible
by_pauses id zero ps qs v e = running id ps qs v e
by_pauses id (suc n) ps qs v e = paused id n ps qs v (ground arith)

-- A source that is well formed and not empty passes the check of `Top` and gives a task. No task on
-- offer is due before it; `PopTask` with its grade takes exactly it away, and leaves a well-formed
-- source with the same id and pause requests.
pub top-Gives :
    (s : TaskSource)
    → IsValid s
    → is_empty s ≡ false
    → (t : DelayedTask) × (s' : TaskSource) × Gives s t s'
top-Gives s v e =
    by_pauses s.task_queue_id s.secondary_pause_requests s.primary_task_queue s.secondary_task_queue
      v (sym (is_empty-is_nil s) ∙ e)

-- On an empty source `Top` fails its check.
pub top_empty : (s : TaskSource) → is_empty s ≡ true → top s ≡ fails check_failed
unfolding top
top_empty s e = rw e
