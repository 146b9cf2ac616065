-- ===== src/TaskQueues/Next.antt =====
-- `GetNextTaskToRun`: which task is taken, what is left, and which grade the thread gets.
use mathlib.Core.List.Perm
use mathlib.Core.Path.{subst}
use environment_check.Prelude.{
  ℕ, ◌≡◌, refl, ap, ◌∙◌, none, some, true, false, List, [], ◌∷◌, Perm, ◌==◌, ==_iff, contains,
  is_nil, ltb, Bool-cases, inl, inr, arith, if◌then◌else◌,
}
use environment_check.Outcome.{Outcome, returns, fails, undefined_behaviour}
use environment_check.DelayedTask.{TimePoint, DelayedTaskQueue, TaskSourceGrade}
use environment_check.TaskSource.{TaskSource, TopTask, eligible}
use environment_check.TaskQueues.Entries.{Entries, TaskQueueEntry, update, is_subsumed}
use environment_check.TaskQueues.State.{
  MessageLoopTaskQueues, get_next_task_to_run, pop_top, grade_after_pop, heap_of,
  get_current_task_source_grade,
}
use environment_check.TaskQueues.Consistent.{IsConsistent, offered}
use environment_check.TaskQueues.Links.{HasLinksOf, update-IsConsistent}
use environment_check.TaskQueues.Offered.{Shift, offered_own, offered_owned}
use environment_check.TaskQueues.Pending.{has_pending-offered}
use environment_check.TaskQueues.Peek.{IsNext, peek-IsNext, pending_checked, not_subsumed}
use environment_check.TaskQueues.Wakes.{woken, wake_call, wake_up-wakes, next_wake-wakes}

abbrev pub with_source : TaskQueueEntry → TaskSource → TaskQueueEntry
with_source e source = record e { task_source = source }

-- The queues after the task at the top of a source is taken by a thread.
abbrev pub taken :
    MessageLoopTaskQueues → ℕ → TopTask → TaskQueueEntry → TaskSource → MessageLoopTaskQueues
taken s thread t e source = record s {
  queue_entries = update s.queue_entries t.task_queue_id (some (with_source e source));
  tls_task_source_grade =
      update s.tls_task_source_grade thread (grade_after_pop t.task.task_source_grade source);
}

-- The grade of the front of a heap; there is none to read where the heap is empty.
abbrev pub front_grade : DelayedTaskQueue → Outcome TaskSourceGrade
front_grade [] = fails undefined_behaviour
front_grade (t ∷ ts) = returns t.task_source_grade

-- What `GetNextTaskToRun` does with a queue that offers a task.
abbrev pub Takes : MessageLoopTaskQueues → ℕ → TaskQueueEntry → ℕ → TimePoint → Type 0
Takes s q e thread from_time =
    (t : TopTask) × (next : IsNext s.queue_entries q e.owner_of t) × (let ws =
        wake_call e.wakeable t.task.target_time in
      let s' = taken s thread t next.top.entry next.top.source in
      (get_next_task_to_run thread q from_time s ≡ (
        if ltb from_time t.task.target_time
        then (returns none, woken s ws)
        else (returns t.task.task, woken s' ws)))
      × (get_current_task_source_grade thread (woken s' ws)
          ≡ (front_grade (heap_of t.task.task_source_grade next.top.source), woken s' ws))
      × Perm (t.task ∷ offered s'.queue_entries q) (offered s.queue_entries q)
      × IsConsistent s'.queue_entries)

module _ (s : MessageLoopTaskQueues) (v : IsConsistent s.queue_entries) (q : ℕ) (e : TaskQueueEntry)
    (h : s.queue_entries q ≡ some e) (thread : ℕ) where
  -- A queue that offers nothing gives no task, and nothing changes.
  pub next_nothing :
      (from_time : TimePoint)
      → is_nil (offered s.queue_entries q) ≡ true
      → get_next_task_to_run thread q from_time s ≡ (returns none, s)
  unfolding get_next_task_to_run
  next_nothing from_time n = rw (has_pending-offered q e v h, n)

  module _ (t : TopTask) (next : IsNext s.queue_entries q e.owner_of t)
      (free : is_subsumed e ≡ false) where
    top_links : HasLinksOf next.top.entry (with_source next.top.entry next.top.source)
    top_links = record { same_owned = refl; same_owner = refl }

    abbrev M : Entries
    M = (taken s thread t next.top.entry next.top.source).queue_entries

    pop-Shift :
        Shift (t.task ∷ []) [] (eligible next.top.source) (eligible next.top.entry.task_source)
    pop-Shift = Perm.symm next.top.gives.rest

    pub taken-offered : Perm (t.task ∷ offered M q) (offered s.queue_entries q)
    taken-offered = elim (Bool-cases (t.task_queue_id == q)) [
      | inl y ↦
          let t≡q = (==_iff t.task_queue_id q).0 y in
          let g≡e : next.top.entry ≡ e = cc (next.top.found, h, ap s.queue_entries t≡q) in
          let free' = ap is_subsumed g≡e ∙ free in
          subst (λ z. Perm (t.task ∷ offered M z) (offered s.queue_entries z)) t≡q
            (offered_own s.queue_entries t.task_queue_id next.top.entry
              (with_source next.top.entry next.top.source) next.top.found (t.task ∷ []) [] pop-Shift
              v top_links free')
      | inr n ↦
          let c : contains t.task_queue_id e.owner_of ≡ true = ground (arith, next.among) in
          offered_owned s.queue_entries t.task_queue_id next.top.entry
            (with_source next.top.entry next.top.source) next.top.found (t.task ∷ []) [] pop-Shift v
            top_links q e h free c
    ]

    pub taken-IsConsistent : IsConsistent M
    taken-IsConsistent =
        update-IsConsistent v t.task_queue_id next.top.entry
          (with_source next.top.entry next.top.source) next.top.found top_links next.top.gives.valid
          (next.top.gives.same_id ∙ (v.at t.task_queue_id next.top.entry next.top.found).source_id)

    taken-grade :
        (ws : List (ℕ × TimePoint))
        → let s' = woken (taken s thread t next.top.entry next.top.source) ws in
          get_current_task_source_grade thread s'
          ≡ (front_grade (heap_of t.task.task_source_grade next.top.source), s')
    unfolding get_current_task_source_grade grade_after_pop
    taken-grade ws = by_heap (heap_of t.task.task_source_grade next.top.source) refl
      where
        by_heap :
            (heap : DelayedTaskQueue)
            → heap_of t.task.task_source_grade next.top.source ≡ heap
            → let s' = woken (taken s thread t next.top.entry next.top.source) ws in
              get_current_task_source_grade thread s' ≡ (front_grade heap, s')
        by_heap [] h = rw ((==_iff thread thread).1 refl, h) refl
        by_heap (u ∷ us) h = rw ((==_iff thread thread).1 refl, h) refl

    pop_top_lem :
        (ws : List (ℕ × TimePoint))
        → pop_top thread t (woken s ws)
          ≡ (returns t.task.task, woken (taken s thread t next.top.entry next.top.source) ws)
    unfolding pop_top
    pop_top_lem ws = rw (next.top.found, next.top.gives.popped)

  -- `GetNextTaskToRun` for a queue that offers a task: it re-arms the queue's wake-up for the time of
  -- a task that no task on offer is due before. If that time lies after `from_time` no task is
  -- given and no queue changes. Else that task's closure is given, exactly that task is gone from
  -- what the queue offers, and the links stay consistent. Then
  -- `GetCurrentTaskSourceGrade` on the thread returns the grade of the task that stands at the front
  -- of the popped heap next, and is undefined behaviour if that heap has no task left.
  pub next_something :
      (from_time : TimePoint)
      → is_nil (offered s.queue_entries q) ≡ false
      → Takes s q e thread from_time
  unfolding get_next_task_to_run
  next_something from_time n =
      let (t, p, next) = peek-IsNext q e v h n in
      let free = not_subsumed s.queue_entries q e h n in
      (
        t,
        next,
        (
          rw
              (
                pending_checked q e v h n,
                p,
                pending_checked q e v h n,
                next_wake-wakes s q e h v t p,
                wake_up-wakes s q e h t.task.target_time,
              )
              (elim (Bool-cases (ltb from_time t.task.target_time)) [
                | inl l ↦ rw l
                | inr l ↦ rw l (pop_top_lem t next free (wake_call e.wakeable t.task.target_time))
              ]),
          taken-grade t next free (wake_call e.wakeable t.task.target_time),
          taken-offered t next free,
          taken-IsConsistent t next free,
        ),
      )
