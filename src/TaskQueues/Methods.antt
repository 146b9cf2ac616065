-- ===== src/TaskQueues/Methods.antt =====
-- Each method that changes the queues keeps their invariant, however it ends.
use environment_check.Prelude.{ℕ, ◌≡◌, none, is_nil, Bool-cases, Option-cases, inl, inr, arith, ltb}
use environment_check.Outcome.{fails, out_of_range}
use environment_check.DelayedTask.{Closure, TimePoint, TaskSourceGrade}
use environment_check.TaskSource.{register}
use environment_check.TaskSource.Contents.{register-IsValid, task_queue_id-register}
use environment_check.TaskQueues.Entries.{is_subsumed}
use environment_check.TaskQueues.State.{
  MessageLoopTaskQueues, dispose, register_task, get_next_task_to_run,
}
use environment_check.TaskQueues.Reads.{has_pending_tasks_unlocked}
use environment_check.TaskQueues.Consistent.{offered}
use environment_check.TaskQueues.Disposed.{disposed_lem, disposed-IsConsistent, erase_all_lem}
use environment_check.TaskQueues.Register.{new_task, register_task-offered, register_task-missing}
use environment_check.TaskQueues.Next.{next_nothing, next_something}
use environment_check.TaskQueues.Invariant.{Inv, source-Inv, touch-Inv, by_outcome}

module _ {k : ℕ} {s : MessageLoopTaskQueues} (v : Inv k s) (q : ℕ) where
  pub register_task-Inv :
      (task : Closure) (target_time : TimePoint) (grade : TaskSourceGrade)
      → Inv k (register_task q task target_time grade s).1
  register_task-Inv task target_time grade = elim (Option-cases (s.queue_entries q)) [
    | inl n ↦
        by_outcome _ _ (register_task-missing s q task target_time grade n)
          (touch-Inv _ s.tls_task_source_grade s.wakes v)
    | inr (e, h) ↦
        let t = new_task s task target_time grade in
        let (f, ws, eq, _, _, _, _) =
          register_task-offered s q e task target_time grade v.consistent h in
        by_outcome _ _ eq (
          touch-Inv _ _ _ (
            source-Inv v q e (register t e.task_source) h
              (register-IsValid t e.task_source (v.consistent.at q e h).source)
              (task_queue_id-register t e.task_source)))
  ]

  pub get_next_task_to_run-Inv :
      (thread : ℕ) (from_time : TimePoint) → Inv k (get_next_task_to_run thread q from_time s).1
  get_next_task_to_run-Inv thread from_time = elim (Option-cases (s.queue_entries q)) [
    | inl n ↦ by_outcome _ s (missing n) v
    | inr (e, h) ↦ elim (Bool-cases (is_nil (offered s.queue_entries q))) [
      | inl n ↦ by_outcome _ _ (next_nothing s v.consistent q e h thread from_time n) v
      | inr n ↦
          let (t, next, (eq, _, _, c)) = next_something s v.consistent q e h thread from_time n in
          let g = next.top.gives in
          let popped =
            source-Inv v t.task_queue_id next.top.entry next.top.source next.top.found g.valid
              g.same_id in
          elim (Bool-cases (ltb from_time t.task.target_time)) [
            | inl l ↦ by_outcome _ _ (rw l at eq) (touch-Inv s.order s.tls_task_source_grade _ v)
            | inr l ↦ by_outcome _ _ (rw l at eq) (touch-Inv s.order _ _ popped)
          ]
    ]
  ]
    where
      missing :
          s.queue_entries q ≡ none
          → get_next_task_to_run thread q from_time s ≡ (fails out_of_range, s)
      missing n = unfold get_next_task_to_run has_pending_tasks_unlocked in rw n

  pub dispose-Inv : Inv k (dispose q s).1
  unfolding dispose
  dispose-Inv = elim (Option-cases (s.queue_entries q)) [
    | inl n ↦ rw n v
    | inr (e, h) ↦ elim (Bool-cases (is_subsumed e)) [
      | inl u ↦ rw (h, u) v
      | inr u ↦
          rw (h, u, erase_all_lem e.owner_of s)
            (record {
              consistent = disposed-IsConsistent v.consistent q e h u;
              below = λ p g hg. v.below p g (ground (arith, disposed_lem s.queue_entries q e p));
              created = v.created;
              fits = v.fits;
            })
    ]
  ]
