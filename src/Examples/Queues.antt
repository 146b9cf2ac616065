-- ===== src/Examples/Queues.antt =====
-- Two queues with a task each, before and after the first subsumes the second.
use environment_check.Prelude.{
  ℕ, ◌-◌, ◌^◌, ◌≡◌, refl, some, true, false, List, [], ◌∷◌, ◌++◌, not, is_nil, length, arith, map,
}
use environment_check.Outcome.{returns}
use environment_check.DelayedTask.{
  DelayedTask, user_interaction, dart_micro_tasks, unspecified, push, ◌>◌,
}
use environment_check.TaskSource.{register, new_source, eligible, is_empty, top}
use environment_check.TaskQueues.Entries.{TaskQueueEntry, new_entry, insert}
use environment_check.TaskQueues.State.{
  MessageLoopTaskQueues, new_queues, create_task_queue, register_task, wake_if_pending,
  wake_up_unlocked, wake, make_task, next_order, set_wakeable,
}
use environment_check.TaskQueues.Reads.{
  has_pending_tasks_unlocked, any_pending, get_num_pending_tasks, peek_next_task_unlocked,
  get_next_wake_time_unlocked, top_task_updater, update_with, best_of, value,
}
use environment_check.TaskQueues.Merging.{merge, set_merged, unmerge}
use environment_check.TaskQueues.Consistent.{offered, offered_by}
use environment_check.TaskQueues.Invariant.{Inv}
use environment_check.TaskQueues.Run.{
  Call, creates, registers, merges, sets_wakeable, disposes, run, run-Inv,
}
use environment_check.TaskQueues.Pending.{pending_agrees}
use environment_check.TaskQueues.Register.{Registers, register_task-offered}
use environment_check.TaskQueues.Next.{Takes, next_something}
use environment_check.TaskQueues.MergeOutcome.{Merges, merge_outcome}
use environment_check.TaskQueues.UnmergeOutcome.{Unmerges, unmerge_outcome}
use environment_check.TaskQueues.Roundtrip.{unmerge-merge}
use environment_check.TaskQueues.Disposed.{Disposes, dispose_outcome}
use environment_check.TaskQueues.Fifo.{make_each, IsAscending, later_is_greater}

abbrev opening : List Call
opening =
    creates
    ∷ creates
    ∷ sets_wakeable 0 (some 100)
    ∷ registers 0 (some 10) 9 unspecified
    ∷ registers 1 (some 11) 5 unspecified
    ∷ []

abbrev apart : MessageLoopTaskQueues
apart = run (new_queues 7) opening

abbrev pub entry_0 : TaskQueueEntry
entry_0 = record (new_entry 0) {
  wakeable = some 100;
  task_source =
      register
        (record { order = 0; task = some 10; target_time = 9; task_source_grade = unspecified })
        (new_source 0);
}

abbrev entry_1 : TaskQueueEntry
entry_1 = record (new_entry 1) {
  task_source =
      register
        (record { order = 1; task = some 11; target_time = 5; task_source_grade = unspecified })
        (new_source 1);
}

apart-Inv : Inv 2 apart
apart-Inv = run-Inv 7 opening (omega arith)

apart_0 : apart.queue_entries 0 ≡ some entry_0
unfolding run set_wakeable merge set_merged create_task_queue register_task make_task next_order
    wake_if_pending has_pending_tasks_unlocked any_pending is_empty register
    get_next_wake_time_unlocked peek_next_task_unlocked top_task_updater update_with best_of value
    push top wake_up_unlocked wake insert ◌>◌
apart_0 = refl

apart_1 : apart.queue_entries 1 ≡ some entry_1
unfolding run set_wakeable merge set_merged create_task_queue register_task make_task next_order
    wake_if_pending has_pending_tasks_unlocked any_pending is_empty register
    get_next_wake_time_unlocked peek_next_task_unlocked top_task_updater update_with best_of value
    push top wake_up_unlocked wake insert ◌>◌
apart_1 = refl

-- The first queue subsumes the second.
abbrev pub history : List Call
history =
    creates
    ∷ creates
    ∷ sets_wakeable 0 (some 100)
    ∷ registers 0 (some 10) 9 unspecified
    ∷ registers 1 (some 11) 5 unspecified
    ∷ merges 0 1
    ∷ []

abbrev pub together : MessageLoopTaskQueues
together = run (new_queues 7) history

abbrev pub owner_0 : TaskQueueEntry
owner_0 = record entry_0 { owner_of = 1 ∷ [] }

abbrev subsumed_1 : TaskQueueEntry
subsumed_1 = record entry_1 { subsumed_by = 0 }

pub together-Inv : Inv 2 together
together-Inv = run-Inv 7 history (omega arith)

pub together_0 : together.queue_entries 0 ≡ some owner_0
unfolding run set_wakeable merge set_merged create_task_queue register_task make_task next_order
    wake_if_pending has_pending_tasks_unlocked any_pending is_empty register
    get_next_wake_time_unlocked peek_next_task_unlocked top_task_updater update_with best_of value
    push top wake_up_unlocked wake insert ◌>◌
together_0 = refl

together_1 : together.queue_entries 1 ≡ some subsumed_1
unfolding run set_wakeable merge set_merged create_task_queue register_task make_task next_order
    wake_if_pending has_pending_tasks_unlocked any_pending is_empty register
    get_next_wake_time_unlocked peek_next_task_unlocked top_task_updater update_with best_of value
    push top wake_up_unlocked wake insert ◌>◌
together_1 = refl

together_busy : is_nil (offered together.queue_entries 0) ≡ false
unfolding offered offered_by eligible run set_wakeable merge set_merged create_task_queue
    register_task make_task next_order wake_if_pending has_pending_tasks_unlocked any_pending
    is_empty register get_next_wake_time_unlocked peek_next_task_unlocked top_task_updater
    update_with best_of value push top wake_up_unlocked wake insert ◌>◌
together_busy = refl

run-Inv_example :
    Inv 2 (run (new_queues 7) (creates ∷ merges 0 4 ∷ creates ∷ merges 0 1 ∷ disposes 0 ∷ []))
run-Inv_example =
    run-Inv 7 (creates ∷ merges 0 4 ∷ creates ∷ merges 0 1 ∷ disposes 0 ∷ []) (omega arith)

pending_agrees_example :
    (has_pending_tasks_unlocked together.queue_entries 0
      ≡ returns (not (is_nil (offered together.queue_entries 0))))
    × (get_num_pending_tasks together.queue_entries 0
        ≡ returns (length (offered together.queue_entries 0)))
    × (offered together.queue_entries 0
        ≡ eligible owner_0.task_source ++ offered_by together.queue_entries (1 ∷ []))
pending_agrees_example = pending_agrees 0 owner_0 together-Inv.consistent together_0

-- The owner takes the task of the queue that it subsumes, which is due first.
next_something_example : Takes together 0 owner_0 8 6
next_something_example =
    next_something together together-Inv.consistent 0 owner_0 together_0 8 6 together_busy

register_task-offered_example : Registers together 1 subsumed_1 (some 12) 3 user_interaction
register_task-offered_example =
    register_task-offered together 1 subsumed_1 (some 12) 3 user_interaction together-Inv.consistent
      together_1

merge_outcome_example : Merges apart 0 1 entry_0 entry_1
merge_outcome_example =
    merge_outcome apart 0 1 entry_0 entry_1 apart-Inv.consistent apart_0 apart_1 refl

unmerge_outcome_example : Unmerges together 0 1 owner_0 subsumed_1
unmerge_outcome_example =
    unmerge_outcome together 0 1 owner_0 subsumed_1 together-Inv.consistent together_0 together_1

unmerge-merge_example :
    (s' s'' : MessageLoopTaskQueues) × (merge 0 1 apart ≡ (returns true, s'))
    × (unmerge 0 1 s' ≡ (returns true, s''))
    × ((x : ℕ) → s''.queue_entries x ≡ apart.queue_entries x)
unmerge-merge_example =
    unmerge-merge apart 0 1 entry_0 entry_1 apart-Inv.consistent apart_0 apart_1 refl refl

dispose_outcome_example : Disposes together 0 owner_0
dispose_outcome_example = dispose_outcome together 0 owner_0 together-Inv.consistent together_0

-- Two tasks for one time, across the change of sign of the counter.
later_is_greater_example :
    (ts : List DelayedTask) × (s' : MessageLoopTaskQueues) × (make_each 5
        ((some 1, dart_micro_tasks) ∷ (some 2, unspecified) ∷ [])
        (record apart { order = 2 ^ 31 - 1 })
      ≡ (returns ts, s'))
    × (map (λ t. t.task) ts ≡ some 1 ∷ some 2 ∷ [])
    × IsAscending ts
later_is_greater_example =
    later_is_greater 5 ((some 1, dart_micro_tasks) ∷ (some 2, unspecified) ∷ [])
      (record apart { order = 2 ^ 31 - 1 }) (omega arith)
