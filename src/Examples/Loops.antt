-- ===== src/Examples/Loops.antt =====
-- A loop whose queue owns another, with a task in each.
use mathlib.Core.List.Perm
use environment_check.Prelude.{ℕ, refl, true, false, [], arith}
use environment_check.Exec.{modify, pure}
use environment_check.DelayedTask.{push, ◌>◌}
use environment_check.TaskSource.{register, is_empty, eligible, top}
use environment_check.TaskQueues.Entries.{insert}
use environment_check.TaskQueues.State.{
  create_task_queue, register_task, wake_if_pending, wake_up_unlocked, wake, make_task, next_order,
  set_wakeable,
}
use environment_check.TaskQueues.Reads.{
  has_pending_tasks_unlocked, any_pending, peek_next_task_unlocked, get_next_wake_time_unlocked,
  top_task_updater, update_with, best_of, value,
}
use environment_check.TaskQueues.Merging.{merge, set_merged}
use environment_check.TaskQueues.Consistent.{offered, offered_by}
use environment_check.TaskQueues.Run.{run}
use environment_check.MessageLoopImpl.{MessageLoopImpl, Loop}
use environment_check.MessageLoopImpl.Due.{IsReady}
use environment_check.MessageLoopImpl.Flush.{IsQuiet, Flushes, flush_all}
use environment_check.MessageLoopImpl.Shutdown.{Ends, do_run-Ends}
use environment_check.Examples.Queues.{together, together-Inv, together_0, owner_0}

-- Closures that terminate the loop and do nothing else.
abbrev execute : ℕ → Loop (Unit {0})
execute c = modify (λ l. record l { terminated = true })

abbrev loop : MessageLoopImpl
loop = record { task_queue = together; queue_id = 0; terminated = false; invoked = [] }

loop-IsReady : IsReady 0 together
unfolding run set_wakeable merge set_merged create_task_queue register_task make_task next_order
    wake_if_pending has_pending_tasks_unlocked any_pending is_empty register
    get_next_wake_time_unlocked peek_next_task_unlocked top_task_updater update_with best_of value
    push top wake_up_unlocked wake insert ◌>◌ offered offered_by eligible
loop-IsReady = record {
  consistent = together-Inv.consistent;
  entry = owner_0;
  found = together_0;
  closures = (refl, (refl, tt));
  observers = λ p e h. ground arith;
}

execute-IsQuiet : (now : ℕ) → IsQuiet execute now
execute-IsQuiet now c l v =
    (record l { terminated = true }, refl, (refl, v, Perm.refl _, λ _. refl))

flush_all_example : Flushes execute 9 (execute-IsQuiet 9) 7 3 loop
unfolding run set_wakeable merge set_merged create_task_queue register_task make_task next_order
    wake_if_pending has_pending_tasks_unlocked any_pending is_empty register
    get_next_wake_time_unlocked peek_next_task_unlocked top_task_updater update_with best_of value
    push top wake_up_unlocked wake insert ◌>◌ offered offered_by eligible
flush_all_example = flush_all execute 9 (execute-IsQuiet 9) 7 3 loop loop-IsReady (omega arith)

do_run-Ends_example : Ends execute 9 (pure tt) 7 3 loop loop
unfolding run set_wakeable merge set_merged create_task_queue register_task make_task next_order
    wake_if_pending has_pending_tasks_unlocked any_pending is_empty register
    get_next_wake_time_unlocked peek_next_task_unlocked top_task_updater update_with best_of value
    push top wake_up_unlocked wake insert ◌>◌ offered offered_by eligible
do_run-Ends_example =
    do_run-Ends execute 9 (pure tt) 7 3 loop loop (execute-IsQuiet 9) refl refl loop-IsReady
      (omega arith)
