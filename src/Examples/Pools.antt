-- ===== src/Examples/Pools.antt =====
-- A pool of two workers that gets three tasks and is terminated, and events that are waited for.
use environment_check.Prelude.{
  set_at, ℕ, ◌≤◌, ◌≡◌, refl, none, some, true, false, List, [], ◌∷◌, length, arith,
}
use environment_check.ConcurrentMessageLoop.{
  ConcurrentMessageLoop, Pool, running, ended, Event, posted, sent, terminated, took, posts, sends,
  terminates, takes, Steps, start, then_step, new_pool, new_concurrent_loop, at_least_one,
  post_task, terminate, post_task_to_all_workers, emplace_each, take_work, take_thread_tasks,
  get_thread_tasks_locked, has_thread_tasks_locked, may_wake,
}
use environment_check.WaitableEvent.{
  AutoCall, new_auto_reset, ManualCall, new_manual_reset, manual_run, manual_wait_start,
  manual_wait_test,
}
use environment_check.WaitableEvent.AutoReset.{ended_by, signals_in, ended_le_signals}
use environment_check.WaitableEvent.ManualReset.{test_iff_signaled}
use environment_check.ConcurrentMessageLoop.Account.{Steps-Account}
use environment_check.ConcurrentMessageLoop.Balance.{Account, collect, taken_in}
use environment_check.ConcurrentMessageLoop.Stopping.{AreOf, worker-Ends}
use environment_check.ConcurrentMessageLoop.LeftBehind.{stopped_takes_few}

abbrev with_tasks : List ℕ → Pool
with_tasks cs =
    let p = new_pool 2 in
    record p { loop = record p.loop { tasks = cs }; notifications = length cs }

abbrev sent_all : Pool
sent_all =
    let p = with_tasks (5 ∷ 6 ∷ 7 ∷ []) in
    record p { loop = post_task_to_all_workers (some 9) p.loop }

abbrev stopped : Pool
stopped = record sent_all { loop = terminate sent_all.loop }

until_stopped :
    Steps (new_pool 2) (posted 5 ∷ posted 6 ∷ posted 7 ∷ sent 9 ∷ terminated ∷ []) stopped
unfolding post_task new_concurrent_loop at_least_one
until_stopped =
    then_step _ terminated sent_all stopped
      (then_step _ (sent 9) (with_tasks (5 ∷ 6 ∷ 7 ∷ [])) sent_all
        (then_step _ (posted 7) (with_tasks (5 ∷ 6 ∷ [])) (with_tasks (5 ∷ 6 ∷ 7 ∷ []))
          (then_step _ (posted 6) (with_tasks (5 ∷ [])) (with_tasks (5 ∷ 6 ∷ []))
            (then_step [] (posted 5) (new_pool 2) (with_tasks (5 ∷ [])) start (posts 5 _ refl))
            (posts 6 _ refl))
          (posts 7 _ refl))
        (sends 9))
      terminates

stopped_down : stopped.loop.shutdown ≡ true
unfolding terminate
stopped_down = refl

abbrev taken_loop : ConcurrentMessageLoop
taken_loop = record stopped.loop {
  tasks = 6 ∷ 7 ∷ [];
  thread_tasks = set_at 0 none stopped.loop.thread_tasks;
}

abbrev one_taken : Pool
one_taken = record stopped {
  loop = taken_loop;
  workers = set_at 0 (running (5 ∷ 9 ∷ []) true) stopped.workers;
}

taking : Steps stopped (took 0 (some 5) (9 ∷ []) ∷ []) one_taken
unfolding take_work take_thread_tasks get_thread_tasks_locked has_thread_tasks_locked may_wake
    terminate post_task_to_all_workers emplace_each new_concurrent_loop at_least_one
taking =
    then_step [] (took 0 (some 5) (9 ∷ [])) stopped one_taken start
      (takes 0 (some 5) (9 ∷ []) true taken_loop (omega arith) refl refl refl refl)

Steps-Account_example : Account (posted 5 ∷ posted 6 ∷ posted 7 ∷ sent 9 ∷ terminated ∷ []) stopped
Steps-Account_example =
    Steps-Account 2 (posted 5 ∷ posted 6 ∷ posted 7 ∷ sent 9 ∷ terminated ∷ []) stopped
      until_stopped

worker-Ends_example :
    (stopped.asleep 1 ≡ false)
    × (es : List Event) × (q : Pool) × Steps stopped es q
    × AreOf 1 es
    × (q.workers 1 ≡ ended)
unfolding terminate post_task_to_all_workers new_concurrent_loop at_least_one
worker-Ends_example =
    worker-Ends 2 (posted 5 ∷ posted 6 ∷ posted 7 ∷ sent 9 ∷ terminated ∷ []) stopped 1
      until_stopped stopped_down (omega arith)

stopped_takes_few_example :
    (stopped.loop.tasks ≡ 5 ∷ one_taken.loop.tasks)
    × (length (collect taken_in (took 0 (some 5) (9 ∷ []) ∷ [])) ≤ stopped.loop.worker_count)
stopped_takes_few_example =
    stopped_takes_few stopped one_taken (took 0 (some 5) (9 ∷ []) ∷ []) stopped_down taking

ended_le_signals_example :
    ended_by
      (AutoCall.starts 3 10 ∷ AutoCall.signals ∷ AutoCall.wakes 3 10 5 ∷ AutoCall.tests ∷ [])
      new_auto_reset
    ≤ signals_in
        (AutoCall.starts 3 10 ∷ AutoCall.signals ∷ AutoCall.wakes 3 10 5 ∷ AutoCall.tests ∷ [])
ended_le_signals_example =
    ended_le_signals
      (AutoCall.starts 3 10 ∷ AutoCall.signals ∷ AutoCall.wakes 3 10 5 ∷ AutoCall.tests ∷ [])

test_iff_signaled_example :
    manual_wait_test 0 (manual_run (ManualCall.signals ∷ ManualCall.resets ∷ []) new_manual_reset)
    ≡ true
unfolding manual_wait_start
test_iff_signaled_example =
    test_iff_signaled new_manual_reset 0 (ManualCall.signals ∷ ManualCall.resets ∷ []) (omega arith)
      refl (omega arith)
