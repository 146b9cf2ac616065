-- ===== src/Examples/Threads.antt =====
-- Two threads with a loop each.
use environment_check.Prelude.{
  ℕ, ◌≡◌, refl, ◌⊎◌, none, some, true, false, [], ◌∷◌, ◌==◌, if◌then◌else◌, arith,
}
use environment_check.Outcome.{returns}
use environment_check.Exec.{Exec, pure}
use environment_check.TaskQueues.Entries.{new_entry}
use environment_check.TaskQueues.State.{MessageLoopTaskQueues, new_queues, create_task_queue}
use environment_check.TaskQueues.Merging.{merge}
use environment_check.TaskQueues.Invariant.{Inv}
use environment_check.TaskQueues.Run.{creates, run, run-Inv}
use environment_check.MessageLoopImpl.{MessageLoopImpl}
use environment_check.MessageLoop.{Program}
use environment_check.TaskRunner.{
  TaskRunnerChecker, new_task_runner_checker, runs_on_creation_task_runner, run_now_or_post_task,
}
use environment_check.TaskRunner.Posting.{joined, Posts, run_now_or_post_outcome}
use environment_check.TaskRunner.Checker.{runs_on_creation_task_runner-merge}

abbrev two_queues : MessageLoopTaskQueues
two_queues = run (new_queues 0) (creates ∷ creates ∷ [])

abbrev loop_of_queue : ℕ → MessageLoopImpl
loop_of_queue q = record { task_queue = two_queues; queue_id = q; terminated = false; invoked = [] }

abbrev two_threads : Program
two_threads = record {
  queues = two_queues;
  tls_message_loop = λ t.
      if t == 0 then some (loop_of_queue 0) else if t == 1 then some (loop_of_queue 1) else none;
}

two_queues-Inv : Inv 2 two_queues
two_queues-Inv = run-Inv 0 (creates ∷ creates ∷ []) (omega arith)

first : two_queues.queue_entries 0 ≡ some (new_entry 0)
unfolding run create_task_queue
first = refl

second : two_queues.queue_entries 1 ≡ some (new_entry 1)
unfolding run create_task_queue
second = refl

-- Closures that do nothing.
abbrev idle : ℕ → Exec Program (Unit {0})
idle c = pure tt

run_now_or_post_outcome_example :
    ((joined 0 (new_entry 0) 1 (new_entry 1) ≡ true)
      × (run_now_or_post_task idle (some 1) (some 9) 0 50 two_threads ≡ idle 9 two_threads))
    ⊎ ((joined 0 (new_entry 0) 1 (new_entry 1) ≡ false)
        × ((p' : Program) × (run_now_or_post_task idle (some 1) (some 9) 0 50 two_threads
              ≡ (returns tt, p'))
            × Posts two_threads p' 1 (new_entry 1) 9 50))
run_now_or_post_outcome_example =
    run_now_or_post_outcome idle two_threads 0 1 9 50 (loop_of_queue 0) (loop_of_queue 1)
      (new_entry 0) (new_entry 1) two_queues-Inv.consistent refl refl first second refl

runs_on_creation_task_runner-merge_example :
    (c : TaskRunnerChecker) × (s' : MessageLoopTaskQueues) × (new_task_runner_checker 1 two_threads
      ≡ (returns c, two_threads))
    × (runs_on_creation_task_runner c 0 two_threads ≡ (returns false, two_threads))
    × (merge 0 1 two_queues ≡ (returns true, s'))
    × (runs_on_creation_task_runner c 0 (record two_threads { queues = s' })
        ≡ (returns true, record two_threads { queues = s' }))
    × (runs_on_creation_task_runner c 1 (record two_threads { queues = s' })
        ≡ (returns true, record two_threads { queues = s' }))
runs_on_creation_task_runner-merge_example =
    runs_on_creation_task_runner-merge two_threads 1 0 (loop_of_queue 1) (loop_of_queue 0)
      (new_entry 1) (new_entry 0) two_queues-Inv.consistent refl refl second first refl refl
