-- ===== src/TaskRunner.antt =====
-- app/src/main/cpp/task_runner.h, task_runner.cc, task_runners.h, task_runners.cc,
-- memory/task_runner_checker.h and memory/task_runner_checker.cc. A task runner is the number of its
-- loop; `thread` is the calling thread.
pub mod Threads
pub mod Posting
pub mod Checker
use environment_check.Prelude.{
  ℕ, suc, ◌+◌, ◌-◌, ◌^◌, Option, none, some, Bool, true, false, List, [], ◌∷◌, is_some, ◌==◌, ◌&&◌,
  ltb, leb, if◌then◌else◌,
}
use environment_check.Outcome.{
  Outcome, returns, fails, check, undefined_behaviour, bad_function_call, check_failed,
}
use environment_check.Exec.{Exec, pure, lift, reads, ◌>>=◌, ◌>>◌}
use environment_check.DelayedTask.{Closure, TimePoint}
use environment_check.Time.{ℤ, pos, negsuc}
use environment_check.TaskQueues.Entries.{Entries}
use environment_check.TaskQueues.Reads.{owns, get_subsumed_task_queue_id}
use environment_check.MessageLoopImpl as MessageLoopImpl
use environment_check.MessageLoop.{
  Program, on_loop, is_initialized, ensure_initialized, get_current_task_queue_id, queue_id_of,
}

unfoldable pub post_task_for_time : ℕ → Closure → TimePoint → Exec Program (Unit {0})
post_task_for_time runner task target_time =
    on_loop runner (MessageLoopImpl.post_task task target_time)

-- `now` is what `TimePoint::Now` answers.
unfoldable pub post_task : ℕ → Closure → TimePoint → Exec Program (Unit {0})
post_task runner task now = on_loop runner (MessageLoopImpl.post_task task now)

-- `TimePoint::operator+`, where a time point is its distance from the least.
unfoldable pub time_plus : TimePoint → ℤ → Outcome TimePoint
time_plus now (pos d) =
    if ltb (now + d) (2 ^ 64) then returns (now + d) else fails undefined_behaviour
time_plus now (negsuc d) = if ltb d now then returns (now - suc d) else fails undefined_behaviour

unfoldable pub post_delayed_task : ℕ → Closure → TimePoint → ℤ → Exec Program (Unit {0})
post_delayed_task runner task now delay = do
  target_time ← lift (time_plus now delay)
  on_loop runner (MessageLoopImpl.post_task task target_time)

unfoldable pub get_task_queue_id : ℕ → Exec Program ℕ
get_task_queue_id runner = reads (λ p. queue_id_of (p.tls_message_loop runner))

-- `if (first) return true;` before the rest.
abbrev pub or_else : Outcome Bool → Outcome Bool → Outcome Bool
or_else (returns true) rest = returns true
or_else (returns false) rest = rest
or_else (fails f) rest = fails f

unfoldable pub runs_on_the_same_thread : Entries → ℕ → ℕ → Outcome Bool
runs_on_the_same_thread m queue_a queue_b =
    if queue_a == queue_b
    then returns true
    else or_else (owns m queue_a queue_b) (or_else (owns m queue_b queue_a) (returns false))

unfoldable pub runs_tasks_on_current_thread : ℕ → ℕ → Exec Program Bool
unfolding get_task_queue_id
runs_tasks_on_current_thread runner thread = do
  initialized ← is_initialized thread
  if initialized
      then (do
        current_queue_id ← get_current_task_queue_id thread
        loop_queue_id ← get_task_queue_id runner
        reads (λ p. runs_on_the_same_thread p.queues.queue_entries current_queue_id loop_queue_id))
      else pure false

-- A call of a `std::function`; `execute` is the code of the closures.
abbrev pub call : (ℕ → Exec Program (Unit {0})) → Closure → Exec Program (Unit {0})
call execute none = lift (fails bad_function_call)
call execute (some c) = execute c

-- The runner may be null.
unfoldable pub run_now_or_post_task :
    (ℕ → Exec Program (Unit {0})) → Option ℕ → Closure → ℕ → TimePoint → Exec Program (Unit {0})
run_now_or_post_task execute none task thread now = lift (fails check_failed)
run_now_or_post_task execute (some runner) task thread now = do
  here ← runs_tasks_on_current_thread runner thread
  if here then call execute task else post_task runner task now

pub record TaskRunnerChecker : Type 0 where
  pub initialized_queue_id : ℕ
  pub subsumed_queue_ids : List ℕ

unfoldable pub new_task_runner_checker : ℕ → Exec Program TaskRunnerChecker
new_task_runner_checker thread = do
  ensure_initialized thread
  id ← get_current_task_queue_id thread
  subsumed ← reads (λ p. get_subsumed_task_queue_id p.queues.queue_entries id)
  pure (record { initialized_queue_id = id; subsumed_queue_ids = subsumed })

-- The loop over the queues that were subsumed.
unfoldable pub any_on_the_same_thread : Entries → ℕ → List ℕ → Outcome Bool
any_on_the_same_thread m current [] = returns false
any_on_the_same_thread m current (x ∷ xs) =
    let rest = any_on_the_same_thread m current xs in
    or_else (runs_on_the_same_thread m current x) rest

unfoldable pub runs_on_creation_task_runner : TaskRunnerChecker → ℕ → Exec Program Bool
runs_on_creation_task_runner c thread = do
  initialized ← is_initialized thread
  lift (check initialized)
  current ← get_current_task_queue_id thread
  reads (λ p.
      or_else (runs_on_the_same_thread p.queues.queue_entries current c.initialized_queue_id)
        (any_on_the_same_thread p.queues.queue_entries current c.subsumed_queue_ids))

-- The runners of a shell; the label is left out.
pub record TaskRunners : Type 0 where
  pub platform : Option ℕ
  pub raster : Option ℕ
  pub ui : Option ℕ
  pub io : Option ℕ

unfoldable pub is_valid : TaskRunners → Bool
is_valid r = is_some r.platform && is_some r.raster && is_some r.ui && is_some r.io
