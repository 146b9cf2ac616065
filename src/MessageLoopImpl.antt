-- ===== src/MessageLoopImpl.antt =====
-- app/src/main/cpp/message_loop_impl.h and message_loop_impl.cc: a loop runs the tasks of its queue.
pub mod Due
pub mod Flush
pub mod Shutdown
use environment_check.Prelude.{
  ℕ, zero, suc, none, some, Bool, true, false, List, [], ◌∷◌, ◌++◌, is_some, if◌then◌else◌,
}
use environment_check.Outcome.{returns, fails, check, bad_function_call}
use environment_check.Exec.{Exec, pure, lift, reads, modify, ◌>>=◌, ◌>>◌}
use environment_check.DelayedTask.{Closure, TimePoint, unspecified}
use environment_check.TaskQueues.Reads.{get_observers_to_notify}
use environment_check.TaskQueues.State as TaskQueues
use environment_check.TaskQueues.State.{MessageLoopTaskQueues, Method}

-- What the loop invoked: the closure of a task, or of an observer.
pub data Event : Type 0 where
  ran notified : ℕ → Event

-- `invoked` is a log of what the loop invoked, first call first; nothing reads it.
pub record MessageLoopImpl : Type 0 where
  pub task_queue : MessageLoopTaskQueues
  pub queue_id : ℕ
  pub terminated : Bool
  pub invoked : List Event

abbrev pub Loop : Type 0 → Type 0
Loop = Exec MessageLoopImpl

-- A call of a method of the queues with the id of the loop's queue.
abbrev pub on_queue : {A : Type 0} → (ℕ → Method A) → Loop A
on_queue m l = let r = m l.queue_id l.task_queue in (r.0, record l { task_queue = r.1 })

abbrev set_terminated : Loop (Unit {0})
set_terminated = modify (λ l. record l { terminated = true })

-- The constructor; `this` is the loop as a `Wakeable`.
unfoldable pub new_loop : ℕ → Method MessageLoopImpl
new_loop this = do
  queue_id ← TaskQueues.create_task_queue
  TaskQueues.set_wakeable queue_id (some this)
  λ s. (
    returns (record { task_queue = s; queue_id = queue_id; terminated = false; invoked = [] }),
    s,
  )

unfoldable pub destroy : Loop (Unit {0})
destroy = on_queue TaskQueues.dispose

unfoldable pub post_task : Closure → TimePoint → Loop (Unit {0})
post_task task target_time = do
  lift (check (is_some task))
  terminated ← reads (λ l. returns l.terminated)
  if terminated
      then pure tt
      else on_queue (λ q. TaskQueues.register_task q task target_time unspecified)

-- `is_current` is whether the loop is that of the calling thread.
unfoldable pub add_task_observer : Bool → ℕ → Closure → Loop (Unit {0})
add_task_observer is_current key callback = do
  lift (check (is_some callback))
  lift (check is_current)
  on_queue (λ q. TaskQueues.add_task_observer q key callback)

unfoldable pub remove_task_observer : Bool → ℕ → Loop (Unit {0})
remove_task_observer is_current key = do
  lift (check is_current)
  on_queue (λ q. TaskQueues.remove_task_observer q key)

pub data FlushType : Type 0 where
  single all : FlushType

abbrev is_single : FlushType → Bool
is_single single = true
is_single all = false

-- `execute` is the code of the closures, which may call anything.
module _ (execute : ℕ → Loop (Unit {0})) where
  -- A call of a `std::function`.
  unfoldable pub invoke : (ℕ → Event) → Closure → Loop (Unit {0})
  invoke event none l = (fails bad_function_call, l)
  invoke event (some c) l =
      let r = execute c l in (r.0, record r.1 { invoked = l.invoked ++ event c ∷ [] })

  unfoldable pub notify_all : List Closure → Loop (Unit {0})
  notify_all [] = pure tt
  notify_all (o ∷ os) = do invoke notified o; notify_all os

  -- What a turn of the loop does with a task: call it and the observers.
  unfoldable pub turn : Closure → Loop (Unit {0})
  turn invocation = do
    invoke ran invocation
    observers ← on_queue (λ q. reads (λ s. get_observers_to_notify s.queue_entries q))
    notify_all observers

  -- The loop of `FlushTasks` on `thread` for at most `fuel` turns; whether it came to its end.
  unfoldable pub flush_tasks : ℕ → TimePoint → FlushType → ℕ → Loop Bool
  flush_tasks thread now type zero = pure false
  flush_tasks thread now type (suc fuel) =
      let rest = flush_tasks thread now type fuel in
      do
        invocation ← on_queue (λ q. TaskQueues.get_next_task_to_run thread q now)
        if is_some invocation
            then (do turn invocation; if is_single type then pure true else rest)
            else pure true

  -- `run` is the virtual `Run`. Where the fuel does not last, `FlushTasks` has not ended, and nothing
  -- that stands after it is done.
  unfoldable pub do_run : Loop (Unit {0}) → ℕ → TimePoint → ℕ → Loop Bool
  do_run run thread now fuel = do
    terminated ← reads (λ l. returns l.terminated)
    if terminated then pure true else (do
      run
      set_terminated
      done ← flush_tasks thread now all fuel
      if done then (do on_queue TaskQueues.dispose_tasks; pure true) else pure false)

-- `terminate` is the virtual `Terminate`.
unfoldable pub do_terminate : Loop (Unit {0}) → Loop (Unit {0})
do_terminate terminate = do set_terminated; terminate
