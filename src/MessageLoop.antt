-- ===== src/MessageLoop.antt =====
-- app/src/main/cpp/message_loop.h and message_loop.cc: the loop of each thread, over the one
-- instance of the queues.
use environment_check.Prelude.{ℕ, Option, none, some, Bool, is_some, ◌==◌, set_at}
use environment_check.Outcome.{Outcome, returns, fails, check, undefined_behaviour}
use environment_check.Exec.{Exec, pure, lift, reads, ◌>>=◌, ◌>>◌}
use environment_check.DelayedTask.{Closure, TimePoint}
use environment_check.TaskQueues.State.{MessageLoopTaskQueues}
use environment_check.MessageLoopImpl.{
  MessageLoopImpl, Loop, new_loop, add_task_observer, remove_task_observer, do_run, do_terminate,
  flush_tasks, all,
}

-- A loop has the number of its thread, as a `Wakeable` too, and `tls_message_loop` has the loops.
-- What a stored loop has as its `task_queue` is out of date: it works on `queues`.
pub record Program : Type 0 where
  pub queues : MessageLoopTaskQueues
  pub tls_message_loop : ℕ → Option MessageLoopImpl

abbrev pub with_loop : {A : Type 0} → ℕ → Option MessageLoopImpl → Loop A → Exec Program A
with_loop loop none m p = (fails undefined_behaviour, p)
with_loop loop (some l) m p =
    let r = m (record l { task_queue = p.queues }) in
    (
      r.0,
      record {
        queues = r.1.task_queue;
        tls_message_loop = set_at loop (some r.1) p.tls_message_loop;
      },
    )

-- A method of the loop with a number.
abbrev pub on_loop : {A : Type 0} → ℕ → Loop A → Exec Program A
on_loop loop m p = with_loop loop (p.tls_message_loop loop) m p

unfoldable pub is_initialized : ℕ → Exec Program Bool
is_initialized thread = reads (λ p. returns (is_some (p.tls_message_loop thread)))

-- `GetCurrent` answers with the loop's number.
unfoldable pub get_current : ℕ → Exec Program ℕ
unfolding is_initialized
get_current thread = do initialized ← is_initialized thread; lift (check initialized); pure thread

abbrev pub made_loop : ℕ → Outcome MessageLoopImpl × MessageLoopTaskQueues → Exec Program (Unit {0})
made_loop thread (fails f, s) p = (fails f, record p { queues = s })
made_loop thread (returns l, s) p = (
  returns tt,
  record { queues = s; tls_message_loop = set_at thread (some l) p.tls_message_loop },
)

abbrev pub ensured : ℕ → Option MessageLoopImpl → Exec Program (Unit {0})
ensured thread (some l) p = (returns tt, p)
ensured thread none p = made_loop thread (new_loop thread p.queues) p

unfoldable pub ensure_initialized : ℕ → Exec Program (Unit {0})
ensure_initialized thread p = ensured thread (p.tls_message_loop thread) p

-- `GetTaskQueueId`, a const method.
abbrev pub queue_id_of : Option MessageLoopImpl → Outcome ℕ
queue_id_of none = fails undefined_behaviour
queue_id_of (some l) = returns l.queue_id

unfoldable pub get_current_task_queue_id : ℕ → Exec Program ℕ
unfolding get_current
get_current_task_queue_id thread = do
  loop ← get_current thread
  reads (λ p. queue_id_of (p.tls_message_loop loop))

-- The methods that `thread` calls of a loop.
module _ (thread loop : ℕ) where
  unfoldable pub add_observer : ℕ → Closure → Exec Program (Unit {0})
  add_observer key callback = on_loop loop (add_task_observer (thread == loop) key callback)

  unfoldable pub remove_observer : ℕ → Exec Program (Unit {0})
  remove_observer key = on_loop loop (remove_task_observer (thread == loop) key)

  -- The parameters are those of the methods of the loop.
  module _ (execute : ℕ → Loop (Unit {0})) where
    unfoldable pub run : Loop (Unit {0}) → TimePoint → ℕ → Exec Program Bool
    run run_loop now fuel = on_loop loop (do_run execute run_loop thread now fuel)

    unfoldable pub run_expired_tasks_now : TimePoint → ℕ → Exec Program Bool
    run_expired_tasks_now now fuel = on_loop loop (flush_tasks execute thread now all fuel)

  unfoldable pub terminate : Loop (Unit {0}) → Exec Program (Unit {0})
  terminate terminate_loop = on_loop loop (do_terminate terminate_loop)
