-- ===== src/TaskQueues/State.antt =====
-- The methods of `MessageLoopTaskQueues` that change its state. Each holds `queue_mutex_` from its
-- start to its end, so a method is one step, and a run is a sequence of them.
use environment_check.Prelude.{
  ℕ, ◌+◌, ◌-◌, ◌%◌, ◌^◌, Option, none, some, List, [], ◌∷◌, ltb, not, is_some, if◌then◌else◌,
}
use environment_check.Outcome.{returns, fails, check, undefined_behaviour}
use environment_check.Exec.{Exec, pure, lift, reads, modify, ◌>>=◌, ◌>>◌}
use environment_check.DelayedTask.{
  DelayedTask, DelayedTaskQueue, Closure, TimePoint, TaskSourceGrade, user_interaction,
  dart_micro_tasks, unspecified,
}
use environment_check.TaskSource.{TaskSource, TopTask, register, pop_task, shut_down}
use environment_check.TaskQueues.Entries.{
  Entries, TaskQueueEntry, new_entry, at, update, is_subsumed, assign, erase_key,
}
use environment_check.TaskQueues.Reads.{
  has_pending_tasks_unlocked, peek_next_task_unlocked, get_next_wake_time_unlocked,
}

-- `order` is the bit pattern of the atomic `int`; `tls_task_source_grade` holds what each thread
-- has, `none` where its pointer is null or the grade indeterminate; `wakes` lists the calls of `Wakeable::WakeUp`, last first.
pub record MessageLoopTaskQueues : Type 0 where
  pub queue_entries : Entries
  pub task_queue_id_counter : ℕ
  pub order : ℕ
  pub tls_task_source_grade : ℕ → Option TaskSourceGrade
  pub wakes : List (ℕ × TimePoint)

abbrev pub Method : Type 0 → Type 0
Method = Exec MessageLoopTaskQueues

-- The constructor, run by `thread`.
abbrev pub new_queues : ℕ → MessageLoopTaskQueues
new_queues thread = record {
  queue_entries = λ _. none;
  task_queue_id_counter = 0;
  order = 0;
  tls_task_source_grade = update (λ _. none) thread (some unspecified);
  wakes = [];
}

abbrev pub entry : ℕ → Method TaskQueueEntry
entry q = reads (λ s. at s.queue_entries q)

abbrev pub set_entry : ℕ → TaskQueueEntry → Method (Unit {0})
set_entry q e = modify (λ s. record s { queue_entries = update s.queue_entries q (some e) })

abbrev erase_entry : ℕ → Method (Unit {0})
erase_entry q = modify (λ s. record s { queue_entries = update s.queue_entries q none })

unfoldable pub create_task_queue : Method ℕ
create_task_queue s = (
  returns s.task_queue_id_counter,
  record s {
    queue_entries =
        update s.queue_entries s.task_queue_id_counter (some (new_entry s.task_queue_id_counter));
    task_queue_id_counter = (s.task_queue_id_counter + 1) % 2 ^ 64;
  },
)

unfoldable pub erase_all : List ℕ → Method (Unit {0})
erase_all [] = pure tt
erase_all (x ∷ xs) = do erase_entry x; erase_all xs

unfoldable pub dispose : ℕ → Method (Unit {0})
dispose q = do e ← entry q; lift (check (not (is_subsumed e))); erase_all e.owner_of; erase_entry q

unfoldable pub shut_down_all : List ℕ → Method (Unit {0})
shut_down_all [] = pure tt
shut_down_all (x ∷ xs) = do
  e ← entry x
  set_entry x (record e { task_source = shut_down e.task_source })
  shut_down_all xs

unfoldable pub dispose_tasks : ℕ → Method (Unit {0})
dispose_tasks q = do
  e ← entry q
  lift (check (not (is_subsumed e)))
  set_entry q (record e { task_source = shut_down e.task_source })
  shut_down_all e.owner_of

unfoldable pub get_current_task_source_grade : ℕ → Method TaskSourceGrade
get_current_task_source_grade thread s = (
  elim (s.tls_task_source_grade thread) [ none ↦ fails undefined_behaviour | some g ↦ returns g ],
  s,
)

unfoldable pub wake : Option ℕ → TimePoint → Method (Unit {0})
wake none time = pure tt
wake (some w) time = modify (λ s. record s { wakes = (w, time) ∷ s.wakes })

unfoldable pub wake_up_unlocked : ℕ → TimePoint → Method (Unit {0})
wake_up_unlocked q time = do e ← entry q; wake e.wakeable time

-- The statement with which five methods end: wake the loop for its next task, if it has one.
unfoldable pub wake_if_pending : ℕ → Method (Unit {0})
wake_if_pending q = do
  pending ← reads (λ s. has_pending_tasks_unlocked s.queue_entries q)
  if pending
      then (do
        time ← reads (λ s. get_next_wake_time_unlocked s.queue_entries q)
        wake_up_unlocked q time)
      else pure tt

-- An `int` converted to `size_t`.
abbrev pub sign_extend : ℕ → ℕ
sign_extend w = if ltb w (2 ^ 31) then w else w + 2 ^ 64 - 2 ^ 32

-- `order_++`
unfoldable pub next_order : Method ℕ
next_order s = (returns (sign_extend s.order), record s { order = (s.order + 1) % 2 ^ 32 })

-- The task that `RegisterTask` makes.
unfoldable pub make_task : Closure → TimePoint → TaskSourceGrade → Method DelayedTask
unfolding next_order
make_task task target_time grade = do
  order ← next_order
  pure (record { order = order; task = task; target_time = target_time; task_source_grade = grade })

unfoldable pub register_task : ℕ → Closure → TimePoint → TaskSourceGrade → Method (Unit {0})
unfolding make_task
register_task q task target_time grade = do
  t ← make_task task target_time grade
  e ← entry q
  set_entry q (record e { task_source = register t e.task_source })
  wake_if_pending (if is_subsumed e then e.subsumed_by else q)

abbrev pub time_max : TimePoint
time_max = 2 ^ 64 - 1

unfoldable pub heap_of : TaskSourceGrade → TaskSource → DelayedTaskQueue
heap_of user_interaction source = source.primary_task_queue
heap_of unspecified source = source.primary_task_queue
heap_of dart_micro_tasks source = source.secondary_task_queue

-- What `top.task.GetTaskSourceGrade()` reads after the pop. `top.task` refers to the front of the
-- heap that was popped, and the task that comes next stands there now. Where none is left the read
-- is of a destroyed task: the value is indeterminate, and no grade that the thread may use.
unfoldable pub grade_after_pop : TaskSourceGrade → TaskSource → Option TaskSourceGrade
unfolding heap_of
grade_after_pop grade source = elim (heap_of grade source) [
  | [] ↦ none
  | t ∷ _ ↦ some t.task_source_grade
]

unfoldable pub pop_top : ℕ → TopTask → Method Closure
unfolding grade_after_pop
pop_top thread top = do
  e ← entry top.task_queue_id
  source ← lift (pop_task top.task.task_source_grade e.task_source)
  set_entry top.task_queue_id (record e { task_source = source })
  let grade = grade_after_pop top.task.task_source_grade source
  modify (λ s. record s { tls_task_source_grade = update s.tls_task_source_grade thread grade })
  pure top.task.task

-- `thread` is the calling thread.
unfoldable pub get_next_task_to_run : ℕ → ℕ → TimePoint → Method Closure
get_next_task_to_run thread q from_time = do
  pending ← reads (λ s. has_pending_tasks_unlocked s.queue_entries q)
  if not pending then pure none else do
    top ← reads (λ s. peek_next_task_unlocked s.queue_entries q)
    still_pending ← reads (λ s. has_pending_tasks_unlocked s.queue_entries q)
    (if not still_pending then wake_up_unlocked q time_max else do
      time ← reads (λ s. get_next_wake_time_unlocked s.queue_entries q)
      wake_up_unlocked q time)
    if ltb from_time top.task.target_time then pure none else pop_top thread top

unfoldable pub add_task_observer : ℕ → ℕ → Closure → Method (Unit {0})
add_task_observer q key callback = do
  lift (check (is_some callback))
  e ← entry q
  set_entry q (record e { task_observers = assign key callback e.task_observers })

unfoldable pub remove_task_observer : ℕ → ℕ → Method (Unit {0})
remove_task_observer q key = do
  e ← entry q
  set_entry q (record e { task_observers = erase_key key e.task_observers })

unfoldable pub set_wakeable : ℕ → Option ℕ → Method (Unit {0})
set_wakeable q wakeable = do
  e ← entry q
  lift (check (not (is_some e.wakeable)))
  set_entry q (record e { wakeable = wakeable })
