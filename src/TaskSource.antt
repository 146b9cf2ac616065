-- ===== src/TaskSource.antt =====
-- app/src/main/cpp/task_source.h and task_source.cc.
pub mod Top
pub mod Contents
use environment_check.Prelude.{
  ℕ, zero, suc, ◌+◌, Bool, true, false, not, ◌||◌, List, [], ◌∷◌, ◌++◌, ltb, ◌==◌, length, is_nil,
  if◌then◌else◌,
}
use environment_check.Outcome.{
  Outcome, returns, fails, check, undefined_behaviour, check_failed, ◌>>=◌, ◌>>◌,
}
use environment_check.DelayedTask.{
  DelayedTask, DelayedTaskQueue, TaskSourceGrade, user_interaction, dart_micro_tasks, unspecified,
  push, ◌>◌,
}

-- The number of pause requests is an `int`; it is kept below 2 ^ 31 by its callers, and the check
-- of `resume_secondary` ends the process where it would turn negative.
pub record TaskSource : Type 0 where
  pub task_queue_id : ℕ
  pub primary_task_queue : DelayedTaskQueue
  pub secondary_task_queue : DelayedTaskQueue
  pub secondary_pause_requests : ℕ

-- The reference to a task is the task; `PopTask` is given the heap that it stands in.
pub record TopTask : Type 0 where
  pub task_queue_id : ℕ
  pub task : DelayedTask

abbrev pub new_source : ℕ → TaskSource
new_source id = record {
  task_queue_id = id;
  primary_task_queue = [];
  secondary_task_queue = [];
  secondary_pause_requests = 0;
}

unfoldable pub shut_down : TaskSource → TaskSource
shut_down s = record s { primary_task_queue = []; secondary_task_queue = [] }

push_by : TaskSourceGrade → DelayedTask → TaskSource → TaskSource
push_by user_interaction t s = record s { primary_task_queue = push t s.primary_task_queue }
push_by unspecified t s = record s { primary_task_queue = push t s.primary_task_queue }
push_by dart_micro_tasks t s = record s { secondary_task_queue = push t s.secondary_task_queue }

-- `TaskSource::RegisterTask`
unfoldable pub register : DelayedTask → TaskSource → TaskSource
unfolding push_by
register t s = push_by t.task_source_grade t s

-- `std::priority_queue::pop` and `top`
pop : DelayedTaskQueue → Outcome DelayedTaskQueue
pop [] = fails undefined_behaviour
pop (x ∷ xs) = returns xs

front : DelayedTaskQueue → Outcome DelayedTask
front [] = fails undefined_behaviour
front (x ∷ xs) = returns x

pop_primary : TaskSource → Outcome TaskSource
unfolding pop
pop_primary s = do q ← pop s.primary_task_queue; returns (record s { primary_task_queue = q })

pop_secondary : TaskSource → Outcome TaskSource
unfolding pop
pop_secondary s = do q ← pop s.secondary_task_queue; returns (record s { secondary_task_queue = q })

-- `TaskSource::PopTask`
unfoldable pub pop_task : TaskSourceGrade → TaskSource → Outcome TaskSource
unfolding pop_primary pop_secondary
pop_task user_interaction s = pop_primary s
pop_task unspecified s = pop_primary s
pop_task dart_micro_tasks s = pop_secondary s

-- The sizes of two containers in memory do not wrap a `size_t`.
unfoldable pub get_num_pending_tasks : TaskSource → ℕ
get_num_pending_tasks s =
    if s.secondary_pause_requests == 0
    then length s.primary_task_queue + length s.secondary_task_queue
    else length s.primary_task_queue

unfoldable pub is_empty : TaskSource → Bool
unfolding get_num_pending_tasks
is_empty s = get_num_pending_tasks s == 0

-- The choice that `Top` makes once it has checked that there is a task.
choose : TaskSource → Outcome DelayedTask
unfolding front
choose s =
    if ltb 0 s.secondary_pause_requests || is_nil s.secondary_task_queue
    then front s.primary_task_queue
    else if is_nil s.primary_task_queue
    then front s.secondary_task_queue
    else do
      primary_top ← front s.primary_task_queue
      secondary_top ← front s.secondary_task_queue
      returns (if primary_top > secondary_top then secondary_top else primary_top)

-- `TaskSource::Top`
unfoldable pub top : TaskSource → Outcome TopTask
unfolding is_empty choose
top s = do
  check (not (is_empty s))
  t ← choose s
  returns (record { task_queue_id = s.task_queue_id; task = t })

unfoldable pub pause_secondary : TaskSource → TaskSource
pause_secondary s = record s { secondary_pause_requests = s.secondary_pause_requests + 1 }

resume_from : ℕ → TaskSource → Outcome TaskSource
resume_from zero s = fails check_failed
resume_from (suc n) s = returns (record s { secondary_pause_requests = n })

-- `TaskSource::ResumeSecondary`
unfoldable pub resume_secondary : TaskSource → Outcome TaskSource
unfolding resume_from
resume_secondary s = resume_from s.secondary_pause_requests s

-- The tasks that the source offers: those of the secondary heap only while it is not paused.
unfoldable pub eligible : TaskSource → List DelayedTask
eligible s =
    if s.secondary_pause_requests == 0
    then s.primary_task_queue ++ s.secondary_task_queue
    else s.primary_task_queue
