-- ===== src/DelayedTask.antt =====
-- app/src/main/cpp/delayed_task.h, delayed_task.cc, task_source_grade.h and the heap of tasks.
pub mod Order
pub mod Heap
use environment_check.Prelude.{ℕ, Bool, Option, none, some, List, [], ◌∷◌, ltb, ◌==◌, if◌then◌else◌}

pub data TaskSourceGrade : Type 0 where
  user_interaction dart_micro_tasks unspecified : TaskSourceGrade

-- A `FOREVER::closure`: `none` is the empty one, `some n` runs the code that `n` stands for.
abbrev pub Closure : Type 0
Closure = Option ℕ

-- A `TimePoint` is an int64_t of nanoseconds. The queues only compare time points, so a point is
-- its distance from the least one, `ticks + 2 ^ 63`.
abbrev pub TimePoint : Type 0
TimePoint = ℕ

pub record DelayedTask : Type 0 where
  pub order : ℕ
  pub task : Closure
  pub target_time : TimePoint
  pub task_source_grade : TaskSourceGrade

-- `DelayedTask::operator>`
infix 50 ◌>◌
unfoldable pub ◌>◌ : DelayedTask → DelayedTask → Bool
a > b =
    if a.target_time == b.target_time then ltb b.order a.order else ltb b.target_time a.target_time

-- `DelayedTaskQueue`, a `std::priority_queue` with `std::greater`, kept in the order in which its
-- tasks leave: `push` puts a task before those that are greater, and the head is `top`.
abbrev pub DelayedTaskQueue : Type 0
DelayedTaskQueue = List DelayedTask

unfoldable pub push : DelayedTask → DelayedTaskQueue → DelayedTaskQueue
push t [] = t ∷ []
push t (x ∷ xs) = if x > t then t ∷ x ∷ xs else x ∷ push t xs
