-- ===== src/TaskQueues/Reads.antt =====
-- The const methods of `MessageLoopTaskQueues`, over the map of entries.
use environment_check.Prelude.{
  ℕ, ◌+◌, ◌||◌, Option, none, some, Bool, true, false, List, [], ◌∷◌, ◌++◌, map, ◌==◌, not, is_nil,
  contains, if◌then◌else◌,
}
use environment_check.Outcome.{Outcome, returns, fails, check_failed, check, ◌>>=◌, ◌>>◌}
use environment_check.DelayedTask.{Closure, TimePoint, ◌>◌}
use environment_check.TaskSource.{TaskSource, TopTask, is_empty, top}
use environment_check.TaskSource
use environment_check.TaskQueues.Entries.{Entries, at, is_subsumed, unmerged}

-- `std::any_of` stops at the first that has a task.
unfoldable pub any_pending : Entries → List ℕ → Outcome Bool
any_pending m [] = returns false
any_pending m (x ∷ xs) = do
  e ← at m x
  let rest = any_pending m xs
  if not (is_empty e.task_source) then returns true else rest

unfoldable pub has_pending_tasks_unlocked : Entries → ℕ → Outcome Bool
has_pending_tasks_unlocked m q = do
  e ← at m q
  if is_subsumed e
      then returns false
      else if not (is_empty e.task_source)
      then returns true
      else any_pending m e.owner_of

-- The loop of `GetNumPendingTasks` over the subsumed queues.
unfoldable pub sum_pending : Entries → ℕ → List ℕ → Outcome ℕ
sum_pending m total [] = returns total
sum_pending m total (x ∷ xs) = do
  e ← at m x
  sum_pending m (total + TaskSource.get_num_pending_tasks e.task_source) xs

unfoldable pub get_num_pending_tasks : Entries → ℕ → Outcome ℕ
get_num_pending_tasks m q = do
  e ← at m q
  if is_subsumed e
      then returns 0
      else sum_pending m (TaskSource.get_num_pending_tasks e.task_source) e.owner_of

-- `top_task_updater`: the optional, after a look at one more source.
unfoldable pub update_with : Option TopTask → TopTask → Option TopTask
update_with none other = some other
update_with (some best) other = if best.task > other.task then some other else some best

unfoldable pub top_task_updater : Option TopTask → TaskSource → Outcome (Option TopTask)
top_task_updater best source =
    if is_empty source
    then returns best
    else do other ← top source; returns (update_with best other)

unfoldable pub best_of : Entries → Option TopTask → List ℕ → Outcome (Option TopTask)
best_of m best [] = returns best
best_of m best (x ∷ xs) = do
  e ← at m x
  best' ← top_task_updater best e.task_source
  best_of m best' xs

-- `FOREVER_CHECK(top_task.has_value())`, and the value.
unfoldable pub value : Option TopTask → Outcome TopTask
value none = fails check_failed
value (some t) = returns t

unfoldable pub peek_next_task_unlocked : Entries → ℕ → Outcome TopTask
peek_next_task_unlocked m owner = do
  pending ← has_pending_tasks_unlocked m owner
  check pending
  e ← at m owner
  if is_nil e.owner_of then check (not (is_empty e.task_source)) >> top e.task_source else do
    best ← top_task_updater none e.task_source
    best' ← best_of m best e.owner_of
    value best'

unfoldable pub get_next_wake_time_unlocked : Entries → ℕ → Outcome TimePoint
get_next_wake_time_unlocked m q = do t ← peek_next_task_unlocked m q; returns t.task.target_time

-- The observers of the subsumed queues, in the order of the set and of each map.
unfoldable pub observers_of : Entries → List ℕ → Outcome (List Closure)
observers_of m [] = returns []
observers_of m (x ∷ xs) = do
  e ← at m x
  rest ← observers_of m xs
  returns (map (λ o. o.1) e.task_observers ++ rest)

unfoldable pub get_observers_to_notify : Entries → ℕ → Outcome (List Closure)
get_observers_to_notify m q = do
  e ← at m q
  if is_subsumed e
      then returns []
      else do rest ← observers_of m e.owner_of; returns (map (λ o. o.1) e.task_observers ++ rest)

unfoldable pub owns : Entries → ℕ → ℕ → Outcome Bool
owns m owner subsumed =
    if owner == unmerged || subsumed == unmerged
    then returns false
    else do e ← at m owner; returns (contains subsumed e.owner_of)

unfoldable pub get_subsumed_task_queue_id : Entries → ℕ → Outcome (List ℕ)
get_subsumed_task_queue_id m owner = do e ← at m owner; returns e.owner_of
