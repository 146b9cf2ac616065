-- ===== src/ConcurrentMessageLoop.antt =====
-- app/src/main/cpp/concurrent_message_loop.h and concurrent_message_loop.cc: a pool of workers that
-- share a queue of tasks. What a thread does under `tasks_mutex_` is one step; between two steps of
-- one thread any thread may make steps. A worker that finds nothing to do falls asleep, and only a
-- notification or a spurious wake-up lets it go on.
pub mod Taking
pub mod Balance
pub mod Account
pub mod Stopping
pub mod LeftBehind
use environment_check.Prelude.{
  set_at, ℕ, zero, suc, ◌+◌, ◌<◌, ◌≡◌, Option, none, some, Bool, true, false, List, [], ◌∷◌, ◌++◌,
  ◌==◌, ◌||◌, not, is_nil, is_some, if◌then◌else◌,
}
use environment_check.Outcome.{returns, check}
use environment_check.Exec.{Exec, pure, lift, reads, modify, ◌>>=◌, ◌>>◌}
use environment_check.DelayedTask.{Closure}

-- `tasks` is a `std::queue`, its front first. A thread id is only compared; the worker with the
-- number w has the id w. `thread_tasks` is a `std::map`, `none` on a missing key.
pub record ConcurrentMessageLoop : Type 0 where
  pub worker_count : ℕ
  pub tasks : List ℕ
  pub worker_thread_ids : List ℕ
  pub thread_tasks : ℕ → Option (List ℕ)
  pub shutdown : Bool

abbrev pub ids_from : ℕ → ℕ → List ℕ
ids_from id zero = []
ids_from id (suc n) = id ∷ ids_from (suc id) n

unfoldable pub at_least_one : ℕ → ℕ
at_least_one n = if n == 0 then 1 else n

-- The constructor with the number of workers that is asked for.
unfoldable pub new_concurrent_loop : ℕ → ConcurrentMessageLoop
unfolding at_least_one
new_concurrent_loop n = record {
  worker_count = at_least_one n;
  tasks = [];
  worker_thread_ids = ids_from 0 (at_least_one n);
  thread_tasks = λ _. none;
  shutdown = false;
}

-- `PostTask`; the result is the closure that it calls itself, on the caller's thread.
unfoldable pub post_task : Closure → ConcurrentMessageLoop → Closure × ConcurrentMessageLoop
post_task none l = (none, l)
post_task (some c) l =
    if l.shutdown then (some c, l) else (none, record l { tasks = l.tasks ++ c ∷ [] })

-- `ConcurrentTaskRunner::PostTask`; `none` is a loop that the weak pointer no longer has.
unfoldable pub runner_post_task :
    Closure → Option ConcurrentMessageLoop → Closure × Option ConcurrentMessageLoop
unfolding post_task
runner_post_task none loop = (none, loop)
runner_post_task (some c) none = (some c, none)
runner_post_task (some c) (some l) = let r = post_task (some c) l in (r.0, some r.1)

unfoldable pub terminate : ConcurrentMessageLoop → ConcurrentMessageLoop
terminate l = record l { shutdown = true }

abbrev pub or_empty : Option (List ℕ) → List ℕ
or_empty none = []
or_empty (some cs) = cs

-- `thread_tasks_[id].emplace_back(task)` for each id.
unfoldable pub emplace_each : ℕ → List ℕ → (ℕ → Option (List ℕ)) → ℕ → Option (List ℕ)
emplace_each c [] m = m
emplace_each c (id ∷ ids) m = emplace_each c ids (set_at id (some (or_empty (m id) ++ c ∷ [])) m)

unfoldable pub post_task_to_all_workers : Closure → ConcurrentMessageLoop → ConcurrentMessageLoop
post_task_to_all_workers none l = l
post_task_to_all_workers (some c) l = record l {
  thread_tasks = emplace_each c l.worker_thread_ids l.thread_tasks;
}

-- `id` is the id of the thread that calls.
unfoldable pub has_thread_tasks_locked : ℕ → ConcurrentMessageLoop → Bool
has_thread_tasks_locked id l = is_some (l.thread_tasks id)

unfoldable pub get_thread_tasks_locked : ℕ → Exec ConcurrentMessageLoop (List ℕ)
get_thread_tasks_locked id = do
  found ← reads (λ l. returns (l.thread_tasks id))
  lift (check (is_some found))
  modify (λ l. record l { thread_tasks = set_at id none l.thread_tasks })
  pure (or_empty found)

-- The condition on which a worker waits.
unfoldable pub may_wake : ℕ → ConcurrentMessageLoop → Bool
may_wake id l = not (is_nil l.tasks) || l.shutdown || has_thread_tasks_locked id l

abbrev pub front : List ℕ → Closure
front [] = none
front (c ∷ cs) = some c

abbrev pub rest_of : List ℕ → List ℕ
rest_of [] = []
rest_of (c ∷ cs) = cs

unfoldable pub take_thread_tasks : ℕ → Exec ConcurrentMessageLoop (List ℕ)
unfolding has_thread_tasks_locked get_thread_tasks_locked
take_thread_tasks id = do
  has ← reads (λ l. returns (has_thread_tasks_locked id l))
  if has
      then (do
        thread_tasks ← get_thread_tasks_locked id
        still ← reads (λ l. returns (has_thread_tasks_locked id l))
        lift (check (not still))
        pure thread_tasks)
      else pure []

-- What a worker does from the end of its wait to the unlock: the task, the thread tasks, and
-- whether the loop is shut down.
unfoldable pub take_work : ℕ → Exec ConcurrentMessageLoop (Closure × List ℕ × Bool)
unfolding take_thread_tasks
take_work id = do
  shutdown_now ← reads (λ l. returns l.shutdown)
  task ← reads (λ l. returns (front l.tasks))
  modify (λ l. record l { tasks = rest_of l.tasks })
  thread_tasks ← take_thread_tasks id
  pure (task, thread_tasks, shutdown_now)

-- Where a worker stands: at its wait, with closures to call and what it read of the shutdown, or
-- past its loop.
pub data Worker : Type 0 where
  waiting : Worker
  running : List ℕ → Bool → Worker
  ended : Worker

-- `asleep` are the workers that wait for a notification; `notifications` counts the calls of
-- `PostTask` that have unlocked the mutex and not yet called `notify_one`.
pub record Pool : Type 0 where
  pub loop : ConcurrentMessageLoop
  pub workers : ℕ → Worker
  pub asleep : ℕ → Bool
  pub notifications : ℕ

abbrev pub none_asleep : ℕ → Bool
none_asleep w = false

abbrev pub with_task : Closure → List ℕ → List ℕ
with_task none cs = cs
with_task (some c) cs = c ∷ cs

abbrev pub after_turn : Bool → Worker
after_turn true = ended
after_turn false = waiting

pub data Event : Type 0 where
  posted ran_on_caller sent : ℕ → Event
  terminated : Event
  -- The worker, the task and the thread tasks.
  took : ℕ → Closure → List ℕ → Event
  called : ℕ → ℕ → Event
  turned : ℕ → Event
  -- `notify_one`, and a worker that begins to wait or wakes up for no reason.
  notified_one : Event
  slept woke : ℕ → Event

-- One step of some thread. A closure that runs may itself make the first four.
pub data Step (p : Pool) : Event → Pool → Type 0 where
  posts :
      (c : ℕ) (l : ConcurrentMessageLoop)
      → post_task (some c) p.loop ≡ (none, l)
      → Step p (posted c) (record p { loop = l; notifications = suc p.notifications })
  runs_on_caller :
      (c d : ℕ) (l : ConcurrentMessageLoop)
      → post_task (some c) p.loop ≡ (some d, l)
      → Step p (ran_on_caller d) (record p { loop = l })
  sends :
      (c : ℕ)
      → Step p
          (sent c)
          (record p { loop = post_task_to_all_workers (some c) p.loop; asleep = none_asleep })
  terminates : Step p terminated (record p { loop = terminate p.loop; asleep = none_asleep })
  -- One of the workers that are asleep wakes up, if there is one.
  notifies :
      (v n : ℕ)
      → p.notifications ≡ suc n
      → ((w : ℕ) → p.asleep w ≡ true → p.asleep v ≡ true)
      → Step p notified_one (record p { asleep = set_at v false p.asleep; notifications = n })
  sleeps :
      (w : ℕ)
      → w < p.loop.worker_count
      → p.workers w ≡ waiting
      → p.asleep w ≡ false
      → may_wake w p.loop ≡ false
      → Step p (slept w) (record p { asleep = set_at w true p.asleep })
  wakes :
      (w : ℕ) → p.asleep w ≡ true → Step p (woke w) (record p { asleep = set_at w false p.asleep })
  takes :
      (w : ℕ) (task : Closure) (cs : List ℕ) (stop : Bool) (l : ConcurrentMessageLoop)
      → w < p.loop.worker_count
      → p.workers w ≡ waiting
      → p.asleep w ≡ false
      → may_wake w p.loop ≡ true
      → take_work w p.loop ≡ (returns (task, cs, stop), l)
      → Step p
          (took w task cs)
          (record p { loop = l; workers = set_at w (running (with_task task cs) stop) p.workers })
  calls :
      (w c : ℕ) (cs : List ℕ) (stop : Bool)
      → w < p.loop.worker_count
      → p.workers w ≡ running (c ∷ cs) stop
      → Step p (called w c) (record p { workers = set_at w (running cs stop) p.workers })
  turns :
      (w : ℕ) (stop : Bool)
      → w < p.loop.worker_count
      → p.workers w ≡ running [] stop
      → Step p (turned w) (record p { workers = set_at w (after_turn stop) p.workers })

-- A history, its last step last.
pub data Steps (p : Pool) : List Event → Pool → Type 0 where
  start : Steps p [] p
  then_step :
      (es : List Event) (e : Event) (q r : Pool)
      → Steps p es q
      → Step q e r
      → Steps p (es ++ e ∷ []) r

abbrev pub new_pool : ℕ → Pool
new_pool n = record {
  loop = new_concurrent_loop n;
  workers = λ _. waiting;
  asleep = none_asleep;
  notifications = 0;
}
