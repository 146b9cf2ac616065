-- ===== src/TaskQueues/Run.antt =====
-- Histories of the public methods of `MessageLoopTaskQueues` that change its state, each under
-- `queue_mutex_`, in the order in which the threads get the mutex.
use environment_check.Prelude.{
  ℕ, ◌+◌, ◌^◌, ◌<◌, ◌≡◌, refl, ap, Option, some, true, false, List, [], ◌∷◌, inl, inr, is_nil,
  Bool-cases, arith,
}
use mathlib.Core.Path.{subst}
use environment_check.DelayedTask.{Closure, TimePoint, TaskSourceGrade}
use environment_check.TaskQueues.Entries.{TaskQueueEntry, is_subsumed}
use environment_check.TaskQueues.State.{
  MessageLoopTaskQueues, new_queues, create_task_queue, dispose, dispose_tasks, register_task,
  get_next_task_to_run, add_task_observer, remove_task_observer, set_wakeable,
}
use environment_check.TaskQueues.Merging.{
  merge, unmerge, pause_secondary_source, resume_secondary_source,
}
use environment_check.TaskQueues.Consistent.{IsOwnerOf}
use environment_check.TaskQueues.Invariant.{Inv, create-Inv}
use environment_check.TaskQueues.Methods.{register_task-Inv, get_next_task_to_run-Inv, dispose-Inv}
use environment_check.TaskQueues.Sources.{
  dispose_tasks-Inv, add_task_observer-Inv, remove_task_observer-Inv, set_wakeable-Inv,
  pause_secondary_source-Inv, resume_secondary_source-Inv,
}
use environment_check.TaskQueues.Merges.{merge-Inv, unmerge-Inv}

pub data Call : Type 0 where
  creates : Call
  disposes disposes_tasks pauses resumes : ℕ → Call
  registers : ℕ → Closure → TimePoint → TaskSourceGrade → Call
  -- The calling thread, the queue, and the time.
  takes : ℕ → ℕ → TimePoint → Call
  adds_observer : ℕ → ℕ → Closure → Call
  removes_observer : ℕ → ℕ → Call
  sets_wakeable : ℕ → Option ℕ → Call
  merges unmerges : ℕ → ℕ → Call

-- A method that throws keeps what it wrote, and the history goes on.
unfoldable pub step : MessageLoopTaskQueues → Call → MessageLoopTaskQueues
step s creates = (create_task_queue s).1
step s (disposes q) = (dispose q s).1
step s (disposes_tasks q) = (dispose_tasks q s).1
step s (pauses q) = (pause_secondary_source q s).1
step s (resumes q) = (resume_secondary_source q s).1
step s (registers q task time grade) = (register_task q task time grade s).1
step s (takes thread q from_time) = (get_next_task_to_run thread q from_time s).1
step s (adds_observer q key callback) = (add_task_observer q key callback s).1
step s (removes_observer q key) = (remove_task_observer q key s).1
step s (sets_wakeable q wakeable) = (set_wakeable q wakeable s).1
step s (merges owner subsumed) = (merge owner subsumed s).1
step s (unmerges owner subsumed) = (unmerge owner subsumed s).1

unfoldable pub run : MessageLoopTaskQueues → List Call → MessageLoopTaskQueues
unfolding step
run s [] = s
run s (c ∷ cs) = run (step s c) cs

-- How many queues a call makes.
abbrev pub creations : Call → ℕ
creations creates = 1
creations _ = 0

abbrev pub creations_of : List Call → ℕ
creations_of [] = 0
creations_of (c ∷ cs) = creations c + creations_of cs

-- A call that makes no queue.
stay : {k : ℕ} {s : MessageLoopTaskQueues} → Inv k s → Inv (k + 0) s
stay {k} {s} v = subst (λ j. Inv j s) (omega arith) v

step-Inv :
    {k : ℕ} {s : MessageLoopTaskQueues} (c : Call)
    → Inv k s
    → k + creations c < 2 ^ 64
    → Inv (k + creations c) (step s c)
unfolding step
step-Inv creates v room = create-Inv v room
step-Inv {k} {s} (disposes q) v room = stay (dispose-Inv v q)
step-Inv {k} {s} (disposes_tasks q) v room = stay (dispose_tasks-Inv v q)
step-Inv {k} {s} (pauses q) v room = stay (pause_secondary_source-Inv v q)
step-Inv {k} {s} (resumes q) v room = stay (resume_secondary_source-Inv v q)
step-Inv {k} {s} (registers q task time grade) v room = stay (register_task-Inv v q task time grade)
step-Inv {k} {s} (takes thread q time) v room = stay (get_next_task_to_run-Inv v q thread time)
step-Inv {k} {s} (adds_observer q key f) v room = stay (add_task_observer-Inv v q key f)
step-Inv {k} {s} (removes_observer q key) v room = stay (remove_task_observer-Inv v q key)
step-Inv {k} {s} (sets_wakeable q w) v room = stay (set_wakeable-Inv v q w)
step-Inv {k} {s} (merges o q) v room = stay (merge-Inv v o q)
step-Inv {k} {s} (unmerges o q) v room = stay (unmerge-Inv v o q)

run-keeps :
    (cs : List Call) {k : ℕ} {s : MessageLoopTaskQueues}
    → Inv k s
    → k + creations_of cs < 2 ^ 64
    → Inv (k + creations_of cs) (run s cs)
unfolding run
run-keeps [] {k} {s} v room = subst (λ j. Inv j s) (omega arith) v
run-keeps (c ∷ cs) {k} {s} v room =
    subst (λ j. Inv j (run (step s c) cs)) (omega arith)
      (run-keeps cs {k = k + creations c} {s = step s c} (step-Inv c v (omega arith)) (omega arith))

new_queues-Inv : (thread : ℕ) → Inv 0 (new_queues thread)
new_queues-Inv thread = record {
  consistent = record { at = λ q e h. cc };
  below = λ q e h. cc;
  created = refl;
  fits = omega arith;
}

-- After any calls of the public methods, in any order, with any queue ids, and whether they return
-- or throw: each queue has a sound source, ids are those below the number of queues made, an owner
-- is not subsumed, it owns exactly the queues that name it, and each of these is there. That holds
-- as long as fewer than 2 ^ 64 queues are made.
pub run-Inv :
    (thread : ℕ) (calls : List Call)
    → creations_of calls < 2 ^ 64
    → Inv (creations_of calls) (run (new_queues thread) calls)
run-Inv thread calls room =
    subst (λ j. Inv j (run (new_queues thread) calls)) (omega arith)
      (run-keeps calls (new_queues-Inv thread) (omega arith))

-- The state of a queue, as the comment in the header lists them.
pub data QueueState (m : ℕ → Option TaskQueueEntry) (q : ℕ) (e : TaskQueueEntry) : Type 0 where
  owns_others : is_subsumed e ≡ false → is_nil e.owner_of ≡ false → QueueState m q e
  subsumed :
      is_subsumed e ≡ true
      → is_nil e.owner_of ≡ true
      → IsOwnerOf m e.subsumed_by q
      → QueueState m q e
  independent : is_subsumed e ≡ false → is_nil e.owner_of ≡ true → QueueState m q e

-- After any calls each queue is in one of the three states of the comment in the header: an owner
-- that is not subsumed, subsumed by an owner that is there and has it in its set, or independent.
run-QueueState :
    (thread : ℕ) (calls : List Call) (q : ℕ) (e : TaskQueueEntry)
    → creations_of calls < 2 ^ 64
    → (run (new_queues thread) calls).queue_entries q ≡ some e
    → QueueState (run (new_queues thread) calls).queue_entries q e
run-QueueState thread calls q e room h =
    let s = (run-Inv thread calls room).consistent.at q e h in
    elim (Bool-cases (is_subsumed e)) [
      | inl u ↦ subsumed u (ap is_nil (s.exclusive u)) (s.owner u)
      | inr u ↦ elim (Bool-cases (is_nil e.owner_of)) [
        | inl n ↦ independent u n
        | inr n ↦ owns_others u n
      ]
    ]
