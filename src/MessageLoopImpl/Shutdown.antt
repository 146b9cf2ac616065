-- ===== src/MessageLoopImpl/Shutdown.antt =====
-- How a loop ends: `DoRun` after `Run` has returned, and `PostTask` from then on.
use environment_check.Prelude.{
  ℕ, ◌<◌, ◌≡◌, ◌∙◌, refl, ap, Option, none, some, Bool, true, false, List, [], ◌++◌, inl, inr, Perm,
  length, map, if◌then◌else◌, ==_iff,
}
use environment_check.Outcome.{returns, fails, check_failed}
use environment_check.DelayedTask.{DelayedTask, TimePoint}
use environment_check.DelayedTask.Heap.{IsHeap}
use environment_check.TaskQueues.Entries.{TaskQueueEntry, is_subsumed}
use environment_check.TaskQueues.Consistent.{offered, offered-subsumed}
use environment_check.TaskQueues.DisposedTasks.{emptied, dispose_tasks_outcome}
use environment_check.MessageLoopImpl.{MessageLoopImpl, Loop, Event, do_run, post_task}
use environment_check.MessageLoopImpl.Due.{IsReady}
use environment_check.MessageLoopImpl.Flush.{due_of, tasks_run, IsQuiet, flush_all}

-- A terminated loop drops what is posted.
pub post-terminated :
    (l : MessageLoopImpl) (c : ℕ) (time : TimePoint)
    → l.terminated ≡ true
    → post_task (some c) time l ≡ (returns tt, l)
unfolding post_task
post-terminated l c time h = rw h

abbrev subsumed_entry : Option TaskQueueEntry → Bool
subsumed_entry none = false
subsumed_entry (some e) = is_subsumed e

-- Whether the queue of a loop is subsumed by another.
abbrev pub is_loop_subsumed : MessageLoopImpl → Bool
is_loop_subsumed l = subsumed_entry (l.task_queue.queue_entries l.queue_id)

abbrev pub Ends :
    (ℕ → Loop (Unit {0}))
    → TimePoint
    → Loop (Unit {0})
    → ℕ
    → ℕ
    → MessageLoopImpl
    → MessageLoopImpl
    → Type 0
Ends execute now run thread fuel l l1 =
    (l' : MessageLoopImpl) × (es : List Event) × (ts : List DelayedTask) × (do_run execute run
        thread now fuel l
      ≡ (if is_loop_subsumed l' then fails check_failed else returns true, l'))
    × (offered l'.task_queue.queue_entries l'.queue_id ≡ [])
    × (l'.invoked ≡ l1.invoked ++ es)
    × (tasks_run es ≡ map (λ t. t.task) ts)
    × Perm ts (due_of now l1)
    × IsHeap ts
    × ((c : ℕ) (time : TimePoint) → post_task (some c) time l' ≡ (returns tt, l'))

-- `DoRun` of a loop that is not terminated, where `Run` returns and leaves it ready, and closures
-- post nothing that is due: the tasks that are due then are run, each once and in order. After that
-- it fails a check exactly if the queue of the loop is subsumed then, else it returns; in both cases
-- that queue offers no task. From then on `PostTask` changes nothing.
pub do_run-Ends :
    (execute : ℕ → Loop (Unit {0})) (now : TimePoint) (run : Loop (Unit {0})) (thread fuel : ℕ)
    (l l1 : MessageLoopImpl)
    → IsQuiet execute now
    → l.terminated ≡ false
    → run l ≡ (returns tt, l1)
    → IsReady l1.queue_id l1.task_queue
    → length (due_of now l1) < fuel
    → Ends execute now run thread fuel l l1
unfolding do_run
do_run-Ends execute now run thread fuel l l1 quiet live returned ready room =
    let set : MessageLoopImpl = record l1 { terminated = true } in
    let (l2, es, ts, eq, log, ran, perm, heap, none_left, same, ready2, ended) =
      flush_all execute now quiet thread fuel set
        (record {
          consistent = ready.consistent;
          entry = ready.entry;
          found = ready.found;
          closures = ready.closures;
          observers = ready.observers;
        })
        room in
    elim (dispose_tasks_outcome l2.task_queue l2.queue_id ready2.entry ready2.consistent
      ready2.found) [
        | inl (u, failed) ↦
            let sub : is_loop_subsumed l2 ≡ true = ap subsumed_entry ready2.found ∙ u in
            (
              l2,
              es,
              ts,
              rw sub (simp (live, returned, eq, failed)),
              offered-subsumed l2.task_queue.queue_entries l2.queue_id ready2.entry ready2.found u,
              log,
              ran,
              perm,
              heap,
              λ c time. post-terminated l2 c time (ended refl),
            )
        | inr (u, s, dropped, at, empty, _) ↦
            let l' : MessageLoopImpl = record l2 { task_queue = s } in
            let own : s.queue_entries l2.queue_id ≡ some (emptied ready2.entry) =
              at l2.queue_id ∙ rw ((==_iff l2.queue_id l2.queue_id).1 refl, ready2.found) in
            let free : is_loop_subsumed l' ≡ false = ap subsumed_entry own ∙ u in
            (
              l',
              es,
              ts,
              rw free (simp (live, returned, eq, dropped)),
              empty,
              log,
              ran,
              perm,
              heap,
              λ c time. post-terminated l' c time (ended refl),
            )
      ]
