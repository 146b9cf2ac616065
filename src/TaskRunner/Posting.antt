-- ===== src/TaskRunner/Posting.antt =====
-- What RunNowOrPostTask does with a task.
use environment_check.Prelude.{
  ℕ, ◌≡◌, ◌⊎◌, some, Bool, true, false, ◌∷◌, ◌==◌, ◌||◌, Bool-cases, inl, inr, Perm, set_at,
}
use environment_check.Outcome.{returns}
use environment_check.Exec.{Exec}
use environment_check.DelayedTask.{TimePoint, unspecified}
use environment_check.TaskQueues.Entries.{TaskQueueEntry}
use environment_check.TaskQueues.Wakes.{woken}
use environment_check.TaskQueues.Consistent.{IsConsistent, offered}
use environment_check.TaskQueues.Register.{register_task-offered, registered, loop_of, new_task}
use environment_check.MessageLoopImpl as MessageLoopImpl
use environment_check.MessageLoopImpl.{MessageLoopImpl}
use environment_check.MessageLoop.{Program, is_initialized, get_current, get_current_task_queue_id}
use environment_check.TaskRunner.{
  runs_tasks_on_current_thread, get_task_queue_id, post_task, run_now_or_post_task,
}
use environment_check.TaskRunner.Threads.{runs_on_the_same_thread-subsumed_by}

-- Whether a queue is another, or one is subsumed by the other.
abbrev pub joined : ℕ → TaskQueueEntry → ℕ → TaskQueueEntry → Bool
joined a ea b eb = a == b || ((eb.subsumed_by == a) || (ea.subsumed_by == b))

-- The program after a task was posted: the loop that runs the queue offers it besides what it
-- offered before.
abbrev pub Posts : Program → Program → ℕ → TaskQueueEntry → ℕ → TimePoint → Type 0
Posts p p' q e c now =
    Perm (offered p'.queues.queue_entries (loop_of q e))
      (new_task p.queues (some c) now unspecified ∷ offered p.queues.queue_entries (loop_of q e))
    × IsConsistent p'.queues.queue_entries

pub current_queue :
    (p : Program) (thread : ℕ) (l : MessageLoopImpl)
    → p.tls_message_loop thread ≡ some l
    → get_current_task_queue_id thread p ≡ (returns l.queue_id, p)
unfolding get_current_task_queue_id get_current is_initialized
current_queue p thread l h = rw h (rw h)

module _ (p : Program) (thread runner : ℕ) (l r : MessageLoopImpl) (el er : TaskQueueEntry)
    (v : IsConsistent p.queues.queue_entries) (hl : p.tls_message_loop thread ≡ some l)
    (hr : p.tls_message_loop runner ≡ some r) (ql : p.queues.queue_entries l.queue_id ≡ some el)
    (qr : p.queues.queue_entries r.queue_id ≡ some er) where
  pub runs_tasks-joined :
      runs_tasks_on_current_thread runner thread p
      ≡ (returns (joined l.queue_id el r.queue_id er), p)
  unfolding runs_tasks_on_current_thread is_initialized get_task_queue_id
  runs_tasks-joined =
      rw (hl, current_queue p thread l hl)
        (rw (hr, runs_on_the_same_thread-subsumed_by v l.queue_id r.queue_id el er ql qr))

  post_task-offered :
      (c : ℕ) (now : TimePoint)
      → r.terminated ≡ false
      → (p' : Program) × (post_task runner (some c) now p ≡ (returns tt, p'))
        × Posts p p' r.queue_id er c now
  unfolding post_task MessageLoopImpl.post_task
  post_task-offered c now live =
      let (f, ws, eq, _, tasks, _, v') =
        register_task-offered p.queues r.queue_id er (some c) now unspecified v qr in
      let s' =
        woken (registered p.queues r.queue_id er (new_task p.queues (some c) now unspecified)) ws in
      (
        record {
          queues = s';
          tls_message_loop = set_at runner (some (record r { task_queue = s' })) p.tls_message_loop;
        },
        rw (hr, live, eq),
        (tasks, v'),
      )

-- RunNowOrPostTask, called on a thread that has a loop, with a runner whose loop is not terminated.
-- Where the queues of the two loops are the same, or one is subsumed by the other, it calls the
-- task at once and does nothing else; else it returns, the task joins what is offered by the loop
-- that runs the runner's queue, and the links stay consistent.
pub run_now_or_post_outcome :
    (execute : ℕ → Exec Program (Unit {0})) (p : Program) (thread runner c : ℕ) (now : TimePoint)
    (l r : MessageLoopImpl) (el er : TaskQueueEntry)
    → IsConsistent p.queues.queue_entries
    → p.tls_message_loop thread ≡ some l
    → p.tls_message_loop runner ≡ some r
    → p.queues.queue_entries l.queue_id ≡ some el
    → p.queues.queue_entries r.queue_id ≡ some er
    → r.terminated ≡ false
    → ((joined l.queue_id el r.queue_id er ≡ true)
        × (run_now_or_post_task execute (some runner) (some c) thread now p ≡ execute c p))
      ⊎ ((joined l.queue_id el r.queue_id er ≡ false)
          × ((p' : Program) × (run_now_or_post_task execute (some runner) (some c) thread now p
                ≡ (returns tt, p'))
              × Posts p p' r.queue_id er c now))
unfolding run_now_or_post_task
run_now_or_post_outcome execute p thread runner c now l r el er v hl hr ql qr live =
    let here = runs_tasks-joined p thread runner l r el er v hl hr ql qr in
    elim (Bool-cases (joined l.queue_id el r.queue_id er)) [
      | inl y ↦ inl (y, rw (here, y))
      | inr n ↦
          let (p', eq, posts) =
            post_task-offered p thread runner l r el er v hl hr ql qr c now live in
          inr (n, (p', rw (here, n) eq, posts))
    ]
