-- ===== src/MessageLoopImpl/Flush.antt =====
-- `FlushTasks`: which tasks it runs and in which order, and that it comes to its end.
use mathlib.Core.List.Perm
use mathlib.Core.List.{append-nil, append_assoc}
use environment_check.Prelude.{
  ℕ, zero, suc, ◌<◌, ◌≡◌, refl, sym, ap, ◌∙◌, none, some, true, false, List, [], ◌∷◌, ◌++◌, inl,
  inr, Perm, All, All-perm, is_some, length, length-perm, map, arith,
}
use environment_check.Outcome.{returns}
use environment_check.DelayedTask.{DelayedTask, Closure, TimePoint, ◌>◌}
use environment_check.DelayedTask.Heap.{IsHeap}
use environment_check.TaskQueues.Consistent.{offered}
use environment_check.MessageLoopImpl.{
  MessageLoopImpl, Loop, Event, ran, notified, invoke, notify_all, turn, flush_tasks, all,
}
use environment_check.MessageLoopImpl.Due.{due, IsReady, get_observers_lem, get_next-cases}

-- The tasks that a loop has due at `now`.
abbrev pub due_of : TimePoint → MessageLoopImpl → List DelayedTask
due_of now l = due now (offered l.task_queue.queue_entries l.queue_id)

-- The closures of tasks among the calls that were made.
abbrev pub tasks_run : List Event → List Closure
tasks_run [] = []
tasks_run (ran c ∷ es) = some c ∷ tasks_run es
tasks_run (notified c ∷ es) = tasks_run es

tasks_run-append : (es fs : List Event) → tasks_run (es ++ fs) ≡ tasks_run es ++ tasks_run fs
tasks_run-append [] fs = refl
tasks_run-append (ran c ∷ es) fs = ap (◌∷◌ (some c)) (tasks_run-append es fs)
tasks_run-append (notified c ∷ es) fs = tasks_run-append es fs

-- What the code of a closure may do: it returns, it leaves the loop with the same queue and ready,
-- the same tasks are due as before, so that what it posts is for later, and a loop that is
-- terminated stays so.
abbrev pub Keeps : TimePoint → MessageLoopImpl → MessageLoopImpl → Type 0
Keeps now l l' =
    (l'.queue_id ≡ l.queue_id)
    × IsReady l'.queue_id l'.task_queue
    × Perm (due_of now l') (due_of now l)
    × (l.terminated ≡ true → l'.terminated ≡ true)

abbrev pub IsQuiet : (ℕ → Loop (Unit {0})) → TimePoint → Type 0
IsQuiet execute now =
    (c : ℕ) (l : MessageLoopImpl)
    → IsReady l.queue_id l.task_queue
    → (l' : MessageLoopImpl) × (execute c l ≡ (returns tt, l')) × Keeps now l l'

module _ (execute : ℕ → Loop (Unit {0})) (now : TimePoint) (quiet : IsQuiet execute now) where
  -- A call of a closure that is there.
  invoke_lem :
      (event : ℕ → Event) (c : ℕ) (l : MessageLoopImpl)
      → IsReady l.queue_id l.task_queue
      → (l' : MessageLoopImpl) × (invoke execute event (some c) l ≡ (returns tt, l'))
        × Keeps now l l'
        × (l'.invoked ≡ l.invoked ++ event c ∷ [])
  unfolding invoke
  invoke_lem event c l v =
      let (l', eq, (same, ready, perm, ended)) = quiet c l v in
      (record l' { invoked = l.invoked ++ event c ∷ [] }, rw eq, (same, ready, perm, ended), refl)

  Keeps-trans : (a b c : MessageLoopImpl) → Keeps now a b → Keeps now b c → Keeps now a c
  Keeps-trans a b c (i, v, p, f) (j, w, r, g) = (j ∙ i, w, Perm.trans r p, λ t. g (f t))

  notify_all_lem :
      (os : List Closure) (l : MessageLoopImpl)
      → All (λ o. is_some o ≡ true) os
      → IsReady l.queue_id l.task_queue
      → (l' : MessageLoopImpl) × (es : List Event) × (notify_all execute os l ≡ (returns tt, l'))
        × Keeps now l l'
        × (l'.invoked ≡ l.invoked ++ es)
        × (tasks_run es ≡ [])
  unfolding notify_all
  notify_all_lem [] l h v = (l, [], refl, (refl, v, Perm.refl _, λ t. t), sym (append-nil _), refl)
  notify_all_lem (none ∷ os) l (h, hs) v = cc
  notify_all_lem (some c ∷ os) l (h, hs) v =
      let (l1, eq, (same, ready, perm, ended), log) = invoke_lem notified c l v in
      let (l2, es, eq', keeps', log', none_run) = notify_all_lem os l1 hs ready in
      (
        l2,
        notified c ∷ es,
        rw eq eq',
        Keeps-trans l l1 l2 (same, ready, perm, ended) keeps',
        log' ∙ ap (λ xs. xs ++ es) log ∙ append_assoc l.invoked (notified c ∷ []) es,
        none_run,
      )

  -- The turn of the loop that runs a task, up to the test of the type.
  turn_lem :
      (c : ℕ) (l : MessageLoopImpl)
      → IsReady l.queue_id l.task_queue
      → (l' : MessageLoopImpl) × (es : List Event) × (turn execute (some c) l ≡ (returns tt, l'))
        × Keeps now l l'
        × (l'.invoked ≡ l.invoked ++ es)
        × (tasks_run es ≡ some c ∷ [])
  unfolding turn
  turn_lem c l v =
      let (l1, eq, (same, ready, perm, ended), log) = invoke_lem ran c l v in
      let (os, observers, present) = get_observers_lem l1.queue_id l1.task_queue ready in
      let (l2, es, eq', keeps', log', none_run) = notify_all_lem os l1 present ready in
      (
        l2,
        ran c ∷ es,
        rw (eq, observers) eq',
        Keeps-trans l l1 l2 (same, ready, perm, ended) keeps',
        log' ∙ ap (λ xs. xs ++ es) log ∙ append_assoc l.invoked (ran c ∷ []) es,
        ap (◌∷◌ (some c)) none_run,
      )

  -- What a flush does that comes to its end.
  abbrev pub Flushes : ℕ → ℕ → MessageLoopImpl → Type 0
  Flushes thread fuel l =
      (l' : MessageLoopImpl) × (es : List Event) × (ts : List DelayedTask) × (flush_tasks execute
          thread now all fuel l
        ≡ (returns true, l'))
      × (l'.invoked ≡ l.invoked ++ es)
      × (tasks_run es ≡ map (λ t. t.task) ts)
      × Perm ts (due_of now l)
      × IsHeap ts
      × (due_of now l' ≡ [])
      × (l'.queue_id ≡ l.queue_id)
      × IsReady l'.queue_id l'.task_queue
      × (l.terminated ≡ true → l'.terminated ≡ true)

  -- `FlushTasks` with `kAll` on a loop that is ready, with closures that keep to that and post
  -- nothing that is due: with more turns than tasks are due it comes to its end. It has run exactly
  -- the tasks that were due at its start, each once and none before one that is due earlier, and no
  -- task is due any more.
  pub flush_all :
      (thread fuel : ℕ) (l : MessageLoopImpl)
      → IsReady l.queue_id l.task_queue
      → length (due_of now l) < fuel
      → Flushes thread fuel l
  unfolding flush_tasks
  flush_all thread zero l v room = absurd (omega (arith, room))
  flush_all thread (suc fuel) l v room =
      elim (get_next-cases l.queue_id l.task_queue v thread now) [
        | inl (s, eq, ready, none_due, none_left) ↦ (
          record l { task_queue = s },
          [],
          [],
          rw eq,
          sym (append-nil _),
          refl,
          rw none_due (Perm.refl _),
          tt,
          none_left,
          refl,
          ready,
          λ t. t,
        )
        | inr (t, c, s, task, eq, ready, first, perm) ↦
            let (l1, es, eq1, (same, ready1, perm1, ended1), log, ran_t) =
              turn_lem c (record l { task_queue = s }) ready in
            let (first_t, behind) = All-perm (λ x. t > x) false (Perm.symm perm) first in
            let shorter = length-perm perm1 in
            let (l2, es', ts, eq2, log', ran_ts, perm2, heap, none_left, same', ready2, ended2) =
              flush_all thread fuel l1 ready1 (omega (arith, shorter, length-perm perm, room)) in
            (
              l2,
              es ++ es',
              t ∷ ts,
              rw (eq, eq1) eq2,
              log' ∙ ap (λ xs. xs ++ es') log ∙ append_assoc l.invoked es es',
              tasks_run-append es es' ∙ rw (ran_t, task, ran_ts),
              Perm.trans (Perm.cons t (Perm.trans perm2 perm1)) perm,
              (All-perm (λ x. t > x) false (Perm.symm (Perm.trans perm2 perm1)) behind, heap),
              none_left,
              same' ∙ same,
              ready2,
              λ t. ended2 (ended1 t),
            )
      ]
