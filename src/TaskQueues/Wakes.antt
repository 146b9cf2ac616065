-- ===== src/TaskQueues/Wakes.antt =====
-- When the methods of `MessageLoopTaskQueues` wake a loop, and for what time.
use environment_check.Prelude.{
  ℕ, ◌≡◌, refl, Option, none, some, List, [], ◌∷◌, ◌++◌, ◌⊎◌, is_nil, nil_of_is_nil, Bool-cases,
  inl, inr,
}
use environment_check.Outcome.{returns}
use environment_check.DelayedTask.{TimePoint}
use environment_check.TaskSource.{TopTask}
use environment_check.TaskQueues.Entries.{Entries, TaskQueueEntry}
use environment_check.TaskQueues.Reads.{peek_next_task_unlocked, get_next_wake_time_unlocked}
use environment_check.TaskQueues.State.{
  MessageLoopTaskQueues, wake_up_unlocked, wake, wake_if_pending,
}
use environment_check.TaskQueues.Consistent.{IsConsistent, offered}
use environment_check.TaskQueues.Pending.{has_pending-offered}
use environment_check.TaskQueues.Peek.{IsNext, peek-IsNext, pending_checked}

-- The calls of `WakeUp` that a loop with the wakeable `w` gets for the time `time`.
abbrev pub wake_call : Option ℕ → TimePoint → List (ℕ × TimePoint)
wake_call none time = []
wake_call (some w) time = (w, time) ∷ []

abbrev pub woken : MessageLoopTaskQueues → List (ℕ × TimePoint) → MessageLoopTaskQueues
woken s ws = record s { wakes = ws ++ s.wakes }

-- The wake-ups of a loop that is woken for its next task, if it has one.
abbrev pub WakesFor : Entries → ℕ → TaskQueueEntry → List (ℕ × TimePoint) → Type 0
WakesFor m q e ws =
    ((offered m q ≡ []) × (ws ≡ []))
    ⊎ ((t : TopTask) × IsNext m q e.owner_of t × (ws ≡ wake_call e.wakeable t.task.target_time))

module _ (s : MessageLoopTaskQueues) (q : ℕ) (e : TaskQueueEntry)
    (h : s.queue_entries q ≡ some e) where
  wake-wakes :
      (w : Option ℕ) (time : TimePoint) → wake w time s ≡ (returns tt, woken s (wake_call w time))
  unfolding wake
  wake-wakes none time = refl
  wake-wakes (some w) time = refl

  pub wake_up-wakes :
      (time : TimePoint)
      → wake_up_unlocked q time s ≡ (returns tt, woken s (wake_call e.wakeable time))
  unfolding wake_up_unlocked
  wake_up-wakes time = rw h (wake-wakes e.wakeable time)

  module _ (v : IsConsistent s.queue_entries) where
    pub next_wake-wakes :
        (t : TopTask)
        → peek_next_task_unlocked s.queue_entries q ≡ returns t
        → get_next_wake_time_unlocked s.queue_entries q ≡ returns t.task.target_time
    unfolding get_next_wake_time_unlocked
    next_wake-wakes t p = rw p

    -- The wake-up touches nothing but the log of wake-ups.
    pub wake_if_pending-WakesFor :
        (ws : List (ℕ × TimePoint)) × (wake_if_pending q s ≡ (returns tt, woken s ws))
        × WakesFor s.queue_entries q e ws
    unfolding wake_if_pending
    wake_if_pending-WakesFor = elim (Bool-cases (is_nil (offered s.queue_entries q))) [
      | inl n ↦ ([], rw (has_pending-offered q e v h, n), inl (nil_of_is_nil _ n, refl))
      | inr n ↦
          let (t, p, next) = peek-IsNext q e v h n in
          (
            wake_call e.wakeable t.task.target_time,
            rw (pending_checked q e v h n, next_wake-wakes t p) (wake_up-wakes t.task.target_time),
            inr (t, next, refl),
          )
    ]
