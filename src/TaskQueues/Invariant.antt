-- ===== src/TaskQueues/Invariant.antt =====
-- What every method of `MessageLoopTaskQueues` keeps.
use environment_check.Prelude.{
  ℕ, ◌+◌, ◌^◌, ◌<◌, ◌≡◌, refl, sym, ap, ◌∙◌, Option, none, some, List, Option-cases, inl, inr,
  arith,
}
use mathlib.Core.Path.{subst}
use environment_check.Outcome.{Outcome, fails, out_of_range}
use environment_check.DelayedTask.{TaskSourceGrade, TimePoint}
use environment_check.TaskSource.{TaskSource}
use environment_check.TaskSource.Contents.{IsValid}
use environment_check.TaskQueues.Entries.{TaskQueueEntry, new_entry, update}
use environment_check.TaskQueues.State.{MessageLoopTaskQueues, create_task_queue, wake_if_pending}
use environment_check.TaskQueues.Reads.{has_pending_tasks_unlocked}
use environment_check.TaskQueues.Consistent.{IsConsistent}
use environment_check.TaskQueues.Links.{
  HasLinksOf, update-cases, update-IsConsistent, create-IsConsistent,
}
use environment_check.TaskQueues.Wakes.{wake_if_pending-WakesFor}

-- The links are consistent, and `k` queues were made: their ids, none `unmerged`, are those below k.
pub record Inv (k : ℕ) (s : MessageLoopTaskQueues) : Type 0 where
  pub consistent : IsConsistent s.queue_entries
  pub below : (q : ℕ) (e : TaskQueueEntry) → s.queue_entries q ≡ some e → q < k
  pub created : s.task_queue_id_counter ≡ k
  pub fits : k < 2 ^ 64

module _ {k : ℕ} {s : MessageLoopTaskQueues} (v : Inv k s) where
  -- A new value of an entry with the same links and a sound source.
  pub set-Inv :
      (q : ℕ) (e f : TaskQueueEntry)
      → s.queue_entries q ≡ some e
      → HasLinksOf e f
      → IsValid f.task_source
      → f.task_source.task_queue_id ≡ q
      → Inv k (record s { queue_entries = update s.queue_entries q (some f) })
  set-Inv q e f h same valid i = record {
    consistent = update-IsConsistent v.consistent q e f h same valid i;
    below = λ p g hg. elim (update-cases s.queue_entries q f p g hg) [
      | inl (y, _) ↦ subst (λ p. p < k) (sym y) (v.below q e h)
      | inr (_, hp) ↦ v.below p g hp
    ];
    created = v.created;
    fits = v.fits;
  }

  -- The same where only the source changes.
  pub source-Inv :
      (q : ℕ) (e : TaskQueueEntry) (source : TaskSource)
      → s.queue_entries q ≡ some e
      → IsValid source
      → source.task_queue_id ≡ e.task_source.task_queue_id
      → Inv k (record s {
        queue_entries = update s.queue_entries q (some (record e { task_source = source }));
      })
  source-Inv q e source h valid i =
      set-Inv q e (record e { task_source = source }) h
        (record { same_owned = refl; same_owner = refl }) valid
        (i ∙ (v.consistent.at q e h).source_id)

  pub create-Inv : k + 1 < 2 ^ 64 → Inv (k + 1) (create_task_queue s).1
  unfolding create_task_queue
  create-Inv room = record {
    consistent =
        create-IsConsistent s.task_queue_id_counter v.consistent
          (elim (Option-cases (s.queue_entries s.task_queue_id_counter)) [
            | inl n ↦ n
            | inr (e, h) ↦ absurd (omega (arith, v.created, v.below s.task_queue_id_counter e h))
          ])
          (omega (arith, v.created));
    below = λ p g hg.
        elim (update-cases s.queue_entries s.task_queue_id_counter
          (new_entry s.task_queue_id_counter) p g hg) [
            | inl (y, _) ↦ omega (arith, v.created)
            | inr (_, hp) ↦ omega (arith, v.below p g hp)
          ];
    created = omega (arith, v.created);
    fits = room;
  }

  pub wake_if_pending-Inv : (q : ℕ) → Inv k (wake_if_pending q s).1
  wake_if_pending-Inv q = elim (Option-cases (s.queue_entries q)) [
    | inl n ↦ subst (Inv k) (sym (ap (λ r. r.1) (missing n))) v
    | inr (e, h) ↦
        let (ws, eq, _) = wake_if_pending-WakesFor s q e h v.consistent in
        subst (Inv k) (sym (ap (λ r. r.1) eq)) (record {
          consistent = v.consistent;
          below = v.below;
          created = v.created;
          fits = v.fits;
        })
  ]
    where
      missing : s.queue_entries q ≡ none → wake_if_pending q s ≡ (fails out_of_range, s)
      missing n = unfold wake_if_pending has_pending_tasks_unlocked in rw n

-- The order number, the grades of the threads and the log of wake-ups do not matter.
pub touch-Inv :
    {k : ℕ} {s : MessageLoopTaskQueues} (order : ℕ) (tls : ℕ → Option TaskSourceGrade)
    (wakes : List (ℕ × TimePoint))
    → Inv k s
    → Inv k (record s { order = order; tls_task_source_grade = tls; wakes = wakes })
touch-Inv order tls wakes v = record {
  consistent = v.consistent;
  below = v.below;
  created = v.created;
  fits = v.fits;
}

-- The state after a method is the one that its outcome names.
pub by_outcome :
    {k : ℕ} {A : Type 0} {r : Outcome A × MessageLoopTaskQueues} (a : Outcome A)
    (s' : MessageLoopTaskQueues)
    → r ≡ (a, s')
    → Inv k s'
    → Inv k r.1
by_outcome {k} a s' eq v' = subst (Inv k) (sym (ap (λ r. r.1) eq)) v'
