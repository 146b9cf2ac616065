-- ===== src/TaskQueues/Sources.antt =====
-- The methods that change one source, its observers or its wakeable keep the invariant.
use environment_check.Prelude.{
  ℕ, ◌≡◌, refl, sym, ap, ◌∙◌, Option, none, some, List, [], ◌∷◌, is_some, Bool-cases, Option-cases,
  inl, inr,
}
use mathlib.Core.Path.{subst}
use environment_check.DelayedTask.{Closure}
use environment_check.TaskSource.{TaskSource, shut_down, pause_secondary}
use environment_check.TaskSource.Contents.{
  IsValid, shut_down-IsValid, pause_secondary-IsValid, resume_secondary-cases,
}
use environment_check.TaskQueues.Entries.{TaskQueueEntry, update, is_subsumed}
use environment_check.TaskQueues.State.{
  MessageLoopTaskQueues, dispose_tasks, shut_down_all, add_task_observer, remove_task_observer,
  set_wakeable,
}
use environment_check.TaskQueues.Merging.{pause_secondary_source, resume_secondary_source}
use environment_check.TaskQueues.Invariant.{Inv, set-Inv, source-Inv, wake_if_pending-Inv}

shut_down_all-Inv :
    {k : ℕ} (xs : List ℕ) {s : MessageLoopTaskQueues} → Inv k s → Inv k (shut_down_all xs s).1
unfolding shut_down_all
shut_down_all-Inv [] v = v
shut_down_all-Inv (x ∷ xs) {s} v = elim (Option-cases (s.queue_entries x)) [
  | inl n ↦ rw n v
  | inr (e, h) ↦ rw h (
      shut_down_all-Inv xs (
        source-Inv v x e (shut_down e.task_source) h
          (shut_down-IsValid (v.consistent.at x e h).source) (unfold shut_down in refl)))
]

module _ {k : ℕ} {s : MessageLoopTaskQueues} (v : Inv k s) (q : ℕ) where
  pub dispose_tasks-Inv : Inv k (dispose_tasks q s).1
  unfolding dispose_tasks
  dispose_tasks-Inv = elim (Option-cases (s.queue_entries q)) [
    | inl n ↦ rw n v
    | inr (e, h) ↦ elim (Bool-cases (is_subsumed e)) [
      | inl u ↦ rw (h, u) v
      | inr u ↦
          rw (h, u)
            (shut_down_all-Inv e.owner_of (
              source-Inv v q e (shut_down e.task_source) h
                (shut_down-IsValid (v.consistent.at q e h).source) (unfold shut_down in refl)))
    ]
  ]

  -- An entry whose source and links stay.
  same_source-Inv :
      (e f : TaskQueueEntry)
      → s.queue_entries q ≡ some e
      → f.task_source ≡ e.task_source
      → f.owner_of ≡ e.owner_of
      → f.subsumed_by ≡ e.subsumed_by
      → Inv k (record s { queue_entries = update s.queue_entries q (some f) })
  same_source-Inv e f h src own sub =
      let sound = v.consistent.at q e h in
      set-Inv v q e f h (record { same_owned = own; same_owner = sub })
        (subst IsValid (sym src) sound.source)
        (ap (λ (t : TaskSource). t.task_queue_id) src ∙ sound.source_id)

  pub add_task_observer-Inv :
      (key : ℕ) (callback : Closure) → Inv k (add_task_observer q key callback s).1
  unfolding add_task_observer
  add_task_observer-Inv key none = v
  add_task_observer-Inv key (some f) = elim (Option-cases (s.queue_entries q)) [
    | inl n ↦ rw n v
    | inr (e, h) ↦ rw h (same_source-Inv e _ h refl refl refl)
  ]

  pub remove_task_observer-Inv : (key : ℕ) → Inv k (remove_task_observer q key s).1
  unfolding remove_task_observer
  remove_task_observer-Inv key = elim (Option-cases (s.queue_entries q)) [
    | inl n ↦ rw n v
    | inr (e, h) ↦ rw h (same_source-Inv e _ h refl refl refl)
  ]

  pub set_wakeable-Inv : (wakeable : Option ℕ) → Inv k (set_wakeable q wakeable s).1
  unfolding set_wakeable
  set_wakeable-Inv wakeable = elim (Option-cases (s.queue_entries q)) [
    | inl n ↦ rw n v
    | inr (e, h) ↦ elim (Bool-cases (is_some e.wakeable)) [
      | inl w ↦ rw (h, w) v
      | inr w ↦ rw (h, w) (same_source-Inv e _ h refl refl refl)
    ]
  ]

  pub pause_secondary_source-Inv : Inv k (pause_secondary_source q s).1
  unfolding pause_secondary_source
  pause_secondary_source-Inv = elim (Option-cases (s.queue_entries q)) [
    | inl n ↦ rw n v
    | inr (e, h) ↦ rw h (
        source-Inv v q e (pause_secondary e.task_source) h
          (pause_secondary-IsValid (v.consistent.at q e h).source) (unfold pause_secondary in refl))
  ]

  pub resume_secondary_source-Inv : Inv k (resume_secondary_source q s).1
  unfolding resume_secondary_source
  resume_secondary_source-Inv = elim (Option-cases (s.queue_entries q)) [
    | inl n ↦ rw n v
    | inr (e, h) ↦ elim (resume_secondary-cases e.task_source) [
      | inl (_, r) ↦ rw (h, r) v
      | inr (n, _, r) ↦
          let sound = (v.consistent.at q e h).source in
          let source : TaskSource = record e.task_source { secondary_pause_requests = n } in
          rw (h, r)
            (wake_if_pending-Inv
              (source-Inv v q e source h
                (record {
                  primary_heap = sound.primary_heap;
                  secondary_heap = sound.secondary_heap;
                  primary_grades = sound.primary_grades;
                  secondary_grades = sound.secondary_grades;
                })
                refl)
              q)
    ]
  ]
