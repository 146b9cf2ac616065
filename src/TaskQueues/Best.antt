-- ===== src/TaskQueues/Best.antt =====
-- The earliest of the tasks that the sources of several queues offer: the fold that
-- `PeekNextTaskUnlocked` makes over them.
use mathlib.Core.List.{append-nil, append_assoc}
use environment_check.Prelude.{
  ℕ, ◌≡◌, refl, sym, ap, ◌∙◌, Option, none, some, true, false, List, [], ◌∷◌, ◌++◌, All, All-append,
  All-imp, is_nil, nil_of_is_nil, contains, Bool-cases, inl, inr,
}
use environment_check.Outcome.{Outcome, returns}
use environment_check.DelayedTask.{DelayedTask, ◌>◌}
use environment_check.DelayedTask.Order.{not_greater_trans, not_greater_of_greater}
use environment_check.DelayedTask.Heap.{Before}
use environment_check.TaskSource.{TaskSource, TopTask, eligible, is_empty}
use environment_check.TaskSource.Contents.{IsValid, is_empty-is_nil}
use environment_check.TaskSource.Top.{Gives, top-Gives}
use environment_check.TaskQueues.Entries.{Entries, TaskQueueEntry}
use environment_check.TaskQueues.Reads.{top_task_updater, update_with, best_of, value}
use environment_check.TaskQueues.Consistent.{IsLive, offered_by, offered_by-cons}

-- The source that a top task names gives that task.
pub record IsTop (m : Entries) (t : TopTask) : Type 0 where
  pub entry : TaskQueueEntry
  pub source : TaskSource
  pub found : m t.task_queue_id ≡ some entry
  pub gives : Gives entry.task_source t.task source

-- The best of the tasks seen so far, from the queues `ids`.
abbrev pub IsBest : Entries → List ℕ → List DelayedTask → Option TopTask → Type 0
IsBest m ids seen none = seen ≡ []
IsBest m ids seen (some t) =
    All (Before t.task) seen × IsTop m t × (contains t.task_queue_id ids ≡ true)

module _ (m : Entries) (ids : List ℕ) where
  update_with-IsBest :
      (seen more : List DelayedTask) (best : Option TopTask) (t : TopTask)
      → IsBest m ids seen best
      → IsBest m ids more (some t)
      → IsBest m ids (seen ++ more) (update_with best t)
  unfolding update_with
  update_with-IsBest seen more none t b h = rw b h
  update_with-IsBest seen more (some s) t (first, top_s, in_s) (later, top_t, in_t) =
      elim (Bool-cases (s.task > t.task)) [
        | inl g ↦
            let g' = not_greater_of_greater s.task t.task g in
            rw g (
              All-append (Before t.task) seen more
                  (All-imp (Before s.task) (λ x. not_greater_trans t.task s.task x g') seen first)
                  later,
              top_t,
              in_t,
            )
        | inr g ↦ rw g (
          All-append (Before s.task) seen more first
              (All-imp (Before t.task) (λ x. not_greater_trans s.task t.task x g) more later),
          top_s,
          in_s,
        )
      ]

  abbrev Best : List DelayedTask → Outcome (Option TopTask) → Type 0
  Best seen r = (best : Option TopTask) × (r ≡ returns best) × IsBest m ids seen best

  pub top_task_updater-Best :
      (x : ℕ) (e : TaskQueueEntry) (seen : List DelayedTask) (best : Option TopTask)
      → m x ≡ some e
      → IsValid e.task_source
      → e.task_source.task_queue_id ≡ x
      → contains x ids ≡ true
      → IsBest m ids seen best
      → Best (seen ++ eligible e.task_source) (top_task_updater best e.task_source)
  unfolding top_task_updater
  top_task_updater-Best x e seen best h v i c b = elim (Bool-cases (is_empty e.task_source)) [
    | inl n ↦ (
      best,
      rw n,
      rw (nil_of_is_nil _ (sym (is_empty-is_nil e.task_source) ∙ n), append-nil seen) b,
    )
    | inr n ↦
        let (t, s', g) = top-Gives e.task_source v n in
        let u : TopTask = record { task_queue_id = e.task_source.task_queue_id; task = t } in
        (
          update_with best u,
          rw (n, g.at_top),
          update_with-IsBest seen (eligible e.task_source) best u b (
            g.earliest,
            record { entry = e; source = s'; found = ap m i ∙ h; gives = g },
            rw i c,
          ),
        )
  ]

  pub best_of-Best :
      (xs : List ℕ) (seen : List DelayedTask) (best : Option TopTask)
      → All (IsLive m) xs
      → All (λ x. contains x ids ≡ true) xs
      → IsBest m ids seen best
      → Best (seen ++ offered_by m xs) (best_of m best xs)
  unfolding best_of
  best_of-Best [] seen best live cs b = (best, refl, unfold offered_by in rw (append-nil seen) b)
  best_of-Best (x ∷ xs) seen best ((e, h, v, i), live) (c, cs) b =
      let (best', r, b') = top_task_updater-Best x e seen best h v i c b in
      rw
        (
          offered_by-cons m xs h,
          h,
          r,
          ← append_assoc seen (eligible e.task_source) (offered_by m xs),
        )
        (best_of-Best xs (seen ++ eligible e.task_source) best' live cs b')

  pub value_of_IsBest :
      (seen : List DelayedTask) (best : Option TopTask)
      → is_nil seen ≡ false
      → IsBest m ids seen best
      → (t : TopTask) × (value best ≡ returns t) × IsBest m ids seen (some t)
  unfolding value
  value_of_IsBest seen none n b = cc (ap is_nil b)
  value_of_IsBest seen (some t) n b = (t, refl, b)
