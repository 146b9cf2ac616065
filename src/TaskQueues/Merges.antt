-- ===== src/TaskQueues/Merges.antt =====
-- `Merge` and `Unmerge` keep the invariant of the queues.
use environment_check.Prelude.{
  ℕ, ◌<◌, ◌≡◌, sym, none, some, false, ◌==◌, is_nil, Bool-cases, Option-cases, inl, inr,
}
use mathlib.Core.Path.{subst}
use environment_check.TaskQueues.Entries.{TaskQueueEntry, update, is_subsumed}
use environment_check.TaskQueues.State.{MessageLoopTaskQueues}
use environment_check.TaskQueues.Merging.{merge, unmerge}
use environment_check.TaskQueues.Links.{update-cases}
use environment_check.TaskQueues.Merged.{with_owned}
use environment_check.TaskQueues.MergeOutcome.{merge_outcome}
use environment_check.TaskQueues.UnmergeOutcome.{unmerge_outcome}
use environment_check.TaskQueues.Unmerged.{without_owned, freed}
use environment_check.TaskQueues.Invariant.{Inv, by_outcome}

module _ {k : ℕ} {s : MessageLoopTaskQueues} (v : Inv k s) (owner subsumed : ℕ)
    (o e : TaskQueueEntry) (ho : s.queue_entries owner ≡ some o)
    (he : s.queue_entries subsumed ≡ some e) where
  merge-live-Inv : (owner == subsumed) ≡ false → Inv k (merge owner subsumed s).1
  merge-live-Inv ne = elim (merge_outcome s owner subsumed o e v.consistent ho he ne) [
    | inl (_, eq) ↦ by_outcome _ _ eq v
    | inr (inl (_, _, eq)) ↦ by_outcome _ _ eq v
    | inr (inr (_, (ws, eq, _, c, _, _))) ↦ by_outcome _ _ eq (record {
      consistent = c;
      below = λ p g hg.
          elim (update-cases (update s.queue_entries owner (some (with_owned subsumed o))) subsumed
            (record e { subsumed_by = owner }) p g hg) [
              | inl (y, _) ↦ subst (λ p. p < k) (sym y) (v.below subsumed e he)
              | inr (_, hp) ↦
                  elim (update-cases s.queue_entries owner (with_owned subsumed o) p g hp) [
                    | inl (y, _) ↦ subst (λ p. p < k) (sym y) (v.below owner o ho)
                    | inr (_, hm) ↦ v.below p g hm
                  ]
            ];
      created = v.created;
      fits = v.fits;
    })
  ]

  unmerge-live-Inv : Inv k (unmerge owner subsumed s).1
  unmerge-live-Inv = elim (unmerge_outcome s owner subsumed o e v.consistent ho he) [
    | inl (_, eq) ↦ by_outcome _ _ eq v
    | inr (_, (ws, ws', eq, _, _, c, _)) ↦ by_outcome _ _ eq (record {
      consistent = c;
      below = λ p g hg.
          elim (update-cases (update s.queue_entries subsumed (some (freed e))) owner
            (without_owned subsumed o) p g hg) [
              | inl (y, _) ↦ subst (λ p. p < k) (sym y) (v.below owner o ho)
              | inr (_, hp) ↦ elim (update-cases s.queue_entries subsumed (freed e) p g hp) [
                | inl (y, _) ↦ subst (λ p. p < k) (sym y) (v.below subsumed e he)
                | inr (_, hm) ↦ v.below p g hm
              ]
            ];
      created = v.created;
      fits = v.fits;
    })
  ]

module _ {k : ℕ} {s : MessageLoopTaskQueues} (v : Inv k s) (owner subsumed : ℕ) where
  pub merge-Inv : Inv k (merge owner subsumed s).1
  merge-Inv = elim (Bool-cases (owner == subsumed)) [
    | inl y ↦ unfold merge in rw y v
    | inr n ↦ elim (Option-cases (s.queue_entries owner)) [
      | inl absent ↦ unfold merge in rw (n, absent) v
      | inr (o, ho) ↦ elim (Option-cases (s.queue_entries subsumed)) [
        | inl ne ↦ unfold merge in rw (n, ho, ne) v
        | inr (e, he) ↦ merge-live-Inv v owner subsumed o e ho he n
      ]
    ]
  ]

  pub unmerge-Inv : Inv k (unmerge owner subsumed s).1
  unmerge-Inv = elim (Option-cases (s.queue_entries owner)) [
    | inl absent ↦ unfold unmerge in rw absent v
    | inr (o, ho) ↦ elim (Option-cases (s.queue_entries subsumed)) [
      | inl ne ↦ unmerge_missing o ho ne
      | inr (e, he) ↦ unmerge-live-Inv v owner subsumed o e ho he
    ]
  ]
    where
      unmerge_missing :
          (o : TaskQueueEntry)
          → s.queue_entries owner ≡ some o
          → s.queue_entries subsumed ≡ none
          → Inv k (unmerge owner subsumed s).1
      unmerge_missing o ho ne = elim (Bool-cases (is_nil o.owner_of)) [
        | inl n ↦ unfold unmerge in rw (ho, n) v
        | inr n ↦ elim (Bool-cases (is_subsumed o)) [
          | inl u ↦ unfold unmerge in rw (ho, n, u) v
          | inr u ↦ unfold unmerge in rw (ho, n, u, ne) v
        ]
      ]
