-- ===== src/TaskQueues/MergeOutcome.antt =====
-- `Merge` and `Unmerge`: when they succeed, and what they leave.
use mathlib.Core.List.Perm
use mathlib.Core.List.{append-nil, append_assoc, perm_append_comm}
use environment_check.Prelude.{
  ℕ, ◌≡◌, refl, ap, ◌∙◌, some, Bool, true, false, List, [], ◌++◌, Perm, ◌⊎◌, ◌==◌, ◌||◌, contains,
  is_nil, nil_of_is_nil, not, Bool-cases, inl, inr, arith,
}
use environment_check.Outcome.{returns}
use environment_check.DelayedTask.{TimePoint}
use environment_check.TaskSource.{eligible}
use environment_check.TaskQueues.Entries.{
  Entries, TaskQueueEntry, update, is_subsumed, insert, unmerged,
}
use environment_check.TaskQueues.State.{MessageLoopTaskQueues}
use environment_check.TaskQueues.Merging.{merge, set_merged}
use environment_check.TaskQueues.Consistent.{
  IsConsistent, offered, offered_by, offered_by-cons, offered-free, offered-subsumed,
}
use environment_check.TaskQueues.Links.{update_self, update_ne}
use environment_check.TaskQueues.Merged.{merged, with_owned, merged-IsConsistent}
use environment_check.TaskQueues.MergeEffect.{
  SameSources, update-SameSources, offered_by-SameSources, offered_by-insert,
}
use environment_check.TaskQueues.Wakes.{WakesFor, woken, wake_if_pending-WakesFor}

-- A merge that is refused.
abbrev pub refuses : TaskQueueEntry → TaskQueueEntry → Bool
refuses o e = is_subsumed o || not (is_nil e.owner_of) || is_subsumed e

-- An owner's id is none that means "not subsumed".
owner_mergeable :
    (s : MessageLoopTaskQueues) (v : IsConsistent s.queue_entries) (owner : ℕ) (o : TaskQueueEntry)
    → s.queue_entries owner ≡ some o
    → not (owner == unmerged) ≡ true
owner_mergeable s v owner o h = ground (arith, (v.at owner o h).mergeable)

module _ (s : MessageLoopTaskQueues) (v : IsConsistent s.queue_entries) (owner subsumed : ℕ)
    (o e : TaskQueueEntry) (ho : s.queue_entries owner ≡ some o)
    (he : s.queue_entries subsumed ≡ some e) (ne : (owner == subsumed) ≡ false) where
  ne' : (subsumed == owner) ≡ false
  ne' = ground (arith, ne)

  abbrev pub M : Entries
  M = merged s.queue_entries owner subsumed o e

  abbrev pub after_merge : MessageLoopTaskQueues
  after_merge = record s { queue_entries = M }

  sources : SameSources M s.queue_entries
  sources x rest =
      update-SameSources (update s.queue_entries owner (some (with_owned subsumed o))) subsumed e
        (record e { subsumed_by = owner })
        (update_ne s.queue_entries owner (some (with_owned subsumed o)) subsumed ne' ∙ he) refl x
        rest
      ∙ update-SameSources s.queue_entries owner o (with_owned subsumed o) ho refl x rest

  pub owner_in_M : M owner ≡ some (with_owned subsumed o)
  owner_in_M = rw ne (update_self s.queue_entries owner _)

  pub subsumed_in_M : M subsumed ≡ some (record e { subsumed_by = owner })
  subsumed_in_M =
      update_self (update s.queue_entries owner (some (with_owned subsumed o))) subsumed _

  merge_again : contains subsumed o.owner_of ≡ true → merge owner subsumed s ≡ (returns true, s)
  unfolding merge
  merge_again c = rw (ne, ho, he, c)

  merge_refused :
      contains subsumed o.owner_of ≡ false
      → refuses o e ≡ true
      → merge owner subsumed s ≡ (returns false, s)
  unfolding merge
  merge_refused c r = rw (ne, ho, he, c) (ground (arith, r))

  module _ (c : contains subsumed o.owner_of ≡ false) (free_o : is_subsumed o ≡ false)
      (alone : e.owner_of ≡ []) (free_e : is_subsumed e ≡ false) where
    pub after_merge-IsConsistent : IsConsistent M
    after_merge-IsConsistent = merged-IsConsistent v owner subsumed o e ho he ne free_o free_e alone

    -- The owner offers its tasks and those of the queue that it subsumes.
    after_merge-offered :
        Perm (offered M owner) (offered s.queue_entries owner ++ offered s.queue_entries subsumed)
    after_merge-offered =
        let m = s.queue_entries in
        let mine = eligible o.task_source in
        let theirs = eligible e.task_source in
        let others = offered_by m o.owner_of in
        let now : offered M owner ≡ mine ++ offered_by m (insert subsumed o.owner_of) =
          offered-free M owner (with_owned subsumed o) owner_in_M free_o
          ∙ ap (◌++◌ mine) (offered_by-SameSources M m (insert subsumed o.owner_of) sources) in
        let alone' : offered m subsumed ≡ theirs =
          offered-free m subsumed e he free_e
          ∙ ap (λ l. theirs ++ offered_by m l) alone
          ∙ unfold offered_by in append-nil theirs in
        rw (now, offered-free m owner o ho free_o, alone', append_assoc mine others theirs)
          (Perm.append_left mine (
            Perm.trans (offered_by-insert m subsumed o.owner_of c)
              (rw (offered_by-cons m o.owner_of he) (perm_append_comm theirs others))))

    pub set_merged_lem :
        (ws : List (ℕ × TimePoint)) × (set_merged owner subsumed s
          ≡ (returns true, woken after_merge ws))
        × WakesFor M owner (with_owned subsumed o) ws
    unfolding set_merged
    set_merged_lem =
        let (ws, eq, wakes) =
          wake_if_pending-WakesFor after_merge owner (with_owned subsumed o) owner_in_M
            after_merge-IsConsistent in
        (ws, rw (ho, ne', he, eq), wakes)

    pub merge_lem : merge owner subsumed s ≡ set_merged owner subsumed s
    unfolding merge
    merge_lem = rw (ne, ho, he, c, free_o, ap is_nil alone, free_e)

abbrev pub Merges : MessageLoopTaskQueues → ℕ → ℕ → TaskQueueEntry → TaskQueueEntry → Type 0
Merges s owner subsumed o e =
    ((contains subsumed o.owner_of ≡ true) × (merge owner subsumed s ≡ (returns true, s)))
    ⊎ ((contains subsumed o.owner_of ≡ false)
        × (refuses o e ≡ true)
        × (merge owner subsumed s ≡ (returns false, s)))
    ⊎ ((refuses o e ≡ false)
        × (let m = s.queue_entries in
            let m' = merged m owner subsumed o e in
            (ws : List (ℕ × TimePoint)) × (merge owner subsumed s
              ≡ (returns true, woken (record s { queue_entries = m' }) ws))
            × WakesFor m' owner (with_owned subsumed o) ws
            × IsConsistent m'
            × Perm (offered m' owner) (offered m owner ++ offered m subsumed)
            × (offered m' subsumed ≡ [])))

-- `Merge` of two queues that exist returns. If the owner owns the other already, it answers true and
-- changes nothing. If the owner is subsumed, or the other owns queues or is subsumed, it answers
-- false and changes nothing. Else it answers true, the links stay consistent, the owner offers what
-- the two offered before and the other offers nothing, and the owner is woken for the earliest task.
pub merge_outcome :
    (s : MessageLoopTaskQueues) (owner subsumed : ℕ) (o e : TaskQueueEntry)
    → IsConsistent s.queue_entries
    → s.queue_entries owner ≡ some o
    → s.queue_entries subsumed ≡ some e
    → (owner == subsumed) ≡ false
    → Merges s owner subsumed o e
merge_outcome s owner subsumed o e v ho he ne = elim (Bool-cases (contains subsumed o.owner_of)) [
  | inl c ↦ inl (c, merge_again s v owner subsumed o e ho he ne c)
  | inr c ↦ elim (Bool-cases (refuses o e)) [
    | inl r ↦ inr (inl (c, r, merge_refused s v owner subsumed o e ho he ne c r))
    | inr r ↦
        let free_o : is_subsumed o ≡ false = ground (arith, r) in
        let free_e : is_subsumed e ≡ false = ground (arith, r) in
        let alone : e.owner_of ≡ [] = nil_of_is_nil e.owner_of (ground (arith, r)) in
        let (ws, eq, wakes) =
          set_merged_lem s v owner subsumed o e ho he ne c free_o alone free_e in
        inr (
          inr (
            r,
            (
              ws,
              merge_lem s v owner subsumed o e ho he ne c free_o alone free_e ∙ eq,
              wakes,
              after_merge-IsConsistent s v owner subsumed o e ho he ne c free_o alone free_e,
              after_merge-offered s v owner subsumed o e ho he ne c free_o alone free_e,
              offered-subsumed _ subsumed _ (subsumed_in_M s v owner subsumed o e ho he ne)
                  (owner_mergeable s v owner o ho),
            ),
          ))
  ]
]
