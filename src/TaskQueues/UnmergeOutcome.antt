-- ===== src/TaskQueues/UnmergeOutcome.antt =====
-- `Unmerge`: when it succeeds, what it leaves, and that it undoes a merge.
use mathlib.Core.List.Perm
use mathlib.Core.List.{append-nil, append_assoc, perm_append_comm}
use environment_check.Prelude.{
  ℕ, ◌≡◌, refl, sym, ap, ◌∙◌, some, true, false, List, [], ◌∷◌, ◌++◌, Perm, ◌⊎◌, ◌==◌, contains,
  is_nil, Bool-cases, inl, inr, arith,
}
use environment_check.Outcome.{returns}
use environment_check.DelayedTask.{TimePoint}
use environment_check.TaskSource.{eligible}
use environment_check.TaskQueues.Entries.{
  Entries, TaskQueueEntry, update, is_subsumed, insert, erase,
}
use environment_check.TaskQueues.State.{MessageLoopTaskQueues}
use environment_check.TaskQueues.Merging.{unmerge, set_unmerged}
use environment_check.TaskQueues.Consistent.{
  IsConsistent, offered, offered_by, offered_by-cons, offered-free,
}
use environment_check.TaskQueues.Links.{update_self, update_ne}
use environment_check.TaskQueues.Sets.{contains-erase, insert-erase}
use environment_check.TaskQueues.Unmerged.{
  split, without_owned, freed, split-IsConsistent, distinct_queues, was_subsumed, alone,
}
use environment_check.TaskQueues.MergeEffect.{
  SameSources, update-SameSources, offered_by-SameSources, offered_by-insert,
}
use environment_check.TaskQueues.Register.{owner_free}
use environment_check.TaskQueues.Wakes.{WakesFor, woken, wake_if_pending-WakesFor}

module _ (s : MessageLoopTaskQueues) (v : IsConsistent s.queue_entries) (owner subsumed : ℕ)
    (o e : TaskQueueEntry) (ho : s.queue_entries owner ≡ some o)
    (he : s.queue_entries subsumed ≡ some e) where
  unmerge_refused :
      contains subsumed o.owner_of ≡ false → unmerge owner subsumed s ≡ (returns false, s)
  unfolding unmerge
  unmerge_refused c = elim (Bool-cases (is_nil o.owner_of)) [
    | inl n ↦ rw (ho, n)
    | inr n ↦ elim (Bool-cases (is_subsumed o)) [
      | inl u ↦ rw (ho, n, u)
      | inr u ↦ elim (Bool-cases (is_subsumed e)) [
        | inl w ↦ rw (ho, n, u, he, w, c)
        | inr w ↦ rw (ho, n, u, he, w)
      ]
    ]
  ]

  module _ (c : contains subsumed o.owner_of ≡ true) where
    free_o : is_subsumed o ≡ false
    free_o = owner_free owner subsumed o v ho c

    abbrev pub M : Entries
    M = split s.queue_entries owner subsumed o e

    abbrev pub after_unmerge : MessageLoopTaskQueues
    after_unmerge = record s { queue_entries = M }

    apart : (subsumed == owner) ≡ false
    apart = distinct_queues v owner subsumed o e ho he free_o c

    apart' : (owner == subsumed) ≡ false
    apart' = ground (arith, apart)

    sources : SameSources M s.queue_entries
    sources x rest =
        update-SameSources (update s.queue_entries subsumed (some (freed e))) owner o
          (without_owned subsumed o)
          (update_ne s.queue_entries subsumed (some (freed e)) owner apart' ∙ ho) refl x rest
        ∙ update-SameSources s.queue_entries subsumed e (freed e) he refl x rest

    owner_in_M : M owner ≡ some (without_owned subsumed o)
    owner_in_M = update_self (update s.queue_entries subsumed (some (freed e))) owner _

    subsumed_in_M : M subsumed ≡ some (freed e)
    subsumed_in_M = rw apart (update_self s.queue_entries subsumed _)

    after_unmerge-IsConsistent : IsConsistent M
    after_unmerge-IsConsistent = split-IsConsistent v owner subsumed o e ho he free_o c

    pub set_unmerged_lem :
        (ws ws' : List (ℕ × TimePoint)) × (set_unmerged owner subsumed s
          ≡ (returns true, woken (woken after_unmerge ws) ws'))
        × WakesFor M owner (without_owned subsumed o) ws
        × WakesFor M subsumed (freed e) ws'
    unfolding set_unmerged
    set_unmerged_lem =
        let (ws, eq, wakes) =
          wake_if_pending-WakesFor after_unmerge owner (without_owned subsumed o) owner_in_M
            after_unmerge-IsConsistent in
        let (ws', eq', wakes') =
          wake_if_pending-WakesFor (woken after_unmerge ws) subsumed (freed e) subsumed_in_M
            after_unmerge-IsConsistent in
        (ws, ws', rw (he, apart', ho, eq, eq'), wakes, wakes')

    pub unmerge_lem : unmerge owner subsumed s ≡ set_unmerged owner subsumed s
    unfolding unmerge
    unmerge_lem =
        let busy : is_nil o.owner_of ≡ false = owns_something o.owner_of c in
        rw (ho, busy, free_o, he, was_subsumed v owner subsumed o e ho he free_o c, c)
      where
        owns_something : (xs : List ℕ) → contains subsumed xs ≡ true → is_nil xs ≡ false
        owns_something [] c = cc
        owns_something (x ∷ xs) c = refl

    after_unmerge-offered :
        Perm (offered s.queue_entries owner) (offered M owner ++ offered M subsumed)
    after_unmerge-offered =
        let m = s.queue_entries in
        let mine = eligible o.task_source in
        let theirs = eligible e.task_source in
        let kept = erase subsumed o.owner_of in
        let others = offered_by m kept in
        let now : offered M owner ≡ mine ++ others =
          offered-free M owner (without_owned subsumed o) owner_in_M free_o
          ∙ ap (◌++◌ mine) (offered_by-SameSources M m kept sources) in
        let alone' : offered M subsumed ≡ theirs =
          offered-free M subsumed (freed e) subsumed_in_M refl
          ∙ ap (λ l. theirs ++ offered_by M l) (alone v owner subsumed o e ho he free_o c)
          ∙ unfold offered_by in append-nil theirs in
        let before : offered m owner ≡ mine ++ offered_by m (insert subsumed kept) =
          offered-free m owner o ho free_o
          ∙ ap (λ l. mine ++ offered_by m l)
              (sym (insert-erase subsumed o.owner_of (v.at owner o ho).distinct c)) in
        let left : contains subsumed kept ≡ false =
          ground (arith, contains-erase subsumed subsumed o.owner_of) in
        rw (before, now, alone', append_assoc mine others theirs)
          (Perm.append_left mine (
            Perm.trans (offered_by-insert m subsumed kept left)
              (rw (offered_by-cons m kept he) (perm_append_comm theirs others))))

abbrev pub Unmerges : MessageLoopTaskQueues → ℕ → ℕ → TaskQueueEntry → TaskQueueEntry → Type 0
Unmerges s owner subsumed o e =
    ((contains subsumed o.owner_of ≡ false) × (unmerge owner subsumed s ≡ (returns false, s)))
    ⊎ ((contains subsumed o.owner_of ≡ true)
        × (let m = s.queue_entries in
            let m' = split m owner subsumed o e in
            (ws ws' : List (ℕ × TimePoint)) × (unmerge owner subsumed s
              ≡ (returns true, woken (woken (record s { queue_entries = m' }) ws) ws'))
            × WakesFor m' owner (without_owned subsumed o) ws
            × WakesFor m' subsumed (freed e) ws'
            × IsConsistent m'
            × Perm (offered m owner) (offered m' owner ++ offered m' subsumed)))

-- `Unmerge` of two queues that exist returns. It answers false and changes nothing unless the owner
-- owns the other. Else it answers true, the links stay consistent, and what the owner offered is
-- shared out between the two, which are woken for the earliest of their own tasks.
pub unmerge_outcome :
    (s : MessageLoopTaskQueues) (owner subsumed : ℕ) (o e : TaskQueueEntry)
    → IsConsistent s.queue_entries
    → s.queue_entries owner ≡ some o
    → s.queue_entries subsumed ≡ some e
    → Unmerges s owner subsumed o e
unmerge_outcome s owner subsumed o e v ho he = elim (Bool-cases (contains subsumed o.owner_of)) [
  | inl c ↦
      let (ws, ws', eq, wakes, wakes') = set_unmerged_lem s v owner subsumed o e ho he c in
      inr (
        c,
        (
          ws,
          ws',
          unmerge_lem s v owner subsumed o e ho he c ∙ eq,
          wakes,
          wakes',
          after_unmerge-IsConsistent s v owner subsumed o e ho he c,
          after_unmerge-offered s v owner subsumed o e ho he c,
        ),
      )
  | inr c ↦ inl (c, unmerge_refused s v owner subsumed o e ho he c)
]
