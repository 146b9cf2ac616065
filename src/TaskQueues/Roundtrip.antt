-- ===== src/TaskQueues/Roundtrip.antt =====
-- A merge that is undone leaves every queue as it was.
use environment_check.Prelude.{
  ℕ, ◌≡◌, refl, sym, ap, ◌∙◌, some, true, false, [], ◌==◌, ==_iff, contains, nil_of_is_nil,
  Bool-cases, inl, inr, arith,
}
use environment_check.Outcome.{returns}
use environment_check.TaskQueues.Entries.{Entries, TaskQueueEntry, is_subsumed}
use environment_check.TaskQueues.State.{MessageLoopTaskQueues}
use environment_check.TaskQueues.Merging.{merge, unmerge}
use environment_check.TaskQueues.Consistent.{IsConsistent, free_subsumed_by, free_not_owned}
use environment_check.TaskQueues.Sets.{contains-insert, erase-insert}
use environment_check.TaskQueues.Merged.{merged, with_owned}
use environment_check.TaskQueues.Unmerged.{split}
use environment_check.TaskQueues.MergeOutcome.{
  refuses, set_merged_lem, merge_lem, after_merge-IsConsistent, owner_in_M, subsumed_in_M,
}
use environment_check.TaskQueues.UnmergeOutcome.{set_unmerged_lem, unmerge_lem}
use environment_check.TaskQueues.Wakes.{woken}

split-merged :
    (m : Entries) (owner subsumed : ℕ) (o e : TaskQueueEntry)
    → m owner ≡ some o
    → m subsumed ≡ some e
    → contains subsumed o.owner_of ≡ false
    → is_subsumed e ≡ false
    → (x : ℕ)
    → split
        (merged m owner subsumed o e)
        owner
        subsumed
        (with_owned subsumed o)
        (record e { subsumed_by = owner })
        x
      ≡ m x
split-merged m owner subsumed o e ho he c free x = elim (Bool-cases (x == owner)) [
  | inl y ↦ rw y (
      sym (
        ap m ((==_iff x owner).0 y) ∙ ho ∙ λ i.
        some (record o { owner_of = sym (erase-insert subsumed o.owner_of c) i })))
  | inr n ↦ elim (Bool-cases (x == subsumed)) [
    | inl y ↦
        rw (n, y)
          (sym (
            ap m ((==_iff x subsumed).0 y) ∙ he ∙ λ i.
            some (record e { subsumed_by = free_subsumed_by e free i })))
    | inr n' ↦ rw (n, n')
  ]
]

-- A queue that is subsumed by none stands in no set, so a merge that is not refused is a new one.
pub not_owned_yet :
    (m : Entries) (owner subsumed : ℕ) (o e : TaskQueueEntry)
    → IsConsistent m
    → m owner ≡ some o
    → m subsumed ≡ some e
    → is_subsumed e ≡ false
    → contains subsumed o.owner_of ≡ false
not_owned_yet m owner subsumed o e v ho he free = elim (Bool-cases (contains subsumed o.owner_of)) [
  | inl c ↦
      let s = v.at owner o ho in
      cc (
        free_not_owned m e he free s.mergeable (s.owned subsumed c),
        (==_iff subsumed subsumed).1 refl,
      )
  | inr c ↦ c
]

-- Where a merge is not refused, it succeeds, an unmerge of the same queues succeeds after it, and
-- then each queue is what it was before the two: its source, links, observers and wakeable.
pub unmerge-merge :
    (s : MessageLoopTaskQueues) (owner subsumed : ℕ) (o e : TaskQueueEntry)
    → IsConsistent s.queue_entries
    → s.queue_entries owner ≡ some o
    → s.queue_entries subsumed ≡ some e
    → (owner == subsumed) ≡ false
    → refuses o e ≡ false
    → (s' s'' : MessageLoopTaskQueues) × (merge owner subsumed s ≡ (returns true, s'))
      × (unmerge owner subsumed s' ≡ (returns true, s''))
      × ((x : ℕ) → s''.queue_entries x ≡ s.queue_entries x)
unmerge-merge s owner subsumed o e v ho he ne r =
    let free_o : is_subsumed o ≡ false = ground (arith, r) in
    let free_e : is_subsumed e ≡ false = ground (arith, r) in
    let alone : e.owner_of ≡ [] = nil_of_is_nil e.owner_of (ground (arith, r)) in
    let c = not_owned_yet s.queue_entries owner subsumed o e v ho he free_e in
    let (ws, eq, _) = set_merged_lem s v owner subsumed o e ho he ne c free_o alone free_e in
    let v' = after_merge-IsConsistent s v owner subsumed o e ho he ne c free_o alone free_e in
    let s' : MessageLoopTaskQueues =
      woken (record s { queue_entries = merged s.queue_entries owner subsumed o e }) ws in
    let o' = with_owned subsumed o in
    let e' : TaskQueueEntry = record e { subsumed_by = owner } in
    let ho' = owner_in_M s v owner subsumed o e ho he ne in
    let he' = subsumed_in_M s v owner subsumed o e ho he ne in
    let c' : contains subsumed o'.owner_of ≡ true =
      ground (arith, contains-insert subsumed subsumed o.owner_of) in
    let (ws', ws'', eq', _, _) = set_unmerged_lem s' v' owner subsumed o' e' ho' he' c' in
    (
      s',
      _,
      merge_lem s v owner subsumed o e ho he ne c free_o alone free_e ∙ eq,
      unmerge_lem s' v' owner subsumed o' e' ho' he' c' ∙ eq',
      split-merged s.queue_entries owner subsumed o e ho he c free_e,
    )
