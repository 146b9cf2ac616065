-- ===== src/TaskRunner/Checker.antt =====
-- A TaskRunnerChecker over a merge of queues.
use environment_check.Prelude.{
  ℕ, ◌≡◌, refl, ap, ◌∙◌, some, Bool, true, false, [], ◌==◌, nil_of_is_nil, arith,
}
use environment_check.Outcome.{returns}
use environment_check.TaskQueues.Entries.{Entries, TaskQueueEntry, is_subsumed}
use environment_check.TaskQueues.State.{MessageLoopTaskQueues}
use environment_check.TaskQueues.Reads.{get_subsumed_task_queue_id}
use environment_check.TaskQueues.Merging.{merge}
use environment_check.TaskQueues.Merged.{merged, with_owned}
use environment_check.TaskQueues.Consistent.{IsConsistent, free_subsumed_by}
use environment_check.TaskQueues.Wakes.{woken}
use environment_check.TaskQueues.Roundtrip.{not_owned_yet}
use environment_check.TaskQueues.MergeOutcome.{
  refuses, owner_in_M, subsumed_in_M, set_merged_lem, merge_lem, after_merge-IsConsistent,
}
use environment_check.MessageLoopImpl.{MessageLoopImpl}
use environment_check.MessageLoop.{Program, is_initialized, ensure_initialized}
use environment_check.TaskRunner.{
  TaskRunnerChecker, new_task_runner_checker, runs_on_creation_task_runner, runs_on_the_same_thread,
  any_on_the_same_thread, or_else,
}
use environment_check.TaskRunner.Posting.{current_queue}
use environment_check.TaskRunner.Threads.{runs_on_the_same_thread-subsumed_by}

or_else-false : (b : Bool) → or_else (returns b) (returns false) ≡ returns b
or_else-false true = refl
or_else-false false = refl

abbrev pub checker_of : MessageLoopImpl → TaskQueueEntry → TaskRunnerChecker
checker_of l e = record { initialized_queue_id = l.queue_id; subsumed_queue_ids = e.owner_of }

module _ (p : Program) (thread : ℕ) (l : MessageLoopImpl)
    (hl : p.tls_message_loop thread ≡ some l) where
  new_checker_lem :
      (e : TaskQueueEntry)
      → p.queues.queue_entries l.queue_id ≡ some e
      → new_task_runner_checker thread p ≡ (returns (checker_of l e), p)
  unfolding new_task_runner_checker ensure_initialized get_subsumed_task_queue_id
  new_checker_lem e h = rw (hl, current_queue p thread l hl) (rw h)

  -- A checker of a queue that owned no other.
  runs_on_creation_lem :
      (c : TaskRunnerChecker) (b : Bool)
      → c.subsumed_queue_ids ≡ []
      → runs_on_the_same_thread p.queues.queue_entries l.queue_id c.initialized_queue_id ≡ returns b
      → runs_on_creation_task_runner c thread p ≡ (returns b, p)
  unfolding runs_on_creation_task_runner is_initialized any_on_the_same_thread
  runs_on_creation_lem c b none_owned h =
      rw (hl, current_queue p thread l hl, h, none_owned) (ap (λ o. (o, p)) (or_else-false b))

-- Before a merge that is not refused, and after it.
joined_before :
    {m : Entries} (v : IsConsistent m) (a b : ℕ) (o e : TaskQueueEntry)
    → m a ≡ some o
    → m b ≡ some e
    → (a == b) ≡ false
    → is_subsumed o ≡ false
    → is_subsumed e ≡ false
    → runs_on_the_same_thread m a b ≡ returns false
joined_before v a b o e ha hb ne free_o free_e =
    runs_on_the_same_thread-subsumed_by v a b o e ha hb
    ∙ ap (λ x. returns x)
        (ground (
          arith,
          ne,
          free_subsumed_by o free_o,
          free_subsumed_by e free_e,
          (v.at a o ha).mergeable,
          (v.at b e hb).mergeable,
        ))

joined_after :
    {m : Entries} (v : IsConsistent m) (a b : ℕ) (o e : TaskQueueEntry)
    → m a ≡ some o
    → m b ≡ some (record e { subsumed_by = a })
    → (a == b) ≡ false
    → runs_on_the_same_thread m a b ≡ returns true
joined_after v a b o e ha hb ne =
    runs_on_the_same_thread-subsumed_by v a b o (record e { subsumed_by = a }) ha hb
    ∙ ap (λ x. returns x) (ground (arith, ne))

same_queue : (m : Entries) (a : ℕ) → runs_on_the_same_thread m a a ≡ returns true
unfolding runs_on_the_same_thread
same_queue m a = ground arith

-- Two threads with loops whose queues differ, in a program with consistent links, where the queue of
-- one thread may be merged into that of the other. A TaskRunnerChecker that the one makes refuses
-- the other before the merge; the merge succeeds, and then the checker takes both threads.
pub runs_on_creation_task_runner-merge :
    (p : Program) (maker thread : ℕ) (l k : MessageLoopImpl) (e o : TaskQueueEntry)
    → IsConsistent p.queues.queue_entries
    → p.tls_message_loop maker ≡ some l
    → p.tls_message_loop thread ≡ some k
    → p.queues.queue_entries l.queue_id ≡ some e
    → p.queues.queue_entries k.queue_id ≡ some o
    → (k.queue_id == l.queue_id) ≡ false
    → refuses o e ≡ false
    → (c : TaskRunnerChecker) × (s' : MessageLoopTaskQueues) × (new_task_runner_checker maker p
        ≡ (returns c, p))
      × (runs_on_creation_task_runner c thread p ≡ (returns false, p))
      × (merge k.queue_id l.queue_id p.queues ≡ (returns true, s'))
      × (runs_on_creation_task_runner c thread (record p { queues = s' })
          ≡ (returns true, record p { queues = s' }))
      × (runs_on_creation_task_runner c maker (record p { queues = s' })
          ≡ (returns true, record p { queues = s' }))
runs_on_creation_task_runner-merge p maker thread l k e o v hl hk he ho ne r =
    let s = p.queues in
    let free_o : is_subsumed o ≡ false = ground (arith, r) in
    let free_e : is_subsumed e ≡ false = ground (arith, r) in
    let alone : e.owner_of ≡ [] = nil_of_is_nil e.owner_of (ground (arith, r)) in
    let c = not_owned_yet s.queue_entries k.queue_id l.queue_id o e v ho he free_e in
    let (ws, eq, _) = set_merged_lem s v k.queue_id l.queue_id o e ho he ne c free_o alone free_e in
    let v' =
      after_merge-IsConsistent s v k.queue_id l.queue_id o e ho he ne c free_o alone free_e in
    let s' : MessageLoopTaskQueues =
      woken (record s { queue_entries = merged s.queue_entries k.queue_id l.queue_id o e }) ws in
    let p' : Program = record p { queues = s' } in
    (
      checker_of l e,
      s',
      new_checker_lem p maker l hl e he,
      runs_on_creation_lem p thread k hk (checker_of l e) false alone
          (joined_before v k.queue_id l.queue_id o e ho he ne free_o free_e),
      merge_lem s v k.queue_id l.queue_id o e ho he ne c free_o alone free_e ∙ eq,
      runs_on_creation_lem p' thread k hk (checker_of l e) true alone (
          joined_after v' k.queue_id l.queue_id (with_owned l.queue_id o) e
            (owner_in_M s v k.queue_id l.queue_id o e ho he ne)
            (subsumed_in_M s v k.queue_id l.queue_id o e ho he ne) ne),
      runs_on_creation_lem p' maker l hl (checker_of l e) true alone
          (same_queue s'.queue_entries l.queue_id),
    )
