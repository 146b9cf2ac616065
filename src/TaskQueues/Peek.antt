-- ===== src/TaskQueues/Peek.antt =====
-- `PeekNextTaskUnlocked`: the earliest task of a queue and of those that it owns.
use mathlib.Core.List.{append-nil}
use mathlib.Core.Path.{subst}
use environment_check.Prelude.{
  ℕ, ◌≡◌, refl, sym, ap, ◌∙◌, none, some, true, false, List, [], ◌∷◌, ◌++◌, All, All-of_contains,
  is_nil, nil_of_is_nil, not, contains, contains_self, contains_tail, Bool-cases, inl, inr,
}
use environment_check.Outcome.{returns}
use environment_check.DelayedTask.Heap.{Before}
use environment_check.TaskSource.{TopTask, eligible, is_empty}
use environment_check.TaskSource.Contents.{is_empty-is_nil}
use environment_check.TaskSource.Top.{top-Gives}
use environment_check.TaskQueues.Entries.{Entries, TaskQueueEntry, is_subsumed}
use environment_check.TaskQueues.Reads.{has_pending_tasks_unlocked, peek_next_task_unlocked}
use environment_check.TaskQueues.Consistent.{
  IsConsistent, offered, offered_by, offered-subsumed, offered-free, owned-IsLive,
}
use environment_check.TaskQueues.Pending.{has_pending-offered}
use environment_check.TaskQueues.Best.{IsTop, best_of-Best, value_of_IsBest, top_task_updater-Best}

-- The task on top of a queue: it is offered by no later than any other, and stands on top of the
-- source of the queue or of one that it owns.
pub record IsNext (m : Entries) (q : ℕ) (owned : List ℕ) (t : TopTask) : Type 0 where
  pub earliest : All (Before t.task) (offered m q)
  pub top : IsTop m t
  pub among : contains t.task_queue_id (q ∷ owned) ≡ true

pub pending_checked :
    {m : Entries} (q : ℕ) (e : TaskQueueEntry)
    → IsConsistent m
    → m q ≡ some e
    → is_nil (offered m q) ≡ false
    → has_pending_tasks_unlocked m q ≡ returns true
pending_checked q e v h n = has_pending-offered q e v h ∙ ap (λ b. returns (not b)) n

pub not_subsumed :
    (m : Entries) (q : ℕ) (e : TaskQueueEntry)
    → m q ≡ some e
    → is_nil (offered m q) ≡ false
    → is_subsumed e ≡ false
not_subsumed m q e h n = elim (Bool-cases (is_subsumed e)) [
  | inl s ↦ cc (ap is_nil (offered-subsumed m q e h s))
  | inr s ↦ s
]

module _ {m : Entries} (q : ℕ) (e : TaskQueueEntry) (v : IsConsistent m) (h : m q ≡ some e) where
  abbrev Peeked : Type 0
  Peeked = (t : TopTask) × (peek_next_task_unlocked m q ≡ returns t) × IsNext m q e.owner_of t

  -- A queue that owns no other answers with the top of its source.
  peek_alone : e.owner_of ≡ [] → is_nil (offered m q) ≡ false → Peeked
  unfolding peek_next_task_unlocked
  peek_alone o n =
      let all : offered m q ≡ eligible e.task_source =
        offered-free m q e h (not_subsumed m q e h n)
        ∙ ap (λ l. eligible e.task_source ++ offered_by m l) o
        ∙ unfold offered_by in append-nil (eligible e.task_source) in
      let busy : is_empty e.task_source ≡ false =
        is_empty-is_nil e.task_source ∙ ap is_nil (sym all) ∙ n in
      let (t, s', g) = top-Gives e.task_source (v.at q e h).source busy in
      let i = (v.at q e h).source_id in
      (
        record { task_queue_id = e.task_source.task_queue_id; task = t },
        rw (pending_checked q e v h n, h, ap is_nil o, busy) g.at_top,
        record {
          earliest = rw all g.earliest;
          top = record { entry = e; source = s'; found = ap m i ∙ h; gives = g };
          among =
              subst (λ x. contains x (q ∷ e.owner_of) ≡ true) (sym i) (contains_self q e.owner_of);
        },
      )

  -- A queue that owns others looks at each source.
  peek_merged : is_nil e.owner_of ≡ false → is_nil (offered m q) ≡ false → Peeked
  unfolding peek_next_task_unlocked
  peek_merged o n =
      let ids : List ℕ = q ∷ e.owner_of in
      let all = offered-free m q e h (not_subsumed m q e h n) in
      let s = v.at q e h in
      let (best, r, b) =
        top_task_updater-Best m ids q e [] none h s.source s.source_id (contains_self q e.owner_of)
          refl in
      let (best', r', b') =
        best_of-Best m ids e.owner_of (eligible e.task_source) best (owned-IsLive v s)
          (All-of_contains (λ x. contains x ids ≡ true) e.owner_of
            (λ x. contains_tail x q e.owner_of))
          b in
      let (t, r'', (first, top_t, in_t)) =
        value_of_IsBest m ids _ best' (ap is_nil (sym all) ∙ n) b' in
      (
        t,
        rw (pending_checked q e v h n, h, o, r, r') r'',
        record { earliest = rw all first; top = top_t; among = in_t },
      )

  -- In a consistent map a queue that offers a task passes every check of `PeekNextTaskUnlocked`,
  -- which returns a task that no task on offer is due before, at the top of the source that it names.
  pub peek-IsNext :
      is_nil (offered m q) ≡ false
      → (t : TopTask) × (peek_next_task_unlocked m q ≡ returns t) × IsNext m q e.owner_of t
  peek-IsNext n = elim (Bool-cases (is_nil e.owner_of)) [
    | inl o ↦ peek_alone (nil_of_is_nil e.owner_of o) n
    | inr o ↦ peek_merged o n
  ]
