-- ===== src/TaskQueues/Pending.antt =====
-- `HasPendingTasksUnlocked` and `GetNumPendingTasks` against the tasks on offer.
use environment_check.Prelude.{
  ℕ, ◌+◌, ◌≡◌, refl, ap, some, false, List, [], ◌∷◌, ◌++◌, All, length, length-append, is_nil,
  nil_of_is_nil, not, arith, if◌then◌else◌, Bool-cases, inl, inr,
}
use environment_check.Outcome.{returns}
use environment_check.TaskSource
use environment_check.TaskSource.{eligible}
use environment_check.TaskSource.Contents.{is_empty-is_nil, get_num_pending_tasks-length}
use environment_check.TaskQueues.Entries.{Entries, TaskQueueEntry, is_subsumed}
use environment_check.TaskQueues.Reads.{
  has_pending_tasks_unlocked, any_pending, get_num_pending_tasks, sum_pending,
}
use environment_check.TaskQueues.Consistent.{
  IsConsistent, IsLive, offered, offered_by, offered_by-cons, owned-IsLive,
}

is_nil-append {ℓ} : {A : Type ℓ} (xs ys : List A) → is_nil xs ≡ false → is_nil (xs ++ ys) ≡ false
is_nil-append [] ys h = cc
is_nil-append (x ∷ xs) ys h = refl

any_pending_lem :
    (m : Entries) (xs : List ℕ)
    → All (IsLive m) xs
    → any_pending m xs ≡ returns (not (is_nil (offered_by m xs)))
unfolding any_pending
any_pending_lem m [] live = unfold offered_by in refl
any_pending_lem m (x ∷ xs) ((e, h, _, _), live) =
    elim (Bool-cases (is_nil (eligible e.task_source))) [
      | inl n ↦ rw (
        offered_by-cons m xs h,
        h,
        is_empty-is_nil e.task_source,
        n,
        any_pending_lem m xs live,
        nil_of_is_nil _ n,
      )
      | inr n ↦ rw (
        offered_by-cons m xs h,
        h,
        is_empty-is_nil e.task_source,
        n,
        is_nil-append _ (offered_by m xs) n,
      )
    ]

sum_pending_lem :
    (m : Entries) (total : ℕ) (xs : List ℕ)
    → All (IsLive m) xs
    → sum_pending m total xs ≡ returns (total + length (offered_by m xs))
unfolding sum_pending
sum_pending_lem m total [] live = unfold offered_by in ap returns (omega arith)
sum_pending_lem m total (x ∷ xs) ((e, h, _, _), live) =
    rw
      (
        offered_by-cons m xs h,
        h,
        sum_pending_lem m (total + TaskSource.get_num_pending_tasks e.task_source) xs live,
        get_num_pending_tasks-length e.task_source,
        length-append (eligible e.task_source) (offered_by m xs),
      )
      (ap returns (omega arith))

module _ {m : Entries} (q : ℕ) (e : TaskQueueEntry) (v : IsConsistent m) (h : m q ≡ some e) where
  -- The test and the count of a queue agree with the tasks that it offers, and neither throws.
  pub has_pending-offered : has_pending_tasks_unlocked m q ≡ returns (not (is_nil (offered m q)))
  unfolding has_pending_tasks_unlocked offered
  has_pending-offered = elim (Bool-cases (is_subsumed e)) [
    | inl s ↦ rw (h, s)
    | inr s ↦ elim (Bool-cases (is_nil (eligible e.task_source))) [
      | inl n ↦
          rw (h, s, is_empty-is_nil e.task_source, n, nil_of_is_nil _ n)
            (any_pending_lem m e.owner_of (owned-IsLive v (v.at q e h)))
      | inr n ↦
          rw (h, s, is_empty-is_nil e.task_source, n, is_nil-append _ (offered_by m e.owner_of) n)
    ]
  ]

  pub get_num_pending-offered : get_num_pending_tasks m q ≡ returns (length (offered m q))
  unfolding get_num_pending_tasks offered
  get_num_pending-offered = elim (Bool-cases (is_subsumed e)) [
    | inl s ↦ rw (h, s)
    | inr s ↦ rw (
      h,
      s,
      sum_pending_lem m _ e.owner_of (owned-IsLive v (v.at q e h)),
      get_num_pending_tasks-length e.task_source,
      length-append (eligible e.task_source) (offered_by m e.owner_of),
    )
  ]

-- In a consistent map `HasPendingTasks`, `GetNumPendingTasks` and the tasks on offer agree for each
-- queue that exists: the one answers whether there is a task, the other how many there are, and
-- neither throws. A subsumed queue offers nothing.
pub pending_agrees :
    {m : Entries} (q : ℕ) (e : TaskQueueEntry)
    → IsConsistent m
    → m q ≡ some e
    → (has_pending_tasks_unlocked m q ≡ returns (not (is_nil (offered m q))))
      × (get_num_pending_tasks m q ≡ returns (length (offered m q)))
      × (offered m q
          ≡ (if is_subsumed e then [] else eligible e.task_source ++ offered_by m e.owner_of))
pending_agrees {m} q e v h =
    (has_pending-offered q e v h, get_num_pending-offered q e v h, unfold offered in rw h)
