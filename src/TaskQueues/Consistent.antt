-- ===== src/TaskQueues/Consistent.antt =====
-- What the comment "Invariants for merge and un-merge" of message_loop_task_queues.h asks of the
-- map of entries, and the tasks that a queue offers.
use environment_check.Prelude.{
  ℕ, ◌<◌, ◌≡◌, ◌≢◌, Option, none, some, true, false, List, [], ◌∷◌, ◌++◌, All, All-of_contains,
  contains, sym, ap, ◌∙◌, ◌==◌, ==_iff, Bool-cases, inl, inr, arith, if◌then◌else◌,
}
use environment_check.DelayedTask.{DelayedTask}
use environment_check.TaskSource.{eligible}
use environment_check.TaskSource.Contents.{IsValid}
use environment_check.TaskQueues.Entries.{Entries, TaskQueueEntry, is_subsumed, unmerged}

pub free_subsumed_by : (e : TaskQueueEntry) → is_subsumed e ≡ false → e.subsumed_by ≡ unmerged
free_subsumed_by e f = ground arith

-- The ids of a set, each once.
abbrev pub IsAscending : List ℕ → Type 0
IsAscending [] = Unit
IsAscending (x ∷ xs) = All (λ y. x < y) xs × IsAscending xs

-- The queue `x` is there, and is subsumed by `q`.
abbrev pub IsOwnedBy : Entries → ℕ → ℕ → Type 0
IsOwnedBy m q x = (e : TaskQueueEntry) × (m x ≡ some e) × (e.subsumed_by ≡ q)

-- The queue `p` is there, and owns `q`.
abbrev pub IsOwnerOf : Entries → ℕ → ℕ → Type 0
IsOwnerOf m p q = (o : TaskQueueEntry) × (m p ≡ some o) × (contains q o.owner_of ≡ true)

-- A queue that owns others is not subsumed, what it owns is subsumed by it alone, and a queue that
-- is subsumed is owned by the queue that it names.
pub record IsSound (m : Entries) (q : ℕ) (e : TaskQueueEntry) : Type 0 where
  pub source : IsValid e.task_source
  pub source_id : e.task_source.task_queue_id ≡ q
  pub mergeable : q ≢ unmerged
  pub distinct : IsAscending e.owner_of
  pub owned : (x : ℕ) → contains x e.owner_of ≡ true → IsOwnedBy m q x
  pub owner : is_subsumed e ≡ true → IsOwnerOf m e.subsumed_by q
  pub exclusive : is_subsumed e ≡ true → e.owner_of ≡ []

pub record IsConsistent (m : Entries) : Type 0 where
  pub at : (q : ℕ) (e : TaskQueueEntry) → m q ≡ some e → IsSound m q e

-- The tasks of the subsumed queues.
unfoldable pub offered_by : Entries → List ℕ → List DelayedTask
offered_by m [] = []
offered_by m (x ∷ xs) =
    let rest = offered_by m xs in
    elim (m x) [ none ↦ rest | some e ↦ eligible e.task_source ++ rest ]

abbrev offered_at : Entries → Option TaskQueueEntry → List DelayedTask
offered_at m none = []
offered_at m (some e) =
    if is_subsumed e then [] else eligible e.task_source ++ offered_by m e.owner_of

-- The tasks that a queue offers: none while it is subsumed, else its own and those of the queues
-- that it owns.
unfoldable pub offered : Entries → ℕ → List DelayedTask
unfolding offered_by
offered m q = offered_at m (m q)

-- A queue that is there, with a sound source.
abbrev pub IsLive : Entries → ℕ → Type 0
IsLive m x =
    (e : TaskQueueEntry) × (m x ≡ some e)
    × IsValid e.task_source
    × (e.task_source.task_queue_id ≡ x)

pub IsLive-of :
    {m : Entries} (q : ℕ) (e : TaskQueueEntry) → IsConsistent m → m q ≡ some e → IsLive m q
IsLive-of q e v h = (e, h, (v.at q e h).source, (v.at q e h).source_id)

pub owned-IsLive :
    {m : Entries} {q : ℕ} {e : TaskQueueEntry}
    → IsConsistent m
    → IsSound m q e
    → All (IsLive m) e.owner_of
owned-IsLive {m} {q} {e} v s =
    All-of_contains (IsLive m) e.owner_of λ x c. let (e', h, _) = s.owned x c in IsLive-of x e' v h

pub offered_by-cons :
    (m : Entries) {x : ℕ} {e : TaskQueueEntry} (xs : List ℕ)
    → m x ≡ some e
    → offered_by m (x ∷ xs) ≡ eligible e.task_source ++ offered_by m xs
unfolding offered_by
offered_by-cons m xs h = rw (h, offered_by)

pub offered-subsumed :
    (m : Entries) (q : ℕ) (e : TaskQueueEntry)
    → m q ≡ some e
    → is_subsumed e ≡ true
    → offered m q ≡ []
unfolding offered
offered-subsumed m q e h s = rw (h, s)

pub offered-free :
    (m : Entries) (q : ℕ) (e : TaskQueueEntry)
    → m q ≡ some e
    → is_subsumed e ≡ false
    → offered m q ≡ eligible e.task_source ++ offered_by m e.owner_of
unfolding offered
offered-free m q e h s = rw (h, s)

-- A queue that is not subsumed stands in no set of owned queues.
pub free_not_owned :
    (m : Entries) {p x c : ℕ} (g : TaskQueueEntry)
    → m c ≡ some g
    → is_subsumed g ≡ false
    → p ≢ unmerged
    → IsOwnedBy m p x
    → (x == c) ≡ false
free_not_owned m {p} {x} {c} g h f u (k, hk, by) = elim (Bool-cases (x == c)) [
  | inl y ↦
      let k≡g : k ≡ g = cc (ap m ((==_iff x c).0 y)) in
      absurd (u (sym by ∙ ap (λ (e : TaskQueueEntry). e.subsumed_by) k≡g ∙ free_subsumed_by g f))
  | inr n ↦ n
]
