-- ===== src/TaskQueues/DisposedTasks.antt =====
-- `DisposeTasks`: the tasks of a queue and of all that it owns are dropped.
use environment_check.Prelude.{
  ℕ, ◌≡◌, refl, ap, ◌∙◌, Option, none, some, true, false, List, [], ◌∷◌, ◌⊎◌, ◌||◌, All, All-imp,
  All-of_contains, contains, ◌==◌, ==_iff, Bool-cases, inl, inr, arith, if◌then◌else◌,
}
use environment_check.Outcome.{returns, fails, check_failed}
use environment_check.TaskSource.{TaskSource, shut_down, eligible}
use environment_check.TaskSource.Contents.{shut_down-IsValid}
use environment_check.TaskQueues.Entries.{Entries, TaskQueueEntry, update, is_subsumed}
use environment_check.TaskQueues.State.{MessageLoopTaskQueues, dispose_tasks, shut_down_all}
use environment_check.TaskQueues.Consistent.{
  IsConsistent, IsLive, offered, offered_by, offered_by-cons, offered-free, owned-IsLive,
}
use environment_check.TaskQueues.Links.{update-IsConsistent}

abbrev pub emptied : TaskQueueEntry → TaskQueueEntry
emptied e = record e { task_source = shut_down e.task_source }

-- What stands at an id once its source is shut down.
abbrev pub emptied_at : Option TaskQueueEntry → Option TaskQueueEntry
emptied_at none = none
emptied_at (some e) = some (emptied e)

unfoldable shut_each : List ℕ → Entries → Entries
shut_each [] m = m
shut_each (x ∷ xs) m = shut_each xs (update m x (emptied_at (m x)))

emptied_twice : (o : Option TaskQueueEntry) → emptied_at (emptied_at o) ≡ emptied_at o
unfolding shut_down
emptied_twice none = refl
emptied_twice (some e) = refl

shut_each_lem :
    (xs : List ℕ) (m : Entries) (p : ℕ)
    → shut_each xs m p ≡ (if contains p xs then emptied_at (m p) else m p)
unfolding shut_each
shut_each_lem [] m p = refl
shut_each_lem (x ∷ xs) m p =
    let rest = shut_each_lem xs (update m x (emptied_at (m x))) p in
    elim (Bool-cases (p == x)) [
      | inl y ↦
          let p≡x = (==_iff p x).0 y in
          elim (Bool-cases (contains p xs)) [
            | inl c ↦ rest ∙ rw (c, y, p≡x) (emptied_twice (m x))
            | inr c ↦ rest ∙ rw (c, y, p≡x)
          ]
      | inr n ↦ rest ∙ rw n
    ]

abbrev IsThere : Entries → ℕ → Type 0
IsThere m x = (e : TaskQueueEntry) × (m x ≡ some e)

IsThere-still : (m : Entries) (x y : ℕ) → IsThere m y → IsThere (update m x (emptied_at (m x))) y
IsThere-still m x y (e, h) = elim (Bool-cases (y == x)) [
  | inl b ↦ (emptied e, rw (b, ← (==_iff y x).0 b, h))
  | inr b ↦ (e, rw b h)
]

shut_down_all_lem :
    (xs : List ℕ) (s : MessageLoopTaskQueues)
    → All (IsThere s.queue_entries) xs
    → shut_down_all xs s ≡ (returns tt, record s { queue_entries = shut_each xs s.queue_entries })
unfolding shut_down_all shut_each
shut_down_all_lem [] s h = refl
shut_down_all_lem (x ∷ xs) s ((e, hx), hs) =
    let next : MessageLoopTaskQueues = record s {
      queue_entries = update s.queue_entries x (some (emptied e));
    } in
    rw hx (
      shut_down_all_lem xs next
        (rw hx at (All-imp (IsThere s.queue_entries) (IsThere-still s.queue_entries x) xs hs)))

shut_each-IsConsistent :
    (xs : List ℕ) (m : Entries)
    → All (IsThere m) xs
    → IsConsistent m
    → IsConsistent (shut_each xs m)
unfolding shut_each
shut_each-IsConsistent [] m h v = v
shut_each-IsConsistent (x ∷ xs) m ((e, hx), hs) v =
    let sound = v.at x e hx in
    rw hx (
      shut_each-IsConsistent xs (update m x (some (emptied e)))
        (rw hx at (All-imp (IsThere m) (IsThere-still m x) xs hs))
        (update-IsConsistent v x e (emptied e) hx (record { same_owned = refl; same_owner = refl })
          (shut_down-IsValid sound.source) (unfold shut_down in sound.source_id)))

eligible-shut_down : (s : TaskSource) → eligible (shut_down s) ≡ []
unfolding eligible shut_down
eligible-shut_down s = ground arith

-- Queues whose sources are shut down offer nothing.
offered_by_shut :
    (m : Entries) (xs : List ℕ)
    → All (λ x. (e : TaskQueueEntry) × (m x ≡ some (emptied e))) xs
    → offered_by m xs ≡ []
offered_by_shut m [] h = unfold offered_by in refl
offered_by_shut m (x ∷ xs) ((e, hx), hs) =
    rw (offered_by-cons m xs hx, eligible-shut_down e.task_source) (offered_by_shut m xs hs)

module _ (s : MessageLoopTaskQueues) (q : ℕ) (e : TaskQueueEntry) (v : IsConsistent s.queue_entries)
    (h : s.queue_entries q ≡ some e) where
  abbrev Dropped : MessageLoopTaskQueues
  Dropped = record s {
    queue_entries = shut_each e.owner_of (update s.queue_entries q (some (emptied e)));
  }

  dropped_lem :
      (p : ℕ)
      → Dropped.queue_entries p ≡ (
          if p == q || contains p e.owner_of
          then emptied_at (s.queue_entries p)
          else s.queue_entries p)
  dropped_lem p =
      let each = shut_each_lem e.owner_of (update s.queue_entries q (some (emptied e))) p in
      elim (Bool-cases (p == q)) [
        | inl y ↦
            let own = ap s.queue_entries ((==_iff p q).0 y) ∙ h in
            elim (Bool-cases (contains p e.owner_of)) [
              | inl c ↦ each ∙ rw (c, y, own) (emptied_twice (some e))
              | inr c ↦ each ∙ rw (c, y, own)
            ]
        | inr n ↦ each ∙ rw n
      ]

  abbrev first : MessageLoopTaskQueues
  first = record s { queue_entries = update s.queue_entries q (some (emptied e)) }

  owned-IsThere : All (IsThere first.queue_entries) e.owner_of
  owned-IsThere =
      All-imp (IsLive s.queue_entries)
        (λ x (g, hg, _, _). rw h at (IsThere-still s.queue_entries q x (g, hg))) e.owner_of
        (owned-IsLive v (v.at q e h))

  dropped-IsConsistent : IsConsistent Dropped.queue_entries
  dropped-IsConsistent =
      let sound = v.at q e h in
      shut_each-IsConsistent e.owner_of first.queue_entries owned-IsThere (
        update-IsConsistent v q e (emptied e) h (record { same_owned = refl; same_owner = refl })
          (shut_down-IsValid sound.source) (unfold shut_down in sound.source_id))

  dropped_offers_nothing : is_subsumed e ≡ false → offered Dropped.queue_entries q ≡ []
  dropped_offers_nothing free =
      let found : Dropped.queue_entries q ≡ some (emptied e) =
        dropped_lem q ∙ rw ((==_iff q q).1 refl, h) in
      let owned_shut =
        All-of_contains (λ x. (g : TaskQueueEntry) × (Dropped.queue_entries x ≡ some (emptied g)))
          e.owner_of
          (λ x c.
            let (g, hg, _) = (v.at q e h).owned x c in
            (
              g,
              dropped_lem x
                  ∙ elim (Bool-cases (x == q)) [ inl y ↦ rw (y, hg) | inr n ↦ rw (n, c, hg) ],
            )) in
      rw
        (
          offered-free Dropped.queue_entries q (emptied e) found free,
          eligible-shut_down e.task_source,
        )
        (offered_by_shut Dropped.queue_entries e.owner_of owned_shut)

abbrev pub DropsTasks : MessageLoopTaskQueues → ℕ → TaskQueueEntry → Type 0
DropsTasks s q e =
    ((is_subsumed e ≡ true) × (dispose_tasks q s ≡ (fails check_failed, s)))
    ⊎ ((is_subsumed e ≡ false)
        × (s' : MessageLoopTaskQueues) × (dispose_tasks q s ≡ (returns tt, s'))
        × ((p : ℕ)
            → s'.queue_entries p ≡ (
                if p == q || contains p e.owner_of
                then emptied_at (s.queue_entries p)
                else s.queue_entries p))
        × (offered s'.queue_entries q ≡ [])
        × IsConsistent s'.queue_entries)

-- `DisposeTasks` of a queue that exists. If it is subsumed the check fails and nothing changes. Else
-- it returns; the heaps of the queue and of all that it owns are empty and nothing else of an entry
-- has changed, so the queue offers no task, and the links stay consistent.
pub dispose_tasks_outcome :
    (s : MessageLoopTaskQueues) (q : ℕ) (e : TaskQueueEntry)
    → IsConsistent s.queue_entries
    → s.queue_entries q ≡ some e
    → DropsTasks s q e
unfolding dispose_tasks
dispose_tasks_outcome s q e v h = elim (Bool-cases (is_subsumed e)) [
  | inl u ↦ inl (u, rw (h, u))
  | inr u ↦ inr (
    u,
    Dropped s q e v h,
    rw (h, u) (shut_down_all_lem e.owner_of (first s q e v h) (owned-IsThere s q e v h)),
    dropped_lem s q e v h,
    dropped_offers_nothing s q e v h u,
    dropped-IsConsistent s q e v h,
  )
]
