-- ===== src/MessageLoopImpl/Due.antt =====
-- The tasks that are due at the time of a flush, and how `GetNextTaskToRun` takes the first of them.
use mathlib.Core.List.Perm
use environment_check.Prelude.{
  ℕ, ◌≡◌, refl, ap, ◌∙◌, Option, none, some, true, false, List, [], ◌∷◌, ◌++◌, ◌⊎◌, inl, inr, Perm,
  filter, All, All-append, All-perm, dec_false, is_some, is_nil, ◌==◌, nil_of_is_nil, ltb, map,
  arith, Bool-cases,
}
use mathlib.Core.Path.{subst}
use environment_check.Outcome.{returns}
use environment_check.DelayedTask.{DelayedTask, Closure, TimePoint, ◌>◌}
use environment_check.DelayedTask.Heap.{Before}
use environment_check.TaskQueues.Entries.{TaskQueueEntry, is_subsumed}
use environment_check.TaskQueues.Reads.{observers_of, get_observers_to_notify}
use environment_check.TaskQueues.State.{MessageLoopTaskQueues, get_next_task_to_run}
use environment_check.TaskQueues.Consistent.{IsConsistent, IsLive, offered, owned-IsLive}
use environment_check.TaskQueues.Links.{update-cases}
use environment_check.TaskQueues.Next.{next_nothing, next_something, taken, with_source}
use environment_check.TaskQueues.Wakes.{woken, wake_call}
use environment_check.TaskQueues.Peek.{IsNext}
use environment_check.TaskSource.{TopTask}

-- The tasks whose time is `now` or before.
abbrev pub due : TimePoint → List DelayedTask → List DelayedTask
due now = filter (λ t. dec_false (ltb now t.target_time))

All-due {ℓ} :
    (P : DelayedTask → Type ℓ) (now : TimePoint) (xs : List DelayedTask)
    → All P xs
    → All P (due now xs)
All-due P now [] h = tt
All-due P now (x ∷ xs) (h, hs) = elim (Bool-cases (ltb now x.target_time)) [
  | inl b ↦ rw b (All-due P now xs hs)
  | inr b ↦ rw b (h, All-due P now xs hs)
]

due-cons :
    (now : TimePoint) (t : DelayedTask) (xs : List DelayedTask)
    → ltb now t.target_time ≡ false
    → due now (t ∷ xs) ≡ t ∷ due now xs
due-cons now t xs h = rw h

late_after :
    (now : TimePoint) (t x : DelayedTask)
    → ltb now t.target_time ≡ true
    → Before t x
    → ltb now x.target_time ≡ true
unfolding ◌>◌
late_after now t x l b = ground arith

-- Where the first task is late, so are all.
none_due :
    (now : TimePoint) (t : DelayedTask) (xs : List DelayedTask)
    → ltb now t.target_time ≡ true
    → All (Before t) xs
    → due now xs ≡ []
none_due now t [] l h = refl
none_due now t (x ∷ xs) l (b, h) = rw (late_after now t x l b) (none_due now t xs l h)

abbrev HasClosure : DelayedTask → Type 0
HasClosure t = is_some t.task ≡ true

-- The queue `q` is there in a consistent map, each task that it offers has a closure, and so has
-- each observer.
pub record IsReady (q : ℕ) (s : MessageLoopTaskQueues) : Type 0 where
  pub consistent : IsConsistent s.queue_entries
  pub entry : TaskQueueEntry
  pub found : s.queue_entries q ≡ some entry
  pub closures : All HasClosure (offered s.queue_entries q)
  pub observers :
      (p : ℕ) (e : TaskQueueEntry)
      → s.queue_entries p ≡ some e
      → All (λ o. is_some o.1 ≡ true) e.task_observers

some_of {ℓ} : {A : Type ℓ} (o : Option A) → is_some o ≡ true → (a : A) × (o ≡ some a)
some_of none h = cc
some_of (some a) h = (a, refl)

Callbacks-map :
    (os : List (ℕ × Closure))
    → All (λ o. is_some o.1 ≡ true) os
    → All (λ c. is_some c ≡ true) (map (λ o. o.1) os)
Callbacks-map [] h = tt
Callbacks-map (o ∷ os) (h, hs) = (h, Callbacks-map os hs)

module _ (q : ℕ) (s : MessageLoopTaskQueues) (v : IsReady q s) where
  abbrev Observers : List Closure → Type 0
  Observers = All (λ c. is_some c ≡ true)

  observers_of_lem :
      (xs : List ℕ)
      → All (IsLive s.queue_entries) xs
      → (os : List Closure) × (observers_of s.queue_entries xs ≡ returns os) × Observers os
  unfolding observers_of
  observers_of_lem [] live = ([], refl, tt)
  observers_of_lem (x ∷ xs) ((e, h, _, _), live) =
      let (os, eq, all) = observers_of_lem xs live in
      let own = map (λ o. o.1) e.task_observers in
      (
        own ++ os,
        rw (h, eq),
        All-append (λ c. is_some c ≡ true) own os
            (Callbacks-map e.task_observers (v.observers x e h)) all,
      )

  pub get_observers_lem :
      (os : List Closure) × (get_observers_to_notify s.queue_entries q ≡ returns os) × Observers os
  unfolding get_observers_to_notify
  get_observers_lem = elim (Bool-cases (is_subsumed v.entry)) [
    | inl u ↦ ([], rw (v.found, u), tt)
    | inr u ↦
        let sound = v.consistent.at q v.entry v.found in
        let (os, eq, all) = observers_of_lem v.entry.owner_of (owned-IsLive v.consistent sound) in
        let own = map (λ o. o.1) v.entry.task_observers in
        (
          own ++ os,
          rw (v.found, u, eq),
          All-append (λ c. is_some c ≡ true) own os
              (Callbacks-map v.entry.task_observers (v.observers q v.entry v.found)) all,
        )
  ]

  module _ (thread : ℕ) (t : TopTask) (next : IsNext s.queue_entries q v.entry.owner_of t) where
    abbrev after : MessageLoopTaskQueues
    after = taken s thread t next.top.entry next.top.source

    entry_taken : (e : TaskQueueEntry) × (after.queue_entries q ≡ some e)
    entry_taken = elim (Bool-cases (q == t.task_queue_id)) [
      | inl y ↦ (with_source next.top.entry next.top.source, rw y)
      | inr y ↦ (v.entry, rw y v.found)
    ]

    observers_taken :
        (p : ℕ) (e : TaskQueueEntry)
        → after.queue_entries p ≡ some e
        → All (λ o. is_some o.1 ≡ true) e.task_observers
    observers_taken p e h =
        elim (update-cases s.queue_entries t.task_queue_id
          (with_source next.top.entry next.top.source) p e h) [
            | inl (y, same) ↦
                subst (λ (g : TaskQueueEntry). All (λ o. is_some o.1 ≡ true) g.task_observers) same
                  (v.observers t.task_queue_id next.top.entry next.top.found)
            | inr (_, h') ↦ v.observers p e h'
          ]

  module _ (thread : ℕ) (now : TimePoint) where
    -- A call of `GetNextTaskToRun` that gives no task, which changes no entry.
    abbrev pub Idles : Type 0
    Idles =
        (s' : MessageLoopTaskQueues) × (get_next_task_to_run thread q now s ≡ (returns none, s'))
        × IsReady q s'
        × (due now (offered s.queue_entries q) ≡ [])
        × (due now (offered s'.queue_entries q) ≡ [])

    -- A call that gives the first of the tasks that are due.
    abbrev pub Gives : Type 0
    Gives =
        (t : DelayedTask) × (c : ℕ) × (s' : MessageLoopTaskQueues) × (t.task ≡ some c)
        × (get_next_task_to_run thread q now s ≡ (returns (some c), s'))
        × IsReady q s'
        × All (Before t) (due now (offered s.queue_entries q))
        × Perm (t ∷ due now (offered s'.queue_entries q)) (due now (offered s.queue_entries q))

    pub get_next-cases : Idles ⊎ Gives
    get_next-cases = elim (Bool-cases (is_nil (offered s.queue_entries q))) [
      | inl n ↦
          let none_left = ap (due now) (nil_of_is_nil _ n) in
          inl
            (s, next_nothing s v.consistent q v.entry v.found thread now n, v, none_left, none_left)
      | inr n ↦
          let (t, next, (eq, _, perm, consistent)) =
            next_something s v.consistent q v.entry v.found thread now n in
          elim (Bool-cases (ltb now t.task.target_time)) [
            | inl l ↦
                let none_left = none_due now t.task _ l next.earliest in
                inl (
                  woken s (wake_call v.entry.wakeable t.task.target_time),
                  rw l at eq,
                  record {
                    consistent = v.consistent;
                    entry = v.entry;
                    found = v.found;
                    closures = v.closures;
                    observers = v.observers;
                  },
                  none_left,
                  none_left,
                )
            | inr l ↦
                let (has, rest) =
                  All-perm (λ (t : DelayedTask). is_some t.task) true (Perm.symm perm) v.closures in
                let (c, task) = some_of t.task.task has in
                let (e, found) = entry_taken thread t next in
                inr (
                  t.task,
                  c,
                  woken (taken s thread t next.top.entry next.top.source)
                      (wake_call v.entry.wakeable t.task.target_time),
                  task,
                  (rw l at eq) ∙ rw task,
                  record {
                    consistent = consistent;
                    entry = e;
                    found = found;
                    closures = rest;
                    observers = observers_taken thread t next;
                  },
                  All-due (Before t.task) now _ next.earliest,
                  subst (λ xs. Perm xs (due now (offered s.queue_entries q)))
                      (due-cons now t.task _ l)
                      (Perm.filter (λ t. dec_false (ltb now t.target_time)) perm),
                )
          ]
    ]
