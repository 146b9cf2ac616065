-- ===== src/TaskRunner/Threads.antt =====
-- Which queues run on one thread.
use environment_check.Prelude.{
  ℕ, ◌≡◌, refl, sym, ap, ◌∙◌, some, Bool, true, false, ◌==◌, ◌||◌, contains, Bool-cases, inl, inr,
  ==_iff, arith,
}
use environment_check.Outcome.{returns}
use environment_check.TaskQueues.Entries.{Entries, TaskQueueEntry, unmerged}
use environment_check.TaskQueues.Reads.{owns}
use environment_check.TaskQueues.Consistent.{IsConsistent}
use environment_check.TaskRunner.{runs_on_the_same_thread, or_else}

either_way :
    (x y : Bool) → or_else (returns x) (or_else (returns y) (returns false)) ≡ returns (x || y)
either_way true y = refl
either_way false true = refl
either_way false false = refl

module _ {m : Entries} (v : IsConsistent m) where
  module _ (a b : ℕ) (ea eb : TaskQueueEntry) (ha : m a ≡ some ea) (hb : m b ≡ some eb) where
    -- A queue owns those that name it.
    contains-subsumed_by : contains b ea.owner_of ≡ (eb.subsumed_by == a)
    contains-subsumed_by = elim (Bool-cases (contains b ea.owner_of)) [
      | inl c ↦
          let (e, h, by) = (v.at a ea ha).owned b c in
          let same : e ≡ eb = cc in
          c
          ∙ sym (
              (==_iff eb.subsumed_by a).1
                (sym (ap (λ (x : TaskQueueEntry). x.subsumed_by) same) ∙ by))
      | inr c ↦ elim (Bool-cases (eb.subsumed_by == a)) [
        | inl y ↦
            let by = (==_iff eb.subsumed_by a).0 y in
            let (o, ho, owned) =
              (v.at b eb hb).owner (ground (arith, by, (v.at a ea ha).mergeable)) in
            let same : o ≡ ea = cc (ap m by) in
            sym (ap (λ (x : TaskQueueEntry). contains b x.owner_of) same) ∙ owned ∙ sym y
        | inr n ↦ c ∙ sym n
      ]
    ]

    owns-subsumed_by : owns m a b ≡ returns (eb.subsumed_by == a)
    unfolding owns
    owns-subsumed_by =
        let mine : (a == unmerged) ≡ false = ground (arith, (v.at a ea ha).mergeable) in
        let theirs : (b == unmerged) ≡ false = ground (arith, (v.at b eb hb).mergeable) in
        rw (mine, theirs, ha) (ap (λ x. returns x) contains-subsumed_by)

  -- Where the links of the queues are consistent, RunsOnTheSameThread of two queues that are there
  -- returns, and answers whether they are the same or one is subsumed by the other.
  pub runs_on_the_same_thread-subsumed_by :
      (a b : ℕ) (ea eb : TaskQueueEntry)
      → m a ≡ some ea
      → m b ≡ some eb
      → runs_on_the_same_thread m a b
        ≡ returns (a == b || ((eb.subsumed_by == a) || (ea.subsumed_by == b)))
  unfolding runs_on_the_same_thread
  runs_on_the_same_thread-subsumed_by a b ea eb ha hb = elim (Bool-cases (a == b)) [
    | inl y ↦ rw y
    | inr n ↦
        rw (n, owns-subsumed_by a b ea eb ha hb, owns-subsumed_by b a eb ea hb ha)
          (either_way (eb.subsumed_by == a) (ea.subsumed_by == b))
  ]
