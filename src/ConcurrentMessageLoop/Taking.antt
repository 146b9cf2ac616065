-- ===== src/ConcurrentMessageLoop/Taking.antt =====
-- What a worker takes at the end of its wait, and what `PostTaskToAllWorkers` gives to each.
use environment_check.Prelude.{
  set_at, ℕ, zero, suc, ◌+◌, ◌<◌, ◌≤◌, ◌≡◌, refl, ap, ◌∙◌, Option, none, some, false, List, [], ◌∷◌,
  ◌++◌, ◌==◌, ==_iff, Bool-cases, Option-cases, inl, inr, arith, if◌then◌else◌,
}
use environment_check.Outcome.{returns}
use environment_check.ConcurrentMessageLoop.{
  ConcurrentMessageLoop, ids_from, emplace_each, or_empty, front, rest_of, take_work,
  take_thread_tasks, get_thread_tasks_locked, has_thread_tasks_locked, with_task,
}

abbrev kept : ConcurrentMessageLoop → ℕ → Option (List ℕ) → ℕ → Option (List ℕ)
kept l w none = l.thread_tasks
kept l w (some cs) = set_at w none l.thread_tasks

-- What is left when the worker `w` has taken its work.
abbrev pub left : ℕ → ConcurrentMessageLoop → ConcurrentMessageLoop
left w l = record l { tasks = rest_of l.tasks; thread_tasks = kept l w (l.thread_tasks w) }

get_thread_tasks_lem :
    (w : ℕ) (l : ConcurrentMessageLoop) (cs : List ℕ)
    → l.thread_tasks w ≡ some cs
    → get_thread_tasks_locked w l
      ≡ (returns cs, record l { thread_tasks = set_at w none l.thread_tasks })
unfolding get_thread_tasks_locked
get_thread_tasks_lem w l cs h = rw h

none_left : (w : ℕ) (m : ℕ → Option (List ℕ)) → set_at w none m w ≡ none
none_left w m = rw ((==_iff w w).1 refl)

take_thread_tasks_lem :
    (w : ℕ) (l : ConcurrentMessageLoop)
    → take_thread_tasks w l ≡ (
      returns (or_empty (l.thread_tasks w)),
      record l { thread_tasks = kept l w (l.thread_tasks w) },
    )
unfolding take_thread_tasks has_thread_tasks_locked
take_thread_tasks_lem w l = elim (Option-cases (l.thread_tasks w)) [
  | inl n ↦ rw n
  | inr (cs, h) ↦ rw (h, get_thread_tasks_lem w l cs h, none_left w l.thread_tasks)
]

pub take_work_lem :
    (w : ℕ) (l : ConcurrentMessageLoop)
    → take_work w l ≡ (returns (front l.tasks, or_empty (l.thread_tasks w), l.shutdown), left w l)
unfolding take_work
take_work_lem w l = rw (take_thread_tasks_lem w (record l { tasks = rest_of l.tasks }))

pub left-kept :
    (w v : ℕ) (l : ConcurrentMessageLoop)
    → or_empty ((left w l).thread_tasks v) ≡ (if v == w then [] else or_empty (l.thread_tasks v))
left-kept w v l = elim (Option-cases (l.thread_tasks w)) [
  | inl n ↦ elim (Bool-cases (v == w)) [
    | inl y ↦ rw (n, y, (==_iff v w).0 y, n)
    | inr y ↦ rw (n, y)
  ]
  | inr (cs, h) ↦ elim (Bool-cases (v == w)) [ inl y ↦ rw (h, y) | inr y ↦ rw (h, y) ]
]

-- An id before all of a range gets nothing, and one within it gets the closure once.
emplace_before :
    (c i n w : ℕ) (m : ℕ → Option (List ℕ)) → w < i → emplace_each c (ids_from i n) m w ≡ m w
unfolding emplace_each
emplace_before c i zero w m b = refl
emplace_before c i (suc n) w m b =
    let other : (w == i) ≡ false = ground (arith, b) in
    emplace_before c (suc i) n w (set_at i (some (or_empty (m i) ++ c ∷ [])) m) (omega (arith, b))
    ∙ rw other

pub emplace_lem :
    (c i n w : ℕ) (m : ℕ → Option (List ℕ))
    → i ≤ w
    → w < i + n
    → or_empty (emplace_each c (ids_from i n) m w) ≡ or_empty (m w) ++ c ∷ []
unfolding emplace_each
emplace_lem c i zero w m b d = absurd (omega (arith, b, d))
emplace_lem c i (suc n) w m b d =
    let m' : ℕ → Option (List ℕ) = set_at i (some (or_empty (m i) ++ c ∷ [])) m in
    elim (Bool-cases (w == i)) [
      | inl y ↦
          let w≡i = (==_iff w i).0 y in
          ap or_empty (emplace_before c (suc i) n w m' (omega (arith, w≡i))) ∙ rw (y, w≡i)
      | inr y ↦ emplace_lem c (suc i) n w m' (ground (arith, b)) (omega (arith, d)) ∙ rw y
    ]

pub front-rest_of : (xs : List ℕ) → xs ≡ with_task (front xs) [] ++ rest_of xs
front-rest_of [] = refl
front-rest_of (x ∷ xs) = refl
