-- ===== src/TaskQueues/Fifo.antt =====
-- `order_++`, an `int` that becomes a `size_t`: tasks for one time leave in the order of registration.
use environment_check.Prelude.{
  ℕ, suc, ◌+◌, ◌%◌, ◌^◌, ◌<◌, ◌≤◌, ◌≡◌, refl, ap, true, false, List, [], ◌∷◌, All, All-imp, length,
  map, arith,
}
use environment_check.Outcome.{returns}
use environment_check.Exec.{pure, ◌>>=◌}
use environment_check.DelayedTask.{DelayedTask, Closure, TimePoint, TaskSourceGrade, ◌>◌}
use environment_check.TaskQueues.State.{
  MessageLoopTaskQueues, Method, sign_extend, next_order, make_task,
}

-- Conversion keeps the order of the bit patterns, across the change of sign at 2 ^ 31.
sign_extend_mono : (w w' : ℕ) → w < w' → w' < 2 ^ 32 → sign_extend w < sign_extend w'
sign_extend_mono w w' h fits = ground arith

-- The tasks that calls of `RegisterTask` for one time make, one call after the other.
unfoldable pub make_each : TimePoint → List (Closure × TaskSourceGrade) → Method (List DelayedTask)
make_each time [] = pure []
make_each time ((task, grade) ∷ rs) = do
  t ← make_task task time grade
  ts ← make_each time rs
  pure (t ∷ ts)

-- Each task is greater than all before it.
abbrev pub IsAscending : List DelayedTask → Type 0
IsAscending [] = Unit {0}
IsAscending (t ∷ ts) = All (λ u. ((u > t) ≡ true) × ((t > u) ≡ false)) ts × IsAscending ts

-- A task for the time whose order is drawn from a counter of `n` or more that has not wrapped round.
abbrev IsDrawn : TimePoint → ℕ → DelayedTask → Type 0
IsDrawn time n t =
    (t.target_time ≡ time) × (k : ℕ) × (t.order ≡ sign_extend k) × (n ≤ k) × (k < 2 ^ 32)

later :
    (time : TimePoint) (n : ℕ) (t u : DelayedTask)
    → t.target_time ≡ time
    → t.order ≡ sign_extend n
    → IsDrawn time (suc n) u
    → ((u > t) ≡ true) × ((t > u) ≡ false)
unfolding ◌>◌
later time n t u at o (at', k, o', less, fits) =
    let m = sign_extend_mono n k (omega (arith, less)) fits in
    (ground (arith, m, at, o, at', o'), ground (arith, m, at, o, at', o'))

earlier : (time : TimePoint) (n : ℕ) (u : DelayedTask) → IsDrawn time (suc n) u → IsDrawn time n u
earlier time n u (at, k, o, less, fits) = (at, k, o, omega (arith, less), fits)

make_each_lem :
    (time : TimePoint) (rs : List (Closure × TaskSourceGrade)) (s : MessageLoopTaskQueues)
    → s.order + length rs < 2 ^ 32
    → (ts : List DelayedTask) × (s' : MessageLoopTaskQueues) × (make_each time rs s
        ≡ (returns ts, s'))
      × All (IsDrawn time s.order) ts
      × IsAscending ts
      × (map (λ t. t.task) ts ≡ map (λ r. r.0) rs)
unfolding make_each make_task next_order
make_each_lem time [] s h = ([], s, refl, tt, tt, refl)
make_each_lem time ((task, grade) ∷ rs) s h =
    let t : DelayedTask = record {
      order = sign_extend s.order;
      task = task;
      target_time = time;
      task_source_grade = grade;
    } in
    let next : MessageLoopTaskQueues = record s { order = (s.order + 1) % 2 ^ 32 } in
    let drawn : next.order ≡ suc s.order = omega (arith, h) in
    let (ts, s', eq, from, ascending, same) =
      make_each_lem time rs next (omega (arith, h, drawn)) in
    let after = rw drawn at from in
    (
      t ∷ ts,
      s',
      rw eq refl,
      (
        (refl, s.order, refl, omega arith, omega (arith, h)),
        All-imp (IsDrawn time (suc s.order)) (earlier time s.order) ts after,
      ),
      (
        All-imp (IsDrawn time (suc s.order)) (λ u. later time s.order t u refl refl) ts after,
        ascending,
      ),
      ap (λ cs. task ∷ cs) same,
    )

-- Calls of `RegisterTask` for one time, with any closures and grades, while the order counter does
-- not reach 2 ^ 32: they make a task for each closure, in order, and each task is greater than all
-- that were made before it, across the change of sign of the counter at 2 ^ 31.
pub later_is_greater :
    (time : TimePoint) (rs : List (Closure × TaskSourceGrade)) (s : MessageLoopTaskQueues)
    → s.order + length rs < 2 ^ 32
    → (ts : List DelayedTask) × (s' : MessageLoopTaskQueues) × (make_each time rs s
        ≡ (returns ts, s'))
      × (map (λ t. t.task) ts ≡ map (λ r. r.0) rs)
      × IsAscending ts
later_is_greater time rs s h =
    let (ts, s', eq, _, ascending, same) = make_each_lem time rs s h in
    (ts, s', eq, same, ascending)
