-- ===== src/WaitableEvent/Timeouts.antt =====
-- How `WaitWithTimeout` of `ManualResetWaitableEvent` ends.
use environment_check.Prelude.{
  ℕ, ◌+◌, ◌-◌, ◌≤◌, ◌<◌, ◌≡◌, refl, ap, some, Bool, true, false, not, List, [], ◌∷◌, ◌++◌, ◌||◌,
  ltb, leb, arith, Bool-cases, inl, inr,
}
use environment_check.Outcome.{Outcome, returns}
use environment_check.WaitableEvent.{
  ManualResetWaitableEvent, manual_condition, Wakeup, timed_out, woken, wait_loop,
  wait_with_timeout_impl, checked_wait, manual_wait_with_timeout,
}

module _ {E : Type 0} (condition : E → Bool) (start timeout : ℕ) where
  -- A wake-up after which the thread waits on.
  abbrev pub IsSpurious : Wakeup E → Type 0
  IsSpurious (timed_out e) = ⊥
  IsSpurious (woken e now) = (condition e ≡ false) × (start ≤ now) × (now < start + timeout)

  abbrev pub AreSpurious : List (Wakeup E) → Type 0
  AreSpurious [] = Unit {0}
  AreSpurious (w ∷ ws) = IsSpurious w × AreSpurious ws

  -- A wake-up that ends the wait.
  abbrev pub is_last : Wakeup E → Bool
  is_last (timed_out e) = true
  is_last (woken e now) = condition e || leb (start + timeout) now

  -- Whether it ends in a timeout, and the event then.
  abbrev pub answer : Wakeup E → Bool × E
  answer (timed_out e) = (true, e)
  answer (woken e now) = (not (condition e), e)

  wait_loop-last :
      (ws : List (Wakeup E)) (w : Wakeup E) (rest : List (Wakeup E))
      → AreSpurious ws
      → is_last w ≡ true
      → wait_loop condition start timeout (ws ++ w ∷ rest) ≡ some (returns (answer w))
  unfolding wait_loop
  wait_loop-last [] (timed_out e) rest s l = refl
  wait_loop-last [] (woken e now) rest s l = elim (Bool-cases (condition e)) [
    | inl y ↦ rw y
    | inr y ↦
        let reached : leb (start + timeout) now ≡ true = rw y at l in
        let not_early : ltb now start ≡ false = ground arith in
        let late : leb timeout (now - start) ≡ true = ground arith in rw (y, not_early, late)
  ]
  wait_loop-last (timed_out e ∷ ws) w rest s l = absurd s.0
  wait_loop-last (woken e now ∷ ws) w rest ((c, from, before), s) l =
      let not_early : ltb now start ≡ false = ground arith in
      let not_late : leb timeout (now - start) ≡ false = ground arith in
      rw (c, not_early, not_late) (wait_loop-last ws w rest s l)

  checked_answer :
      (w : Wakeup E) (again : Bool × E → Outcome (Bool × E))
      → ((e : E) → again (true, e) ≡ returns (true, e))
      → ((e : E) → condition e ≡ true → again (false, e) ≡ returns (false, e))
      → again (answer w) ≡ returns (answer w)
  checked_answer (timed_out e) again late signalled = late e
  checked_answer (woken e now) again late signalled = elim (Bool-cases (condition e)) [
    | inl y ↦ rw y (signalled e y)
    | inr y ↦ rw y (late e)
  ]

not_signalled :
    (e : ManualResetWaitableEvent) → e.signaled ≡ false → manual_condition e.signal_id e ≡ false
unfolding manual_condition
not_signalled e off = ground (arith, off)

-- WaitWithTimeout of a manual event that is not signaled waits on while the wake-ups are spurious:
-- they find no signal, and come before the timeout has passed. The first other wake-up, a timeout,
-- a signal, or a time so late, ends it. It returns true, or false if that wake-up finds a signal,
-- and passes its check at the end.
pub manual_wait_with_timeout-last :
    (start timeout : ℕ) (e : ManualResetWaitableEvent) (ws : List (Wakeup ManualResetWaitableEvent))
    (w : Wakeup ManualResetWaitableEvent) (rest : List (Wakeup ManualResetWaitableEvent))
    → e.signaled ≡ false
    → AreSpurious (manual_condition e.signal_id) start timeout ws
    → is_last (manual_condition e.signal_id) start timeout w ≡ true
    → manual_wait_with_timeout start timeout e (ws ++ w ∷ rest)
      ≡ some (returns (answer (manual_condition e.signal_id) start timeout w))
unfolding manual_wait_with_timeout wait_with_timeout_impl checked_wait
manual_wait_with_timeout-last start timeout e ws w rest off s l =
    let waits = not_signalled e off in
    let ends = wait_loop-last (manual_condition e.signal_id) start timeout ws w rest s l in
    rw (waits, ends)
      (ap some (
        checked_answer (manual_condition e.signal_id) start timeout w (checked_wait e.signal_id)
          (λ x. refl) (λ x h. rw h)))
