-- ===== src/Examples/Waits.antt =====
-- Concrete runs of the timed waits of synchronization/waitable_event.cc.
use environment_check.Prelude.{◌≡◌, refl, some, false, List, [], ◌∷◌, arith}
use environment_check.Outcome.{returns}
use environment_check.WaitableEvent.{
  ManualResetWaitableEvent, Wakeup, woken, new_manual_reset, manual_signal, manual_condition,
  manual_wait_with_timeout,
}
use environment_check.WaitableEvent.Timeouts.{manual_wait_with_timeout-last}

-- A spurious wake-up, then a signal.
abbrev wakeups : List (Wakeup ManualResetWaitableEvent)
wakeups = woken new_manual_reset 110 ∷ woken (manual_signal new_manual_reset) 120 ∷ []

manual_wait_with_timeout-last_example :
    manual_wait_with_timeout 100 50 new_manual_reset wakeups
    ≡ some (returns (false, manual_signal new_manual_reset))
unfolding manual_condition manual_signal
manual_wait_with_timeout-last_example =
    manual_wait_with_timeout-last 100 50 new_manual_reset (woken new_manual_reset 110 ∷ [])
      (woken (manual_signal new_manual_reset) 120) [] refl ((refl, omega arith, omega arith), tt)
      refl
