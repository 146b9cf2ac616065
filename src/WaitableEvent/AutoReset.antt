-- ===== src/WaitableEvent/AutoReset.antt =====
-- Signals and waits of `AutoResetWaitableEvent`.
use environment_check.Prelude.{ℕ, ◌+◌, ◌≤◌, Bool, true, false, List, [], ◌∷◌, arith}
use environment_check.WaitableEvent.{
  AutoResetWaitableEvent, new_auto_reset, AutoCall, auto_step, auto_signal, auto_reset,
  auto_wait_test, auto_wait_with_timeout, auto_wait_loop, signal_taken,
}

abbrev pub count : Bool → ℕ
count true = 1
count false = 0

abbrev pub is_signal : AutoCall → Bool
is_signal AutoCall.signals = true
is_signal _ = false

abbrev pub signals_in : List AutoCall → ℕ
signals_in [] = 0
signals_in (c ∷ cs) = count (is_signal c) + signals_in cs

-- How many waits the calls end, from an event.
abbrev pub ended_by : List AutoCall → AutoResetWaitableEvent → ℕ
ended_by [] e = 0
ended_by (c ∷ cs) e = let r = auto_step c e in count r.0 + ended_by cs r.1

-- A call gives an event a signal, or takes one where it ends a wait.
step_le :
    (c : AutoCall) (e : AutoResetWaitableEvent)
    → count (auto_step c e).0 + count (auto_step c e).1.signaled
      ≤ count (is_signal c) + count e.signaled
unfolding auto_step auto_signal auto_reset auto_wait_test auto_wait_with_timeout auto_wait_loop
    signal_taken
step_le AutoCall.signals e = omega arith
step_le AutoCall.resets e = omega arith
step_le AutoCall.tests e = ground arith
step_le (AutoCall.starts start timeout) e = ground arith
step_le (AutoCall.expires start timeout) e = omega arith
step_le (AutoCall.wakes start timeout now) e = ground arith

ended_le :
    (cs : List AutoCall) (e : AutoResetWaitableEvent)
    → ended_by cs e ≤ signals_in cs + count e.signaled
ended_le [] e = omega arith
ended_le (c ∷ cs) e = omega (arith, step_le c e, ended_le cs (auto_step c e).1)

-- Whatever threads call, Signal, Reset, Wait and WaitWithTimeout, in any order and with any wake-ups
-- and timeouts, no more waits end by a signal than there were signals.
pub ended_le_signals : (cs : List AutoCall) → ended_by cs new_auto_reset ≤ signals_in cs
ended_le_signals cs = omega (arith, ended_le cs new_auto_reset)
