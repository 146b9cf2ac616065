-- ===== src/WaitableEvent.antt =====
-- app/src/main/cpp/synchronization/waitable_event.h and waitable_event.cc. What a thread does
-- between two waits of the condition variable it does under the mutex, so it is one step.
pub mod AutoReset
pub mod ManualReset
pub mod Timeouts
use mathlib.Core.Option.{map}
use environment_check.Outcome.{Outcome, returns, fails, check, check_failed, ◌>>=◌, ◌>>◌}
use environment_check.Prelude.{
  ℕ, ◌+◌, ◌-◌, ◌%◌, ◌^◌, Option, none, some, Bool, true, false, List, [], ◌∷◌, ◌==◌, ◌||◌, not, leb,
  ltb, if◌then◌else◌,
}

-- The state that `AutoResetWaitableEvent` guards.
pub record AutoResetWaitableEvent : Type 0 where
  pub signaled : Bool

abbrev pub new_auto_reset : AutoResetWaitableEvent
new_auto_reset = record { signaled = false }

unfoldable pub auto_signal : AutoResetWaitableEvent → AutoResetWaitableEvent
auto_signal e = record e { signaled = true }

unfoldable pub auto_reset : AutoResetWaitableEvent → AutoResetWaitableEvent
auto_reset e = record e { signaled = false }

-- A test of the loop of `Wait`, at its start or after a wake-up: whether the wait is over.
unfoldable pub auto_wait_test : AutoResetWaitableEvent → Bool × AutoResetWaitableEvent
auto_wait_test e = if e.signaled then (true, record e { signaled = false }) else (false, e)

-- How `wait_for` ends: with a timeout, or a wake-up that finds the time `now`; and the event then.
pub data Wakeup (E : Type 0) : Type 0 where
  timed_out : E → Wakeup E
  woken : E → ℕ → Wakeup E

-- The loop of `WaitWithTimeout` over the ends of its waits: what it returns and the event that it
-- leaves, or `none` while it still waits. Times are in ticks of one clock, and no timeout is
-- negative.
unfoldable pub auto_wait_loop :
    ℕ → ℕ → List (Wakeup AutoResetWaitableEvent) → Option (Outcome (Bool × AutoResetWaitableEvent))
auto_wait_loop start timeout [] = none
auto_wait_loop start timeout (timed_out e ∷ ws) = some (returns (true, e))
auto_wait_loop start timeout (woken e now ∷ ws) =
    let rest = auto_wait_loop start timeout ws in
    if e.signaled
    then some (returns (false, record e { signaled = false }))
    else if ltb now start
    then some (fails check_failed)
    else if leb timeout (now - start)
    then some (returns (true, e))
    else rest

unfoldable pub auto_wait_with_timeout :
    ℕ
    → ℕ
    → AutoResetWaitableEvent
    → List (Wakeup AutoResetWaitableEvent)
    → Option (Outcome (Bool × AutoResetWaitableEvent))
auto_wait_with_timeout start timeout e ws =
    if e.signaled
    then some (returns (false, record e { signaled = false }))
    else auto_wait_loop start timeout ws

-- The calls that threads make of an event, in the order in which they get the mutex. `tests` is a
-- test of `Wait`; `starts` is the start of `WaitWithTimeout`, `wakes` a wake-up of it and `expires`
-- the end of its `wait_for` by the timeout. Their numbers are its start, its timeout and the time.
pub data AutoCall : Type 0 where
  signals resets tests : AutoCall
  starts expires : ℕ → ℕ → AutoCall
  wakes : ℕ → ℕ → ℕ → AutoCall

-- What a step of `WaitWithTimeout` did: whether it ended the wait by a signal, and the event then.
unfoldable pub signal_taken :
    AutoResetWaitableEvent
    → Option (Outcome (Bool × AutoResetWaitableEvent))
    → Bool × AutoResetWaitableEvent
signal_taken e none = (false, e)
signal_taken e (some (fails f)) = (false, e)
signal_taken e (some (returns (timeout, e'))) = (not timeout, e')

-- Whether a wait ended by a signal, and the event after the call.
unfoldable pub auto_step : AutoCall → AutoResetWaitableEvent → Bool × AutoResetWaitableEvent
unfolding signal_taken
auto_step signals e = (false, auto_signal e)
auto_step resets e = (false, auto_reset e)
auto_step tests e = auto_wait_test e
auto_step (starts start timeout) e = signal_taken e (auto_wait_with_timeout start timeout e [])
auto_step (expires start timeout) e =
    signal_taken e (auto_wait_loop start timeout (timed_out e ∷ []))
auto_step (wakes start timeout now) e =
    signal_taken e (auto_wait_loop start timeout (woken e now ∷ []))

-- The state that `ManualResetWaitableEvent` guards; `signal_id` is an `unsigned` of 32 bits.
pub record ManualResetWaitableEvent : Type 0 where
  pub signaled : Bool
  pub signal_id : ℕ

abbrev pub new_manual_reset : ManualResetWaitableEvent
new_manual_reset = record { signaled = false; signal_id = 0 }

unfoldable pub manual_signal : ManualResetWaitableEvent → ManualResetWaitableEvent
manual_signal e = record { signaled = true; signal_id = (e.signal_id + 1) % 2 ^ 32 }

unfoldable pub manual_reset : ManualResetWaitableEvent → ManualResetWaitableEvent
manual_reset e = record e { signaled = false }

-- The start of `Wait`: `none` where it returns at once, else the id with which it waits.
unfoldable pub manual_wait_start : ManualResetWaitableEvent → Option ℕ
manual_wait_start e = if e.signaled then none else some e.signal_id

-- The test after a wake-up: whether the wait is over.
unfoldable pub manual_wait_test : ℕ → ManualResetWaitableEvent → Bool
manual_wait_test last_signal_id e = not (e.signal_id == last_signal_id)

-- The condition of `WaitWithTimeout`.
unfoldable pub manual_condition : ℕ → ManualResetWaitableEvent → Bool
manual_condition last_signal_id e = e.signaled || not (e.signal_id == last_signal_id)

-- The loop of `WaitWithTimeoutImpl`, likewise.
unfoldable pub wait_loop :
    {E : Type 0} → (E → Bool) → ℕ → ℕ → List (Wakeup E) → Option (Outcome (Bool × E))
wait_loop condition start timeout [] = none
wait_loop condition start timeout (timed_out e ∷ ws) = some (returns (true, e))
wait_loop condition start timeout (woken e now ∷ ws) =
    let rest = wait_loop condition start timeout ws in
    if condition e
    then some (returns (false, e))
    else if ltb now start
    then some (fails check_failed)
    else if leb timeout (now - start)
    then some (returns (true, e))
    else rest

unfoldable pub wait_with_timeout_impl :
    {E : Type 0} → (E → Bool) → ℕ → ℕ → E → List (Wakeup E) → Option (Outcome (Bool × E))
wait_with_timeout_impl condition start timeout e ws =
    if condition e then some (returns (false, e)) else wait_loop condition start timeout ws

-- The check at the end of `WaitWithTimeout`.
unfoldable pub checked_wait :
    ℕ → Bool × ManualResetWaitableEvent → Outcome (Bool × ManualResetWaitableEvent)
checked_wait last_signal_id (rv, e) = do
  check (rv || manual_condition last_signal_id e)
  returns (rv, e)

unfoldable pub manual_wait_with_timeout :
    ℕ
    → ℕ
    → ManualResetWaitableEvent
    → List (Wakeup ManualResetWaitableEvent)
    → Option (Outcome (Bool × ManualResetWaitableEvent))
manual_wait_with_timeout start timeout e ws =
    map (λ r. r >>= checked_wait e.signal_id)
      (wait_with_timeout_impl (manual_condition e.signal_id) start timeout e ws)

pub data ManualCall : Type 0 where
  signals resets : ManualCall

unfoldable pub manual_run : List ManualCall → ManualResetWaitableEvent → ManualResetWaitableEvent
manual_run [] e = e
manual_run (signals ∷ cs) e = manual_run cs (manual_signal e)
manual_run (resets ∷ cs) e = manual_run cs (manual_reset e)
