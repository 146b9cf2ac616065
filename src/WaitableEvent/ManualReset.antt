-- ===== src/WaitableEvent/ManualReset.antt =====
-- Signals and waits of `ManualResetWaitableEvent`.
use environment_check.Prelude.{
  ℕ, suc, ◌+◌, ◌%◌, ◌^◌, ◌<◌, ◌≡◌, ◌∙◌, some, List, [], ◌∷◌, ◌==◌, not, arith, Bool-cases, inl, inr,
}
use environment_check.WaitableEvent.{
  ManualResetWaitableEvent, manual_signal, manual_reset, manual_wait_start, manual_wait_test,
  ManualCall, manual_run,
}

abbrev pub signals_of : List ManualCall → ℕ
signals_of [] = 0
signals_of (ManualCall.signals ∷ cs) = suc (signals_of cs)
signals_of (ManualCall.resets ∷ cs) = signals_of cs

-- The id counts the signals, and wraps round.
signal_id_lem :
    (cs : List ManualCall) (e : ManualResetWaitableEvent)
    → e.signal_id < 2 ^ 32
    → (manual_run cs e).signal_id ≡ (e.signal_id + signals_of cs) % 2 ^ 32
unfolding manual_run manual_signal manual_reset
signal_id_lem [] e b = omega (arith, b)
signal_id_lem (ManualCall.signals ∷ cs) e b =
    signal_id_lem cs (manual_signal e) (omega arith) ∙ omega arith
signal_id_lem (ManualCall.resets ∷ cs) e b = signal_id_lem cs (manual_reset e) b

-- A thread that began to wait in `Wait` finds its wait over at the first test after a signal,
-- whatever signals and resets come in between, as long as they are fewer than 2 ^ 32 signals, and
-- finds it not over while there was none.
pub test_iff_signaled :
    (e : ManualResetWaitableEvent) (id : ℕ) (cs : List ManualCall)
    → e.signal_id < 2 ^ 32
    → manual_wait_start e ≡ some id
    → signals_of cs < 2 ^ 32
    → manual_wait_test id (manual_run cs e) ≡ not (signals_of cs == 0)
unfolding manual_wait_start manual_wait_test
test_iff_signaled e id cs b h few = elim (Bool-cases e.signaled) [
  | inl y ↦ cc (simp y at h)
  | inr n ↦
      let same : e.signal_id ≡ id = cc (simp n at h) in
      let now = signal_id_lem cs e b in ground (arith, same, now, few, b)
]
