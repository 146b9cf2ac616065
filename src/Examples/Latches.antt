-- ===== src/Examples/Latches.antt =====
-- Concrete runs of synchronization/count_down_latch.cc.
use environment_check.Prelude.{◌≡◌, ◌==◌, ◌&&◌, true, none, some, leb, if◌then◌else◌, arith}
use environment_check.WaitableEvent.{new_manual_reset, manual_signal, manual_wait_test}
use environment_check.CountDownLatch.{
  Threads, new_latch, decrement, signal, wait_start, start_count_down, Reached,
}
use environment_check.CountDownLatch.Reached.{made, starts, signals}
use environment_check.CountDownLatch.Wait.{wait_over}

-- A latch for two, counted down twice, after Signal.
abbrev both_done : Threads
both_done = record {
  latch = record { count = 0; waitable_event = manual_signal new_manual_reset };
  signalling = 0;
}

two_count_downs : Reached 2 2 both_done
unfolding new_latch start_count_down decrement signal
two_count_downs =
    signals {n = 0} {l = record { count = 0; waitable_event = new_manual_reset }}
      (starts (starts made))

wait_over_example :
    (leb both_done.signalling 1 ≡ true)
    × (wait_start both_done.latch
        ≡ (if leb 2 2 && (both_done.signalling == 0) then none else some 0))
    × (manual_wait_test 0 both_done.latch.waitable_event ≡ (leb 2 2 && (both_done.signalling == 0)))
wait_over_example = wait_over 2 2 both_done (ground arith) (ground arith) two_count_downs
