-- ===== src/CountDownLatch.antt =====
-- app/src/main/cpp/synchronization/count_down_latch.h and count_down_latch.cc. CountDown has two
-- steps, the atomic decrement and the call of Signal, between which other threads may step.
pub mod Wait
use environment_check.Prelude.{
  ℕ, suc, ◌+◌, ◌-◌, ◌%◌, ◌^◌, ◌≡◌, Option, none, some, Bool, ◌==◌, if◌then◌else◌,
}
use environment_check.WaitableEvent.{
  ManualResetWaitableEvent, new_manual_reset, manual_signal, manual_wait_start,
}

-- `count` is a `size_t` of 64 bits.
pub record CountDownLatch : Type 0 where
  pub count : ℕ
  pub waitable_event : ManualResetWaitableEvent

unfoldable pub new_latch : ℕ → CountDownLatch
new_latch count = record {
  count = count;
  waitable_event = if count == 0 then manual_signal new_manual_reset else new_manual_reset;
}

-- The decrement of `CountDown`, and whether the thread goes on to call Signal.
unfoldable pub decrement : CountDownLatch → Bool × CountDownLatch
decrement l =
    let count = (l.count + (2 ^ 64 - 1)) % 2 ^ 64 in (count == 0, record l { count = count })

unfoldable pub signal : CountDownLatch → CountDownLatch
signal l = record l { waitable_event = manual_signal l.waitable_event }

-- The start of `Wait`: `none` where it returns at once.
unfoldable pub wait_start : CountDownLatch → Option ℕ
wait_start l = manual_wait_start l.waitable_event

-- A latch and the number of threads that are about to call Signal.
pub record Threads : Type 0 where
  pub latch : CountDownLatch
  pub signalling : ℕ

unfoldable pub start_count_down : Threads → Threads
start_count_down g =
    let (zero_now, latch) = decrement g.latch in
    record { latch = latch; signalling = if zero_now then suc g.signalling else g.signalling }

-- What threads can make of a new latch by a number of decrements, in any interleaving.
pub data Reached (count : ℕ) : ℕ → Threads → Type 0 where
  made : Reached count 0 (record { latch = new_latch count; signalling = 0 })
  starts : {d : ℕ} {g : Threads} → Reached count d g → Reached count (suc d) (start_count_down g)
  signals :
      {d n : ℕ} {l : CountDownLatch}
      → Reached count d (record { latch = l; signalling = suc n })
      → Reached count d (record { latch = signal l; signalling = n })
