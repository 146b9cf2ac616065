-- ===== src/CountDownLatch/Wait.antt =====
-- When a wait for a CountDownLatch is over.
use environment_check.Prelude.{
  ℕ, suc, ◌+◌, ◌-◌, ◌%◌, ◌^◌, ◌<◌, ◌≤◌, ◌≡◌, ◌≢◌, refl, ap, ◌⊎◌, inl, inr, none, some, true, ◌==◌,
  ◌&&◌, leb, if◌then◌else◌, arith, Bool-cases,
}
use environment_check.WaitableEvent.{
  new_manual_reset, manual_signal, manual_wait_start, manual_wait_test,
}
use environment_check.CountDownLatch.{
  CountDownLatch, new_latch, decrement, signal, wait_start, Threads, start_count_down, Reached,
}
use environment_check.CountDownLatch.Reached.{made, starts, signals}

-- After d decrements of a latch for n: no signal has come and none will while d is less than n;
-- later one thread is about to signal, or has.
abbrev Cases : ℕ → ℕ → Threads → Type 0
Cases n d g =
    ((d < n) × (g.signalling ≡ 0) × (g.latch.waitable_event ≡ new_manual_reset))
    ⊎ ((n ≤ d) × (g.signalling ≡ 1) × (g.latch.waitable_event ≡ new_manual_reset))
    ⊎ ((n ≤ d) × (g.signalling ≡ 0) × (g.latch.waitable_event ≡ manual_signal new_manual_reset))

abbrev Inv : ℕ → ℕ → Threads → Type 0
Inv n d g = (g.latch.count ≡ (n + (2 ^ 64 - d)) % 2 ^ 64) × Cases n d g

count_down-Inv :
    (n d : ℕ) (g : Threads)
    → n < 2 ^ 64
    → suc d < 2 ^ 64
    → Inv n d g
    → Inv n (suc d) (start_count_down g)
unfolding start_count_down decrement
count_down-Inv n d g few less (at, h) =
    let next : (g.latch.count + (2 ^ 64 - 1)) % 2 ^ 64 ≡ (n + (2 ^ 64 - suc d)) % 2 ^ 64 =
      omega arith in
    elim (Bool-cases ((g.latch.count + (2 ^ 64 - 1)) % 2 ^ 64 == 0)) [
      | inl y ↦ rw y (next, to_zero h (ground arith))
      | inr y ↦ rw y (next, past h (ground arith))
    ]
  where
    to_zero : Cases n d g → n ≡ suc d → Cases n (suc d) (record g { signalling = suc g.signalling })
    to_zero (inl (b, s, e)) last = inr (inl (omega arith, ap (λ r. suc r) s, e))
    to_zero (inr (inl (b, s, e))) last = absurd (omega arith)
    to_zero (inr (inr (b, s, e))) last = absurd (omega arith)

    past : Cases n d g → n ≢ suc d → Cases n (suc d) g
    past (inl (b, s, e)) other = inl (ground arith, s, e)
    past (inr (inl (b, s, e))) other = inr (inl (omega arith, s, e))
    past (inr (inr (b, s, e))) other = inr (inr (omega arith, s, e))

signal-Inv :
    (n d k : ℕ) (l : CountDownLatch)
    → Inv n d (record { latch = l; signalling = suc k })
    → Inv n d (record { latch = signal l; signalling = k })
unfolding signal
signal-Inv n d k l (at, inl (b, s, e)) = cc
signal-Inv n d k l (at, inr (inl (b, s, e))) = (at, inr (inr (b, omega arith, ap manual_signal e)))
signal-Inv n d k l (at, inr (inr (b, s, e))) = cc

reached-Inv : (n d : ℕ) (g : Threads) → n < 2 ^ 64 → d < 2 ^ 64 → Reached n d g → Inv n d g
unfolding new_latch start_count_down decrement signal
reached-Inv n d g few less made = elim (Bool-cases (n == 0)) [
  | inl y ↦ rw y (omega arith, inr (inr (ground arith, refl, refl)))
  | inr y ↦ rw y (omega arith, inl (ground arith, refl, refl))
]
reached-Inv n (suc d) g few less (starts {g = h} r) =
    count_down-Inv n d h few less (reached-Inv n d h few (omega arith) r)
reached-Inv n d g few less (signals {n = k} {l = l} r) =
    signal-Inv n d k l (reached-Inv n d _ few less r)

abbrev Over : ℕ → ℕ → Threads → Type 0
Over n d g =
    (leb g.signalling 1 ≡ true)
    × (wait_start g.latch ≡ (if leb n d && (g.signalling == 0) then none else some 0))
    × (manual_wait_test 0 g.latch.waitable_event ≡ (leb n d && (g.signalling == 0)))

Cases-Over : (n d : ℕ) (g : Threads) → Cases n d g → Over n d g
unfolding wait_start manual_wait_start manual_wait_test manual_signal
Cases-Over n d g (inl (b, s, e)) = rw (s, e) (refl, ground arith, ground arith)
Cases-Over n d g (inr (inl (b, s, e))) = rw (s, e) (refl, ground arith, ground arith)
Cases-Over n d g (inr (inr (b, s, e))) = rw (s, e) (refl, ground arith, ground arith)

-- A latch for n, after d decrements in any interleaving with the calls of Signal that they lead to,
-- both below 2 ^ 64: at most one thread is about to signal. Wait returns at once, and a thread that
-- began to wait before any signal finds its wait over, exactly if d is at least n and no thread is
-- still about to signal.
pub wait_over :
    (n d : ℕ) (g : Threads)
    → n < 2 ^ 64
    → d < 2 ^ 64
    → Reached n d g
    → (leb g.signalling 1 ≡ true)
      × (wait_start g.latch ≡ (if leb n d && (g.signalling == 0) then none else some 0))
      × (manual_wait_test 0 g.latch.waitable_event ≡ (leb n d && (g.signalling == 0)))
wait_over n d g few less r = Cases-Over n d g (reached-Inv n d g few less r).1
