-- ===== src/Thread/Starting.antt =====
-- What the constructor of a thread has at its end, and that it comes there.
use environment_check.Prelude.{
  ℕ, ◌≡◌, sym, ap, ◌∙◌, ◌⊎◌, inl, inr, some, Bool, true, false, is_some, Option-cases, Bool-cases,
  arith, set_at,
}
use environment_check.Outcome.{Outcome, returns, fails}
use environment_check.WaitableEvent.{AutoResetWaitableEvent, auto_signal, auto_wait_test}
use environment_check.TaskQueues.State.{MessageLoopTaskQueues}
use environment_check.MessageLoopImpl.{MessageLoopImpl, new_loop}
use environment_check.RefPtr.Counted.{==_self}
use environment_check.MessageLoop.{
  made_loop, Program, ensure_initialized, get_current, is_initialized,
}
use environment_check.Thread.{
  Start, NewThreadAt, at_setter, at_initialization, at_signal, at_run, ConstructorAt, at_wait,
  at_end, starting, Step, configures, initializes, finds_runner, signals, tests, assigns, others,
  Reached, begins, goes_on,
}

made_loop-initialized :
    (child : ℕ) (r : Outcome MessageLoopImpl × MessageLoopTaskQueues) (q : Program) {p : Program}
    → made_loop child r q ≡ (returns tt, p)
    → is_some (p.tls_message_loop child) ≡ true
made_loop-initialized child (fails f, s) q h = cc
made_loop-initialized child (returns l, s) q h =
    let made : record { queues = s; tls_message_loop = set_at child (some l) q.tls_message_loop }
        ≡ _ =
      ap (λ (o : Outcome (Unit {0}) × Program). o.1) h in
    ap (λ (o : Program). is_some (o.tls_message_loop child)) (sym made) ∙ rw (==_self child)

ensured-initialized :
    (child : ℕ) (q : Program) {p : Program}
    → ensure_initialized child q ≡ (returns tt, p)
    → is_some (p.tls_message_loop child) ≡ true
unfolding ensure_initialized
ensured-initialized child q h = elim (Option-cases (q.tls_message_loop child)) [
  | inl e ↦ made_loop-initialized child (new_loop child q.queues) q (rw e at h)
  | inr (l, e) ↦
      let same : q ≡ _ = ap (λ (o : Outcome (Unit {0}) × Program). o.1) (rw e at h) in
      ap (λ (o : Program). is_some (o.tls_message_loop child)) (sym same) ∙ ap is_some e
]

current_lem :
    (child : ℕ) (q : Program) {loop : ℕ} {p : Program}
    → get_current child q ≡ (returns loop, p)
    → (loop ≡ child) × (p ≡ q)
unfolding get_current is_initialized
current_lem child q h = elim (Bool-cases (is_some (q.tls_message_loop child))) [
  | inl y ↦ let shown = rw y at h in (cc shown, cc shown)
  | inr n ↦ cc (rw n at h)
]

test-cases :
    (l : AutoResetWaitableEvent) {ended : Bool} {l' : AutoResetWaitableEvent}
    → auto_wait_test l ≡ (ended, l')
    → ((l.signaled ≡ true) × (ended ≡ true) × (l'.signaled ≡ false))
      ⊎ ((l.signaled ≡ false) × (ended ≡ false) × (l'.signaled ≡ false))
unfolding auto_wait_test
test-cases l h = elim (Bool-cases l.signaled) [
  | inl y ↦ let shown = rw y at h in inl (y, cc shown, cc shown)
  | inr n ↦ let shown = rw n at h in inr (n, cc shown, cc (shown, n))
]

abbrev is_past_setter : NewThreadAt → Bool
is_past_setter at_setter = false
is_past_setter _ = true

abbrev has_loop : NewThreadAt → Bool
has_loop at_setter = false
has_loop at_initialization = false
has_loop _ = true

abbrev has_runner : NewThreadAt → Bool
has_runner at_signal = true
has_runner at_run = true
has_runner _ = false

abbrev has_waited : ConstructorAt → Bool
has_waited at_wait = false
has_waited _ = true

record Inv (child : ℕ) (s : Start) : Type 0 where
  configured : is_past_setter s.new_thread ≡ true → s.is_configured ≡ true
  initialized : has_loop s.new_thread ≡ true → is_some (s.program.tls_message_loop child) ≡ true
  found : has_runner s.new_thread ≡ true → s.runner ≡ some child
  latched : s.latch.signaled ≡ true → s.new_thread ≡ at_run
  waited : has_waited s.constructor_at ≡ true → s.new_thread ≡ at_run
  kept : s.new_thread ≡ at_run → s.constructor_at ≡ at_wait → s.latch.signaled ≡ true
  assigned : s.constructor_at ≡ at_end → s.task_runner ≡ some child

starting-Inv : (child : ℕ) (p : Program) → Inv child (starting p)
starting-Inv child p = ground arith

step-Inv : (child : ℕ) (s : Start) {t : Start} → Step child s t → Inv child s → Inv child t
unfolding auto_signal
step-Inv child s (configures at) v = ground arith
step-Inv child s (initializes at e) v = ground (arith, ensured-initialized child s.program e)
step-Inv child s (finds_runner at e) v =
    let (same, kept) = current_lem child s.program e in ground (arith, same, kept)
step-Inv child s (signals at) v = ground arith
step-Inv child s (tests at e) v = elim (test-cases s.latch e) [
  | inl (y, ended, off) ↦ rw ended (ground (arith, y, off))
  | inr (n, ended, off) ↦ rw ended (ground (arith, n, off))
]
step-Inv child s (assigns at) v = ground arith
step-Inv child s (others same) v = ground (arith, ap is_some same)

reached-Inv : (child : ℕ) (p : Program) {s : Start} → Reached child p s → Inv child s
reached-Inv child p begins = starting-Inv child p
reached-Inv child p (goes_on {s = s} r step) = step-Inv child s step (reached-Inv child p r)

-- However the steps of the new thread, of the constructor and of other threads interleave: where
-- the constructor is at its end, `task_runner_` is that of the new thread's loop, which is there,
-- and the setter of the configuration was called.
pub constructor_end :
    (child : ℕ) (p : Program) (s : Start)
    → Reached child p s
    → s.constructor_at ≡ at_end
    → (s.task_runner ≡ some child)
      × (is_some (s.program.tls_message_loop child) ≡ true)
      × (s.is_configured ≡ true)
constructor_end child p s r at = let v = reached-Inv child p r in ground (arith, v.assigned at, v)

-- Where the new thread runs its loop and the constructor is still in Wait, the next test of the
-- latch ends the wait: no signal is lost.
pub wait_ends :
    (child : ℕ) (p : Program) (s : Start)
    → Reached child p s
    → s.new_thread ≡ at_run
    → s.constructor_at ≡ at_wait
    → (auto_wait_test s.latch).0 ≡ true
unfolding auto_wait_test
wait_ends child p s r run wait = let v = reached-Inv child p r in rw (v.kept run wait)
