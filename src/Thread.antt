-- ===== src/Thread.antt =====
-- app/src/main/cpp/thread.h and thread.cc: how a thread starts, which two threads do in turns that
-- interleave, and how it is joined.
pub mod Starting
use environment_check.Prelude.{
  ℕ, ◌+◌, ◌≡◌, Option, none, some, Bool, true, false, is_some, if◌then◌else◌,
}
use environment_check.Outcome.{returns}
use environment_check.Exec.{Exec, pure, reads, modify, ◌>>=◌, ◌>>◌}
use environment_check.DelayedTask.{TimePoint}
use environment_check.WaitableEvent.{
  AutoResetWaitableEvent, new_auto_reset, auto_signal, auto_wait_test,
}
use environment_check.MessageLoop.{Program, ensure_initialized, get_current}
use environment_check.TaskRunner as TaskRunner

-- Where the new thread stands: before the setter, the initialization of its loop, the assignment of
-- `runner`, and Signal; then it runs its loop.
pub data NewThreadAt : Type 0 where
  at_setter at_initialization at_runner at_signal at_run : NewThreadAt

-- Where the constructor stands: in Wait, before the assignment of `task_runner_`, and at its end.
pub data ConstructorAt : Type 0 where
  at_wait at_assignment at_end : ConstructorAt

pub record Start : Type 0 where
  pub program : Program
  pub latch : AutoResetWaitableEvent
  pub runner : Option ℕ
  pub task_runner : Option ℕ
  pub is_configured : Bool
  pub new_thread : NewThreadAt
  pub constructor_at : ConstructorAt

abbrev pub starting : Program → Start
starting p = record {
  program = p;
  latch = new_auto_reset;
  runner = none;
  task_runner = none;
  is_configured = false;
  new_thread = at_setter;
  constructor_at = at_wait;
}

-- The steps of the new thread, which has the number `child`, and of the constructor. Other threads
-- may step as well, and leave the loop of the new thread and the latch alone.
pub data Step (child : ℕ) (s : Start) : Start → Type 0 where
  configures :
      s.new_thread ≡ at_setter
      → Step child s (record s { is_configured = true; new_thread = at_initialization })
  initializes :
      {p : Program}
      → s.new_thread ≡ at_initialization
      → ensure_initialized child s.program ≡ (returns tt, p)
      → Step child s (record s { program = p; new_thread = at_runner })
  finds_runner :
      {loop : ℕ} {p : Program}
      → s.new_thread ≡ at_runner
      → get_current child s.program ≡ (returns loop, p)
      → Step child s (record s { program = p; runner = some loop; new_thread = at_signal })
  signals :
      s.new_thread ≡ at_signal
      → Step child s (record s { latch = auto_signal s.latch; new_thread = at_run })
  tests :
      {latch : AutoResetWaitableEvent} {ended : Bool}
      → s.constructor_at ≡ at_wait
      → auto_wait_test s.latch ≡ (ended, latch)
      → Step child s
          (record s { latch = latch; constructor_at = if ended then at_assignment else at_wait })
  assigns :
      s.constructor_at ≡ at_assignment
      → Step child s (record s { task_runner = s.runner; constructor_at = at_end })
  others :
      {p : Program}
      → p.tls_message_loop child ≡ s.program.tls_message_loop child
      → Step child s (record s { program = p })

pub data Reached (child : ℕ) (p : Program) : Start → Type 0 where
  begins : Reached child p (starting p)
  goes_on : {s t : Start} → Reached child p s → Step child s t → Reached child p t

-- `joined_`, and how often `std::thread::join` was called, which is undefined the second time.
pub record Joins : Type 0 where
  pub program : Program
  pub joined : Bool
  pub calls : ℕ

abbrev on_program : Exec Program (Unit {0}) → Exec Joins (Unit {0})
on_program m s = let (r, p) = m s.program in (r, record s { program = p })

-- `terminates` is the closure that terminates the loop.
unfoldable pub join : ℕ → ℕ → TimePoint → Exec Joins (Unit {0})
join runner terminates now = do
  joined ← reads (λ s. returns s.joined)
  if joined then pure tt else (do
    modify (λ s. record s { joined = true })
    on_program (TaskRunner.post_task runner (some terminates) now)
    modify (λ s. record s { calls = s.calls + 1 }))
