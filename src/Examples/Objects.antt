-- ===== src/Examples/Objects.antt =====
-- Owned values, a host of threads, and the start of a thread.
use environment_check.Prelude.{◌≡◌, refl, none, some, true, List, [], ◌∷◌, is_some}
use environment_check.WaitableEvent.{auto_wait_test, auto_signal, new_auto_reset}
use environment_check.TaskQueues.State.{new_queues, create_task_queue, set_wakeable}
use environment_check.MessageLoop.{Program, ensure_initialized, get_current, is_initialized}
use environment_check.MessageLoopImpl.{new_loop}
use environment_check.Outcome.{returns}
use environment_check.UniqueObject as UniqueObject
use environment_check.UniqueObject.{
  Objects, constructs, moves, releases, destroys, resets, assigns, swaps,
}
use environment_check.UniqueObject.Balance.{IsOwned, no_objects, run-IsOwned}
use environment_check.ThreadHost.{
  ThreadType, ui, io, ThreadConfig, display, new_thread_host, configured, new_config, has_bit, bit,
}
use environment_check.ThreadHost.Threads.{thread_of, expected, thread_of-configured}
use environment_check.Thread.{
  Start, starting, Reached, begins, goes_on, configures, initializes, finds_runner, signals, tests,
  assigns, at_end, at_runner, at_run,
}
use environment_check.Thread.Starting.{constructor_end, wait_ends}

abbrev calls : List UniqueObject.Call
calls =
    constructs 5
    ∷ constructs 6
    ∷ moves 0
    ∷ resets 0 7
    ∷ assigns 1 0
    ∷ swaps 1 2
    ∷ releases 2
    ∷ destroys 1
    ∷ []

run-IsOwned_example :
    (p : UniqueObject.Ledger) × (UniqueObject.run 0 calls no_objects ≡ (returns tt, p))
    × IsOwned 0 6 p
unfolding UniqueObject.step UniqueObject.construct UniqueObject.move_construct UniqueObject.release
    UniqueObject.reset UniqueObject.free_if_necessary UniqueObject.move_assign UniqueObject.swap
    UniqueObject.destroy UniqueObject.value_at UniqueObject.set_value
run-IsOwned_example = run-IsOwned 0 6 calls refl refl

abbrev setters : List (ThreadType × ThreadConfig)
setters = (ui, record { name = 9 ∷ []; priority = display }) ∷ []

thread_of-configured_example :
    thread_of io (new_thread_host (configured setters (new_config (7 ∷ []) 9)))
    ≡ expected io (7 ∷ []) setters (has_bit (bit io) 9) none
thread_of-configured_example = thread_of-configured io setters (7 ∷ []) 9

abbrev no_loops : Program
no_loops = record { queues = new_queues 0; tls_message_loop = λ _. none }

abbrev with_one_loop : Program
with_one_loop = (ensure_initialized 1 no_loops).1

abbrev prepared : Start
prepared = record (starting no_loops) {
  program = with_one_loop;
  is_configured = true;
  new_thread = at_runner;
}

abbrev signaled : Start
signaled = record prepared {
  runner = some 1;
  latch = record { signaled = true };
  new_thread = at_run;
}

abbrev started : Start
started = record signaled { latch = new_auto_reset; task_runner = some 1; constructor_at = at_end }

prepared-Reached : Reached 1 no_loops prepared
unfolding ensure_initialized new_loop create_task_queue set_wakeable
prepared-Reached = goes_on (goes_on begins (configures refl)) (initializes refl refl)

signaled-Reached : Reached 1 no_loops signaled
unfolding get_current is_initialized ensure_initialized new_loop create_task_queue set_wakeable
    auto_signal
signaled-Reached =
    goes_on (goes_on prepared-Reached (finds_runner {loop = 1} {p = with_one_loop} refl refl))
      (signals refl)

started-Reached : Reached 1 no_loops started
unfolding auto_wait_test
started-Reached =
    goes_on (goes_on signaled-Reached (tests {latch = new_auto_reset} {ended = true} refl refl))
      (assigns refl)

constructor_end_example :
    (started.task_runner ≡ some 1)
    × (is_some (started.program.tls_message_loop 1) ≡ true)
    × (started.is_configured ≡ true)
constructor_end_example = constructor_end 1 no_loops started started-Reached refl

wait_ends_example : (auto_wait_test signaled.latch).0 ≡ true
wait_ends_example = wait_ends 1 no_loops signaled signaled-Reached refl refl
