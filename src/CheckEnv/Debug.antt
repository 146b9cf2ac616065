-- ===== src/CheckEnv/Debug.antt =====
-- CheckEnv/src/main/cpp/check_debug.cpp: the search for a debugger. SearchObjProcess and
-- CheckParents, which run first, only write to the log what they find; ptraceCheck makes the parent
-- the tracer.
pub mod Tracer
use environment_check.Prelude.{
  ℕ, ◌-◌, Option, none, some, Bool, true, false, List, [], ◌∷◌, ◌++◌, ◌==◌, if◌then◌else◌, codes,
  until_nul, starts_with, strstr, ◌||◌, not, zero, suc,
}
use environment_check.Outcome.{Outcome, returns, fails, undefined_behaviour, ◌>>=◌}
use environment_check.CheckEnv.System.{System, print_into}
use environment_check.CheckEnv.Decimal.{decimal, atoi_value}
use environment_check.CheckEnv.Common.{lines, read_file, get_parent_pid}

unfoldable pub drop : ℕ → List ℕ → List ℕ
drop zero s = s
drop (suc n) [] = []
drop (suc n) (c ∷ s) = drop n s

-- Whether a line makes the loop return -1. A line that ends after TracerPid has no number.
unfoldable pub is_traced : List ℕ → Bool
is_traced buffer =
    if starts_with (codes "TracerPid") buffer then not (atoi_value (drop 10 buffer) == 0) else false

unfoldable pub tracer_loop : List (List ℕ) → Bool
tracer_loop [] = false
tracer_loop (buffer ∷ buffers) =
    let rest = tracer_loop buffers in if is_traced (until_nul buffer) then true else rest

-- The return values 0, -1 and -2 as a jboolean, which is an unsigned byte.
unfoldable pub tracer_result : Option (List ℕ) → ℕ
tracer_result none = 254
tracer_result (some s) = if tracer_loop (lines 1024 s) then 255 else 0

-- The system after PTRACE_TRACEME.
unfoldable pub ptrace_check : System → System
ptrace_check sys = if sys.traceable then record sys { file = sys.file_when_traced } else sys

unfoldable pub native_read_tracer_pid : System → Outcome ℕ
unfolding ptrace_check
native_read_tracer_pid sys = do
  let after = ptrace_check sys
  path ← print_into 128 (codes "/proc/" ++ decimal after.pid ++ codes "/status")
  returns (tracer_result (after.file path))

-- The lines of `ps` that SearchObjProcess reports.
unfoldable pub debuggers_in : List (List ℕ) → List (List ℕ)
debuggers_in [] = []
debuggers_in (buf ∷ bufs) =
    let line = until_nul buf in
    let rest = debuggers_in bufs in
    if strstr (codes "android_server") line
      || strstr (codes "gdbserver") line
      || strstr (codes "gdb") line
      || strstr (codes "fuwu") line
    then line ∷ rest
    else rest

unfoldable pub reported_by : Option (List ℕ) → List (List ℕ)
reported_by none = []
reported_by (some s) = debuggers_in (lines 4096 s)

unfoldable pub search_obj_process : System → List (List ℕ)
search_obj_process sys = reported_by (sys.command (codes "ps"))

-- Whether CheckParents reports that the parent is the zygote.
unfoldable pub check_parents : System → Bool
check_parents sys =
    strstr (codes "zygote")
      (until_nul (read_file sys (codes "/proc/" ++ get_parent_pid sys ++ codes "/cmdline")))
