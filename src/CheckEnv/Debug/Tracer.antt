-- ===== src/CheckEnv/Debug/Tracer.antt =====
-- The line of /proc/<pid>/status that names the tracer.
use environment_check.Prelude.{
  ℕ, ◌^◌, ◌<◌, ◌≡◌, refl, ap, ◌∙◌, Bool, true, false, not, some, List, [], ◌∷◌, ◌++◌, ◌==◌,
  if◌then◌else◌, length-append, All, starts_with, codes, arith, Bool-cases, inl, inr,
}
use environment_check.Outcome.{returns}
use environment_check.CheckEnv.System.{System, print_into_fits}
use environment_check.CheckEnv.Decimal.{decimal, length-decimal, atoi-decimal}
use environment_check.CheckEnv.Texts.{Without, unlines, IsLine, until_nul-line, starts_with-newline}
use environment_check.CheckEnv.Common.Lines.{with_newlines, lines-unlines}
use environment_check.CheckEnv.Debug.{
  drop, is_traced, tracer_loop, tracer_result, ptrace_check, native_read_tracer_pid,
}

abbrev pub tracer_line : ℕ → List ℕ
tracer_line n = codes "TracerPid:" ++ 9 ∷ decimal n

abbrev pub IsOther : List ℕ → Type 0
IsOther l = starts_with (codes "TracerPid") l ≡ false

abbrev pub status_path : System → List ℕ
status_path sys = codes "/proc/" ++ decimal sys.pid ++ codes "/status"

tracer_name_line : Without 10 (codes "TracerPid")
tracer_name_line = ground arith

is_traced-other : (l : List ℕ) → IsOther l → is_traced (l ++ 10 ∷ []) ≡ false
unfolding is_traced
is_traced-other l h = rw (starts_with-newline (codes "TracerPid") l [] tracer_name_line, h) refl

is_traced-tracer : (n : ℕ) → is_traced (tracer_line n ++ 10 ∷ []) ≡ not (n == 0)
unfolding is_traced drop starts_with
is_traced-tracer n = rw (atoi-decimal n []) refl

tracer_loop-others :
    (ls : List (List ℕ))
    → All (IsLine 1023) ls
    → All IsOther ls
    → tracer_loop (with_newlines ls) ≡ false
unfolding tracer_loop
tracer_loop-others [] h k = refl
tracer_loop-others (l ∷ ls) h k =
    rw (until_nul-line 1023 l h.0, is_traced-other l k.0) (tracer_loop-others ls h.1 k.1)

if_not : (b : Bool) → (if not b then true else false) ≡ not b
if_not true = refl
if_not false = refl

if_swap : (b : Bool) → ◌≡◌ {A = ℕ} (if not b then 255 else 0) (if b then 0 else 255)
if_swap true = refl
if_swap false = refl

tracer_loop-lines :
    (before after : List (List ℕ)) (n : ℕ)
    → All (IsLine 1023) (before ++ tracer_line n ∷ after)
    → All IsOther before
    → All IsOther after
    → tracer_loop (with_newlines (before ++ tracer_line n ∷ after)) ≡ not (n == 0)
unfolding tracer_loop
tracer_loop-lines [] after n h k m =
    rw (until_nul-line 1023 (tracer_line n) h.0, is_traced-tracer n, tracer_loop-others after h.1 m)
      (if_not (n == 0))
tracer_loop-lines (l ∷ before) after n h k m =
    rw (until_nul-line 1023 l h.0, is_traced-other l k.0)
      (tracer_loop-lines before after n h.1 k.1 m)

after_ptrace :
    (sys : System)
    → ((ptrace_check sys).pid ≡ sys.pid)
      × ((ptrace_check sys).file ≡ (if sys.traceable then sys.file_when_traced else sys.file))
unfolding ptrace_check
after_ptrace sys = elim (Bool-cases sys.traceable) [
  | inl e ↦ rw e (refl, refl)
  | inr e ↦ rw e (refl, refl)
]

-- The tracer after ptraceCheck: where PTRACE_TRACEME succeeds, the parent.
abbrev pub tracer_after : System → ℕ → ℕ
tracer_after sys tracer = if sys.traceable then sys.ppid else tracer

-- The number of the process is below 2 ^ 32, and its tracer is `tracer`, 0 for none; where
-- PTRACE_TRACEME succeeds, it is the parent after ptraceCheck. The status of the process then has
-- lines that fit into the buffer, of which one names the tracer, as the kernel prints it. Then
-- nativeReadTracerPid returns 255, which is -1 as a byte, where there is a tracer after ptraceCheck,
-- and 0 where there is none.
pub native_read_tracer_pid-status :
    (sys : System) (before after : List (List ℕ)) (tracer : ℕ)
    → sys.pid < 2 ^ 32
    → All (IsLine 1023) (before ++ tracer_line (tracer_after sys tracer) ∷ after)
    → All IsOther before
    → All IsOther after
    → (if sys.traceable then sys.file_when_traced else sys.file) (status_path sys)
      ≡ some (unlines (before ++ tracer_line (tracer_after sys tracer) ∷ after))
    → native_read_tracer_pid sys ≡ returns (if tracer_after sys tracer == 0 then 0 else 255)
unfolding native_read_tracer_pid tracer_result
native_read_tracer_pid-status sys before after tracer b h k m e =
    let n = tracer_after sys tracer in
    rw
      (
        (after_ptrace sys).0,
        (after_ptrace sys).1,
        print_into_fits 128 (status_path sys) (
            omega
              (arith, length-decimal sys.pid b, length-append (decimal sys.pid) (codes "/status"))),
        e,
      )
      (ap (λ r. returns (if r then 255 else 0))
          (ap tracer_loop (lines-unlines 1023 (before ++ tracer_line n ∷ after) h)
            ∙ tracer_loop-lines before after n h k m)
        ∙ ap returns (if_swap (n == 0)))
