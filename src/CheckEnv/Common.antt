-- ===== src/CheckEnv/Common.antt =====
-- CheckEnv/src/main/cpp/common.cpp.
pub mod Lines
pub mod Reading
use environment_check.Prelude.{
  ℕ, zero, suc, ◌+◌, ◌-◌, Option, none, some, Bool, true, false, List, [], ◌∷◌, ◌++◌, ◌==◌, ltb,
  if◌then◌else◌, length, is_nil, codes, until_nul,
}
use environment_check.Outcome.{Outcome, returns, fails, undefined_behaviour}
use environment_check.CheckEnv.System.{System, print_into}
use environment_check.CheckEnv.Decimal.{decimal}

-- One `fgets`, with a buffer of one byte more: what it puts there, and what is left to read.
unfoldable pub take_line : ℕ → List ℕ → List ℕ × List ℕ
take_line zero s = ([], s)
take_line (suc k) [] = ([], [])
take_line (suc k) (c ∷ s) =
    if c == 10 then (10 ∷ [], s) else (let (line, rest) = take_line k s in (c ∷ line, rest))

unfoldable pub lines_from : ℕ → ℕ → List ℕ → List (List ℕ)
lines_from zero k s = []
lines_from (suc f) k [] = []
lines_from (suc f) k (c ∷ s) = let (line, rest) = take_line k (c ∷ s) in line ∷ lines_from f k rest

-- The buffers of `while (fgets(buf, size, file))`. Each takes a byte at least.
unfoldable pub lines : ℕ → List ℕ → List (List ℕ)
unfolding lines_from
lines size s = lines_from (length s) (size - 1) s

-- `resultStr += buf` for each buffer.
unfoldable pub append_each : List ℕ → List (List ℕ) → List ℕ
unfolding until_nul
append_each out [] = out
append_each out (buf ∷ bufs) = append_each (out ++ until_nul buf) bufs

unfoldable pub without_newline : List ℕ → List ℕ
without_newline [] = []
without_newline (c ∷ []) = if c == 10 then [] else c ∷ []
without_newline (c ∷ d ∷ s) = c ∷ without_newline (d ∷ s)

-- What the loops of `readFile` and `shellExecute` make of an open file.
unfoldable pub read_all : ℕ → Option (List ℕ) → List ℕ
unfolding lines append_each without_newline
read_all size none = []
read_all size (some s) = without_newline (append_each [] (lines size s))

unfoldable pub read_file : System → List ℕ → List ℕ
unfolding read_all
read_file sys path = if is_nil path then [] else read_all 512 (sys.file path)

unfoldable pub shell_execute : System → List ℕ → List ℕ
unfolding read_all
shell_execute sys cmd = read_all 128 (sys.command cmd)

unfoldable pub get_my_pid : System → List ℕ
get_my_pid sys = decimal sys.pid

unfoldable pub get_parent_pid : System → List ℕ
get_parent_pid sys = decimal sys.ppid

unfoldable pub get_package_name : System → List ℕ → List ℕ
unfolding read_file
get_package_name sys pid =
    if is_nil pid then [] else read_file sys (codes "/proc/" ++ pid ++ codes "/cmdline")

unfoldable pub exists_file : System → List ℕ → Bool
exists_file sys path = sys.exists path

-- `__system_property_get` writes the value and a NUL, and does not know the size of the buffer.
unfoldable pub get_build_info64 : System → List ℕ → Outcome (List ℕ)
get_build_info64 sys name = print_into 64 (until_nul (sys.property name))

unfoldable pub get_build_info256 : System → List ℕ → Outcome (List ℕ)
get_build_info256 sys name = print_into 256 (until_nul (sys.property name))
