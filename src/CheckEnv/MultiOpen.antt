-- ===== src/CheckEnv/MultiOpen.antt =====
-- CheckEnv/src/main/cpp/check_multi_open.cpp: whether the application runs as a clone.
pub mod Agreement
use environment_check.Prelude.{
  ℕ, ◌-◌, ◌/◌, Option, none, some, Bool, true, false, List, [], ◌∷◌, ◌++◌, ◌==◌, not, if◌then◌else◌,
  is_nil, codes, until_nul,
}
use environment_check.Outcome.{Outcome, returns, fails, ◌>>=◌}
use environment_check.CheckEnv.System.{System, print_into}
use environment_check.CheckEnv.Decimal.{decimal}
use environment_check.CheckEnv.Common.{take_line}

-- One `fgets`: the buffer, or none where nothing is left to read.
unfoldable pub first_buffer : ℕ → List ℕ → Option (List ℕ)
first_buffer size s = if is_nil s then none else some (take_line (size - 1) s).0

-- `fgets(packageName, BUF_SIZE_64, f)`, where the buffer holds UNKNOWN before.
abbrev pub name_in : Option (List ℕ) → List ℕ
name_in none = codes "$unknown"
name_in (some buf) = until_nul buf

abbrev pub named : Option (List ℕ) → Option (List ℕ)
named none = none
named (some s) = some (name_in (first_buffer 64 s))

-- `getPackageName(char*)`: the name, or none where it returns 1.
unfoldable pub process_name : System → Outcome (Option (List ℕ))
process_name sys = do
  path ← print_into 64 (codes "/proc/" ++ decimal sys.pid ++ codes "/cmdline")
  returns (named (sys.file path))

-- What `fgets` and `strlen` say of the output of `ls`.
unfoldable pub is_listed : Option (List ℕ) → Bool
is_listed none = false
is_listed (some buff) = not (is_nil (until_nul buff))

-- 0 where the directory can be listed, 1 where it cannot, 2 where the check fails.
unfoldable pub listing_answer : Option (List ℕ) → ℕ
listing_answer none = 2
listing_answer (some out) = if is_listed (first_buffer 32 out) then 0 else 1

unfoldable pub more_open_of : System → Option (List ℕ) → Outcome ℕ
more_open_of sys none = returns 2
more_open_of sys (some name) = do
  path ← print_into 128 (codes "ls /data/data/" ++ name)
  returns (listing_answer (sys.command path))

unfoldable pub more_open_check : System → Outcome ℕ
more_open_check sys =
    if sys.exists (codes "/system/bin/ls")
    then (do name ← process_name sys; more_open_of sys name)
    else returns 2

-- The check with the name that the context gives, which is null where the call failed. The
-- results 0 and 1 as above, and none for -1.
unfoldable pub listing_answer_ext : Option (List ℕ) → Option ℕ
listing_answer_ext none = none
listing_answer_ext (some out) = some (if is_listed (first_buffer 32 out) then 0 else 1)

unfoldable pub more_open_ext_of : System → Option (List ℕ) → Outcome (Option ℕ)
more_open_ext_of sys none = returns none
more_open_ext_of sys (some name) = do
  path ← print_into 256 (codes "ls /data/data/" ++ name)
  returns (listing_answer_ext (sys.command path))

unfoldable pub more_open_check_ext : System → Option (List ℕ) → Outcome (Option ℕ)
more_open_check_ext sys context =
    if sys.exists (codes "/system/bin/ls") then more_open_ext_of sys context else returns none

unfoldable pub is_system_dual_app : System → Bool
is_system_dual_app sys = not (sys.uid / 100000 == 0)

unfoldable pub is_user_dual_app : System → List ℕ → Bool
is_user_dual_app sys data_dir = sys.readable (data_dir ++ codes "/../")
