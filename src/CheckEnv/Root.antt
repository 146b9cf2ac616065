-- ===== src/CheckEnv/Root.antt =====
-- CheckEnv/src/main/cpp/check_root.cpp and check_cpu.cpp.
use environment_check.Prelude.{
  ℕ, ◌+◌, ◌%◌, ◌^◌, Bool, List, [], ◌∷◌, ◌==◌, ltb, if◌then◌else◌, codes,
}
use environment_check.CheckEnv.System.{System}

abbrev pub su_paths : List (List ℕ)
su_paths =
    codes "/system/bin/su"
    ∷ codes "/system/xbin/su"
    ∷ codes "/system/bin/.ext/su"
    ∷ codes "/system/bin/failsafe/su"
    ∷ codes "/system/sd/xbin/su"
    ∷ codes "/system/usr/we-need-root/su"
    ∷ codes "/system/xbin/busybox"
    ∷ codes "/system/bin/busybox"
    ∷ codes "/cache/su"
    ∷ codes "/data/su"
    ∷ codes "/dev/su"
    ∷ codes "/data/local/tmp/busybox"
    ∷ codes "/data/local/su"
    ∷ codes "/data/local/bin/su"
    ∷ codes "/data/local/xbin/su"
    ∷ codes "/sbin/su"
    ∷ codes "/su/bin/su"
    ∷ []

-- The loop that counts the paths, from the count so far.
unfoldable pub count_executable : System → ℕ → List (List ℕ) → ℕ
count_executable sys result [] = result
count_executable sys result (path ∷ paths) =
    count_executable sys (if sys.executable path then result + 1 else result) paths

unfoldable pub native_check_is_root : System → Bool
native_check_is_root sys = ltb 0 (count_executable sys 0 su_paths)

-- `GetCPUCount` with its static variable `ncpus`, and the positive part of what `sysconf` returns:
-- the count, and the variable afterwards.
unfoldable pub get_cpu_count : ℕ → ℕ → ℕ × ℕ
get_cpu_count n ncpus =
    let count = if ltb 0 n then n % 2 ^ 32 else 1 in
    if ncpus == 0 then (count, count) else (ncpus, ncpus)
