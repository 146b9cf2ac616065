-- ===== src/CheckEnv/MobileInfo.antt =====
-- CheckEnv/src/main/cpp/mobile_info.cpp: what identifies a device, and the traces of frameworks
-- that hook into a process.
pub mod Hooks
use environment_check.Prelude.{
  ℕ, zero, suc, ◌+◌, ◌-◌, Option, none, some, Bool, true, false, List, [], ◌∷◌, ◌++◌, ◌==◌, ◌&&◌,
  ◌||◌, not, ltb, if◌then◌else◌, length, is_nil, codes, until_nul, strstr,
}
use environment_check.Outcome.{Outcome, returns, fails, undefined_behaviour, ◌>>=◌, ◌>>◌}
use environment_check.CheckEnv.System.{System, print_into}
use environment_check.CheckEnv.Decimal.{decimal}
use environment_check.CheckEnv.Common.{
  lines, read_file, shell_execute, get_my_pid, get_package_name, exists_file,
}

-- The file at a path, or what `cat` prints where the file gives no text.
unfoldable pub read_or_cat : System → List ℕ → List ℕ
unfolding read_file shell_execute until_nul
read_or_cat sys path =
    let text = read_file sys path in
    if is_nil (until_nul text) then shell_execute sys (codes "cat " ++ path) else text

unfoldable pub get_boot_id : System → List ℕ
unfolding read_or_cat
get_boot_id sys = read_or_cat sys (codes "/proc/sys/kernel/random/boot_id")

unfoldable pub get_entropy_avail : System → List ℕ
unfolding read_or_cat
get_entropy_avail sys = read_or_cat sys (codes "/proc/sys/kernel/random/entropy_avail")

unfoldable pub get_pool_size : System → List ℕ
unfolding read_or_cat
get_pool_size sys = read_or_cat sys (codes "/proc/sys/kernel/random/poolsize")

unfoldable pub get_read_wakeup_threshold : System → List ℕ
unfolding read_or_cat
get_read_wakeup_threshold sys =
    read_or_cat sys (codes "/proc/sys/kernel/random/read_wakeup_threshold")

unfoldable pub get_write_wakeup_threshold : System → List ℕ
unfolding read_or_cat
get_write_wakeup_threshold sys =
    read_or_cat sys (codes "/proc/sys/kernel/random/write_wakeup_threshold")

unfoldable pub get_uuid : System → List ℕ
unfolding read_or_cat
get_uuid sys = read_or_cat sys (codes "/proc/sys/kernel/random/uuid")

unfoldable pub get_urandom_min_reseed_secs : System → List ℕ
unfolding read_or_cat
get_urandom_min_reseed_secs sys =
    read_or_cat sys (codes "/proc/sys/kernel/random/urandom_min_reseed_secs")

-- The version of the kernel, from two commands where /proc/version gives no text.
unfoldable pub get_kernel : System → List ℕ
unfolding read_file shell_execute until_nul
get_kernel sys =
    let kernel = read_file sys (codes "/proc/version") in
    let r = shell_execute sys (codes "uname -r") in
    let v = shell_execute sys (codes "uname -v") in
    if is_nil (until_nul kernel)
    then (if is_nil (until_nul r)
        then []
        else (if is_nil (until_nul v) then r else r ++ codes " " ++ v))
    else kernel

unfoldable pub check_more_open_by_uid : System → Outcome Bool
check_more_open_by_uid sys =
    if exists_file sys (codes "/system/bin/ls")
    then (do
      let name = get_package_name sys (get_my_pid sys)
      path ← print_into 256 (codes "ls /data/data/" ++ until_nul name)
      returns (is_nil (shell_execute sys path)))
    else returns false

unfoldable pub check_substrate_by_so : System → Bool
check_substrate_by_so sys =
    sys.library (codes "libsubstrate-dvm.so")
    && sys.symbol (codes "libsubstrate-dvm.so") (codes "MSJavaHookMethod")

unfoldable pub x_hook_check : System → Bool
x_hook_check sys =
    sys.library (codes "libxhook.so") && sys.symbol (codes "libxhook.so") (codes "xhook_register")

-- The test of a buffer in the loop of `frameCheck`.
unfoldable pub names_framework : List ℕ → Bool
names_framework buf =
    strstr (codes "frida") buf
    || strstr (codes "com.saurik.substrate") buf
    || strstr (codes "XposedBridge.jar") buf

unfoldable pub frame_loop : List (List ℕ) → Bool
unfolding names_framework until_nul
frame_loop [] = false
frame_loop (buf ∷ bufs) =
    let rest = frame_loop bufs in if names_framework (until_nul buf) then true else rest

-- Where `fopen` fails, `fclose` is called with a null pointer.
unfoldable pub frame_check_file : Option (List ℕ) → Outcome Bool
unfolding frame_loop lines
frame_check_file none = fails undefined_behaviour
frame_check_file (some s) = returns (frame_loop (lines 512 s))

unfoldable pub frame_check : System → Outcome Bool
unfolding frame_check_file
frame_check sys = do
  path ← print_into 32 (codes "/proc/" ++ decimal sys.pid ++ codes "/maps")
  frame_check_file (sys.file path)

unfoldable pub hooks_in : List ℕ → List ℕ
hooks_in maps =
    (if strstr (codes "frida") maps then codes "frida" else [])
    ++ (if strstr (codes "com.saurik.substrate") maps then codes "substrate" else [])
    ++ (if strstr (codes "XposedBridge.jar") maps then codes "xposed" else [])

-- The result of `frameCheck` is not used.
unfoldable pub check_hook_by_map : System → Outcome (List ℕ)
check_hook_by_map sys = do
  found ← frame_check sys
  let text = read_file sys (codes "/proc/self/maps")
  let maps = if is_nil text then shell_execute sys (codes "/proc/myself/maps") else text
  returns (if is_nil maps then [] else hooks_in (until_nul maps))

unfoldable pub check_hook_by_package : System → List ℕ
unfolding exists_file
check_hook_by_package sys =
    (if exists_file sys (codes "/data/data/de.robv.android.xposed.installer")
        || exists_file sys (codes "/data/data/io.va.exposed")
      then codes "xposed"
      else [])
    ++ (if exists_file sys (codes "/data/data/com.saurik.substrate") then codes "substrate" else [])
