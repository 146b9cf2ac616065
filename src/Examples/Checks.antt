-- ===== src/Examples/Checks.antt =====
-- A device whose process 42 has been hooked and is not traced before the check.
use environment_check.Prelude.{
  ℕ, ◌≡◌, refl, Option, none, some, Bool, true, false, List, [], ◌∷◌, ◌++◌, not, ◌==◌,
  if◌then◌else◌, ltb, length, is_nil, codes, until_nul, starts_with, strstr, arith,
}
use environment_check.Outcome.{returns, fails, undefined_behaviour}
use environment_check.CheckEnv.System.{System}
use environment_check.CheckEnv.Decimal.{decimal}
use environment_check.CheckEnv.Texts.{unlines}
use environment_check.CheckEnv.Common.{without_newline}
use environment_check.CheckEnv.MobileInfo.{
  names_framework, frame_check, check_hook_by_map, check_more_open_by_uid,
}
use environment_check.CheckEnv.MobileInfo.Hooks.{frame_check-check_hook_by_map}
use environment_check.CheckEnv.Debug.{native_read_tracer_pid}
use environment_check.CheckEnv.Debug.Tracer.{
  tracer_line, tracer_after, native_read_tracer_pid-status,
}
use environment_check.CheckEnv.MultiOpen.{more_open_check, more_open_check_ext}
use environment_check.CheckEnv.MultiOpen.Agreement.{three_checks_agree}
use environment_check.CheckEnv.Root.{native_check_is_root, count_executable}
use environment_check.CheckEnv.Sign.{check_signature, report}
use environment_check.CheckEnv.Sign.Digests.{flat, with_colons, check_signature-room}

abbrev text_eq : List ℕ → List ℕ → Bool
text_eq [] [] = true
text_eq [] (d ∷ t) = false
text_eq (c ∷ s) [] = false
text_eq (c ∷ s) (d ∷ t) = if c == d then text_eq s t else false

abbrev maps : List (List ℕ)
maps =
    codes "7f00-7f10 r-xp /system/lib64/libc.so" ∷ codes "7f20-7f30 r-xp /tmp/frida-agent.so" ∷ []

abbrev status_before : List (List ℕ)
status_before = codes "Name:\tapp" ∷ codes "Pid:\t42" ∷ []

abbrev cmdline : List ℕ
cmdline = codes "com.app" ++ 0 ∷ codes "x"

abbrev listing : List ℕ
listing = codes "cache" ++ 10 ∷ []

-- What the files hold, by their paths.
abbrev contents : List ℕ → Option (List ℕ)
contents path =
    if text_eq path (codes "/proc/42/maps")
    then some (unlines maps)
    else (if text_eq path (codes "/proc/self/maps")
        then some (unlines maps)
        else (if text_eq path (codes "/proc/42/status")
            then some (unlines (status_before ++ tracer_line 0 ∷ []))
            else (if text_eq path (codes "/proc/42/cmdline") then some cmdline else none)))

abbrev device : System
device = record {
  file = contents;
  command = λ cmd. some listing;
  exists = λ path. true;
  executable = λ path. text_eq path (codes "/sbin/su");
  readable = λ path. false;
  property = λ name. codes "1";
  pid = 42;
  ppid = 1;
  uid = 10050;
  library = λ name. false;
  symbol = λ name sym. false;
  traceable = true;
  file_when_traced = λ path. some (unlines (status_before ++ tracer_line 1 ∷ []));
}

device_is_rooted : native_check_is_root device ≡ true
unfolding native_check_is_root count_executable
device_is_rooted = refl

maps_name_frida : names_framework (unlines maps) ≡ true
unfolding names_framework strstr starts_with
maps_name_frida = refl

frame_check-check_hook_by_map_example :
    (frame_check device ≡ returns (names_framework (unlines maps)))
    × (found : List ℕ) × (check_hook_by_map device ≡ returns found)
    × (is_nil found ≡ not (names_framework (unlines maps)))
unfolding decimal without_newline
frame_check-check_hook_by_map_example =
    frame_check-check_hook_by_map device maps (omega arith) (ground arith) refl refl refl

abbrev hidden : System
hidden = record device { file = λ path. none }

native_read_tracer_pid-status_example :
    native_read_tracer_pid device ≡ returns (if tracer_after device 0 == 0 then 0 else 255)
unfolding decimal starts_with
native_read_tracer_pid-status_example =
    native_read_tracer_pid-status device status_before [] 0 (omega arith) (ground arith)
      (refl, (refl, tt)) tt refl

three_checks_agree_example :
    (more_open_check device ≡ returns 0)
    × (more_open_check_ext device (some (codes "com.app")) ≡ returns (some 0))
    × (check_more_open_by_uid device ≡ returns false)
unfolding decimal without_newline
three_checks_agree_example =
    three_checks_agree device (codes "com.app") (codes "x") listing (omega arith) refl refl refl
      (ground arith) (ground arith) (omega arith) (ground arith) refl

abbrev digest : List (ℕ × ℕ)
digest =
    (100, 56)
    ∷ (100, 56)
    ∷ (100, 56)
    ∷ (100, 56)
    ∷ (100, 56)
    ∷ (100, 56)
    ∷ (100, 56)
    ∷ (100, 56)
    ∷ (100, 56)
    ∷ (100, 56)
    ∷ (100, 56)
    ∷ (100, 56)
    ∷ (100, 56)
    ∷ (100, 56)
    ∷ (100, 56)
    ∷ (100, 56)
    ∷ []

check_signature-room_example : check_signature (λ type cert. flat digest) [] (codes "D8:D8") ≡ (
    if ltb (length (until_nul (codes "D8:D8"))) 884
    then returns (report (until_nul (codes "D8:D8")) (with_colons digest))
    else fails undefined_behaviour)
check_signature-room_example =
    check_signature-room (λ type cert. flat digest) [] (codes "D8:D8") digest refl refl
