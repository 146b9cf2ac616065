-- ===== src/CheckEnv/MobileInfo/Hooks.antt =====
-- The search for hooking frameworks in /proc/<pid>/maps, of which every line ends with a newline.
use environment_check.Prelude.{
  ℕ, ◌^◌, ◌<◌, ◌≡◌, refl, ap, ◌∙◌, sym, Bool, true, false, not, Option, none, some, List, [], ◌∷◌,
  ◌++◌, ◌==◌, ◌||◌, if◌then◌else◌, length-append, is_nil, All, until_nul, strstr, arith, Bool-cases,
  or_false, inl, inr, codes,
}
use environment_check.Outcome.{returns, fails, undefined_behaviour}
use environment_check.CheckEnv.System.{System, print_into_fits}
use environment_check.CheckEnv.Decimal.{decimal, length-decimal}
use environment_check.CheckEnv.Texts.{
  Without, until_nul-of_Without, unlines, IsLine, until_nul-line, strstr-newline, Without-unlines,
}
use environment_check.CheckEnv.Common.{without_newline, read_file}
use environment_check.CheckEnv.Common.Lines.{with_newlines, lines-unlines}
use environment_check.CheckEnv.Common.Reading.{read_all_lem, strstr-without_newline}
use environment_check.CheckEnv.MobileInfo.{
  names_framework, frame_loop, frame_check_file, frame_check, hooks_in, check_hook_by_map,
}

frida_line : Without 10 (codes "frida")
frida_line = ground arith

substrate_line : Without 10 (codes "com.saurik.substrate")
substrate_line = ground arith

xposed_line : Without 10 (codes "XposedBridge.jar")
xposed_line = ground arith

or_six :
    (a b c d e f : Bool) → ((a || d) || (b || e) || (c || f)) ≡ ((a || b || c) || (d || e || f))
or_six a b c d e f = ground arith

abbrev frida : List ℕ → Bool
frida s = strstr (codes "frida") s

abbrev substrate : List ℕ → Bool
substrate s = strstr (codes "com.saurik.substrate") s

abbrev xposed : List ℕ → Bool
xposed s = strstr (codes "XposedBridge.jar") s

names_framework-newline :
    (l s : List ℕ) → names_framework (l ++ 10 ∷ s) ≡ (names_framework l || names_framework s)
unfolding names_framework
names_framework-newline l s =
    rw
      (
        strstr-newline _ _ l s frida_line,
        strstr-newline _ _ l s substrate_line,
        strstr-newline _ _ l s xposed_line,
      )
      (or_six (frida l) (substrate l) (xposed l) (frida s) (substrate s) (xposed s))

names_framework-nil : names_framework [] ≡ false
unfolding names_framework strstr
names_framework-nil = refl

if_or : (b c : Bool) → (if b then true else c) ≡ (b || c)
if_or true c = refl
if_or false c = refl

names_framework-line : (l : List ℕ) → names_framework (l ++ 10 ∷ []) ≡ names_framework l
names_framework-line l =
    names_framework-newline l []
    ∙ ap (λ b. names_framework l || b) names_framework-nil
    ∙ or_false (names_framework l)

-- The loop over buffers finds what stands anywhere in the text.
frame_loop-unlines :
    (n : ℕ) (ls : List (List ℕ))
    → All (IsLine n) ls
    → frame_loop (with_newlines ls) ≡ names_framework (unlines ls)
unfolding frame_loop
frame_loop-unlines n [] h = sym names_framework-nil
frame_loop-unlines n (l ∷ ls) h =
    if_or (names_framework (until_nul (l ++ 10 ∷ []))) (frame_loop (with_newlines ls))
    ∙ ap (λ b. b || frame_loop (with_newlines ls))
        (ap names_framework (until_nul-line n l h.0) ∙ names_framework-line l)
    ∙ ap (λ b. names_framework l || b) (frame_loop-unlines n ls h.1)
    ∙ sym (names_framework-newline l (unlines ls))

found_nil :
    (a b c : Bool)
    → is_nil (
        (if a then codes "frida" else [])
        ++ (if b then codes "substrate" else [])
        ++ (if c then codes "xposed" else []))
      ≡ not (a || b || c)
found_nil true b c = refl
found_nil false true c = refl
found_nil false false true = refl
found_nil false false false = refl

is_nil-hooks_in : (maps : List ℕ) → is_nil (hooks_in maps) ≡ not (names_framework maps)
unfolding hooks_in names_framework
is_nil-hooks_in maps = found_nil (frida maps) (substrate maps) (xposed maps)

names_framework-without_newline :
    (s : List ℕ) → names_framework (without_newline s) ≡ names_framework s
unfolding names_framework
names_framework-without_newline s =
    rw
      (
        strstr-without_newline _ _ s frida_line,
        strstr-without_newline _ _ s substrate_line,
        strstr-without_newline _ _ s xposed_line,
      )
      refl

abbrev maps_path : System → List ℕ
maps_path sys = codes "/proc/" ++ decimal sys.pid ++ codes "/maps"

module _ (sys : System) (pid_bound : sys.pid < 2 ^ 32) where
  frame_check-file : frame_check sys ≡ frame_check_file (sys.file (maps_path sys))
  unfolding frame_check
  frame_check-file =
      rw
        (print_into_fits 32 (maps_path sys) (
          omega (
            arith,
            length-decimal sys.pid pid_bound,
            length-append (decimal sys.pid) (codes "/maps"),
          )))
        refl

Without-without_newline : (s : List ℕ) → Without 0 s → Without 0 (without_newline s)
unfolding without_newline
Without-without_newline [] h = tt
Without-without_newline (c ∷ []) h = elim (Bool-cases (c == 10)) [
  | inl e ↦ rw e tt
  | inr e ↦ rw e h
]
Without-without_newline (c ∷ d ∷ s) h = (h.0, Without-without_newline (d ∷ s) h.1)

frame_check_file-unlines :
    (ls : List (List ℕ)) {o : Option (List ℕ)}
    → o ≡ some (unlines ls)
    → All (IsLine 511) ls
    → frame_check_file o ≡ returns (names_framework (unlines ls))
unfolding frame_check_file
frame_check_file-unlines ls e h =
    rw e (ap returns (ap frame_loop (lines-unlines 511 ls h) ∙ frame_loop-unlines 511 ls h))

hook_text :
    (sys : System) (ls : List (List ℕ)) {b : Bool}
    → All (IsLine 511) ls
    → is_nil (without_newline (unlines ls)) ≡ false
    → frame_check sys ≡ returns b
    → sys.file (codes "/proc/self/maps") ≡ some (unlines ls)
    → check_hook_by_map sys ≡ returns (hooks_in (without_newline (unlines ls)))
unfolding check_hook_by_map read_file
hook_text sys ls h e checked g =
    let whole = Without-unlines 511 ls h in
    rw (checked, g, read_all_lem 510 (unlines ls) whole, e, e)
      (ap (λ t. returns (hooks_in t))
        (until_nul-of_Without (without_newline (unlines ls))
          (Without-without_newline (unlines ls) whole)))

-- The process number is below 2 ^ 32, and the files of its mappings, under its number and as self,
-- have the same text, each line shorter than a buffer and ended by a newline, and not empty:
-- frameCheck, which looks at one buffer of 511 bytes after another, finds a framework exactly if
-- its name stands anywhere in the text, and checkHookByMap returns an empty text exactly if
-- frameCheck finds nothing.
pub frame_check-check_hook_by_map :
    (sys : System) (ls : List (List ℕ))
    → sys.pid < 2 ^ 32
    → All (IsLine 511) ls
    → is_nil (without_newline (unlines ls)) ≡ false
    → sys.file (maps_path sys) ≡ some (unlines ls)
    → sys.file (codes "/proc/self/maps") ≡ some (unlines ls)
    → (frame_check sys ≡ returns (names_framework (unlines ls)))
      × (found : List ℕ) × (check_hook_by_map sys ≡ returns found)
      × (is_nil found ≡ not (names_framework (unlines ls)))
frame_check-check_hook_by_map sys ls b h e f g =
    let text = without_newline (unlines ls) in
    let checked = frame_check-file sys b ∙ frame_check_file-unlines ls f h in
    let hooks : check_hook_by_map sys ≡ returns (hooks_in text) = hook_text sys ls h e checked g in
    (
      checked,
      hooks_in text,
      hooks,
      is_nil-hooks_in text ∙ ap not (names_framework-without_newline (unlines ls)),
    )

-- Where the file of the mappings cannot be opened, frameCheck, and with it checkHookByMap, calls
-- fclose with a null pointer.
frame_check-no_file :
    (sys : System)
    → sys.pid < 2 ^ 32
    → sys.file (maps_path sys) ≡ none
    → (frame_check sys ≡ fails undefined_behaviour)
      × (check_hook_by_map sys ≡ fails undefined_behaviour)
unfolding check_hook_by_map frame_check_file
frame_check-no_file sys b e =
    let failed : frame_check sys ≡ fails undefined_behaviour =
      rw (frame_check-file sys b, e) refl in
    (failed, rw failed refl)
