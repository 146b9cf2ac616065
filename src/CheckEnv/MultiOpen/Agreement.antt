-- ===== src/CheckEnv/MultiOpen/Agreement.antt =====
-- The three ways to list the application's own directory.
use environment_check.Prelude.{
  ℕ, suc, ◌^◌, ◌<◌, ◌≡◌, refl, ap, ◌∙◌, Bool, true, false, not, some, List, [], ◌∷◌, ◌++◌, ◌==◌,
  if◌then◌else◌, length, length-append, is_nil, until_nul, codes, arith, Bool-cases, inl, inr,
}
use environment_check.Outcome.{returns}
use environment_check.CheckEnv.System.{System, print_into_fits}
use environment_check.CheckEnv.Decimal.{decimal, length-decimal, is_nil-decimal}
use environment_check.CheckEnv.Texts.{Without, until_nul-append, until_nul-of_Without}
use environment_check.CheckEnv.Common.{
  take_line, exists_file, shell_execute, without_newline, get_my_pid,
}
use environment_check.CheckEnv.Common.Lines.{take_line-whole}
use environment_check.CheckEnv.Common.Reading.{
  get_package_name-cmdline, read_all_lem, is_nil-append,
}
use environment_check.CheckEnv.MobileInfo.{check_more_open_by_uid}
use environment_check.CheckEnv.MultiOpen.{
  first_buffer, named, process_name, is_listed, listing_answer, more_open_of, more_open_check,
  listing_answer_ext, more_open_ext_of, more_open_check_ext,
}

buffer_seen :
    (k c : ℕ) (s : List ℕ)
    → (c == 0) ≡ false
    → is_nil (until_nul (take_line (suc k) (c ∷ s)).0) ≡ false
unfolding take_line until_nul
buffer_seen k c s h = elim (Bool-cases (c == 10)) [ inl e ↦ rw e refl | inr e ↦ rw (e, h) refl ]

-- A listing without NUL is seen exactly if it is not empty.
is_listed-first :
    (out : List ℕ) → Without 0 out → is_listed (first_buffer 32 out) ≡ not (is_nil out)
unfolding is_listed first_buffer
is_listed-first [] h = refl
is_listed-first (c ∷ s) h = ap not (buffer_seen 30 c s h.0)

if_not_swap : (b : Bool) → ◌≡◌ {A = ℕ} (if not b then 0 else 1) (if b then 1 else 0)
if_not_swap true = refl
if_not_swap false = refl

abbrev pub cmdline_path : System → List ℕ
cmdline_path sys = codes "/proc/" ++ decimal sys.pid ++ codes "/cmdline"

abbrev pub listing_command : List ℕ → List ℕ
listing_command name = codes "ls /data/data/" ++ name

module _ (sys : System) (name arguments out : List ℕ) (b : sys.pid < 2 ^ 32)
    (l : sys.exists (codes "/system/bin/ls") ≡ true)
    (e : sys.file (cmdline_path sys) ≡ some (name ++ 0 ∷ arguments))
    (g : sys.command (listing_command name) ≡ some out) (h : Without 0 name)
    (k : Without 10 (name ++ 0 ∷ arguments)) (m : length (name ++ 0 ∷ arguments) < 64)
    (o : Without 0 out) where
  short : length name < 64
  short = omega (arith, length-append name (0 ∷ arguments))

  named-name : named (some (name ++ 0 ∷ arguments)) ≡ some name
  unfolding first_buffer
  named-name =
      rw
        (is_nil-append name arguments 0, take_line-whole 63 (name ++ 0 ∷ arguments) (omega arith) k)
        (ap some (until_nul-append name arguments h))

  process_name_lem : process_name sys ≡ returns (some name)
  unfolding process_name
  process_name_lem =
      rw
        (
          print_into_fits 64 (cmdline_path sys) (
              omega (
                arith,
                length-decimal sys.pid b,
                length-append (decimal sys.pid) (codes "/cmdline"),
              )),
          e,
        )
        (ap returns named-name)

  more_open_check_lem : more_open_check sys ≡ returns (if is_nil out then 1 else 0)
  unfolding more_open_check more_open_of listing_answer
  more_open_check_lem =
      rw (l, process_name_lem, print_into_fits 128 (listing_command name) (omega (arith, short)), g)
        (rw (is_listed-first out o) (ap returns (if_not_swap (is_nil out))))

  more_open_check_ext_lem :
      more_open_check_ext sys (some name) ≡ returns (some (if is_nil out then 1 else 0))
  unfolding more_open_check_ext more_open_ext_of listing_answer_ext
  more_open_check_ext_lem =
      rw (l, print_into_fits 256 (listing_command name) (omega (arith, short)), g)
        (rw (is_listed-first out o) (ap (λ n. returns (some n)) (if_not_swap (is_nil out))))

  check_more_open_by_uid_lem : check_more_open_by_uid sys ≡ returns (is_nil (without_newline out))
  unfolding check_more_open_by_uid exists_file get_my_pid shell_execute
  check_more_open_by_uid_lem =
      rw
        (
          l,
          get_package_name-cmdline sys (get_my_pid sys) name arguments (is_nil-decimal sys.pid) e h
              k (omega arith),
          until_nul-of_Without name h,
          print_into_fits 256 (listing_command name) (omega (arith, short)),
          g,
        )
        (ap (λ t. returns (is_nil t)) (read_all_lem 126 out o))

-- /system/bin/ls is there; the process number is below 2 ^ 32, and the command line of the process
-- is its name, a NUL and the rest, without a newline and shorter than the smallest buffer. Then
-- for every output of `ls`, without NUL and not of a newline only, the check by the process name,
-- the check by the name that the context gives, and checkMoreOpenByUid all return 1 if the output
-- is empty, and 0 else.
pub three_checks_agree :
    (sys : System) (name arguments out : List ℕ)
    → sys.pid < 2 ^ 32
    → sys.exists (codes "/system/bin/ls") ≡ true
    → sys.file (cmdline_path sys) ≡ some (name ++ 0 ∷ arguments)
    → sys.command (listing_command name) ≡ some out
    → Without 0 name
    → Without 10 (name ++ 0 ∷ arguments)
    → length (name ++ 0 ∷ arguments) < 64
    → Without 0 out
    → is_nil (without_newline out) ≡ is_nil out
    → (more_open_check sys ≡ returns (if is_nil out then 1 else 0))
      × (more_open_check_ext sys (some name) ≡ returns (some (if is_nil out then 1 else 0)))
      × (check_more_open_by_uid sys ≡ returns (is_nil out))
three_checks_agree sys name arguments out b l e g h k m o w = (
  more_open_check_lem sys name arguments out b l e g h k m o,
  more_open_check_ext_lem sys name arguments out b l e g h k m o,
  check_more_open_by_uid_lem sys name arguments out b l e g h k m o ∙ ap returns w,
)
