-- ===== src/CheckEnv/Common/Reading.antt =====
-- What the loops over fgets read.
use environment_check.Prelude.{
  ℕ, suc, ◌<◌, ◌≤◌, ◌≡◌, refl, ap, ◌∙◌, sym, false, some, List, [], ◌∷◌, ◌++◌, ◌==◌, ◌&&◌, length,
  is_nil, until_nul, starts_with, strstr, arith, Bool-cases, inl, inr, ==_iff, codes,
}
use environment_check.CheckEnv.System.{System}
use environment_check.CheckEnv.Texts.{Without, until_nul-append, strstr-newline}
use environment_check.CheckEnv.Common.{
  lines_from, lines, append_each, without_newline, read_all, read_file, shell_execute,
  get_package_name,
}
use environment_check.CheckEnv.Common.Lines.{append_each-lines_from, lines-one}

pub read_all_lem :
    (k : ℕ) (s : List ℕ) → Without 0 s → read_all (suc (suc k)) (some s) ≡ without_newline s
unfolding read_all lines
read_all_lem k s h = ap without_newline (
    ap (λ n. append_each [] (lines_from (length s) n s)) (omega arith)
    ∙ append_each-lines_from (length s) k [] s (omega arith) h)

starts_with-without_newline :
    (p s : List ℕ) → Without 10 p → starts_with p (without_newline s) ≡ starts_with p s
unfolding without_newline starts_with
starts_with-without_newline [] s h = refl
starts_with-without_newline (p ∷ ps) [] h = refl
starts_with-without_newline (p ∷ ps) (c ∷ []) h = elim (Bool-cases (c == 10)) [
  | inl e ↦ rw (e, (==_iff c 10).0 e, h.0) refl
  | inr e ↦ rw e refl
]
starts_with-without_newline (p ∷ ps) (c ∷ d ∷ s) h =
    ap (λ r. p == c && r) (starts_with-without_newline ps (d ∷ s) h.1)

-- Without the newline at the end a text has the same texts of one line in it.
pub strstr-without_newline :
    (q : ℕ) (qs s : List ℕ)
    → Without 10 (q ∷ qs)
    → strstr (q ∷ qs) (without_newline s) ≡ strstr (q ∷ qs) s
unfolding without_newline strstr
strstr-without_newline q qs [] h = refl
strstr-without_newline q qs (c ∷ []) h = elim (Bool-cases (c == 10)) [
  | inl e ↦ rw (e, (==_iff c 10).0 e) (sym (strstr-newline q qs [] [] h))
  | inr e ↦ rw e refl
]
strstr-without_newline q qs (c ∷ d ∷ s) h =
    rw (starts_with-without_newline (q ∷ qs) (c ∷ d ∷ s) h, strstr-without_newline q qs (d ∷ s) h)
      refl

-- readFile of a file and shellExecute of a command whose text has no NUL return the whole text,
-- however long its lines are, without a newline at its end.
pub read_file-text :
    (sys : System) (path cmd s t : List ℕ)
    → is_nil path ≡ false
    → sys.file path ≡ some s
    → sys.command cmd ≡ some t
    → Without 0 s
    → Without 0 t
    → (read_file sys path ≡ without_newline s) × (shell_execute sys cmd ≡ without_newline t)
unfolding read_file shell_execute
read_file-text sys path cmd s t e f g h k =
    (rw (e, f) (read_all_lem 510 s h), rw g (read_all_lem 126 t k))

without_newline-of_Without : (s : List ℕ) → Without 10 s → without_newline s ≡ s
unfolding without_newline
without_newline-of_Without [] h = refl
without_newline-of_Without (c ∷ []) h = rw h.0 refl
without_newline-of_Without (c ∷ d ∷ s) h = ap (λ t. c ∷ t) (without_newline-of_Without (d ∷ s) h.1)

read_all-one :
    (s : List ℕ)
    → is_nil s ≡ false
    → length s ≤ 511
    → Without 10 s
    → read_all 512 (some s) ≡ without_newline (until_nul s)
unfolding read_all append_each lines
read_all-one [] e b h = cc
read_all-one (c ∷ s) e b h = ap (λ ls. without_newline (append_each [] ls)) (lines-one 511 c s b h)

Without-front : (n : ℕ) (a b : List ℕ) → Without n (a ++ b) → Without n a
Without-front n [] b h = tt
Without-front n (c ∷ a) b h = (h.0, Without-front n a b h.1)

pub is_nil-append : (s t : List ℕ) (c : ℕ) → is_nil (s ++ c ∷ t) ≡ false
is_nil-append [] t c = refl
is_nil-append (d ∷ s) t c = refl

-- The name of a process is what stands before the first NUL of its command line, if that is not
-- longer than a buffer and has no newline.
pub get_package_name-cmdline :
    (sys : System) (pid name arguments : List ℕ)
    → is_nil pid ≡ false
    → sys.file (codes "/proc/" ++ pid ++ codes "/cmdline") ≡ some (name ++ 0 ∷ arguments)
    → Without 0 name
    → Without 10 (name ++ 0 ∷ arguments)
    → length (name ++ 0 ∷ arguments) < 512
    → get_package_name sys pid ≡ name
unfolding get_package_name
get_package_name-cmdline sys pid name arguments e f h k b =
    rw (e, f)
      (read_all-one (name ++ 0 ∷ arguments) (is_nil-append name arguments 0) (omega arith) k
        ∙ ap without_newline (until_nul-append name arguments h)
        ∙ without_newline-of_Without name (Without-front 10 name (0 ∷ arguments) k))
