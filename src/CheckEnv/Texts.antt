-- ===== src/CheckEnv/Texts.antt =====
-- Texts that end their lines with a newline, and what strstr finds in them.
use environment_check.Prelude.{
  ℕ, ◌<◌, ◌≡◌, refl, ap, sym, ◌∙◌, or_false, or_assoc, Bool, false, List, [], ◌∷◌, ◌++◌, ◌==◌, ◌&&◌,
  ◌||◌, length, All, All-append, until_nul, starts_with, strstr,
}

-- No byte of the text is `b`.
abbrev pub Without : ℕ → List ℕ → Type 0
Without b s = All (λ c. (c == b) ≡ false) s

pub until_nul-of_Without : (s : List ℕ) → Without 0 s → until_nul s ≡ s
unfolding until_nul
until_nul-of_Without [] h = refl
until_nul-of_Without (c ∷ s) h = rw h.0 (ap (λ t. c ∷ t) (until_nul-of_Without s h.1))

pub until_nul-append : (s t : List ℕ) → Without 0 s → until_nul (s ++ 0 ∷ t) ≡ s
unfolding until_nul
until_nul-append [] t h = refl
until_nul-append (c ∷ s) t h = rw h.0 (ap (λ u. c ∷ u) (until_nul-append s t h.1))

pub starts_with-newline :
    (p a b : List ℕ) → Without 10 p → starts_with p (a ++ 10 ∷ b) ≡ starts_with p a
unfolding starts_with
starts_with-newline [] a b h = refl
starts_with-newline (p ∷ ps) [] b h = rw h.0 refl
starts_with-newline (p ∷ ps) (c ∷ a) b h = ap (λ r. p == c && r) (starts_with-newline ps a b h.1)

-- A text of one line stands in one of the lines.
pub strstr-newline :
    (q : ℕ) (qs a b : List ℕ)
    → Without 10 (q ∷ qs)
    → strstr (q ∷ qs) (a ++ 10 ∷ b) ≡ (strstr (q ∷ qs) a || strstr (q ∷ qs) b)
unfolding strstr
strstr-newline q qs [] b h = rw (starts_with-newline (q ∷ qs) [] b h) refl
strstr-newline q qs (c ∷ a) b h =
    rw (starts_with-newline (q ∷ qs) (c ∷ a) b h, strstr-newline q qs a b h)
      (sym (or_assoc (starts_with (q ∷ qs) (c ∷ a)) (strstr (q ∷ qs) a) (strstr (q ∷ qs) b)))

pub strstr-line :
    (q : ℕ) (qs l : List ℕ)
    → Without 10 (q ∷ qs)
    → strstr (q ∷ qs) (l ++ 10 ∷ []) ≡ strstr (q ∷ qs) l
unfolding strstr
strstr-line q qs l h = strstr-newline q qs l [] h ∙ or_false (strstr (q ∷ qs) l)

abbrev pub unlines : List (List ℕ) → List ℕ
unlines [] = []
unlines (l ∷ ls) = l ++ 10 ∷ unlines ls

-- Whether some line has the text.
abbrev pub in_some : List ℕ → List (List ℕ) → Bool
in_some p [] = false
in_some p (l ∷ ls) = strstr p l || in_some p ls

pub strstr-unlines :
    (q : ℕ) (qs : List ℕ) (ls : List (List ℕ))
    → Without 10 (q ∷ qs)
    → strstr (q ∷ qs) (unlines ls) ≡ in_some (q ∷ qs) ls
unfolding strstr
strstr-unlines q qs [] h = refl
strstr-unlines q qs (l ∷ ls) h =
    strstr-newline q qs l (unlines ls) h
    ∙ ap (λ r. strstr (q ∷ qs) l || r) (strstr-unlines q qs ls h)

-- The lines have no NUL and no newline, and are shorter than `n`.
abbrev pub IsLine : ℕ → List ℕ → Type 0
IsLine n l = Without 10 l × Without 0 l × (length l < n)

pub Without-unlines : (n : ℕ) (ls : List (List ℕ)) → All (IsLine n) ls → Without 0 (unlines ls)
Without-unlines n [] h = tt
Without-unlines n (l ∷ ls) h =
    All-append (λ c. (c == 0) ≡ false) l (10 ∷ unlines ls) h.0.1 (refl, Without-unlines n ls h.1)

pub until_nul-line : (n : ℕ) (l : List ℕ) → IsLine n l → until_nul (l ++ 10 ∷ []) ≡ l ++ 10 ∷ []
until_nul-line n l h =
    until_nul-of_Without (l ++ 10 ∷ [])
      (All-append (λ c. (c == 0) ≡ false) l (10 ∷ []) h.1 (refl, tt))
