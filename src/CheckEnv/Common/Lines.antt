-- ===== src/CheckEnv/Common/Lines.antt =====
-- The buffers of a loop over fgets.
use mathlib.Core.List.{append_assoc, append-nil}
use mathlib.Core.Path.{subst}
use environment_check.Prelude.{
  ℕ, zero, suc, ◌<◌, ◌≤◌, ◌≡◌, refl, ap, ◌∙◌, sym, List, [], ◌∷◌, ◌++◌, ◌==◌, length, length-append,
  All, arith, Bool-cases, inl, inr, ==_iff,
}
use environment_check.CheckEnv.Texts.{Without, until_nul-of_Without, unlines, IsLine}
use environment_check.CheckEnv.Common.{take_line, lines_from, lines, append_each}

-- A buffer and the rest make up what was there, and the buffer has a byte.
take_line_whole : (k : ℕ) (s : List ℕ) → (take_line k s).0 ++ (take_line k s).1 ≡ s
unfolding take_line
take_line_whole zero s = refl
take_line_whole (suc k) [] = refl
take_line_whole (suc k) (c ∷ s) = elim (Bool-cases (c == 10)) [
  | inl e ↦ rw e (ap (λ d. d ∷ s) (sym ((==_iff c 10).0 e)))
  | inr e ↦ rw e (ap (λ t. c ∷ t) (take_line_whole k s))
]

take_line_shorter : (k c : ℕ) (s : List ℕ) → length (take_line (suc k) (c ∷ s)).1 ≤ length s
unfolding take_line
take_line_shorter k c s = elim (Bool-cases (c == 10)) [
  | inl e ↦ rw e (omega arith)
  | inr e ↦ rw e (
      omega
        (arith, ap length (take_line_whole k s), length-append (take_line k s).0 (take_line k s).1))
]

Without-split : (a b : List ℕ) → Without 0 (a ++ b) → Without 0 a × Without 0 b
Without-split [] b h = (tt, h)
Without-split (c ∷ a) b h = let (x, y) = Without-split a b h.1 in ((h.0, x), y)

pub append_each-lines_from :
    (f k : ℕ) (out s : List ℕ)
    → length s ≤ f
    → Without 0 s
    → append_each out (lines_from f (suc k) s) ≡ out ++ s
unfolding append_each lines_from
append_each-lines_from zero k out [] b h = sym (append-nil out)
append_each-lines_from zero k out (c ∷ s) b h = absurd (omega arith)
append_each-lines_from (suc f) k out [] b h = sym (append-nil out)
append_each-lines_from (suc f) k out (c ∷ s) b h =
    let t = take_line (suc k) (c ∷ s) in
    let whole = take_line_whole (suc k) (c ∷ s) in
    let parts = Without-split t.0 t.1 (subst (Without 0) (sym whole) h) in
    ap (λ u. append_each (out ++ u) (lines_from f (suc k) t.1)) (until_nul-of_Without t.0 parts.0)
    ∙ append_each-lines_from f k (out ++ t.0) t.1 (omega (arith, take_line_shorter k c s)) parts.1
    ∙ append_assoc out t.0 t.1
    ∙ ap (λ u. out ++ u) whole

-- One line is read by one fgets, where the buffer has room for it.
take_line-line :
    (k : ℕ) (l s : List ℕ)
    → length l < k
    → Without 10 l
    → take_line k (l ++ 10 ∷ s) ≡ (l ++ 10 ∷ [], s)
unfolding take_line
take_line-line zero l s b h = absurd (omega arith)
take_line-line (suc k) [] s b h = refl
take_line-line (suc k) (c ∷ l) s b h = rw (h.0, take_line-line k l s (omega arith) h.1) refl

abbrev pub with_newlines : List (List ℕ) → List (List ℕ)
with_newlines [] = []
with_newlines (l ∷ ls) = (l ++ 10 ∷ []) ∷ with_newlines ls

line_read :
    (f k : ℕ) (l s : List ℕ)
    → length l < k
    → Without 10 l
    → lines_from (suc f) k (l ++ 10 ∷ s) ≡ (l ++ 10 ∷ []) ∷ lines_from f k s
unfolding lines_from
line_read f k [] s b h = rw (take_line-line k [] s b h) refl
line_read f k (c ∷ l) s b h = rw (take_line-line k (c ∷ l) s b h) refl

lines_from-unlines :
    (f k : ℕ) (ls : List (List ℕ))
    → length (unlines ls) ≤ f
    → All (IsLine k) ls
    → lines_from f k (unlines ls) ≡ with_newlines ls
unfolding lines_from
lines_from-unlines zero k [] b h = refl
lines_from-unlines (suc f) k [] b h = refl
lines_from-unlines zero k (l ∷ ls) b h = absurd (omega (arith, length-append l (10 ∷ unlines ls)))
lines_from-unlines (suc f) k (l ∷ ls) b h =
    line_read f k l (unlines ls) h.0.2 h.0.0
    ∙ ap (λ r. (l ++ 10 ∷ []) ∷ r)
        (lines_from-unlines f k ls (omega (arith, length-append l (10 ∷ unlines ls))) h.1)

pub lines-unlines :
    (k : ℕ) (ls : List (List ℕ)) → All (IsLine k) ls → lines (suc k) (unlines ls) ≡ with_newlines ls
unfolding lines
lines-unlines k ls h =
    ap (λ n. lines_from (length (unlines ls)) n (unlines ls)) (omega arith)
    ∙ lines_from-unlines (length (unlines ls)) k ls (omega arith) h

pub take_line-whole : (k : ℕ) (s : List ℕ) → length s ≤ k → Without 10 s → take_line k s ≡ (s, [])
unfolding take_line
take_line-whole zero [] b h = refl
take_line-whole (suc k) [] b h = refl
take_line-whole zero (c ∷ s) b h = absurd (omega arith)
take_line-whole (suc k) (c ∷ s) b h = rw (h.0, take_line-whole k s (omega arith) h.1) refl

lines_from-nil : (f k : ℕ) → lines_from f k [] ≡ []
unfolding lines_from
lines_from-nil zero k = refl
lines_from-nil (suc f) k = refl

pub lines-one :
    (k c : ℕ) (s : List ℕ)
    → length (c ∷ s) ≤ k
    → Without 10 (c ∷ s)
    → lines_from (length (c ∷ s)) k (c ∷ s) ≡ (c ∷ s) ∷ []
unfolding lines_from
lines-one k c s b h =
    rw (take_line-whole k (c ∷ s) b h) (ap (λ r. (c ∷ s) ∷ r) (lines_from-nil (length s) k))
