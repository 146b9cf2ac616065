-- ===== src/Prelude/Perms.antt =====
-- What a permutation keeps: the length, and a test on all members; and the members that pass a test.

use mathlib.Core.List.{List, [], ◌∷◌, Perm, Permᴰ}
use mathlib.Core.Logic.{∥∥₁_elim}
use mathlib.Core.Bool.{Bool, true, false, Bool-set}
use mathlib.Core.Path.{◌≡◌, refl, ap, ◌∙◌, sym}
use Prim.Native.Nat.{suc}
use native.Mathlib.Nat.{ℕ_set}
use environment_check.Prelude.Lists.{All, length}

module _ {ℓ} {A : Type ℓ} where
  length-Permᴰ : {xs ys : List A} → Permᴰ xs ys → length xs ≡ length ys
  length-Permᴰ Permᴰ.nil = refl
  length-Permᴰ (Permᴰ.cons e d) = ap suc (length-Permᴰ d)
  length-Permᴰ (Permᴰ.swap e f) = refl
  length-Permᴰ (Permᴰ.trans d e) = length-Permᴰ d ∙ length-Permᴰ e

  pub length-perm : {xs ys : List A} → Perm xs ys → length xs ≡ length ys
  length-perm {xs} {ys} p = ∥∥₁_elim {P = length xs ≡ length ys} p (ℕ_set _ _) length-Permᴰ

module _ {ℓ} {A : Type ℓ} (f : A → Bool) (b : Bool) where
  abbrev Passes : List A → Type 0
  Passes xs = All (λ a. f a ≡ b) xs

  Passes-IsProp : (xs : List A) → IsProp (Passes xs)
  Passes-IsProp [] = hlevel
  Passes-IsProp (x ∷ xs) = hlevel (Passes-IsProp xs, Bool-set)

  Passes-Permᴰ : {xs ys : List A} → Permᴰ xs ys → Passes xs → Passes ys
  Passes-Permᴰ Permᴰ.nil h = tt
  Passes-Permᴰ (Permᴰ.cons e d) (h, hs) = (ap f (sym e) ∙ h, Passes-Permᴰ d hs)
  Passes-Permᴰ (Permᴰ.swap e g) (h, (k, hs)) = (ap f (sym g) ∙ k, (ap f (sym e) ∙ h, hs))
  Passes-Permᴰ (Permᴰ.trans d e) h = Passes-Permᴰ e (Passes-Permᴰ d h)

  pub All-perm : {xs ys : List A} → Perm xs ys → All (λ a. f a ≡ b) xs → All (λ a. f a ≡ b) ys
  All-perm {ys = ys} p h = ∥∥₁_elim p (Passes-IsProp ys) (λ d. Passes-Permᴰ d h)

pub true_ne_false : true ≡ false → ⊥
true_ne_false e = cc

abbrev pub dec_false : (b : Bool) → Dec (b ≡ false)
dec_false true = no true_ne_false
dec_false false = yes refl
