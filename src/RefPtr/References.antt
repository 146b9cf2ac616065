-- ===== src/RefPtr/References.antt =====
-- How many pointers refer to an object.
use environment_check.Prelude.{
  ℕ, zero, suc, ◌+◌, ◌<◌, ◌≤◌, ◌≡◌, refl, ap, Option, none, some, List, [], ◌∷◌, ◌==◌, length,
  if◌then◌else◌, arith,
}
use environment_check.RefPtr.{pointer_at, set}

-- 1 where the pointer refers to the object.
abbrev pub hit : Option ℕ → ℕ → ℕ
hit none q = 0
hit (some p) q = if q == p then 1 else 0

unfoldable pub references : ℕ → List (Option ℕ) → ℕ
references q [] = 0
references q (v ∷ vs) = hit v q + references q vs

pub hit_le : (v : Option ℕ) (q : ℕ) → hit v q ≤ 1
hit_le none q = omega arith
hit_le (some p) q = ground arith

pub references-le-length : (q : ℕ) (vs : List (Option ℕ)) → references q vs ≤ length vs
unfolding references
references-le-length q [] = omega arith
references-le-length q (v ∷ vs) = omega (arith, hit_le v q, references-le-length q vs)

pub references-set :
    (q i : ℕ) (v : Option ℕ) (vs : List (Option ℕ))
    → i < length vs
    → references q (set i v vs) + hit (pointer_at i vs) q ≡ references q vs + hit v q
unfolding references set pointer_at
references-set q i v [] h = absurd (omega arith)
references-set q zero v (w ∷ vs) h = omega arith
references-set q (suc i) v (w ∷ vs) h = omega (arith, references-set q i v vs (omega arith))

pub hit-le-references : (q i : ℕ) (vs : List (Option ℕ)) → hit (pointer_at i vs) q ≤ references q vs
unfolding references pointer_at
hit-le-references q i [] = omega arith
hit-le-references q zero (v ∷ vs) = omega arith
hit-le-references q (suc i) (v ∷ vs) = omega (arith, hit-le-references q i vs)

pub length-set : (i : ℕ) (v : Option ℕ) (vs : List (Option ℕ)) → length (set i v vs) ≡ length vs
unfolding set
length-set i v [] = refl
length-set zero v (w ∷ vs) = refl
length-set (suc i) v (w ∷ vs) = omega (arith, length-set i v vs)

pub pointer_at-set_self :
    (i : ℕ) (v : Option ℕ) (vs : List (Option ℕ)) → i < length vs → pointer_at i (set i v vs) ≡ v
unfolding pointer_at set
pointer_at-set_self i v [] h = absurd (omega arith)
pointer_at-set_self zero v (w ∷ vs) h = refl
pointer_at-set_self (suc i) v (w ∷ vs) h = pointer_at-set_self i v vs (omega arith)

-- A copy of a variable leaves that variable as it is, also where it is copied to itself.
pub pointer_at-set_copy :
    (i r : ℕ) (vs : List (Option ℕ)) → pointer_at r (set i (pointer_at r vs) vs) ≡ pointer_at r vs
unfolding pointer_at set
pointer_at-set_copy i r [] = refl
pointer_at-set_copy zero zero (v ∷ vs) = refl
pointer_at-set_copy zero (suc r) (v ∷ vs) = refl
pointer_at-set_copy (suc i) zero (v ∷ vs) = refl
pointer_at-set_copy (suc i) (suc r) (v ∷ vs) = pointer_at-set_copy i r vs

pub set-pointer_at : (i : ℕ) (vs : List (Option ℕ)) → set i (pointer_at i vs) vs ≡ vs
unfolding pointer_at set
set-pointer_at i [] = refl
set-pointer_at zero (v ∷ vs) = refl
set-pointer_at (suc i) (v ∷ vs) = ap (λ ws. v ∷ ws) (set-pointer_at i vs)

module _ (vs : List (Option ℕ)) where
  -- A variable that held nothing adds its pointer.
  pub filled :
      (i : ℕ) (v : Option ℕ)
      → i < length vs
      → pointer_at i vs ≡ none
      → (q : ℕ) → references q vs + hit v q ≡ references q (set i v vs)
  filled i v h e q = omega (arith, references-set q i v vs h, ap (λ o. hit o q) e)

  pub bound : (i : ℕ) (v : Option ℕ) (r : ℕ) → r < length vs → r < length (set i v vs)
  bound i v r h = omega (arith, length-set i v vs)

  pub kept :
      (i r : ℕ) → r < length vs → (q : ℕ) → hit (pointer_at i (set r none vs)) q ≤ references q vs
  kept i r h q = omega (arith, hit-le-references q i (set r none vs), references-set q r none vs h)
