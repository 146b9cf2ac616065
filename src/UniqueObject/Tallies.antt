-- ===== src/UniqueObject/Tallies.antt =====
-- How often a value stands among the values of objects.
use environment_check.Prelude.{
  ℕ, zero, suc, ◌+◌, ◌≤◌, ◌≡◌, refl, ap, true, false, List, [], ◌∷◌, ◌++◌, ◌==◌, ltb, length,
  if◌then◌else◌, arith, ==_iff,
}
use environment_check.Outcome.{returns}
use environment_check.UniqueObject.{value_at, set_value}

-- How often a value stands in a list.
abbrev pub tally : ℕ → List ℕ → ℕ
tally x [] = 0
tally x (y ∷ ys) = (if x == y then 1 else 0) + tally x ys

abbrev pub one : ℕ → ℕ → ℕ
one x y = if x == y then 1 else 0

pub tally-append : (x : ℕ) (xs ys : List ℕ) → tally x (xs ++ ys) ≡ tally x xs + tally x ys
tally-append x [] ys = omega arith
tally-append x (y ∷ xs) ys = omega (arith, tally-append x xs ys)

-- A value that an object holds is exchanged.
pub tally-set_value :
    (x i : ℕ) (v w : ℕ) (vs : List ℕ)
    → value_at i vs ≡ returns w
    → tally x (set_value i v vs) + one x w ≡ tally x vs + one x v
unfolding value_at set_value
tally-set_value x i v w [] h = cc
tally-set_value x zero v w (u ∷ vs) h = let same : u ≡ w = cc in omega (arith, ap (one x) same)
tally-set_value x (suc i) v w (u ∷ vs) h = omega (arith, tally-set_value x i v w vs h)

pub length-set_value : (i v : ℕ) (vs : List ℕ) → length (set_value i v vs) ≡ length vs
unfolding set_value
length-set_value i v [] = refl
length-set_value zero v (w ∷ vs) = refl
length-set_value (suc i) v (w ∷ vs) = ap suc (length-set_value i v vs)

-- A value that two objects have stays where the one is written over with it.
pub value_at-set_value :
    (i r w : ℕ) (vs : List ℕ)
    → value_at r vs ≡ returns w
    → value_at r (set_value i w vs) ≡ returns w
unfolding value_at set_value
value_at-set_value i r w [] h = h
value_at-set_value zero zero w (u ∷ vs) h = refl
value_at-set_value zero (suc r) w (u ∷ vs) h = h
value_at-set_value (suc i) zero w (u ∷ vs) h = h
value_at-set_value (suc i) (suc r) w (u ∷ vs) h = value_at-set_value i r w vs h

pub value_at-set_self :
    (i w v : ℕ) (vs : List ℕ)
    → value_at i vs ≡ returns v
    → value_at i (set_value i w vs) ≡ returns w
unfolding value_at set_value
value_at-set_self i w v [] h = cc
value_at-set_self zero w v (u ∷ vs) h = refl
value_at-set_self (suc i) w v (u ∷ vs) h = value_at-set_self i w v vs h

pub value_at-there :
    (i : ℕ) (vs : List ℕ) → ltb i (length vs) ≡ true → (v : ℕ) × (value_at i vs ≡ returns v)
unfolding value_at
value_at-there i [] h = absurd (ground arith)
value_at-there zero (v ∷ vs) h = (v, refl)
value_at-there (suc i) (v ∷ vs) h = value_at-there i vs (ground arith)

pub tally-held : (i v : ℕ) (vs : List ℕ) → value_at i vs ≡ returns v → 1 ≤ tally v vs
unfolding value_at
tally-held i v [] h = cc
tally-held zero v (u ∷ vs) h = let same : u ≡ v = cc in rw (same, (==_iff v v).1 refl) (omega arith)
tally-held (suc i) v (u ∷ vs) h = omega (arith, tally-held i v vs h)

pub one_self : (v : ℕ) → one v v ≡ 1
one_self v = rw ((==_iff v v).1 refl) refl

pub another : (a b : ℕ) → (a == b) ≡ false → one b a ≡ 0
another a b h = ground (arith, h)
