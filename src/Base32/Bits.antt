-- ===== src/Base32/Bits.antt =====
-- Numbers as lists of bits, the highest first.
use native.Mathlib.Nat.{two-pow-succ}
use environment_check.Prelude.{
  ℕ, suc, ◌+◌, ◌*◌, ◌^◌, ◌<◌, ◌≡◌, refl, Bool, true, false, List, [], ◌∷◌, ◌++◌, length, arith,
}

abbrev pub bit : Bool → ℕ
bit true = 1
bit false = 0

unfoldable pub value_from : ℕ → List Bool → ℕ
value_from n [] = n
value_from n (b ∷ bs) = value_from (2 * n + bit b) bs

abbrev pub value : List Bool → ℕ
value bs = value_from 0 bs

pub value_from-append :
    (n : ℕ) (bs cs : List Bool) → value_from n (bs ++ cs) ≡ value_from (value_from n bs) cs
unfolding value_from
value_from-append n [] cs = refl
value_from-append n (b ∷ bs) cs = value_from-append (2 * n + bit b) bs cs

pow_suc : (n : ℕ) → 2 ^ suc n ≡ 2 * 2 ^ n
pow_suc n = omega (arith, two-pow-succ n)

shift : (n b p v : ℕ) → (2 * n + b) * p + v ≡ n * (2 * p) + ((0 + b) * p + v)
shift n b p v = grind arith

pub value_from-shift : (n : ℕ) (bs : List Bool) → value_from n bs ≡ n * 2 ^ length bs + value bs
unfolding value_from
value_from-shift n [] = omega arith
value_from-shift n (b ∷ bs) =
    rw (value_from-shift (2 * n + bit b) bs, value_from-shift (0 + bit b) bs, pow_suc (length bs))
      (shift n (bit b) (2 ^ length bs) (value bs))

pub value-lt : (bs : List Bool) → value bs < 2 ^ length bs
unfolding value_from
value-lt [] = omega arith
value-lt (true ∷ bs) = omega (arith, value_from-shift 1 bs, value-lt bs, pow_suc (length bs))
value-lt (false ∷ bs) = omega (arith, value-lt bs, pow_suc (length bs))
