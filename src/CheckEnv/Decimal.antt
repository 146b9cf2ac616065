-- ===== src/CheckEnv/Decimal.antt =====
-- Numbers as `%d` prints them and as `atoi` reads them.
use environment_check.Prelude.{
  ℕ, zero, suc, ◌+◌, ◌-◌, ◌*◌, ◌/◌, ◌%◌, ◌^◌, ◌<◌, ◌≤◌, ◌≡◌, refl, ap, ◌∙◌, inl, inr, Bool, true,
  false, List, [], ◌∷◌, ◌++◌, ltb, ltb→lt, leb, ◌==◌, ◌&&◌, ◌||◌, if◌then◌else◌, length, is_nil,
  arith, Bool-cases,
}

decimal_from : ℕ → ℕ → List ℕ → List ℕ
decimal_from zero n s = s
decimal_from (suc f) n s =
    let rest = decimal_from f (n / 10) ((48 + n % 10) ∷ s) in
    if ltb n 10 then (48 + n) ∷ s else rest

-- `%d` of a number that is not negative.
unfoldable pub decimal : ℕ → List ℕ
unfolding decimal_from
decimal n = decimal_from (suc n) n []

abbrev is_digit : ℕ → Bool
is_digit c = leb 48 c && leb c 57

digits_value : ℕ → List ℕ → ℕ
digits_value acc [] = acc
digits_value acc (c ∷ s) =
    let rest = digits_value (acc * 10 + (c - 48)) s in if is_digit c then rest else acc

abbrev pub is_space : ℕ → Bool
is_space c = c == 32 || leb 9 c && leb c 13

unfoldable pub skip_spaces : List ℕ → List ℕ
skip_spaces [] = []
skip_spaces (c ∷ s) = if is_space c then skip_spaces s else c ∷ s

skip_sign : List ℕ → List ℕ
skip_sign [] = []
skip_sign (c ∷ s) = if c == 43 || c == 45 then s else c ∷ s

-- The absolute value of `atoi`, for a text whose number is an int.
unfoldable pub atoi_value : List ℕ → ℕ
unfolding digits_value skip_spaces skip_sign
atoi_value s = digits_value 0 (skip_sign (skip_spaces s))

le_of_not_lt : (a b : ℕ) → ltb a b ≡ false → b ≤ a
le_of_not_lt a b h = ground arith

digit-is_digit : (d : ℕ) → d < 10 → is_digit (48 + d) ≡ true
digit-is_digit d h = ground arith

digits_value-digit :
    (acc d : ℕ) (s : List ℕ)
    → d < 10
    → digits_value acc ((48 + d) ∷ s) ≡ digits_value (acc * 10 + d) s
unfolding digits_value
digits_value-digit acc d s h = rw (digit-is_digit d h) (ap (λ v. digits_value v s) (omega arith))

digits_value-decimal_from :
    (f n : ℕ) (s : List ℕ) → n < f → digits_value 0 (decimal_from f n s) ≡ digits_value n s
unfolding decimal_from
digits_value-decimal_from zero n s h = absurd (omega arith)
digits_value-decimal_from (suc f) n s h = elim (Bool-cases (ltb n 10)) [
  | inl e ↦
      rw e (digits_value-digit 0 n s (ltb→lt n 10 e) ∙ ap (λ v. digits_value v s) (omega arith))
  | inr e ↦ rw e (
      digits_value-decimal_from f (n / 10) ((48 + n % 10) ∷ s) (omega (arith, le_of_not_lt n 10 e))
      ∙ digits_value-digit (n / 10) (n % 10) s (omega arith)
      ∙ ap (λ v. digits_value v s) (omega arith))
]

abbrev tens : ℕ → ℕ
tens zero = 1
tens (suc k) = 10 * tens k

length-decimal_from :
    (f n k : ℕ) (s : List ℕ) → n < tens (suc k) → length (decimal_from f n s) ≤ suc k + length s
unfolding decimal_from
length-decimal_from zero n k s h = omega arith
length-decimal_from (suc f) n zero s h = rw (few n h) (omega arith)
  where
    few : (n : ℕ) → n < tens 1 → ltb n 10 ≡ true
    few n h = ground arith
length-decimal_from (suc f) n (suc k) s h = elim (Bool-cases (ltb n 10)) [
  | inl e ↦ rw e (omega arith)
  | inr e ↦ rw e (omega (arith, length-decimal_from f (n / 10) k ((48 + n % 10) ∷ s) (omega arith)))
]

pub length-decimal : (n : ℕ) → n < 2 ^ 32 → length (decimal n) ≤ 10
unfolding decimal
length-decimal n h = length-decimal_from (suc n) n 9 [] (omega arith)

decimal_from-append : (f n : ℕ) (s t : List ℕ) → decimal_from f n s ++ t ≡ decimal_from f n (s ++ t)
unfolding decimal_from
decimal_from-append zero n s t = refl
decimal_from-append (suc f) n s t = elim (Bool-cases (ltb n 10)) [
  | inl e ↦ rw e refl
  | inr e ↦ rw e (decimal_from-append f (n / 10) ((48 + n % 10) ∷ s) t)
]

no_space : (d : ℕ) → d < 10 → is_space (48 + d) ≡ false
no_space d h = ground arith

no_sign : (d : ℕ) → d < 10 → (48 + d == 43 || 48 + d == 45) ≡ false
no_sign d h = ground arith

-- A printed number begins with a digit.
starts_at_once :
    (f n : ℕ) (s : List ℕ)
    → n < f
    → skip_sign (skip_spaces (decimal_from f n s)) ≡ decimal_from f n s
unfolding decimal_from skip_sign skip_spaces
starts_at_once zero n s h = absurd (omega arith)
starts_at_once (suc f) n s h = elim (Bool-cases (ltb n 10)) [
  | inl e ↦ rw (e, no_space n (ltb→lt n 10 e), no_sign n (ltb→lt n 10 e)) refl
  | inr e ↦
      rw e (starts_at_once f (n / 10) ((48 + n % 10) ∷ s) (omega (arith, le_of_not_lt n 10 e)))
]

digits_value-newline : (n : ℕ) (s : List ℕ) → digits_value n (10 ∷ s) ≡ n
unfolding digits_value
digits_value-newline n s = refl

-- `atoi` reads back, after a tab, a number that ends its line.
pub atoi-decimal : (n : ℕ) (s : List ℕ) → atoi_value (9 ∷ (decimal n ++ 10 ∷ s)) ≡ n
unfolding atoi_value decimal
atoi-decimal n s =
    ap (λ t. digits_value 0 (skip_sign (skip_spaces t))) (decimal_from-append (suc n) n [] (10 ∷ s))
    ∙ ap (digits_value 0) (starts_at_once (suc n) n (10 ∷ s) (omega arith))
    ∙ digits_value-decimal_from (suc n) n (10 ∷ s) (omega arith)
    ∙ digits_value-newline n s

is_nil-decimal_from : (f n c : ℕ) (s : List ℕ) → is_nil (decimal_from f n (c ∷ s)) ≡ false
unfolding decimal_from
is_nil-decimal_from zero n c s = refl
is_nil-decimal_from (suc f) n c s = elim (Bool-cases (ltb n 10)) [
  | inl e ↦ rw e refl
  | inr e ↦ rw e (is_nil-decimal_from f (n / 10) (48 + n % 10) (c ∷ s))
]

pub is_nil-decimal : (n : ℕ) → is_nil (decimal n) ≡ false
unfolding decimal decimal_from
is_nil-decimal n = elim (Bool-cases (ltb n 10)) [
  | inl e ↦ rw e refl
  | inr e ↦ rw e (is_nil-decimal_from n (n / 10) (48 + n % 10) [])
]
