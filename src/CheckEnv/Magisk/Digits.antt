-- ===== src/CheckEnv/Magisk/Digits.antt =====
-- What sscanf reads of digits and of words, up to the byte that ends them.
use environment_check.Prelude.{
  ℕ, ◌+◌, ◌*◌, ◌%◌, ◌≤◌, ◌≡◌, refl, ap, ◌∙◌, some, Bool, true, false, List, [], ◌∷◌, ◌++◌, ◌==◌,
  ◌&&◌, ltb, is_nil, All, arith,
}
use environment_check.CheckEnv.Decimal.{skip_spaces, is_space}
use environment_check.CheckEnv.Magisk.{
  digit_of, digits_from, unsigned_from, without_prefix, is_x, word_bits, wrapped, signed_from,
  number_from, word_from,
}

-- A text that is not empty, of bytes that are no blanks.
abbrev pub IsField : List ℕ → Type 0
IsField w = (is_nil w ≡ false) × All (λ c. is_space c ≡ false) w

abbrev pub IsDigits : ℕ → List ℕ → Type 0
IsDigits base t = (is_nil t ≡ false) × All (λ c. ltb (digit_of c) base ≡ true) t

-- The number that digits stand for, after `acc`.
abbrev pub value : ℕ → ℕ → List ℕ → ℕ
value base acc [] = acc
value base acc (c ∷ t) = value base (acc * base + digit_of c) t

-- A byte that ends a number.
abbrev pub IsStop : ℕ → Type 0
IsStop c = (digit_of c ≡ 99) × (is_x c ≡ false)

digits_from-digits :
    (base acc : ℕ) (t : List ℕ) (stop : ℕ) (r : List ℕ)
    → base ≤ 16
    → All (λ c. ltb (digit_of c) base ≡ true) t
    → IsStop stop
    → digits_from base acc (t ++ stop ∷ r) ≡ (value base acc t, stop ∷ r)
unfolding digits_from
digits_from-digits base acc [] stop r b h k = ground arith
digits_from-digits base acc (c ∷ t) stop r b h k =
    rw h.0 (digits_from-digits base (acc * base + digit_of c) t stop r b h.1 k)

digit_not_x : (c : ℕ) → ltb (digit_of c) 16 ≡ true → is_x c ≡ false
unfolding digit_of
digit_not_x c h = ground arith

digit_not_sign : (c : ℕ) → ltb (digit_of c) 16 ≡ true → ((c == 45) ≡ false) × ((c == 43) ≡ false)
unfolding digit_of
digit_not_sign c h = ground arith

digit_not_space : (c : ℕ) → ltb (digit_of c) 16 ≡ true → is_space c ≡ false
unfolding digit_of
digit_not_space c h = ground arith

below_16 : (base d : ℕ) → base ≤ 16 → ltb d base ≡ true → ltb d 16 ≡ true
below_16 base d b h = ground arith

and_not : (a b c d : Bool) → c ≡ false → (a && b && c && d) ≡ false
and_not true true c d h = rw h refl
and_not true false c d h = refl
and_not false b c d h = refl

-- No digit, and no byte that ends a number, is the x of a prefix.
without_prefix-plain :
    (base c x : ℕ) (s : List ℕ) → is_x x ≡ false → without_prefix base (c ∷ x ∷ s) ≡ c ∷ x ∷ s
unfolding without_prefix
without_prefix-plain base c x [] h = refl
without_prefix-plain base c x (d ∷ s) h =
    rw (and_not (base == 16) (c == 48) (is_x x) (ltb (digit_of d) 16) h) refl

without_prefix-digits :
    (base : ℕ) (t : List ℕ) (stop : ℕ) (r : List ℕ)
    → base ≤ 16
    → IsDigits base t
    → IsStop stop
    → without_prefix base (t ++ stop ∷ r) ≡ t ++ stop ∷ r
without_prefix-digits base [] stop r b h k = absurd (ground arith)
without_prefix-digits base (c ∷ []) stop r b h k = without_prefix-plain base c stop r k.1
without_prefix-digits base (c ∷ x ∷ t) stop r b h k =
    without_prefix-plain base c x (t ++ stop ∷ r)
      (digit_not_x x (below_16 base (digit_of x) b h.1.1.0))

unsigned_from-digits :
    (base : ℕ) (t : List ℕ) (stop : ℕ) (r : List ℕ)
    → base ≤ 16
    → IsDigits base t
    → IsStop stop
    → unsigned_from base (t ++ stop ∷ r) ≡ some (value base 0 t, stop ∷ r)
unfolding unsigned_from
unsigned_from-digits base [] stop r b h k = absurd (ground arith)
unsigned_from-digits base (c ∷ t) stop r b h k =
    rw h.1.0 (ap some (digits_from-digits base (0 * base + digit_of c) t stop r b h.1.1 k))

signed_from-digits :
    (base : ℕ) (t : List ℕ) (stop : ℕ) (r : List ℕ)
    → base ≤ 16
    → IsDigits base t
    → IsStop stop
    → signed_from base (t ++ stop ∷ r) ≡ some (value base 0 t % word_bits, stop ∷ r)
unfolding signed_from wrapped
signed_from-digits base [] stop r b h k = absurd (ground arith)
signed_from-digits base (c ∷ t) stop r b h k =
    let plain = digit_not_sign c (below_16 base (digit_of c) b h.1.0) in
    rw
      (
        plain.0,
        plain.1,
        without_prefix-digits base (c ∷ t) stop r b h k,
        unsigned_from-digits base (c ∷ t) stop r b h k,
      )
      refl

IsDigits-IsField : (base : ℕ) (t : List ℕ) → base ≤ 16 → IsDigits base t → IsField t
IsDigits-IsField base [] b h = absurd (ground arith)
IsDigits-IsField base (c ∷ t) b h = (refl, spaceless (c ∷ t) h.1)
  where
    spaceless :
        (u : List ℕ) → All (λ c. ltb (digit_of c) base ≡ true) u → All (λ c. is_space c ≡ false) u
    spaceless [] k = tt
    spaceless (c ∷ u) k = (digit_not_space c (below_16 base (digit_of c) b k.0), spaceless u k.1)

pub skip_spaces-field : (w s : List ℕ) → IsField w → skip_spaces (w ++ s) ≡ w ++ s
unfolding skip_spaces
skip_spaces-field [] s h = absurd (ground arith)
skip_spaces-field (c ∷ w) s h = rw h.1.0 refl

pub skip_spaces-blank : (w s : List ℕ) → IsField w → skip_spaces (32 ∷ w ++ s) ≡ w ++ s
unfolding skip_spaces
skip_spaces-blank w s h = skip_spaces-field w s h

pub number_from-digits :
    (base : ℕ) (t : List ℕ) (stop : ℕ) (r : List ℕ)
    → base ≤ 16
    → IsDigits base t
    → IsStop stop
    → (number_from base (t ++ stop ∷ r) ≡ some (value base 0 t % word_bits, stop ∷ r))
      × (number_from base (32 ∷ t ++ stop ∷ r) ≡ some (value base 0 t % word_bits, stop ∷ r))
unfolding number_from
number_from-digits base t stop r b h k =
    let field = IsDigits-IsField base t b h in
    let read = signed_from-digits base t stop r b h k in
    (
      ap (signed_from base) (skip_spaces-field t (stop ∷ r) field) ∙ read,
      ap (signed_from base) (skip_spaces-blank t (stop ∷ r) field) ∙ read,
    )

pub word_from-field :
    (w : List ℕ) (stop : ℕ) (r : List ℕ)
    → All (λ c. is_space c ≡ false) w
    → is_space stop ≡ true
    → word_from (w ++ stop ∷ r) ≡ (w, stop ∷ r)
unfolding word_from
word_from-field [] stop r h k = rw k refl
word_from-field (c ∷ w) stop r h k = rw (h.0, word_from-field w stop r h.1 k) refl
