-- ===== src/Base32/Queue.antt =====
-- The converter is a queue of bits: what is appended comes out at the other end, in the same order.
use mathlib.Core.List.{append_assoc}
use mathlib.Core.Path.{subst}
use environment_check.Prelude.{
  ℕ, zero, suc, ◌+◌, ◌-◌, ◌*◌, ◌/◌, ◌%◌, ◌^◌, ◌<◌, ◌≤◌, ◌≡◌, refl, ap, ◌∙◌, sym, Bool, true, false,
  List, [], ◌∷◌, ◌++◌, ◌==◌, leb, ltb, length, length-append, arith,
}
use environment_check.Outcome.{returns}
use environment_check.Base32.{
  BitConverter, bits_available, can_append, can_extract, peek, append, extract,
}
use environment_check.Base32.Bits.{
  bit, value_from, value, value_from-append, value_from-shift, value-lt,
}

abbrev pub zeros : ℕ → List Bool
zeros zero = []
zeros (suc n) = false ∷ zeros n

length-zeros : (n : ℕ) → length (zeros n) ≡ n
length-zeros zero = refl
length-zeros (suc n) = ap suc (length-zeros n)

zero_plus : (m : ℕ) → 0 + m ≡ m
zero_plus m = omega arith

suc_plus : (n m : ℕ) → suc n + m ≡ suc (n + m)
suc_plus n m = omega arith

zeros-add : (n m : ℕ) → zeros (n + m) ≡ zeros n ++ zeros m
zeros-add zero m = rw (zero_plus m) refl
zeros-add (suc n) m = rw (suc_plus n m) (ap (λ bs. false ∷ bs) (zeros-add n m))

-- The converter that holds the bits `q` above `n` free bits.
abbrev pub holding : List Bool → ℕ → BitConverter
holding q n = record { buffer = value (q ++ zeros n); lower_free_bits = n }

abbrev pub bits8 : ℕ → List Bool
bits8 y =
    (y / 128 % 2 == 1)
    ∷ (y / 64 % 2 == 1)
    ∷ (y / 32 % 2 == 1)
    ∷ (y / 16 % 2 == 1)
    ∷ (y / 8 % 2 == 1)
    ∷ (y / 4 % 2 == 1)
    ∷ (y / 2 % 2 == 1)
    ∷ (y % 2 == 1)
    ∷ []

abbrev pub bits5 : ℕ → List Bool
bits5 y =
    (y / 16 % 2 == 1) ∷ (y / 8 % 2 == 1) ∷ (y / 4 % 2 == 1) ∷ (y / 2 % 2 == 1) ∷ (y % 2 == 1) ∷ []

bit_lem : (n : ℕ) → bit (n % 2 == 1) ≡ n % 2
bit_lem n = ground arith

pub value_from-bits8 : (n y : ℕ) → y < 256 → value_from n (bits8 y) ≡ n * 256 + y
unfolding value_from
value_from-bits8 n y h =
    rw
      (
        bit_lem (y / 128),
        bit_lem (y / 64),
        bit_lem (y / 32),
        bit_lem (y / 16),
        bit_lem (y / 8),
        bit_lem (y / 4),
        bit_lem (y / 2),
        bit_lem y,
      )
      (omega arith)

value_from-bits5 : (n y : ℕ) → y < 32 → value_from n (bits5 y) ≡ n * 32 + y
unfolding value_from
value_from-bits5 n y h =
    rw (bit_lem (y / 16), bit_lem (y / 8), bit_lem (y / 4), bit_lem (y / 2), bit_lem y)
      (omega arith)

-- The number of a queue from its two ends.
value-append : (q r : List Bool) → value (q ++ r) ≡ value q * 2 ^ length r + value r
value-append q r = value_from-append 0 q r ∙ value_from-shift (value q) r

spread : (a p v y : ℕ) → (a * p + v) + y * p ≡ (a + y) * p + v
spread a p v y = grind arith

-- Bits that replace as many zeros at the top of the free ones.
replaced :
    (k y n : ℕ) (q w : List Bool)
    → value_from (value q) w ≡ value_from (value q) (zeros k) + y
    → value (q ++ zeros (k + n)) + y * 2 ^ n ≡ value ((q ++ w) ++ zeros n)
replaced k y n q w h =
    let P = 2 ^ n in
    let low = value (zeros n) in
    ap (λ r. value (q ++ r) + y * P) (zeros-add k n)
    ∙ ap (λ r. value r + y * P) (sym (append_assoc q (zeros k) (zeros n)))
    ∙ ap (λ v. v + y * P) (value-append (q ++ zeros k) (zeros n))
    ∙ ap (λ l. value (q ++ zeros k) * 2 ^ l + low + y * P) (length-zeros n)
    ∙ spread (value (q ++ zeros k)) P low y
    ∙ ap (λ v. v * P + low) (sum)
    ∙ ap (λ l. value (q ++ w) * 2 ^ l + low) (sym (length-zeros n))
    ∙ sym (value-append (q ++ w) (zeros n))
  where
    sum : value (q ++ zeros k) + y ≡ value (q ++ w)
    sum = ap (λ v. v + y) (value_from-append 0 q (zeros k)) ∙ sym h ∙ sym (value_from-append 0 q w)

value_from-zeros8 : (a : ℕ) → value_from a (zeros 8) ≡ a * 256
unfolding value_from
value_from-zeros8 a = omega arith

value_from-zeros5 : (a : ℕ) → value_from a (zeros 5) ≡ a * 32
unfolding value_from
value_from-zeros5 a = omega arith

byte_bits : (a y : ℕ) → y < 256 → value_from a (bits8 y) ≡ value_from a (zeros 8) + y
byte_bits a y h = omega (arith, value_from-bits8 a y h, value_from-zeros8 a)

digit_bits : (a y : ℕ) → y < 32 → value_from a (bits5 y) ≡ value_from a (zeros 5) + y
digit_bits a y h = omega (arith, value_from-bits5 a y h, value_from-zeros5 a)

lt_test : (a b : ℕ) → a < b → ltb a b ≡ true
lt_test a b h = ground arith

room : (k n : ℕ) → leb k (k + n) ≡ true
room k n = ground arith

rest_free : (k n : ℕ) → k + n - k ≡ n
rest_free k n = omega arith

pub append_byte :
    (y n : ℕ) (q : List Bool)
    → y < 256
    → append 8 5 16 y (holding q (8 + n)) ≡ (returns tt, holding (q ++ bits8 y) n)
unfolding append can_append
append_byte y n q h =
    rw (lt_test y 256 h, room 8 n, rest_free 8 n)
      (ap (λ b. (returns tt, record { buffer = b; lower_free_bits = n }))
        (replaced 8 y n q (bits8 y) (byte_bits (value q) y h)))

pub append_digit :
    (y n : ℕ) (q : List Bool)
    → y < 32
    → append 5 8 16 y (holding q (5 + n)) ≡ (returns tt, holding (q ++ bits5 y) n)
unfolding append can_append
append_digit y n q h =
    rw (lt_test y 32 h, room 5 n, rest_free 5 n)
      (ap (λ b. (returns tt, record { buffer = b; lower_free_bits = n }))
        (replaced 5 y n q (bits5 y) (digit_bits (value q) y h)))

-- The highest bits `w` of a buffer of `m` lower bits.
top_lem : (m : ℕ) (w r : List Bool) → length r ≡ m → value (w ++ r) ≡ value w * 2 ^ m + value r
top_lem m w r h = value-append w r ∙ ap (λ l. value w * 2 ^ l + value r) h

below_lem : (m : ℕ) (r : List Bool) → length r ≡ m → value r < 2 ^ m
below_lem m r h = subst (λ l. value r < 2 ^ l) h (value-lt r)

length-filled : (q : List Bool) (n m : ℕ) → length q + n ≡ m → length (q ++ zeros n) ≡ m
length-filled q n m h = omega (arith, length-append q (zeros n), length-zeros n)

enough : (k n : ℕ) → n + k ≤ 16 → leb k (16 - n) ≡ true
enough k n h = ground arith

-- What a converter of 16 bits has above `m` lower bits, and what is left when it is taken out.
module _ (w q : List Bool) (n : ℕ) where
  whole :
      (m : ℕ)
      → length q + n ≡ m
      → value ((w ++ q) ++ zeros n) ≡ value w * 2 ^ m + value (q ++ zeros n)
  whole m h =
      ap value (append_assoc w q (zeros n)) ∙ top_lem m w (q ++ zeros n) (length-filled q n m h)

  small : (m : ℕ) → length q + n ≡ m → value (q ++ zeros n) < 2 ^ m
  small m h = below_lem m (q ++ zeros n) (length-filled q n m h)

  more_zeros : (k : ℕ) → value (q ++ zeros (n + k)) ≡ value_from (value (q ++ zeros n)) (zeros k)
  more_zeros k =
      ap (λ z. value (q ++ z)) (zeros-add n k)
      ∙ ap value (sym (append_assoc q (zeros n) (zeros k)))
      ∙ value_from-append 0 (q ++ zeros n) (zeros k)

  module _ (h : length q + n ≡ 11) where
    pub peek_five : peek 8 5 16 (holding (w ++ q) n) ≡ value w
    unfolding peek
    peek_five = omega (arith, whole 11 h, small 11 h)

    shifted_five : value ((w ++ q) ++ zeros n) * 2 ^ 5 % 2 ^ 16 ≡ value (q ++ zeros (n + 5))
    shifted_five =
        omega
          (arith, whole 11 h, small 11 h, more_zeros 5, value_from-zeros5 (value (q ++ zeros n)))

    pub extract_five : extract 8 5 16 (holding (w ++ q) n) ≡ (returns (value w), holding q (n + 5))
    unfolding extract can_extract bits_available
    extract_five =
        rw (enough 5 n (omega arith), peek_five)
          (ap (λ b. (returns (value w), record { buffer = b; lower_free_bits = n + 5 }))
            shifted_five)

  module _ (h : length q + n ≡ 8) where
    pub peek_eight : peek 5 8 16 (holding (w ++ q) n) ≡ value w
    unfolding peek
    peek_eight = omega (arith, whole 8 h, small 8 h)

    shifted_eight : value ((w ++ q) ++ zeros n) * 2 ^ 8 % 2 ^ 16 ≡ value (q ++ zeros (n + 8))
    shifted_eight =
        omega (arith, whole 8 h, small 8 h, more_zeros 8, value_from-zeros8 (value (q ++ zeros n)))

    pub extract_eight : extract 5 8 16 (holding (w ++ q) n) ≡ (returns (value w), holding q (n + 8))
    unfolding extract can_extract bits_available
    extract_eight =
        rw (enough 8 n (omega arith), peek_eight)
          (ap (λ b. (returns (value w), record { buffer = b; lower_free_bits = n + 8 }))
            shifted_eight)
