-- ===== src/HexCodec.antt =====
-- app/src/main/cpp/hex_codec.cc, of which CheckEnv/src/main/cpp/hex_codec.cc is a copy.
use environment_check.Prelude.{
  ℕ, zero, suc, ◌+◌, ◌-◌, ◌*◌, ◌/◌, ◌%◌, ◌<◌, ◌≡◌, refl, sym, ap, ◌∙◌, Bool, true, List, [], ◌∷◌,
  ltb, ◌==◌, ◌&&◌, All, and_both, Bool-cases, ==_iff, inl, inr, arith, if◌then◌else◌,
}

-- `kEncoding`: the characters 0 to 9 and a to f.
abbrev hex_encoding : List ℕ
hex_encoding = 48 ∷ 49 ∷ 50 ∷ 51 ∷ 52 ∷ 53 ∷ 54 ∷ 55 ∷ 56 ∷ 57 ∷ 97 ∷ 98 ∷ 99 ∷ 100 ∷ 101 ∷ 102 ∷ []

abbrev digit_in : List ℕ → ℕ → ℕ
digit_in [] n = 0
digit_in (c ∷ cs) zero = c
digit_in (c ∷ cs) (suc n) = digit_in cs n

unfoldable pub hex_digit : ℕ → ℕ
hex_digit n = digit_in hex_encoding n

-- `HexEncode`; `>> 4` is a division, and `& 0xF` a remainder.
unfoldable pub hex_encode : List ℕ → List ℕ
hex_encode [] = []
hex_encode (b ∷ input) = hex_digit (b / 16) ∷ hex_digit (b % 16) ∷ hex_encode input

-- The number that a hexadecimal digit stands for, and the bytes that pairs of digits stand for.
abbrev pub digit_value : ℕ → ℕ
digit_value c = if ltb c 58 then c - 48 else c - 87

abbrev pub read_pairs : List ℕ → List ℕ
read_pairs [] = []
read_pairs (c ∷ []) = []
read_pairs (c ∷ d ∷ cs) = (digit_value c * 16 + digit_value d) ∷ read_pairs cs

abbrev all_digits : ℕ → Bool
all_digits zero = true
all_digits (suc n) = digit_value (hex_digit n) == n && all_digits n

all_16 : all_digits 16 ≡ true
unfolding hex_digit
all_16 = refl

value-digit : (n i : ℕ) → all_digits n ≡ true → i < n → digit_value (hex_digit i) ≡ i
value-digit zero i h b = absurd (omega (arith, b))
value-digit (suc n) i h b =
    let (here, rest) = and_both (digit_value (hex_digit n) == n) (all_digits n) h in
    elim (Bool-cases (i == n)) [
      | inl y ↦
          let i≡n = (==_iff i n).0 y in
          ap (λ j. digit_value (hex_digit j)) i≡n ∙ (==_iff _ n).0 here ∙ sym i≡n
      | inr y ↦ value-digit n i rest (ground (arith, b))
    ]

-- The digits that encode bytes stand for these bytes, two digits for each.
pub read_pairs-hex_encode :
    (input : List ℕ) → All (λ b. b < 256) input → read_pairs (hex_encode input) ≡ input
unfolding hex_encode
read_pairs-hex_encode [] h = refl
read_pairs-hex_encode (b ∷ input) (hb, h) =
    let high = value-digit 16 (b / 16) all_16 (omega (arith, hb)) in
    let low = value-digit 16 (b % 16) all_16 (omega arith) in
    let whole : digit_value (hex_digit (b / 16)) * 16 + digit_value (hex_digit (b % 16)) ≡ b =
      omega (arith, high, low, hb) in
    rw (whole, read_pairs-hex_encode input h)
