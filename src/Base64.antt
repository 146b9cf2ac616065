-- ===== src/Base64.antt =====
-- CheckEnv/src/main/cpp/base64.h and base64.cc: the encoders, the decoder and the sizes.
pub mod Decoder
pub mod Tables
pub mod Groups
pub mod Sizes
pub mod Written
pub mod Roundtrip
use environment_check.Prelude.{
  ℕ, zero, suc, ◌+◌, ◌-◌, ◌*◌, ◌/◌, ◌%◌, ◌^◌, Option, none, some, Bool, true, false, List, [], ◌∷◌,
  ◌++◌, ◌==◌, ◌&&◌, ◌||◌, not, leb, is_nil, length, if◌then◌else◌,
}

-- A byte is a number below 256, a `char` its unsigned byte.
abbrev pub Text : Type 0
Text = List ℕ

abbrev pub nth {ℓ} : {A : Type ℓ} → A → List A → ℕ → A
nth a [] n = a
nth a (x ∷ xs) zero = x
nth a (x ∷ xs) (suc n) = nth a xs n

-- The letters and digits, with which both tables begin.
abbrev alphanumeric : Text
alphanumeric =
    65 ∷ 66 ∷ 67 ∷ 68 ∷ 69 ∷ 70 ∷ 71 ∷ 72 ∷ 73 ∷ 74 ∷ 75 ∷ 76 ∷ 77 ∷ 78 ∷ 79 ∷ 80 ∷ 81 ∷ 82 ∷ 83
    ∷ 84 ∷ 85 ∷ 86 ∷ 87 ∷ 88 ∷ 89 ∷ 90 ∷ 97 ∷ 98 ∷ 99 ∷ 100 ∷ 101 ∷ 102 ∷ 103 ∷ 104 ∷ 105 ∷ 106
    ∷ 107 ∷ 108 ∷ 109 ∷ 110 ∷ 111 ∷ 112 ∷ 113 ∷ 114 ∷ 115 ∷ 116 ∷ 117 ∷ 118 ∷ 119 ∷ 120 ∷ 121 ∷ 122
    ∷ 48 ∷ 49 ∷ 50 ∷ 51 ∷ 52 ∷ 53 ∷ 54 ∷ 55 ∷ 56 ∷ 57 ∷ []

abbrev base64_table : Text
base64_table = alphanumeric ++ 43 ∷ 47 ∷ []

abbrev base64_table_url_safe : Text
base64_table_url_safe = alphanumeric ++ 45 ∷ 95 ∷ []

-- The entries for 0 to 127; all others are -1, which is `none`.
abbrev base64_table_reverse : List (Option ℕ)
base64_table_reverse =
    none
    ∷ none
    ∷ none
    ∷ none
    ∷ none
    ∷ none
    ∷ none
    ∷ none
    ∷ none
    ∷ none
    ∷ none
    ∷ none
    ∷ none
    ∷ none
    ∷ none
    ∷ none
    ∷ none
    ∷ none
    ∷ none
    ∷ none
    ∷ none
    ∷ none
    ∷ none
    ∷ none
    ∷ none
    ∷ none
    ∷ none
    ∷ none
    ∷ none
    ∷ none
    ∷ none
    ∷ none
    ∷ none
    ∷ none
    ∷ none
    ∷ none
    ∷ none
    ∷ none
    ∷ none
    ∷ none
    ∷ none
    ∷ none
    ∷ none
    ∷ some 62
    ∷ none
    ∷ some 62
    ∷ none
    ∷ some 63
    ∷ some 52
    ∷ some 53
    ∷ some 54
    ∷ some 55
    ∷ some 56
    ∷ some 57
    ∷ some 58
    ∷ some 59
    ∷ some 60
    ∷ some 61
    ∷ none
    ∷ none
    ∷ none
    ∷ some 0
    ∷ none
    ∷ none
    ∷ none
    ∷ some 0
    ∷ some 1
    ∷ some 2
    ∷ some 3
    ∷ some 4
    ∷ some 5
    ∷ some 6
    ∷ some 7
    ∷ some 8
    ∷ some 9
    ∷ some 10
    ∷ some 11
    ∷ some 12
    ∷ some 13
    ∷ some 14
    ∷ some 15
    ∷ some 16
    ∷ some 17
    ∷ some 18
    ∷ some 19
    ∷ some 20
    ∷ some 21
    ∷ some 22
    ∷ some 23
    ∷ some 24
    ∷ some 25
    ∷ none
    ∷ none
    ∷ none
    ∷ none
    ∷ some 63
    ∷ none
    ∷ some 26
    ∷ some 27
    ∷ some 28
    ∷ some 29
    ∷ some 30
    ∷ some 31
    ∷ some 32
    ∷ some 33
    ∷ some 34
    ∷ some 35
    ∷ some 36
    ∷ some 37
    ∷ some 38
    ∷ some 39
    ∷ some 40
    ∷ some 41
    ∷ some 42
    ∷ some 43
    ∷ some 44
    ∷ some 45
    ∷ some 46
    ∷ some 47
    ∷ some 48
    ∷ some 49
    ∷ some 50
    ∷ some 51
    ∷ none
    ∷ none
    ∷ none
    ∷ none
    ∷ none
    ∷ []

-- `kBase64NullEnding`, '='.
abbrev pub null_ending : ℕ
null_ending = 61

unfoldable pub table_char : Bool → ℕ → ℕ
table_char url_safe i = nth 0 (if url_safe then base64_table_url_safe else base64_table) i

unfoldable pub reverse_char : ℕ → Option ℕ
reverse_char c = nth none base64_table_reverse c

-- Three bytes, `none` past the end, as four characters. Shifts and masks are written as divisions
-- and remainders, and `|` of bits that do not overlap as a sum.
unfoldable pub encode_group : Bool → ℕ → Option ℕ → Option ℕ → Text
encode_group url_safe b0 byte1 byte2 =
    let b1 : ℕ = elim byte1 [ none ↦ 0 | some b ↦ b ] in
    let b2 : ℕ = elim byte2 [ none ↦ 0 | some b ↦ b ] in
    let stream = b2 + b1 * 2 ^ 8 + b0 * 2 ^ 16 in
    table_char url_safe (stream / 2 ^ 18 % 64)
    ∷ table_char url_safe (stream / 2 ^ 12 % 64)
    ∷ elim byte1 [ none ↦ null_ending | some b ↦ table_char url_safe (stream / 2 ^ 6 % 64) ]
    ∷ elim byte2 [ none ↦ null_ending | some b ↦ table_char url_safe (stream % 64) ]
    ∷ []

unfoldable pub encode_groups : Bool → Text → Text
encode_groups url_safe [] = []
encode_groups url_safe (b0 ∷ []) = encode_group url_safe b0 none none
encode_groups url_safe (b0 ∷ b1 ∷ []) = encode_group url_safe b0 (some b1) none
encode_groups url_safe (b0 ∷ b1 ∷ b2 ∷ bs) =
    encode_group url_safe b0 (some b1) (some b2) ++ encode_groups url_safe bs

-- The one or two '=' at the end are cut off.
unfoldable pub trim : Text → Text
trim [] = []
trim (x ∷ []) = if x == null_ending then [] else x ∷ []
trim (x ∷ y ∷ []) =
    if y == null_ending then (if x == null_ending then [] else x ∷ []) else x ∷ y ∷ []
trim (x ∷ y ∷ z ∷ xs) = x ∷ trim (y ∷ z ∷ xs)

unfoldable pub base64_encode_internal : Bool → Bool → Text → Text
base64_encode_internal url_safe pad_to_32_bits input =
    let output = encode_groups url_safe input in if pad_to_32_bits then output else trim output

unfoldable pub encoded_size : Text → ℕ
encoded_size input = (length input + 2) / 3 * 4
