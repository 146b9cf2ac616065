-- ===== src/Base64/Groups.antt =====
-- Three bytes as four characters and back.
use environment_check.Prelude.{
  ℕ, ◌+◌, ◌*◌, ◌/◌, ◌%◌, ◌^◌, ◌<◌, ◌≡◌, ap, ◌∙◌, some, Bool, true, [], ◌∷◌, ◌==◌, arith,
}
use environment_check.Base64.{table_char, null_ending}
use environment_check.Base64.Decoder.{decode_group, group_bytes, is_misplaced}
use environment_check.Base64.Tables.{reverse-table, table_not_null, reverse-null_ending}

abbrev pub stream : ℕ → ℕ → ℕ → ℕ
stream b0 b1 b2 = b2 + b1 * 2 ^ 8 + b0 * 2 ^ 16

-- The four parts of 24 bits, and the bits from the parts.
parts_lem :
    (s : ℕ)
    → s < 2 ^ 24
    → s / 2 ^ 18 % 64 * 2 ^ 18 + s / 2 ^ 12 % 64 * 2 ^ 12 + s / 2 ^ 6 % 64 * 2 ^ 6 + s % 64 ≡ s
parts_lem s h = omega (arith, h)

module _ (b0 b1 b2 : ℕ) (h0 : b0 < 256) (h1 : b1 < 256) (h2 : b2 < 256) where
  first_byte : stream b0 b1 b2 / 2 ^ 16 % 256 ≡ b0
  first_byte = omega (arith, h0, h1, h2)

  second_byte : stream b0 b1 b2 / 2 ^ 8 % 256 ≡ b1
  second_byte = omega (arith, h0, h1, h2)

  third_byte : stream b0 b1 b2 % 256 ≡ b2
  third_byte = omega (arith, h0, h1, h2)

  in_range : stream b0 b1 b2 < 2 ^ 24
  in_range = omega (arith, h0, h1, h2)

abbrev value : ℕ → ℕ → ℕ → ℕ → ℕ
value i0 i1 i2 i3 = i0 * 2 ^ 18 + i1 * 2 ^ 12 + i2 * 2 ^ 6 + i3

module _ (url_safe : Bool) (i0 i1 : ℕ) (b0 : i0 < 64) (b1 : i1 < 64) where
  abbrev c0 : ℕ
  c0 = table_char url_safe i0

  abbrev c1 : ℕ
  c1 = table_char url_safe i1

  decode_two :
      (value i0 i1 0 0 / 2 ^ 8 % 256 == 0) ≡ true
      → (value i0 i1 0 0 % 256 == 0) ≡ true
      → decode_group true c0 c1 null_ending null_ending ≡ some (value i0 i1 0 0 / 2 ^ 16 % 256 ∷ [])
  unfolding decode_group group_bytes is_misplaced
  decode_two h k = rw (
    reverse-table url_safe i0 b0,
    reverse-table url_safe i1 b1,
    reverse-null_ending,
    table_not_null url_safe i0 b0,
    table_not_null url_safe i1 b1,
    h,
    k,
  )

  module _ (i2 : ℕ) (b2 : i2 < 64) where
    abbrev c2 : ℕ
    c2 = table_char url_safe i2

    decode_three :
        (value i0 i1 i2 0 % 256 == 0) ≡ true
        → decode_group true c0 c1 c2 null_ending
          ≡ some (value i0 i1 i2 0 / 2 ^ 16 % 256 ∷ value i0 i1 i2 0 / 2 ^ 8 % 256 ∷ [])
    unfolding decode_group group_bytes is_misplaced
    decode_three k = rw (
      reverse-table url_safe i0 b0,
      reverse-table url_safe i1 b1,
      reverse-table url_safe i2 b2,
      reverse-null_ending,
      table_not_null url_safe i0 b0,
      table_not_null url_safe i1 b1,
      table_not_null url_safe i2 b2,
      k,
    )

    decode_four :
        (at_end : Bool) (i3 : ℕ)
        → i3 < 64
        → decode_group at_end c0 c1 c2 (table_char url_safe i3)
          ≡ some (
              value i0 i1 i2 i3 / 2 ^ 16 % 256
              ∷ value i0 i1 i2 i3 / 2 ^ 8 % 256
              ∷ value i0 i1 i2 i3 % 256
              ∷ [])
    unfolding decode_group group_bytes is_misplaced
    decode_four at_end i3 b3 = rw (
      reverse-table url_safe i0 b0,
      reverse-table url_safe i1 b1,
      reverse-table url_safe i2 b2,
      reverse-table url_safe i3 b3,
      table_not_null url_safe i0 b0,
      table_not_null url_safe i1 b1,
      table_not_null url_safe i2 b2,
      table_not_null url_safe i3 b3,
    )

module _ (url_safe : Bool) (b0 : ℕ) (h0 : b0 < 256) where
  -- The characters of a group, each as the code computes it.
  abbrev pub char_at : ℕ → ℕ → ℕ
  char_at s shift = table_char url_safe (s / 2 ^ shift % 64)

  pub decode_one_byte :
      (let s = stream b0 0 0 in
        decode_group true (char_at s 18) (char_at s 12) null_ending null_ending ≡ some (b0 ∷ []))
  decode_one_byte =
      let s = stream b0 0 0 in
      decode_two url_safe (s / 2 ^ 18 % 64) (s / 2 ^ 12 % 64) (omega arith) (omega arith)
        (ground (arith, h0)) (ground (arith, h0))
      ∙ ap (λ b. some (b ∷ [])) (omega (arith, h0))

  module _ (b1 : ℕ) (h1 : b1 < 256) where
    pub decode_two_bytes :
        (let s = stream b0 b1 0 in
          decode_group true (char_at s 18) (char_at s 12) (char_at s 6) null_ending
          ≡ some (b0 ∷ b1 ∷ []))
    decode_two_bytes =
        let s = stream b0 b1 0 in
        let whole : value (s / 2 ^ 18 % 64) (s / 2 ^ 12 % 64) (s / 2 ^ 6 % 64) 0 ≡ s =
          omega (arith, h0, h1) in
        decode_three url_safe (s / 2 ^ 18 % 64) (s / 2 ^ 12 % 64) (omega arith) (omega arith)
          (s / 2 ^ 6 % 64) (omega arith) (ground (arith, h0, h1))
        ∙ rw
            (whole, first_byte b0 b1 0 h0 h1 (omega arith), second_byte b0 b1 0 h0 h1 (omega arith))

    pub decode_three_bytes :
        (b2 : ℕ)
        → b2 < 256
        → (at_end : Bool)
        → (let s = stream b0 b1 b2 in
            decode_group at_end
              (char_at s 18)
              (char_at s 12)
              (char_at s 6)
              (table_char url_safe (s % 64))
            ≡ some (b0 ∷ b1 ∷ b2 ∷ []))
    decode_three_bytes b2 h2 at_end =
        let s = stream b0 b1 b2 in
        decode_four url_safe (s / 2 ^ 18 % 64) (s / 2 ^ 12 % 64) (omega arith) (omega arith)
          (s / 2 ^ 6 % 64) (omega arith) at_end (s % 64) (omega arith)
        ∙ rw (
          parts_lem s (in_range b0 b1 b2 h0 h1 h2),
          first_byte b0 b1 b2 h0 h1 h2,
          second_byte b0 b1 b2 h0 h1 h2,
          third_byte b0 b1 b2 h0 h1 h2,
        )
