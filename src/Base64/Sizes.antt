-- ===== src/Base64/Sizes.antt =====
-- The sizes that base64.cc computes for its buffers.
use environment_check.Prelude.{
  ℕ, suc, ◌+◌, ◌*◌, ◌/◌, ◌%◌, ◌<◌, ◌≡◌, refl, Bool, false, [], ◌∷◌, ◌==◌, length, arith,
  if◌then◌else◌,
}
use environment_check.Base64.{
  Text, table_char, null_ending, encode_group, encode_groups, trim, encoded_size,
}
use environment_check.Base64.Decoder.{decoded_size}
use environment_check.Base64.Tables.{table_not_null}

-- Four more characters before a text make three more bytes.
pub decoded_size-step :
    (c0 c1 c2 c3 d e : ℕ) (es : Text)
    → (length (d ∷ e ∷ es) % 4 == 1) ≡ false
    → decoded_size (c0 ∷ c1 ∷ c2 ∷ c3 ∷ d ∷ e ∷ es) ≡ 3 + decoded_size (d ∷ e ∷ es)
unfolding decoded_size
decoded_size-step c0 c1 c2 c3 d e es h =
    let m = length es in
    let same : (suc (suc (suc (suc (suc (suc m)))))) % 4 ≡ (suc (suc m)) % 4 = omega arith in
    let more : ((suc (suc (suc (suc (suc (suc m)))))) + 3) / 4 * 3
        ≡ 3 + ((suc (suc m)) + 3) / 4 * 3 =
      omega arith in
    ground (arith, same, more, h)

-- The buffer of the encoder is filled exactly.
length-encode_groups :
    (url_safe : Bool) (xs : Text) → length (encode_groups url_safe xs) ≡ encoded_size xs
unfolding encode_groups encode_group encoded_size
length-encode_groups url_safe [] = omega arith
length-encode_groups url_safe (a ∷ []) = omega arith
length-encode_groups url_safe (a ∷ b ∷ []) = omega arith
length-encode_groups url_safe (a ∷ b ∷ c ∷ xs) =
    let rest = length-encode_groups url_safe xs in omega (arith, rest)

-- A group before others is not touched by the trim.
pub trim_ahead :
    (url_safe : Bool) (c0 c1 c2 c3 b : ℕ) (bs : Text)
    → trim (c0 ∷ c1 ∷ c2 ∷ c3 ∷ encode_groups url_safe (b ∷ bs))
      ≡ c0 ∷ c1 ∷ c2 ∷ c3 ∷ trim (encode_groups url_safe (b ∷ bs))
unfolding trim encode_groups encode_group
trim_ahead url_safe c0 c1 c2 c3 b [] = refl
trim_ahead url_safe c0 c1 c2 c3 b (b' ∷ []) = refl
trim_ahead url_safe c0 c1 c2 c3 b (b' ∷ b'' ∷ bs) = refl

-- The output of the encoder with or without padding.
abbrev pub output : Bool → Text → Text
output pad xs = if pad then xs else trim xs

module _ (url_safe : Bool) where
  abbrev tc : ℕ → ℕ
  tc = table_char url_safe

  -- The last group of two bytes less and one byte less, and a full one, without padding.
  pub trim_one :
      (i0 i1 : ℕ) → trim (tc i0 ∷ tc i1 ∷ null_ending ∷ null_ending ∷ []) ≡ tc i0 ∷ tc i1 ∷ []
  unfolding trim
  trim_one i0 i1 = refl

  pub trim_two :
      (i0 i1 i2 : ℕ)
      → i2 < 64
      → trim (tc i0 ∷ tc i1 ∷ tc i2 ∷ null_ending ∷ []) ≡ tc i0 ∷ tc i1 ∷ tc i2 ∷ []
  unfolding trim
  trim_two i0 i1 i2 h = rw (table_not_null url_safe i2 h)

  pub trim_full :
      (i0 i1 i2 i3 : ℕ)
      → i3 < 64
      → trim (tc i0 ∷ tc i1 ∷ tc i2 ∷ tc i3 ∷ []) ≡ tc i0 ∷ tc i1 ∷ tc i2 ∷ tc i3 ∷ []
  unfolding trim
  trim_full i0 i1 i2 i3 h = rw (table_not_null url_safe i3 h)
