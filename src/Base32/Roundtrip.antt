-- ===== src/Base32/Roundtrip.antt =====
-- What is encoded is decoded to itself.
use environment_check.Prelude.{
  ℕ, zero, suc, ◌-◌, ◌/◌, ◌^◌, ◌<◌, ◌≤◌, ◌≡◌, refl, ap, ◌∙◌, Bool, true, false, some, List, [], ◌∷◌,
  ◌++◌, length, All, arith,
}
use environment_check.Outcome.{returns}
use environment_check.Base32.{peek, base32_encode, base32_decode}
use environment_check.Base32.Bits.{value, value_from}
use environment_check.Base32.Queue.{zeros, bits8, bits5, value_from-bits8}
use environment_check.Base32.Encoder.{all8, digits_of, chars, base32_encode_lem}
use environment_check.Base32.Decoder.{all5, AreDigits, eights, left8, is_padding, base32_decode_lem}

bits5-value : (a b c d e : Bool) → bits5 (value (a ∷ b ∷ c ∷ d ∷ e ∷ [])) ≡ a ∷ b ∷ c ∷ d ∷ e ∷ []
unfolding value_from
bits5-value a b c d e = ground arith

value5-lt : (a b c d e : Bool) → value (a ∷ b ∷ c ∷ d ∷ e ∷ []) < 32
unfolding value_from
value5-lt a b c d e = ground arith

digits_of-AreDigits : (q : List Bool) → AreDigits (digits_of q)
unfolding digits_of
digits_of-AreDigits [] = tt
digits_of-AreDigits (a ∷ []) = (value5-lt a false false false false, tt)
digits_of-AreDigits (a ∷ b ∷ []) = (value5-lt a b false false false, tt)
digits_of-AreDigits (a ∷ b ∷ c ∷ []) = (value5-lt a b c false false, tt)
digits_of-AreDigits (a ∷ b ∷ c ∷ d ∷ []) = (value5-lt a b c d false, tt)
digits_of-AreDigits (a ∷ b ∷ c ∷ d ∷ e ∷ q) = (value5-lt a b c d e, digits_of-AreDigits q)

-- The digits have the bits, and fewer than five zeros after them.
padded : (q : List Bool) → (k : ℕ) × (k < 5) × (all5 (digits_of q) ≡ q ++ zeros k)
unfolding digits_of
padded [] = (0, omega arith, refl)
padded (a ∷ []) = (4, omega arith, bits5-value a false false false false)
padded (a ∷ b ∷ []) = (3, omega arith, bits5-value a b false false false)
padded (a ∷ b ∷ c ∷ []) = (2, omega arith, bits5-value a b c false false)
padded (a ∷ b ∷ c ∷ d ∷ []) = (1, omega arith, bits5-value a b c d false)
padded (a ∷ b ∷ c ∷ d ∷ e ∷ q) =
    let (k, h, r) = padded q in
    (
      k,
      h,
      ap (λ t. t ++ all5 (digits_of q)) (bits5-value a b c d e) ∙ ap (λ t. a ∷ b ∷ c ∷ d ∷ e ∷ t) r,
    )

value-bits8 : (y : ℕ) → y < 256 → value (bits8 y) ≡ y
value-bits8 y h = omega (arith, value_from-bits8 0 y h)

eights-all8 :
    (ys : List ℕ) (k : ℕ)
    → All (λ y. y < 256) ys
    → k < 5
    → (eights (all8 ys ++ zeros k) ≡ ys) × (left8 (all8 ys ++ zeros k) ≡ zeros k)
unfolding eights left8
eights-all8 [] zero h b = (refl, refl)
eights-all8 [] (suc zero) h b = (refl, refl)
eights-all8 [] (suc (suc zero)) h b = (refl, refl)
eights-all8 [] (suc (suc (suc zero))) h b = (refl, refl)
eights-all8 [] (suc (suc (suc (suc zero)))) h b = (refl, refl)
eights-all8 [] (suc (suc (suc (suc (suc k))))) h b = absurd (omega arith)
eights-all8 (y ∷ ys) k h b =
    let (e, l) = eights-all8 ys k h.1 b in
    (ap (λ v. v ∷ eights (all8 ys ++ zeros k)) (value-bits8 y h.0) ∙ ap (λ t. y ∷ t) e, l)

is_padding-zeros : (k : ℕ) → k < 5 → is_padding (zeros k) ≡ true
unfolding peek value_from
is_padding-zeros zero h = refl
is_padding-zeros (suc zero) h = refl
is_padding-zeros (suc (suc zero)) h = refl
is_padding-zeros (suc (suc (suc zero))) h = refl
is_padding-zeros (suc (suc (suc (suc zero)))) h = refl
is_padding-zeros (suc (suc (suc (suc (suc k))))) h = absurd (omega arith)

-- Base32Encode of any bytes, of which there are not more than the code allows, returns true and a
-- text that Base32Decode accepts and turns back into the bytes.
pub base32_decode-encode :
    (ys : List ℕ)
    → All (λ y. y < 256) ys
    → length ys ≤ (2 ^ 64 - 1) / 8
    → (text : List ℕ) × (base32_encode ys ≡ returns (some (true, text)))
      × (base32_decode text ≡ returns (true, ys))
base32_decode-encode ys h b =
    let q = all8 ys in
    let (k, small, bits) = padded q in
    let (bytes, rest) = eights-all8 ys k h small in
    (
      chars (digits_of q),
      base32_encode_lem ys h b,
      base32_decode_lem (digits_of q) (digits_of-AreDigits q)
          ∙ ap (λ p. returns (is_padding (left8 p), eights p)) bits
          ∙ ap (λ p. returns (is_padding p, eights (q ++ zeros k))) rest
          ∙ ap (λ p. returns (p, eights (q ++ zeros k))) (is_padding-zeros k small)
          ∙ ap (λ o. returns (true, o)) bytes,
    )
