-- ===== src/Base64/Roundtrip.antt =====
-- What is encoded decodes to itself, with either table, padded or not.
use environment_check.Prelude.{
  ℕ, zero, suc, ◌/◌, ◌%◌, ◌^◌, ◌<◌, ◌≡◌, refl, sym, ◌∙◌, some, Bool, true, false, [], ◌∷◌, ◌==◌,
  All, length, arith,
}
use mathlib.Core.List.{append-nil}
use mathlib.Core.Path.{subst}
use environment_check.Base64.{
  Text, table_char, encode_group, encode_groups, base64_encode_internal, trim,
}
use environment_check.Base64.Decoder.{
  decode_group, decode_groups, drop, resize, decoded_size, base64_decode,
}
use environment_check.Base64.Tables.{table_not_null}
use environment_check.Base64.Groups.{stream, decode_one_byte, decode_two_bytes, decode_three_bytes}
use environment_check.Base64.Sizes.{decoded_size-step, trim_ahead, output}

abbrev pub IsBytes : Text → Type 0
IsBytes = All (λ b. b < 256)

-- The text `t` passes the size test, decodes to `xs`, and its buffer has the size of `xs`.
record Encodes (xs t : Text) : Type 0 where
  decodes : decode_groups t ≡ some xs
  sized : decoded_size t ≡ length xs
  whole : (length t % 4 == 1) ≡ false

module _ (a b c d : ℕ) (xs : Text) (c0 c1 c2 c3 : ℕ)
    (g : (at_end : Bool) → decode_group at_end c0 c1 c2 c3 ≡ some (a ∷ b ∷ c ∷ [])) where
  group_ahead :
      (t : Text) → Encodes (d ∷ xs) t → Encodes (a ∷ b ∷ c ∷ d ∷ xs) (c0 ∷ c1 ∷ c2 ∷ c3 ∷ t)
  unfolding decode_groups
  group_ahead [] v = cc (v.decodes)
  group_ahead (x ∷ []) v = cc (v.whole)
  group_ahead (x ∷ y ∷ ys) v = record {
    decodes = rw (g false, v.decodes);
    sized = decoded_size-step c0 c1 c2 c3 x y ys v.whole ∙ omega (arith, v.sized);
    whole = let w = v.whole in ground (arith, w);
  }

module _ (url_safe : Bool) where
  one_group :
      (pad : Bool) (a : ℕ)
      → a < 256
      → Encodes (a ∷ []) (output pad (encode_groups url_safe (a ∷ [])))
  unfolding encode_groups encode_group decode_groups decoded_size trim
  one_group true a ha = record {
    decodes = rw (decode_one_byte url_safe a ha);
    sized = refl;
    whole = refl;
  }
  one_group false a ha = record {
    decodes = decode_one_byte url_safe a ha;
    sized = refl;
    whole = refl;
  }

  two_group :
      (pad : Bool) (a b : ℕ)
      → a < 256
      → b < 256
      → Encodes (a ∷ b ∷ []) (output pad (encode_groups url_safe (a ∷ b ∷ [])))
  unfolding encode_groups encode_group decode_groups decoded_size trim
  two_group true a b ha hb =
      let s = stream a b 0 in
      record {
        decodes = rw (decode_two_bytes url_safe a ha b hb);
        sized = rw (table_not_null url_safe (s / 2 ^ 6 % 64) (omega arith));
        whole = refl;
      }
  two_group false a b ha hb =
      let s = stream a b 0 in
      rw (table_not_null url_safe (s / 2 ^ 6 % 64) (omega arith))
        (record { decodes = decode_two_bytes url_safe a ha b hb; sized = refl; whole = refl })

  full_group :
      (pad : Bool) (a b c : ℕ)
      → a < 256
      → b < 256
      → c < 256
      → Encodes (a ∷ b ∷ c ∷ []) (output pad (encode_groups url_safe (a ∷ b ∷ c ∷ [])))
  unfolding encode_groups encode_group decode_groups decoded_size trim
  full_group true a b c ha hb hc =
      let s = stream a b c in
      record {
        decodes = rw (decode_three_bytes url_safe a ha b hb c hc true);
        sized = rw (table_not_null url_safe (s % 64) (omega arith));
        whole = refl;
      }
  full_group false a b c ha hb hc =
      let s = stream a b c in
      rw (table_not_null url_safe (s % 64) (omega arith)) (record {
        decodes = rw (decode_three_bytes url_safe a ha b hb c hc true);
        sized = rw (table_not_null url_safe (s % 64) (omega arith));
        whole = refl;
      })

  encodes :
      (pad : Bool) (xs : Text) → IsBytes xs → Encodes xs (output pad (encode_groups url_safe xs))
  unfolding encode_groups encode_group
  encodes true [] h = record {
    decodes = unfold decode_groups in refl;
    sized = unfold decoded_size in refl;
    whole = refl;
  }
  encodes false [] h =
      unfold trim in
      record {
        decodes = unfold decode_groups in refl;
        sized = unfold decoded_size in refl;
        whole = refl;
      }
  encodes pad (a ∷ []) (ha, h) = one_group pad a ha
  encodes pad (a ∷ b ∷ []) (ha, (hb, h)) = two_group pad a b ha hb
  encodes pad (a ∷ b ∷ c ∷ []) (ha, (hb, (hc, h))) = full_group pad a b c ha hb hc
  encodes true (a ∷ b ∷ c ∷ d ∷ xs) (ha, (hb, (hc, h))) =
      group_ahead a b c d xs _ _ _ _ (decode_three_bytes url_safe a ha b hb c hc)
        (encode_groups url_safe (d ∷ xs)) (encodes true (d ∷ xs) h)
  encodes false (a ∷ b ∷ c ∷ d ∷ xs) (ha, (hb, (hc, h))) =
      let s = stream a b c in
      subst (Encodes (a ∷ b ∷ c ∷ d ∷ xs))
        (sym (
          trim_ahead url_safe (table_char url_safe (s / 2 ^ 18 % 64))
            (table_char url_safe (s / 2 ^ 12 % 64)) (table_char url_safe (s / 2 ^ 6 % 64))
            (table_char url_safe (s % 64)) d xs))
        (group_ahead a b c d xs _ _ _ _ (decode_three_bytes url_safe a ha b hb c hc)
          (trim (encode_groups url_safe (d ∷ xs))) (encodes false (d ∷ xs) h))

drop-resize : (n : ℕ) (xs : Text) → drop n (resize n xs) ≡ []
unfolding resize
drop-resize zero xs = refl
drop-resize (suc n) [] = drop-resize n []
drop-resize (suc n) (x ∷ xs) = drop-resize n xs

-- Bytes that are encoded, with either table, padded or not, are decoded to themselves, whatever the
-- output string held before.
pub decode-encode :
    (url_safe pad : Bool) (old xs : Text)
    → IsBytes xs
    → base64_decode old (base64_encode_internal url_safe pad xs) ≡ some xs
unfolding base64_decode base64_encode_internal
decode-encode url_safe pad old xs h =
    let e = encodes url_safe pad xs h in
    rw (e.whole, e.decodes, e.sized, drop-resize (length xs) old, append-nil xs)
