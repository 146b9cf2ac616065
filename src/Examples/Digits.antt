-- ===== src/Examples/Digits.antt =====
-- Base32 text.
use environment_check.Prelude.{ℕ, ◌≡◌, refl, some, true, false, List, [], codes, arith}
use environment_check.Outcome.{returns}
use environment_check.Base32.{
  base32_encode, base32_decode, encode_bytes, encode_loop, encode_turn, encode_more, encode_end,
  append, extract, peek, can_append, can_extract, bits_available, new_converter, char_at, entry_at,
  decode_char, decode_loop, decode_digit, decode_turn,
}
use environment_check.Base32.Roundtrip.{base32_decode-encode}

hi_encoded : base32_encode (codes "Hi") ≡ returns (some (true, codes "JBUQ"))
unfolding base32_encode encode_bytes encode_loop encode_turn encode_more encode_end append extract
    peek can_append can_extract bits_available new_converter char_at
hi_encoded = refl

-- The last digit has a bit beyond the bytes.
padding_refused : base32_decode (codes "JBUR") ≡ returns (false, codes "Hi")
unfolding base32_decode decode_loop decode_digit decode_turn append extract peek can_append
    can_extract bits_available new_converter decode_char entry_at
padding_refused = refl

zero_refused : base32_decode (codes "J0") ≡ returns (false, [])
unfolding base32_decode decode_loop decode_digit decode_turn append extract peek can_append
    can_extract bits_available new_converter decode_char entry_at
zero_refused = refl

base32_decode-encode_example :
    (text : List ℕ) × (base32_encode (codes "Hi") ≡ returns (some (true, text)))
    × (base32_decode text ≡ returns (true, codes "Hi"))
base32_decode-encode_example = base32_decode-encode (codes "Hi") (omega arith) (omega arith)
