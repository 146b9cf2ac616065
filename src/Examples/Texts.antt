-- ===== src/Examples/Texts.antt =====
-- Texts that are encoded and decoded.
use environment_check.Prelude.{List, ℕ, ◌+◌, ◌≡◌, refl, some, true, false, [], ◌∷◌, length, arith}
use environment_check.Base64.{
  table_char, reverse_char, encode_group, encode_groups, base64_encode_internal, trim,
}
use environment_check.Base64.Decoder.{
  decode_group, group_bytes, is_misplaced, decode_groups, decoded_size, base64_decode, resize,
}
use environment_check.Outcome.{returns}
use environment_check.AsciiTrie.{Text, TrieNodePtr, add, add_each, fill, query, query_from}
use environment_check.AsciiTrie.Nodes.{IsAscii}
use environment_check.AsciiTrie.Queries.{answer, query-fill}
use environment_check.HexCodec.{hex_encode, read_pairs, read_pairs-hex_encode}
use environment_check.Base64.Written.{decoded_size-written, unwritten}
use environment_check.Base64.Roundtrip.{decode-encode}

-- "Ma" is "TWE".
encode_ma : base64_encode_internal false false (77 ∷ 97 ∷ []) ≡ 84 ∷ 87 ∷ 69 ∷ []
unfolding base64_encode_internal trim encode_groups encode_group table_char
encode_ma = refl

-- "QQ=" is accepted, and its buffer keeps a byte that was there before.
decode_stale : base64_decode (1 ∷ 2 ∷ []) (81 ∷ 81 ∷ 61 ∷ []) ≡ some (65 ∷ 2 ∷ [])
unfolding base64_decode decode_groups decode_group group_bytes is_misplaced reverse_char
    decoded_size resize
decode_stale = refl

decode-encode_example :
    base64_decode (1 ∷ []) (base64_encode_internal true false (77 ∷ 97 ∷ [])) ≡ some (77 ∷ 97 ∷ [])
decode-encode_example =
    decode-encode true false (1 ∷ []) (77 ∷ 97 ∷ []) (omega arith, (omega arith, tt))

decoded_size-written_example :
    decoded_size (81 ∷ 81 ∷ 61 ∷ []) ≡ length {A = ℕ} (65 ∷ []) + unwritten (81 ∷ 81 ∷ 61 ∷ [])
unfolding decode_groups decode_group group_bytes is_misplaced reverse_char
decoded_size-written_example = decoded_size-written (81 ∷ 81 ∷ 61 ∷ []) (65 ∷ []) refl refl

abbrev entries : List Text
entries = (97 ∷ 98 ∷ 99 ∷ []) ∷ []

abc-IsAscii : IsAscii (97 ∷ 98 ∷ 99 ∷ [])
abc-IsAscii =
    ((omega arith, omega arith), ((omega arith, omega arith), ((omega arith, omega arith), tt)))

-- With the one entry "abc" the text "axy" is taken as prefixed by an entry, though it is not.
query_loose :
    (t : TrieNodePtr) × (fill entries ≡ returns t) × (query t (97 ∷ 120 ∷ 121 ∷ []) ≡ returns true)
unfolding fill add_each add query query_from
query_loose = (_, refl, refl)

query-fill_example :
    (t : TrieNodePtr) × (fill entries ≡ returns t)
    × (query t (97 ∷ 98 ∷ 99 ∷ 100 ∷ []) ≡ returns (answer (97 ∷ 98 ∷ 99 ∷ 100 ∷ []) entries))
query-fill_example =
    query-fill entries (97 ∷ 98 ∷ 99 ∷ 100 ∷ []) (abc-IsAscii, tt)
      (abc-IsAscii.0, (abc-IsAscii.1.0, (abc-IsAscii.1.1.0, ((omega arith, omega arith), tt))))

read_pairs-hex_encode_example : read_pairs (hex_encode (0 ∷ 171 ∷ [])) ≡ 0 ∷ 171 ∷ []
read_pairs-hex_encode_example =
    read_pairs-hex_encode (0 ∷ 171 ∷ []) (omega arith, (omega arith, tt))
