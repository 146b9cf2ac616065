-- ===== src/Base32.antt =====
-- app/src/main/cpp/base32.h and base32.cc. A char is its unsigned byte; the lengths of a converter
-- are the parameters of its template.
pub mod Bits
pub mod Queue
pub mod Encoder
pub mod Decoder
pub mod Roundtrip
use environment_check.Prelude.{
  ℕ, zero, suc, ◌+◌, ◌-◌, ◌*◌, ◌/◌, ◌%◌, ◌^◌, Option, none, some, Bool, true, false, List, [], ◌∷◌,
  ◌++◌, not, ◌==◌, ◌&&◌, ◌||◌, ltb, leb, length, codes, if◌then◌else◌,
}
use environment_check.Outcome.{Outcome, returns, fails, check}
use environment_check.Exec.{Exec, pure, lift, reads, modify, ◌>>=◌, ◌>>◌}

pub record BitConverter : Type 0 where
  pub buffer : ℕ
  pub lower_free_bits : ℕ

module _ (from_length to_length buffer_length : ℕ) where
  unfoldable pub new_converter : BitConverter
  new_converter = record { buffer = 0; lower_free_bits = buffer_length }

  unfoldable pub bits_available : BitConverter → ℕ
  bits_available c = buffer_length - c.lower_free_bits

  unfoldable pub can_append : BitConverter → Bool
  can_append c = leb from_length c.lower_free_bits

  unfoldable pub can_extract : BitConverter → Bool
  can_extract c = leb to_length (bits_available c)

  unfoldable pub peek : BitConverter → ℕ
  peek c = c.buffer / 2 ^ (buffer_length - to_length)

  -- The bits that are set below `lower_free_bits` are 0, so `|=` adds.
  unfoldable pub append : ℕ → Exec BitConverter (Unit {0})
  append bits = do
    lift (check (ltb bits (2 ^ from_length)))
    ok ← reads (λ c. returns (can_append c))
    lift (check ok)
    modify (λ c. record {
      buffer = c.buffer + bits * 2 ^ (c.lower_free_bits - from_length);
      lower_free_bits = c.lower_free_bits - from_length;
    })

  unfoldable pub extract : Exec BitConverter ℕ
  extract = do
    ok ← reads (λ c. returns (can_extract c))
    lift (check ok)
    result ← reads (λ c. returns (peek c))
    modify (λ c. record {
      buffer = c.buffer * 2 ^ to_length % 2 ^ buffer_length;
      lower_free_bits = c.lower_free_bits + to_length;
    })
    pure result

abbrev pub encoding : List ℕ
encoding = codes "ABCDEFGHIJKLMNOPQRSTUVWXYZ234567"

-- An element of a table; no index of the program is out of range here.
unfoldable pub char_at : List ℕ → ℕ → ℕ
char_at [] i = 0
char_at (c ∷ cs) zero = c
char_at (c ∷ cs) (suc i) = char_at cs i

-- The loop of `Base32Encode` takes its own remaining rounds as `next`.
unfoldable pub encode_more :
    (List ℕ → List ℕ → Exec BitConverter (Option (List ℕ)))
    → Bool
    → List ℕ
    → List ℕ
    → Exec BitConverter (Option (List ℕ))
encode_more next true (y ∷ rest) output = do append 8 5 16 y; next rest output
encode_more next true [] output = next [] output
encode_more next false rest output = next rest output

unfoldable pub encode_turn :
    (List ℕ → List ℕ → Exec BitConverter (Option (List ℕ)))
    → Bool
    → List ℕ
    → List ℕ
    → Exec BitConverter (Option (List ℕ))
encode_turn next false rest output = pure (some output)
encode_turn next true rest output = do
  digit ← extract 8 5 16
  room ← reads (λ c. returns (can_append 8 5 16 c))
  encode_more next room rest (output ++ char_at encoding digit ∷ [])

-- The loop on fuel; `none` where it runs out.
unfoldable pub encode_loop : ℕ → List ℕ → List ℕ → Exec BitConverter (Option (List ℕ))
encode_loop zero rest output = pure none
encode_loop (suc f) rest output = do
  more ← reads (λ c. returns (can_extract 8 5 16 c))
  encode_turn (encode_loop f) more rest output

-- What is pushed after the loop.
unfoldable pub encode_end : Option (List ℕ) → Exec BitConverter (Option (Bool × List ℕ))
encode_end none = pure none
encode_end (some output) = do
  left ← reads (λ c. returns (bits_available 8 5 16 c))
  last ← reads (λ c. returns (peek 8 5 16 c))
  pure (some (true, if ltb 0 left then output ++ char_at encoding last ∷ [] else output))

unfoldable pub encode_bytes : ℕ → List ℕ → Exec BitConverter (Option (Bool × List ℕ))
encode_bytes y rest = do
  append 8 5 16 y
  output ← encode_loop (2 * length (y ∷ rest) + 1) rest []
  encode_end output

-- A `size_t` has 64 bits.
unfoldable pub base32_encode : List ℕ → Outcome (Option (Bool × List ℕ))
base32_encode [] = returns (some (true, []))
base32_encode (y ∷ rest) =
    if ltb ((2 ^ 64 - 1) / 8) (length (y ∷ rest))
    then returns (some (false, []))
    else (encode_bytes y rest (new_converter 8 5 16)).0

-- -1 as none.
abbrev pub decode_map : List (Option ℕ)
decode_map =
    some 26
    ∷ some 27
    ∷ some 28
    ∷ some 29
    ∷ some 30
    ∷ some 31
    ∷ none
    ∷ none
    ∷ none
    ∷ none
    ∷ none
    ∷ none
    ∷ none
    ∷ none
    ∷ none
    ∷ some 0
    ∷ some 1
    ∷ some 2
    ∷ some 3
    ∷ some 4
    ∷ some 5
    ∷ some 6
    ∷ some 7
    ∷ some 8
    ∷ some 9
    ∷ some 10
    ∷ some 11
    ∷ some 12
    ∷ some 13
    ∷ some 14
    ∷ some 15
    ∷ some 16
    ∷ some 17
    ∷ some 18
    ∷ some 19
    ∷ some 20
    ∷ some 21
    ∷ some 22
    ∷ some 23
    ∷ some 24
    ∷ some 25
    ∷ []

unfoldable pub entry_at : List (Option ℕ) → ℕ → Option ℕ
entry_at [] i = none
entry_at (e ∷ es) zero = e
entry_at (e ∷ es) (suc i) = entry_at es i

-- The value of a character, or none where it is refused.
unfoldable pub decode_char : ℕ → Option ℕ
decode_char c = if ltb c 50 then none else entry_at decode_map (c - 50)

unfoldable pub decode_turn :
    (List ℕ → Exec BitConverter (Bool × List ℕ)) → Bool → List ℕ → Exec BitConverter (Bool × List ℕ)
decode_turn next false result = next result
decode_turn next true result = do byte ← extract 5 8 16; next (result ++ byte ∷ [])

unfoldable pub decode_digit :
    (List ℕ → Exec BitConverter (Bool × List ℕ))
    → Option ℕ
    → List ℕ
    → Exec BitConverter (Bool × List ℕ)
decode_digit next none result = pure (false, result)
decode_digit next (some d) result = do
  append 5 8 16 d
  more ← reads (λ c. returns (can_extract 5 8 16 c))
  decode_turn next more result

-- The loop of `Base32Decode` and its end.
unfoldable pub decode_loop : List ℕ → List ℕ → Exec BitConverter (Bool × List ℕ)
decode_loop [] result = do rest ← reads (λ c. returns (peek 5 8 16 c)); pure (rest == 0, result)
decode_loop (c ∷ s) result = decode_digit (decode_loop s) (decode_char c) result

unfoldable pub base32_decode : List ℕ → Outcome (Bool × List ℕ)
base32_decode input = (decode_loop input [] (new_converter 5 8 16)).0
