-- ===== src/Base64/Decoder.antt =====
-- `Base64Decode` and `GetBase64DecodedSize` of base64.cc.
use environment_check.Prelude.{
  ℕ, zero, suc, ◌+◌, ◌-◌, ◌*◌, ◌/◌, ◌%◌, ◌^◌, Option, none, some, Bool, true, [], ◌∷◌, ◌++◌, ◌==◌,
  ◌&&◌, ◌||◌, not, leb, is_nil, length, if◌then◌else◌,
}
use environment_check.Base64.{Text, nth, null_ending, reverse_char}

-- The size of the output buffer.
unfoldable pub decoded_size : Text → ℕ
decoded_size input =
    let n = length input in
    let left_over = n % 4 in
    let padded_size = (n + 3) / 4 * 3 in
    if is_nil input || left_over == 1
    then 0
    else if leb 2 left_over || left_over == 0 && nth 0 input (n - 1) == null_ending
    then (if left_over == 2 || left_over == 0 && nth 0 input (n - 2) == null_ending
        then padded_size - 2
        else padded_size - 1)
    else padded_size

-- The bytes that four characters write, or `none` where the text is refused.
unfoldable pub group_bytes : ℕ → ℕ → ℕ → Option Text
group_bytes c2 c3 stream =
    if c2 == null_ending && not (stream / 2 ^ 8 % 256 == 0)
    then none
    else if c3 == null_ending && not (stream % 256 == 0)
    then none
    else some (
        stream / 2 ^ 16 % 256
        ∷ (if c2 == null_ending
            then []
            else stream / 2 ^ 8 % 256 ∷ (if c3 == null_ending then [] else stream % 256 ∷ [])))

unfoldable pub is_misplaced : Bool → ℕ → ℕ → ℕ → ℕ → Bool
is_misplaced at_end c0 c1 c2 c3 =
    c0 == null_ending
    || c1 == null_ending
    || c2 == null_ending && not at_end
    || c2 == null_ending && not (c3 == null_ending)
    || c3 == null_ending && not at_end

abbrev pub checked_bytes : Option ℕ → Option ℕ → Option ℕ → Option ℕ → Bool → ℕ → ℕ → Option Text
checked_bytes (some b0) (some b1) (some b2) (some b3) is_wrong c2 c3 =
    if is_wrong then none else group_bytes c2 c3 (b0 * 2 ^ 18 + b1 * 2 ^ 12 + b2 * 2 ^ 6 + b3)
checked_bytes _ _ _ _ is_wrong c2 c3 = none

unfoldable pub decode_group : Bool → ℕ → ℕ → ℕ → ℕ → Option Text
decode_group at_end c0 c1 c2 c3 =
    checked_bytes (reverse_char c0) (reverse_char c1) (reverse_char c2) (reverse_char c3)
      (is_misplaced at_end c0 c1 c2 c3) c2 c3

abbrev pub append_to : Option Text → Option Text → Option Text
append_to none rest = none
append_to (some bs) none = none
append_to (some bs) (some cs) = some (bs ++ cs)

-- The loop of `Base64Decode`: what it writes, or `none` where it returns false. One character left
-- over, which the size test excludes, would read the 0 after the end.
unfoldable pub decode_groups : Text → Option Text
decode_groups [] = some []
decode_groups (c0 ∷ []) = decode_group true c0 0 null_ending null_ending
decode_groups (c0 ∷ c1 ∷ []) = decode_group true c0 c1 null_ending null_ending
decode_groups (c0 ∷ c1 ∷ c2 ∷ []) = decode_group true c0 c1 c2 null_ending
decode_groups (c0 ∷ c1 ∷ c2 ∷ c3 ∷ cs) =
    append_to (decode_group (is_nil cs) c0 c1 c2 c3) (decode_groups cs)

abbrev pub drop : ℕ → Text → Text
drop zero xs = xs
drop (suc n) [] = []
drop (suc n) (x ∷ xs) = drop n xs

-- `std::string::resize`
unfoldable pub resize : ℕ → Text → Text
resize zero xs = []
resize (suc n) [] = 0 ∷ resize n []
resize (suc n) (x ∷ xs) = x ∷ resize n xs

-- `Base64Decode` into an output that holds `old`: the bytes stand at the start of the buffer.
-- `none` is false, where the header calls the output undefined.
unfoldable pub base64_decode : Text → Text → Option Text
base64_decode old input = if length input % 4 == 1 then none else elim (decode_groups input) [
  | none ↦ none
  | some bs ↦ some (bs ++ drop (length bs) (resize (decoded_size input) old))
]
