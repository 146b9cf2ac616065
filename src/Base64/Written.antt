-- ===== src/Base64/Written.antt =====
-- How much of its buffer the decoder writes.
use environment_check.Prelude.{
  ℕ, suc, ◌+◌, ◌-◌, ◌*◌, ◌%◌, ◌^◌, ◌≡◌, refl, ap, ◌∙◌, Option, none, some, Bool, true, false, [],
  ◌∷◌, ◌++◌, ◌==◌, ◌&&◌, not, length, length-append, arith, if◌then◌else◌,
}
use environment_check.Base64.{Text, nth, null_ending, reverse_char}
use environment_check.Base64.Decoder.{
  decode_group, checked_bytes, group_bytes, is_misplaced, decode_groups, append_to, decoded_size,
}
use environment_check.Base64.Sizes.{decoded_size-step}

-- The number of bytes that a group writes.
abbrev bytes_of : ℕ → ℕ → ℕ
bytes_of c2 c3 = if c2 == null_ending then 1 else if c3 == null_ending then 2 else 3

length-group_bytes :
    (c2 c3 s : ℕ) (bs : Text)
    → (c2 == null_ending && not (c3 == null_ending)) ≡ false
    → group_bytes c2 c3 s ≡ some bs
    → length bs ≡ bytes_of c2 c3
unfolding group_bytes
length-group_bytes c2 c3 s bs m h = ground (arith, m, h)

checked_lem :
    (o0 o1 o2 o3 : Option ℕ) (wrong : Bool) (c2 c3 : ℕ) (bs : Text)
    → checked_bytes o0 o1 o2 o3 wrong c2 c3 ≡ some bs
    → (wrong ≡ false) × (s : ℕ) × (group_bytes c2 c3 s ≡ some bs)
checked_lem (some b0) (some b1) (some b2) (some b3) false c2 c3 bs h =
    (refl, b0 * 2 ^ 18 + b1 * 2 ^ 12 + b2 * 2 ^ 6 + b3, h)
checked_lem (some b0) (some b1) (some b2) (some b3) true c2 c3 bs h = cc
checked_lem (some b0) (some b1) (some b2) none wrong c2 c3 bs h = cc
checked_lem (some b0) (some b1) none o3 wrong c2 c3 bs h = cc
checked_lem (some b0) none o2 o3 wrong c2 c3 bs h = cc
checked_lem none o1 o2 o3 wrong c2 c3 bs h = cc

-- A group that is accepted.
record Accepted (at_end : Bool) (c2 c3 : ℕ) (bs : Text) : Type 0 where
  count : length bs ≡ bytes_of c2 c3
  both_end : (c2 == null_ending && not (c3 == null_ending)) ≡ false
  inner : at_end ≡ false → bytes_of c2 c3 ≡ 3

decode_group_lem :
    (at_end : Bool) (c0 c1 c2 c3 : ℕ) (bs : Text)
    → decode_group at_end c0 c1 c2 c3 ≡ some bs
    → Accepted at_end c2 c3 bs
unfolding decode_group
decode_group_lem at_end c0 c1 c2 c3 bs h =
    let (m, s, g) =
      checked_lem (reverse_char c0) (reverse_char c1) (reverse_char c2) (reverse_char c3)
        (is_misplaced at_end c0 c1 c2 c3) c2 c3 bs h in
    let both : (c2 == null_ending && not (c3 == null_ending)) ≡ false =
      unfold is_misplaced in ground (arith, m) in
    record {
      count = length-group_bytes c2 c3 s bs both g;
      both_end = both;
      inner = λ e. unfold is_misplaced in ground (arith, m, e);
    }

-- The byte of the buffer that is not written: '=' stands last in a text of three characters more
-- than whole groups.
abbrev pub unwritten : Text → ℕ
unwritten input =
    if length input % 4 == 3 && nth 0 input (length input - 1) == null_ending then 1 else 0

unwritten-step :
    (c0 c1 c2 c3 d : ℕ) (ds : Text) → unwritten (c0 ∷ c1 ∷ c2 ∷ c3 ∷ d ∷ ds) ≡ unwritten (d ∷ ds)
unwritten-step c0 c1 c2 c3 d ds =
    let same : (suc (suc (suc (suc (suc (length ds)))))) % 4 ≡ (suc (length ds)) % 4 =
      omega arith in
    ground (arith, same)

appended :
    (o r : Option Text) (bs : Text)
    → append_to o r ≡ some bs
    → (xs : Text) × (ys : Text) × (o ≡ some xs)
      × (r ≡ some ys)
      × (length bs ≡ length xs + length ys)
appended none r bs h = cc
appended (some xs) none bs h = cc
appended (some xs) (some ys) bs h =
    (xs, ys, refl, refl, ap length (some_injective h) ∙ length-append xs ys)
  where
    some_injective : some (xs ++ ys) ≡ some bs → bs ≡ xs ++ ys
    some_injective e = cc

last_group :
    (c0 c1 c2 c3 : ℕ) (bs : Text)
    → Accepted true c2 c3 bs
    → decoded_size (c0 ∷ c1 ∷ c2 ∷ c3 ∷ []) ≡ length bs
unfolding decoded_size
last_group c0 c1 c2 c3 bs a = let n = a.count in let both = a.both_end in ground (arith, n, both)

-- Where the loop of the decoder accepts a text of a size that the test allows, it writes as many
-- bytes as the buffer has, except where a last '=' stands in a text of three characters more than
-- whole groups: there it writes one byte less. It never writes past the end.
pub decoded_size-written :
    (input bs : Text)
    → (length input % 4 == 1) ≡ false
    → decode_groups input ≡ some bs
    → decoded_size input ≡ length bs + unwritten input
unfolding decode_groups
decoded_size-written [] bs w h = unfold decoded_size in ground (arith, h)
decoded_size-written (c0 ∷ []) bs w h = cc
decoded_size-written (c0 ∷ c1 ∷ []) bs w h =
    let n = (decode_group_lem true c0 c1 null_ending null_ending bs h).count in
    unfold decoded_size in ground (arith, n)
decoded_size-written (c0 ∷ c1 ∷ c2 ∷ []) bs w h =
    let n = (decode_group_lem true c0 c1 c2 null_ending bs h).count in
    unfold decoded_size in ground (arith, n)
decoded_size-written (c0 ∷ c1 ∷ c2 ∷ c3 ∷ []) bs w h =
    let (xs, ys, g, r, n) = appended (decode_group true c0 c1 c2 c3) (some []) bs h in
    let none_left : length ys ≡ 0 = ground (arith, r) in
    last_group c0 c1 c2 c3 xs (decode_group_lem true c0 c1 c2 c3 xs g) ∙ omega (arith, n, none_left)
decoded_size-written (c0 ∷ c1 ∷ c2 ∷ c3 ∷ d ∷ []) bs w h = cc
decoded_size-written (c0 ∷ c1 ∷ c2 ∷ c3 ∷ d ∷ e ∷ es) bs w h =
    let (xs, ys, g, r, n) = appended _ _ bs h in
    let a = decode_group_lem false c0 c1 c2 c3 xs g in
    let three : length xs ≡ 3 = a.count ∙ a.inner refl in
    let w' : (length (d ∷ e ∷ es) % 4 == 1) ≡ false = ground (arith, w) in
    decoded_size-step c0 c1 c2 c3 d e es w'
    ∙ omega (
      arith,
      decoded_size-written (d ∷ e ∷ es) ys w' r,
      n,
      three,
      unwritten-step c0 c1 c2 c3 d (e ∷ es),
    )
