-- ===== src/Base32/Decoder.antt =====
-- The decoder writes the bytes of the bits that the digits stand for.
use mathlib.Core.List.{append_assoc, append-nil}
use environment_check.Prelude.{
  below, below_lem, is_value, value_of, ℕ, ◌+◌, ◌-◌, ◌<◌, ◌≤◌, ◌≡◌, refl, ap, ◌∙◌, Bool, true,
  false, some, List, [], ◌∷◌, ◌++◌, ◌==◌, leb, length, length-append, All, arith,
}
use environment_check.Outcome.{returns}
use environment_check.Base32.{
  new_converter, bits_available, can_extract, peek, encoding, char_at, entry_at, decode_char,
  decode_turn, decode_digit, decode_loop, base32_decode,
}
use environment_check.Base32.Bits.{value, value_from}
use environment_check.Base32.Queue.{holding, bits5, append_digit, extract_eight}
use environment_check.Base32.Encoder.{chars}

abbrev pub all5 : List ℕ → List Bool
all5 [] = []
all5 (d ∷ ds) = bits5 d ++ all5 ds

abbrev pub AreDigits : List ℕ → Type 0
AreDigits ds = All (λ d. d < 32) ds

-- The bytes of eight bits, as far as there are eight; and the bits that are left.
unfoldable pub eights : List Bool → List ℕ
eights [] = []
eights (a ∷ []) = []
eights (a ∷ b ∷ []) = []
eights (a ∷ b ∷ c ∷ []) = []
eights (a ∷ b ∷ c ∷ d ∷ []) = []
eights (a ∷ b ∷ c ∷ d ∷ e ∷ []) = []
eights (a ∷ b ∷ c ∷ d ∷ e ∷ f ∷ []) = []
eights (a ∷ b ∷ c ∷ d ∷ e ∷ f ∷ g ∷ []) = []
eights (a ∷ b ∷ c ∷ d ∷ e ∷ f ∷ g ∷ h ∷ q) = value (a ∷ b ∷ c ∷ d ∷ e ∷ f ∷ g ∷ h ∷ []) ∷ eights q

unfoldable pub left8 : List Bool → List Bool
left8 [] = []
left8 (a ∷ []) = a ∷ []
left8 (a ∷ b ∷ []) = a ∷ b ∷ []
left8 (a ∷ b ∷ c ∷ []) = a ∷ b ∷ c ∷ []
left8 (a ∷ b ∷ c ∷ d ∷ []) = a ∷ b ∷ c ∷ d ∷ []
left8 (a ∷ b ∷ c ∷ d ∷ e ∷ []) = a ∷ b ∷ c ∷ d ∷ e ∷ []
left8 (a ∷ b ∷ c ∷ d ∷ e ∷ f ∷ []) = a ∷ b ∷ c ∷ d ∷ e ∷ f ∷ []
left8 (a ∷ b ∷ c ∷ d ∷ e ∷ f ∷ g ∷ []) = a ∷ b ∷ c ∷ d ∷ e ∷ f ∷ g ∷ []
left8 (a ∷ b ∷ c ∷ d ∷ e ∷ f ∷ g ∷ h ∷ q) = left8 q

abbrev reads_back : ℕ → Bool
reads_back d = is_value d (decode_char (char_at encoding d))

all_read_back : below reads_back 32 ≡ true
unfolding decode_char entry_at char_at
all_read_back = refl

-- Each digit is read back from its character.
decode_char-char_at : (d : ℕ) → d < 32 → decode_char (char_at encoding d) ≡ some d
decode_char-char_at d h = value_of d _ (below_lem reads_back 32 d all_read_back h)

-- What the end of the loop says of the bits that are left.
abbrev pub is_padding : List Bool → Bool
is_padding q = peek 5 8 16 (holding q (16 - length q)) == 0

Decodes : List ℕ → List Bool → ℕ → Type 0
Decodes ds q n =
    (result : List ℕ)
    → (decode_loop (chars ds) result (holding q n)).0
      ≡ returns (is_padding (left8 (q ++ all5 ds)), result ++ eights (q ++ all5 ds))

-- The bits after an append: at most one byte.
abbrev Turns : List ℕ → List Bool → ℕ → Type 0
Turns ds p m =
    (result : List ℕ)
    → (decode_turn (decode_loop (chars ds)) (leb 8 (16 - m)) result (holding p m)).0
      ≡ returns (is_padding (left8 (p ++ all5 ds)), result ++ eights (p ++ all5 ds))

no_byte : (m : ℕ) → 8 < m → leb 8 (16 - m) ≡ false
no_byte m h = ground arith

one_byte : (m : ℕ) → m ≤ 8 → leb 8 (16 - m) ≡ true
one_byte m h = ground arith

stays :
    (ds : List ℕ) (p : List Bool) (m : ℕ)
    → length p + m ≡ 16
    → length p < 8
    → Decodes ds p m
    → Turns ds p m
unfolding Decodes decode_turn
stays ds p m h k d result = rw (no_byte m (omega arith)) (d result)

writes :
    (ds : List ℕ) (a b c d e f g h : Bool) (q : List Bool) (m : ℕ)
    → length q + m ≡ 8
    → Decodes ds q (m + 8)
    → Turns ds (a ∷ b ∷ c ∷ d ∷ e ∷ f ∷ g ∷ h ∷ q) m
unfolding Decodes decode_turn eights left8
writes ds a b c d e f g h q m l k result =
    let byte = value (a ∷ b ∷ c ∷ d ∷ e ∷ f ∷ g ∷ h ∷ []) in
    rw (one_byte m (omega arith), extract_eight (a ∷ b ∷ c ∷ d ∷ e ∷ f ∷ g ∷ h ∷ []) q m l)
      (k (result ++ byte ∷ [])
        ∙ ap (λ o. returns (is_padding (left8 (q ++ all5 ds)), o))
            (append_assoc result (byte ∷ []) (eights (q ++ all5 ds))))

turns :
    (ds : List ℕ) (p : List Bool) (m : ℕ)
    → length p + m ≡ 16
    → length p < 13
    → ((q : List Bool) (n : ℕ) → length q + n ≡ 16 → length q < 8 → Decodes ds q n)
    → Turns ds p m
turns ds [] m x k next = stays ds [] m x (omega arith) (next [] m x (omega arith))
turns ds (a ∷ []) m x k next = stays ds (a ∷ []) m x (omega arith) (next (a ∷ []) m x (omega arith))
turns ds (a ∷ b ∷ []) m x k next =
    stays ds (a ∷ b ∷ []) m x (omega arith) (next (a ∷ b ∷ []) m x (omega arith))
turns ds (a ∷ b ∷ c ∷ []) m x k next =
    stays ds (a ∷ b ∷ c ∷ []) m x (omega arith) (next (a ∷ b ∷ c ∷ []) m x (omega arith))
turns ds (a ∷ b ∷ c ∷ d ∷ []) m x k next =
    stays ds (a ∷ b ∷ c ∷ d ∷ []) m x (omega arith) (next (a ∷ b ∷ c ∷ d ∷ []) m x (omega arith))
turns ds (a ∷ b ∷ c ∷ d ∷ e ∷ []) m x k next =
    stays ds (a ∷ b ∷ c ∷ d ∷ e ∷ []) m x (omega arith)
      (next (a ∷ b ∷ c ∷ d ∷ e ∷ []) m x (omega arith))
turns ds (a ∷ b ∷ c ∷ d ∷ e ∷ f ∷ []) m x k next =
    stays ds (a ∷ b ∷ c ∷ d ∷ e ∷ f ∷ []) m x (omega arith)
      (next (a ∷ b ∷ c ∷ d ∷ e ∷ f ∷ []) m x (omega arith))
turns ds (a ∷ b ∷ c ∷ d ∷ e ∷ f ∷ g ∷ []) m x k next =
    stays ds (a ∷ b ∷ c ∷ d ∷ e ∷ f ∷ g ∷ []) m x (omega arith)
      (next (a ∷ b ∷ c ∷ d ∷ e ∷ f ∷ g ∷ []) m x (omega arith))
turns ds (a ∷ b ∷ c ∷ d ∷ e ∷ f ∷ g ∷ h ∷ q) m x k next =
    writes ds a b c d e f g h q m (omega arith) (next q (m + 8) (omega arith) (omega arith))

short8 : (q : List Bool) → length q < 8 → (left8 q ≡ q) × (eights q ≡ [])
unfolding left8 eights
short8 [] k = (refl, refl)
short8 (a ∷ []) k = (refl, refl)
short8 (a ∷ b ∷ []) k = (refl, refl)
short8 (a ∷ b ∷ c ∷ []) k = (refl, refl)
short8 (a ∷ b ∷ c ∷ d ∷ []) k = (refl, refl)
short8 (a ∷ b ∷ c ∷ d ∷ e ∷ []) k = (refl, refl)
short8 (a ∷ b ∷ c ∷ d ∷ e ∷ f ∷ []) k = (refl, refl)
short8 (a ∷ b ∷ c ∷ d ∷ e ∷ f ∷ g ∷ []) k = (refl, refl)
short8 (a ∷ b ∷ c ∷ d ∷ e ∷ f ∷ g ∷ h ∷ q) k = absurd (omega arith)

split : (n : ℕ) → 5 ≤ n → n ≡ 5 + (n - 5)
split n l = omega arith

reads_digit :
    (d : ℕ) (ds : List ℕ) (q : List Bool) (m : ℕ)
    → d < 32
    → length q + (5 + m) ≡ 16
    → length q < 8
    → ((p : List Bool) (n : ℕ) → length p + n ≡ 16 → length p < 8 → Decodes ds p n)
    → (result : List ℕ)
    → (decode_loop (chars (d ∷ ds)) result (holding q (5 + m))).0
      ≡ returns (is_padding (left8 (q ++ all5 (d ∷ ds))), result ++ eights (q ++ all5 (d ∷ ds)))
unfolding decode_loop decode_digit can_extract bits_available
reads_digit d ds q m b l k ih result =
    rw (decode_char-char_at d b, append_digit d m q b)
      (turns ds (q ++ bits5 d) m (omega (arith, length-append q (bits5 d)))
          (omega (arith, length-append q (bits5 d))) ih result
        ∙ ap (λ p. returns (is_padding (left8 p), result ++ eights p))
            (append_assoc q (bits5 d) (all5 ds)))

new_lem : new_converter 5 8 16 ≡ holding [] 16
unfolding new_converter value_from
new_lem = refl

decode_loop_lem :
    (ds : List ℕ) (q : List Bool) (n : ℕ)
    → AreDigits ds
    → length q + n ≡ 16
    → length q < 8
    → Decodes ds q n
unfolding Decodes decode_loop decode_digit can_extract bits_available
decode_loop_lem [] q n b h k result =
    rw (append-nil q, (short8 q k).0, (short8 q k).1, append-nil result)
      (ap (λ m. returns (peek 5 8 16 (holding q m) == 0, result)) (omega arith))
decode_loop_lem (d ∷ ds) q n b h k result =
    ap (λ m. (decode_loop (chars (d ∷ ds)) result (holding q m)).0) (split n (omega arith))
    ∙ reads_digit d ds q (n - 5) b.0 (omega arith) k (λ p m e f. decode_loop_lem ds p m b.1 e f)
        result

pub base32_decode_lem :
    (ds : List ℕ)
    → AreDigits ds
    → base32_decode (chars ds) ≡ returns (is_padding (left8 (all5 ds)), eights (all5 ds))
unfolding base32_decode Decodes
base32_decode_lem ds h =
    ap (λ c. (decode_loop (chars ds) [] c).0) new_lem
    ∙ decode_loop_lem ds [] 16 h refl (omega arith) []
