-- ===== src/Base32/Encoder.antt =====
-- The encoder pushes the digits of the bits that it is given.
use mathlib.Core.List.{append_assoc, append-nil}
use environment_check.Prelude.{
  ℕ, zero, suc, ◌+◌, ◌-◌, ◌*◌, ◌/◌, ◌^◌, ◌<◌, ◌≤◌, ◌≡◌, refl, ap, ◌∙◌, sym, Bool, true, false, some,
  List, [], ◌∷◌, ◌++◌, leb, ltb, length, length-append, map, All, arith,
}
use environment_check.Outcome.{returns}
use environment_check.Base32.{
  BitConverter, new_converter, bits_available, can_append, can_extract, peek, encoding, char_at,
  encode_more, encode_turn, encode_loop, encode_end, encode_bytes, base32_encode,
}
use environment_check.Base32.Bits.{value, value_from}
use environment_check.Base32.Queue.{holding, bits8, append_byte, extract_five, peek_five}

abbrev pub all8 : List ℕ → List Bool
all8 [] = []
all8 (y ∷ ys) = bits8 y ++ all8 ys

-- The digits of five bits, as far as there are five; and the bits that are left.
pub fives : List Bool → List ℕ
fives [] = []
fives (a ∷ []) = []
fives (a ∷ b ∷ []) = []
fives (a ∷ b ∷ c ∷ []) = []
fives (a ∷ b ∷ c ∷ d ∷ []) = []
fives (a ∷ b ∷ c ∷ d ∷ e ∷ q) = value (a ∷ b ∷ c ∷ d ∷ e ∷ []) ∷ fives q

pub left5 : List Bool → List Bool
left5 [] = []
left5 (a ∷ []) = a ∷ []
left5 (a ∷ b ∷ []) = a ∷ b ∷ []
left5 (a ∷ b ∷ c ∷ []) = a ∷ b ∷ c ∷ []
left5 (a ∷ b ∷ c ∷ d ∷ []) = a ∷ b ∷ c ∷ d ∷ []
left5 (a ∷ b ∷ c ∷ d ∷ e ∷ q) = left5 q

abbrev pub chars : List ℕ → List ℕ
chars ds = map (char_at encoding) ds

-- There are five bits, or nothing is left to append.
abbrev Ready : List Bool → List ℕ → Type 0
Ready q [] = Unit {0}
Ready q (y ∷ ys) = 5 ≤ length q

abbrev AreBytes : List ℕ → Type 0
AreBytes ys = All (λ y. y < 256) ys

-- The converter at the end of the loop, for all the bits.
abbrev at_end : List Bool → BitConverter
at_end q = holding (left5 q) (16 - length (left5 q))

Loops : ℕ → List ℕ → List Bool → ℕ → Type 0
Loops f rest q n =
    (output : List ℕ)
    → encode_loop f rest output (holding q n)
      ≡ (returns (some (output ++ chars (fives (q ++ all8 rest)))), at_end (q ++ all8 rest))

few : (n : ℕ) → 11 < n → leb 5 (16 - n) ≡ false
few n h = ground arith

full : (n : ℕ) → n ≤ 11 → leb 5 (16 - n) ≡ true
full n h = ground arith

many : (n l : ℕ) → l + n ≡ 11 → leb 8 (n + 5) ≡ false → 5 ≤ l
many n l h e = ground arith

roomy : (n : ℕ) → leb 8 (n + 5) ≡ true → n + 5 ≡ 8 + (n + 5 - 8)
roomy n e = ground arith

ready : (q : List Bool) (y : ℕ) (r : List ℕ) → Ready (q ++ bits8 y) r
ready q y [] = tt
ready q y (z ∷ r) = omega (arith, length-append q (bits8 y))

short :
    (f n : ℕ) (q : List Bool)
    → length q + n ≡ 16
    → length q < 5
    → fives q ≡ []
    → left5 q ≡ q
    → Loops (suc f) [] q n
unfolding Loops encode_loop encode_turn can_extract bits_available
short f n q h k a b output =
    rw (few n (omega arith), append-nil q, a, append-nil output, b)
      (ap (λ m. (returns (some output), holding q m)) (omega arith))

Continues : ℕ → Type 0
Continues f =
    (r : List ℕ) (p : List Bool) (m : ℕ)
    → AreBytes r
    → length p + m ≡ 16
    → Ready p r
    → length p + 8 * length r < 5 * f
    → Loops f r p m

module _ (f n : ℕ) (q : List Bool) (h : length q + n ≡ 11) (more : Continues f) where
  after_digit :
      (rest : List ℕ) (room : Bool) (output : List ℕ)
      → AreBytes rest
      → leb 8 (n + 5) ≡ room
      → length q + 8 * length rest < 5 * f
      → encode_more (encode_loop f) room rest output (holding q (n + 5))
        ≡ (returns (some (output ++ chars (fives (q ++ all8 rest)))), at_end (q ++ all8 rest))
  unfolding Continues Loops encode_more
  after_digit [] true output b e l = more [] q (n + 5) tt (omega arith) tt l output
  after_digit [] false output b e l = more [] q (n + 5) tt (omega arith) tt l output
  after_digit (y ∷ r) false output b e l =
      more (y ∷ r) q (n + 5) b (omega arith) (many n (length q) h e) l output
  after_digit (y ∷ r) true output b e l =
      ap (λ k. encode_more (encode_loop f) true (y ∷ r) output (holding q k)) (roomy n e)
      ∙ appended (n + 5 - 8) (omega (arith, roomy n e))
    where
      appended :
          (m : ℕ)
          → length q + m ≡ 8
          → encode_more (encode_loop f) true (y ∷ r) output (holding q (8 + m)) ≡ (
            returns (some (output ++ chars (fives (q ++ all8 (y ∷ r))))),
            at_end (q ++ all8 (y ∷ r)),
          )
      appended m g = rw (append_byte y m q b.0) (
          more r (q ++ bits8 y) m b.1 (omega (arith, length-append q (bits8 y))) (ready q y r)
            (omega (arith, length-append q (bits8 y))) output
          ∙ ap (λ p. (returns (some (output ++ chars (fives p))), at_end p))
              (append_assoc q (bits8 y) (all8 r)))

  turn :
      (rest : List ℕ) (a b c d e : Bool)
      → AreBytes rest
      → length q + 8 * length rest < 5 * f
      → Loops (suc f) rest (a ∷ b ∷ c ∷ d ∷ e ∷ q) n
  unfolding Loops encode_loop encode_turn can_extract bits_available can_append fives left5
  turn rest a b c d e bytes l output =
      rw (full n (omega arith), extract_five (a ∷ b ∷ c ∷ d ∷ e ∷ []) q n h)
        (after_digit rest (leb 8 (n + 5))
            (output ++ char_at encoding (value (a ∷ b ∷ c ∷ d ∷ e ∷ [])) ∷ []) bytes refl l
          ∙ ap (λ o. (returns (some o), at_end (q ++ all8 rest)))
              (append_assoc output (char_at encoding (value (a ∷ b ∷ c ∷ d ∷ e ∷ [])) ∷ [])
                (chars (fives (q ++ all8 rest)))))

nothing_left :
    (f n : ℕ) (q : List Bool) (r : List ℕ)
    → length q < 5
    → Ready q r
    → Loops (suc f) [] q n
    → Loops (suc f) r q n
nothing_left f n q [] h k l = l
nothing_left f n q (y ∷ r) h k l = absurd (omega arith)

encode_loop_lem : (f : ℕ) → Continues f
unfolding Continues fives left5
encode_loop_lem zero r p m b h k l = absurd (omega arith)
encode_loop_lem (suc f) r [] m b h k l =
    nothing_left f m [] r (omega arith) k (short f m [] h (omega arith) refl refl)
encode_loop_lem (suc f) r (a ∷ []) m b h k l =
    nothing_left f m (a ∷ []) r (omega arith) k (short f m (a ∷ []) h (omega arith) refl refl)
encode_loop_lem (suc f) r (a ∷ c ∷ []) m b h k l =
    nothing_left f m (a ∷ c ∷ []) r (omega arith) k
      (short f m (a ∷ c ∷ []) h (omega arith) refl refl)
encode_loop_lem (suc f) r (a ∷ c ∷ d ∷ []) m b h k l =
    nothing_left f m (a ∷ c ∷ d ∷ []) r (omega arith) k
      (short f m (a ∷ c ∷ d ∷ []) h (omega arith) refl refl)
encode_loop_lem (suc f) r (a ∷ c ∷ d ∷ e ∷ []) m b h k l =
    nothing_left f m (a ∷ c ∷ d ∷ e ∷ []) r (omega arith) k
      (short f m (a ∷ c ∷ d ∷ e ∷ []) h (omega arith) refl refl)
encode_loop_lem (suc f) r (a ∷ c ∷ d ∷ e ∷ g ∷ q) m b h k l =
    turn f m q (omega arith) (encode_loop_lem f) r a c d e g b (omega arith)

-- The digits of all bits, the last one padded with zeros.
unfoldable pub digits_of : List Bool → List ℕ
digits_of [] = []
digits_of (a ∷ []) = value (a ∷ false ∷ false ∷ false ∷ false ∷ []) ∷ []
digits_of (a ∷ b ∷ []) = value (a ∷ b ∷ false ∷ false ∷ false ∷ []) ∷ []
digits_of (a ∷ b ∷ c ∷ []) = value (a ∷ b ∷ c ∷ false ∷ false ∷ []) ∷ []
digits_of (a ∷ b ∷ c ∷ d ∷ []) = value (a ∷ b ∷ c ∷ d ∷ false ∷ []) ∷ []
digits_of (a ∷ b ∷ c ∷ d ∷ e ∷ q) = value (a ∷ b ∷ c ∷ d ∷ e ∷ []) ∷ digits_of q

encode_end_lem :
    (output : List ℕ) (q : List Bool)
    → (encode_end (some (output ++ chars (fives q))) (at_end q)).0
      ≡ returns (some (true, output ++ chars (digits_of q)))
unfolding encode_end bits_available peek fives left5 digits_of
encode_end_lem output [] = rw (append-nil output) refl
encode_end_lem output (a ∷ []) = rw (append-nil output) (
    ap (λ p. returns (some (true, output ++ char_at encoding p ∷ [])))
      (peek_five (a ∷ false ∷ false ∷ false ∷ false ∷ []) [] 11 refl))
encode_end_lem output (a ∷ b ∷ []) = rw (append-nil output) (
    ap (λ p. returns (some (true, output ++ char_at encoding p ∷ [])))
      (peek_five (a ∷ b ∷ false ∷ false ∷ false ∷ []) [] 11 refl))
encode_end_lem output (a ∷ b ∷ c ∷ []) = rw (append-nil output) (
    ap (λ p. returns (some (true, output ++ char_at encoding p ∷ [])))
      (peek_five (a ∷ b ∷ c ∷ false ∷ false ∷ []) [] 11 refl))
encode_end_lem output (a ∷ b ∷ c ∷ d ∷ []) = rw (append-nil output) (
    ap (λ p. returns (some (true, output ++ char_at encoding p ∷ [])))
      (peek_five (a ∷ b ∷ c ∷ d ∷ false ∷ []) [] 11 refl))
encode_end_lem output (a ∷ b ∷ c ∷ d ∷ e ∷ q) =
    let ch = char_at encoding (value (a ∷ b ∷ c ∷ d ∷ e ∷ [])) in
    ap (λ o. (encode_end (some o) (at_end q)).0)
      (sym (append_assoc output (ch ∷ []) (chars (fives q))))
    ∙ encode_end_lem (output ++ ch ∷ []) q
    ∙ ap (λ o. returns (some (true, o))) (append_assoc output (ch ∷ []) (chars (digits_of q)))

new_lem : new_converter 8 5 16 ≡ holding [] 16
unfolding new_converter value_from
new_lem = refl

encode_bytes_lem :
    (y : ℕ) (rest : List ℕ)
    → AreBytes (y ∷ rest)
    → (encode_bytes y rest (holding [] 16)).0
      ≡ returns (some (true, chars (digits_of (all8 (y ∷ rest)))))
unfolding encode_bytes Continues Loops
encode_bytes_lem y rest h =
    rw
      (
        append_byte y 8 [] h.0,
        encode_loop_lem (2 * length (y ∷ rest) + 1) rest (bits8 y) 8 h.1 refl (ready [] y rest)
            (omega arith) [],
      )
      (encode_end_lem [] (all8 (y ∷ rest)))

short_enough : (n m : ℕ) → n ≤ m → ltb m n ≡ false
short_enough n m h = ground arith

-- An input of bytes, not longer than the code allows, is encoded to the digits of its bits.
pub base32_encode_lem :
    (ys : List ℕ)
    → All (λ y. y < 256) ys
    → length ys ≤ (2 ^ 64 - 1) / 8
    → base32_encode ys ≡ returns (some (true, chars (digits_of (all8 ys))))
unfolding base32_encode digits_of
base32_encode_lem [] h b = refl
base32_encode_lem (y ∷ rest) h b =
    rw (short_enough (length (y ∷ rest)) ((2 ^ 64 - 1) / 8) b, new_lem) (encode_bytes_lem y rest h)
