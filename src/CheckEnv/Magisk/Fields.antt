-- ===== src/CheckEnv/Magisk/Fields.antt =====
-- What the conversions of sscanf read of fields between blanks.
use environment_check.Prelude.{
  ℕ, ◌%◌, ◌≡◌, refl, ap, ◌∙◌, some, true, false, List, [], ◌∷◌, ◌++◌, is_nil, arith,
}
use environment_check.CheckEnv.Decimal.{skip_spaces, is_space}
use environment_check.CheckEnv.Magisk.{
  Directive, skip_number, skip_word, decimal_number, hex_number, word, character, Stored, number,
  text, digit_of, word_bits, word_from, store_number, store_word, convert, scan,
}
use environment_check.CheckEnv.Magisk.Digits.{
  IsField, IsDigits, IsStop, value, skip_spaces-field, skip_spaces-blank, number_from-digits,
  word_from-field,
}

pub blank_stops : IsStop 32
unfolding digit_of
blank_stops = (refl, refl)

pub colon_stops : IsStop 58
unfolding digit_of
colon_stops = (refl, refl)

pub scan_end : (s : List ℕ) → scan [] s ≡ []
unfolding scan
scan_end s = refl

scan_next :
    (d : Directive) (ds : List Directive) (s rest : List ℕ) (stored : List Stored)
    → convert d s ≡ some (stored, rest)
    → scan (d ∷ ds) s ≡ stored ++ scan ds rest
unfolding scan
scan_next d ds s rest stored h = rw (scan, h) refl

pub scan_colon : (s : List ℕ) (ds : List Directive) → scan (character 58 ∷ ds) (58 ∷ s) ≡ scan ds s
unfolding convert
scan_colon s ds = scan_next (character 58) ds (58 ∷ s) s [] refl

-- A conversion that stands before a field, with or without a blank between.
module _ (w : List ℕ) (stop : ℕ) (s : List ℕ) (field : IsField w)
    (blank : is_space stop ≡ true) where
  pub scan_skip_word-field :
      (ds : List Directive) → scan (skip_word ∷ ds) (w ++ stop ∷ s) ≡ scan ds (stop ∷ s)
  unfolding convert store_word
  scan_skip_word-field ds = scan_next skip_word ds (w ++ stop ∷ s) (stop ∷ s) [] (
      rw (skip_spaces-field w (stop ∷ s) field, word_from-field w stop s field.1 blank, field.0)
        refl)

  pub scan_skip_word-next :
      (ds : List Directive) → scan (skip_word ∷ ds) (32 ∷ w ++ stop ∷ s) ≡ scan ds (stop ∷ s)
  unfolding convert store_word
  scan_skip_word-next ds = scan_next skip_word ds (32 ∷ w ++ stop ∷ s) (stop ∷ s) [] (
      rw (skip_spaces-blank w (stop ∷ s) field, word_from-field w stop s field.1 blank, field.0)
        refl)

module _ (t : List ℕ) (stop : ℕ) (s : List ℕ) (ends : IsStop stop) where
  pub scan_skip_number-field :
      IsDigits 10 t
      → (ds : List Directive) → scan (skip_number ∷ ds) (t ++ stop ∷ s) ≡ scan ds (stop ∷ s)
  unfolding convert store_number
  scan_skip_number-field digits ds =
      scan_next skip_number ds (t ++ stop ∷ s) (stop ∷ s) []
        (rw (number_from-digits 10 t stop s (omega arith) digits ends).0 refl)

  pub scan_skip_number-next :
      IsDigits 10 t
      → (ds : List Directive) → scan (skip_number ∷ ds) (32 ∷ t ++ stop ∷ s) ≡ scan ds (stop ∷ s)
  unfolding convert store_number
  scan_skip_number-next digits ds =
      scan_next skip_number ds (32 ∷ t ++ stop ∷ s) (stop ∷ s) []
        (rw (number_from-digits 10 t stop s (omega arith) digits ends).1 refl)

  pub scan_decimal_number-field :
      IsDigits 10 t
      → (ds : List Directive)
      → scan (decimal_number ∷ ds) (t ++ stop ∷ s)
        ≡ number (value 10 0 t % word_bits) ∷ scan ds (stop ∷ s)
  unfolding convert store_number
  scan_decimal_number-field digits ds =
      scan_next decimal_number ds (t ++ stop ∷ s) (stop ∷ s)
        (number (value 10 0 t % word_bits) ∷ [])
        (rw (number_from-digits 10 t stop s (omega arith) digits ends).0 refl)

  pub scan_decimal_number-next :
      IsDigits 10 t
      → (ds : List Directive)
      → scan (decimal_number ∷ ds) (32 ∷ t ++ stop ∷ s)
        ≡ number (value 10 0 t % word_bits) ∷ scan ds (stop ∷ s)
  unfolding convert store_number
  scan_decimal_number-next digits ds =
      scan_next decimal_number ds (32 ∷ t ++ stop ∷ s) (stop ∷ s)
        (number (value 10 0 t % word_bits) ∷ [])
        (rw (number_from-digits 10 t stop s (omega arith) digits ends).1 refl)

  pub scan_hex_number-field :
      IsDigits 16 t
      → (ds : List Directive)
      → scan (hex_number ∷ ds) (t ++ stop ∷ s)
        ≡ number (value 16 0 t % word_bits) ∷ scan ds (stop ∷ s)
  unfolding convert store_number
  scan_hex_number-field digits ds =
      scan_next hex_number ds (t ++ stop ∷ s) (stop ∷ s) (number (value 16 0 t % word_bits) ∷ [])
        (rw (number_from-digits 16 t stop s (omega arith) digits ends).0 refl)

  pub scan_hex_number-next :
      IsDigits 16 t
      → (ds : List Directive)
      → scan (hex_number ∷ ds) (32 ∷ t ++ stop ∷ s)
        ≡ number (value 16 0 t % word_bits) ∷ scan ds (stop ∷ s)
  unfolding convert store_number
  scan_hex_number-next digits ds =
      scan_next hex_number ds (32 ∷ t ++ stop ∷ s) (stop ∷ s)
        (number (value 16 0 t % word_bits) ∷ [])
        (rw (number_from-digits 16 t stop s (omega arith) digits ends).1 refl)

pub scan_path :
    (s w rest : List ℕ)
    → word_from (skip_spaces s) ≡ (w, rest)
    → is_nil w ≡ false
    → scan (word ∷ []) s ≡ text w ∷ []
unfolding convert store_word
scan_path s w rest e h =
    scan_next word [] s rest (text w ∷ []) (rw (e, h) refl) ∙ ap (λ u. text w ∷ u) (scan_end rest)
