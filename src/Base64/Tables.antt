-- ===== src/Base64/Tables.antt =====
-- The tables of base64.cc: the reverse table undoes the encoding ones.
use environment_check.Prelude.{
  below, below_lem, is_value, value_of, ℕ, ◌<◌, ◌≡◌, refl, some, Bool, true, false, ◌==◌, ◌&&◌, not,
  and_both,
}
use environment_check.Base64.{table_char, reverse_char, null_ending}

abbrev reverses : Bool → ℕ → Bool
reverses url_safe i =
    is_value i (reverse_char (table_char url_safe i)) && not (table_char url_safe i == null_ending)

all_reverse : (url_safe : Bool) → below (reverses url_safe) 64 ≡ true
unfolding reverse_char table_char
all_reverse true = refl
all_reverse false = refl

not_lem : (b : Bool) → not b ≡ true → b ≡ false
not_lem true h = cc
not_lem false h = refl

module _ (url_safe : Bool) (i : ℕ) (b : i < 64) where
  both :
      (is_value i (reverse_char (table_char url_safe i)) ≡ true)
      × (not (table_char url_safe i == null_ending) ≡ true)
  both = and_both _ _ (below_lem (reverses url_safe) 64 i (all_reverse url_safe) b)

  -- Either table is undone by the reverse table.
  pub reverse-table : reverse_char (table_char url_safe i) ≡ some i
  reverse-table = value_of i _ both.0

  -- No character of a table is '='.
  pub table_not_null : (table_char url_safe i == null_ending) ≡ false
  table_not_null = not_lem _ both.1

pub reverse-null_ending : reverse_char null_ending ≡ some 0
unfolding reverse_char
reverse-null_ending = refl
