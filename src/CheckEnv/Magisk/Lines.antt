-- ===== src/CheckEnv/Magisk/Lines.antt =====
-- The lines of /proc/self/mountinfo and /proc/self/maps, and what the formats read of them.
use environment_check.Prelude.{ℕ, ◌%◌, ◌≡◌, refl, false, List, [], ◌∷◌, ◌++◌, is_nil}
use mathlib.Core.List.{append_assoc}
use environment_check.CheckEnv.Decimal.{skip_spaces}
use environment_check.CheckEnv.Magisk.{
  number, text, word_bits, word_from, scan, mount_format, map_format,
}
use environment_check.CheckEnv.Magisk.Digits.{IsField, IsDigits, value}
use environment_check.CheckEnv.Magisk.Fields.{
  blank_stops, colon_stops, scan_end, scan_colon, scan_path, scan_skip_word-field,
  scan_skip_word-next, scan_skip_number-field, scan_skip_number-next, scan_decimal_number-field,
  scan_decimal_number-next, scan_hex_number-field, scan_hex_number-next,
}

-- A line of /proc/self/mountinfo: two numbers, the device, and the rest after a blank.
pub record Mount : Type 0 where
  pub mount_id : List ℕ
  pub parent_id : List ℕ
  pub major : List ℕ
  pub minor : List ℕ
  pub rest : List ℕ

abbrev pub IsMount : Mount → Type 0
IsMount m =
    IsDigits 10 m.mount_id × IsDigits 10 m.parent_id × IsDigits 10 m.major × IsDigits 10 m.minor

abbrev pub mount_text : Mount → List ℕ → List ℕ
mount_text m tail =
    m.mount_id ++ 32 ∷ (m.parent_id ++ 32 ∷ (m.major ++ 58 ∷ (m.minor ++ 32 ∷ tail)))

abbrev pub mount_line : Mount → List ℕ
mount_line m = mount_text m m.rest

pub scan-mount_text :
    (m : Mount) (tail : List ℕ)
    → IsMount m
    → scan mount_format (mount_text m tail)
      ≡ number (value 10 0 m.major % word_bits) ∷ number (value 10 0 m.minor % word_bits) ∷ []
scan-mount_text m tail h =
    rw
      (
        scan_skip_number-field m.mount_id 32
            (m.parent_id ++ 32 ∷ (m.major ++ 58 ∷ (m.minor ++ 32 ∷ tail))) blank_stops h.0,
        scan_skip_number-next m.parent_id 32 (m.major ++ 58 ∷ (m.minor ++ 32 ∷ tail)) blank_stops
            h.1,
        scan_decimal_number-next m.major 58 (m.minor ++ 32 ∷ tail) colon_stops h.2,
        scan_colon (m.minor ++ 32 ∷ tail),
        scan_decimal_number-field m.minor 32 tail blank_stops h.3,
        scan_end (32 ∷ tail),
      )
      refl

pub mount_text-append : (m : Mount) (s t : List ℕ) → mount_text m s ++ t ≡ mount_text m (s ++ t)
mount_text-append m s t = simp append_assoc refl

-- A line of /proc/self/maps.
pub record Mapping : Type 0 where
  pub address : List ℕ
  pub permissions : List ℕ
  pub offset : List ℕ
  pub major : List ℕ
  pub minor : List ℕ
  pub inode : List ℕ
  pub path : List ℕ

abbrev pub IsMapping : Mapping → Type 0
IsMapping m =
    IsField m.address
    × IsField m.permissions
    × IsField m.offset
    × IsDigits 16 m.major
    × IsDigits 16 m.minor
    × IsField m.inode

-- The line of a mapping, up to its path.
abbrev pub map_text : Mapping → List ℕ → List ℕ
map_text m tail =
    m.address
    ++ 32
      ∷ (m.permissions
          ++ 32 ∷ (m.offset ++ 32 ∷ (m.major ++ 58 ∷ (m.minor ++ 32 ∷ (m.inode ++ 32 ∷ tail)))))

abbrev pub map_line : Mapping → List ℕ
map_line m = map_text m m.path

pub scan-map_text :
    (m : Mapping) (tail w rest : List ℕ)
    → IsMapping m
    → word_from (skip_spaces (32 ∷ tail)) ≡ (w, rest)
    → is_nil w ≡ false
    → scan map_format (map_text m tail)
      ≡ number (value 16 0 m.major % word_bits)
        ∷ number (value 16 0 m.minor % word_bits)
        ∷ text w
        ∷ []
scan-map_text m tail w rest (a, p, o, x, y, i) e h =
    rw
      (
        scan_skip_word-field m.address 32
            (m.permissions
              ++ 32 ∷ (m.offset ++ 32 ∷ (m.major ++ 58 ∷ (m.minor ++ 32 ∷ (m.inode ++ 32 ∷ tail)))))
            a refl,
        scan_skip_word-next m.permissions 32
            (m.offset ++ 32 ∷ (m.major ++ 58 ∷ (m.minor ++ 32 ∷ (m.inode ++ 32 ∷ tail)))) p refl,
        scan_skip_word-next m.offset 32 (m.major ++ 58 ∷ (m.minor ++ 32 ∷ (m.inode ++ 32 ∷ tail))) o
            refl,
        scan_hex_number-next m.major 58 (m.minor ++ 32 ∷ (m.inode ++ 32 ∷ tail)) colon_stops x,
        scan_colon (m.minor ++ 32 ∷ (m.inode ++ 32 ∷ tail)),
        scan_hex_number-field m.minor 32 (m.inode ++ 32 ∷ tail) blank_stops y,
        scan_skip_word-next m.inode 32 tail i refl,
        scan_path (32 ∷ tail) w rest e h,
      )
      refl

pub map_text-append : (m : Mapping) (s t : List ℕ) → map_text m s ++ t ≡ map_text m (s ++ t)
map_text-append m s t = simp append_assoc refl
