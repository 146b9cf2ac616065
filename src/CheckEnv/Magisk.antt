-- ===== src/CheckEnv/Magisk.antt =====
-- CheckEnv/src/main/cpp/magisk_detector.cpp: whether a file of the system is on the device of
-- /data, where Magisk keeps the files that it mounts over the system.
pub mod Digits
pub mod Fields
pub mod Lines
pub mod Mappings
pub mod Scans
use environment_check.Prelude.{
  ℕ, ◌+◌, ◌-◌, ◌*◌, ◌%◌, ◌^◌, Option, none, some, Bool, true, false, List, [], ◌∷◌, ◌++◌, ◌==◌,
  ◌&&◌, ◌||◌, not, ltb, leb, if◌then◌else◌, is_nil, codes, until_nul, strstr,
}
use environment_check.Outcome.{Outcome, returns, fails, undefined_behaviour, ◌>>=◌}
use environment_check.CheckEnv.System.{System}
use environment_check.CheckEnv.Decimal.{skip_spaces, is_space}
use environment_check.CheckEnv.Common.{lines}

-- The conversions of a format of `sscanf`. A blank of the formats stands before a conversion that
-- skips blanks.
pub data Directive : Type 0 where
  -- `%*d`, `%*s`.
  skip_number : Directive
  skip_word : Directive
  -- `%d`, `%x`, `%s`.
  decimal_number : Directive
  hex_number : Directive
  word : Directive
  character : ℕ → Directive

-- What a conversion stores. An int is its 32 bits.
pub data Stored : Type 0 where
  number : ℕ → Stored
  text : List ℕ → Stored

-- The value of a digit, also of a letter; of another byte, no digit of a base.
unfoldable pub digit_of : ℕ → ℕ
digit_of c =
    if leb 48 c && leb c 57
    then c - 48
    else (if leb 97 c && leb c 102 then c - 87 else (if leb 65 c && leb c 70 then c - 55 else 99))

unfoldable pub digits_from : ℕ → ℕ → List ℕ → ℕ × List ℕ
digits_from base acc [] = (acc, [])
digits_from base acc (c ∷ s) =
    let rest = digits_from base (acc * base + digit_of c) s in
    if ltb (digit_of c) base then rest else (acc, c ∷ s)

unfoldable pub unsigned_from : ℕ → List ℕ → Option (ℕ × List ℕ)
unfolding digits_from
unsigned_from base [] = none
unsigned_from base (c ∷ s) =
    if ltb (digit_of c) base then some (digits_from base 0 (c ∷ s)) else none

abbrev pub is_x : ℕ → Bool
is_x c = c == 120 || c == 88

-- Base 16 allows a prefix 0x before a digit.
unfoldable pub without_prefix : ℕ → List ℕ → List ℕ
without_prefix base [] = []
without_prefix base (z ∷ []) = z ∷ []
without_prefix base (z ∷ x ∷ []) = z ∷ x ∷ []
without_prefix base (z ∷ x ∷ d ∷ s) =
    if base == 16 && z == 48 && is_x x && ltb (digit_of d) 16 then d ∷ s else z ∷ x ∷ d ∷ s

abbrev pub word_bits : ℕ
word_bits = 2 ^ 32

-- The 32 bits of a number, or of its negative.
unfoldable pub wrapped : Bool → Option (ℕ × List ℕ) → Option (ℕ × List ℕ)
wrapped negative none = none
wrapped false (some (n, s)) = some (n % word_bits, s)
wrapped true (some (n, s)) = some ((word_bits - n % word_bits) % word_bits, s)

unfoldable pub signed_from : ℕ → List ℕ → Option (ℕ × List ℕ)
signed_from base [] = none
signed_from base (c ∷ s) =
    if c == 45
    then wrapped true (unsigned_from base (without_prefix base s))
    else wrapped false (unsigned_from base (without_prefix base (if c == 43 then s else c ∷ s)))

unfoldable pub word_from : List ℕ → List ℕ × List ℕ
word_from [] = ([], [])
word_from (c ∷ s) = let (w, rest) = word_from s in if is_space c then ([], c ∷ s) else (c ∷ w, rest)

unfoldable pub number_from : ℕ → List ℕ → Option (ℕ × List ℕ)
unfolding signed_from wrapped unsigned_from without_prefix
number_from base s = signed_from base (skip_spaces s)

-- A conversion that matched: what it stores, and what is left to read.
abbrev pub Match : Type 0
Match = Option (List Stored × List ℕ)

unfoldable pub store_number : Bool → Option (ℕ × List ℕ) → Match
store_number stores none = none
store_number stores (some (n, s)) = some (if stores then number n ∷ [] else [], s)

unfoldable pub store_word : Bool → List ℕ × List ℕ → Match
store_word stores (w, s) = if is_nil w then none else some (if stores then text w ∷ [] else [], s)

unfoldable pub convert : Directive → List ℕ → Match
unfolding store_number store_word number_from word_from
convert skip_number s = store_number false (number_from 10 s)
convert decimal_number s = store_number true (number_from 10 s)
convert hex_number s = store_number true (number_from 16 s)
convert skip_word s = store_word false (word_from (skip_spaces s))
convert word s = store_word true (word_from (skip_spaces s))
convert (character k) [] = none
convert (character k) (c ∷ s) = if c == k then some ([], s) else none

-- `sscanf`: what the conversions store, up to the first one that does not match.
unfoldable pub scan : List Directive → List ℕ → List Stored
unfolding convert
scan [] s = []
scan (d ∷ ds) s = elim (convert d s) [ none ↦ [] | some (stored, rest) ↦ stored ++ scan ds rest ]

-- The variables `major` and `minor` of the file, which are -1 at first, each as its 32 bits.
pub record DataDevice : Type 0 where
  pub major : ℕ
  pub minor : ℕ

abbrev pub minus_one : ℕ
minus_one = word_bits - 1

unfoldable pub store_device : List Stored → DataDevice → DataDevice
store_device (number a ∷ number b ∷ more) g = record { major = a; minor = b }
store_device (number a ∷ more) g = record g { major = a }
store_device more g = g

abbrev pub mount_format : List Directive
mount_format = skip_number ∷ skip_number ∷ decimal_number ∷ character 58 ∷ decimal_number ∷ []

unfoldable pub mount_loop : List (List ℕ) → DataDevice → DataDevice
unfolding store_device scan
mount_loop [] g = g
mount_loop (line ∷ rest) g = mount_loop rest (
    if strstr (codes "/ /data ") (until_nul line)
    then store_device (scan mount_format (until_nul line)) g
    else g)

-- PATH_MAX is 4096. `sys_open` and `fdopen` succeed where `fopen` would.
unfoldable pub scan_mounts_of : Option (List ℕ) → DataDevice → DataDevice
unfolding mount_loop
scan_mounts_of none g = g
scan_mounts_of (some s) g = mount_loop (lines 4095 s) g

unfoldable pub scan_mountinfo : System → DataDevice → DataDevice
unfolding scan_mounts_of
scan_mountinfo sys g = scan_mounts_of (sys.file (codes "/proc/self/mountinfo")) g

unfoldable pub names_system : List ℕ → Bool
names_system line =
    strstr (codes " /system/") line
    || strstr (codes " /vendor/") line
    || strstr (codes " /product/") line
    || strstr (codes " /system_ext/") line

abbrev pub map_format : List Directive
map_format =
    skip_word
    ∷ skip_word
    ∷ skip_word
    ∷ hex_number
    ∷ character 58
    ∷ hex_number
    ∷ skip_word
    ∷ word
    ∷ []

-- The comparison after `sscanf`, and the log of the path: where a variable that they read was not
-- stored, its value is indeterminate.
unfoldable pub is_on : DataDevice → List Stored → Outcome Bool
is_on g (number f ∷ []) = if f == g.major then fails undefined_behaviour else returns false
is_on g (number f ∷ number s ∷ []) =
    if f == g.major && s == g.minor then fails undefined_behaviour else returns false
is_on g (number f ∷ number s ∷ text p ∷ more) = returns (f == g.major && s == g.minor)
is_on g more = fails undefined_behaviour

unfoldable pub is_module_line : DataDevice → List ℕ → Outcome Bool
unfolding is_on names_system scan
is_module_line g line =
    if not (strstr (codes "/") line)
    then returns false
    else (if names_system line then is_on g (scan map_format line) else returns false)

unfoldable pub map_loop : DataDevice → List (List ℕ) → Outcome ℕ
unfolding is_module_line
map_loop g [] = returns 0
map_loop g (line ∷ rest) = do
  found ← is_module_line g (until_nul line)
  let others = map_loop g rest
  if found then returns 1 else others

unfoldable pub scan_maps_of : DataDevice → Option (List ℕ) → Outcome ℕ
unfolding map_loop
scan_maps_of g none = returns minus_one
scan_maps_of g (some s) = map_loop g (lines 4095 s)

unfoldable pub scan_maps : System → DataDevice → Outcome ℕ
unfolding scan_maps_of
scan_maps sys g = scan_maps_of g (sys.file (codes "/proc/self/maps"))

-- haveMagicMount: the result, and the variables of the file after it.
unfoldable pub have_magic_mount : System → DataDevice → Outcome ℕ × DataDevice
unfolding scan_mountinfo scan_maps
have_magic_mount sys g =
    let found = scan_mountinfo sys g in
    (
      if found.minor == minus_one || found.major == minus_one
          then returns minus_one
          else scan_maps sys found,
      found,
    )
