-- ===== src/CheckEnv/Magisk/Mappings.antt =====
-- What the scan of /proc/self/maps finds in the lines that the kernel writes.
use environment_check.Prelude.{
  ℕ, ◌%◌, ◌≡◌, refl, ap, ◌∙◌, Bool, true, false, not, List, [], ◌∷◌, ◌++◌, ◌==◌, ◌&&◌, ◌||◌,
  if◌then◌else◌, is_nil, All, codes, starts_with, strstr, Bool-cases, inl, inr, arith,
}
use environment_check.Outcome.{returns}
use environment_check.CheckEnv.Decimal.{skip_spaces, is_space}
use environment_check.CheckEnv.Texts.{IsLine, until_nul-line, strstr-line}
use environment_check.CheckEnv.Common.Lines.{with_newlines}
use environment_check.CheckEnv.Magisk.{
  DataDevice, word_bits, word_from, scan, is_on, names_system, is_module_line, map_loop, map_format,
}
use environment_check.CheckEnv.Magisk.Digits.{value}
use environment_check.CheckEnv.Magisk.Lines.{
  Mapping, IsMapping, map_line, scan-map_text, map_text-append,
}

or_true : (a : Bool) {b : Bool} → b ≡ true → (a || b) ≡ true
or_true true h = refl
or_true false h = h

pub names_system-line : (l : List ℕ) → names_system (l ++ 10 ∷ []) ≡ names_system l
unfolding names_system
names_system-line l =
    rw
      (
        strstr-line 32 (codes "/system/") l (ground arith),
        strstr-line 32 (codes "/vendor/") l (ground arith),
        strstr-line 32 (codes "/product/") l (ground arith),
        strstr-line 32 (codes "/system_ext/") l (ground arith),
      )
      refl

slash-after_blank : (q s : List ℕ) → strstr (32 ∷ 47 ∷ q) s ≡ true → strstr (47 ∷ []) s ≡ true
unfolding strstr starts_with
slash-after_blank q [] h = h
slash-after_blank q (c ∷ []) h = absurd (ground arith)
slash-after_blank q (c ∷ d ∷ s) h = elim (Bool-cases (strstr (32 ∷ 47 ∷ q) (d ∷ s))) [
  | inl e ↦ or_true (47 == c && true) (slash-after_blank q (d ∷ s) e)
  | inr e ↦ ground arith
]

word-of_path :
    (path : List ℕ)
    → is_nil (skip_spaces path) ≡ false
    → is_nil (word_from (skip_spaces (path ++ 10 ∷ []))).0 ≡ false
unfolding skip_spaces word_from
word-of_path [] h = h
word-of_path (c ∷ path) h = elim (Bool-cases (is_space c)) [
  | inl e ↦ rw (e, word-of_path path (rw e at h)) refl
  | inr e ↦ rw (e, e) refl
]

-- Whether the scan of the mappings stops at one: it names a directory of the system, and lies on
-- the device.
abbrev pub is_found : DataDevice → Mapping → Bool
is_found g m =
    names_system (map_line m)
    && ((value 16 0 m.major % word_bits == g.major) && (value 16 0 m.minor % word_bits == g.minor))

unfoldable pub is_found_in : DataDevice → List Mapping → Bool
is_found_in g [] = false
is_found_in g (m ∷ ms) = is_found g m || is_found_in g ms

names_system-slash : (l : List ℕ) → names_system l ≡ true → strstr (codes "/") l ≡ true
unfolding names_system
names_system-slash l h =
    let system = slash-after_blank (codes "system/") l in
    let vendor = slash-after_blank (codes "vendor/") l in
    let product = slash-after_blank (codes "product/") l in
    let system_ext = slash-after_blank (codes "system_ext/") l in
    ground (arith, system, vendor, product, system_ext)

if_same {ℓ} : {A : Type ℓ} (b : Bool) (a : A) → (if b then a else a) ≡ a
if_same true a = refl
if_same false a = refl

is_module_line-text :
    (g : DataDevice) (l : List ℕ) (b : Bool)
    → (names_system l ≡ true → is_on g (scan map_format (l ++ 10 ∷ [])) ≡ returns b)
    → is_module_line g (l ++ 10 ∷ []) ≡ returns (names_system l && b)
unfolding is_module_line
is_module_line-text g l b h = elim (Bool-cases (names_system l)) [
  | inl e ↦
      rw (strstr-line 47 [] l (ground arith), names_system-slash l e, names_system-line l, e) (h e)
  | inr e ↦
      rw (names_system-line l, e)
        (if_same (not (strstr (codes "/") (l ++ 10 ∷ []))) (returns false))
]

is_on-mapping :
    (g : DataDevice) (m : Mapping)
    → IsMapping m
    → is_nil (skip_spaces m.path) ≡ false
    → is_on g (scan map_format (map_line m ++ 10 ∷ []))
      ≡ returns (
          (value 16 0 m.major % word_bits == g.major)
          && (value 16 0 m.minor % word_bits == g.minor))
unfolding is_on skip_spaces
is_on-mapping g m h k =
    let w = word_from (skip_spaces (m.path ++ 10 ∷ [])) in
    ap (is_on g) (
      ap (scan map_format) (map_text-append m m.path (10 ∷ []))
      ∙ scan-map_text m (m.path ++ 10 ∷ []) w.0 w.1 h refl (word-of_path m.path k))

and_not_true : (a b : Bool) → (a && b) ≡ false → a ≡ true → b ≡ false
and_not_true true b h e = h
and_not_true false b h e = absurd (ground arith)

is_module_line-mapping :
    (g : DataDevice) (m : Mapping)
    → IsMapping m
    → (names_system (map_line m) && is_nil (skip_spaces m.path)) ≡ false
    → is_module_line g (map_line m ++ 10 ∷ []) ≡ returns (is_found g m)
is_module_line-mapping g m h k =
    is_module_line-text g (map_line m)
      ((value 16 0 m.major % word_bits == g.major) && (value 16 0 m.minor % word_bits == g.minor))
      (λ e.
        is_on-mapping g m h
          (and_not_true (names_system (map_line m)) (is_nil (skip_spaces m.path)) k e))

unfoldable pub map_lines : List Mapping → List (List ℕ)
map_lines [] = []
map_lines (m ∷ ms) = map_line m ∷ map_lines ms

-- A mapping as the kernel prints it. One that names a directory of the system has a path.
abbrev pub IsPrinted : Mapping → Type 0
IsPrinted m = IsMapping m × ((names_system (map_line m) && is_nil (skip_spaces m.path)) ≡ false)

pub map_loop-lines :
    (g : DataDevice) (ms : List Mapping)
    → All IsPrinted ms
    → All (IsLine 4094) (map_lines ms)
    → map_loop g (with_newlines (map_lines ms)) ≡ returns (if is_found_in g ms then 1 else 0)
unfolding map_loop map_lines is_found_in
map_loop-lines g [] h k = refl
map_loop-lines g (m ∷ ms) h k = elim (Bool-cases (is_found g m)) [
  | inl e ↦
      rw (until_nul-line 4094 (map_line m) k.0, is_module_line-mapping g m h.0.0 h.0.1, e) refl
  | inr e ↦
      rw (until_nul-line 4094 (map_line m) k.0, is_module_line-mapping g m h.0.0 h.0.1, e)
        (map_loop-lines g ms h.1 k.1)
]
