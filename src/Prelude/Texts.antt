-- ===== src/Prelude/Texts.antt =====
-- Texts as lists of bytes, and the C functions on them.
use Prim.Native.Nat.{ℕ}
use Prim.Native.String.{String}
use Prim.Native.Char.{code}
use mathlib.Core.Bool.{Bool, true, false, ◌&&◌, ◌||◌}
use mathlib.Core.List.{List, [], ◌∷◌}
use environment_check.Prelude.Tests.{◌==◌, if◌then◌else◌}
use environment_check.Prelude.Lists.{is_nil}

abbrev pub codes : String → List ℕ
codes String.[] = []
codes (String.◌∷◌ c s) = code c ∷ codes s

-- The C string in a buffer.
unfoldable pub until_nul : List ℕ → List ℕ
until_nul [] = []
until_nul (c ∷ s) = if c == 0 then [] else c ∷ until_nul s

-- `strncmp(s, p, strlen(p)) == 0`.
unfoldable pub starts_with : List ℕ → List ℕ → Bool
starts_with [] s = true
starts_with (p ∷ ps) [] = false
starts_with (p ∷ ps) (c ∷ s) = p == c && starts_with ps s

-- Whether `strstr` finds the text in `s`.
unfoldable pub strstr : List ℕ → List ℕ → Bool
unfolding starts_with
strstr p [] = is_nil p
strstr p (c ∷ s) = starts_with p (c ∷ s) || strstr p s
