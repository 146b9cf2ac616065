-- ===== src/CheckEnv/Sign.antt =====
-- CheckEnv/src/main/cpp/check_sign.cpp: the digests of the certificate, and their comparison with
-- the one that the application expects. The digests are those of the hash library.
pub mod Digests
use environment_check.Prelude.{
  ℕ, ◌+◌, ◌-◌, ◌/◌, ◌%◌, Bool, true, false, List, [], ◌∷◌, ◌++◌, ◌==◌, ◌&&◌, ltb, leb, not, length,
  if◌then◌else◌, codes, until_nul,
}
use environment_check.Outcome.{Outcome, returns, fails, ◌>>=◌}
use environment_check.CheckEnv.System.{print_into}

pub data Hash : Type 0 where
  md5 sha1 sha256 : Hash

-- `toupper` in the C locale.
unfoldable pub to_upper : ℕ → ℕ
to_upper c = if leb 97 c && leb c 122 then c - 32 else c

-- The loop of `formatSignature` from the index `i`, over a text of `n` characters.
unfoldable pub format_from : ℕ → ℕ → List ℕ → List ℕ
format_from i n [] = []
format_from i n (c ∷ s) =
    let rest = format_from (i + 1) n s in
    if i % 2 == 1 && not (i == n - 1) then to_upper c ∷ 58 ∷ rest else to_upper c ∷ rest

unfoldable pub format_signature : List ℕ → List ℕ
format_signature s = format_from 0 (length s) s

-- The result fills a buffer of 128 bytes that holds zeros before.
unfoldable pub hash_byte_array : (Hash → List ℕ → List ℕ) → Hash → List ℕ → Outcome (List ℕ)
hash_byte_array hash type bytes = print_into 128 (format_signature (hash type bytes))

-- The bytes of a text in UTF-8, for characters below 2 ^ 16.
abbrev pub utf8 : List ℕ → List ℕ
utf8 [] = []
utf8 (c ∷ s) =
    if ltb c 128
    then c ∷ utf8 s
    else (if ltb c 2048
        then (192 + c / 64) ∷ (128 + c % 64) ∷ utf8 s
        else (224 + c / 4096) ∷ (128 + c / 64 % 64) ∷ (128 + c % 64) ∷ utf8 s)

unfoldable pub get_signature : (Hash → List ℕ → List ℕ) → List ℕ → Outcome (List ℕ)
get_signature hash cert = do
  cert_md5 ← hash_byte_array hash md5 cert
  cert_sha1 ← hash_byte_array hash sha1 cert
  cert_sha256 ← hash_byte_array hash sha256 cert
  print_into 1000 (
      codes "MD5: "
      ++ cert_md5
      ++ 10 ∷ 10 ∷ codes "SHA1: "
      ++ cert_sha1
      ++ 10 ∷ 10 ∷ codes "SHA256: "
      ++ cert_sha256)

-- `strcmp` of two texts without NUL, where it is 0.
unfoldable pub is_same : List ℕ → List ℕ → Bool
is_same [] [] = true
is_same [] (d ∷ t) = false
is_same (c ∷ s) [] = false
is_same (c ∷ s) (d ∷ t) = c == d && is_same s t

unfoldable pub verdict : Bool → List ℕ
verdict true = utf8 (codes "正常（√）")
verdict false = utf8 (codes "异常（×）")

-- What the calls of `strcat` put together.
unfoldable pub report : List ℕ → List ℕ → List ℕ
report expected cert_md5 =
    utf8 (codes "真实签名：")
    ++ expected
    ++ 10 ∷ 10 ∷ utf8 (codes "获取到的签名：")
    ++ cert_md5
    ++ 10 ∷ 10 ∷ utf8 (codes "检查结果：")
    ++ verdict (is_same cert_md5 expected)

-- The buffer of 1000 bytes takes the expected digest, whatever its length.
unfoldable pub check_signature : (Hash → List ℕ → List ℕ) → List ℕ → List ℕ → Outcome (List ℕ)
check_signature hash cert expected = do
  cert_md5 ← hash_byte_array hash md5 cert
  print_into 1000 (report (until_nul expected) cert_md5)
