-- ===== src/CheckEnv/Sign/Digests.antt =====
-- The layout of a digest, and the room for the report.
use environment_check.Prelude.{
  ℕ, ◌+◌, ◌-◌, ◌*◌, ◌%◌, ◌<◌, ◌≡◌, refl, sym, ap, ◌∙◌, Bool, true, false, List, [], ◌∷◌, ◌==◌,
  length, length-append, if◌then◌else◌, ltb, until_nul, arith, inl, inr, and_both, Bool-cases,
  ==_iff,
}
use environment_check.Outcome.{returns, fails, undefined_behaviour}
use environment_check.CheckEnv.System.{print_into}
use environment_check.CheckEnv.Sign.{
  Hash, md5, to_upper, format_from, format_signature, hash_byte_array, is_same, verdict, report,
  check_signature,
}

abbrev pub flat : List (ℕ × ℕ) → List ℕ
flat [] = []
flat ((a, b) ∷ ps) = a ∷ b ∷ flat ps

-- Pairs of capitals with colons between them.
abbrev pub with_colons : List (ℕ × ℕ) → List ℕ
with_colons [] = []
with_colons ((a, b) ∷ []) = to_upper a ∷ to_upper b ∷ []
with_colons ((a, b) ∷ p ∷ ps) = to_upper a ∷ to_upper b ∷ 58 ∷ with_colons (p ∷ ps)

first_of_pair : (k : ℕ) → (2 * k % 2 == 1) ≡ false
first_of_pair k = ground arith

second_of_pair : (k : ℕ) → ((2 * k + 1) % 2 == 1) ≡ true
second_of_pair k = ground arith

at_end : (k n : ℕ) → 2 * k + 2 ≡ n → (2 * k + 1 == n - 1) ≡ true
at_end k n h = ground arith

before_end : (k n : ℕ) → 2 * k + 2 < n → (2 * k + 1 == n - 1) ≡ false
before_end k n h = ground arith

format_from-flat :
    (k n : ℕ) (ps : List (ℕ × ℕ))
    → 2 * k + length (flat ps) ≡ n
    → format_from (2 * k) n (flat ps) ≡ with_colons ps
unfolding format_from
format_from-flat k n [] h = refl
format_from-flat k n ((a, b) ∷ []) h = rw (first_of_pair k, second_of_pair k, at_end k n h) refl
format_from-flat k n ((a, b) ∷ (c, d) ∷ ps) h =
    rw (first_of_pair k, second_of_pair k, before_end k n (omega arith))
      (ap (λ r. to_upper a ∷ to_upper b ∷ 58 ∷ r)
        (ap (λ i. format_from i n (flat ((c, d) ∷ ps))) (omega arith)
          ∙ format_from-flat (k + 1) n ((c, d) ∷ ps) (omega arith)))

-- A digest of pairs of digits is written in capitals, with a colon between two pairs.
pub format_signature-flat : (ps : List (ℕ × ℕ)) → format_signature (flat ps) ≡ with_colons ps
unfolding format_signature
format_signature-flat ps = format_from-flat 0 (length (flat ps)) ps (omega arith)

length-with_colons : (ps : List (ℕ × ℕ)) → length (with_colons ps) ≡ 3 * length ps - 1
length-with_colons [] = refl
length-with_colons ((a, b) ∷ []) = refl
length-with_colons ((a, b) ∷ (c, d) ∷ ps) = omega (arith, length-with_colons ((c, d) ∷ ps))

room : (n l : ℕ) → l ≡ 3 * n - 1 → ltb l 128 ≡ ltb n 43
room n l h = ground arith

module _ (hash : Hash → List ℕ → List ℕ) (type : Hash) (cert : List ℕ) (ps : List (ℕ × ℕ)) where
  -- A digest of n bytes, which the hash library writes as n pairs of digits, is laid out with
  -- capitals and a colon between two pairs, in 3 n - 1 characters. It fits into its buffer exactly
  -- if n is at most 42.
  pub hash_byte_array-pairs :
      hash type cert ≡ flat ps
      → hash_byte_array hash type cert
        ≡ (if ltb (length ps) 43 then returns (with_colons ps) else fails undefined_behaviour)
  unfolding hash_byte_array print_into
  hash_byte_array-pairs h = rw h (
      rw (format_signature-flat ps) (
        ap (λ b. if b then returns (with_colons ps) else fails undefined_behaviour)
          (room (length ps) (length (with_colons ps)) (length-with_colons ps))))

is_same→eq : (s t : List ℕ) → is_same s t ≡ true → s ≡ t
unfolding is_same
is_same→eq [] [] h = refl
is_same→eq [] (d ∷ t) h = cc
is_same→eq (c ∷ s) [] h = cc
is_same→eq (c ∷ s) (d ∷ t) h =
    let (e, r) = and_both (c == d) (is_same s t) h in
    ap (λ x. x ∷ s) ((==_iff c d).0 e) ∙ ap (λ u. d ∷ u) (is_same→eq s t r)

length-verdict : (b : Bool) → length (verdict b) ≡ (if b then 15 else 14)
unfolding verdict
length-verdict true = refl
length-verdict false = refl

length-report :
    (e m : List ℕ) → length (report e m) ≡ 55 + length e + length m + length (verdict (is_same m e))
unfolding report
length-report e m = simp length-append (omega arith)

same_digest : (e r : ℕ) → e ≡ 47 → r ≡ 55 + e + 47 + 15 → ltb r 1000 ≡ ltb e 884
same_digest e r h k = ground arith

other_digest : (e r : ℕ) → r ≡ 55 + e + 47 + 14 → ltb r 1000 ≡ ltb e 884
other_digest e r k = ground arith

report_room : (e m : List ℕ) → length m ≡ 47 → ltb (length (report e m)) 1000 ≡ ltb (length e) 884
report_room e m h = elim (Bool-cases (is_same m e)) [
  | inl s ↦
      same_digest (length e) (length (report e m)) (ap length (sym (is_same→eq m e s)) ∙ h)
        (long 15 (length-verdict (is_same m e) ∙ ap (λ b. if b then 15 else 14) s))
  | inr s ↦
      other_digest (length e) (length (report e m))
        (long 14 (length-verdict (is_same m e) ∙ ap (λ b. if b then 15 else 14) s))
]
  where
    long :
        (n : ℕ) → length (verdict (is_same m e)) ≡ n → length (report e m) ≡ 55 + length e + 47 + n
    long n v = omega (arith, length-report e m, h, v)

-- The digest has 16 bytes, as MD5 has. The report of checkSignature fits into its buffer exactly
-- if the expected text has at most 883 bytes; with a longer text `strcat` writes past the buffer.
-- The report then ends with the verdict that the two digests are the same, or that they are not.
pub check_signature-room :
    (hash : Hash → List ℕ → List ℕ) (cert expected : List ℕ) (ps : List (ℕ × ℕ))
    → hash md5 cert ≡ flat ps
    → length ps ≡ 16
    → check_signature hash cert expected ≡ (
        if ltb (length (until_nul expected)) 884
        then returns (report (until_nul expected) (with_colons ps))
        else fails undefined_behaviour)
unfolding check_signature print_into
check_signature-room hash cert expected ps h l =
    rw (hash_byte_array-pairs hash md5 cert ps h, l)
      (ap
        (λ b.
          if b
          then returns (report (until_nul expected) (with_colons ps))
          else fails undefined_behaviour)
        (report_room (until_nul expected) (with_colons ps)
          (omega (arith, length-with_colons ps, l))))
