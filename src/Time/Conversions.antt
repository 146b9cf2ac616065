-- ===== src/Time/Conversions.antt =====
-- Seconds and nanoseconds of a TimeDelta, there and back.
use environment_check.Prelude.{
  ℕ, zero, suc, ◌+◌, ◌-◌, ◌*◌, ◌/◌, ◌%◌, ◌^◌, ◌<◌, ◌≤◌, ◌≡◌, refl, ap, ◌∙◌, sym, Bool, true, false,
  not, leb, arith, ◌==◌, Bool-cases, inl, inr,
}
use environment_check.Outcome.{returns, fails, undefined_behaviour}
use environment_check.Time.{
  ℤ, pos, negsuc, magnitude, is_negative, signed, add_signed, xor, is_int64, int64, plus, minus,
  times, quotient, remainder, from_microseconds, from_milliseconds, from_seconds, to_microseconds,
  to_milliseconds, to_seconds, Timespec, from_timespec, to_timespec,
}

-- The greatest magnitude of an int64_t with a sign.
abbrev pub limit : Bool → ℕ
limit false = 2 ^ 63 - 1
limit true = 2 ^ 63

int64-signed : (s : Bool) (m : ℕ) → m ≤ limit s → int64 (signed s m) ≡ returns (signed s m)
unfolding int64
int64-signed false m h = ground arith
int64-signed true zero h = refl
int64-signed true (suc m) h = ground arith

magnitude-signed : (s : Bool) (m : ℕ) → magnitude (signed s m) ≡ m
magnitude-signed false m = refl
magnitude-signed true zero = refl
magnitude-signed true (suc m) = refl

xor-false : (b : Bool) → xor b false ≡ b
xor-false false = refl
xor-false true = refl

-- The sign of `signed s m` serves as s for a result that is 0 where m is.
signed-is_negative :
    (s : Bool) (m n : ℕ) → (m ≡ 0 → n ≡ 0) → signed (is_negative (signed s m)) n ≡ signed s n
signed-is_negative false m n h = refl
signed-is_negative true zero n h = ap (λ r. pos r) (h refl) ∙ sym (ap (signed true) (h refl))
signed-is_negative true (suc m) n h = refl

module _ (s : Bool) (m k : ℕ) where
  times-signed : m * k ≤ limit s → times (signed s m) (pos k) ≡ returns (signed s (m * k))
  unfolding times
  times-signed h = rw (
    xor-false,
    magnitude-signed s m,
    signed-is_negative s m (m * k) (λ e. grind arith),
    int64-signed s (m * k) h,
  )

  quotient-signed :
      (k == 0) ≡ false
      → (m ≡ 0 → m / k ≡ 0)
      → m / k ≤ limit s
      → quotient (signed s m) (pos k) ≡ returns (signed s (m / k))
  unfolding quotient
  quotient-signed z h0 h = rw (
    z,
    xor-false,
    magnitude-signed s m,
    signed-is_negative s m (m / k) h0,
    int64-signed s (m / k) h,
  )

add_signed-signed :
    (s : Bool) (a b : ℕ)
    → add_signed
        (is_negative (signed s a))
        (magnitude (signed s a))
        (is_negative (signed s b))
        (magnitude (signed s b))
      ≡ signed s (a + b)
add_signed-signed false a b = refl
add_signed-signed true zero zero = refl
add_signed-signed true zero (suc b) = ground arith
add_signed-signed true (suc a) zero = ground arith
add_signed-signed true (suc a) (suc b) = ground arith

plus-signed :
    (s : Bool) (a b : ℕ)
    → a + b ≤ limit s
    → plus (signed s a) (signed s b) ≡ returns (signed s (a + b))
unfolding plus
plus-signed s a b h = ap int64 (add_signed-signed s a b) ∙ int64-signed s (a + b) h

module _ (s : Bool) (m : ℕ) (h : m ≤ limit s) where
  to_seconds-signed : to_seconds (signed s m) ≡ returns (signed s (m / 1000 / 1000 / 1000))
  unfolding to_seconds to_milliseconds to_microseconds
  to_seconds-signed = rw (
    quotient-signed s m 1000 refl (λ e. omega arith) (omega arith),
    quotient-signed s (m / 1000) 1000 refl (λ e. omega arith) (omega arith),
    quotient-signed s (m / 1000 / 1000) 1000 refl (λ e. omega arith) (omega arith),
  )

  remainder-signed : remainder (signed s m) (pos 1000000000) ≡ returns (signed s (m % 1000000000))
  unfolding remainder
  remainder-signed = rw (
    quotient-signed s m 1000000000 refl (λ e. omega arith) (omega arith),
    magnitude-signed s m,
    signed-is_negative s m (m % 1000000000) (λ e. omega arith),
  )

module _ (s : Bool) (q : ℕ) (h : q * 1000 * 1000 * 1000 ≤ limit s) where
  from_seconds-signed : from_seconds (signed s q) ≡ returns (signed s (q * 1000 * 1000 * 1000))
  unfolding from_seconds from_milliseconds from_microseconds
  from_seconds-signed = rw (
    times-signed s q 1000 (omega arith),
    times-signed s (q * 1000) 1000 (omega arith),
    times-signed s (q * 1000 * 1000) 1000 h,
  )

module _ (s : Bool) (m : ℕ) (h : m ≤ limit s) where
  to_timespec-signed :
      to_timespec (signed s m)
      ≡ returns (record {
        tv_sec = signed s (m / 1000 / 1000 / 1000);
        tv_nsec = signed s (m % 1000000000);
      })
  unfolding to_timespec
  to_timespec-signed = rw (to_seconds-signed s m h, remainder-signed s m h)

  whole : m / 1000 / 1000 / 1000 * 1000 * 1000 * 1000 + m % 1000000000 ≡ m
  whole = omega arith

  from_timespec-signed :
      from_timespec
        (record { tv_sec = signed s (m / 1000 / 1000 / 1000); tv_nsec = signed s (m % 1000000000) })
      ≡ returns (signed s m)
  unfolding from_timespec
  from_timespec-signed = rw (
    from_seconds-signed s (m / 1000 / 1000 / 1000) (omega arith),
    plus-signed s (m / 1000 / 1000 / 1000 * 1000 * 1000 * 1000) (m % 1000000000) (omega arith),
    whole,
  )

-- An int64_t in the form the lemmas above read.
int64_magnitude : (x : ℤ) → is_int64 x ≡ true → magnitude x ≤ limit (is_negative x)
int64_magnitude (pos n) h = ground arith
int64_magnitude (negsuc n) h = ground arith

-- For a delta that fits an int64_t, `to_timespec` does not overflow, the nanoseconds of its result
-- are less than 10^9 in magnitude and have the sign of the delta or are 0, and `from_timespec`
-- gives the delta back, without overflow.
pub from_timespec-to_timespec :
    (delta : ℤ)
    → is_int64 delta ≡ true
    → (ts : Timespec) × (to_timespec delta ≡ returns ts)
      × (magnitude ts.tv_nsec < 1000000000)
      × (ts.tv_nsec ≡ signed (is_negative delta) (magnitude ts.tv_nsec))
      × (from_timespec ts ≡ returns delta)
from_timespec-to_timespec (pos n) h = (
  _,
  to_timespec-signed false n (int64_magnitude (pos n) h),
  omega arith,
  refl,
  from_timespec-signed false n (int64_magnitude (pos n) h),
)
from_timespec-to_timespec (negsuc n) h = (
  _,
  to_timespec-signed true (suc n) (int64_magnitude (negsuc n) h),
  rw (magnitude-signed true (suc n % 1000000000)) (omega arith),
  ap (signed true) (sym (magnitude-signed true (suc n % 1000000000))),
  from_timespec-signed true (suc n) (int64_magnitude (negsuc n) h),
)

add_then_subtract :
    (x y : ℤ)
    → let z = add_signed (is_negative x) (magnitude x) (is_negative y) (magnitude y) in
      add_signed (is_negative z) (magnitude z) (not (is_negative x)) (magnitude x) ≡ y
add_then_subtract (pos a) (pos b) = ground arith
add_then_subtract (pos a) (negsuc b) = elim (Bool-cases (leb (suc b) a)) [
  | inl l ↦ let back : a - (a - suc b) ≡ suc b = ground arith in rw (l, back) (ground arith)
  | inr l ↦
      let gap : suc b - a ≡ suc (b - a) = ground arith in
      let back : suc (b - a) + a ≡ suc b = ground arith in rw (l, gap, back)
]
add_then_subtract (negsuc a) (pos b) = elim (Bool-cases (leb b (suc a))) [
  | inl l ↦ elim (Bool-cases (b == suc a)) [
    | inl e ↦ let gap : suc a - b ≡ 0 = ground arith in rw (l, gap) (ground arith)
    | inr e ↦ let gap : suc a - b ≡ suc (a - b) = ground arith in rw (l, gap) (ground arith)
  ]
  | inr l ↦ rw l (ground arith)
]
add_then_subtract (negsuc a) (negsuc b) = ground arith

int64_result : (x z : ℤ) → int64 x ≡ returns z → x ≡ z
unfolding int64
int64_result x z h = elim (Bool-cases (is_int64 x)) [
  | inl l ↦ let shown : returns x ≡ returns z = rw l at h in cc
  | inr l ↦ let shown : fails undefined_behaviour ≡ returns z = rw l at h in cc
]

int64_fits : (x : ℤ) → is_int64 x ≡ true → int64 x ≡ returns x
unfolding int64
int64_fits x h = rw h

-- Where a TimeDelta can be added to a TimePoint without overflow, the TimePoint can be subtracted
-- from the sum without overflow, and the difference is the TimeDelta.
minus-plus :
    (point delta later : ℤ)
    → is_int64 delta ≡ true
    → plus point delta ≡ returns later
    → minus later point ≡ returns delta
unfolding plus minus
minus-plus point delta later fits h =
    let sum = int64_result _ _ h in
    rw (sym sum, add_then_subtract point delta) (int64_fits delta fits)
