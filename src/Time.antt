-- ===== src/Time.antt =====
-- app/src/main/cpp/timer/time_delta.h, time_point.h and time_point.cc. An int64_t is an integer
-- whose range is checked where the code computes one, since overflow is undefined behaviour.
pub mod Conversions
use environment_check.Prelude.{
  ℕ, zero, suc, ◌+◌, ◌-◌, ◌*◌, ◌/◌, ◌%◌, ◌^◌, Option, none, some, Bool, true, false, not, ◌==◌, ltb,
  leb, if◌then◌else◌,
}
use environment_check.Outcome.{Outcome, returns, fails, undefined_behaviour, ◌>>=◌, ◌>>◌}

-- `negsuc n` is -(n + 1).
pub data ℤ : Type 0 where
  pos : ℕ → ℤ
  negsuc : ℕ → ℤ

abbrev pub magnitude : ℤ → ℕ
magnitude (pos n) = n
magnitude (negsuc n) = suc n

abbrev pub is_negative : ℤ → Bool
is_negative (pos n) = false
is_negative (negsuc n) = true

-- The integer of a sign, true for minus, and a magnitude.
abbrev pub signed : Bool → ℕ → ℤ
signed false n = pos n
signed true zero = pos 0
signed true (suc n) = negsuc n

abbrev pub xor : Bool → Bool → Bool
xor false b = b
xor true b = not b

-- The sum of a and b, or their difference, the sign of the greater one.
abbrev pub add_signed : Bool → ℕ → Bool → ℕ → ℤ
add_signed s a t b =
    if xor s t then (if leb b a then signed s (a - b) else signed t (b - a)) else signed s (a + b)

abbrev pub is_int64 : ℤ → Bool
is_int64 (pos n) = ltb n (2 ^ 63)
is_int64 (negsuc n) = ltb n (2 ^ 63)

unfoldable pub int64 : ℤ → Outcome ℤ
int64 x = if is_int64 x then returns x else fails undefined_behaviour

unfoldable pub plus : ℤ → ℤ → Outcome ℤ
plus x y = int64 (add_signed (is_negative x) (magnitude x) (is_negative y) (magnitude y))

unfoldable pub minus : ℤ → ℤ → Outcome ℤ
minus x y = int64 (add_signed (is_negative x) (magnitude x) (not (is_negative y)) (magnitude y))

unfoldable pub times : ℤ → ℤ → Outcome ℤ
times x y = int64 (signed (xor (is_negative x) (is_negative y)) (magnitude x * magnitude y))

-- Division towards zero, and its remainder, which has the sign of the dividend.
unfoldable pub quotient : ℤ → ℤ → Outcome ℤ
quotient x y =
    if magnitude y == 0
    then fails undefined_behaviour
    else int64 (signed (xor (is_negative x) (is_negative y)) (magnitude x / magnitude y))

unfoldable pub remainder : ℤ → ℤ → Outcome ℤ
remainder x y = do q ← quotient x y; returns (signed (is_negative x) (magnitude x % magnitude y))

-- A TimeDelta is its nanoseconds.
unfoldable pub from_microseconds : ℤ → Outcome ℤ
from_microseconds micros = times micros (pos 1000)

unfoldable pub from_milliseconds : ℤ → Outcome ℤ
from_milliseconds millis = do micros ← times millis (pos 1000); from_microseconds micros

unfoldable pub from_seconds : ℤ → Outcome ℤ
from_seconds seconds = do millis ← times seconds (pos 1000); from_milliseconds millis

unfoldable pub to_microseconds : ℤ → Outcome ℤ
to_microseconds delta = quotient delta (pos 1000)

unfoldable pub to_milliseconds : ℤ → Outcome ℤ
to_milliseconds delta = do micros ← to_microseconds delta; quotient micros (pos 1000)

unfoldable pub to_seconds : ℤ → Outcome ℤ
to_seconds delta = do millis ← to_milliseconds delta; quotient millis (pos 1000)

pub record Timespec : Type 0 where
  pub tv_sec : ℤ
  pub tv_nsec : ℤ

unfoldable pub from_timespec : Timespec → Outcome ℤ
from_timespec ts = do seconds ← from_seconds ts.tv_sec; plus seconds ts.tv_nsec

-- `time_t` has 64 bits on the 64-bit targets.
unfoldable pub to_timespec : ℤ → Outcome Timespec
to_timespec delta = do
  seconds ← to_seconds delta
  nanos ← remainder delta (pos 1000000000)
  returns (record { tv_sec = seconds; tv_nsec = nanos })
