-- ===== src/Examples/Times.antt =====
-- Concrete runs of timer/time_delta.h.
use environment_check.Prelude.{◌<◌, ◌≡◌, refl}
use environment_check.Outcome.{returns}
use environment_check.Time.{
  ℤ, negsuc, magnitude, is_negative, signed, Timespec, to_timespec, from_timespec, to_seconds,
  to_milliseconds, to_microseconds, quotient, remainder, int64,
}
use environment_check.Time.Conversions.{from_timespec-to_timespec}

-- A second and a half ago.
abbrev one_and_a_half_ago : ℤ
one_and_a_half_ago = negsuc 1499999999

from_timespec-to_timespec_example :
    (ts : Timespec) × (to_timespec one_and_a_half_ago ≡ returns ts)
    × (magnitude ts.tv_nsec < 1000000000)
    × (ts.tv_nsec ≡ signed (is_negative one_and_a_half_ago) (magnitude ts.tv_nsec))
    × (from_timespec ts ≡ returns one_and_a_half_ago)
from_timespec-to_timespec_example = from_timespec-to_timespec one_and_a_half_ago refl

half_second_ago :
    to_timespec one_and_a_half_ago
    ≡ returns (record { tv_sec = negsuc 0; tv_nsec = negsuc 499999999 })
unfolding to_timespec to_seconds to_milliseconds to_microseconds quotient remainder int64
half_second_ago = refl
