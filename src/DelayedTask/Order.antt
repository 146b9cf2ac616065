-- ===== src/DelayedTask/Order.antt =====
-- The order of `DelayedTask::operator>`.
use environment_check.Prelude.{◌≡◌, true, false, arith}
use environment_check.DelayedTask.{DelayedTask, ◌>◌}

-- "not greater" is a total preorder.
pub not_greater_trans : (a b c : DelayedTask) → (a > b) ≡ false → (b > c) ≡ false → (a > c) ≡ false
unfolding ◌>◌
not_greater_trans a b c p q = ground arith

pub not_greater_of_greater : (a b : DelayedTask) → (a > b) ≡ true → (b > a) ≡ false
unfolding ◌>◌
not_greater_of_greater a b p = ground arith

pub not_greater_refl : (a : DelayedTask) → (a > a) ≡ false
unfolding ◌>◌
not_greater_refl a = ground arith
