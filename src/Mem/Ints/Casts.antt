-- ===== src/Mem/Ints/Casts.antt =====
-- Casts of numbers that fit.
use xoz.Base.{ℕ, ◌^◌, ◌<◌, ◌==◌, ◌≡◌, refl, arith, true, ok}
use xoz.Mem.Ints.{assert_integral_cast}
use native.Mathlib.Nat.{mod-eq_of_lt}

pub assert_integral_cast-fits : (w n : ℕ) → n < 2 ^ w → assert_integral_cast w n ≡ ok n
unfolding assert_integral_cast
assert_integral_cast-fits w n h =
    let same : (n == n) ≡ true = ground arith in rw (mod-eq_of_lt h, same) refl
