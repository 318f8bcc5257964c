-- ===== src/Mem/Ints/Counts.antt =====
-- The count of ones that the code reads off a word.
use xoz.Base.{ℕ, zero, suc, ◌/◌, ◌≡◌, refl, arith}
use xoz.Base.Binary.{ones}
use xoz.Mem.Ints.{ones_below, u16_count_bits}

same_count : (n x : ℕ) → ones_below n x ≡ ones n x
unfolding ones_below
same_count zero x = refl
same_count (suc n) x = omega (arith, same_count n (x / 2))

pub u16_count_bits-ones : (x : ℕ) → u16_count_bits x ≡ ones 16 x
unfolding u16_count_bits
u16_count_bits-ones x = same_count 16 x
