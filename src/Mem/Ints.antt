-- ===== src/Mem/Ints.antt =====
-- xoz/mem/integer_ops.h and xoz/mem/casts.h: overflow tests, checked casts, bit fields, bit counts.
-- An unsigned integer of w bits is a number below 2 ^ w, and its operations wrap by `% 2 ^ w`.
pub mod Fields
pub mod Counts
pub mod Casts
use xoz.Base.{
  ℕ, zero, suc, ◌+◌, ◌-◌, ◌*◌, ◌/◌, ◌%◌, ◌^◌, bit_and, bit_or, Bool, not, leb, ◌==◌, if◌then◌else◌,
  Result, ok, assert, ◌>>◌,
}

-- `UInt tmp = a + b; return tmp >= a`, for an unsigned type of w bits.
unfoldable pub is_unsigned_int_add_ok : ℕ → ℕ → ℕ → Bool
is_unsigned_int_add_ok w a b = leb a ((a + b) % 2 ^ w)

unfoldable pub is_u16_add_ok : ℕ → ℕ → Bool
unfolding is_unsigned_int_add_ok
is_u16_add_ok = is_unsigned_int_add_ok 16

unfoldable pub is_u32_add_ok : ℕ → ℕ → Bool
unfolding is_unsigned_int_add_ok
is_u32_add_ok = is_unsigned_int_add_ok 32

unfoldable pub is_u64_add_ok : ℕ → ℕ → Bool
unfolding is_unsigned_int_add_ok
is_u64_add_ok = is_unsigned_int_add_ok 64

unfoldable pub assert_add_nowrap : ℕ → ℕ → ℕ → Result ℕ
assert_add_nowrap w a b = do assert (is_unsigned_int_add_ok w a b); ok ((a + b) % 2 ^ w)

unfoldable pub assert_sub_nonneg : ℕ → ℕ → Result ℕ
assert_sub_nonneg a b = do assert (leb b a); ok (a - b)

-- The cast between unsigned types: the value is cut to w bits, and a debug build asserts that
-- nothing was lost.
unfoldable pub assert_integral_cast : ℕ → ℕ → Result ℕ
assert_integral_cast w n = do assert (n % 2 ^ w == n); ok (n % 2 ^ w)

-- `std::countr_zero` of a 16-bit mask, from the lowest digit on.
zeros_below : ℕ → ℕ → ℕ
zeros_below zero m = 0
zeros_below (suc n) m = let rest = suc (zeros_below n (m / 2)) in if m % 2 == 1 then 0 else rest

unfoldable pub countr_zero : ℕ → ℕ
unfolding zeros_below
countr_zero = zeros_below 16

-- `(field & mask) >> shift`. The masks are not zero.
unfoldable pub read_bits : ℕ → ℕ → ℕ
unfolding countr_zero
read_bits field mask = bit_and field mask / 2 ^ countr_zero mask

-- `field |= uint64_t(val << shift) & mask`, for a 16-bit field.
unfoldable pub write_bits : ℕ → ℕ → ℕ → ℕ
unfolding countr_zero
write_bits field val mask =
    bit_or field (bit_and (val * 2 ^ countr_zero mask % 2 ^ 64) mask % 2 ^ 16)

-- The same on 32-bit fields.
unfoldable pub countr_zero_u32 : ℕ → ℕ
unfolding zeros_below
countr_zero_u32 = zeros_below 32

unfoldable pub read_bits_u32 : ℕ → ℕ → ℕ
unfolding countr_zero_u32
read_bits_u32 field mask = bit_and field mask / 2 ^ countr_zero_u32 mask

unfoldable pub write_bits_u32 : ℕ → ℕ → ℕ → ℕ
unfolding countr_zero_u32
write_bits_u32 field val mask =
    bit_or field (bit_and (val * 2 ^ countr_zero_u32 mask % 2 ^ 64) mask % 2 ^ 32)

-- `std::popcount`, for a number of at most n digits.
unfoldable ones_below : ℕ → ℕ → ℕ
ones_below zero x = 0
ones_below (suc n) x = x % 2 + ones_below n (x / 2)

unfoldable pub u16_count_bits : ℕ → ℕ
unfolding ones_below
u16_count_bits = ones_below 16

-- `w - countl_zero(x) - 1`, cut to 8 bits: the place of the highest one, and 255 for no ones.
digits_below : ℕ → ℕ → ℕ
digits_below zero x = 0
digits_below (suc n) x = let rest = suc (digits_below n (x / 2)) in if x == 0 then 0 else rest

unfoldable pub u32_log2_floor : ℕ → ℕ
unfolding digits_below
u32_log2_floor x = (digits_below 32 x + 255) % 256
