-- ===== src/Mem/Endian/Laws.antt =====
-- The bytes on disk do not depend on the host.
use xoz.Base.{ℕ, ◌+◌, ◌*◌, ◌/◌, ◌%◌, ◌^◌, ◌<◌, ◌≡◌, refl, arith, [], ◌∷◌}
use xoz.Base.Bits.{bit_or_high}
use xoz.Mem.Endian.{Host, little, big, u16_byteswap, write_u16_to_le, read_u16_from_le}

-- The two bytes change places.
pub u16_byteswap_lem : (x : ℕ) → x < 2 ^ 16 → u16_byteswap x ≡ x % 256 * 256 + x / 256
unfolding u16_byteswap
u16_byteswap_lem x h = omega (arith, bit_or_high 8 (x / 2 ^ 8) x (omega arith))

-- Swapping twice gives the number back.
pub u16_byteswap_twice : (x : ℕ) → x < 2 ^ 16 → u16_byteswap (u16_byteswap x) ≡ x
u16_byteswap_twice x h =
    let e = u16_byteswap_lem x h in
    rw e (omega (arith, u16_byteswap_lem (x % 256 * 256 + x / 256) (omega arith)))

-- On either host a 16-bit number is stored low byte first.
pub write_u16_to_le_lem :
    (host : Host) (x : ℕ) → x < 2 ^ 16 → write_u16_to_le host x ≡ (x % 256) ∷ (x / 256) ∷ []
unfolding write_u16_to_le
write_u16_to_le_lem little x h = refl
write_u16_to_le_lem big x h = ground (arith, u16_byteswap_lem x h)

-- On either host two bytes are read as the number with its low byte first.
pub read_u16_from_le_lem :
    (host : Host) (b0 b1 : ℕ) → b0 < 256 → b1 < 256 → read_u16_from_le host b0 b1 ≡ b0 + b1 * 256
unfolding read_u16_from_le
read_u16_from_le_lem little b0 b1 h k = refl
read_u16_from_le_lem big b0 b1 h k = omega (arith, u16_byteswap_lem (b0 * 256 + b1) (omega arith))
