-- ===== src/Mem/Endian/Words.antt =====
-- A 32-bit number has the same bytes on disk whatever the host.
use xoz.Base.{ℕ, ◌+◌, ◌*◌, ◌/◌, ◌%◌, ◌^◌, ◌<◌, ◌≡◌, refl, arith, bit_and, bit_or, [], ◌∷◌}
use xoz.Base.Bits.{bit_and_mod, bit_and_field, bit_or_high, bit_or_field}
use xoz.Mem.Endian.{Host, little, big, u32_byteswap, u32_to_le, store_u32, load_u32}

bit_or_three :
    (b lo c : ℕ)
    → c < 256
    → lo < 256
    → bit_or (b * 2 ^ 16 + lo) (c * 2 ^ 8) ≡ b * 2 ^ 16 + c * 2 ^ 8 + lo
bit_or_three b lo c h k =
    let e : b * 2 ^ 8 * 2 ^ 8 ≡ b * 2 ^ 16 = omega arith in rw e at (bit_or_field 8 8 b lo c h k)

-- The four bytes in the opposite order.
u32_byteswap_lem :
    (x : ℕ)
    → x < 2 ^ 32
    → u32_byteswap x
      ≡ x % 256 * 2 ^ 24 + x / 2 ^ 8 % 256 * 2 ^ 16 + x / 2 ^ 16 % 256 * 2 ^ 8 + x / 2 ^ 24
unfolding u32_byteswap
u32_byteswap_lem x h =
    let b : ℕ = x / 2 ^ 8 % 256 in
    let c : ℕ = x / 2 ^ 16 % 256 in
    let d : ℕ = x % 256 in
    let lo : ℕ = x / 2 ^ 24 in
    let first : bit_and lo 0x000000ff ≡ lo = omega (arith, bit_and_mod 8 lo, h) in
    let second : bit_and (x * 2 ^ 8 % 2 ^ 32) 0x00ff0000 ≡ b * 2 ^ 16 =
      omega (arith, bit_and_field 16 8 (x * 2 ^ 8 % 2 ^ 32)) in
    let third : bit_and (x / 2 ^ 8) 0x0000ff00 ≡ c * 2 ^ 8 =
      omega (arith, bit_and_field 8 8 (x / 2 ^ 8)) in
    let fourth : bit_and (x * 2 ^ 24 % 2 ^ 32) 0xff000000 ≡ d * 2 ^ 24 =
      omega (arith, bit_and_field 24 8 (x * 2 ^ 24 % 2 ^ 32)) in
    let two : bit_or lo (b * 2 ^ 16) ≡ b * 2 ^ 16 + lo = bit_or_high 16 lo b (omega (arith, h)) in
    let three : bit_or (b * 2 ^ 16 + lo) (c * 2 ^ 8) ≡ b * 2 ^ 16 + c * 2 ^ 8 + lo =
      bit_or_three b lo c (omega arith) (omega (arith, h)) in
    let four : bit_or (b * 2 ^ 16 + c * 2 ^ 8 + lo) (d * 2 ^ 24)
        ≡ d * 2 ^ 24 + (b * 2 ^ 16 + c * 2 ^ 8 + lo) =
      bit_or_high 24 (b * 2 ^ 16 + c * 2 ^ 8 + lo) d (omega (arith, h)) in
    rw (first, second, third, fourth, two, three, four) (omega arith)

-- What is stored are the bytes from the lowest on.
pub store_u32-to_le :
    (host : Host) (x : ℕ)
    → x < 2 ^ 32
    → store_u32 host (u32_to_le host x)
      ≡ (x % 256) ∷ (x / 2 ^ 8 % 256) ∷ (x / 2 ^ 16 % 256) ∷ (x / 2 ^ 24) ∷ []
unfolding store_u32 u32_to_le
store_u32-to_le little x h = refl
store_u32-to_le big x h = ground (arith, h, u32_byteswap_lem x h)

-- What is loaded is the number that has these bytes.
pub load_u32-to_le :
    (host : Host) (x : ℕ)
    → x < 2 ^ 32
    → u32_to_le host (load_u32 host (x % 256) (x / 2 ^ 8 % 256) (x / 2 ^ 16 % 256) (x / 2 ^ 24)) ≡ x
unfolding load_u32 u32_to_le
load_u32-to_le little x h = omega arith
load_u32-to_le big x h =
    let y : ℕ =
      x % 256 * 2 ^ 24 + x / 2 ^ 8 % 256 * 2 ^ 16 + x / 2 ^ 16 % 256 * 2 ^ 8 + x / 2 ^ 24 in
    omega (arith, u32_byteswap_lem y (omega (arith, h)), h)
