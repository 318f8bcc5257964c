-- ===== src/Mem/Endian.antt =====
-- xoz/mem/endianness.h: byte swaps, and 16-bit numbers in memory. The byte order of the host,
-- `std::endian::native`, is a parameter.
pub mod Laws
pub mod Words
use xoz.Base.{ℕ, ◌+◌, ◌*◌, ◌/◌, ◌%◌, ◌^◌, bit_and, bit_or, List, [], ◌∷◌, Option, some, none}

pub data Host : Type 0 where
  little big : Host

-- `uint16_t((x >> 8) | (x << 8))`
unfoldable pub u16_byteswap : ℕ → ℕ
u16_byteswap x = bit_or (x / 2 ^ 8) (x * 2 ^ 8) % 2 ^ 16

unfoldable pub u32_byteswap : ℕ → ℕ
u32_byteswap x =
    bit_or
      (bit_or (bit_or (bit_and (x / 2 ^ 24) 0x000000ff) (bit_and (x * 2 ^ 8 % 2 ^ 32) 0x00ff0000))
        (bit_and (x / 2 ^ 8) 0x0000ff00))
      (bit_and (x * 2 ^ 24 % 2 ^ 32) 0xff000000)

-- Converting from little endian is the same function.
unfoldable pub u16_to_le : Host → ℕ → ℕ
unfolding u16_byteswap
u16_to_le little x = x
u16_to_le big x = u16_byteswap x

-- What a store of a uint16_t leaves in memory, and what a load makes of it.
unfoldable pub store_u16 : Host → ℕ → List ℕ
store_u16 little x = (x % 256) ∷ (x / 256) ∷ []
store_u16 big x = (x / 256) ∷ (x % 256) ∷ []

unfoldable pub load_u16 : Host → ℕ → ℕ → ℕ
load_u16 little b0 b1 = b0 + b1 * 256
load_u16 big b0 b1 = b0 * 256 + b1

-- `*reinterpret_cast<uint16_t*>(*dataptr) = u16_to_le(x)`: the bytes that are written.
unfoldable pub write_u16_to_le : Host → ℕ → List ℕ
unfolding u16_to_le store_u16
write_u16_to_le host x = store_u16 host (u16_to_le host x)

-- The number read from the two bytes at the pointer.
unfoldable pub read_u16_from_le : Host → ℕ → ℕ → ℕ
unfolding u16_to_le load_u16
read_u16_from_le host b0 b1 = u16_to_le host (load_u16 host b0 b1)

unfoldable pub u32_to_le : Host → ℕ → ℕ
unfolding u32_byteswap
u32_to_le little x = x
u32_to_le big x = u32_byteswap x

-- What a store of a uint32_t leaves in memory, and what a load makes of it.
unfoldable pub store_u32 : Host → ℕ → List ℕ
store_u32 little x = (x % 256) ∷ (x / 2 ^ 8 % 256) ∷ (x / 2 ^ 16 % 256) ∷ (x / 2 ^ 24) ∷ []
store_u32 big x = (x / 2 ^ 24) ∷ (x / 2 ^ 16 % 256) ∷ (x / 2 ^ 8 % 256) ∷ (x % 256) ∷ []

unfoldable pub load_u32 : Host → ℕ → ℕ → ℕ → ℕ → ℕ
load_u32 little b0 b1 b2 b3 = b0 + b1 * 2 ^ 8 + b2 * 2 ^ 16 + b3 * 2 ^ 24
load_u32 big b0 b1 b2 b3 = b0 * 2 ^ 24 + b1 * 2 ^ 16 + b2 * 2 ^ 8 + b3
