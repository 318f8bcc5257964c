-- ===== src/Io/Stream.antt =====
-- What the readers and writers of structures use of an `IOBase`: the bytes between the read pointer
-- and the read limit, and the bytes written so far with the room left before the write limit.
pub mod Appends
use xoz.Base.{
  ℕ, ◌-◌, List, [], ◌∷◌, ◌++◌, length, take, drop, leb, if◌then◌else◌, Result, ok, err,
  not_enough_room,
}
use xoz.Mem.Endian.{Host, read_u16_from_le, write_u16_to_le, u32_to_le, store_u32, load_u32}

-- `readall(data, exact_sz)`
unfoldable pub readall : ℕ → List ℕ → Result (List ℕ × List ℕ)
readall exact_sz input =
    if leb exact_sz (length input)
    then ok (take exact_sz input, drop exact_sz input)
    else err not_enough_room

unfoldable pub read_u16 : Host → List ℕ → Result (ℕ × List ℕ)
read_u16 host [] = err not_enough_room
read_u16 host (b0 ∷ []) = err not_enough_room
read_u16 host (b0 ∷ b1 ∷ input) = ok (read_u16_from_le host b0 b1, input)

unfoldable pub read_u32 : Host → List ℕ → Result (ℕ × List ℕ)
read_u32 host (b0 ∷ b1 ∷ b2 ∷ b3 ∷ input) = ok (u32_to_le host (load_u32 host b0 b1 b2 b3), input)
read_u32 host input = err not_enough_room

unfoldable pub read_u8 : List ℕ → Result (ℕ × List ℕ)
read_u8 [] = err not_enough_room
read_u8 (b ∷ input) = ok (b, input)

pub record Writer : Type 0 where
  pub written : List ℕ
  pub room : ℕ

-- `writeall(data, exact_sz)`
unfoldable pub writeall : List ℕ → Writer → Result Writer
writeall bytes w =
    if leb (length bytes) w.room
    then ok (record { written = w.written ++ bytes; room = w.room - length bytes })
    else err not_enough_room

unfoldable pub write_u16 : Host → ℕ → Writer → Result Writer
unfolding writeall
write_u16 host x w = writeall (write_u16_to_le host x) w

unfoldable pub write_u32 : Host → ℕ → Writer → Result Writer
unfolding writeall
write_u32 host x w = writeall (store_u32 host (u32_to_le host x)) w

unfoldable pub write_u8 : ℕ → Writer → Result Writer
unfolding writeall
write_u8 x w = writeall (x ∷ []) w
