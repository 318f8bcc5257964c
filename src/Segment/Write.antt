-- ===== src/Segment/Write.antt =====
-- xoz/segm/segment.cpp: `Segment::write_struct_into`, with the masks of xoz/segm/internals.h.
use xoz.Base.{
  ℕ, ◌+◌, ◌-◌, ◌/◌, ◌%◌, ◌^◌, bit_and, not, ◌&&◌, ◌||◌, leb, ltb, ◌==◌, if◌then◌else◌, List, [],
  ◌∷◌, length, take, Result, ok, not_enough_room, require, assert, ◌>>=◌, ◌>>◌,
}
use xoz.Extent.{Extent, Distance, is_suballoc, blk_nr, blk_cnt, empty_extent, distance_in_blks}
use xoz.Io.Stream.{Writer, writeall, write_u16}
use xoz.Mem.Checksum.{fold_inet_checksum, inet_checksum_bytes}
use xoz.Mem.Endian.{Host, u16_to_le}
use xoz.Mem.Ints.{write_bits}
use xoz.Segment.{
  Segment, has_end_of_segment, fail_if_bad_inline_sz, even_part, calc_struct_footprint_size,
}

-- The loop's variables. `remain_cnt`, which only counts the rounds, is left out.
pub record WriteState : Type 0 where
  pub io : Writer
  pub remain_sz : ℕ
  pub checksum : ℕ
  pub prev : Extent

-- `assert_write_room_and_consume`
unfoldable pub consume_room : ℕ → WriteState → Result WriteState
consume_room requested_sz st = do
  assert (leb requested_sz st.remain_sz)
  ok (record st { remain_sz = st.remain_sz - requested_sz })

-- `io.write_u16_to_le(x); checksum += x;`
unfoldable pub put_u16 : Host → ℕ → WriteState → Result WriteState
put_u16 host x st = do
  io ← write_u16 host x st.io
  ok (record st { io = io; checksum = (st.checksum + x) % 2 ^ 32 })

-- The count of a run of 1 to 15 blocks, which fits the header; 0 for any other extent.
unfoldable pub smallcnt_of : Extent → ℕ
smallcnt_of e =
    if not (is_suballoc e) && leb (blk_cnt e) 15 && ltb 0 (blk_cnt e) then blk_cnt e else 0

-- The header's flag and small count.
unfoldable pub header_start : Extent → ℕ
header_start e =
    write_bits (write_bits 0 (if is_suballoc e then 1 else 0) 0x8000) (smallcnt_of e) 0x7800

unfoldable pub near_header : Extent → Distance → ℕ
near_header e dist =
    write_bits (write_bits (write_bits (header_start e) 1 0x0400) dist.gap 0x01ff)
      (if dist.is_backwards then 1 else 0) 0x0200

unfoldable pub far_header : Extent → ℕ
far_header e = write_bits (header_start e) (bit_and (blk_nr e / 2 ^ 16) 0x03ff) 0x03ff

unfoldable pub write_nr : Host → Extent → Distance → WriteState → Result WriteState
write_nr host e dist st =
    if dist.is_near then (do st ← consume_room 2 st; put_u16 host (near_header e dist) st) else (do
      st ← consume_room 4 st
      st ← put_u16 host (far_header e) st
      put_u16 host (bit_and (blk_nr e) 0xffff) st)

-- The count or bitmap, where the header does not hold it.
unfoldable pub write_cnt : Host → Extent → WriteState → Result WriteState
write_cnt host e st =
    if is_suballoc e || smallcnt_of e == 0
    then (do st ← consume_room 2 st; put_u16 host (u16_to_le host (blk_cnt e)) st)
    else ok st

unfoldable pub write_ext : Host → Extent → WriteState → Result WriteState
write_ext host e st = do
  assert (leb 2 st.remain_sz)
  dist ← distance_in_blks st.prev e
  st ← write_nr host e dist st
  assert (not (is_suballoc e && not (smallcnt_of e == 0)))
  st ← write_cnt host e st
  ok (record st { prev = e })

unfoldable pub write_exts : Host → List Extent → WriteState → Result WriteState
write_exts host [] st = ok st
write_exts host (e ∷ es) st = do st ← write_ext host e st; write_exts host es st

-- The last byte where the size is odd, and else 0.
abbrev pub last_byte : List ℕ → ℕ
last_byte [] = 0
last_byte (b ∷ []) = b
last_byte (b ∷ c ∷ bytes) = last_byte (c ∷ bytes)

unfoldable pub inline_header : List ℕ → ℕ
inline_header raw =
    write_bits (write_bits (write_bits (write_bits 0 1 0x8000) 1 0x4000) (length raw) 0x3f00)
      (if length raw % 2 == 1 then last_byte raw else 0) 0x00ff

unfoldable pub write_inline : Host → Segment → WriteState → Result WriteState
write_inline host s st = do
  fail_if_bad_inline_sz s
  let inline_sz = even_part (length s.raw)
  st ← consume_room (2 + inline_sz) st
  st ← put_u16 host (inline_header s.raw) st
  if ltb 0 inline_sz
      then (do
        io ← writeall (take inline_sz s.raw) st.io
        ok (record st {
          io = io;
          checksum = (st.checksum + inet_checksum_bytes host (take inline_sz s.raw)) % 2 ^ 32;
        }))
      else ok st

-- The new stream, and the number to add to what `checksum_p` points to.
unfoldable pub write_struct_into : Host → Segment → Writer → Result (Writer × ℕ)
write_struct_into host s io = do
  remain_sz ← calc_struct_footprint_size s
  require (leb remain_sz io.room) not_enough_room
  st ←
      write_exts host s.arr
        (record { io = io; remain_sz = remain_sz; checksum = 0; prev = empty_extent })
  st ← (if has_end_of_segment s then write_inline host s st else ok st)
  assert (st.remain_sz == 0)
  ok (st.io, fold_inet_checksum st.checksum)
