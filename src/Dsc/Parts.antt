-- ===== src/Dsc/Parts.antt =====
-- xoz/dsc/descriptor.cpp: `write_content_parts` and `read_content_parts`.
use xoz.Base.{
  ℕ, zero, suc, ◌+◌, ◌*◌, ◌/◌, ◌%◌, ◌^◌, bit_or, Bool, true, false, leb, ltb, if◌then◌else◌, List,
  [], ◌∷◌, length, Result, ok, would_end_up_inconsistent, require, assert, ◌>>=◌, ◌>>◌,
}
use xoz.Dsc.{ContentPart}
use xoz.Io.Stream.{Writer, write_u16, read_u16}
use xoz.Mem.Endian.{Host}
use xoz.Mem.Ints.{assert_integral_cast, read_bits, write_bits}
use xoz.Segment.{Segment, make_segment}
use xoz.Segment.Write.{write_struct_into as write_segment}
use xoz.Segment.Read.{any_end, no_len, flag, read_struct_from as read_segment}

-- The stream that is written, and the sum of what was.
pub record Put : Type 0 where
  pub io : Writer
  pub checksum : ℕ

unfoldable pub put_word : Host → ℕ → Put → Result Put
put_word host x p = do
  io ← write_u16 host x p.io
  ok (record { io = io; checksum = (p.checksum + x) % 2 ^ 32 })

-- The bytes ahead, and the sum of what was read.
pub record Got : Type 0 where
  pub input : List ℕ
  pub checksum : ℕ

unfoldable pub take_word : Host → Got → Result (ℕ × Got)
take_word host g = do
  (x, input) ← read_u16 host g.input
  ok (x, record { input = input; checksum = (g.checksum + x) % 2 ^ 32 })

unfoldable pub size_field : ContentPart → Bool → ℕ
size_field part large = write_bits (write_bits 0 (if large then 1 else 0) 0x8000) part.csize 0x7fff

unfoldable pub put_size : Host → ContentPart → Put → Result Put
unfolding size_field put_word
put_size host part p =
    if ltb part.csize (2 ^ 15) then put_word host (size_field part false) p else (do
      require (ltb part.csize 0x80000000) would_end_up_inconsistent
      hi ← assert_integral_cast 16 (part.csize / 2 ^ 15)
      p ← put_word host (size_field part true) p
      put_word host (write_bits 0 hi 0xffff) p)

unfoldable pub put_segment : Host → Segment → Put → Result Put
put_segment host segm p = do
  (io, n) ← write_segment host segm p.io
  ok (record { io = io; checksum = (p.checksum + n) % 2 ^ 32 })

unfoldable pub put_parts : Host → List ContentPart → ℕ → Put → Result Put
unfolding put_size put_segment
put_parts host parts zero p = ok p
put_parts host [] (suc cparts_cnt) p = ok p
put_parts host (part ∷ parts) (suc cparts_cnt) p = do
  p ← put_size host part p
  p ← put_segment host part.segm p
  put_parts host parts cparts_cnt p

unfoldable pub write_content_parts : Host → List ContentPart → ℕ → Writer → Result Put
unfolding put_parts
write_content_parts host parts cparts_cnt io = do
  assert (ltb 0 cparts_cnt)
  assert (leb cparts_cnt (length parts))
  put_parts host parts cparts_cnt (record { io = io; checksum = 0 })

-- The size of a part. Its high digits are in a field of their own if it is large.
unfoldable pub take_size : Host → Got → Result (ℕ × Got)
unfolding take_word
take_size host g = do
  (sizefield, g) ← take_word host g
  let lo_csize = read_bits sizefield 0x7fff
  if flag sizefield 0x8000
      then (do
        (largefield, g) ← take_word host g
        ok (bit_or (read_bits largefield 0xffff * 2 ^ 15 % 2 ^ 32) lo_csize, g))
      else ok (bit_or 0 lo_csize, g)

unfoldable pub take_segment : Host → ℕ → Got → Result (Segment × Got)
take_segment host blk_sz_order g = do
  (segm, input, n) ← read_segment host (make_segment blk_sz_order) any_end no_len g.input
  ok (segm, record { input = input; checksum = (g.checksum + n) % 2 ^ 32 })

unfoldable pub take_parts : Host → ℕ → ℕ → Got → Result (List ContentPart × Got)
unfolding take_size take_segment
take_parts host blk_sz_order zero g = ok ([], g)
take_parts host blk_sz_order (suc cnt) g = do
  (csize, g) ← take_size host g
  (segm, g) ← take_segment host blk_sz_order g
  (parts, g) ← take_parts host blk_sz_order cnt g
  ok (record { pending = false; future_csize = 0; csize = csize; segm = segm } ∷ parts, g)

unfoldable pub read_content_parts : Host → ℕ → ℕ → List ℕ → Result (List ContentPart × Got)
unfolding take_parts
read_content_parts host blk_sz_order cnt input =
    take_parts host blk_sz_order cnt (record { input = input; checksum = 0 })
