-- ===== src/Dsc/Write.antt =====
-- xoz/dsc/descriptor.cpp: `Descriptor::write_struct_into`.
use xoz.Base.{
  ℕ, ◌+◌, ◌-◌, ◌/◌, ◌%◌, ◌^◌, true, false, not, ◌&&◌, leb, ltb, ◌==◌, if◌then◌else◌, length, drop,
  Result, ok, not_enough_room, would_end_up_inconsistent, require, assert, ◌>>=◌, ◌>>◌,
}
use xoz.Dsc.{
  Header, Descriptor, Subclass, extended_type_val_threshold, is_id_temporal, does_hdr_isize_fit,
  chk_content_parts_consistency, chk_content_parts_count, chk_dset_type, stores_id,
  chk_hdr_isize_fit_or_fail, count_incompressible_cparts, chk_rw_specifics_on_idata,
  chk_struct_footprint,
}
use xoz.Dsc.Parts.{Put, put_word, write_content_parts}
use xoz.Io.Stream.{Writer, writeall, write_u16, write_u32}
use xoz.Mem.Checksum.{inet_checksum_val, inet_to_u16}
use xoz.Mem.Checksum.Stream.{inet_checksum_io}
use xoz.Mem.Endian.{Host}
use xoz.Mem.Ints.{assert_integral_cast, write_bits, write_bits_u32}

-- The checks before anything is written.
unfoldable pub chk_before_write : Subclass → Descriptor → Result (Unit {0})
chk_before_write subclass dsc = do
  require (dsc.hdr.isize % 2 == 0) would_end_up_inconsistent
  require (does_hdr_isize_fit dsc.hdr.isize) would_end_up_inconsistent
  require (not (dsc.hdr.id == 0)) would_end_up_inconsistent
  chk_content_parts_consistency true dsc.hdr.cparts
  chk_content_parts_count true dsc.hdr dsc.decl_cpart_cnt
  chk_dset_type false subclass.is_descriptor_set dsc.hdr

-- isize is counted in words of two bytes, and its low five digits are here.
unfoldable pub first_field : Header → ℕ → ℕ
first_field hdr cparts_cnt =
    write_bits
      (write_bits
        (write_bits (write_bits 0 (if ltb 0 cparts_cnt then 1 else 0) 0x8000) (hdr.isize / 2)
          0x7c00)
        (if stores_id hdr then 1 else 0) 0x0200)
      (if ltb hdr.type extended_type_val_threshold then hdr.type else extended_type_val_threshold)
      0x01ff

-- The sixth digit of isize, and the id if it is persistent.
unfoldable pub id_field : Header → ℕ
id_field hdr =
    write_bits_u32 (write_bits_u32 0 (if ltb 0 (hdr.isize / 64) then 1 else 0) 0x80000000)
      (if is_id_temporal hdr.id then 0 else hdr.id) 0x7fffffff

unfoldable pub put_id : Host → Header → Put → Result Put
unfolding id_field
put_id host hdr p =
    if stores_id hdr
    then (do
      assert (not (is_id_temporal hdr.id && hdr.isize / 64 == 0))
      io ← write_u32 host (id_field hdr) p.io
      ok (record { io = io; checksum = (p.checksum + inet_checksum_val (id_field hdr)) % 2 ^ 32 }))
    else ok p

unfoldable pub put_content : Host → Header → ℕ → Put → Result Put
put_content host hdr cparts_cnt p =
    if ltb 0 cparts_cnt
    then (do
      n ← assert_integral_cast 16 (cparts_cnt - 1)
      io ← write_u16 host n p.io
      q ← write_content_parts host hdr.cparts cparts_cnt io
      ok (record {
        io = q.io;
        checksum =
            ((p.checksum + inet_checksum_val n) % 2 ^ 32 + inet_checksum_val q.checksum) % 2 ^ 32;
      }))
    else ok p

unfoldable pub put_ex_type : Host → Header → Put → Result Put
put_ex_type host hdr p =
    if leb extended_type_val_threshold hdr.type then put_word host hdr.type p else ok p

-- The header, up to the internal data.
unfoldable pub put_header : Host → Header → Writer → Result Put
unfolding first_field put_id put_content put_ex_type
put_header host hdr io = do
  cparts_cnt ← count_incompressible_cparts hdr
  p ← put_word host (first_field hdr cparts_cnt) (record { io = io; checksum = 0 })
  chk_hdr_isize_fit_or_fail (stores_id hdr) hdr
  p ← put_id host hdr p
  p ← put_content host hdr cparts_cnt p
  put_ex_type host hdr p

-- The internal data: the subclass writes within a limit, and then the data of a future version.
unfoldable pub put_idata : Subclass → Descriptor → Writer → Result Writer
put_idata subclass dsc io = do
  require (leb dsc.hdr.isize io.room) not_enough_room
  w ← subclass.write_struct_specifics_into (record io { room = dsc.hdr.isize })
  w ← writeall dsc.future_idata w
  ok (record w { room = io.room + length io.written - length w.written })

-- The stream after the write, and the descriptor with its new checksum.
unfoldable pub write_struct_into :
    Host → Subclass → Descriptor → Writer → Result (Writer × Descriptor)
unfolding chk_before_write put_header put_idata
write_struct_into host subclass dsc io = do
  chk_before_write subclass dsc
  p ← put_header host dsc.hdr io
  out ← put_idata subclass dsc p.io
  let idata_begin = length p.io.written
  let dsc_end = length out.written
  chk_rw_specifics_on_idata false idata_begin dsc_end dsc.hdr.isize
  chk_struct_footprint false (length io.written) dsc_end dsc.hdr
      (leb extended_type_val_threshold dsc.hdr.type)
  assert (dsc_end == idata_begin + dsc.hdr.isize)
  n ← inet_checksum_io host (drop idata_begin out.written)
  ok (out, record dsc { checksum = inet_to_u16 ((p.checksum + n) % 2 ^ 32) })
