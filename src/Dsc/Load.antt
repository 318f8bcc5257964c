-- ===== src/Dsc/Load.antt =====
-- xoz/dsc/descriptor.cpp: `Descriptor::load_header_from`.
use xoz.Base.{
  ℕ, ◌+◌, ◌*◌, ◌%◌, ◌^◌, bit_or, Bool, true, false, not, leb, ltb, ◌==◌, if◌then◌else◌, List, [],
  length, take, Result, ok, err, inconsistent_xoz, not_enough_room, require, assert, ◌>>=◌, ◌>>◌,
}
use xoz.Dsc.{ContentPart, Header, extended_type_val_threshold, chk_content_parts_consistency}
use xoz.Dsc.Parts.{Got, take_word, read_content_parts}
use xoz.Ids.{IdManager, request_temporal_id, register_persistent_id}
use xoz.Io.Stream.{read_u32}
use xoz.Mem.Checksum.{inet_checksum_val, inet_add, inet_to_u16}
use xoz.Mem.Checksum.Stream.{inet_checksum_io}
use xoz.Mem.Endian.{Host}
use xoz.Mem.Ints.{read_bits, read_bits_u32}
use xoz.Segment.Read.{flag}

-- The identifier and the high bit of isize, both 0 where there is no field of them.
unfoldable pub take_id : Host → Bool → Got → Result ((ℕ × ℕ) × Got)
take_id host has_id g =
    if has_id
    then (do
      (idfield, input) ← read_u32 host g.input
      ok (
        (read_bits_u32 idfield 0x7fffffff, read_bits_u32 idfield 0x80000000),
        record { input = input; checksum = (g.checksum + inet_checksum_val idfield) % 2 ^ 32 },
      ))
    else ok ((0, 0), g)

-- `uint8_t((uint8_t(hi_isize << 5) | lo_isize) << 1)`
unfoldable pub isize_of : ℕ → ℕ → ℕ
isize_of hi_isize lo_isize = bit_or (hi_isize * 2 ^ 5 % 2 ^ 8) lo_isize * 2 % 2 ^ 8

unfoldable pub take_content : Host → ℕ → Bool → Got → Result (List ContentPart × Got)
take_content host blk_sz_order own_content g =
    if own_content
    then (do
      (content_part_cnt, g) ← take_word host g
      assert (not (content_part_cnt == 0xffff))
      (cparts, h) ← read_content_parts host blk_sz_order ((content_part_cnt + 1) % 2 ^ 16) g.input
      ok (cparts, record h { checksum = (g.checksum + inet_checksum_val h.checksum) % 2 ^ 32 }))
    else ok ([], g)

-- The descriptor's id: a temporal one if none is stored, and else the stored one, registered.
unfoldable pub resolve_id : Bool → ℕ → ℕ → ℕ → IdManager → Result (ℕ × IdManager)
resolve_id has_id id isize hi_isize ids =
    if has_id
    then (if id == 0
        then (if leb 64 isize
            then (do assert (not (hi_isize == 0)); ok (request_temporal_id ids))
            else (do assert (hi_isize == 0); err inconsistent_xoz))
        else (do
          (ids, done) ← register_persistent_id id ids
          require done inconsistent_xoz
          ok (id, ids)))
    else (do assert (id == 0); ok (request_temporal_id ids))

-- The type, and whether it was read from the extended field.
unfoldable pub take_type : Host → ℕ → Got → Result ((ℕ × Bool) × Got)
take_type host type g =
    if type == extended_type_val_threshold
    then (do (type, g) ← take_word host g; ok ((type, true), g))
    else ok ((type, false), g)

-- What is known once the header is read: the stream stands at the internal data.
pub record Loaded : Type 0 where
  pub hdr : Header
  pub ex_type_used : Bool
  pub checksum : ℕ
  pub input : List ℕ
  pub ids : IdManager

unfoldable pub load_header_from : Host → ℕ → IdManager → ℕ → List ℕ → Result Loaded
unfolding take_id isize_of take_content resolve_id take_type
load_header_from host blk_sz_order ids checksum input = do
  (firstfield, g) ← take_word host (record { input = input; checksum = 0 })
  let has_id = flag firstfield 0x0200
  ((id, hi_isize), g) ← take_id host has_id g
  let isize = isize_of hi_isize (read_bits firstfield 0x7c00)
  (cparts, g) ← take_content host blk_sz_order (flag firstfield 0x8000) g
  (id, ids) ← resolve_id has_id id isize hi_isize ids
  assert (not (id == 0))
  chk_content_parts_consistency false cparts
  ((type, ex_type_used), g) ← take_type host (read_bits firstfield 0x01ff) g
  require (leb isize (length g.input)) not_enough_room
  require (not (ltb (length g.input) isize)) inconsistent_xoz
  n ← inet_checksum_io host (take isize g.input)
  ok (record {
    hdr = record { type = type; id = id; isize = isize; cparts = cparts };
    ex_type_used = ex_type_used;
    checksum = inet_add checksum (inet_to_u16 ((g.checksum + n) % 2 ^ 32));
    input = g.input;
    ids = ids;
  })
