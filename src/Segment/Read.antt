-- ===== src/Segment/Read.antt =====
-- xoz/segm/segment.cpp: `Segment::read_struct_from`. The read stream is the list of the bytes ahead.
use xoz.Base.{
  ℕ, zero, suc, ◌+◌, ◌-◌, ◌*◌, ◌%◌, ◌^◌, bit_and, bit_or, Bool, true, false, not, ◌&&◌, ◌||◌, leb,
  ltb, ◌==◌, if◌then◌else◌, List, [], ◌∷◌, ◌++◌, length, Option, some, none, Result, ok, err,
  not_enough_room, runtime_error, inconsistent_xoz, require, assert, ◌>>=◌, ◌>>◌,
}
use xoz.Extent.{Extent, blk_nr, span_cnt, empty_extent, make_extent, max_blk_nr}
use xoz.Io.Stream.{readall, read_u16}
use xoz.Mem.Checksum.{fold_inet_checksum, inet_checksum_bytes}
use xoz.Mem.Endian.{Host}
use xoz.Mem.Ints.{read_bits}
use xoz.Segment.{Segment}

pub data EndMode : Type 0 where
  inline_end io_end any_end explicit_len : EndMode

-- `uint32_t(-1)`, the default length.
abbrev pub no_len : ℕ
no_len = 2 ^ 32 - 1

-- The variables of the loop. `inline_data` is set once inline data was read, which ends the loop.
pub record ReadState : Type 0 where
  pub input : List ℕ
  pub available_sz : ℕ
  pub checksum : ℕ
  pub prev : Extent
  pub arr : List Extent
  pub inline_data : Option (List ℕ)

-- `fail_remain_exhausted_during_partial_read`
unfoldable pub consume_available : ℕ → ReadState → Result ReadState
consume_available requested_sz st = do
  require (leb requested_sz st.available_sz) not_enough_room
  ok (record st { available_sz = st.available_sz - requested_sz })

-- Two bytes are claimed, read and added to the checksum.
unfoldable pub take_u16 : Host → ReadState → Result (ℕ × ReadState)
unfolding consume_available
take_u16 host st = do
  st ← consume_available 2 st
  (x, input) ← read_u16 host st.input
  ok (x, record st { input = input; checksum = (st.checksum + x) % 2 ^ 32 })

abbrev pub flag : ℕ → ℕ → Bool
flag hdr mask = not (read_bits hdr mask == 0)

-- The inline data that the header announces; an odd last byte is in the header.
unfoldable pub read_inline : Host → ℕ → ReadState → Result ReadState
unfolding consume_available
read_inline host hdr st = do
  let inline_sz = read_bits hdr 0x3f00
  let last = if inline_sz % 2 == 1 then read_bits hdr 0x00ff ∷ [] else []
  let even_sz = if inline_sz % 2 == 1 then inline_sz - 1 else inline_sz
  if ltb 0 even_sz
      then (do
        st ← consume_available even_sz st
        (bytes, input) ← readall even_sz st.input
        ok (record st {
          input = input;
          checksum = (st.checksum + inet_checksum_bytes host bytes) % 2 ^ 32;
          inline_data = some (bytes ++ last);
        }))
      else ok (record st { inline_data = some last })

-- The full block number of an extent that is not near.
unfoldable pub read_far_nr : Host → ℕ → ReadState → Result (ℕ × ReadState)
read_far_nr host hdr st = do
  (lo_blk_nr, st) ← take_u16 host st
  ok (bit_or (bit_and (read_bits hdr 0x03ff) 0x03ff * 2 ^ 16) lo_blk_nr, st)

unfoldable pub read_cnt : Host → ℕ → ReadState → Result (ℕ × ReadState)
read_cnt host hdr st =
    let smallcnt = read_bits hdr 0x7800 in
    if not (flag hdr 0x8000) && not (smallcnt == 0)
    then ok (smallcnt, st)
    else (do require (smallcnt == 0) inconsistent_xoz; take_u16 host st)

-- The block number of a near extent, from the extent before it, in uint32_t. The number may wrap
-- around, which the source detects by a comparison.
unfoldable pub near_nr : ℕ → ℕ → Extent → Result ℕ
near_nr hdr cur_blk_cnt prev =
    let jmp_offset = read_bits hdr 0x01ff in
    let ref_nr = blk_nr prev in
    let backward = (ref_nr + 2 ^ 32 - jmp_offset + 2 ^ 32 - cur_blk_cnt) % 2 ^ 32 in
    let forward = (ref_nr + jmp_offset + span_cnt prev) % 2 ^ 32 in
    if flag hdr 0x0200
    then (if ltb ref_nr backward then err inconsistent_xoz else ok backward)
    else (if ltb forward ref_nr then err inconsistent_xoz else ok forward)

unfoldable pub read_ext : Host → ℕ → ReadState → Result ReadState
unfolding near_nr
read_ext host hdr st = do
  let suballoc = flag hdr 0x8000
  let is_near = flag hdr 0x0400
  (far_nr, st) ← (if is_near then ok (0, st) else read_far_nr host hdr st)
  (cnt, st) ← read_cnt host hdr st
  nr ← (if is_near then near_nr hdr (if suballoc then 1 else cnt) st.prev else ok far_nr)
  require (leb nr max_blk_nr) inconsistent_xoz
  ext ← make_extent nr cnt suballoc
  ok (record st { arr = st.arr ++ (ext ∷ []); prev = ext })

-- The loop, on the count of parts that are still to be read: the state, and the count that is left.
unfoldable pub read_loop : Host → ℕ → ReadState → Result (ReadState × ℕ)
read_loop host zero st = ok (st, 0)
read_loop host (suc segm_len) st = if ltb st.available_sz 2 then ok (st, suc segm_len) else (do
  (hdr, st) ← take_u16 host st
  if flag hdr 0x8000 && flag hdr 0x4000
      then (do st ← read_inline host hdr st; ok (st, segm_len))
      else (do st ← read_ext host hdr st; read_loop host segm_len st))

abbrev pub has_inline : Option (List ℕ) → Bool
has_inline none = false
has_inline (some bytes) = true

abbrev pub inline_bytes : Option (List ℕ) → List ℕ
inline_bytes none = []
inline_bytes (some bytes) = bytes

abbrev pub is_mode_explicit : EndMode → Bool
is_mode_explicit explicit_len = true
is_mode_explicit m = false

-- What the end of the segment must look like in each mode, and the assertion after the loop.
unfoldable pub check_end : EndMode → ReadState → ℕ → Result (Unit {0})
check_end inline_end st left = do
  require (has_inline st.inline_data) inconsistent_xoz
  assert (length st.input == 0 || has_inline st.inline_data || left == 0)
check_end io_end st left = do
  require (length st.input == 0) inconsistent_xoz
  assert (length st.input == 0 || has_inline st.inline_data || left == 0)
check_end any_end st left = assert (length st.input == 0 || has_inline st.inline_data || left == 0)
check_end explicit_len st left = do
  require (left == 0) inconsistent_xoz
  assert (length st.input == 0 || has_inline st.inline_data || left == 0)

abbrev pub start_state : List ℕ → ReadState
start_state input = record {
  input = input;
  available_sz = length input;
  checksum = 0;
  prev = empty_extent;
  arr = [];
  inline_data = none;
}

-- The segment read over `s`, the bytes that are left, and the number to add to what `checksum_p`
-- points to.
unfoldable pub read_struct_from :
    Host → Segment → EndMode → ℕ → List ℕ → Result (Segment × List ℕ × ℕ)
read_struct_from host s mode segm_len input = do
  require (is_mode_explicit mode || segm_len == no_len) runtime_error
  require (not (is_mode_explicit mode && segm_len == no_len)) runtime_error
  (st, left) ← read_loop host segm_len (start_state input)
  check_end mode st left
  ok (
    record s {
      arr = st.arr;
      raw = inline_bytes st.inline_data;
      inline_present = has_inline st.inline_data;
    },
    st.input,
    fold_inet_checksum st.checksum,
  )
