-- ===== src/Io/Span.antt =====
-- xoz/io/iobase.h, iobase.cpp and iospan.cpp: a stream over a buffer of a fixed size, with a pointer
-- to read from and one to write to, each within its limits. The two sets of fields `rd_min`, `rd`,
-- `rd_end` and `wr_min`, `wr`, `wr_end` are two records.
pub mod Limits
pub mod Bytes
pub mod Chunks
pub mod Regions
pub mod Forward
pub mod Copies
pub mod Refines
use xoz.Base.{
  ℕ, zero, suc, ◌+◌, ◌-◌, ◌/◌, ◌%◌, ◌^◌, min, Bool, true, false, not, ◌&&◌, ◌||◌, ltb, leb, ◌==◌,
  if◌then◌else◌, List, [], ◌∷◌, ◌++◌, length, take, drop, Result, ok, err, not_enough_room,
  unexpected_shorten, runtime_error, overflow_error, assert, require, ◌>>=◌, ◌>>◌,
}

pub record Pointer : Type 0 where
  pub min_pos : ℕ
  pub end_pos : ℕ
  pub pos : ℕ

pub record Span : Type 0 where
  pub dataspan : List ℕ
  pub rd : Pointer
  pub wr : Pointer
  pub read_only : Bool

-- The constructor: the size must fit uint32_t.
unfoldable pub make_span : List ℕ → Result Span
make_span dataspan = do
  assert (ltb (length dataspan) (2 ^ 32))
  let start : Pointer = record { min_pos = 0; end_pos = length dataspan; pos = 0 }
  ok (record { dataspan = dataspan; rd = start; wr = start; read_only = false })

abbrev pub src_sz : Span → ℕ
src_sz io = length io.dataspan

abbrev pub remain : Pointer → ℕ
remain p = p.end_pos - p.pos

-- `is_within_limits`
abbrev pub is_within : Pointer → Bool
is_within p = leb p.min_pos p.pos && leb p.pos p.end_pos

pub data Seekdir : Type 0 where
  beg : Seekdir
  end : Seekdir
  fwd : Seekdir
  bwd : Seekdir

-- The new position, in uint32_t.
unfoldable pub calc_seek : ℕ → ℕ → Pointer → Seekdir → ℕ
calc_seek sz pos p Seekdir.beg =
    if ltb p.end_pos pos then p.end_pos else if ltb pos p.min_pos then p.min_pos else pos
calc_seek sz pos p Seekdir.end =
    if ltb sz pos || ltb (sz - pos) p.min_pos
    then p.min_pos
    else if ltb p.end_pos (sz - pos)
    then p.end_pos
    else sz - pos
calc_seek sz pos p Seekdir.fwd =
    let cur = (p.pos + pos) % 2 ^ 32 in if ltb cur pos || ltb p.end_pos cur then p.end_pos else cur
calc_seek sz pos p Seekdir.bwd =
    if ltb ((p.pos + (2 ^ 32 - p.min_pos)) % 2 ^ 32) pos then p.min_pos else p.pos - pos

unfoldable pub seek : ℕ → ℕ → Seekdir → Pointer → Result Pointer
seek sz pos way p = do
  let moved = record p { pos = calc_seek sz pos p way }
  assert (is_within moved)
  ok moved

unfoldable pub seek_rd : ℕ → Seekdir → Span → Result Span
unfolding seek
seek_rd pos way io = do p ← seek (src_sz io) pos way io.rd; ok (record io { rd = p })

unfoldable pub seek_wr : ℕ → Seekdir → Span → Result Span
unfolding seek
seek_wr pos way io = do p ← seek (src_sz io) pos way io.wr; ok (record io { wr = p })

-- The limits cut to the source, and the pointer put between them.
unfoldable pub limit : ℕ → ℕ → ℕ → Pointer → Pointer
limit sz min_pos new_sz p =
    let min_pos = if ltb sz min_pos then sz else min_pos in
    let end_pos = if leb new_sz (sz - min_pos) then min_pos + new_sz else sz in
    record {
      min_pos = min_pos;
      end_pos = end_pos;
      pos = if ltb p.pos min_pos then min_pos else if ltb end_pos p.pos then end_pos else p.pos;
    }

unfoldable pub limit_rd : ℕ → ℕ → Span → Span
limit_rd min_pos new_sz io = record io { rd = limit (src_sz io) min_pos new_sz io.rd }

unfoldable pub limit_wr : ℕ → ℕ → Span → Span
limit_wr min_pos new_sz io = record io { wr = limit (src_sz io) min_pos new_sz io.wr }

unfoldable pub limit_to_read_only : Span → Span
limit_to_read_only io = limit_wr io.wr.pos 0 io

unfoldable pub turn_read_only : Span → Span
turn_read_only io = record (limit_to_read_only io) { read_only = true }

-- What `RewindGuard` and `RestoreLimitsGuard` do at their end, with what they kept.
unfoldable pub rewind : Span → Span → Result Span
rewind kept io = do io ← seek_rd kept.rd.pos Seekdir.beg io; seek_wr kept.wr.pos Seekdir.beg io

unfoldable pub restore_limits : Span → Span → Result Span
restore_limits kept io = do
  assert (leb kept.rd.min_pos kept.rd.end_pos)
  assert (leb kept.wr.min_pos kept.wr.end_pos)
  let io = limit_rd kept.rd.min_pos (kept.rd.end_pos - kept.rd.min_pos) io
  ok (limit_wr kept.wr.min_pos (kept.wr.end_pos - kept.wr.min_pos) io)

-- `memcpy` into the buffer.
abbrev pub overwrite : ℕ → List ℕ → List ℕ → List ℕ
overwrite at bytes dataspan = take at dataspan ++ (bytes ++ drop (at + length bytes) dataspan)

-- `rw_operation` of `IOSpan`: at most the bytes that are left.
unfoldable pub read_operation : ℕ → Span → Result (List ℕ × Span)
read_operation data_sz io = do
  let sz = min data_sz (remain io.rd)
  let moved = record io { rd = record (io.rd) { pos = io.rd.pos + sz } }
  assert (is_within moved.rd)
  ok (take sz (drop io.rd.pos io.dataspan), moved)

unfoldable pub write_operation : List ℕ → Span → Result (ℕ × Span)
write_operation bytes io = do
  let sz = min (length bytes) (remain io.wr)
  let moved = record io {
    dataspan = overwrite io.wr.pos (take sz bytes) io.dataspan;
    wr = record (io.wr) { pos = io.wr.pos + sz };
  }
  assert (is_within moved.wr)
  ok (sz, moved)

-- `rw_operation_exact_sz`
unfoldable pub readall : ℕ → Span → Result (List ℕ × Span)
readall exact_sz io = do
  require (leb exact_sz (remain io.rd)) not_enough_room
  (bytes, io) ← read_operation exact_sz io
  require (length bytes == exact_sz) unexpected_shorten
  ok (bytes, io)

unfoldable pub writeall : List ℕ → Span → Result Span
writeall bytes io = do
  require (not io.read_only) runtime_error
  require (leb (length bytes) (remain io.wr)) not_enough_room
  (sz, io) ← write_operation bytes io
  require (sz == length bytes) unexpected_shorten
  ok io

-- `writeall` of a vector, with the size requested or 2 ^ 32 - 1 for all.
unfoldable pub chk_write_request_sizes : ℕ → ℕ → Result ℕ
chk_write_request_sizes avail_sz sz =
    if sz == 2 ^ 32 - 1
    then (do require (leb avail_sz (2 ^ 32 - 1)) overflow_error; ok avail_sz)
    else (do require (leb sz avail_sz) overflow_error; ok sz)

unfoldable pub writeall_vector : List ℕ → ℕ → Span → Result Span
writeall_vector bytes exact_sz io = do
  request_sz ← chk_write_request_sizes (length bytes) exact_sz
  writeall (take request_sz bytes) io

abbrev pub tmp_buf_sz : ℕ
tmp_buf_sz = 64

-- `fill`: full buffers, and then the rest of one.
abbrev pub repeated : ℕ → ℕ → List ℕ
repeated zero c = []
repeated (suc n) c = c ∷ repeated n c

unfoldable pub fill_batches : ℕ → ℕ → Span → Result Span
fill_batches zero c io = ok io
fill_batches (suc n) c io = do io ← writeall (repeated tmp_buf_sz c) io; fill_batches n c io

unfoldable pub fill : ℕ → ℕ → Span → Result Span
fill c sz io = do
  io ← fill_batches (sz / tmp_buf_sz) c io
  writeall (repeated (sz % tmp_buf_sz) c) io

-- The bytes from a position on, the read pointer being put back.
unfoldable pub dump : ℕ → ℕ → Span → Result (List ℕ × Span)
dump at len io = do
  let pos = io.rd.pos
  io ← seek_rd at Seekdir.beg io
  (buf, io) ← readall (min (remain io.rd) (if len == 2 ^ 32 - 1 then remain io.rd else len)) io
  io ← seek_rd pos Seekdir.beg io
  ok (buf, io)

-- One round of the loops that copy: some bytes from the read pointer to the write pointer.
unfoldable pub copy_chunk : ℕ → Span → Result Span
copy_chunk chk_sz io = do (buf, io) ← readall chk_sz io; writeall buf io

-- The loops end when nothing remains; the number of rounds is bounded by the bytes.
unfoldable pub from_start : ℕ → ℕ → Span → Result Span
from_start zero remain io = ok io
from_start (suc fuel) remain io = if remain == 0 then ok io else (do
  let chk_sz = min tmp_buf_sz remain
  io ← copy_chunk chk_sz io
  from_start fuel (remain - chk_sz) io)

unfoldable pub seek_both : ℕ → Seekdir → Span → Result Span
seek_both pos way io = do io ← seek_rd pos way io; seek_wr pos way io

-- One round from the end: both pointers go back, a chunk is copied, and they go back again.
unfoldable pub back_chunk : ℕ → Span → Result Span
back_chunk chk_sz io = do
  io ← seek_both chk_sz Seekdir.bwd io
  io ← copy_chunk chk_sz io
  seek_both chk_sz Seekdir.bwd io

unfoldable pub from_end : ℕ → ℕ → Span → Result Span
from_end zero remain io = ok io
from_end (suc fuel) remain io = if remain == 0 then ok io else (do
  let chk_sz = min tmp_buf_sz remain
  io ← back_chunk chk_sz io
  from_end fuel (remain - chk_sz) io)

unfoldable pub copy_into_self_from_start : ℕ → Span → Result Span
copy_into_self_from_start exact_sz io = from_start exact_sz exact_sz io

unfoldable pub copy_into_self_from_end : ℕ → Span → Result Span
copy_into_self_from_end exact_sz io = do
  io ← seek_both exact_sz Seekdir.fwd io
  io ← from_end exact_sz exact_sz io
  seek_both exact_sz Seekdir.fwd io

unfoldable pub copy_into_self : ℕ → Span → Result Span
copy_into_self exact_sz io = do
  require (leb exact_sz (remain io.rd)) not_enough_room
  require (leb exact_sz (remain io.wr)) not_enough_room
  if io.rd.pos == io.wr.pos
      then seek_both exact_sz Seekdir.fwd io
      else if ltb io.rd.pos io.wr.pos && ltb io.wr.pos (io.rd.pos + exact_sz)
      then copy_into_self_from_end exact_sz io
      else copy_into_self_from_start exact_sz io

-- The copy into another stream.
unfoldable pub copy_into_loop : ℕ → ℕ → Span → Span → Result (Span × Span)
copy_into_loop zero remain io dst = ok (io, dst)
copy_into_loop (suc fuel) remain io dst = if remain == 0 then ok (io, dst) else (do
  let chk_sz = min tmp_buf_sz remain
  (buf, io) ← readall chk_sz io
  dst ← writeall buf dst
  copy_into_loop fuel (remain - chk_sz) io dst)

unfoldable pub copy_into : ℕ → Span → Span → Result (Span × Span)
copy_into exact_sz io dst = do
  require (leb exact_sz (remain io.rd)) not_enough_room
  require (leb exact_sz (remain dst.wr)) not_enough_room
  copy_into_loop exact_sz exact_sz io dst
