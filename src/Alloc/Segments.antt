-- ===== src/Alloc/Segments.antt =====
-- xoz/alloc/segment_allocator.cpp: how many blocks, sub-blocks and inline bytes
-- SegmentAllocator::alloc asks for.
pub mod Covers
use xoz.Base.{
  ℕ, ◌+◌, ◌-◌, ◌*◌, ◌/◌, ◌%◌, ◌^◌, Bool, true, false, not, ◌&&◌, ◌||◌, ltb, leb, ◌==◌,
  if◌then◌else◌, Result, ok, runtime_error, assert, require, ◌>>=◌, ◌>>◌,
}

pub record Req : Type 0 where
  pub segm_frag_threshold : ℕ
  pub max_inline_sz : ℕ
  pub allow_suballoc : Bool
  pub single_extent : Bool

abbrev pub xoz_default_req : Req
xoz_default_req = record {
  segm_frag_threshold = 2;
  max_inline_sz = 8;
  allow_suballoc = true;
  single_extent = false;
}

-- What is still to be allocated.
pub record Remaining : Type 0 where
  pub blk_cnt_remain : ℕ
  pub subblk_cnt_remain : ℕ
  pub inline_sz : ℕ

unfoldable pub fail_if_bad_req : Req → ℕ → Result (Unit {0})
fail_if_bad_req req subblk_sz = do
  require (not (subblk_sz == 0 && req.allow_suballoc)) runtime_error
  require
      (not (
        req.single_extent
        && (req.allow_suballoc
            || not (req.segm_frag_threshold == 1)
            || not (req.max_inline_sz == 0))))
      runtime_error

-- Whole blocks, then whole sub-blocks if these are allowed, and the rest inline.
unfoldable pub divide_sz : Req → ℕ → ℕ → ℕ → Remaining
divide_sz req blk_sz subblk_sz sz =
    let sz_remain = sz % blk_sz in
    if req.allow_suballoc
    then record {
      blk_cnt_remain = sz / blk_sz;
      subblk_cnt_remain = sz_remain / subblk_sz;
      inline_sz = sz_remain % subblk_sz;
    }
    else record { blk_cnt_remain = sz / blk_sz; subblk_cnt_remain = 0; inline_sz = sz_remain }

-- More inline bytes than the limit go to a sub-block or a block of their own.
unfoldable pub move_inline : Req → ℕ → ℕ → Remaining → Result Remaining
move_inline req blk_sz subblk_sz s =
    if ltb req.max_inline_sz s.inline_sz
    then (if req.allow_suballoc
        then (do
          assert (leb s.inline_sz subblk_sz)
          ok (record s { subblk_cnt_remain = (s.subblk_cnt_remain + 1) % 2 ^ 32; inline_sz = 0 }))
        else (do
          assert (leb s.inline_sz blk_sz)
          ok (record s { blk_cnt_remain = (s.blk_cnt_remain + 1) % 2 ^ 32; inline_sz = 0 })))
    else ok s

-- Sub-blocks that fill a block become one.
unfoldable pub fill_block : Remaining → Remaining
fill_block s =
    if s.subblk_cnt_remain == 16
    then record s { blk_cnt_remain = (s.blk_cnt_remain + 1) % 2 ^ 32; subblk_cnt_remain = 0 }
    else s

-- The counts, with the assertions on them, in uint32_t.
unfoldable pub remaining_for : Req → ℕ → ℕ → ℕ → Result Remaining
remaining_for req blk_sz subblk_sz sz = do
  fail_if_bad_req req subblk_sz
  s ← move_inline req blk_sz subblk_sz (divide_sz req blk_sz subblk_sz sz)
  let s = fill_block s
  assert (leb s.inline_sz req.max_inline_sz)
  assert (leb s.subblk_cnt_remain 16)
  assert (
      leb sz ((s.blk_cnt_remain * blk_sz + s.subblk_cnt_remain * subblk_sz + s.inline_sz) % 2 ^ 32))
  ok s
