-- ===== src/Alloc/Tail.antt =====
-- xoz/alloc/tail_allocator.cpp: blocks are given from the end of the array and taken back there.
-- The array is there: `manage_block_array` was called.
pub mod Laws
use xoz.Base.{ℕ, Bool, true, false, not, ◌==◌, if◌then◌else◌, Result, ok, ◌>>=◌, ◌>>◌}
use xoz.Alloc.{fail_alloc_if_empty, fail_if_suballoc_or_zero_cnt}
use xoz.Blk.{
  BlockArray, Backend, array_blk_cnt, grow_by_blocks, shrink_by_blocks, release_blocks,
  fail_if_out_of_boundaries,
}
use xoz.Extent.{Extent, make_extent, blk_cnt, past_end_blk_nr}

unfoldable pub alloc :
    {S : Type 0} → Backend S → ℕ → BlockArray → S → Result (Extent × BlockArray × S)
alloc backend cnt a s = do
  fail_alloc_if_empty cnt
  (nr, a, s) ← grow_by_blocks backend cnt a s
  ext ← make_extent nr cnt false
  ok (ext, a, s)

unfoldable pub is_at_the_end : BlockArray → Extent → Result Bool
is_at_the_end a e = do
  fail_if_suballoc_or_zero_cnt e
  fail_if_out_of_boundaries a e
  ok (past_end_blk_nr e == a.past_end)

unfoldable pub dealloc :
    {S : Type 0} → Backend S → Extent → BlockArray → S → Result (Bool × BlockArray × S)
dealloc backend e a s = do
  at_the_end ← is_at_the_end a e
  if at_the_end
      then (do (a, s) ← shrink_by_blocks backend (blk_cnt e) a s; ok (true, a, s))
      else ok (false, a, s)

unfoldable pub release : {S : Type 0} → Backend S → BlockArray → S → Result (BlockArray × S)
release backend a s = do (_, a, s) ← release_blocks backend a s; ok (a, s)

unfoldable pub reset : {S : Type 0} → Backend S → BlockArray → S → Result (BlockArray × S)
unfolding release
reset backend a s = do
  (a, s) ←
      (if array_blk_cnt a == 0 then ok (a, s) else shrink_by_blocks backend (array_blk_cnt a) a s)
  release backend a s
