-- ===== src/Alloc.antt =====
-- xoz/alloc: who owns which blocks. Chunks are the two maps of free chunks, FreeBlocks is FreeMap,
-- Subblocks is SubBlockFreeMap, Segments the sizes of SegmentAllocator, and Tail TailAllocator.
pub mod Chunks
pub mod FreeBlocks
pub mod Subblocks
pub mod Segments
pub mod Tail
use xoz.Base.{ℕ, ◌==◌, Bool, not, ◌&&◌, Result, runtime_error, require, ◌>>=◌, ◌>>◌}
use xoz.Extent.{Extent, is_suballoc, blk_cnt}

-- alloc/internals.cpp
unfoldable pub fail_alloc_if_empty : ℕ → Result (Unit {0})
fail_alloc_if_empty cnt = require (not (cnt == 0)) runtime_error

unfoldable pub fail_if_suballoc_or_zero_cnt : Extent → Result (Unit {0})
fail_if_suballoc_or_zero_cnt e = require (not (is_suballoc e) && not (blk_cnt e == 0)) runtime_error
