-- ===== src/Extent/Splits.antt =====
-- Splitting an extent.
use xoz.Base.{ℕ, ◌+◌, ◌-◌, ◌≤◌, ◌<◌, ◌^◌, ◌≡◌, arith, false, ok}
use xoz.Extent.{Extent, is_suballoc, blk_nr, split, split_blks}
use xoz.Extent.Laws.{
  IsExtent, extent_of, is_suballoc-leb, make_extent-ok, is_suballoc-extent_of, blk_nr-mod,
}

-- Splitting a run of blocks that does not pass the last block number cuts it in two: the first part
-- keeps the start, the second starts where the first ends, and both together hold the blocks of the
-- whole. No assertion fails.
pub split-blocks :
    (e : Extent) (new_cnt : ℕ)
    → IsExtent e
    → is_suballoc e ≡ false
    → new_cnt ≤ e.raw_blk_cnt
    → blk_nr e + new_cnt < 2 ^ 26
    → split e new_cnt
      ≡ ok (
        extent_of (blk_nr e) new_cnt false,
        extent_of (blk_nr e + new_cnt) (e.raw_blk_cnt - new_cnt) false,
      )
unfolding split split_blks
split-blocks e new_cnt v s h fits =
    let small : e.raw_blk_nr < 2 ^ 31 = ground (arith, is_suballoc-leb e v.word_fits) in
    ground (
      arith,
      blk_nr-mod e,
      make_extent-ok (blk_nr e + new_cnt) (e.raw_blk_cnt - new_cnt) false fits,
      is_suballoc-extent_of (blk_nr e + new_cnt) (e.raw_blk_cnt - new_cnt) false fits,
    )
