-- ===== src/Extent/Gaps.antt =====
-- What `distance_in_blks` measures, and the extents that it refuses.
use xoz.Base.{◌+◌, ◌<◌, bit_and, ◌≡◌, arith, true, false, ◌⊎◌, ◌↔◌, leb, ok, err, extent_overlap}
use xoz.Extent.{
  Extent, Distance, is_suballoc, blk_nr, blk_bitmap, span_cnt, past_end_blk_nr, distance_in_blks,
  distance_at_same_start,
}

-- Two sets of sub-blocks of one block with none in common.
abbrev pub ShareBlock : Extent → Extent → Type 0
ShareBlock ref target =
    (blk_nr ref ≡ blk_nr target)
    × (is_suballoc ref ≡ true)
    × (is_suballoc target ≡ true)
    × (bit_and (blk_bitmap ref) (blk_bitmap target) ≡ 0)

-- The gap lies between the end of one extent and the start of the other.
abbrev pub Locates : Extent → Extent → Distance → Type 0
Locates ref target d =
    ((d.is_backwards ≡ false)
      × (past_end_blk_nr ref + d.gap ≡ blk_nr target)
      × (d.is_near ≡ leb d.gap 511))
    ⊎ ((d.is_backwards ≡ true)
        × (past_end_blk_nr target + d.gap ≡ blk_nr ref)
        × (d.is_near ≡ leb d.gap 511))
    ⊎ (ShareBlock ref target × (d.gap ≡ 0) × (d.is_near ≡ false))

-- A distance that is returned is the count of blocks between the extents, on the side that it
-- names, and is near just if it is at most 511; two disjoint sub-allocations of one block are far.
pub distance_in_blks-Locates :
    (ref target : Extent) (d : Distance) → distance_in_blks ref target ≡ ok d → Locates ref target d
unfolding distance_in_blks distance_at_same_start past_end_blk_nr
distance_in_blks-Locates ref target d h = ground arith

abbrev pub Overlaps : Extent → Extent → Type 0
Overlaps ref target =
    (blk_nr ref < past_end_blk_nr target)
    × (blk_nr target < past_end_blk_nr ref)
    × ¬ (ShareBlock ref target)

-- For extents that are not empty, the overlap error is raised exactly when the runs of blocks meet
-- and are not disjoint sub-allocations of one block.
pub distance_in_blks-Overlaps :
    (ref target : Extent)
    → 0 < span_cnt ref
    → 0 < span_cnt target
    → (distance_in_blks ref target ≡ err extent_overlap) ↔ Overlaps ref target
unfolding distance_in_blks distance_at_same_start past_end_blk_nr
distance_in_blks-Overlaps ref target h k = ((λ e. ground arith), (λ o. ground arith))
