-- ===== src/Tests/Free.antt =====
-- A map of free chunks at concrete inputs.
use xoz.Base.{ℕ, ◌+◌, ◌≡◌, refl, arith, true, false, [], ◌∷◌, All, ok}
use xoz.Alloc.{fail_alloc_if_empty, fail_if_suballoc_or_zero_cnt}
use xoz.Alloc.Chunks.{
  lower_bound, before_lower, upper_bound, before_upper, map_update, map_find, map_erase, map_insert,
  multimap_erase, multimap_insert,
}
use xoz.Alloc.FreeBlocks.{
  FreeMap, alloc, alloc_fails, alloc_from, usable_chunk, use_chunk, insert_chunk, closest_cnt,
  assert_sizes, dealloc, coalesce, join_next, join_prev, erase_next, erase_both, erase_by_cnt,
  erase_from_fr_by_cnt, fail_if_overlap, fail_if_chunk_overlaps,
}
use xoz.Alloc.Chunks.Apart.{holds, free_at}
use xoz.Alloc.FreeBlocks.Invariant.{IsFreeMap}
use xoz.Alloc.FreeBlocks.Conserves.{alloc-Conserves}
use xoz.Alloc.FreeBlocks.Frees.{dealloc-Conserves, dealloc-double_free}
use xoz.Alloc.FreeBlocks.Fits.{Unusable, alloc-Unusable}
use xoz.Extent.{
  make_extent, blk_nr, is_suballoc, past_end_blk_nr, span_cnt, expand_by, distance_in_blks,
}
use xoz.Mem.Ints.{is_u16_add_ok}

-- Blocks 4 to 6, and 10 to 19; a chunk is split if more than two blocks are left of it.
abbrev chunks : FreeMap
chunks = record {
  coalescing_enabled = true;
  split_above_threshold = 2;
  fr_by_nr = (4, 3) ∷ (10, 10) ∷ [];
  fr_by_cnt = (3, 4) ∷ (10, 10) ∷ [];
}

abbrev after : FreeMap
after = record chunks { fr_by_nr = (4, 3) ∷ (15, 5) ∷ []; fr_by_cnt = (3, 4) ∷ (5, 15) ∷ [] }

chunks-IsFreeMap : IsFreeMap chunks
unfolding map_find
chunks-IsFreeMap = record {
  apart = (
    omega arith,
    omega arith,
    omega arith,
    omega arith,
    (omega arith, omega arith, omega arith, omega arith, tt),
  );
  listed = λ nr cnt. ground arith;
  ordered = (omega arith, omega arith, (omega arith, omega arith, tt));
}

alloc_run : alloc 5 chunks ≡ ok (record { raw_blk_nr = 10; raw_blk_cnt = 5 }, true, after)
unfolding alloc alloc_from usable_chunk use_chunk insert_chunk assert_sizes fail_alloc_if_empty
    lower_bound map_erase map_insert multimap_erase multimap_insert make_extent
alloc_run = refl

alloc-Conserves_example :
    (◌≡◌ {A = ℕ} 5 5)
    × (free_at 12 ((4, 3) ∷ (10, 10) ∷ [])
        ≡ holds 12 (blk_nr (record { raw_blk_nr = 10; raw_blk_cnt = 5 })) 5
          + free_at 12 ((4, 3) ∷ (15, 5) ∷ []))
    × IsFreeMap after
alloc-Conserves_example =
    alloc-Conserves chunks after (record { raw_blk_nr = 10; raw_blk_cnt = 5 }) 12 5 chunks-IsFreeMap
      alloc_run

-- Of ten blocks two would be left.
refused_run : alloc 8 chunks ≡ ok (record { raw_blk_nr = 0; raw_blk_cnt = 3 }, false, chunks)
unfolding alloc alloc_fails usable_chunk closest_cnt assert_sizes fail_alloc_if_empty lower_bound
    before_lower make_extent
refused_run = refl

alloc-Unusable_example : (chunks ≡ chunks) × All (λ p. Unusable 8 2 p) ((3, 4) ∷ (10, 10) ∷ [])
alloc-Unusable_example =
    alloc-Unusable chunks chunks (record { raw_blk_nr = 0; raw_blk_cnt = 3 }) 8 (omega arith)
      (omega arith) (omega arith, omega arith, (omega arith, omega arith, tt)) refused_run

-- Blocks 7 to 9 fill the gap between the two chunks.
abbrev filled : FreeMap
filled = record chunks { fr_by_nr = (4, 16) ∷ []; fr_by_cnt = (16, 4) ∷ [] }

dealloc_run : dealloc (record { raw_blk_nr = 7; raw_blk_cnt = 3 }) chunks ≡ ok filled
unfolding dealloc coalesce join_next join_prev erase_next erase_both erase_by_cnt
    erase_from_fr_by_cnt fail_if_overlap fail_if_chunk_overlaps fail_if_suballoc_or_zero_cnt
    assert_sizes before_lower lower_bound before_upper upper_bound map_erase map_update
    multimap_erase multimap_insert make_extent blk_nr is_suballoc past_end_blk_nr span_cnt expand_by
    distance_in_blks is_u16_add_ok
dealloc_run = refl

dealloc-Conserves_example :
    IsFreeMap filled
    × (free_at 8 ((4, 16) ∷ [])
        ≡ holds 8 (blk_nr (record { raw_blk_nr = 7; raw_blk_cnt = 3 })) 3
          + free_at 8 ((4, 3) ∷ (10, 10) ∷ []))
dealloc-Conserves_example =
    dealloc-Conserves 8 (record { raw_blk_nr = 7; raw_blk_cnt = 3 }) chunks filled chunks-IsFreeMap
      (omega arith) dealloc_run

inside_chunk : holds 12 (blk_nr (record { raw_blk_nr = 12; raw_blk_cnt = 2 })) 2 ≡ 1
unfolding blk_nr
inside_chunk = refl

-- Blocks 12 and 13 are free already.
dealloc-double_free_example :
    ¬ (dealloc (record { raw_blk_nr = 12; raw_blk_cnt = 2 }) chunks ≡ ok chunks)
dealloc-double_free_example =
    dealloc-double_free 12 (record { raw_blk_nr = 12; raw_blk_cnt = 2 }) chunks chunks
      chunks-IsFreeMap.apart inside_chunk (omega arith)
