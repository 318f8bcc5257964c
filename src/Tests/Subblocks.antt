-- ===== src/Tests/Subblocks.antt =====
-- A map of free sub-blocks at concrete inputs.
use xoz.Base.{
  ℕ, ◌<◌, ◌≡◌, ◌≢◌, ◌⊎◌, refl, arith, bit_and, true, false, none, [], ok, err, extent_overlap,
}
use xoz.Base.Binary.{bit, ones}
use xoz.Alloc.{fail_alloc_if_empty}
use xoz.Alloc.Chunks.{map_insert, map_erase, map_find, map_update}
use xoz.Alloc.Subblocks.{
  SubblkFreeMap, Bins, bin_insert, bin_erase, alloc, alloc_from, dealloc, first_fit, pick_at,
  pick_down, put_rest, assert_entries, count_entries_in_bins, provide_any_ext, release_ext,
}
use xoz.Alloc.Subblocks.Invariant.{IsPlaced, IsSubblkFreeMap, IsFreeBlock, inserted-IsPlaced}
use xoz.Alloc.Subblocks.Rest.{free_bits, IsTaken}
use xoz.Alloc.Subblocks.Allocs.{alloc-ends}
use xoz.Alloc.Subblocks.Frees.{dealloc-ends, IsGiven}
use xoz.Alloc.Subblocks.Returns.{dealloc-alloc_subblks}
use xoz.Alloc.Subblocks.Provides.{release-provide, whole}
use xoz.Extent.{Extent, blk_nr, blk_bitmap, subblk_cnt, is_suballoc, make_extent, set_bitmap}
use xoz.Extent.Laws.{extent_of}
use xoz.Mem.Ints.{u16_count_bits}

-- The lower eight sub-blocks of block 5 are free.
abbrev block_5 : Extent
block_5 = extent_of 5 0x00ff true

abbrev no_bins : Bins
no_bins = λ bin. []

abbrev held : SubblkFreeMap
held = record {
  exts_bin = bin_insert block_5 no_bins;
  fr_by_nr = map_insert 5 block_5 [];
  owned_subblk_cnt = 8;
  allocated_subblk_cnt = 0;
}

nothing-IsPlaced : IsPlaced no_bins []
unfolding map_find count_entries_in_bins
nothing-IsPlaced = record {
  keys = tt;
  bin_keys = λ i. tt;
  placed = λ i k. refl;
  entries = λ k e h. absurd (ground (arith, h));
  sizes = refl;
}

held-IsSubblkFreeMap : IsSubblkFreeMap held
unfolding map_find
held-IsSubblkFreeMap =
    inserted-IsPlaced no_bins [] 5 block_5 nothing-IsPlaced refl (record {
      made = refl;
      nr_fits = omega arith;
      some_free = omega arith;
      cnt_fits = omega arith;
    })

alloc-ends_example :
    ((e : Extent) × (m' : SubblkFreeMap) × (alloc 3 held ≡ ok (e, true, m')) × IsTaken 3 e held m')
    ⊎ ((alloc 3 held ≡ ok (extent_of 0 0 true, false, held))
        × ((nr : ℕ) → ones 16 (free_bits nr held) < 3))
alloc-ends_example = alloc-ends held 3 held-IsSubblkFreeMap (omega arith) (omega arith)

-- The upper eight sub-blocks.
abbrev upper_half : Extent
upper_half = extent_of 5 0xff00 true

upper_half-IsFreeBlock : IsFreeBlock (blk_nr upper_half) upper_half
unfolding blk_nr
upper_half-IsFreeBlock = record {
  made = refl;
  nr_fits = omega arith;
  some_free = omega arith;
  cnt_fits = omega arith;
}

dealloc-ends_example :
    ((m' : SubblkFreeMap) × (dealloc upper_half held ≡ ok m') × IsGiven upper_half held m')
    ⊎ ((dealloc upper_half held ≡ err extent_overlap)
        × (bit_and (blk_bitmap upper_half) (free_bits (blk_nr upper_half) held) ≢ 0))
dealloc-ends_example = dealloc-ends held upper_half held-IsSubblkFreeMap upper_half-IsFreeBlock

-- Three of the eight are taken from the top, and five are left.
abbrev three_taken : SubblkFreeMap
three_taken = record held {
  exts_bin = bin_insert (extent_of 5 0x001f true) (bin_erase 7 5 held.exts_bin);
  fr_by_nr = map_update 5 (extent_of 5 0x001f true) held.fr_by_nr;
  allocated_subblk_cnt = 3;
}

alloc_run : alloc 3 held ≡ ok (extent_of 5 0x00e0 true, true, three_taken)
unfolding alloc alloc_from first_fit pick_at pick_down put_rest assert_entries count_entries_in_bins
    fail_alloc_if_empty map_insert map_erase map_find map_update make_extent set_bitmap blk_nr
    subblk_cnt is_suballoc u16_count_bits
alloc_run = refl

dealloc-alloc_subblks_example :
    (m'' : SubblkFreeMap) × (dealloc (extent_of 5 0x00e0 true) three_taken ≡ ok m'')
    × IsSubblkFreeMap m''
    × ((nr j : ℕ) → bit j (free_bits nr m'') ≡ bit j (free_bits nr held))
dealloc-alloc_subblks_example =
    dealloc-alloc_subblks held three_taken (extent_of 5 0x00e0 true) 3 held-IsSubblkFreeMap
      (omega arith) (omega arith) alloc_run

block_9_absent : map_find 9 held.fr_by_nr ≡ none
unfolding map_find map_insert
block_9_absent = refl

release-provide_example :
    (m1 m2 : SubblkFreeMap) × (provide_any_ext (whole 9) held ≡ ok m1)
    × IsSubblkFreeMap m1
    × (release_ext (whole 9) m1 ≡ ok m2)
    × (m2.fr_by_nr ≡ held.fr_by_nr)
    × ((i : ℕ) → m2.exts_bin i ≡ held.exts_bin i)
    × (◌≡◌ {A = ℕ} m2.owned_subblk_cnt 8)
release-provide_example =
    release-provide 9 held held-IsSubblkFreeMap (omega arith) block_9_absent (omega arith)
