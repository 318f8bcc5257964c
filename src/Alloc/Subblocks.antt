-- ===== src/Alloc/Subblocks.antt =====
-- xoz/alloc/subblock_free_map.h and subblock_free_map.cpp: blocks of which some of the 16 sub-blocks
-- are free, by number and, in 16 bins, by how many are. The array of bins is a function from its
-- index.
pub mod Places
pub mod Invariant
pub mod Takes
pub mod Chosen
pub mod Rest
pub mod Allocs
pub mod Provides
pub mod Frees
pub mod Returns
use xoz.Base.{
  ℕ, zero, suc, ◌+◌, ◌-◌, ◌%◌, ◌^◌, bit_and, bit_or, Bool, true, false, not, ◌&&◌, ltb, leb, ◌==◌,
  if◌then◌else◌, List, [], ◌∷◌, length, Option, some, none, Result, ok, err, text_thrown, abort,
  runtime_error, extent_overlap, assert, require, ◌>>=◌, ◌>>◌,
}
use xoz.Alloc.{fail_alloc_if_empty}
use xoz.Alloc.Chunks.{Table, map_insert, map_erase, map_find, map_update}
use xoz.Extent.{
  Extent, is_suballoc, blk_nr, blk_cnt, blk_bitmap, subblk_cnt, subblk_cnt_per_blk, make_extent,
  set_bitmap, move_to, can_be_for_suballoc, can_be_single_blk, as_suballoc,
}

abbrev pub Bins : Type 0
Bins = ℕ → Table Extent

pub record SubblkFreeMap : Type 0 where
  pub exts_bin : Bins
  pub fr_by_nr : Table Extent
  pub owned_subblk_cnt : ℕ
  pub allocated_subblk_cnt : ℕ

abbrev pub no_free_map : SubblkFreeMap
no_free_map = record {
  exts_bin = λ bin. [];
  fr_by_nr = [];
  owned_subblk_cnt = 0;
  allocated_subblk_cnt = 0;
}

-- `exts_bin[bin] = exts`
abbrev pub set_bin : ℕ → Table Extent → Bins → Bins
set_bin bin exts bins = λ i. if i == bin then exts else bins i

-- The sizes of the bins from one on, n in all.
abbrev pub entries_from : ℕ → ℕ → Bins → ℕ
entries_from zero bin bins = 0
entries_from (suc n) bin bins = length (bins bin) + entries_from n (bin + 1) bins

unfoldable pub count_entries_in_bins : Bins → ℕ
count_entries_in_bins bins = entries_from subblk_cnt_per_blk 0 bins

unfoldable pub assert_entries : SubblkFreeMap → Result (Unit {0})
assert_entries m = assert (length m.fr_by_nr == count_entries_in_bins m.exts_bin)

unfoldable pub fail_if_not_subblk_or_zero_cnt : Extent → Result (Unit {0})
fail_if_not_subblk_or_zero_cnt e = require (is_suballoc e && not (blk_bitmap e == 0)) runtime_error

unfoldable pub fail_if_blk_nr_already_seen : Extent → SubblkFreeMap → Result (Unit {0})
fail_if_blk_nr_already_seen e m =
    elim (map_find (blk_nr e) m.fr_by_nr) as (λ _. Result (Unit {0})) [
      | none ↦ ok tt
      | some seen ↦ err extent_overlap
    ]

-- The bin of an extent, in uint8_t.
abbrev pub bin_of : Extent → ℕ
bin_of e = (subblk_cnt e + 255) % 256

-- `exts_bin[bin].insert({ext.blk_nr(), ext})`
abbrev pub bin_insert : Extent → Bins → Bins
bin_insert e bins = set_bin (bin_of e) (map_insert (blk_nr e) e (bins (bin_of e))) bins

abbrev pub bin_erase : ℕ → ℕ → Bins → Bins
bin_erase bin nr bins = set_bin bin (map_erase nr (bins bin)) bins

unfoldable pub provide_subblk_ext : Extent → SubblkFreeMap → Result SubblkFreeMap
provide_subblk_ext e m = do
  fail_if_not_subblk_or_zero_cnt e
  fail_if_blk_nr_already_seen e m
  ok (record m {
    fr_by_nr = map_insert (blk_nr e) e m.fr_by_nr;
    exts_bin = bin_insert e m.exts_bin;
    owned_subblk_cnt = (m.owned_subblk_cnt + subblk_cnt e) % 2 ^ 64;
  })

unfoldable pub provide_any_ext : Extent → SubblkFreeMap → Result SubblkFreeMap
provide_any_ext e m = do
  m ←
      (if is_suballoc e then provide_subblk_ext e m else (do
        usable ← can_be_for_suballoc e
        require usable runtime_error
        e ← as_suballoc e
        provide_subblk_ext e m))
  assert_entries m
  ok m

unfoldable pub provide_each : List Extent → SubblkFreeMap → Result SubblkFreeMap
provide_each [] m = ok m
provide_each (e ∷ es) m = do m ← provide_any_ext e m; provide_each es m

unfoldable pub provide : List Extent → SubblkFreeMap → Result SubblkFreeMap
provide es m = do m ← provide_each es m; assert_entries m; ok m

-- A block all of whose sub-blocks are free goes from the map and from the last bin.
unfoldable pub release_full : Extent → Extent → SubblkFreeMap → Result SubblkFreeMap
release_full e ours m = do
  single ← can_be_single_blk ours
  require single text_thrown
  elim (map_find (blk_nr e) (m.exts_bin 15)) as (λ _. Result SubblkFreeMap) [
    | none ↦ err text_thrown
    | some found ↦ ok (record m {
      exts_bin = bin_erase 15 (blk_nr e) m.exts_bin;
      fr_by_nr = map_erase (blk_nr e) m.fr_by_nr;
      owned_subblk_cnt = (m.owned_subblk_cnt + (2 ^ 64 - subblk_cnt_per_blk)) % 2 ^ 64;
    })
  ]

unfoldable pub release_ext : Extent → SubblkFreeMap → Result SubblkFreeMap
release_ext e m = do
  assert (not (is_suballoc e))
  require (blk_cnt e == 1) text_thrown
  elim (map_find (blk_nr e) m.fr_by_nr) as (λ _. Result SubblkFreeMap) [
    | none ↦ err text_thrown
    | some ours ↦ release_full e ours m
  ]

unfoldable pub release_each : List Extent → SubblkFreeMap → Result SubblkFreeMap
release_each [] m = ok m
release_each (e ∷ es) m = do m ← release_ext e m; release_each es m

unfoldable pub release : List Extent → SubblkFreeMap → Result SubblkFreeMap
release es m = do m ← release_each es m; assert_entries m; ok m

-- `reset` clears both maps and the counters.
unfoldable pub reset : SubblkFreeMap → Result SubblkFreeMap
reset m = do assert_entries no_free_map; ok no_free_map

-- The first entry of the first bin from one on that has any, n bins in all.
unfoldable pub first_fit : ℕ → ℕ → Bins → Option (ℕ × ℕ × Extent)
first_fit zero bin bins = none
first_fit (suc n) bin bins = elim (bins bin) as (λ _. Option (ℕ × ℕ × Extent)) [
  | [] ↦ first_fit n (bin + 1) bins
  | (nr, e) ∷ rest ↦ some (bin, nr, e)
]

-- The loop of `alloc` over the bits: what is free, what is taken, and how many are to be taken.
pub record Picking : Type 0 where
  pub free_bitmask : ℕ
  pub allocated_bitmask : ℕ
  pub to_take : ℕ
  pub free_cnt : ℕ

unfoldable pub pick_at : ℕ → Picking → Result Picking
pick_at i s =
    if ltb 0 s.to_take && not (bit_and s.free_bitmask (2 ^ i) == 0)
    then (do
      assert (ltb 0 s.free_cnt)
      ok (record {
        free_bitmask = bit_and s.free_bitmask (0xffff - 2 ^ i);
        allocated_bitmask = bit_or s.allocated_bitmask (2 ^ i);
        to_take = s.to_take - 1;
        free_cnt = s.free_cnt - 1;
      }))
    else ok s

-- From bit n - 1 down.
unfoldable pub pick_down : ℕ → Picking → Result Picking
pick_down zero s = ok s
pick_down (suc n) s = do s ← pick_at n s; pick_down n s

-- The block that lost sub-blocks goes from the map by number, or to another bin.
unfoldable pub put_rest : Extent → SubblkFreeMap → Result SubblkFreeMap
put_rest free_ext m = elim (map_find (blk_nr free_ext) m.fr_by_nr) as (λ _. Result SubblkFreeMap) [
  | none ↦ err abort
  | some old ↦ ok (
      if subblk_cnt free_ext == 0
      then record m { fr_by_nr = map_erase (blk_nr free_ext) m.fr_by_nr }
      else record m {
        exts_bin = bin_insert free_ext m.exts_bin;
        fr_by_nr = map_update (blk_nr free_ext) free_ext m.fr_by_nr;
      })
]

-- The sub-blocks that are taken of a block, which has left its bin.
unfoldable pub alloc_from : ℕ → Extent → SubblkFreeMap → Result (Extent × Bool × SubblkFreeMap)
alloc_from cnt free_ext m = do
  s ← pick_down subblk_cnt_per_blk (record {
    free_bitmask = blk_bitmap free_ext;
    allocated_bitmask = 0;
    to_take = cnt;
    free_cnt = subblk_cnt free_ext;
  })
  assert (s.to_take == 0)
  e ← make_extent (blk_nr free_ext) s.allocated_bitmask true
  rest ← set_bitmap free_ext s.free_bitmask
  assert (subblk_cnt rest == s.free_cnt)
  assert (bit_and (blk_bitmap e) (0xffff - blk_bitmap rest) == blk_bitmap e)
  m ← put_rest rest m
  assert_entries m
  ok (e, true, record m { allocated_subblk_cnt = (m.allocated_subblk_cnt + subblk_cnt e) % 2 ^ 64 })

-- Nothing was found: the extent of no sub-blocks, and the map as it is.
unfoldable pub alloc_fails : Extent → SubblkFreeMap → Result (Extent × Bool × SubblkFreeMap)
alloc_fails free_ext m = do assert_entries m; ok (free_ext, false, m)

-- The extent, whether it was allocated, and the new map.
unfoldable pub alloc : ℕ → SubblkFreeMap → Result (Extent × Bool × SubblkFreeMap)
alloc cnt m = do
  fail_alloc_if_empty cnt
  require (leb cnt subblk_cnt_per_blk) runtime_error
  nothing ← make_extent 0 0 true
  elim (first_fit (subblk_cnt_per_blk + 1 - cnt) (cnt - 1) m.exts_bin)
      as (λ _. Result (Extent × Bool × SubblkFreeMap)) [
        | none ↦ alloc_fails nothing m
        | some (bin, nr, e) ↦
            (let taken : SubblkFreeMap = record m { exts_bin = bin_erase bin nr m.exts_bin } in
              if subblk_cnt e == 0 then alloc_fails e taken else alloc_from cnt e taken)
      ]

-- The bins have no entry of the block.
unfoldable pub in_no_bin : ℕ → ℕ → ℕ → Bins → Bool
in_no_bin zero bin nr bins = true
in_no_bin (suc n) bin nr bins =
    let rest = in_no_bin n (bin + 1) nr bins in
    elim (map_find nr (bins bin)) as (λ _. Bool) [ none ↦ rest | some e ↦ false ]

-- A block that is partly free already, taken out of its bin.
unfoldable pub take_partly_free : Extent → Extent → SubblkFreeMap → Result SubblkFreeMap
take_partly_free e free_ext m = do
  require (bit_and (blk_bitmap e) (0xffff - blk_bitmap free_ext) == blk_bitmap e) extent_overlap
  elim (map_find (blk_nr free_ext) (m.exts_bin (bin_of free_ext))) as (λ _. Result SubblkFreeMap) [
    | none ↦ err abort
    | some found ↦
        ok (record m { exts_bin = bin_erase (bin_of free_ext) (blk_nr free_ext) m.exts_bin })
  ]

-- The free extent joined with the given one.
unfoldable pub merge_free : Extent → Extent → Result Extent
merge_free e free_ext = do
  joined ← set_bitmap free_ext (bit_or (blk_bitmap free_ext) (blk_bitmap e))
  ok (move_to joined (blk_nr e))

-- The end of `dealloc`; the count that is subtracted is the one of the whole free extent.
unfoldable pub finish_dealloc : Extent → Table Extent → SubblkFreeMap → Result SubblkFreeMap
finish_dealloc free_ext by_nr m = do
  let m = record m { exts_bin = bin_insert free_ext m.exts_bin; fr_by_nr = by_nr }
  assert_entries m
  ok (record m {
    allocated_subblk_cnt = (m.allocated_subblk_cnt + (2 ^ 64 - subblk_cnt free_ext)) % 2 ^ 64;
  })

unfoldable pub dealloc : Extent → SubblkFreeMap → Result SubblkFreeMap
dealloc e m = do
  fail_if_not_subblk_or_zero_cnt e
  elim (map_find (blk_nr e) m.fr_by_nr) as (λ _. Result SubblkFreeMap) [
    | none ↦ (do
      nothing ← make_extent 0 0 true
      assert (in_no_bin subblk_cnt_per_blk 0 (blk_nr e) m.exts_bin)
      free_ext ← merge_free e nothing
      finish_dealloc free_ext (map_insert (blk_nr free_ext) free_ext m.fr_by_nr) m)
    | some old ↦ (do
      m ← take_partly_free e old m
      free_ext ← merge_free e old
      finish_dealloc free_ext (map_update (blk_nr e) free_ext m.fr_by_nr) m)
  ]

-- `fill_bin_stats`: the sizes of the bins, written to an array of the given length.
unfoldable pub bin_stats : ℕ → ℕ → Bins → List ℕ
bin_stats zero bin bins = []
bin_stats (suc n) bin bins = length (bins bin) ∷ bin_stats n (bin + 1) bins

unfoldable pub fill_bin_stats : ℕ → SubblkFreeMap → Result (List ℕ)
fill_bin_stats len m = do
  require (leb subblk_cnt_per_blk len) text_thrown
  ok (bin_stats subblk_cnt_per_blk 0 m.exts_bin)
