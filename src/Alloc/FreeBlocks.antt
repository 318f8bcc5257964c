-- ===== src/Alloc/FreeBlocks.antt =====
-- xoz/alloc/free_map.h and free_map.cpp: the free chunks of whole blocks, by number and by count.
pub mod Invariant
pub mod Overlap
pub mod Joins
pub mod Grown
pub mod Merge
pub mod Finish
pub mod Frees
pub mod Conserves
pub mod Fits
use xoz.Base.{
  ℕ, ◌+◌, ◌-◌, ◌%◌, ◌^◌, Bool, true, false, not, ◌&&◌, ltb, leb, ◌==◌, if◌then◌else◌, List, [], ◌∷◌,
  length, Option, some, none, Result, ok, err, text_thrown, abort, assert, require, ◌>>=◌, ◌>>◌,
}
use xoz.Alloc.{fail_alloc_if_empty, fail_if_suballoc_or_zero_cnt}
use xoz.Alloc.Chunks.{
  Chunks, map_insert, map_erase, map_find, map_update, multimap_insert, multimap_erase, lower_bound,
  upper_bound, before_lower, before_upper,
}
use xoz.Extent.{
  Extent, blk_nr, blk_cnt, past_end_blk_nr, make_extent, expand_by, distance_in_blks, is_suballoc,
}
use xoz.Mem.Ints.{is_u16_add_ok}

pub record FreeMap : Type 0 where
  pub coalescing_enabled : Bool
  pub split_above_threshold : ℕ
  pub fr_by_nr : Chunks
  pub fr_by_cnt : Chunks

-- `assert(fr_by_nr.size() == fr_by_cnt.size())`
unfoldable pub assert_sizes : FreeMap → Result (Unit {0})
assert_sizes m = assert (length m.fr_by_nr == length m.fr_by_cnt)

unfoldable pub reset : FreeMap → FreeMap
reset m = record m { fr_by_nr = []; fr_by_cnt = [] }

unfoldable pub insert_chunk : ℕ → ℕ → FreeMap → FreeMap
insert_chunk nr cnt m = record m {
  fr_by_nr = map_insert nr cnt m.fr_by_nr;
  fr_by_cnt = multimap_insert cnt nr m.fr_by_cnt;
}

-- From `lower_bound` of the count on, the first entry with the number goes.
unfoldable pub erase_by_cnt : ℕ → ℕ → Chunks → Result Chunks
erase_by_cnt nr cnt [] = ok []
erase_by_cnt nr cnt ((c, n) ∷ xs) =
    let rest = erase_by_cnt nr cnt xs in
    if not (ltb c cnt) && n == nr
    then (do assert (c == cnt); ok xs)
    else (do ys ← rest; ok ((c, n) ∷ ys))

unfoldable pub erase_from_fr_by_cnt : ℕ → ℕ → FreeMap → Result FreeMap
erase_from_fr_by_cnt nr cnt m = do
  ys ← erase_by_cnt nr cnt m.fr_by_cnt
  ok (record m { fr_by_cnt = ys })

unfoldable pub erase_both : ℕ → ℕ → FreeMap → Result FreeMap
erase_both nr cnt m = do
  m ← erase_from_fr_by_cnt nr cnt m
  ok (record m { fr_by_nr = map_erase nr m.fr_by_nr })

unfoldable pub release : List Extent → FreeMap → Result FreeMap
release [] m = ok m
release (e ∷ es) m = do
  m ← (elim (map_find (blk_nr e) m.fr_by_nr) as (λ _. Result FreeMap) [
    | none ↦ err text_thrown
    | some cnt ↦ (do
      assert (not (is_suballoc e))
      require (cnt == blk_cnt e) text_thrown
      erase_both (blk_nr e) cnt m)
  ])
  release es m

-- A chunk may be used if it fits exactly, or if more blocks than the threshold are left of it; the
-- second look-up skips the chunks of which too few would be left.
unfoldable pub usable_chunk : ℕ → FreeMap → Option (ℕ × ℕ)
usable_chunk cnt m =
    let next_cnt = (cnt + m.split_above_threshold + 1) % 2 ^ 16 in
    elim (lower_bound cnt m.fr_by_cnt) as (λ _. Option (ℕ × ℕ)) [
      | none ↦ none
      | some (c, nr) ↦
          if not (c == cnt) && leb (c - cnt) m.split_above_threshold
          then (if leb next_cnt cnt then none else lower_bound next_cnt m.fr_by_cnt)
          else some (c, nr)
    ]

unfoldable pub closest_cnt : ℕ → FreeMap → ℕ
closest_cnt cnt m = elim (before_lower cnt none m.fr_by_cnt) as (λ _. ℕ) [
  | none ↦ 0
  | some (c, nr) ↦ c
]

-- The chunk at the count's iterator is taken out of both maps; what is left of it goes back.
unfoldable pub use_chunk : ℕ → ℕ → ℕ → FreeMap → Result FreeMap
use_chunk c nr cnt m =
    let taken : FreeMap = record m {
      fr_by_nr = map_erase nr m.fr_by_nr;
      fr_by_cnt = multimap_erase c nr m.fr_by_cnt;
    } in
    if c == cnt
    then ok taken
    else if ltb cnt c
    then (do
      assert (ltb m.split_above_threshold (c - cnt))
      ok (insert_chunk ((nr + cnt) % 2 ^ 32) (c - cnt) taken))
    else err abort

-- No chunk is usable: the extent tells the count that might be.
unfoldable pub alloc_fails : ℕ → FreeMap → Result (Extent × Bool × FreeMap)
alloc_fails cnt m = do ext ← make_extent 0 (closest_cnt cnt m) false; ok (ext, false, m)

unfoldable pub alloc_from : ℕ → ℕ → ℕ → FreeMap → Result (Extent × Bool × FreeMap)
alloc_from c nr cnt m = do
  ext ← make_extent nr cnt false
  m ← use_chunk c nr cnt m
  assert_sizes m
  ok (ext, true, m)

-- The extent, whether it was allocated, and the new map.
unfoldable pub alloc : ℕ → FreeMap → Result (Extent × Bool × FreeMap)
alloc cnt m = do
  fail_alloc_if_empty cnt
  assert_sizes m
  elim (usable_chunk cnt m) as (λ _. Result (Extent × Bool × FreeMap)) [
    | none ↦ alloc_fails cnt m
    | some (c, nr) ↦ alloc_from c nr cnt m
  ]

-- The chunk given must not overlap the one at or after its start, nor the one before.
unfoldable pub fail_if_chunk_overlaps : Option (ℕ × ℕ) → Extent → Result (Unit {0})
fail_if_chunk_overlaps none e = ok tt
fail_if_chunk_overlaps (some (nr, cnt)) e = do
  chunk ← make_extent nr cnt false
  _ ← distance_in_blks chunk e
  ok tt

unfoldable pub fail_if_overlap : Extent → FreeMap → Result (Unit {0})
fail_if_overlap e m = do
  fail_if_chunk_overlaps (before_lower (blk_nr e) none m.fr_by_nr) e
  fail_if_chunk_overlaps (lower_bound (blk_nr e) m.fr_by_nr) e

-- The extent joined with the chunk that starts where it ends, and whether it was.
unfoldable pub join_next : Option (ℕ × ℕ) → Extent → Result (Extent × Bool)
join_next none e = ok (e, false)
join_next (some (nr, cnt)) e =
    if past_end_blk_nr e == nr && is_u16_add_ok cnt (blk_cnt e)
    then (do joined ← expand_by e cnt; ok (joined, true))
    else ok (e, false)

-- The chunk that ends where the extent starts grows by it, in place.
unfoldable pub join_prev : Option (ℕ × ℕ) → Extent → FreeMap → Result (Bool × FreeMap)
join_prev none e m = ok (false, m)
join_prev (some (nr, cnt)) e m =
    if (nr + cnt) % 2 ^ 32 == blk_nr e && is_u16_add_ok cnt (blk_cnt e)
    then (do
      m ← erase_from_fr_by_cnt nr cnt m
      _ ← make_extent nr (cnt + blk_cnt e) false
      ok (
        true,
        record m {
          fr_by_nr = map_update nr (cnt + blk_cnt e) m.fr_by_nr;
          fr_by_cnt = multimap_insert (cnt + blk_cnt e) nr m.fr_by_cnt;
        },
      ))
    else ok (false, m)

unfoldable pub erase_next : Option (ℕ × ℕ) → Bool → FreeMap → Result FreeMap
erase_next (some (nr, cnt)) true m = erase_both nr cnt m
erase_next (some (nr, cnt)) false m = ok m
erase_next none with_next m = ok m

unfoldable pub coalesce : Extent → FreeMap → Result FreeMap
coalesce e m = do
  let next = upper_bound (blk_nr e) m.fr_by_nr
  let prev = before_upper (blk_nr e) none m.fr_by_nr
  (joined, with_next) ← join_next next e
  (with_prev, m) ← join_prev prev joined m
  m ← erase_next next with_next m
  ok (if with_prev then m else insert_chunk (blk_nr joined) (blk_cnt joined) m)

unfoldable pub dealloc : Extent → FreeMap → Result FreeMap
dealloc e m = do
  fail_if_suballoc_or_zero_cnt e
  fail_if_overlap e m
  m ← (if m.coalescing_enabled then coalesce e m else ok (insert_chunk (blk_nr e) (blk_cnt e) m))
  assert_sizes m
  ok m

unfoldable pub provide : List Extent → FreeMap → Result FreeMap
provide [] m = do assert_sizes m; ok m
provide (e ∷ es) m = do m ← dealloc e m; provide es m
