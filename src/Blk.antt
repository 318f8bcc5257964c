-- ===== src/Blk.antt =====
-- xoz/blk/block_array.h and block_array.cpp: the window of blocks in use, which grows and shrinks at
-- its end, with slack behind it. The virtual methods that move the real end are a Backend; the
-- arrays that read and write files are such backends.
pub mod Vector
pub mod Growth
pub mod Overallocation
pub mod Sizes
use xoz.Base.{
  ℕ, ◌+◌, ◌-◌, ◌*◌, ◌/◌, ◌%◌, ◌^◌, min, Bool, true, false, not, ◌&&◌, ◌||◌, ltb, leb, ◌==◌,
  if◌then◌else◌, Result, ok, err, runtime_error, extent_out_of_bounds, would_end_up_inconsistent,
  assert, require, ◌>>=◌, ◌>>◌, List, [], ◌∷◌, Option, some, none,
}
use xoz.Extent.{
  Extent, blk_nr, past_end_blk_nr, calc_data_space_size, max_blk_nr, subblk_cnt_per_blk,
}
use xoz.Mem.Ints.{is_u32_add_ok, assert_integral_cast, u32_log2_floor}
use xoz.Segment.{Segment, make_segment, set_inline_data, add_extent}

-- Of the array's segment allocator: `allow_suballoc` is its default requirement, and `managed` what it
-- keeps of the array that it manages, which are the size of a block, its order, and the size of a
-- sub-block; none is a null pointer to the array.
pub record BlockArray : Type 0 where
  pub blk_sz : ℕ
  pub blk_sz_order : ℕ
  pub begin_nr : ℕ
  pub past_end : ℕ
  pub real_past_end : ℕ
  pub is_initialized : Bool
  pub allow_suballoc : Bool
  pub managed : Option (ℕ × ℕ × ℕ)
  pub grow_call_cnt : ℕ
  pub grow_expand_capacity_call_cnt : ℕ
  pub shrink_call_cnt : ℕ
  pub release_call_cnt : ℕ

-- `impl_grow_by_blocks`, `impl_shrink_by_blocks` and `impl_release_blocks`, on the state of a
-- subclass; they may read the array.
pub record Backend (S : Type 0) : Type 0 where
  pub impl_grow : BlockArray → ℕ → S → Result (ℕ × ℕ × S)
  pub impl_shrink : BlockArray → ℕ → S → Result (ℕ × S)
  pub impl_release : BlockArray → S → Result (ℕ × S)

abbrev pub blk_nr_exhaust : ℕ
blk_nr_exhaust = max_blk_nr - 32

-- `blk_sz != uint32_t(1 << u32_log2_floor(blk_sz))`
unfoldable pub is_power_of_two : ℕ → Bool
is_power_of_two n = n == 2 ^ u32_log2_floor n % 2 ^ 32

unfoldable pub fail_if_bad_blk_sz : ℕ → ℕ → ℕ → Result (Unit {0})
fail_if_bad_blk_sz blk_sz min_subblk_sz min_blk_sz = do
  require (not (blk_sz == 0)) runtime_error
  require (leb min_blk_sz blk_sz) runtime_error
  require (is_power_of_two blk_sz) runtime_error
  if min_subblk_sz == 0 then ok tt else (do
    require (is_power_of_two min_subblk_sz) runtime_error
    let smallest = subblk_cnt_per_blk * min_subblk_sz % 2 ^ 32
    require (leb min_subblk_sz smallest) runtime_error
    require (leb smallest blk_sz) runtime_error
    assert (blk_sz % smallest == 0))

unfoldable pub fail_if_bad_blk_nr : ℕ → Result (Unit {0})
fail_if_bad_blk_nr nr = require (leb nr max_blk_nr) runtime_error

unfoldable pub subblk_sz : BlockArray → ℕ
subblk_sz a = a.blk_sz / 2 ^ 4

-- `SegmentAllocator::manage_block_array`, on the array that has the allocator.
unfoldable pub manage_block_array : BlockArray → Result BlockArray
unfolding subblk_sz
manage_block_array a = do
  require (elim a.managed as (λ _. Bool) [ none ↦ true | some kept ↦ false ]) runtime_error
  require (not (a.blk_sz == 0 || a.blk_sz_order == 0)) runtime_error
  require (not (subblk_sz a == 0 && a.allow_suballoc)) runtime_error
  ok (record a { managed = some (a.blk_sz, a.blk_sz_order, subblk_sz a) })

unfoldable pub initialize_block_array : ℕ → ℕ → ℕ → BlockArray → Result BlockArray
unfolding manage_block_array
initialize_block_array blk_sz begin_nr past_end a = do
  fail_if_bad_blk_sz blk_sz 0 0
  assert (ltb blk_sz subblk_cnt_per_blk || blk_sz % subblk_cnt_per_blk == 0)
  require (leb begin_nr past_end) runtime_error
  a ← manage_block_array (record a {
    blk_sz = blk_sz;
    blk_sz_order = u32_log2_floor blk_sz;
    begin_nr = begin_nr;
    past_end = past_end;
    real_past_end = past_end;
    allow_suballoc = if ltb blk_sz subblk_cnt_per_blk then false else a.allow_suballoc;
  })
  ok (record a { is_initialized = true })

unfoldable pub fail_if_not_initialized : BlockArray → Result (Unit {0})
fail_if_not_initialized a = require a.is_initialized runtime_error

unfoldable pub array_blk_cnt : BlockArray → ℕ
array_blk_cnt a = (a.past_end + 2 ^ 32 - a.begin_nr) % 2 ^ 32

unfoldable pub capacity : BlockArray → ℕ
capacity a = (array_blk_cnt a + (a.real_past_end + 2 ^ 32 - a.past_end)) % 2 ^ 32

-- The window is in order: `begin <= past_end <= real_past_end`.
unfoldable pub assert_window : BlockArray → Result (Unit {0})
assert_window a = do assert (leb a.begin_nr a.past_end); assert (leb a.past_end a.real_past_end)

-- The blocks that the slack lacks, in uint16_t.
unfoldable pub lacking_cnt : ℕ → BlockArray → ℕ
lacking_cnt cnt a = (cnt + 2 ^ 16 - (a.real_past_end - a.past_end) % 2 ^ 16) % 2 ^ 16

-- The pointers move once the backend has grown.
unfoldable pub adopt_grown : {S : Type 0} → ℕ → BlockArray → ℕ × ℕ × S → Result (ℕ × BlockArray × S)
adopt_grown cnt a (nr, real_cnt, s) = do
  assert (leb (lacking_cnt cnt a) real_cnt)
  assert (is_u32_add_ok a.past_end real_cnt)
  assert (is_u32_add_ok a.real_past_end real_cnt)
  let a = record a {
    real_past_end = (a.real_past_end + real_cnt) % 2 ^ 32;
    past_end = (a.past_end + cnt) % 2 ^ 32;
  }
  assert (leb a.past_end a.real_past_end)
  ok (nr, a, s)

-- The slack does not hold all the blocks, so the backend adds the others, or more.
unfoldable pub grow_capacity :
    {S : Type 0} → Backend S → ℕ → BlockArray → S → Result (ℕ × BlockArray × S)
grow_capacity backend cnt a s = do
  require (ltb ((a.real_past_end + lacking_cnt cnt a) % 2 ^ 32) blk_nr_exhaust)
      would_end_up_inconsistent
  let a = record a { grow_expand_capacity_call_cnt = a.grow_expand_capacity_call_cnt + 1 }
  grown ← backend.impl_grow a (lacking_cnt cnt a) s
  adopt_grown cnt a grown

-- The number of the first new block, the array, and the backend's state.
unfoldable pub grow_by_blocks :
    {S : Type 0} → Backend S → ℕ → BlockArray → S → Result (ℕ × BlockArray × S)
grow_by_blocks backend cnt a s = do
  fail_if_not_initialized a
  require (not (cnt == 0)) runtime_error
  assert (is_u32_add_ok a.past_end cnt)
  assert (is_u32_add_ok a.real_past_end cnt)
  assert_window a
  let a = record a { grow_call_cnt = a.grow_call_cnt + 1 }
  if leb cnt (a.real_past_end - a.past_end)
      then ok (a.past_end, record a { past_end = (a.past_end + cnt) % 2 ^ 32 }, s)
      else grow_capacity backend cnt a s

unfoldable pub shrink_by_blocks :
    {S : Type 0} → Backend S → ℕ → BlockArray → S → Result (BlockArray × S)
shrink_by_blocks backend cnt a s = do
  fail_if_not_initialized a
  require (not (cnt == 0)) runtime_error
  require (leb cnt (array_blk_cnt a)) runtime_error
  let a = record a { shrink_call_cnt = a.shrink_call_cnt + 1 }
  (real_cnt, s) ← backend.impl_shrink a cnt s
  let a = record a {
    past_end = (a.past_end + 2 ^ 32 - cnt) % 2 ^ 32;
    real_past_end = (a.real_past_end + 2 ^ 32 - real_cnt) % 2 ^ 32;
  }
  assert_window a
  ok (a, s)

unfoldable pub release_blocks :
    {S : Type 0} → Backend S → BlockArray → S → Result (ℕ × BlockArray × S)
release_blocks backend a s = do
  fail_if_not_initialized a
  let a = record a { release_call_cnt = a.release_call_cnt + 1 }
  (real_cnt, s) ← backend.impl_release a s
  let a = record a { real_past_end = (a.real_past_end + 2 ^ 32 - real_cnt) % 2 ^ 32 }
  assert_window a
  ok (real_cnt, a, s)

unfoldable pub is_extent_within_boundaries : BlockArray → Extent → Bool
is_extent_within_boundaries a e =
    not
      (ltb (blk_nr e) a.begin_nr || leb a.past_end (blk_nr e) || ltb a.past_end (past_end_blk_nr e))

unfoldable pub fail_if_out_of_boundaries : BlockArray → Extent → Result (Unit {0})
fail_if_out_of_boundaries a e = do
  fail_if_not_initialized a
  require (is_extent_within_boundaries a e) extent_out_of_bounds

-- How many bytes of the extent are read or written from a start on; 0 is the end of it.
unfoldable pub chk_extent_for_rw : BlockArray → Extent → ℕ → ℕ → Result ℕ
chk_extent_for_rw a e max_data_sz start = do
  fail_if_out_of_boundaries a e
  usable_sz ← calc_data_space_size e a.blk_sz_order
  ok (if leb usable_sz start then 0 else min (usable_sz - start) max_data_sz)

pub data RoundMode : Type 0 where
  exact floor ceil : RoundMode

-- The shift wraps in uint32_t before the cast.
unfoldable pub blk2bytes : BlockArray → ℕ → Result ℕ
blk2bytes a cnt = assert_integral_cast 32 (cnt * 2 ^ a.blk_sz_order % 2 ^ 32)

unfoldable pub bytes2blk_cnt : BlockArray → ℕ → RoundMode → Result ℕ
bytes2blk_cnt a bytes exact = do
  assert (bytes % a.blk_sz == 0)
  assert_integral_cast 16 (bytes / 2 ^ a.blk_sz_order)
bytes2blk_cnt a bytes floor = assert_integral_cast 16 (bytes / 2 ^ a.blk_sz_order)
bytes2blk_cnt a bytes ceil =
    assert_integral_cast 16 ((bytes + a.blk_sz + 2 ^ 32 - 1) % 2 ^ 32 / 2 ^ a.blk_sz_order)

unfoldable pub bytes2subblk_cnt : BlockArray → ℕ → RoundMode → Result ℕ
bytes2subblk_cnt a bytes mode = do
  assert (leb bytes a.blk_sz)
  assert (leb 4 a.blk_sz_order)
  elim mode as (λ _. Result ℕ) [
    | exact ↦ (do
      assert (bytes % subblk_sz a == 0)
      assert_integral_cast 16 (bytes / 2 ^ (a.blk_sz_order - 4)))
    | floor ↦ assert_integral_cast 16 (bytes / 2 ^ (a.blk_sz_order - 4))
    | ceil ↦
        assert_integral_cast 16
          ((bytes + subblk_sz a + 2 ^ 32 - 1) % 2 ^ 32 / 2 ^ (a.blk_sz_order - 4))
  ]

unfoldable pub bytes2blk_nr : BlockArray → ℕ → Result ℕ
bytes2blk_nr a bytes = do
  assert (bytes % a.blk_sz == 0)
  assert_integral_cast 32 (bytes / 2 ^ a.blk_sz_order)

unfoldable pub create_segment : BlockArray → Segment
create_segment a = make_segment a.blk_sz_order

unfoldable pub create_segment_with : List ℕ → BlockArray → Segment
create_segment_with bytes a = set_inline_data (make_segment a.blk_sz_order) bytes

unfoldable pub create_segment_of : Extent → BlockArray → Result Segment
create_segment_of e a = add_extent (make_segment a.blk_sz_order) e
