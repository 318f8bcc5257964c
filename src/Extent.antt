-- ===== src/Extent.antt =====
-- xoz/ext/extent.h and extent.cpp. An extent is a run of whole blocks, or a set of the 16
-- sub-blocks of one block; the top bit of the block number field tells which.
-- `blk_cnt` and `blk_bitmap` stand for the accessors where the source calls them under a test of
-- `is_suballoc`; elsewhere their assertion is written out.
pub mod Laws
pub mod Splits
pub mod Gaps
use xoz.Base.{
  ℕ, zero, suc, ◌+◌, ◌-◌, ◌*◌, ◌/◌, ◌%◌, ◌^◌, bit_and, bit_or, Bool, true, false, not, ◌&&◌, leb,
  ltb, ◌==◌, if◌then◌else◌, Result, ok, err, abort, runtime_error, extent_overlap, assert, require,
  ◌>>=◌, ◌>>◌,
}
use xoz.Mem.Ints.{u16_count_bits, is_u16_add_ok}

pub record Extent : Type 0 where
  pub raw_blk_nr : ℕ
  pub raw_blk_cnt : ℕ

abbrev pub subblk_cnt_per_blk : ℕ
subblk_cnt_per_blk = 16

abbrev pub max_blk_nr : ℕ
max_blk_nr = 2 ^ 26 - 1

unfoldable pub is_suballoc : Extent → Bool
is_suballoc e = not (bit_and e.raw_blk_nr 0x80000000 == 0)

unfoldable pub blk_nr : Extent → ℕ
blk_nr e = bit_and e.raw_blk_nr 0x03ffffff

abbrev pub blk_cnt : Extent → ℕ
blk_cnt e = e.raw_blk_cnt

abbrev pub blk_bitmap : Extent → ℕ
blk_bitmap e = e.raw_blk_cnt

unfoldable pub subblk_cnt : Extent → ℕ
subblk_cnt e = u16_count_bits e.raw_blk_cnt

-- The constructor.
unfoldable pub make_extent : ℕ → ℕ → Bool → Result Extent
make_extent nr cnt suballoc =
    if bit_and nr 0xfc000000 == 0
    then ok (record {
      raw_blk_nr =
          if suballoc then bit_or (bit_and nr 0x03ffffff) 0x80000000 else bit_and nr 0x03ffffff;
      raw_blk_cnt = cnt;
    })
    else err runtime_error

abbrev pub empty_extent : Extent
empty_extent = record { raw_blk_nr = 0; raw_blk_cnt = 0 }

-- A sub-allocated extent spans one block.
unfoldable pub span_cnt : Extent → ℕ
span_cnt e = if is_suballoc e then 1 else blk_cnt e

-- The sum of a 26-bit and a 16-bit number does not wrap.
unfoldable pub past_end_blk_nr : Extent → ℕ
past_end_blk_nr e = blk_nr e + span_cnt e

unfoldable pub is_empty : Extent → Bool
is_empty e = e.raw_blk_cnt == 0

unfoldable pub shrink_by : Extent → ℕ → Result Extent
shrink_by e cnt = do
  assert (not (is_suballoc e))
  assert (leb cnt e.raw_blk_cnt)
  ok (record e { raw_blk_cnt = e.raw_blk_cnt - cnt })

unfoldable pub expand_by : Extent → ℕ → Result Extent
expand_by e cnt = do
  assert (not (is_suballoc e))
  assert (is_u16_add_ok e.raw_blk_cnt cnt)
  ok (record e { raw_blk_cnt = e.raw_blk_cnt + cnt })

-- `(blk_nr & 0x03ffffff) | (_blk_nr & 0xfc000000)`
unfoldable pub move_to : Extent → ℕ → Extent
move_to e nr = record e {
  raw_blk_nr = bit_or (bit_and nr 0x03ffffff) (bit_and e.raw_blk_nr 0xfc000000);
}

unfoldable pub set_bitmap : Extent → ℕ → Result Extent
set_bitmap e bitmap = do assert (is_suballoc e); ok (record e { raw_blk_cnt = bitmap })

unfoldable pub can_be_for_suballoc : Extent → Result Bool
can_be_for_suballoc e = do assert (not (is_suballoc e)); ok (blk_cnt e == 1)

unfoldable pub can_be_single_blk : Extent → Result Bool
can_be_single_blk e = do assert (is_suballoc e); ok (blk_bitmap e == 0xffff)

unfoldable pub as_suballoc : Extent → Result Extent
as_suballoc e =
    if is_suballoc e then ok e else (do assert (blk_cnt e == 1); make_extent (blk_nr e) 0xffff true)

unfoldable pub as_not_suballoc : Extent → Result Extent
as_not_suballoc e =
    if not (is_suballoc e)
    then ok e
    else (do assert (blk_bitmap e == 0xffff); make_extent (blk_nr e) 1 false)

-- The bytes of the blocks or sub-blocks, in uint32_t.
unfoldable pub calc_data_space_size : Extent → ℕ → Result ℕ
calc_data_space_size e blk_sz_order = if is_empty e then ok 0 else (do
  assert (leb blk_sz_order 16)
  ok (
      if is_suballoc e
      then subblk_cnt e * 2 ^ (blk_sz_order - 4) % 2 ^ 32
      else blk_cnt e * 2 ^ blk_sz_order % 2 ^ 32))

-- The order of `Extent::Compare`.
unfoldable pub compare_extents : Extent → Extent → Bool
compare_extents lhs rhs =
    if not (blk_nr lhs == blk_nr rhs)
    then ltb (blk_nr lhs) (blk_nr rhs)
    else if is_suballoc lhs && is_suballoc rhs
    then ltb (blk_bitmap lhs) (blk_bitmap rhs)
    else if not (is_suballoc lhs) && not (is_suballoc rhs)
    then ltb (blk_cnt lhs) (blk_cnt rhs)
    else is_suballoc lhs

pub record Distance : Type 0 where
  pub gap : ℕ
  pub is_backwards : Bool
  pub is_near : Bool

abbrev pub distance_of : ℕ → Bool → Bool → Distance
distance_of gap backwards force_far = record {
  gap = gap;
  is_backwards = backwards;
  is_near = leb gap 0x1ff && not force_far;
}

-- Both extents start at one block.
unfoldable pub distance_at_same_start : Extent → Extent → Result Distance
distance_at_same_start ref target =
    if span_cnt ref == 0
    then ok (distance_of 0 false false)
    else if is_suballoc ref
        && is_suballoc target
        && bit_and (blk_bitmap ref) (blk_bitmap target) == 0
    then ok (distance_of 0 false true)
    else err extent_overlap

unfoldable pub distance_in_blks : Extent → Extent → Result Distance
distance_in_blks ref target =
    if ltb (blk_nr ref) (blk_nr target)
    then (let forward_dist = blk_nr target - blk_nr ref in
        if ltb forward_dist (span_cnt ref)
        then err extent_overlap
        else ok (distance_of (forward_dist - span_cnt ref) false false))
    else if ltb (blk_nr target) (blk_nr ref)
    then (let backward_dist = blk_nr ref - blk_nr target in
        if ltb backward_dist (span_cnt target)
        then err extent_overlap
        else ok (distance_of (backward_dist - span_cnt target) true false))
    else distance_at_same_start ref target

-- One round of the loop of `split`: the bits taken so far, and how many are to go.
unfoldable pub pick_bit : ℕ → ℕ → ℕ × ℕ → ℕ × ℕ
pick_bit i cur_bitmap (new_bitmap, to_transfer) =
    if ltb 0 to_transfer && not (bit_and cur_bitmap (2 ^ i) == 0)
    then (bit_or new_bitmap (bit_and cur_bitmap (2 ^ i)), to_transfer - 1)
    else (new_bitmap, to_transfer)

-- The loop over the bits from i up, n in all.
unfoldable pub pick_bits : ℕ → ℕ → ℕ → ℕ × ℕ → ℕ × ℕ
pick_bits zero i cur_bitmap taken = taken
pick_bits (suc n) i cur_bitmap taken = pick_bits n (i + 1) cur_bitmap (pick_bit i cur_bitmap taken)

unfoldable pub split_subblks : Extent → ℕ → Result (Extent × Extent)
split_subblks e new_cnt = do
  assert (leb new_cnt (subblk_cnt e))
  let new_bitmap = (pick_bits subblk_cnt_per_blk 0 e.raw_blk_cnt (0, subblk_cnt e - new_cnt)).0
  ext2 ← make_extent (blk_nr e) new_bitmap true
  let kept = record e { raw_blk_cnt = bit_and e.raw_blk_cnt (0xffff - new_bitmap) }
  assert (subblk_cnt kept == new_cnt)
  assert (subblk_cnt kept + subblk_cnt ext2 == subblk_cnt e)
  ok (kept, ext2)

unfoldable pub split_blks : Extent → ℕ → Result (Extent × Extent)
split_blks e new_cnt = do
  assert (leb new_cnt e.raw_blk_cnt)
  ext2 ← make_extent ((e.raw_blk_nr + new_cnt) % 2 ^ 32) (e.raw_blk_cnt - new_cnt) false
  let kept = record e { raw_blk_cnt = new_cnt }
  assert (not (is_suballoc ext2))
  assert (blk_cnt kept + blk_cnt ext2 == blk_cnt e)
  ok (kept, ext2)

-- The extent left in place, and the one that is returned.
unfoldable pub split : Extent → ℕ → Result (Extent × Extent)
split e new_cnt = if is_suballoc e then split_subblks e new_cnt else split_blks e new_cnt
