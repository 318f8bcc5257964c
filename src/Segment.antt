-- ===== src/Segment.antt =====
-- xoz/segm/segment.h: a segment is a list of extents and, at its end, maybe inline data.
pub mod Write
pub mod Read
pub mod Codec
use xoz.Base.{
  ℕ, ◌+◌, ◌-◌, ◌*◌, ◌%◌, ◌^◌, Bool, true, false, not, ◌&&◌, ◌||◌, leb, ltb, ◌==◌, if◌then◌else◌,
  List, [], ◌∷◌, ◌++◌, length, Result, ok, err, runtime_error, require, would_end_up_inconsistent,
  assert, ◌>>=◌, ◌>>◌,
}
use xoz.Extent.{
  Extent, is_suballoc, blk_cnt, subblk_cnt, empty_extent, distance_in_blks, calc_data_space_size,
}
use xoz.Mem.Ints.{assert_integral_cast}

pub record Segment : Type 0 where
  pub arr : List Extent
  pub blk_sz_order : ℕ
  pub inline_present : Bool
  pub explicit_end_of_segment_present : Bool
  pub raw : List ℕ

unfoldable pub make_segment : ℕ → Segment
make_segment order = record {
  arr = [];
  blk_sz_order = order;
  inline_present = false;
  explicit_end_of_segment_present = false;
  raw = [];
}

unfoldable pub set_inline_data : Segment → List ℕ → Segment
set_inline_data s bytes = record s { inline_present = true; raw = bytes }

unfoldable pub remove_inline_data : Segment → Segment
remove_inline_data s = record s { inline_present = false; raw = [] }

abbrev pub has_end_of_segment : Segment → Bool
has_end_of_segment s = s.inline_present || s.explicit_end_of_segment_present

unfoldable pub add_end_of_segment : Segment → Segment
add_end_of_segment s = record s { explicit_end_of_segment_present = true }

unfoldable pub remove_end_of_segment : Segment → Result Segment
remove_end_of_segment s = do
  require (not s.inline_present) runtime_error
  ok (record s { explicit_end_of_segment_present = false })

unfoldable pub add_extent : Segment → Extent → Result Segment
add_extent s e = do
  require (not s.inline_present) runtime_error
  ok (record s { arr = s.arr ++ (e ∷ []) })

unfoldable pub extend : Segment → Segment → Result Segment
extend s t = do
  require (not s.inline_present) runtime_error
  assert (t.inline_present || length t.raw == 0)
  ok (record s { arr = s.arr ++ t.arr; raw = t.raw; inline_present = t.inline_present })

abbrev pub butlast {ℓ} : {A : Type ℓ} → List A → List A
butlast [] = []
butlast (x ∷ []) = []
butlast (x ∷ y ∷ xs) = x ∷ butlast (y ∷ xs)

-- `pop_back` is not called on an empty vector.
unfoldable pub remove_last_extent : Segment → Result Segment
remove_last_extent s = do
  require (not s.inline_present) runtime_error
  ok (record s { arr = butlast s.arr })

unfoldable pub clear_extents : Segment → Result Segment
clear_extents s = do require (not s.inline_present) runtime_error; ok (record s { arr = [] })

unfoldable pub clear : Segment → Result Segment
unfolding remove_inline_data
clear s = clear_extents (remove_inline_data s)

unfoldable pub inline_data_sz : Segment → Result ℕ
inline_data_sz s = if s.inline_present then assert_integral_cast 8 (length s.raw) else ok 0

-- The sums over the extents are in uint32_t.
unfoldable pub sum_full_blks : ℕ → List Extent → ℕ
sum_full_blks cnt [] = cnt
sum_full_blks cnt (e ∷ es) =
    sum_full_blks ((cnt + (if is_suballoc e then 0 else blk_cnt e)) % 2 ^ 32) es

unfoldable pub full_blk_cnt : Segment → ℕ
full_blk_cnt s = sum_full_blks 0 s.arr

unfoldable pub sum_subblks : ℕ → List Extent → ℕ
sum_subblks cnt [] = cnt
sum_subblks cnt (e ∷ es) =
    sum_subblks ((cnt + (if is_suballoc e then subblk_cnt e else 0)) % 2 ^ 32) es

unfoldable pub segment_subblk_cnt : Segment → ℕ
segment_subblk_cnt s = sum_subblks 0 s.arr

unfoldable pub fail_if_bad_inline_sz : Segment → Result (Unit {0})
fail_if_bad_inline_sz s = require (leb (length s.raw) 63) would_end_up_inconsistent

unfoldable pub sum_data_space : ℕ → ℕ → List Extent → Result ℕ
sum_data_space order sz [] = ok sz
sum_data_space order sz (e ∷ es) = do
  n ← calc_data_space_size e order
  sum_data_space order ((sz + n) % 2 ^ 32) es

unfoldable pub segment_data_space_size : Segment → Bool → Result ℕ
unfolding sum_data_space
segment_data_space_size s include_inline = do
  sz ← sum_data_space s.blk_sz_order 0 s.arr
  if include_inline
      then (do
        fail_if_bad_inline_sz s
        inline_sz ← assert_integral_cast 16 (length s.raw)
        ok ((sz + inline_sz) % 2 ^ 32))
      else ok sz

-- The bytes that one extent takes in the structure: header, low part of the number, count.
unfoldable pub ext_footprint : Extent → Extent → Result ℕ
ext_footprint prev e = do
  dist ← distance_in_blks prev e
  ok (
      2
      + (if dist.is_near then 0 else 2)
      + (if is_suballoc e || ltb 15 (blk_cnt e) || blk_cnt e == 0 then 2 else 0))

unfoldable pub exts_footprint : Extent → List Extent → ℕ → Result ℕ
exts_footprint prev [] sz = ok sz
exts_footprint prev (e ∷ es) sz = do
  n ← ext_footprint prev e
  exts_footprint e es ((sz + n) % 2 ^ 32)

-- An odd last byte of the inline data travels in the header.
abbrev pub even_part : ℕ → ℕ
even_part n = if n % 2 == 1 then n - 1 else n

unfoldable pub calc_struct_footprint_size : Segment → Result ℕ
unfolding exts_footprint
calc_struct_footprint_size s = do
  sz ← exts_footprint empty_extent s.arr 0
  if has_end_of_segment s
      then (do
        fail_if_bad_inline_sz s
        inline_sz ← assert_integral_cast 16 (length s.raw)
        ok ((sz + 2 + even_part inline_sz) % 2 ^ 32))
      else ok sz
