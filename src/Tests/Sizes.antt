-- ===== src/Tests/Sizes.antt =====
-- The sizes of a descriptor at concrete inputs.
use xoz.Base.{ℕ, ◌+◌, ◌%◌, ◌≡◌, refl, arith, List, [], ◌∷◌, ok, ok-injective}
use xoz.Dsc.{
  ContentPart, Descriptor, chk_content_parts_consistency, chk_content_part, chk_content_parts_count,
  chk_dset_type, should_be_dset, does_hdr_isize_fit, does_hdr_csize_fit,
}
use xoz.Dsc.Write.{chk_before_write}
use xoz.Dsc.Update.{
  Sizing, update_sizes_of_header, whole_isize, future_idata_size,
  compute_future_content_parts_sizes, future_parts, future_part, resized_to, end_part,
}
use xoz.Dsc.Update.Ready.{update_sizes_of_header-chk_before_write}
use xoz.Dsc.Update.Futures.{Splits, compute_future_content_parts_sizes-Splits}
use xoz.Segment.{segment_data_space_size, sum_data_space, fail_if_bad_inline_sz, add_end_of_segment}
use xoz.Mem.Ints.{
  assert_integral_cast, assert_add_nowrap, assert_sub_nonneg, is_u64_add_ok, is_unsigned_int_add_ok,
}
use xoz.Tests.Descriptors.{sample, pair_writer}
use mathlib.Core.List.{map}

-- It takes six bytes of its own, and three of its first part.
abbrev six_bytes : Sizing
six_bytes = record {
  declare_used_content_space_on_load = λ sizes. ok (3 ∷ 0 ∷ []);
  update_isize = λ n. ok 6;
  update_content_parts = λ cparts. ok cparts;
}

abbrev resized : Descriptor
resized = resized_to sample (map end_part sample.hdr.cparts) 8

update_sizes_of_header-chk_before_write_example :
    (chk_before_write pair_writer resized ≡ ok tt)
    × (present_isize : ℕ) × (ok 6 ≡ ok present_isize)
    × (8 ≡ present_isize + 2)
    × (present_isize % 2 ≡ 0)
unfolding update_sizes_of_header whole_isize future_idata_size chk_content_parts_consistency
    chk_content_part chk_content_parts_count chk_dset_type should_be_dset does_hdr_isize_fit
    does_hdr_csize_fit segment_data_space_size sum_data_space fail_if_bad_inline_sz
    add_end_of_segment assert_integral_cast assert_add_nowrap assert_sub_nonneg is_u64_add_ok
    is_unsigned_int_add_ok
update_sizes_of_header-chk_before_write_example =
    update_sizes_of_header-chk_before_write pair_writer six_bytes sample resized
      (λ n m e. omega (arith, ok-injective e)) refl refl refl

-- The first part, with n bytes of a future version, and the others.
abbrev sized : ℕ → List ContentPart → List ContentPart
sized n [] = []
sized n (cpart ∷ cparts) = record cpart { future_csize = n } ∷ cparts

abbrev with_future : Descriptor
with_future = resized_to sample (sized 2 sample.hdr.cparts) 4

compute_future_content_parts_sizes-Splits_example :
    (sizes : List ℕ) × (ok (3 ∷ 0 ∷ []) ≡ ok sizes)
    × Splits sample.hdr.cparts sizes with_future.hdr.cparts
unfolding compute_future_content_parts_sizes future_parts future_part assert_integral_cast
    assert_sub_nonneg
compute_future_content_parts_sizes-Splits_example =
    compute_future_content_parts_sizes-Splits six_bytes sample with_future
      (omega arith, (omega arith, tt)) refl
