-- ===== src/Tests/Segments.antt =====
-- Sizes of segments to allocate, at concrete inputs.
use xoz.Base.{◌-◌, ◌^◌, ◌<◌, ◌≡◌, refl, arith, ok, err, abort, runtime_error, true, ◌+◌}
use xoz.Alloc.Segments.{
  Remaining, xoz_default_req, remaining_for, fail_if_bad_req, divide_sz, move_inline, fill_block,
}
use xoz.Alloc.Segments.Covers.{Covers, remaining_for-Covers}

remaining_for-Covers_example :
    (out : Remaining) × (remaining_for xoz_default_req 512 32 1023 ≡ ok out)
    × Covers 8 true 512 32 1023 out
    × (out.subblk_cnt_remain < 16)
unfolding fail_if_bad_req
remaining_for-Covers_example =
    remaining_for-Covers xoz_default_req 512 32 1023 (omega arith) refl (omega arith) refl

-- 31 bytes are too many for the inline data, and their sub-block fills the block.
test_full_block :
    remaining_for xoz_default_req 512 32 1023
    ≡ ok (record { blk_cnt_remain = 2; subblk_cnt_remain = 0; inline_sz = 0 })
unfolding remaining_for fail_if_bad_req divide_sz move_inline fill_block
test_full_block = refl

test_parts :
    remaining_for xoz_default_req 512 32 (512 + 64 + 3)
    ≡ ok (record { blk_cnt_remain = 1; subblk_cnt_remain = 2; inline_sz = 3 })
unfolding remaining_for fail_if_bad_req divide_sz move_inline fill_block
test_parts = refl

-- The bytes of the blocks are counted in uint32_t and wrap around to 0.
test_largest_size : remaining_for xoz_default_req 512 32 (2 ^ 32 - 1) ≡ err abort
unfolding remaining_for fail_if_bad_req divide_sz move_inline fill_block
test_largest_size = refl

test_bad_req :
    remaining_for (record xoz_default_req { single_extent = true }) 512 32 5 ≡ err runtime_error
unfolding remaining_for fail_if_bad_req divide_sz move_inline fill_block
test_bad_req = refl
