-- ===== src/Tests/Blocks.antt =====
-- Block arrays in memory, the allocators and the identifiers, at concrete inputs.
use xoz.Base.{
  ℕ, some, ◌+◌, ◌-◌, ◌*◌, ◌^◌, ◌≤◌, ◌<◌, ◌≡◌, ◌↔◌, ◌⊎◌, refl, arith, Bool, true, [], ◌∷◌, ok, err,
  runtime_error, extent_out_of_bounds, abort, ◌>>=◌,
}
use xoz.Alloc.{fail_alloc_if_empty}
use xoz.Alloc.Tail.{alloc, dealloc}
use xoz.Alloc.Tail.Laws.{dealloc-alloc}
use xoz.Blk.{
  BlockArray, Backend, grow_by_blocks, shrink_by_blocks, fail_if_out_of_boundaries,
  chk_extent_for_rw, bytes2blk_cnt, is_extent_within_boundaries, fail_if_not_initialized,
  assert_window, grow_capacity, lacking_cnt, adopt_grown,
}
use xoz.Blk.Growth.{
  IsArray, KeepsContract, Grown, Same, grow_by_blocks-Grown, shrink_by_blocks-Grown,
  vector_backend-KeepsContract,
}
use xoz.Blk.Overallocation.{grow_by_blocks-vector_grow}
use xoz.Blk.Sizes.{
  Within, fail_if_out_of_boundaries_blocks, chk_extent_for_rw-Fits, bytes2blk_cnt-ceil,
}
use xoz.Blk.Vector.{vector_grow, vector_shrink, vector_backend}
use xoz.Extent.{
  blk_nr, calc_data_space_size, is_suballoc, is_empty, make_extent, span_cnt, past_end_blk_nr,
}
use xoz.Ids.{
  IdManager, request_persistent_id, register_persistent_id, unregister_persistent_id, set_contains,
  is_persistent, is_temporal, is_undefined, next_id, greatest, set_insert,
}
use xoz.Ids.Laws.{
  IsManager, Hands, request_persistent_id-fresh, request_persistent_id-exhausted,
  unregister-register,
}
use xoz.Mem.Ints.{is_u32_add_ok, is_unsigned_int_add_ok, assert_integral_cast}

-- Blocks 2 to 9 of 1024 bytes, of which two are slack.
abbrev window : BlockArray
window = record {
  blk_sz = 1024;
  blk_sz_order = 10;
  begin_nr = 2;
  past_end = 8;
  real_past_end = 10;
  is_initialized = true;
  allow_suballoc = true;
  managed = some (1024, 10, 64);
  grow_call_cnt = 0;
  grow_expand_capacity_call_cnt = 0;
  shrink_call_cnt = 0;
  release_call_cnt = 0;
}

window-IsArray : IsArray window
window-IsArray = record {
  ready = refl;
  begins = omega arith;
  slack = omega arith;
  fits = omega arith;
}

abbrev backend : Backend ℕ
backend = vector_backend true

keeps : KeepsContract backend
keeps = vector_backend-KeepsContract true

-- Four more blocks: the buffer grows by three, two for the slack that lacks and one more.
abbrev grown : BlockArray
grown = record window {
  past_end = 12;
  real_past_end = 13;
  grow_call_cnt = 1;
  grow_expand_capacity_call_cnt = 1;
}

grow_run : grow_by_blocks backend 4 window 10240 ≡ ok (8, grown, 13312)
unfolding grow_by_blocks vector_grow is_u32_add_ok is_unsigned_int_add_ok fail_if_not_initialized
    assert_window grow_capacity lacking_cnt adopt_grown
grow_run = refl

grow_by_blocks-Grown_example : (8 ≡ window.past_end) × Grown window 4 grown
grow_by_blocks-Grown_example =
    grow_by_blocks-Grown backend 4 8 window grown 10240 13312 keeps window-IsArray (omega arith)
      grow_run

shrink_by_blocks-Grown_example :
    (b : BlockArray) × (shrink_by_blocks backend 3 window 10240 ≡ ok (b, 7168))
    × Grown b 3 window
    × IsArray b
unfolding vector_shrink
shrink_by_blocks-Grown_example =
    shrink_by_blocks-Grown backend 3 3 window 10240 7168 keeps window-IsArray (omega arith)
      (omega arith) refl

-- Two blocks lack of 60000, and a quarter more of the others is above 2 ^ 16.
grow_by_blocks-vector_grow_example :
    ((2 ^ 16 ≤ 74997) × (grow_by_blocks backend 60000 window 10240 ≡ err abort))
    ⊎ ((74997 < 2 ^ 16)
        × (b : BlockArray) × (grow_by_blocks backend 60000 window 10240 ≡ ok (8, b, 76807168))
        × (b.begin_nr ≡ 2)
        × (b.past_end ≡ 60008)
        × (b.real_past_end ≡ 75007))
grow_by_blocks-vector_grow_example =
    grow_by_blocks-vector_grow window 60000 74997 10240 window-IsArray (omega arith) (omega arith)
      (omega arith) (omega arith) refl (λ small. omega (arith, small))

alloc_run :
    alloc backend 4 window 10240 ≡ ok (record { raw_blk_nr = 8; raw_blk_cnt = 4 }, grown, 13312)
unfolding alloc fail_alloc_if_empty make_extent
alloc_run = rw grow_run refl

dealloc-alloc_example :
    (c : BlockArray) × (blk_nr (record { raw_blk_nr = 8; raw_blk_cnt = 4 }) ≡ 8)
    × (dealloc backend (record { raw_blk_nr = 8; raw_blk_cnt = 4 }) grown 13312
        ≡ ok (true, c, 9216))
    × (c.past_end ≡ 8)
    × Same window c
    × IsArray c
unfolding blk_nr vector_shrink
dealloc-alloc_example =
    dealloc-alloc backend 4 4 (record { raw_blk_nr = 8; raw_blk_cnt = 4 }) window grown 10240 13312
      9216 keeps window-IsArray (omega arith) (omega arith) alloc_run refl

-- Of the blocks 7 and 8 the second is not in the window.
fail_if_out_of_boundaries_blocks_example :
    ((fail_if_out_of_boundaries window (record { raw_blk_nr = 7; raw_blk_cnt = 2 }) ≡ ok tt)
      × ((k : ℕ) → 7 ≤ k → k < 9 → (2 ≤ k) × (k < 8)))
    ⊎ ((fail_if_out_of_boundaries window (record { raw_blk_nr = 7; raw_blk_cnt = 2 })
          ≡ err extent_out_of_bounds)
        × (k : ℕ) × (7 ≤ k)
        × (k < 9)
        × ((k < 2) ⊎ (8 ≤ k)))
unfolding blk_nr past_end_blk_nr span_cnt is_suballoc
fail_if_out_of_boundaries_blocks_example =
    fail_if_out_of_boundaries_blocks window (record { raw_blk_nr = 7; raw_blk_cnt = 2 }) refl
      (omega arith)

chk_extent_for_rw-Fits_example :
    Within window (record { raw_blk_nr = 3; raw_blk_cnt = 2 })
    × (1048 ≤ 5000)
    × (1048 ≤ 2048 - 1000)
    × ((◌≡◌ {A = ℕ} 1048 (2048 - 1000)) ⊎ (◌≡◌ {A = ℕ} 1048 5000))
unfolding chk_extent_for_rw fail_if_out_of_boundaries fail_if_not_initialized
    is_extent_within_boundaries calc_data_space_size is_empty is_suballoc blk_nr past_end_blk_nr
    span_cnt
chk_extent_for_rw-Fits_example =
    chk_extent_for_rw-Fits window (record { raw_blk_nr = 3; raw_blk_cnt = 2 }) 5000 1000 1048 2048
      refl refl

bytes2blk_cnt-ceil_example : (1025 ≤ 2 * 1024) × (2 * 1024 < 1025 + 1024)
unfolding bytes2blk_cnt assert_integral_cast
bytes2blk_cnt-ceil_example = bytes2blk_cnt-ceil window 1025 2 refl (omega arith) refl

-- The identifiers 1 and 5 are taken.
abbrev ids : IdManager
ids = record { next_temporal_id = 2 ^ 31; persistent_ids = 1 ∷ 5 ∷ [] }

ids-IsManager : IsManager ids
ids-IsManager = (omega arith, omega arith, (omega arith, omega arith, tt))

request_persistent_id-fresh_example :
    Hands ids 5 (6, record { next_temporal_id = 2 ^ 31; persistent_ids = 1 ∷ 5 ∷ 6 ∷ [] })
unfolding request_persistent_id next_id greatest register_persistent_id is_undefined is_temporal
    set_insert
request_persistent_id-fresh_example =
    request_persistent_id-fresh ids
      (record { next_temporal_id = 2 ^ 31; persistent_ids = 1 ∷ 5 ∷ 6 ∷ [] }) 6 5 ids-IsManager refl

request_persistent_id-exhausted_example :
    (request_persistent_id ids ≡ err runtime_error)
    ↔ (set_contains (2 ^ 31 - 1) (1 ∷ 5 ∷ []) ≡ true)
request_persistent_id-exhausted_example = request_persistent_id-exhausted ids ids-IsManager

unregister-register_example :
    (register_persistent_id 3 ids >>= λ (p : IdManager × Bool). unregister_persistent_id 3 p.0)
    ≡ ok ids
unfolding is_persistent is_undefined is_temporal set_contains
unregister-register_example = unregister-register ids 3 ids-IsManager refl refl
