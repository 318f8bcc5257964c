-- ===== src/Blk/Vector.antt =====
-- xoz/blk/vector_block_array.cpp: the backend in memory. Its state is the size of the buffer.
use xoz.Base.{
  ℕ, ◌+◌, ◌-◌, ◌*◌, ◌/◌, ◌%◌, ◌^◌, Bool, max, leb, ltb, ◌==◌, if◌then◌else◌, Result, ok, assert,
  ◌>>◌,
}
use xoz.Blk.{BlockArray, Backend, array_blk_cnt, capacity}

-- `ar_blk_cnt += max(ar_blk_cnt >> 2, 1)` wraps in uint16_t. The count of bytes is shifted as an int,
-- and the cast of it to uint32_t asserts that the int is not negative.
unfoldable pub vector_grow : Bool → BlockArray → ℕ → ℕ → Result (ℕ × ℕ × ℕ)
vector_grow over_allocate a cnt buf = do
  let more = if over_allocate then (cnt + max (cnt / 4) 1) % 2 ^ 16 else cnt
  let grow_sz = more * 2 ^ a.blk_sz_order % 2 ^ 32
  assert (ltb grow_sz (2 ^ 31))
  ok (a.past_end, more, buf + grow_sz)

unfoldable pub vector_shrink : BlockArray → ℕ → ℕ → Result (ℕ × ℕ)
vector_shrink a cnt buf = do
  let shrink_sz = cnt * 2 ^ a.blk_sz_order % 2 ^ 32
  assert (leb shrink_sz buf)
  ok (cnt, buf - shrink_sz)

unfoldable pub vector_release : BlockArray → ℕ → Result (ℕ × ℕ)
vector_release a buf = do
  let slack_cnt = (capacity a + 2 ^ 32 - array_blk_cnt a) % 2 ^ 32
  if slack_cnt == 0 then ok (0, buf) else vector_shrink a slack_cnt buf

abbrev pub vector_backend : Bool → Backend ℕ
vector_backend over_allocate = record {
  impl_grow = vector_grow over_allocate;
  impl_shrink = vector_shrink;
  impl_release = vector_release;
}
