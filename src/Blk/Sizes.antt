-- ===== src/Blk/Sizes.antt =====
-- How much of an extent may be read or written, and how many blocks some bytes take.
use xoz.Base.{
  ℕ, ◌+◌, ◌-◌, ◌*◌, ◌/◌, ◌%◌, ◌^◌, ◌≤◌, ◌<◌, ◌≡◌, ◌⊎◌, arith, true, ltb, refl, Bool-cases, inl, inr,
  ok, err, extent_out_of_bounds, ◌>>=◌,
}
use native.Mathlib.Nat.{
  one-le-pow, mul-mod_left, mul-div_cancel, div-le_self, mod-eq_of_lt, div-mul-le_self,
  lt-div-mul-add,
}
use xoz.Blk.{
  BlockArray, is_extent_within_boundaries, fail_if_out_of_boundaries, fail_if_not_initialized,
  chk_extent_for_rw, blk2bytes, bytes2blk_nr, bytes2blk_cnt, ceil,
}
use xoz.Extent.{Extent, blk_nr, past_end_blk_nr, calc_data_space_size}
use xoz.Mem.Ints.{assert_integral_cast}

-- Every block of the extent is in the window. An extent of no blocks must start in it.
abbrev pub Within : BlockArray → Extent → Type 0
Within a e = (a.begin_nr ≤ blk_nr e) × (blk_nr e < a.past_end) × (past_end_blk_nr e ≤ a.past_end)

-- An extent of some blocks in an initialized array: either it passes and each of its blocks is in the
-- window, or it is refused as out of bounds and some block of it is not.
pub fail_if_out_of_boundaries_blocks :
    (a : BlockArray) (e : Extent)
    → a.is_initialized ≡ true
    → blk_nr e < past_end_blk_nr e
    → ((fail_if_out_of_boundaries a e ≡ ok tt)
        × ((k : ℕ) → blk_nr e ≤ k → k < past_end_blk_nr e → (a.begin_nr ≤ k) × (k < a.past_end)))
      ⊎ ((fail_if_out_of_boundaries a e ≡ err extent_out_of_bounds)
          × (k : ℕ) × (blk_nr e ≤ k)
          × (k < past_end_blk_nr e)
          × ((k < a.begin_nr) ⊎ (a.past_end ≤ k)))
unfolding fail_if_out_of_boundaries fail_if_not_initialized is_extent_within_boundaries
fail_if_out_of_boundaries_blocks a e h some_blocks = elim (Bool-cases (ltb (blk_nr e) a.begin_nr)) [
  | inl before ↦
      inr (rw (h, before) refl, blk_nr e, omega arith, some_blocks, inl (ground (arith, before)))
  | inr from ↦ elim (Bool-cases (ltb a.past_end (past_end_blk_nr e))) [
    | inl behind ↦ inr (
      ground (arith, h, from, behind),
      past_end_blk_nr e - 1,
      omega (arith, some_blocks),
      omega (arith, some_blocks),
      inr (ground (arith, behind, some_blocks)),
    )
    | inr to ↦ inl (
      ground (arith, h, from, to, some_blocks),
      (λ k low high. (ground (arith, from, low), ground (arith, to, high))),
    )
  ]
]

-- A read or write that is let through is of an extent in the window; it asks for no more than the
-- caller did, and from the start on it ends within the extent's bytes; if it is cut short, it ends
-- with them.
pub chk_extent_for_rw-Fits :
    (a : BlockArray) (e : Extent) (max_data_sz start n usable : ℕ)
    → calc_data_space_size e a.blk_sz_order ≡ ok usable
    → chk_extent_for_rw a e max_data_sz start ≡ ok n
    → Within a e
      × (n ≤ max_data_sz)
      × (n ≤ usable - start)
      × ((n ≡ usable - start) ⊎ (n ≡ max_data_sz))
unfolding chk_extent_for_rw fail_if_out_of_boundaries fail_if_not_initialized
    is_extent_within_boundaries
chk_extent_for_rw-Fits a e max_data_sz start n usable s h = ground (arith, s, h)

-- The bytes of a count of blocks take that count of blocks, if they are below 2 ^ 32.
bytes2blk_nr-blk2bytes :
    (a : BlockArray) (cnt : ℕ)
    → a.blk_sz ≡ 2 ^ a.blk_sz_order
    → cnt * 2 ^ a.blk_sz_order < 2 ^ 32
    → (blk2bytes a cnt >>= λ (bytes : ℕ). bytes2blk_nr a bytes) ≡ ok cnt
unfolding blk2bytes bytes2blk_nr assert_integral_cast
bytes2blk_nr-blk2bytes a cnt h k =
    let P : ℕ = 2 ^ a.blk_sz_order in
    let pos : 0 < P = one-le-pow a.blk_sz_order 2 (omega arith) in
    let whole : cnt * P % P ≡ 0 = mul-mod_left cnt P in
    let back : cnt * P / P ≡ cnt = mul-div_cancel cnt pos in
    let small : cnt < 2 ^ 32 = omega (arith, div-le_self (cnt * P) P, back, k) in
    let fits : cnt * P % 2 ^ 32 ≡ cnt * P = mod-eq_of_lt k in
    let fits' : cnt % 2 ^ 32 ≡ cnt = mod-eq_of_lt small in simp (h, fits) (ground arith)

-- Rounding up gives the least count of blocks that holds the bytes, if nothing wraps.
pub bytes2blk_cnt-ceil :
    (a : BlockArray) (bytes n : ℕ)
    → a.blk_sz ≡ 2 ^ a.blk_sz_order
    → bytes + a.blk_sz ≤ 2 ^ 32
    → bytes2blk_cnt a bytes ceil ≡ ok n
    → (bytes ≤ n * a.blk_sz) × (n * a.blk_sz < bytes + a.blk_sz)
unfolding bytes2blk_cnt assert_integral_cast
bytes2blk_cnt-ceil a bytes n h k e =
    let P : ℕ = 2 ^ a.blk_sz_order in
    let pos : 0 < P = one-le-pow a.blk_sz_order 2 (omega arith) in
    let same : (bytes + a.blk_sz + 2 ^ 32 - 1) % 2 ^ 32 ≡ bytes + P - 1 =
      omega (arith, h, k, pos) in
    let n_is : n ≡ (bytes + P - 1) / P = ground (arith, rw same at e) in
    let low = div-mul-le_self (bytes + P - 1) P in
    let high = lt-div-mul-add {a = bytes + P - 1} pos in
    rw (n_is, h) (omega (arith, low, high, pos), omega (arith, low, pos))
