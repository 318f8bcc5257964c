-- ===== src/Blk/Overallocation.antt =====
-- The array in memory when it grows by more blocks than it is asked for.
use xoz.Base.{
  ℕ, ◌+◌, ◌-◌, ◌*◌, ◌/◌, ◌%◌, ◌^◌, ◌≤◌, ◌<◌, ◌≡◌, ◌∙◌, ◌>>=◌, Bool-cases, inl, inr, refl, sym, ◌⊎◌,
  arith, max, true, false, ltb, leb, ◌==◌, ok, err, abort,
}
use xoz.Blk.{
  BlockArray, Backend, grow_by_blocks, grow_capacity, lacking_cnt, adopt_grown, assert_window,
  fail_if_not_initialized, blk_nr_exhaust,
}
use xoz.Blk.Growth.{IsArray, called, called-IsArray}
use xoz.Blk.Vector.{vector_grow, vector_backend}
use xoz.Mem.Ints.{is_u32_add_ok, is_unsigned_int_add_ok}

-- The blocks asked for and a quarter more of them, at least one.
abbrev pub a_quarter_more : ℕ → ℕ
a_quarter_more n = n + max (n / 4) 1

lacking :
    (a : BlockArray) (cnt : ℕ)
    → IsArray a
    → cnt < 2 ^ 16
    → a.real_past_end < a.past_end + cnt
    → lacking_cnt cnt a ≡ a.past_end + cnt - a.real_past_end
unfolding lacking_cnt
lacking a cnt v small lacks = omega (arith, v.slack)

-- The checks before the backend is called pass, if the block numbers are not exhausted.
calls :
    {S : Type 0} (backend : Backend S) (a : BlockArray) (cnt : ℕ) (s : S)
    → IsArray a
    → 0 < cnt
    → cnt < 2 ^ 16
    → a.real_past_end < a.past_end + cnt
    → a.past_end + cnt < blk_nr_exhaust
    → grow_by_blocks backend cnt a s
      ≡ grow_capacity backend cnt (record a { grow_call_cnt = a.grow_call_cnt + 1 }) s
unfolding grow_by_blocks is_u32_add_ok is_unsigned_int_add_ok assert_window fail_if_not_initialized
calls backend a cnt s v pos small lacks room =
    let nonzero : (cnt == 0) ≡ false = ground (arith, pos) in
    let adds : leb a.past_end ((a.past_end + cnt) % 2 ^ 32) ≡ true = ground (arith, room) in
    let adds' : leb a.real_past_end ((a.real_past_end + cnt) % 2 ^ 32) ≡ true =
      ground (arith, room, lacks, v.slack) in
    let begins : leb a.begin_nr a.past_end ≡ true = ground (arith, v.begins) in
    let slack : leb a.past_end a.real_past_end ≡ true = ground (arith, v.slack) in
    let grows : leb cnt (a.real_past_end - a.past_end) ≡ false = ground (arith, lacks, v.slack) in
    rw (v.ready, nonzero, adds, adds', begins, slack, grows) refl

-- The backend, and the pointers after it, where the sum of the blocks wraps.
wrapped :
    (a : BlockArray) (cnt k buf : ℕ)
    → lacking_cnt cnt a ≡ k
    → leb k (a_quarter_more k % 2 ^ 16) ≡ false
    → (vector_grow true a (lacking_cnt cnt a) buf >>= λ grown. adopt_grown cnt a grown) ≡ err abort
unfolding vector_grow adopt_grown
wrapped a cnt k buf count few =
    elim (Bool-cases (ltb (a_quarter_more k % 2 ^ 16 * 2 ^ a.blk_sz_order % 2 ^ 32) (2 ^ 31))) [
      | inl fits ↦ rw (count, fits, few) refl
      | inr large ↦ rw (count, large) refl
    ]

abbrev moved : BlockArray → ℕ → ℕ → BlockArray
moved a cnt n = record a { real_past_end = a.real_past_end + n; past_end = a.past_end + cnt }

-- The same where it does not.
added :
    (a : BlockArray) (cnt k n buf : ℕ)
    → IsArray a
    → lacking_cnt cnt a ≡ k
    → a_quarter_more k ≡ n
    → n < 2 ^ 16
    → a.past_end + cnt ≡ a.real_past_end + k
    → a.past_end + cnt < blk_nr_exhaust
    → n * 2 ^ a.blk_sz_order < 2 ^ 31
    → (vector_grow true a (lacking_cnt cnt a) buf >>= λ grown. adopt_grown cnt a grown)
      ≡ ok (a.past_end, moved a cnt n, buf + n * 2 ^ a.blk_sz_order)
unfolding vector_grow adopt_grown is_u32_add_ok is_unsigned_int_add_ok
added a cnt k n buf v count more fits ends room bytes =
    let same : n % 2 ^ 16 ≡ n = omega (arith, fits) in
    let size : n * 2 ^ a.blk_sz_order % 2 ^ 32 ≡ n * 2 ^ a.blk_sz_order = omega (arith, bytes) in
    let small : ltb (n * 2 ^ a.blk_sz_order) (2 ^ 31) ≡ true = ground (arith, bytes) in
    let enough : leb k n ≡ true = ground (arith, more) in
    let real : (a.real_past_end + n) % 2 ^ 32 ≡ a.real_past_end + n =
      omega (arith, fits, room, ends) in
    let past : (a.past_end + n) % 2 ^ 32 ≡ a.past_end + n =
      omega (arith, fits, room, ends, v.slack) in
    let end : (a.past_end + cnt) % 2 ^ 32 ≡ a.past_end + cnt = omega (arith, room) in
    let up : leb a.past_end (a.past_end + n) ≡ true = ground arith in
    let up' : leb a.real_past_end (a.real_past_end + n) ≡ true = ground arith in
    let order : leb (a.past_end + cnt) (a.real_past_end + n) ≡ true = ground (arith, ends, more) in
    rw (count, more, same, size, small, enough, past, up, real, up', end, order) refl

-- The block numbers suffice, so the backend is called.
calls_backend :
    {S : Type 0} (backend : Backend S) (a : BlockArray) (cnt k : ℕ) (s : S)
    → lacking_cnt cnt a ≡ k
    → ltb ((a.real_past_end + k) % 2 ^ 32) blk_nr_exhaust ≡ true
    → (c : BlockArray)
    → record a { grow_expand_capacity_call_cnt = a.grow_expand_capacity_call_cnt + 1 } ≡ c
    → grow_capacity backend cnt a s
      ≡ (backend.impl_grow c (lacking_cnt cnt c) s >>= λ grown. adopt_grown cnt c grown)
unfolding grow_capacity
calls_backend backend a cnt k s count free c same = rw (count, free, same) refl

-- The array in memory over-allocates, the slack does not hold the blocks that are added, and the block
-- numbers are not exhausted; n is the count of the blocks that lack and of a quarter more of them, of
-- at least one, and if it fits uint16_t, the bytes of so many blocks are fewer than 2 ^ 31. Either it
-- does not fit, and an assertion fails, though the count that was asked for does; or it does, and so
-- many blocks are added to the buffer and behind the real end, and the window ends just past the
-- blocks that were asked for, the first of which is returned.
pub grow_by_blocks-vector_grow :
    (a : BlockArray) (cnt n buf : ℕ)
    → IsArray a
    → 0 < cnt
    → cnt < 2 ^ 16
    → a.real_past_end < a.past_end + cnt
    → a.past_end + cnt < blk_nr_exhaust
    → n ≡ a_quarter_more (a.past_end + cnt - a.real_past_end)
    → (n < 2 ^ 16 → n * 2 ^ a.blk_sz_order < 2 ^ 31)
    → ((2 ^ 16 ≤ n) × (grow_by_blocks (vector_backend true) cnt a buf ≡ err abort))
      ⊎ ((n < 2 ^ 16)
          × (b : BlockArray) × (grow_by_blocks (vector_backend true) cnt a buf
              ≡ ok (a.past_end, b, buf + n * 2 ^ a.blk_sz_order))
          × (b.begin_nr ≡ a.begin_nr)
          × (b.past_end ≡ a.past_end + cnt)
          × (b.real_past_end ≡ a.real_past_end + n))
grow_by_blocks-vector_grow a cnt n buf v pos small lacks room more bytes =
    let k : ℕ = a.past_end + cnt - a.real_past_end in
    let c : BlockArray = record a {
      grow_call_cnt = a.grow_call_cnt + 1;
      grow_expand_capacity_call_cnt = a.grow_expand_capacity_call_cnt + 1;
    } in
    let v' : IsArray c = record {
      ready = v.ready;
      begins = v.begins;
      slack = v.slack;
      fits = v.fits;
    } in
    let count : lacking_cnt cnt c ≡ k = lacking c cnt v' small lacks in
    let free : ltb ((a.real_past_end + k) % 2 ^ 32) blk_nr_exhaust ≡ true =
      ground (arith, room, lacks) in
    let start : grow_by_blocks (vector_backend true) cnt a buf
        ≡ (vector_grow true c (lacking_cnt cnt c) buf >>= λ grown. adopt_grown cnt c grown) =
      calls (vector_backend true) a cnt buf v pos small lacks room
      ∙ calls_backend (vector_backend true) (called a) cnt k buf
          (lacking (called a) cnt (called-IsArray a v) small lacks) free c refl in
    elim (Bool-cases (leb (2 ^ 16) n)) [
      | inl wraps ↦ inl (
        ground (arith, wraps),
        start ∙ wrapped c cnt k buf count (ground (arith, wraps, more, small, lacks, v.slack)),
      )
      | inr fits ↦
          let below : n < 2 ^ 16 = ground (arith, fits) in
          inr (
            below,
            moved c cnt n,
            start
                ∙ added c cnt k n buf v' count (sym more) below (omega (arith, lacks)) room
                    (bytes below),
            refl,
            refl,
            refl,
          )
    ]
