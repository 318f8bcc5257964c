-- ===== src/Alloc/Segments/Covers.antt =====
-- xoz/alloc/segment_allocator.cpp: the blocks, sub-blocks and inline bytes that
-- SegmentAllocator::alloc asks for hold the requested size.
use native.Mathlib.Nat.{
  div-add-mod', mod-lt, mod-eq_of_lt, add-mul, one-mul, div-le_self, div-lt_iff_lt-mul,
  mul-le-mul_left,
}
use xoz.Base.{
  ℕ, ◌+◌, ◌*◌, ◌/◌, ◌%◌, ◌^◌, ◌≤◌, ◌<◌, ◌≡◌, Bool, true, false, if◌then◌else◌, ok, arith, ltb, leb,
  ltb→lt, refl, Bool-cases, inl, inr, ◌∙◌, ap, ◌==◌,
}
use xoz.Alloc.Segments.{
  Req, Remaining, fail_if_bad_req, divide_sz, move_inline, fill_block, remaining_for,
}

-- The bytes that the counted parts hold.
abbrev pub total : ℕ → ℕ → Remaining → ℕ
total blk_sz subblk_sz s = s.blk_cnt_remain * blk_sz + s.subblk_cnt_remain * subblk_sz + s.inline_sz

-- The smallest part that the size may be rounded up to.
abbrev pub grain : Bool → ℕ → ℕ → ℕ
grain allow_suballoc blk_sz subblk_sz = if allow_suballoc then subblk_sz else blk_sz

-- The parts hold the size with less than one smallest part to spare, and are within their limits.
pub record Covers (max_inline_sz : ℕ) (allow : Bool) (blk_sz subblk_sz sz : ℕ) (s : Remaining)
    : Type 0 where
  pub enough : sz ≤ total blk_sz subblk_sz s
  pub spare : total blk_sz subblk_sz s < sz + grain allow blk_sz subblk_sz
  pub inlined : s.inline_sz ≤ max_inline_sz
  pub shared : s.subblk_cnt_remain ≤ 16

record Divided (allow : Bool) (blk_sz subblk_sz sz : ℕ) (s : Remaining) : Type 0 where
  exact : total blk_sz subblk_sz s ≡ sz
  less : s.inline_sz < grain allow blk_sz subblk_sz
  shared : s.subblk_cnt_remain < 16
  counted : s.blk_cnt_remain ≤ sz

next-mul : (q n : ℕ) → (q + 1) * n ≡ q * n + n
next-mul q n = add-mul q 1 n ∙ ap (λ t. q * n + t) (one-mul n)

module _ (blk_sz subblk_sz sz : ℕ) (pos : 0 < subblk_sz) (e : blk_sz ≡ 16 * subblk_sz) where
  parts-Divided :
      (allow : Bool)
      → Divided allow blk_sz subblk_sz sz (
          if allow
          then record {
            blk_cnt_remain = sz / blk_sz;
            subblk_cnt_remain = (sz % blk_sz) / subblk_sz;
            inline_sz = (sz % blk_sz) % subblk_sz;
          }
          else record {
            blk_cnt_remain = sz / blk_sz;
            subblk_cnt_remain = 0;
            inline_sz = sz % blk_sz;
          })
  parts-Divided true =
      let left : sz % blk_sz < blk_sz = mod-lt sz (omega arith) in
      record {
        exact = omega (arith, div-add-mod' sz blk_sz, div-add-mod' (sz % blk_sz) subblk_sz);
        less = mod-lt (sz % blk_sz) pos;
        shared = (div-lt_iff_lt-mul {k = subblk_sz} {x = sz % blk_sz} {y = 16} pos).1 (omega arith);
        counted = div-le_self sz blk_sz;
      }
  parts-Divided false = record {
    exact = omega (arith, div-add-mod' sz blk_sz);
    less = mod-lt sz (omega arith);
    shared = omega arith;
    counted = div-le_self sz blk_sz;
  }

  module _ (req : Req) (room : sz + blk_sz ≤ 2 ^ 32) where
    unmoved :
        (allow : Bool) (s : Remaining)
        → Divided allow blk_sz subblk_sz sz s
        → s.inline_sz ≤ req.max_inline_sz
        → Covers req.max_inline_sz allow blk_sz subblk_sz sz s
    unmoved allow s d le = record {
      enough = omega (arith, d.exact);
      spare = omega (arith, d.exact, d.less);
      inlined = le;
      shared = omega (arith, d.shared);
    }

    move_inline-Covers :
        (allow : Bool) (s : Remaining)
        → req.allow_suballoc ≡ allow
        → Divided allow blk_sz subblk_sz sz s
        → (out : Remaining) × (move_inline req blk_sz subblk_sz s ≡ ok out)
          × Covers req.max_inline_sz allow blk_sz subblk_sz sz out
    unfolding move_inline
    move_inline-Covers true s allowed d = elim (Bool-cases (ltb req.max_inline_sz s.inline_sz)) [
      | inl over ↦
          let more = next-mul s.subblk_cnt_remain subblk_sz in
          let wraps : (s.subblk_cnt_remain + 1) % 2 ^ 32 ≡ s.subblk_cnt_remain + 1 =
            mod-eq_of_lt (omega (arith, d.shared)) in
          let fits : leb s.inline_sz subblk_sz ≡ true = ground (arith, d.less) in
          (
            record s { subblk_cnt_remain = s.subblk_cnt_remain + 1; inline_sz = 0 },
            rw (over, allowed, fits, wraps) refl,
            record {
              enough = omega (arith, more, d.exact, d.less);
              spare =
                  omega (arith, more, d.exact, d.less, ltb→lt req.max_inline_sz s.inline_sz over);
              inlined = omega arith;
              shared = omega (arith, d.shared);
            },
          )
      | inr under ↦ (s, rw under refl, unmoved true s d (ground (arith, under)))
    ]
    move_inline-Covers false s refused d = elim (Bool-cases (ltb req.max_inline_sz s.inline_sz)) [
      | inl over ↦
          let more = next-mul s.blk_cnt_remain blk_sz in
          let wraps : (s.blk_cnt_remain + 1) % 2 ^ 32 ≡ s.blk_cnt_remain + 1 =
            mod-eq_of_lt (omega (arith, d.counted)) in
          let fits : leb s.inline_sz blk_sz ≡ true = ground (arith, d.less) in
          (
            record s { blk_cnt_remain = s.blk_cnt_remain + 1; inline_sz = 0 },
            rw (over, refused, fits, wraps) refl,
            record {
              enough = omega (arith, more, d.exact, d.less);
              spare =
                  omega (arith, more, d.exact, d.less, ltb→lt req.max_inline_sz s.inline_sz over);
              inlined = omega arith;
              shared = omega (arith, d.shared);
            },
          )
      | inr under ↦ (s, rw under refl, unmoved false s d (ground (arith, under)))
    ]

    below : (allow : Bool) → grain allow blk_sz subblk_sz ≤ blk_sz
    below true = omega arith
    below false = omega arith

    fill_block-Covers :
        (allow : Bool) (s : Remaining)
        → Covers req.max_inline_sz allow blk_sz subblk_sz sz s
        → (out : Remaining) × (fill_block s ≡ out)
          × Covers req.max_inline_sz allow blk_sz subblk_sz sz out
          × (out.subblk_cnt_remain < 16)
    unfolding fill_block
    fill_block-Covers allow s c = elim (Bool-cases (s.subblk_cnt_remain == 16)) [
      | inl full ↦
          let all : s.subblk_cnt_remain ≡ 16 = ground (arith, full) in
          let moved = ap (λ n. n * subblk_sz) all in
          let more = next-mul s.blk_cnt_remain blk_sz in
          let wraps : (s.blk_cnt_remain + 1) % 2 ^ 32 ≡ s.blk_cnt_remain + 1 = mod-eq_of_lt (
            omega (
              arith,
              below allow,
              c.spare,
              mul-le-mul_left {m = 16} {n = blk_sz} s.blk_cnt_remain (omega arith),
            )) in
          (
            record s { blk_cnt_remain = s.blk_cnt_remain + 1; subblk_cnt_remain = 0 },
            rw (full, wraps) refl,
            record {
              enough = omega (arith, moved, more, c.enough);
              spare = omega (arith, moved, more, c.spare);
              inlined = c.inlined;
              shared = omega arith;
            },
            omega arith,
          )
      | inr short ↦ (s, rw short refl, c, ground (arith, short, c.shared))
    ]

divide_sz-Divided :
    (blk_sz subblk_sz sz : ℕ) (req : Req)
    → 0 < subblk_sz
    → blk_sz ≡ 16 * subblk_sz
    → Divided req.allow_suballoc blk_sz subblk_sz sz (divide_sz req blk_sz subblk_sz sz)
unfolding divide_sz
divide_sz-Divided blk_sz subblk_sz sz req pos e =
    parts-Divided blk_sz subblk_sz sz pos e req.allow_suballoc

-- For sub-blocks of at least one byte, 16 to the block, a valid request and a size at least one
-- block below 2 ^ 32, the counts are found without a failed assertion, and hold the size with less
-- than a sub-block to spare, or less than a block where sub-blocks are not allowed. The inline bytes
-- are within the limit and the sub-blocks are fewer than 16.
pub remaining_for-Covers :
    (req : Req) (blk_sz subblk_sz sz : ℕ)
    → 0 < subblk_sz
    → blk_sz ≡ 16 * subblk_sz
    → sz + blk_sz ≤ 2 ^ 32
    → fail_if_bad_req req subblk_sz ≡ ok tt
    → (out : Remaining) × (remaining_for req blk_sz subblk_sz sz ≡ ok out)
      × Covers req.max_inline_sz req.allow_suballoc blk_sz subblk_sz sz out
      × (out.subblk_cnt_remain < 16)
unfolding remaining_for
remaining_for-Covers req blk_sz subblk_sz sz pos e room valid =
    let (s, moved, covers) =
      move_inline-Covers blk_sz subblk_sz sz pos e req room req.allow_suballoc
        (divide_sz req blk_sz subblk_sz sz) refl
        (divide_sz-Divided blk_sz subblk_sz sz req pos e) in
    let (out, filling, c, few) =
      fill_block-Covers blk_sz subblk_sz sz pos e req room req.allow_suballoc s covers in
    let a : leb out.inline_sz req.max_inline_sz ≡ true = ground (arith, c.inlined) in
    let b : leb out.subblk_cnt_remain 16 ≡ true = ground (arith, few) in
    let fits : total blk_sz subblk_sz out % 2 ^ 32 ≡ total blk_sz subblk_sz out =
      mod-eq_of_lt
        (omega (arith, c.spare, below blk_sz subblk_sz sz pos e req room req.allow_suballoc)) in
    let d : leb sz (total blk_sz subblk_sz out) ≡ true = ground (arith, c.enough) in
    (out, rw (valid, moved, filling, a, b, fits, d) refl, c, few)
