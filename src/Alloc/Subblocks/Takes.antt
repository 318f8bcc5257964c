-- ===== src/Alloc/Subblocks/Takes.antt =====
-- The loop of `alloc` over the bits of a block.
use xoz.Base.{
  ℕ, zero, suc, ◌+◌, ◌-◌, ◌^◌, ◌≤◌, ◌<◌, ◌≡◌, refl, arith, bit_and, bit_or, false, not, ◌&&◌, ltb,
  ◌==◌, if◌then◌else◌, ok, Bool-cases, inl, inr,
}
use xoz.Base.Binary.{
  bit, ones, bit-lt, clear_bit, put_bit, ones-power, ones-split, ones_last, ones_same, bit-power,
  bit_test, bit_and-lt, bit_or-lt, power-lt,
}
use xoz.Alloc.Subblocks.{Picking, pick_at, pick_down}

-- The loop before the bits below n, for a bitmap and a count.
pub record IsPicking (whole cnt n : ℕ) (s : Picking) : Type 0 where
  pub shares : (j : ℕ) → bit j s.free_bitmask + bit j s.allocated_bitmask ≡ bit j whole
  pub free_fits : s.free_bitmask < 2 ^ 16
  pub allocated_fits : s.allocated_bitmask < 2 ^ 16
  pub below : (j : ℕ) → j < n → bit j s.allocated_bitmask ≡ 0
  pub counted : s.free_cnt ≡ ones 16 s.free_bitmask
  pub taken : ones 16 s.allocated_bitmask + s.to_take ≡ cnt
  pub enough : s.to_take ≤ ones n s.free_bitmask

-- A bit that is taken.
abbrev take_at : ℕ → Picking → Picking
take_at i s = record {
  free_bitmask = bit_and s.free_bitmask (0xffff - 2 ^ i);
  allocated_bitmask = bit_or s.allocated_bitmask (2 ^ i);
  to_take = s.to_take - 1;
  free_cnt = s.free_cnt - 1;
}

cleared :
    (n j : ℕ) (s : Picking)
    → s.free_bitmask < 2 ^ 16
    → n < 16
    → bit j (take_at n s).free_bitmask ≡ (if j == n then 0 else bit j s.free_bitmask)
cleared n j s h lt = clear_bit 16 n s.free_bitmask j h lt

take_at-IsPicking :
    (whole cnt n : ℕ) (s : Picking)
    → IsPicking whole cnt (suc n) s
    → n < 16
    → 0 < s.to_take
    → bit n s.free_bitmask ≡ 1
    → IsPicking whole cnt n (take_at n s) × (0 < s.free_cnt)
take_at-IsPicking whole cnt n s v lt pos set =
    let f : ℕ = s.free_bitmask in
    let a : ℕ = s.allocated_bitmask in
    let f' : ℕ = (take_at n s).free_bitmask in
    let a' : ℕ = (take_at n s).allocated_bitmask in
    let unset : bit n a ≡ 0 = v.below n (omega arith) in
    let one : ones 16 (2 ^ n) ≡ 1 = ground (arith, ones-power 16 n, lt) in
    let less : ones 16 f' + ones 16 (2 ^ n) ≡ ones 16 f =
      ones-split 16 f' (2 ^ n) f
        (λ j. ground (arith, cleared n j s v.free_fits lt, bit-power j n, set)) in
    let more : ones 16 a + ones 16 (2 ^ n) ≡ ones 16 a' =
      ones-split 16 a (2 ^ n) a' (λ j. ground (arith, put_bit n a j, bit-power j n, unset)) in
    let same = ones_same n f' f (λ j h. ground (arith, cleared n j s v.free_fits lt, h)) in
    (
      record {
        shares = λ j.
            ground (arith, cleared n j s v.free_fits lt, put_bit n a j, v.shares j, set, unset);
        free_fits = bit_and-lt 16 f (0xffff - 2 ^ n) v.free_fits;
        allocated_fits = bit_or-lt 16 a (2 ^ n) v.allocated_fits (power-lt n 16 lt);
        below = λ j h. ground (arith, put_bit n a j, h, v.below j (omega (arith, h)));
        counted = omega (arith, v.counted, less, one);
        taken = omega (arith, v.taken, more, one, pos);
        enough = omega (arith, v.enough, ones_last n f, set, same);
      },
      omega (arith, v.counted, less, one),
    )

skip-IsPicking :
    (whole cnt n : ℕ) (s : Picking)
    → IsPicking whole cnt (suc n) s
    → (ltb 0 s.to_take && not (bit n s.free_bitmask == 0)) ≡ false
    → IsPicking whole cnt n s
skip-IsPicking whole cnt n s v h = record {
  shares = v.shares;
  free_fits = v.free_fits;
  allocated_fits = v.allocated_fits;
  below = λ j k. v.below j (omega (arith, k));
  counted = v.counted;
  taken = v.taken;
  enough = ground (arith, h, v.enough, ones_last n s.free_bitmask);
}

pick_at-IsPicking :
    (whole cnt n : ℕ) (s : Picking)
    → IsPicking whole cnt (suc n) s
    → n < 16
    → (s' : Picking) × (pick_at n s ≡ ok s') × IsPicking whole cnt n s'
unfolding pick_at
pick_at-IsPicking whole cnt n s v lt =
    let test = bit_test n s.free_bitmask in
    elim (Bool-cases (ltb 0 s.to_take && not (bit n s.free_bitmask == 0))) [
      | inl y ↦
          let (kept, some_left) =
            take_at-IsPicking whole cnt n s v lt (ground (arith, y))
              (ground (arith, y, bit-lt n s.free_bitmask)) in
          (take_at n s, rw (test, y) (ground (arith, some_left)), kept)
      | inr o ↦ (s, rw (test, o) refl, skip-IsPicking whole cnt n s v o)
    ]

-- The loop takes just the count of bits that is asked for, and fails no assertion.
pub pick_down-IsPicking :
    (whole cnt n : ℕ) (s : Picking)
    → IsPicking whole cnt n s
    → n ≤ 16
    → (s' : Picking) × (pick_down n s ≡ ok s') × IsPicking whole cnt 0 s'
unfolding pick_down
pick_down-IsPicking whole cnt zero s v le = (s, refl, v)
pick_down-IsPicking whole cnt (suc n) s v le =
    let (s1, step, v1) = pick_at-IsPicking whole cnt n s v (omega (arith, le)) in
    let (s2, rest, v2) = pick_down-IsPicking whole cnt n s1 v1 (omega (arith, le)) in
    (s2, rw step rest, v2)
