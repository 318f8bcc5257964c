-- ===== src/Mem/Ints/Fields.antt =====
-- Reading a bit field is a division and a remainder; writing one into zeros is a sum.
use xoz.Base.{ℕ, ◌+◌, ◌-◌, ◌*◌, ◌/◌, ◌%◌, ◌^◌, ◌<◌, bit_and, bit_or, ◌≡◌, ◌∙◌, arith}
use xoz.Base.Bits.{bit_and_field, bit_or_field}
use xoz.Mem.Ints.{
  countr_zero, read_bits, write_bits, countr_zero_u32, read_bits_u32, write_bits_u32,
}
use native.Mathlib.Nat.{one-le-pow, mul-div_cancel, mod-eq_of_lt, div-add-mod', mod-lt}

-- A field of w digits at s.
abbrev pub mask : ℕ → ℕ → ℕ
mask s w = (2 ^ w - 1) * 2 ^ s

-- The digits of the field, moved down to the end.
pub read_bits-field :
    (s w x : ℕ) → countr_zero (mask s w) ≡ s → read_bits x (mask s w) ≡ x / 2 ^ s % 2 ^ w
unfolding read_bits
read_bits-field s w x c =
    rw (c, bit_and_field s w x) (mul-div_cancel (x / 2 ^ s % 2 ^ w) (one-le-pow s 2 (omega arith)))

pub read_bits_u32-field :
    (s w x : ℕ) → countr_zero_u32 (mask s w) ≡ s → read_bits_u32 x (mask s w) ≡ x / 2 ^ s % 2 ^ w
unfolding read_bits_u32
read_bits_u32-field s w x c =
    rw (c, bit_and_field s w x) (mul-div_cancel (x / 2 ^ s % 2 ^ w) (one-le-pow s 2 (omega arith)))

-- The digits of a value that fall into the field.
masked : (s w v : ℕ) → bit_and (v * 2 ^ s) (mask s w) ≡ v % 2 ^ w * 2 ^ s
masked s w v =
    bit_and_field s w (v * 2 ^ s) ∙ rw (mul-div_cancel v {n = 2 ^ s} (one-le-pow s 2 (omega arith)))

or_field : (s w x v : ℕ) → x / 2 ^ s % 2 ^ w ≡ 0 → v < 2 ^ w → bit_or x (v * 2 ^ s) ≡ x + v * 2 ^ s
or_field s w x v free hv =
    let P : ℕ = 2 ^ s in
    let hi : ℕ = x / P / 2 ^ w in
    let above : hi * 2 ^ w ≡ x / P = omega (arith, div-add-mod' (x / P) (2 ^ w)) in
    let split : hi * 2 ^ w * P + x % P ≡ x = rw above (div-add-mod' x P) in
    let whole = bit_or_field s w hi (x % P) v hv (mod-lt x (one-le-pow s 2 (omega arith))) in
    (rw split at whole) ∙ omega (arith, split)

-- A value, written where the field holds zeros: its digits beyond the field are dropped.
pub write_bits-cut :
    (s w x v : ℕ)
    → countr_zero (mask s w) ≡ s
    → x / 2 ^ s % 2 ^ w ≡ 0
    → v * 2 ^ s < 2 ^ 64
    → v % 2 ^ w * 2 ^ s < 2 ^ 16
    → write_bits x v (mask s w) ≡ x + v % 2 ^ w * 2 ^ s
unfolding write_bits
write_bits-cut s w x v c free wide fits =
    rw (c, mod-eq_of_lt wide, masked s w v, mod-eq_of_lt fits)
      (or_field s w x (v % 2 ^ w) free (mod-lt v (one-le-pow w 2 (omega arith))))

-- A value that fits.
pub write_bits-field :
    (s w x v : ℕ)
    → countr_zero (mask s w) ≡ s
    → x / 2 ^ s % 2 ^ w ≡ 0
    → v < 2 ^ w
    → v * 2 ^ s < 2 ^ 16
    → write_bits x v (mask s w) ≡ x + v * 2 ^ s
write_bits-field s w x v c free hv fits =
    let cut : v % 2 ^ w ≡ v = mod-eq_of_lt hv in
    rw cut at (write_bits-cut s w x v c free (omega arith) (rw cut fits))

pub write_bits_u32-field :
    (s w x v : ℕ)
    → countr_zero_u32 (mask s w) ≡ s
    → x / 2 ^ s % 2 ^ w ≡ 0
    → v < 2 ^ w
    → v * 2 ^ s < 2 ^ 32
    → write_bits_u32 x v (mask s w) ≡ x + v * 2 ^ s
unfolding write_bits_u32
write_bits_u32-field s w x v c free hv fits =
    let wide : v * 2 ^ s % 2 ^ 64 ≡ v * 2 ^ s = mod-eq_of_lt (omega arith) in
    let cut : v % 2 ^ w ≡ v = mod-eq_of_lt hv in
    rw (c, wide, masked s w v, cut, mod-eq_of_lt fits) (or_field s w x v free hv)
