-- ===== src/Base/Binary.antt =====
-- The single bits of a number, and how many are set.
use Prim.Native.Nat.{ℕ, zero, suc, ◌+◌, ◌-◌, ◌/◌, ◌%◌, ◌^◌, ◌≤◌, ◌<◌, min, max, bit_and, bit_or}
use mathlib.Core.Path.{◌≡◌, refl, ◌∙◌}
use mathlib.Core.Logic.{inl, inr}
use native.Mathlib.Nat.{pow-suc, one-le-pow}
use native.Mathlib.Omega.{arith}
use xoz.Base.Tests.{Bool-cases, ◌==◌, ltb, if◌then◌else◌}
use xoz.Base.Bits.{bit_and_step, bit_or_step, bit_and-zero, zero-bit_or, zero-bit_and}

abbrev pub bit : ℕ → ℕ → ℕ
bit zero x = x % 2
bit (suc j) x = bit j (x / 2)

-- The ones among the lowest n bits.
abbrev pub ones : ℕ → ℕ → ℕ
ones zero x = 0
ones (suc n) x = x % 2 + ones n (x / 2)

pub bit-lt : (j x : ℕ) → bit j x < 2
bit-lt zero x = omega arith
bit-lt (suc j) x = bit-lt j (x / 2)

half_of_and : (x y : ℕ) → bit_and x y / 2 ≡ bit_and (x / 2) (y / 2)
half_of_and x y = omega (arith, bit_and_step x y)

half_of_or : (x y : ℕ) → bit_or x y / 2 ≡ bit_or (x / 2) (y / 2)
half_of_or x y = omega (arith, bit_or_step x y)

pub bit-bit_and : (j x y : ℕ) → bit j (bit_and x y) ≡ min (bit j x) (bit j y)
bit-bit_and zero x y = omega (arith, bit_and_step x y)
bit-bit_and (suc j) x y = rw (half_of_and x y) (bit-bit_and j (x / 2) (y / 2))

pub bit-bit_or : (j x y : ℕ) → bit j (bit_or x y) ≡ max (bit j x) (bit j y)
bit-bit_or zero x y = omega (arith, bit_or_step x y)
bit-bit_or (suc j) x y = rw (half_of_or x y) (bit-bit_or j (x / 2) (y / 2))

pub zero_bit : (j : ℕ) → bit j 0 ≡ 0
zero_bit zero = refl
zero_bit (suc j) = zero_bit j

half_power : (k : ℕ) → 2 ^ suc k / 2 ≡ 2 ^ k
half_power k = omega (arith, pow-suc 2 k)

pub bit-power : (j k : ℕ) → bit j (2 ^ k) ≡ (if j == k then 1 else 0)
bit-power zero zero = refl
bit-power zero (suc k) = ground (arith, pow-suc 2 k)
bit-power (suc j) zero = zero_bit j ∙ ground arith
bit-power (suc j) (suc k) = rw (half_power k) (ground (arith, bit-power j k))

-- The bits of `~x` in a word of n bits.
pub bit-complement : (n j x : ℕ) → x < 2 ^ n → j < n → bit j (2 ^ n - 1 - x) ≡ 1 - bit j x
bit-complement zero j x h k = absurd (omega (arith, k))
bit-complement (suc n) zero x h k = omega (arith, h, pow-suc 2 n)
bit-complement (suc n) (suc j) x h k =
    let half : (2 ^ suc n - 1 - x) / 2 ≡ 2 ^ n - 1 - x / 2 = omega (arith, h, pow-suc 2 n) in
    rw half (bit-complement n j (x / 2) (omega (arith, h, pow-suc 2 n)) (omega (arith, k)))

pub bit_above : (n j x : ℕ) → x < 2 ^ n → n ≤ j → bit j x ≡ 0
bit_above zero j x h k = let e : x ≡ 0 = omega (arith, h) in rw e (zero_bit j)
bit_above (suc n) zero x h k = absurd (omega (arith, k))
bit_above (suc n) (suc j) x h k =
    bit_above n j (x / 2) (omega (arith, h, pow-suc 2 n)) (omega (arith, k))

-- Numbers of n bits are told apart by their bits.
pub same_bits : (n x y : ℕ) → x < 2 ^ n → y < 2 ^ n → ((j : ℕ) → bit j x ≡ bit j y) → x ≡ y
same_bits zero x y h k e = omega (arith, h, k)
same_bits (suc n) x y h k e = omega (
  arith,
  e 0,
  same_bits n (x / 2) (y / 2) (omega (arith, h, pow-suc 2 n)) (omega (arith, k, pow-suc 2 n))
      (λ j. e (suc j)),
)

pub ones-split :
    (n x y z : ℕ) → ((j : ℕ) → bit j x + bit j y ≡ bit j z) → ones n x + ones n y ≡ ones n z
ones-split zero x y z e = refl
ones-split (suc n) x y z e =
    omega (arith, e 0, ones-split n (x / 2) (y / 2) (z / 2) (λ j. e (suc j)))

pub ones_last : (n x : ℕ) → ones (suc n) x ≡ ones n x + bit n x
ones_last zero x = omega arith
ones_last (suc n) x = omega (arith, ones_last n (x / 2))

pub ones_same : (n x y : ℕ) → ((j : ℕ) → j < n → bit j x ≡ bit j y) → ones n x ≡ ones n y
ones_same zero x y e = refl
ones_same (suc n) x y e =
    omega
      (arith, e 0 (omega arith), ones_same n (x / 2) (y / 2) (λ j h. e (suc j) (omega (arith, h))))

pub ones-zero : (n x : ℕ) → x < 2 ^ n → ones n x ≡ 0 → x ≡ 0
ones-zero zero x h e = omega (arith, h)
ones-zero (suc n) x h e =
    omega (arith, e, ones-zero n (x / 2) (omega (arith, h, pow-suc 2 n)) (omega (arith, e)))

pub ones-le : (n x : ℕ) → ones n x ≤ n
ones-le zero x = omega arith
ones-le (suc n) x = omega (arith, ones-le n (x / 2))

pub zero_ones : (n : ℕ) → ones n 0 ≡ 0
zero_ones zero = refl
zero_ones (suc n) = omega (arith, zero_ones n)

-- `x & (1 << k)`
pub bit_and-power : (k x : ℕ) → bit_and x (2 ^ k) ≡ (if bit k x == 0 then 0 else 2 ^ k)
bit_and-power zero x = ground (arith, bit_and_step x 1, bit_and-zero (x / 2))
bit_and-power (suc k) x =
    ground (
      arith,
      rw (half_power k) at (bit_and_step x (2 ^ suc k)),
      bit_and-power k (x / 2),
      pow-suc 2 k,
    )

pub bit_and-lt : (n x y : ℕ) → x < 2 ^ n → bit_and x y < 2 ^ n
bit_and-lt zero x y h = let e : x ≡ 0 = omega (arith, h) in rw e (omega (arith, zero-bit_and y))
bit_and-lt (suc n) x y h = omega (
  arith,
  bit_and_step x y,
  bit_and-lt n (x / 2) (y / 2) (omega (arith, h, pow-suc 2 n)),
  pow-suc 2 n,
)

pub bit_or-lt : (n x y : ℕ) → x < 2 ^ n → y < 2 ^ n → bit_or x y < 2 ^ n
bit_or-lt zero x y h k = let e : x ≡ 0 = omega (arith, h) in rw e (omega (arith, zero-bit_or y, k))
bit_or-lt (suc n) x y h k = omega (
  arith,
  bit_or_step x y,
  bit_or-lt n (x / 2) (y / 2) (omega (arith, h, pow-suc 2 n)) (omega (arith, k, pow-suc 2 n)),
  pow-suc 2 n,
)

pub ones-power : (n k : ℕ) → ones n (2 ^ k) ≡ (if ltb k n then 1 else 0)
ones-power zero k = ground arith
ones-power (suc n) zero = ground (arith, zero_ones n)
ones-power (suc n) (suc k) = rw (half_power k) (ground (arith, ones-power n k, pow-suc 2 k))

pub power-lt : (k n : ℕ) → k < n → 2 ^ k < 2 ^ n
power-lt k zero h = absurd (omega (arith, h))
power-lt zero (suc n) h = omega (arith, pow-suc 2 n, one-le-pow n 2 (omega arith))
power-lt (suc k) (suc n) h =
    omega (arith, power-lt k n (omega (arith, h)), pow-suc 2 n, pow-suc 2 k)

-- Clearing and setting one bit.
pub clear_bit :
    (n k x j : ℕ)
    → x < 2 ^ n
    → k < n
    → bit j (bit_and x (2 ^ n - 1 - 2 ^ k)) ≡ (if j == k then 0 else bit j x)
clear_bit n k x j h lt = elim (Bool-cases (ltb j n)) [
  | inl y ↦ ground (
    arith,
    bit-bit_and j x (2 ^ n - 1 - 2 ^ k),
    bit-complement n j (2 ^ k) (power-lt k n lt) (ground (arith, y)),
    bit-power j k,
    bit-lt j x,
  )
  | inr o ↦
      ground
        (arith, bit-bit_and j x (2 ^ n - 1 - 2 ^ k), bit_above n j x h (ground (arith, o)), o, lt)
]

pub put_bit : (k x j : ℕ) → bit j (bit_or x (2 ^ k)) ≡ (if j == k then 1 else bit j x)
put_bit k x j = ground (arith, bit-bit_or j x (2 ^ k), bit-power j k, bit-lt j x)

pub bit_test : (k x : ℕ) → (bit_and x (2 ^ k) == 0) ≡ (bit k x == 0)
bit_test k x = ground (arith, bit_and-power k x, one-le-pow k 2 (omega arith))
