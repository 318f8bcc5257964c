-- ===== src/Base/Bits.antt =====
-- The bit operations as arithmetic on binary digits, at every width.
use Prim.Native.Nat.{
  ℕ, zero, suc, ◌+◌, ◌-◌, ◌*◌, ◌/◌, ◌%◌, ◌^◌, ◌≤◌, ◌<◌, min, max, digits, bit_and, bit_or,
  bit_and-bitwise, bit_or-bitwise,
}
use mathlib.Core.Path.{◌≡◌, refl, sym, ◌∙◌, ap}
use native.Mathlib.Nat.{pow-suc, one-le-pow, div-add-mod', mod-lt}
use native.Mathlib.Omega.{arith}

digits-zero : (z : ℕ → ℕ) (f : ℕ → ℕ → ℕ) (fuel y : ℕ) → digits z f fuel 0 y ≡ z y
digits-zero z f zero y = refl
digits-zero z f (suc fuel) y = refl

-- Any count of digits that covers the first number gives the same result.
digits_enough :
    (z : ℕ → ℕ) (f : ℕ → ℕ → ℕ) (fuel more x y : ℕ)
    → x ≤ min fuel more
    → digits z f fuel x y ≡ digits z f more x y
digits_enough z f fuel more zero y le = digits-zero z f fuel y ∙ sym (digits-zero z f more y)
digits_enough z f zero more (suc x) y le = absurd (omega arith)
digits_enough z f (suc fuel) zero (suc x) y le = absurd (omega arith)
digits_enough z f (suc fuel) (suc more) (suc x) y le =
    let lower = digits_enough z f fuel more (suc x / 2) (y / 2) (omega arith) in
    omega (arith, lower)

-- The lowest digit, and the others with the fuel that they need.
digits_step :
    (z : ℕ → ℕ) (f : ℕ → ℕ → ℕ) (x y : ℕ)
    → digits z f (suc x) (suc x) y
      ≡ digits z f (suc x / 2) (suc x / 2) (y / 2) * 2 + f (suc x % 2) (y % 2)
digits_step z f x y =
    omega (arith, digits_enough z f x (suc x / 2) (suc x / 2) (y / 2) (omega arith))

pub zero-bit_or : (y : ℕ) → bit_or 0 y ≡ y
zero-bit_or y = bit_or-bitwise 0 y

pub zero-bit_and : (y : ℕ) → bit_and 0 y ≡ 0
zero-bit_and y = bit_and-bitwise 0 y

pub bit_and_step : (x y : ℕ) → bit_and x y ≡ bit_and (x / 2) (y / 2) * 2 + min (x % 2) (y % 2)
bit_and_step zero y =
    let low = bit_and-bitwise 0 y in
    let high = bit_and-bitwise 0 (y / 2) in omega (arith, low, high)
bit_and_step (suc x) y =
    let step = digits_step (λ _. 0) min x y in
    omega (arith, step, bit_and-bitwise (suc x) y, bit_and-bitwise (suc x / 2) (y / 2))

pub bit_or_step : (x y : ℕ) → bit_or x y ≡ bit_or (x / 2) (y / 2) * 2 + max (x % 2) (y % 2)
bit_or_step zero y = omega (arith, zero-bit_or y, zero-bit_or (y / 2))
bit_or_step (suc x) y =
    let step = digits_step (λ t. t) max x y in
    omega (arith, step, bit_or-bitwise (suc x) y, bit_or-bitwise (suc x / 2) (y / 2))

and_halves :
    (a b : ℕ) {c d : ℕ}
    → a / 2 ≡ c
    → b / 2 ≡ d
    → bit_and a b ≡ bit_and c d * 2 + min (a % 2) (b % 2)
and_halves a b p q = rw (← p, ← q) (bit_and_step a b)

or_halves :
    (a b : ℕ) {c d : ℕ} → a / 2 ≡ c → b / 2 ≡ d → bit_or a b ≡ bit_or c d * 2 + max (a % 2) (b % 2)
or_halves a b p q = rw (← p, ← q) (bit_or_step a b)

-- With no digit in the second number, by recursion on a bound of the first.
low_zero : (bound x : ℕ) → x ≤ bound → (bit_and x 0 ≡ 0) × (bit_or x 0 ≡ x)
low_zero zero x le = let e : x ≡ 0 = omega arith in rw e (bit_and-bitwise 0 0, zero-bit_or 0)
low_zero (suc bound) x le =
    let (below_and, below_or) = low_zero bound (x / 2) (omega arith) in
    (
      omega (arith, and_halves x 0 refl refl, below_and),
      omega (arith, or_halves x 0 refl refl, below_or),
    )

pub bit_and-zero : (x : ℕ) → bit_and x 0 ≡ 0
bit_and-zero x = (low_zero x x (omega arith)).0

pub bit_or-zero : (x : ℕ) → bit_or x 0 ≡ x
bit_or-zero x = (low_zero x x (omega arith)).1

times_suc : (q s : ℕ) → q * 2 ^ suc s ≡ q * 2 ^ s * 2
times_suc q s = omega (arith, ap (λ (t : ℕ). q * t) (pow-suc 2 s))

pow_pos : (k : ℕ) → 1 ≤ 2 ^ k
pow_pos k = one-le-pow k 2 (omega arith)

-- A mask of `k` ones keeps the low `k` digits.
pub bit_and_ones : (k q r : ℕ) → r < 2 ^ k → bit_and (q * 2 ^ k + r) (2 ^ k - 1) ≡ r
bit_and_ones zero q r h = omega (arith, bit_and-zero (q * 2 ^ 0 + r))
bit_and_ones (suc k) q r h = omega (
  arith,
  and_halves (q * 2 ^ suc k + r) (2 ^ suc k - 1) {c = q * 2 ^ k + r / 2} {d = 2 ^ k - 1}
      (omega (arith, times_suc q k)) (omega (arith, pow-suc 2 k)),
  bit_and_ones k q (r / 2) (omega (arith, pow-suc 2 k)),
  times_suc q k,
  pow-suc 2 k,
  pow_pos k,
)

-- A mask with `s` zeros at its end sees the digits above them.
pub bit_and_shift :
    (s q r m : ℕ) → r < 2 ^ s → bit_and (q * 2 ^ s + r) (m * 2 ^ s) ≡ bit_and q m * 2 ^ s
bit_and_shift zero q r m h =
    let e : q * 1 + r ≡ q = omega arith in
    let f : m * 1 ≡ m = omega arith in rw (e, f) (omega arith)
bit_and_shift (suc s) q r m h = omega (
  arith,
  and_halves (q * 2 ^ suc s + r) (m * 2 ^ suc s) {c = q * 2 ^ s + r / 2} {d = m * 2 ^ s}
      (omega (arith, times_suc q s)) (omega (arith, times_suc m s)),
  bit_and_shift s q (r / 2) m (omega (arith, pow-suc 2 s)),
  times_suc q s,
  times_suc m s,
  times_suc (bit_and q m) s,
)

-- `|` of digits above `s` leaves the low digits alone.
pub bit_or_shift :
    (s q r m : ℕ) → r < 2 ^ s → bit_or (q * 2 ^ s + r) (m * 2 ^ s) ≡ bit_or q m * 2 ^ s + r
bit_or_shift zero q r m h =
    let e : q * 1 + r ≡ q = omega arith in
    let f : m * 1 ≡ m = omega arith in rw (e, f) (omega arith)
bit_or_shift (suc s) q r m h = omega (
  arith,
  or_halves (q * 2 ^ suc s + r) (m * 2 ^ suc s) {c = q * 2 ^ s + r / 2} {d = m * 2 ^ s}
      (omega (arith, times_suc q s)) (omega (arith, times_suc m s)),
  bit_or_shift s q (r / 2) m (omega (arith, pow-suc 2 s)),
  times_suc q s,
  times_suc m s,
  times_suc (bit_or q m) s,
)

-- `|` of two numbers with no digit in common is their sum.
pub bit_or_high : (s r m : ℕ) → r < 2 ^ s → bit_or r (m * 2 ^ s) ≡ m * 2 ^ s + r
bit_or_high s r m h =
    let e : 0 * 2 ^ s + r ≡ r = omega arith in
    (rw e at (bit_or_shift s 0 r m h)) ∙ rw (zero-bit_or m)

-- A mask of `k` ones, as a remainder.
pub bit_and_mod : (k x : ℕ) → bit_and x (2 ^ k - 1) ≡ x % 2 ^ k
bit_and_mod k x =
    rw (div-add-mod' x (2 ^ k)) at (bit_and_ones k (x / 2 ^ k) (x % 2 ^ k) (mod-lt x (pow_pos k)))

-- `|` into digits that are all zero is a sum.
pub bit_or_low : (k q r : ℕ) → r < 2 ^ k → bit_or (q * 2 ^ k) r ≡ q * 2 ^ k + r
bit_or_low zero q zero h = rw bit_or-zero (omega arith)
bit_or_low zero q (suc r) h = absurd (omega arith)
bit_or_low (suc k) q r h = omega (
  arith,
  or_halves (q * 2 ^ suc k) r {c = q * 2 ^ k} {d = r / 2} (omega (arith, times_suc q k)) refl,
  bit_or_low k q (r / 2) (omega (arith, pow-suc 2 k)),
  times_suc q k,
)

-- A mask of `w` ones above `s` zeros selects a field.
pub bit_and_field : (s w x : ℕ) → bit_and x ((2 ^ w - 1) * 2 ^ s) ≡ x / 2 ^ s % 2 ^ w * 2 ^ s
bit_and_field s w x =
    let P : ℕ = 2 ^ s in
    let q : ℕ = x / P in
    let e = bit_and_shift s q (x % P) (2 ^ w - 1) (mod-lt x (pow_pos s)) in
    let f = bit_and_ones w (q / 2 ^ w) (q % 2 ^ w) (mod-lt q (pow_pos w)) in
    rw (div-add-mod' x P) at e ∙ ap (λ t. t * P) (rw (div-add-mod' q (2 ^ w)) at f)

-- `|` of a field of `w` digits at `s`, where those digits are zero.
pub bit_or_field :
    (s w hi lo v : ℕ)
    → v < 2 ^ w
    → lo < 2 ^ s
    → bit_or (hi * 2 ^ w * 2 ^ s + lo) (v * 2 ^ s) ≡ hi * 2 ^ w * 2 ^ s + v * 2 ^ s + lo
bit_or_field s w hi lo v hv hl =
    omega
      (arith, bit_or_shift s (hi * 2 ^ w) lo v hl, ap (λ (t : ℕ). t * 2 ^ s) (bit_or_low w hi v hv))
