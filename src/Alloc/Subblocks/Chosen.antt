-- ===== src/Alloc/Subblocks/Chosen.antt =====
-- The block that `alloc` takes sub-blocks of.
use xoz.Base.{
  ℕ, zero, suc, ◌+◌, ◌-◌, ◌^◌, ◌≤◌, ◌<◌, ◌≡◌, refl, arith, bit_and, ltb, ◌==◌, ◌∷◌, Option, some,
  none, Bool-cases, List-cases, inl, inr,
}
use mathlib.Core.Path.{subst}
use xoz.Base.Binary.{bit, bit-bit_and, bit-complement, bit-lt, bit_above, same_bits, bit_and-lt}
use xoz.Alloc.Chunks.{map_find}
use xoz.Alloc.Subblocks.{Bins, first_fit}
use xoz.Extent.{Extent}

pub first_fit-found :
    (n from b nr : ℕ) (e : Extent) (bins : Bins)
    → first_fit n from bins ≡ some (b, nr, e)
    → (from ≤ b) × (b < from + n) × (map_find nr (bins b) ≡ some e)
unfolding first_fit map_find
first_fit-found zero from b nr e bins h = absurd (ground (arith, h))
first_fit-found (suc n) from b nr e bins h = elim (List-cases (bins from)) [
  | inl empty ↦
      let (le, lt, f) = first_fit-found n (from + 1) b nr e bins (rw (empty, first_fit) at h) in
      (omega (arith, le), omega (arith, lt), f)
  | inr ((k, d), ys, q) ↦
      let h1 : ◌≡◌ {A = Option (ℕ × ℕ × Extent)} (some (from, k, d)) (some (b, nr, e)) =
        rw (q, first_fit) at h in
      let here : from ≡ b = ground (arith, h1) in
      let head : map_find nr ((k, d) ∷ ys) ≡ some e = ground (arith, h1) in
      (
        omega (arith, here),
        omega (arith, here),
        subst (λ (t : ℕ). map_find nr (bins t) ≡ some e) here (rw q head),
      )
]

pub first_fit-none :
    (n from i k : ℕ) (bins : Bins)
    → first_fit n from bins ≡ none
    → from ≤ i
    → i < from + n
    → map_find k (bins i) ≡ none
unfolding first_fit map_find
first_fit-none zero from i k bins h le lt = absurd (omega (arith, le, lt))
first_fit-none (suc n) from i k bins h le lt = elim (List-cases (bins from)) [
  | inl empty ↦ elim (Bool-cases (from == i)) [
    | inl y ↦
        let here : from ≡ i = ground (arith, y) in
        subst (λ (t : ℕ). map_find k (bins t) ≡ none) here (rw empty refl)
    | inr o ↦
        first_fit-none n (from + 1) i k bins (rw (empty, first_fit) at h) (ground (arith, o, le))
          (omega (arith, lt))
  ]
  | inr ((k', d), ys, q) ↦ absurd (ground (arith, rw (q, first_fit) at h))
]

-- What was taken is not free any more.
pub apart_bits :
    (f a w : ℕ)
    → f < 2 ^ 16
    → a < 2 ^ 16
    → ((j : ℕ) → bit j f + bit j a ≡ bit j w)
    → bit_and a (0xffff - f) ≡ a
apart_bits f a w h k e =
    same_bits 16 (bit_and a (0xffff - f)) a (bit_and-lt 16 a (0xffff - f) k) k (λ j.
      elim (Bool-cases (ltb j 16)) [
        | inl y ↦ ground (
          arith,
          bit-bit_and j a (0xffff - f),
          bit-complement 16 j f h (ground (arith, y)),
          e j,
          bit-lt j w,
        )
        | inr o ↦
            ground (arith, bit-bit_and j a (0xffff - f), bit_above 16 j a k (ground (arith, o)))
      ])
