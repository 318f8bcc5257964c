-- ===== src/Alloc/FreeBlocks/Fits.antt =====
-- When `alloc` finds no chunk.
use xoz.Base.{
  ℕ, ◌+◌, ◌%◌, ◌^◌, ◌≤◌, ◌<◌, ◌≡◌, ◌⊎◌, arith, false, not, leb, ltb, ◌==◌, [], ◌∷◌, some, none, All,
  All-map, All-map2, ok, >>=-eq-ok, Bool-cases, inl, inr, ltb→lt, Option-cases, require,
  runtime_error,
}
use xoz.Alloc.{fail_alloc_if_empty}
use xoz.Alloc.Chunks.{Chunks, lower_bound}
use xoz.Alloc.Chunks.Tally.{Ascending}
use xoz.Alloc.FreeBlocks.{
  FreeMap, alloc, alloc_fails, alloc_from, usable_chunk, use_chunk, closest_cnt, assert_sizes,
}
use xoz.Extent.{Extent, make_extent}

-- A chunk is too small, or it would have to be split with too few blocks left.
abbrev pub Unusable : ℕ → ℕ → ℕ × ℕ → Type 0
Unusable cnt threshold (c, nr) = (c < cnt) ⊎ ((cnt < c) × (c ≤ cnt + threshold))

below_key :
    (key low : ℕ) (xs : Chunks)
    → Ascending low xs
    → lower_bound key xs ≡ none
    → All (λ (p : ℕ × ℕ). p.0 < key) xs
unfolding lower_bound
below_key key low [] v h = tt
below_key key low ((k, n) ∷ xs) (_, _, v) h = elim (Bool-cases (ltb k key)) [
  | inl y ↦ (ltb→lt k key y, below_key key k xs v (rw y at h))
  | inr o ↦ absurd (ground (arith, h))
]

from_low :
    (low : ℕ) (xs : Chunks)
    → Ascending low xs
    → All (λ (p : ℕ × ℕ). (low ≤ p.0) × (p.0 < 2 ^ 16)) xs
from_low low [] v = tt
from_low low ((k, n) ∷ xs) (a, b, v) =
    ((a, b), All-map (λ p h. (omega (arith, a, h.0), h.1)) xs (from_low k xs v))

-- No entry is between the key and the first that is not below it.
none_between :
    (key low c nr : ℕ) (xs : Chunks)
    → Ascending low xs
    → lower_bound key xs ≡ some (c, nr)
    → All (λ (p : ℕ × ℕ). ((p.0 < key) ⊎ (c ≤ p.0)) × (p.0 < 2 ^ 16)) xs
unfolding lower_bound
none_between key low c nr [] v h = tt
none_between key low c nr ((k, n) ∷ xs) (a, b, v) h = elim (Bool-cases (ltb k key)) [
  | inl y ↦ ((inl (ltb→lt k key y), b), none_between key k c nr xs v (rw y at h))
  | inr o ↦
      let e : c ≡ k = ground (arith, h) in
      (
        (inr (omega (arith, e)), b),
        All-map (λ p q. (inr (omega (arith, e, q.0)), q.1)) xs (from_low k xs v),
      )
]

lower_bound-le : (key c nr : ℕ) (xs : Chunks) → lower_bound key xs ≡ some (c, nr) → key ≤ c
unfolding lower_bound
lower_bound-le key c nr [] h = absurd (ground (arith, h))
lower_bound-le key c nr ((k, n) ∷ xs) h = ground (arith, h, lower_bound-le key c nr xs)

usable_chunk-none :
    (m : FreeMap) (cnt : ℕ)
    → cnt < 2 ^ 16
    → m.split_above_threshold < 2 ^ 16
    → Ascending 0 m.fr_by_cnt
    → usable_chunk cnt m ≡ none
    → All (λ p. Unusable cnt m.split_above_threshold p) m.fr_by_cnt
unfolding usable_chunk
usable_chunk-none m cnt small small' v h =
    let thr : ℕ = m.split_above_threshold in
    let next : ℕ = (cnt + thr + 1) % 2 ^ 16 in
    elim (Option-cases (lower_bound cnt m.fr_by_cnt)) [
      | inl e ↦ All-map (λ p q. inl q) m.fr_by_cnt (below_key cnt 0 m.fr_by_cnt v e)
      | inr ((c, nr), e) ↦
          let gap = none_between cnt 0 c nr m.fr_by_cnt v e in
          let near : (cnt < c) × (c ≤ cnt + thr) =
            ground (arith, h, e, lower_bound-le cnt c nr m.fr_by_cnt e) in
          elim (Bool-cases (leb next cnt)) [
            | inl y ↦
                let wrapped : 2 ^ 16 ≤ cnt + thr + 1 = ground arith in
                All-map (λ p q. ground (arith, q, near, wrapped)) m.fr_by_cnt gap
            | inr o ↦
                let over : lower_bound next m.fr_by_cnt ≡ none = ground (arith, h, e) in
                let same : next ≡ cnt + thr + 1 = ground arith in
                All-map2 (λ p q r. ground (arith, q, r, near, same)) m.fr_by_cnt gap
                  (below_key next 0 m.fr_by_cnt v over)
          ]
    ]

alloc_fails-same :
    (m m' : FreeMap) (e : Extent) (cnt : ℕ) → alloc_fails cnt m ≡ ok (e, false, m') → m' ≡ m
unfolding alloc_fails
alloc_fails-same m m' e cnt h =
    let (_, _, h1) = >>=-eq-ok (make_extent 0 (closest_cnt cnt m) false) _ h in ground (arith, h1)

alloc_from-true :
    (m m' : FreeMap) (e : Extent) (c nr cnt : ℕ) → ¬ (alloc_from c nr cnt m ≡ ok (e, false, m'))
unfolding alloc_from
alloc_from-true m m' e c nr cnt h =
    let (_, _, h1) = >>=-eq-ok (make_extent nr cnt false) _ h in
    let (m1, _, h2) = >>=-eq-ok (use_chunk c nr cnt m) _ h1 in
    let (_, _, h3) = >>=-eq-ok (assert_sizes m1) _ h2 in ground (arith, h3)

-- Where the entries by count are in order, an allocation that finds no chunk changes nothing, and no
-- chunk has the count asked for, or has so many more blocks that more than the threshold would be
-- left; this holds also where the second count looked up is too large for 16 bits.
pub alloc-Unusable :
    (m m' : FreeMap) (e : Extent) (cnt : ℕ)
    → cnt < 2 ^ 16
    → m.split_above_threshold < 2 ^ 16
    → Ascending 0 m.fr_by_cnt
    → alloc cnt m ≡ ok (e, false, m')
    → (m' ≡ m) × All (λ p. Unusable cnt m.split_above_threshold p) m.fr_by_cnt
unfolding alloc fail_alloc_if_empty
alloc-Unusable m m' e cnt small small' v h =
    let (_, _, h1) = >>=-eq-ok (require (not (cnt == 0)) runtime_error) _ h in
    let (_, _, h2) = >>=-eq-ok (assert_sizes m) _ h1 in
    elim (Option-cases (usable_chunk cnt m)) [
      | inl none_left ↦ (
        alloc_fails-same m m' e cnt (rw none_left at h2),
        usable_chunk-none m cnt small small' v none_left,
      )
      | inr ((c, nr), found) ↦ absurd (alloc_from-true m m' e c nr cnt (rw found at h2))
    ]
