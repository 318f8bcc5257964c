-- ===== src/Alloc/FreeBlocks/Conserves.antt =====
-- No block is lost or given twice by `alloc`.
use xoz.Base.{
  ℕ, ◌+◌, ◌-◌, ◌%◌, ◌^◌, ◌<◌, ◌≡◌, sym, ap, ◌∙◌, arith, Bool, true, false, not, ltb, ◌==◌, some,
  All, All-map, Result, ok, >>=-eq-ok, Bool-cases, inl, inr, ltb→lt, Option-cases, require,
  runtime_error,
}
use mathlib.Core.Path.{subst}
use xoz.Alloc.Chunks.{Chunks, map_erase, map_find}
use xoz.Alloc.Chunks.Apart.{
  Beside, holds, free_at, found_fits, inside_none, others-Beside, free_at-map_erase,
  free_at-map_insert,
}
use xoz.Alloc.Chunks.Tally.{lower_bound-Listed}
use xoz.Alloc.FreeBlocks.{
  FreeMap, alloc, alloc_fails, alloc_from, closest_cnt, usable_chunk, use_chunk, insert_chunk,
  assert_sizes,
}
use xoz.Alloc.FreeBlocks.Invariant.{IsFreeMap, insert_chunk-IsFreeMap, without, without-IsFreeMap}
use xoz.Alloc.{fail_alloc_if_empty}
use xoz.Extent.{Extent, make_extent, blk_nr}
use xoz.Extent.Laws.{make_extent-made, blk_nr-extent_of}

usable_chunk-Listed :
    (m : FreeMap) (cnt c nr : ℕ)
    → IsFreeMap m
    → usable_chunk cnt m ≡ some (c, nr)
    → map_find nr m.fr_by_nr ≡ some c
unfolding usable_chunk
usable_chunk-Listed m cnt c nr v h =
    let next : ℕ = (cnt + m.split_above_threshold + 1) % 2 ^ 16 in
    ground (
      arith,
      h,
      lower_bound-Listed cnt c nr m.fr_by_nr m.fr_by_cnt v.listed,
      lower_bound-Listed next c nr m.fr_by_nr m.fr_by_cnt v.listed,
    )

use_chunk-free_at :
    (m m' : FreeMap) (b cnt c nr : ℕ)
    → IsFreeMap m
    → map_find nr m.fr_by_nr ≡ some c
    → 0 < cnt
    → use_chunk c nr cnt m ≡ ok m'
    → free_at b m.fr_by_nr ≡ holds b nr cnt + free_at b m'.fr_by_nr
unfolding use_chunk insert_chunk
use_chunk-free_at m m' b cnt c nr v f pos h =
    let taken = free_at-map_erase b nr c m.fr_by_nr f in
    let (small, fits) = found_fits nr c 0 m.fr_by_nr v.apart f in
    let left : Chunks = map_erase nr m.fr_by_nr in
    elim (Bool-cases (c == cnt)) [
      | inl y ↦ ground (arith, h, taken)
      | inr n ↦ elim (Bool-cases (ltb cnt c)) [
        | inl y ↦
            let whole : (nr + cnt) % 2 ^ 32 ≡ nr + cnt = omega (arith, fits, ltb→lt cnt c y) in
            let fresh =
              inside_none (nr + cnt) nr c 0 m.fr_by_nr v.apart f (omega (arith, pos))
                (omega (arith, ltb→lt cnt c y)) in
            let back = free_at-map_insert b (nr + cnt) (c - cnt) left fresh in
            ground (arith, rw whole at h, taken, back)
        | inr o ↦ absurd (ground (arith, h))
      ]
    ]

use_chunk-IsFreeMap :
    (m m' : FreeMap) (cnt c nr : ℕ)
    → IsFreeMap m
    → map_find nr m.fr_by_nr ≡ some c
    → 0 < cnt
    → use_chunk c nr cnt m ≡ ok m'
    → IsFreeMap m'
unfolding use_chunk
use_chunk-IsFreeMap m m' cnt c nr v f pos h =
    let (small, fits) = found_fits nr c 0 m.fr_by_nr v.apart f in
    let left : IsFreeMap (without nr c m) = without-IsFreeMap m nr c v f in
    elim (Bool-cases (c == cnt)) [
      | inl y ↦ subst (λ (t : FreeMap). IsFreeMap t) (ground (arith, h, y)) left
      | inr n ↦ elim (Bool-cases (ltb cnt c)) [
        | inl y ↦
            let less = ltb→lt cnt c y in
            let whole : (nr + cnt) % 2 ^ 32 ≡ nr + cnt = omega (arith, fits, less) in
            let clear : All (Beside (nr + cnt) (c - cnt)) (map_erase nr m.fr_by_nr) =
              All-map (λ p q. ground (arith, q, less)) (map_erase nr m.fr_by_nr)
                (others-Beside nr c 0 m.fr_by_nr v.apart f) in
            let back =
              insert_chunk-IsFreeMap (without nr c m) (nr + cnt) (c - cnt) left
                (omega (arith, less)) (omega (arith, small)) (omega (arith, fits, less)) clear in
            subst (λ (t : FreeMap). IsFreeMap t) (ground (arith, rw whole at h, n, y)) back
        | inr o ↦ absurd (ground (arith, h))
      ]
    ]

given :
    {e e' : Extent} {m m' : FreeMap}
    → ◌≡◌ {A = Result (Extent × Bool × FreeMap)} (ok (e, true, m)) (ok (e', true, m'))
    → (e ≡ e') × (m ≡ m')
given h = ground arith

alloc_fails-false :
    (m m' : FreeMap) (e : Extent) (cnt : ℕ) → ¬ (alloc_fails cnt m ≡ ok (e, true, m'))
unfolding alloc_fails
alloc_fails-false m m' e cnt h =
    let (e', _, h1) = >>=-eq-ok (make_extent 0 (closest_cnt cnt m) false) _ h in ground (arith, h1)

-- What `alloc` does with the chunk that it chose.
alloc_from-free_at :
    (m m' : FreeMap) (e : Extent) (b cnt c nr : ℕ)
    → IsFreeMap m
    → 0 < cnt
    → map_find nr m.fr_by_nr ≡ some c
    → alloc_from c nr cnt m ≡ ok (e, true, m')
    → (e.raw_blk_cnt ≡ cnt)
      × (free_at b m.fr_by_nr ≡ holds b (blk_nr e) cnt + free_at b m'.fr_by_nr)
      × IsFreeMap m'
unfolding alloc_from
alloc_from-free_at m m' e b cnt c nr v pos f h =
    let (e', is_made, h1) = >>=-eq-ok (make_extent nr cnt false) _ h in
    let (m1, used, h2) = >>=-eq-ok (use_chunk c nr cnt m) _ h1 in
    let (_, _, h3) = >>=-eq-ok (assert_sizes m1) _ h2 in
    let (_, fits) = found_fits nr c 0 m.fr_by_nr v.apart f in
    let (small, made) = make_extent-made nr cnt e' (omega (arith, fits)) is_made in
    let (same_e, same_m) = given h3 in
    let moved = use_chunk-free_at m m1 b cnt c nr v f pos used in
    let at : blk_nr e ≡ nr = ap blk_nr (sym same_e ∙ made) ∙ blk_nr-extent_of nr cnt false small in
    let kept = use_chunk-IsFreeMap m m1 cnt c nr v f pos used in
    (
      ap (λ (x : Extent). x.raw_blk_cnt) (sym same_e ∙ made),
      rw (at, ← same_m) moved,
      subst (λ (t : FreeMap). IsFreeMap t) same_m kept,
    )

-- A successful allocation, on a map whose chunks lie apart and stand once each in the map by count,
-- gives an extent of the count asked for; each block is as often free as before, less the blocks of
-- the extent: they were free, and are not given twice. The new map has the same form.
pub alloc-Conserves :
    (m m' : FreeMap) (e : Extent) (b cnt : ℕ)
    → IsFreeMap m
    → alloc cnt m ≡ ok (e, true, m')
    → (e.raw_blk_cnt ≡ cnt)
      × (free_at b m.fr_by_nr ≡ holds b (blk_nr e) cnt + free_at b m'.fr_by_nr)
      × IsFreeMap m'
unfolding alloc fail_alloc_if_empty
alloc-Conserves m m' e b cnt v h =
    let (_, asked, h1) = >>=-eq-ok (require (not (cnt == 0)) runtime_error) _ h in
    let (_, _, h2) = >>=-eq-ok (assert_sizes m) _ h1 in
    elim (Option-cases (usable_chunk cnt m)) [
      | inl none_left ↦ absurd (alloc_fails-false m m' e cnt (rw none_left at h2))
      | inr ((c, nr), found) ↦
          alloc_from-free_at m m' e b cnt c nr v (ground (arith, asked))
            (usable_chunk-Listed m cnt c nr v found) (rw found at h2)
    ]
