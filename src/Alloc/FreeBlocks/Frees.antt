-- ===== src/Alloc/FreeBlocks/Frees.antt =====
-- No block is lost by `dealloc`, and none is freed twice.
use xoz.Base.{
  ℕ, ◌+◌, ◌^◌, ◌<◌, ◌≡◌, ◌∙◌, arith, Bool, true, false, not, ◌&&◌, ◌==◌, if◌then◌else◌, Option,
  none, All, ok, >>=-eq-ok, Option-cases, inl, inr, require, runtime_error, ok-injective,
}
use mathlib.Core.Path.{subst}
use xoz.Alloc.{fail_if_suballoc_or_zero_cnt}
use xoz.Alloc.Chunks.{Chunks, upper_bound, before_upper}
use xoz.Alloc.Chunks.Apart.{Apart, Beside, holds, free_at, free_at-zero}
use xoz.Alloc.FreeBlocks.{
  FreeMap, insert_chunk, erase_next, join_next, join_prev, coalesce, dealloc, fail_if_overlap,
  assert_sizes,
}
use xoz.Alloc.FreeBlocks.Invariant.{IsFreeMap}
use xoz.Alloc.FreeBlocks.Joins.{upper_bound-found, before_upper-first}
use xoz.Alloc.FreeBlocks.Overlap.{fail_if_overlap-Beside}
use xoz.Extent.{Extent, is_suballoc, blk_nr, blk_cnt}
use xoz.Extent.Laws.{blk_nr-lt}
use xoz.Alloc.FreeBlocks.Grown.{Found, Behind, Freed}
use xoz.Alloc.FreeBlocks.Merge.{join_next-IsRun}
use xoz.Alloc.FreeBlocks.Finish.{inserted-Freed, join_prev-Freed, Before}

next_facts :
    (key : ℕ) (xs : Chunks)
    → Apart 0 xs
    → Found xs (upper_bound key xs) × Behind key (upper_bound key xs)
next_facts key xs v = elim (Option-cases (upper_bound key xs)) [
  | inl e ↦ rw e (tt, tt)
  | inr ((n, c), e) ↦ let (lt, _, f) = upper_bound-found key n c 0 xs v e in rw e (f, lt)
]

prev_facts :
    (key : ℕ) (xs : Chunks)
    → Apart 0 xs
    → Found xs (before_upper key none xs) × Before key (before_upper key none xs)
prev_facts key xs v = elim (Option-cases (before_upper key none xs)) [
  | inl e ↦ rw e (tt, tt)
  | inr ((p, w), e) ↦ let (le, f) = before_upper-first key p w 0 xs v e in rw e (f, le)
]

coalesce-Freed :
    (b : ℕ) (e : Extent) (m m' : FreeMap)
    → IsFreeMap m
    → is_suballoc e ≡ false
    → 0 < blk_cnt e
    → blk_cnt e < 2 ^ 16
    → All (Beside (blk_nr e) (blk_cnt e)) m.fr_by_nr
    → coalesce e m ≡ ok m'
    → Freed b (blk_nr e) (blk_cnt e) m m'
unfolding coalesce
coalesce-Freed b e m m' v plain pos small s h =
    let xs : Chunks = m.fr_by_nr in
    let next : Option (ℕ × ℕ) = upper_bound (blk_nr e) xs in
    let prev : Option (ℕ × ℕ) = before_upper (blk_nr e) none xs in
    let ((j, joined), h1, h2) = >>=-eq-ok (join_next next e) _ h in
    let ((wp, m2), h3, h4) = >>=-eq-ok (join_prev prev j m) _ h2 in
    let (m3, h5, h6) = >>=-eq-ok (erase_next next joined m2) _ h4 in
    let (g, lt) = next_facts (blk_nr e) xs v.apart in
    let (f, le) = prev_facts (blk_nr e) xs v.apart in
    let r = join_next-IsRun b e j joined m next v plain pos small s g h1 in
    let (kept, freed) = join_prev-Freed b e j m m2 m3 next prev joined wp v g lt f le r h3 h5 in
    subst (Freed b (blk_nr e) (blk_cnt e) m) (ok-injective h6) (kept, freed ∙ r.count)

-- With coalescing, and without it.
put-Freed :
    (b : ℕ) (e : Extent) (m m' : FreeMap) (coalescing : Bool)
    → IsFreeMap m
    → is_suballoc e ≡ false
    → 0 < blk_cnt e
    → blk_cnt e < 2 ^ 16
    → All (Beside (blk_nr e) (blk_cnt e)) m.fr_by_nr
    → (if coalescing then coalesce e m else ok (insert_chunk (blk_nr e) (blk_cnt e) m)) ≡ ok m'
    → Freed b (blk_nr e) (blk_cnt e) m m'
put-Freed b e m m' true v plain pos small s h = coalesce-Freed b e m m' v plain pos small s h
put-Freed b e m m' false v plain pos small s h =
    subst (Freed b (blk_nr e) (blk_cnt e) m) (ok-injective h)
      (inserted-Freed b (blk_nr e) (blk_cnt e) m v pos small (omega (arith, blk_nr-lt e, small)) s)

-- `dealloc` of at most 2^16 - 1 blocks, when it succeeds on a map whose chunks lie apart and stand
-- once each in the map by count, leaves such a map, whether or not it joins the blocks with the
-- chunks at their sides; each block is as often free as before, and the blocks given back once more.
pub dealloc-Conserves :
    (b : ℕ) (e : Extent) (m m' : FreeMap)
    → IsFreeMap m
    → blk_cnt e < 2 ^ 16
    → dealloc e m ≡ ok m'
    → IsFreeMap m' × (free_at b m'.fr_by_nr ≡ holds b (blk_nr e) (blk_cnt e) + free_at b m.fr_by_nr)
unfolding dealloc fail_if_suballoc_or_zero_cnt
dealloc-Conserves b e m m' v small h =
    let (_, asked, h1) =
      >>=-eq-ok (require (not (is_suballoc e) && not (blk_cnt e == 0)) runtime_error) _ h in
    let (_, passed, h2) = >>=-eq-ok (fail_if_overlap e m) _ h1 in
    let plain : is_suballoc e ≡ false = ground (arith, asked) in
    let pos : 0 < blk_cnt e = ground (arith, asked) in
    let s = fail_if_overlap-Beside m e v.apart plain passed in
    let (m1, h3, h4) =
      >>=-eq-ok
        (if m.coalescing_enabled then coalesce e m else ok (insert_chunk (blk_nr e) (blk_cnt e) m))
        _ h2 in
    let (_, _, h5) = >>=-eq-ok (assert_sizes m1) _ h4 in
    subst (Freed b (blk_nr e) (blk_cnt e) m) (ok-injective h5)
      (put-Freed b e m m1 m.coalescing_enabled v plain pos small s h3)

-- On a map whose chunks lie apart, `dealloc` does not succeed where a block of the extent is already
-- free: no block is freed twice.
pub dealloc-double_free :
    (b : ℕ) (e : Extent) (m m' : FreeMap)
    → Apart 0 m.fr_by_nr
    → holds b (blk_nr e) (blk_cnt e) ≡ 1
    → 0 < free_at b m.fr_by_nr
    → ¬ (dealloc e m ≡ ok m')
unfolding dealloc fail_if_suballoc_or_zero_cnt
dealloc-double_free b e m m' v inside is_free h =
    let (_, asked, h1) =
      >>=-eq-ok (require (not (is_suballoc e) && not (blk_cnt e == 0)) runtime_error) _ h in
    let (_, passed, _) = >>=-eq-ok (fail_if_overlap e m) _ h1 in
    let s = fail_if_overlap-Beside m e v (ground (arith, asked)) passed in
    let none_there =
      free_at-zero b (blk_nr e) (blk_cnt e) m.fr_by_nr s (ground (arith, inside))
        (ground (arith, inside)) in
    omega (arith, none_there, is_free)
