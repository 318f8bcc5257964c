-- ===== src/Alloc/FreeBlocks/Finish.antt =====
-- How `coalesce` ends: the run is put back, alone or at the end of the chunk before it.
use xoz.Base.{
  ℕ, ◌+◌, ◌%◌, ◌^◌, ◌≤◌, ◌<◌, ◌≡◌, sym, arith, Bool, true, false, ◌&&◌, ◌==◌, if◌then◌else◌, Option,
  some, none, All, Result, ok, >>=-eq-ok, Bool-cases, inl, inr, ok-injective,
}
use mathlib.Core.Path.{subst}
use xoz.Alloc.Chunks.{Chunks, map_find, map_update, multimap_insert}
use xoz.Alloc.Chunks.Apart.{Beside, found_fits, free_at-map_insert}
use xoz.Alloc.FreeBlocks.{FreeMap, insert_chunk, erase_from_fr_by_cnt, erase_next, join_prev}
use xoz.Alloc.FreeBlocks.Invariant.{
  IsFreeMap, insert_chunk-IsFreeMap, erase_by_cnt-ok, one_count, Beside-none,
}
use xoz.Extent.{Extent, blk_nr, blk_cnt, make_extent}
use xoz.Extent.Laws.{blk_nr-lt}
use xoz.Mem.Ints.{is_u16_add_ok, is_unsigned_int_add_ok}
use xoz.Alloc.FreeBlocks.Grown.{
  Found, Behind, Freed, taken, grown, erase_next-grown, erase_next-taken,
}
use xoz.Alloc.FreeBlocks.Merge.{IsRun}

fits_16 : (c d : ℕ) → c < 2 ^ 16 → d < 2 ^ 16 → is_u16_add_ok c d ≡ true → c + d < 2 ^ 16
unfolding is_u16_add_ok is_unsigned_int_add_ok
fits_16 c d h k e = ground (arith, h, k, e)

pub inserted-Freed :
    (b nr cnt : ℕ) (m : FreeMap)
    → IsFreeMap m
    → 0 < cnt
    → cnt < 2 ^ 16
    → nr + cnt < 2 ^ 32
    → All (Beside nr cnt) m.fr_by_nr
    → Freed b nr cnt m (insert_chunk nr cnt m)
unfolding insert_chunk
inserted-Freed b nr cnt m v pos small fits s = (
  insert_chunk-IsFreeMap m nr cnt v pos small fits s,
  free_at-map_insert b nr cnt m.fr_by_nr (Beside-none nr cnt 0 m.fr_by_nr v.apart pos s),
)

-- The map at the end of `coalesce`.
abbrev pub finished : Extent → Bool × FreeMap → FreeMap
finished j (with_prev, m) = if with_prev then m else insert_chunk (blk_nr j) (blk_cnt j) m

apart_finish :
    (b : ℕ) (e j : Extent) (m m' : FreeMap) (o : Option (ℕ × ℕ)) (joined : Bool)
    → IsFreeMap m
    → Found m.fr_by_nr o
    → IsRun b e j m (taken o joined m)
    → erase_next o joined m ≡ ok m'
    → Freed b (blk_nr e) (blk_cnt j) (taken o joined m) (finished j (false, m'))
apart_finish b e j m m' o joined v g r h =
    let left : FreeMap = taken o joined m in
    let put : Freed b (blk_nr e) (blk_cnt j) left (insert_chunk (blk_nr e) (blk_cnt j) left) =
      inserted-Freed b (blk_nr e) (blk_cnt j) left r.kept r.more_than r.small
        (omega (arith, blk_nr-lt e, r.small)) r.apart in
    rw (r.starts, ← erase_next-taken m m' o joined v g h) put

Behind-le : (p nr : ℕ) (o : Option (ℕ × ℕ)) → p ≤ nr → Behind nr o → Behind p o
Behind-le p nr none h k = tt
Behind-le p nr (some (n, c)) h k = omega (arith, h, k)

grown_finish :
    (b p w : ℕ) (e j : Extent) (m m1 m' : FreeMap) (o : Option (ℕ × ℕ)) (joined : Bool)
    → IsFreeMap m
    → Found m.fr_by_nr o
    → Behind (blk_nr e) o
    → map_find p m.fr_by_nr ≡ some w
    → p ≤ blk_nr e
    → IsRun b e j m (taken o joined m)
    → (p + w) % 2 ^ 32 ≡ blk_nr e
    → w + blk_cnt j < 2 ^ 16
    → erase_from_fr_by_cnt p w m ≡ ok m1
    → erase_next o joined (record m1 {
      fr_by_nr = map_update p (w + blk_cnt j) m1.fr_by_nr;
      fr_by_cnt = multimap_insert (w + blk_cnt j) p m1.fr_by_cnt;
    })
      ≡ ok m'
    → Freed b (blk_nr e) (blk_cnt j) (taken o joined m) m'
unfolding erase_from_fr_by_cnt
grown_finish b p w e j m m1 m' o joined v g lt f le r at small h1 h2 =
    let (_, fits) = found_fits p w 0 m.fr_by_nr v.apart f in
    let meets : p + w ≡ blk_nr e = omega (arith, at, fits) in
    let erased =
      erase_by_cnt-ok p w m.fr_by_cnt (one_count p w m.fr_by_nr m.fr_by_cnt v.listed f) in
    let same = ok-injective (sym (rw erased at h1)) in
    let h3 : erase_next o joined (grown p w (blk_cnt j) m) ≡ ok m' =
      subst
        (λ (t : FreeMap).
          erase_next o joined (record t {
            fr_by_nr = map_update p (w + blk_cnt j) t.fr_by_nr;
            fr_by_cnt = multimap_insert (w + blk_cnt j) p t.fr_by_cnt;
          })
          ≡ ok m')
        same h2 in
    let left : Chunks = (taken o joined m).fr_by_nr in
    let clear = subst (λ (t : ℕ). All (Beside t (blk_cnt j)) left) (sym meets) r.apart in
    subst (λ (t : ℕ). Freed b t (blk_cnt j) (taken o joined m) m') meets
      (erase_next-grown b p w (blk_cnt j) m m' o joined v g (Behind-le p (blk_nr e) o le lt) f small
        (omega (arith, small, le, blk_nr-lt e)) clear h3)

-- How `erase_next` ends, by the outcome of `join_prev`.
finish_with :
    (b : ℕ) (e j : Extent) (m m2 m3 m' : FreeMap) (o : Option (ℕ × ℕ))
    (joined grew with_prev : Bool)
    → ◌≡◌ {A = Result (Bool × FreeMap)} (ok (grew, m3)) (ok (with_prev, m2))
    → (erase_next o joined m3 ≡ ok m'
        → Freed b (blk_nr e) (blk_cnt j) (taken o joined m) (finished j (grew, m')))
    → erase_next o joined m2 ≡ ok m'
    → Freed b (blk_nr e) (blk_cnt j) (taken o joined m) (finished j (with_prev, m'))
finish_with b e j m m2 m3 m' o joined grew with_prev h f =
    subst
      (λ (q : Bool × FreeMap).
        erase_next o joined q.1 ≡ ok m'
        → Freed b (blk_nr e) (blk_cnt j) (taken o joined m) (finished j (q.0, m')))
      (ok-injective h) f

-- The entry of an iterator is not behind a position.
abbrev pub Before : ℕ → Option (ℕ × ℕ) → Type 0
Before nr none = Unit {0}
Before nr (some (p, w)) = p ≤ nr

pub join_prev-Freed :
    (b : ℕ) (e j : Extent) (m m2 m' : FreeMap) (o prev : Option (ℕ × ℕ)) (joined with_prev : Bool)
    → IsFreeMap m
    → Found m.fr_by_nr o
    → Behind (blk_nr e) o
    → Found m.fr_by_nr prev
    → Before (blk_nr e) prev
    → IsRun b e j m (taken o joined m)
    → join_prev prev j m ≡ ok (with_prev, m2)
    → erase_next o joined m2 ≡ ok m'
    → Freed b (blk_nr e) (blk_cnt j) (taken o joined m) (finished j (with_prev, m'))
unfolding join_prev
join_prev-Freed b e j m m2 m' o none joined wp v g lt f le r h1 =
    finish_with b e j m m2 m m' o joined false wp h1 (λ k. apart_finish b e j m m' o joined v g r k)
join_prev-Freed b e j m m2 m' o (some (p, w)) joined wp v g lt f le r h1 =
    elim (Bool-cases ((p + w) % 2 ^ 32 == blk_nr j && is_u16_add_ok w (blk_cnt j))) [
      | inl y ↦
          let (m1, erased, h3) = >>=-eq-ok (erase_from_fr_by_cnt p w m) _ (rw y at h1) in
          let (_, _, h4) = >>=-eq-ok (make_extent p (w + blk_cnt j) false) _ h3 in
          let at : (p + w) % 2 ^ 32 ≡ blk_nr e = ground (arith, y, r.starts) in
          let fits =
            fits_16 w (blk_cnt j) (found_fits p w 0 m.fr_by_nr v.apart f).0 r.small
              (ground (arith, y)) in
          finish_with b e j m m2 _ m' o joined true wp h4
            (λ k. grown_finish b p w e j m m1 m' o joined v g lt f le r at fits erased k)
      | inr n ↦
          finish_with b e j m m2 m m' o joined false wp (rw n at h1)
            (λ k. apart_finish b e j m m' o joined v g r k)
    ]
