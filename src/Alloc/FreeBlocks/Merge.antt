-- ===== src/Alloc/FreeBlocks/Merge.antt =====
-- The freed run with the chunk behind it, where `join_next` joins them.
use xoz.Base.{
  ℕ, ◌+◌, ◌^◌, ◌<◌, ◌≡◌, refl, sym, ap, arith, Bool, false, not, ◌&&◌, ◌==◌, Option, some, none,
  All, ok, >>=-eq-ok, assert, Bool-cases, inl, inr, ok-injective,
}
use mathlib.Core.Path.{subst}
use xoz.Alloc.Chunks.{Chunks, map_erase, map_find}
use xoz.Alloc.Chunks.Apart.{
  Beside, holds, free_at, others-Beside, found_fits, free_at-map_erase, All-map_erase,
}
use xoz.Alloc.FreeBlocks.{FreeMap, join_next}
use xoz.Alloc.FreeBlocks.Invariant.{IsFreeMap, without, without-IsFreeMap}
use xoz.Alloc.FreeBlocks.Joins.{joined-Beside, holds-joined}
use xoz.Extent.{Extent, is_suballoc, blk_nr, blk_cnt, past_end_blk_nr, span_cnt, expand_by}
use xoz.Mem.Ints.{is_u16_add_ok, is_unsigned_int_add_ok}
use xoz.Alloc.FreeBlocks.Grown.{Found, taken}

-- A run of blocks that is to be free, and the chunks beside it, in place of the extent and the map.
pub record IsRun (b : ℕ) (e j : Extent) (m left : FreeMap) : Type 0 where
  pub kept : IsFreeMap left
  pub apart : All (Beside (blk_nr e) (blk_cnt j)) left.fr_by_nr
  pub starts : blk_nr j ≡ blk_nr e
  pub small : blk_cnt j < 2 ^ 16
  pub more_than : 0 < blk_cnt j
  pub count :
      holds b (blk_nr e) (blk_cnt j) + free_at b left.fr_by_nr
      ≡ holds b (blk_nr e) (blk_cnt e) + free_at b m.fr_by_nr

expand_by-ok :
    (e j : Extent) (c : ℕ)
    → blk_cnt e < 2 ^ 16
    → c < 2 ^ 16
    → expand_by e c ≡ ok j
    → (blk_nr j ≡ blk_nr e) × (blk_cnt j ≡ blk_cnt e + c) × (blk_cnt e + c < 2 ^ 16)
unfolding expand_by is_u16_add_ok is_unsigned_int_add_ok blk_nr
expand_by-ok e j c k l h =
    let (_, _, h1) = >>=-eq-ok (assert (not (is_suballoc e))) _ h in
    let (_, fits, h2) = >>=-eq-ok (assert (is_u16_add_ok e.raw_blk_cnt c)) _ h1 in
    let made = ok-injective h2 in
    (
      ap (λ (x : Extent). blk_nr x) (sym made),
      ap (λ (x : Extent). x.raw_blk_cnt) (sym made),
      ground (arith, fits, k, l),
    )

joined_next :
    (b n c : ℕ) (e j : Extent) (m : FreeMap)
    → IsFreeMap m
    → 0 < blk_cnt e
    → blk_cnt e < 2 ^ 16
    → All (Beside (blk_nr e) (blk_cnt e)) m.fr_by_nr
    → map_find n m.fr_by_nr ≡ some c
    → blk_nr e + blk_cnt e ≡ n
    → expand_by e c ≡ ok j
    → IsRun b e j m (without n c m)
joined_next b n c e j m v pos k s f at h =
    let xs : Chunks = m.fr_by_nr in
    let (below, fits) = found_fits n c 0 xs v.apart f in
    let (starts, sum, small) = expand_by-ok e j c k below h in
    let left : IsFreeMap (without n c m) = without-IsFreeMap m n c v f in
    let others =
      subst (λ (t : ℕ). All (Beside t c) (map_erase n xs)) (sym at)
        (others-Beside n c 0 xs v.apart f) in
    let run = holds-joined b (blk_nr e) (blk_cnt e) c in
    record {
      kept = left;
      apart = rw sum (
          joined-Beside (blk_nr e) (blk_cnt e) c 0 (map_erase n xs) left.apart
            (All-map_erase (Beside (blk_nr e) (blk_cnt e)) n xs s) others);
      starts = starts;
      small = omega (arith, sum, small);
      more_than = omega (arith, sum, pos);
      count = omega (
        arith,
        ap (λ (t : ℕ). holds b (blk_nr e) t) sum,
        run,
        ap (λ (t : ℕ). holds b t c) at,
        free_at-map_erase b n c xs f,
      );
    }

same-IsRun :
    (b : ℕ) (e : Extent) (m : FreeMap)
    → IsFreeMap m
    → 0 < blk_cnt e
    → blk_cnt e < 2 ^ 16
    → All (Beside (blk_nr e) (blk_cnt e)) m.fr_by_nr
    → IsRun b e e m m
same-IsRun b e m v pos small s = record {
  kept = v;
  apart = s;
  starts = refl;
  small = small;
  more_than = pos;
  count = refl;
}

pub join_next-IsRun :
    (b : ℕ) (e j : Extent) (w : Bool) (m : FreeMap) (o : Option (ℕ × ℕ))
    → IsFreeMap m
    → is_suballoc e ≡ false
    → 0 < blk_cnt e
    → blk_cnt e < 2 ^ 16
    → All (Beside (blk_nr e) (blk_cnt e)) m.fr_by_nr
    → Found m.fr_by_nr o
    → join_next o e ≡ ok (j, w)
    → IsRun b e j m (taken o w m)
unfolding join_next past_end_blk_nr span_cnt
join_next-IsRun b e j w m none v plain pos small s f h =
    subst (λ (p : Extent × Bool). IsRun b e p.0 m (taken none p.1 m)) (ok-injective h)
      (same-IsRun b e m v pos small s)
join_next-IsRun b e j w m (some (n, c)) v plain pos small s f h =
    elim (Bool-cases (past_end_blk_nr e == n && is_u16_add_ok c (blk_cnt e))) [
      | inl y ↦
          let (k, made, h1) = >>=-eq-ok (expand_by e c) _ (rw y at h) in
          let at : blk_nr e + blk_cnt e ≡ n = ground (arith, y, plain) in
          subst (λ (p : Extent × Bool). IsRun b e p.0 m (taken (some (n, c)) p.1 m))
            (ok-injective h1) (joined_next b n c e k m v pos small s f at made)
      | inr o ↦
          subst (λ (p : Extent × Bool). IsRun b e p.0 m (taken (some (n, c)) p.1 m))
            (ok-injective (rw o at h)) (same-IsRun b e m v pos small s)
    ]
