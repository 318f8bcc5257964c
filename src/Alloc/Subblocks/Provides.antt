-- ===== src/Alloc/Subblocks/Provides.antt =====
-- Blocks that are provided for sub-allocation, and released.
use xoz.Base.{
  ℕ, ◌+◌, ◌-◌, ◌%◌, ◌^◌, ◌<◌, ◌≡◌, refl, sym, ap, ◌∙◌, arith, true, false, ◌==◌, some, none, ok,
  ◌>>◌, Bool-cases, inl, inr,
}
use mathlib.Core.Path.{subst}
use xoz.Alloc.Chunks.{map_insert, map_erase, map_find}
use xoz.Alloc.Chunks.Keyed.{map_find-map_insert, map_erase-map_insert}
use xoz.Alloc.Subblocks.{
  SubblkFreeMap, bin_of, bin_insert, bin_erase, assert_entries, provide_any_ext, provide_subblk_ext,
  release_ext, release_full, fail_if_not_subblk_or_zero_cnt, fail_if_blk_nr_already_seen,
}
use xoz.Alloc.Subblocks.Invariant.{
  IsPlaced, IsSubblkFreeMap, IsFreeBlock, subblk_cnt-ones, inserted-IsPlaced,
}
use xoz.Alloc.Subblocks.Rest.{assert_entries-ok}
use xoz.Extent.{Extent, blk_nr, subblk_cnt, as_suballoc, can_be_for_suballoc, can_be_single_blk}
use xoz.Extent.Laws.{extent_of, make_extent-ok, blk_nr-extent_of, is_suballoc-extent_of}

-- The whole block, as a run of one block and as a set of 16 sub-blocks.
abbrev pub whole : ℕ → Extent
whole nr = extent_of nr 1 false

abbrev pub full : ℕ → Extent
full nr = extent_of nr 0xffff true

-- The map with one more block.
abbrev with_full : ℕ → SubblkFreeMap → SubblkFreeMap
with_full nr m = record m {
  fr_by_nr = map_insert (blk_nr (full nr)) (full nr) m.fr_by_nr;
  exts_bin = bin_insert (full nr) m.exts_bin;
  owned_subblk_cnt = (m.owned_subblk_cnt + subblk_cnt (full nr)) % 2 ^ 64;
}

full-IsFreeBlock : (nr : ℕ) → nr < 2 ^ 26 → IsFreeBlock nr (full nr)
full-IsFreeBlock nr h = record {
  made = refl;
  nr_fits = h;
  some_free = omega arith;
  cnt_fits = omega arith;
}

full_cnt : (nr : ℕ) → subblk_cnt (full nr) ≡ 16
full_cnt nr = omega (arith, subblk_cnt-ones (full nr))

whole-as_suballoc : (nr : ℕ) → nr < 2 ^ 26 → as_suballoc (whole nr) ≡ ok (full nr)
unfolding as_suballoc
whole-as_suballoc nr h =
    rw (is_suballoc-extent_of nr 1 false h, blk_nr-extent_of nr 1 false h)
      (make_extent-ok nr 0xffff true h)

closed : {m : SubblkFreeMap} → assert_entries m ≡ ok tt → (do assert_entries m; ok m) ≡ ok m
closed {m = m} h = rw h refl

provide-full :
    (nr : ℕ) (m : SubblkFreeMap)
    → IsSubblkFreeMap m
    → nr < 2 ^ 26
    → map_find nr m.fr_by_nr ≡ none
    → (provide_any_ext (whole nr) m ≡ ok (with_full nr m)) × IsSubblkFreeMap (with_full nr m)
unfolding provide_any_ext provide_subblk_ext can_be_for_suballoc fail_if_not_subblk_or_zero_cnt
    fail_if_blk_nr_already_seen
provide-full nr m v h f =
    let at = blk_nr-extent_of nr 0xffff true h in
    let fresh : map_find (blk_nr (full nr)) m.fr_by_nr ≡ none = rw at f in
    let kept =
      subst
        (λ (t : ℕ). IsPlaced (bin_insert (full nr) m.exts_bin) (map_insert t (full nr) m.fr_by_nr))
        (sym at)
        (inserted-IsPlaced m.exts_bin m.fr_by_nr nr (full nr) v f (full-IsFreeBlock nr h)) in
    (
      rw
          (
            is_suballoc-extent_of nr 1 false h,
            whole-as_suballoc nr h,
            is_suballoc-extent_of nr 0xffff true h,
            fail_if_blk_nr_already_seen,
            fresh,
          )
          (closed (assert_entries-ok (with_full nr m) kept)),
      kept,
    )

put_back :
    (nr i : ℕ) (m : SubblkFreeMap)
    → IsSubblkFreeMap m
    → nr < 2 ^ 26
    → map_find nr m.fr_by_nr ≡ none
    → bin_erase 15 nr (with_full nr m).exts_bin i ≡ m.exts_bin i
put_back nr i m v h f =
    let at = blk_nr-extent_of nr 0xffff true h in
    let last : bin_of (full nr) ≡ 15 = omega (arith, full_cnt nr) in
    let gone : map_find nr (m.exts_bin 15) ≡ none = ground (arith, v.placed 15 nr, f) in
    let undone = map_erase-map_insert nr 0 (full nr) (m.exts_bin 15) (v.bin_keys 15) gone in
    elim (Bool-cases (i == 15)) [
      | inl y ↦
          let same : 15 ≡ i = ground (arith, y) in
          rw (y, last, at) (undone ∙ ap (λ (t : ℕ). m.exts_bin t) same)
      | inr o ↦ rw (o, last, at, o) refl
    ]

-- A block that is not in a well-formed map can be provided whole, after which the map is well formed;
-- released again, it leaves both maps as they were, and the count of sub-blocks owned, if that is in
-- the range of its type.
pub release-provide :
    (nr : ℕ) (m : SubblkFreeMap)
    → IsSubblkFreeMap m
    → nr < 2 ^ 26
    → map_find nr m.fr_by_nr ≡ none
    → m.owned_subblk_cnt < 2 ^ 64
    → (m1 m2 : SubblkFreeMap) × (provide_any_ext (whole nr) m ≡ ok m1)
      × IsSubblkFreeMap m1
      × (release_ext (whole nr) m1 ≡ ok m2)
      × (m2.fr_by_nr ≡ m.fr_by_nr)
      × ((i : ℕ) → m2.exts_bin i ≡ m.exts_bin i)
      × (m2.owned_subblk_cnt ≡ m.owned_subblk_cnt)
unfolding release_ext release_full can_be_single_blk
release-provide nr m v h f small =
    let (done, kept) = provide-full nr m v h f in
    let m1 : SubblkFreeMap = with_full nr m in
    let here : map_find nr m1.fr_by_nr ≡ some (full nr) =
      rw (blk_nr-extent_of nr 0xffff true h)
        (ground (arith, map_find-map_insert nr nr (full nr) m.fr_by_nr f)) in
    let in_last : map_find nr (m1.exts_bin 15) ≡ some (full nr) =
      ground (arith, kept.placed 15 nr, here, full_cnt nr) in
    (
      m1,
      record m1 {
        exts_bin = bin_erase 15 nr m1.exts_bin;
        fr_by_nr = map_erase nr m1.fr_by_nr;
        owned_subblk_cnt = (m1.owned_subblk_cnt + (2 ^ 64 - 16)) % 2 ^ 64;
      },
      done,
      kept,
      rw
          (
            is_suballoc-extent_of nr 1 false h,
            blk_nr-extent_of nr 1 false h,
            here,
            is_suballoc-extent_of nr 0xffff true h,
            blk_nr-extent_of nr 1 false h,
            in_last,
            blk_nr-extent_of nr 1 false h,
          )
          refl,
      rw (blk_nr-extent_of nr 0xffff true h)
          (map_erase-map_insert nr 0 (full nr) m.fr_by_nr v.keys f),
      λ i. put_back nr i m v h f,
      omega (arith, full_cnt nr, small),
    )
