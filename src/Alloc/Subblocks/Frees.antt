-- ===== src/Alloc/Subblocks/Frees.antt =====
-- `dealloc` of sub-blocks: each becomes free once, and a double free is told.
use xoz.Base.{
  ℕ, zero, suc, ◌+◌, ◌-◌, ◌%◌, ◌^◌, ◌<◌, ◌≡◌, ◌≢◌, ◌⊎◌, refl, sym, ap, ◌∙◌, arith, bit_and, bit_or,
  true, false, not, ◌&&◌, ltb, ◌==◌, if◌then◌else◌, some, none, ok, err, extent_overlap, Bool-cases,
  Option-cases, inl, inr,
}
use mathlib.Core.Path.{subst}
use xoz.Base.Bits.{bit_and_mod}
use xoz.Base.Binary.{
  bit, bit-lt, zero_bit, ones-split, bit-bit_and, bit-bit_or, bit-complement, bit_above, bit_or-lt,
}
use xoz.Alloc.Chunks.{Table, map_insert, map_find, map_update}
use xoz.Alloc.Chunks.Keyed.{map_find-map_insert, map_find-map_update}
use xoz.Alloc.Subblocks.{
  SubblkFreeMap, Bins, bin_insert, dealloc, merge_free, take_partly_free, finish_dealloc, in_no_bin,
  fail_if_not_subblk_or_zero_cnt,
}
use xoz.Alloc.Subblocks.Invariant.{
  IsPlaced, IsSubblkFreeMap, IsFreeBlock, blk_nr-entry, is_suballoc-entry, found_in_bin,
  inserted-IsPlaced, replaced-IsPlaced, some_ones,
}
use xoz.Alloc.Subblocks.Chosen.{apart_bits}
use xoz.Alloc.Subblocks.Rest.{free_bits, some_bits, without_bin, assert_entries-ok}
use xoz.Extent.{Extent, blk_nr, blk_bitmap, subblk_cnt, is_suballoc, set_bitmap}
use xoz.Extent.Laws.{extent_of, make_extent-ok, is_suballoc-extent_of, move_to-suballoc}

-- The bits of both, where none is in both.
union_bits :
    (f a j : ℕ)
    → f < 2 ^ 16
    → a < 2 ^ 16
    → bit_and a (0xffff - f) ≡ a
    → bit j a + bit j f ≡ bit j (bit_or f a)
union_bits f a j h k e =
    let only : bit j (bit_and a (0xffff - f)) ≡ bit j a = ap (λ (t : ℕ). bit j t) e in
    elim (Bool-cases (ltb j 16)) [
      | inl y ↦ ground (
        arith,
        only,
        bit-bit_and j a (0xffff - f),
        bit-complement 16 j f h (ground (arith, y)),
        bit-bit_or j f a,
        bit-lt j a,
        bit-lt j f,
      )
      | inr o ↦ ground (
        arith,
        bit_above 16 j a k (ground (arith, o)),
        bit_above 16 j f h (ground (arith, o)),
        bit-bit_or j f a,
      )
    ]

-- Where no bit is in both, the mask of the one keeps the other.
meets :
    (f a : ℕ) → f < 2 ^ 16 → a < 2 ^ 16 → (bit_and a (0xffff - f) == a) ≡ false → bit_and a f ≢ 0
meets f a h k o e =
    let none_common : (j : ℕ) → bit j f + bit j a ≡ bit j (bit_or f a) = λ j. ground (
      arith,
      bit-bit_and j a f,
      ap (λ (t : ℕ). bit j t) e,
      zero_bit j,
      bit-bit_or j f a,
      bit-lt j f,
      bit-lt j a,
    ) in
    ground (arith, o, apart_bits f a (bit_or f a) h k none_common)

nowhere :
    (n from nr : ℕ) (bins : Bins)
    → ((i : ℕ) → map_find nr (bins i) ≡ none)
    → in_no_bin n from nr bins ≡ true
unfolding in_no_bin
nowhere zero from nr bins h = refl
nowhere (suc n) from nr bins h = rw (in_no_bin, h from) (nowhere n (from + 1) nr bins h)

-- The merged extent.
abbrev merged : ℕ → ℕ → Extent → Extent
merged nr f e = extent_of nr (bit_or f (blk_bitmap e)) true

merge_free-ok :
    (nr k f : ℕ) (e : Extent)
    → IsFreeBlock nr e
    → k < 2 ^ 26
    → merge_free e (extent_of k f true) ≡ ok (merged nr f e)
unfolding merge_free set_bitmap
merge_free-ok nr k f e v h =
    rw
      (
        is_suballoc-extent_of k f true h,
        blk_nr-entry nr e v,
        move_to-suballoc k nr (bit_or f (blk_bitmap e)) h v.nr_fits,
      )
      refl

merged-IsFreeBlock :
    (nr f : ℕ) (e : Extent)
    → IsFreeBlock nr e
    → f < 2 ^ 16
    → bit_and (blk_bitmap e) (0xffff - f) ≡ blk_bitmap e
    → IsFreeBlock nr (merged nr f e)
merged-IsFreeBlock nr f e v h apart =
    let a : ℕ = blk_bitmap e in
    let sum = ones-split 16 a f (bit_or f a) (λ j. union_bits f a j h v.cnt_fits apart) in
    record {
      made = refl;
      nr_fits = v.nr_fits;
      some_free = some_bits (bit_or f a) (omega (arith, sum, some_ones a v.some_free v.cnt_fits));
      cnt_fits = bit_or-lt 16 f a h v.cnt_fits;
    }

-- What the return of an extent did.
pub record IsGiven (e : Extent) (m m' : SubblkFreeMap) : Type 0 where
  pub kept : IsSubblkFreeMap m'
  pub moved :
      (nr j : ℕ)
      → bit j (free_bits nr m')
        ≡ (if nr == blk_nr e then bit j (blk_bitmap e) else 0) + bit j (free_bits nr m)

-- The map at the end of `dealloc`.
abbrev final : Extent → Table Extent → SubblkFreeMap → SubblkFreeMap
final x by_nr m = record m {
  exts_bin = bin_insert x m.exts_bin;
  fr_by_nr = by_nr;
  allocated_subblk_cnt = (m.allocated_subblk_cnt + (2 ^ 64 - subblk_cnt x)) % 2 ^ 64;
}

finish_dealloc-ok :
    (x : Extent) (by_nr : Table Extent) (m : SubblkFreeMap)
    → IsPlaced (bin_insert x m.exts_bin) by_nr
    → finish_dealloc x by_nr m ≡ ok (final x by_nr m)
unfolding finish_dealloc
finish_dealloc-ok x by_nr m v =
    let put : SubblkFreeMap = record m { exts_bin = bin_insert x m.exts_bin; fr_by_nr = by_nr } in
    rw (assert_entries-ok put v) refl

moved_bits :
    (nr f k j : ℕ) (e : Extent) (m m' : SubblkFreeMap)
    → IsFreeBlock nr e
    → f < 2 ^ 16
    → bit_and (blk_bitmap e) (0xffff - f) ≡ blk_bitmap e
    → free_bits nr m ≡ f
    → ((z : ℕ) → free_bits z m' ≡ (if z == nr then bit_or f (blk_bitmap e) else free_bits z m))
    → bit j (free_bits k m')
      ≡ (if k == blk_nr e then bit j (blk_bitmap e) else 0) + bit j (free_bits k m)
moved_bits nr f k j e m m' v small apart before law = elim (Bool-cases (k == nr)) [
  | inl y ↦
      let same : k ≡ nr = ground (arith, y) in
      let was : free_bits k m ≡ f = ap (λ (t : ℕ). free_bits t m) same ∙ before in
      let is : free_bits k m' ≡ bit_or f (blk_bitmap e) = rw y at (law k) in
      rw (blk_nr-entry nr e v, y, was, is)
        (omega (arith, union_bits f (blk_bitmap e) j small v.cnt_fits apart))
  | inr o ↦
      let is : free_bits k m' ≡ free_bits k m = rw o at (law k) in
      rw (blk_nr-entry nr e v, o, is) (omega arith)
]

all_apart : (a : ℕ) → a < 2 ^ 16 → bit_and a (0xffff - 0) ≡ a
all_apart a h = omega (arith, bit_and_mod 16 a, h)

-- No sub-block of the block was free.
dealloc_new :
    (nr : ℕ) (e : Extent) (m : SubblkFreeMap)
    → IsSubblkFreeMap m
    → IsFreeBlock nr e
    → map_find nr m.fr_by_nr ≡ none
    → (m' : SubblkFreeMap) × (dealloc e m ≡ ok m') × IsGiven e m m'
unfolding dealloc fail_if_not_subblk_or_zero_cnt
dealloc_new nr e m v u f =
    let x : Extent = merged nr 0 e in
    let at = blk_nr-entry nr e u in
    let block = merged-IsFreeBlock nr 0 e u (omega arith) (all_apart (blk_bitmap e) u.cnt_fits) in
    let kept = inserted-IsPlaced m.exts_bin m.fr_by_nr nr x v f block in
    let by_nr : Table Extent = map_insert nr x m.fr_by_nr in
    let asked : (is_suballoc e && not (blk_bitmap e == 0)) ≡ true =
      ground (arith, is_suballoc-entry nr e u, u.some_free) in
    let absent : in_no_bin 16 0 nr m.exts_bin ≡ true =
      nowhere 16 0 nr m.exts_bin (λ i. ground (arith, v.placed i nr, f)) in
    let ready =
      subst (λ (t : ℕ). finish_dealloc x (map_insert t x m.fr_by_nr) m ≡ ok (final x by_nr m))
        (sym (blk_nr-entry nr x block)) (finish_dealloc-ok x by_nr m kept) in
    (
      final x by_nr m,
      rw
          (
            asked,
            at,
            f,
            make_extent-ok 0 0 true (omega arith),
            at,
            absent,
            merge_free-ok nr 0 0 e u (omega arith),
          )
          ready,
      record {
        kept = kept;
        moved = λ k j.
            moved_bits nr 0 k j e m (final x by_nr m) u (omega arith)
              (all_apart (blk_bitmap e) u.cnt_fits) (rw f refl)
              (λ z. ground (arith, map_find-map_insert z nr x m.fr_by_nr f));
      },
    )

-- Other sub-blocks of the block were free.
dealloc_more :
    (nr : ℕ) (e old : Extent) (m : SubblkFreeMap)
    → IsSubblkFreeMap m
    → IsFreeBlock nr e
    → map_find nr m.fr_by_nr ≡ some old
    → bit_and (blk_bitmap e) (0xffff - blk_bitmap old) ≡ blk_bitmap e
    → (m' : SubblkFreeMap) × (dealloc e m ≡ ok m') × IsGiven e m m'
unfolding dealloc fail_if_not_subblk_or_zero_cnt take_partly_free
dealloc_more nr e old m v u f apart =
    let w = v.entries nr old f in
    let a : ℕ = blk_bitmap old in
    let x : Extent = merged nr a e in
    let at = blk_nr-entry nr e u in
    let block = merged-IsFreeBlock nr a e u w.cnt_fits apart in
    let kept = replaced-IsPlaced m.exts_bin m.fr_by_nr nr old x v f block in
    let by_nr : Table Extent = map_update nr x m.fr_by_nr in
    let asked : (is_suballoc e && not (blk_bitmap e == 0)) ≡ true =
      ground (arith, is_suballoc-entry nr e u, u.some_free) in
    let clear : (bit_and (blk_bitmap e) (0xffff - a) == blk_bitmap e) ≡ true =
      ground (arith, apart) in
    let here = found_in_bin m.exts_bin m.fr_by_nr nr old v f in
    let joined : merge_free e old ≡ ok x =
      subst (λ (t : Extent). merge_free e t ≡ ok x) (sym w.made)
        (merge_free-ok nr nr a e u u.nr_fits) in
    (
      final x by_nr (without_bin nr old m),
      rw (asked, at, f, clear, blk_nr-entry nr old w, here, joined, at, blk_nr-entry nr old w)
          (finish_dealloc-ok x by_nr (without_bin nr old m) kept),
      record {
        kept = kept;
        moved = λ k j.
            moved_bits nr a k j e m (final x by_nr (without_bin nr old m)) u w.cnt_fits apart
              (rw f refl) (λ z. ground (arith, map_find-map_update z nr old x m.fr_by_nr f));
      },
    )

-- Giving back sub-blocks of one block, on a well-formed map, never fails an assertion. Either none of
-- them was free: then just these become free, and the new map is well formed. Or some sub-block is
-- free already, and the overlap error is raised.
pub dealloc-ends :
    (m : SubblkFreeMap) (e : Extent)
    → IsSubblkFreeMap m
    → IsFreeBlock (blk_nr e) e
    → ((m' : SubblkFreeMap) × (dealloc e m ≡ ok m') × IsGiven e m m')
      ⊎ ((dealloc e m ≡ err extent_overlap) × (bit_and (blk_bitmap e) (free_bits (blk_nr e) m) ≢ 0))
unfolding dealloc fail_if_not_subblk_or_zero_cnt take_partly_free
dealloc-ends m e v u = elim (Option-cases (map_find (blk_nr e) m.fr_by_nr)) [
  | inl f ↦ inl (dealloc_new (blk_nr e) e m v u f)
  | inr (old, f) ↦
      let w = v.entries (blk_nr e) old f in
      let asked : (is_suballoc e && not (blk_bitmap e == 0)) ≡ true =
        ground (arith, is_suballoc-entry (blk_nr e) e u, u.some_free) in
      elim (Bool-cases (bit_and (blk_bitmap e) (0xffff - blk_bitmap old) == blk_bitmap e)) [
        | inl y ↦ inl (dealloc_more (blk_nr e) e old m v u f (ground (arith, y)))
        | inr o ↦ inr (
          rw (asked, f, o) refl,
          rw f (meets (blk_bitmap old) (blk_bitmap e) w.cnt_fits u.cnt_fits o),
        )
      ]
]
