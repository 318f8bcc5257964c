-- ===== src/Alloc/Subblocks/Invariant.antt =====
-- What holds of a SubBlockFreeMap between its operations, and the three changes that keep it.
use xoz.Base.{
  ℕ, ◌+◌, ◌^◌, ◌<◌, ◌≡◌, ap, ◌∙◌, arith, true, ◌==◌, if◌then◌else◌, Option, some, none, length,
  Bool-cases, inl, inr,
}
use mathlib.Core.Path.{subst}
use xoz.Base.Binary.{ones, ones-zero, ones-le}
use xoz.Alloc.Chunks.{Table, map_insert, map_erase, map_find, map_update}
use xoz.Alloc.Chunks.Keyed.{
  Keys, Keys-map_insert, Keys-map_erase, Keys-map_update, map_find-map_insert, map_find-map_erase,
  map_find-map_update, length-map_insert, length-map_erase, length-map_update,
}
use xoz.Alloc.Subblocks.{SubblkFreeMap, Bins, count_entries_in_bins, bin_of, bin_insert, bin_erase}
use xoz.Alloc.Subblocks.Places.{
  map_find-bin_erase, map_find-bin_insert, Keys-bin_erase, Keys-bin_insert, count-bin_erase,
  count-bin_insert,
}
use xoz.Extent.{Extent, blk_nr, subblk_cnt, is_suballoc}
use xoz.Extent.Laws.{extent_of, blk_nr-extent_of, is_suballoc-extent_of}
use xoz.Mem.Ints.Counts.{u16_count_bits-ones}

-- A sub-allocated extent of the block, with some sub-block.
pub record IsFreeBlock (nr : ℕ) (e : Extent) : Type 0 where
  pub made : e ≡ extent_of nr e.raw_blk_cnt true
  pub nr_fits : nr < 2 ^ 26
  pub some_free : 0 < e.raw_blk_cnt
  pub cnt_fits : e.raw_blk_cnt < 2 ^ 16

abbrev pub in_bin : ℕ → Option Extent → Option Extent
in_bin i none = none
in_bin i (some e) = if i == bin_of e then some e else none

-- Each block of the map by number stands in the bin of its count, and nothing else is in the bins.
pub record IsPlaced (bins : Bins) (by_nr : Table Extent) : Type 0 where
  pub keys : Keys 0 by_nr
  pub bin_keys : (i : ℕ) → Keys 0 (bins i)
  pub placed : (i k : ℕ) → map_find k (bins i) ≡ in_bin i (map_find k by_nr)
  pub entries : (k : ℕ) (e : Extent) → map_find k by_nr ≡ some e → IsFreeBlock k e
  pub sizes : length by_nr ≡ count_entries_in_bins bins

abbrev pub IsSubblkFreeMap : SubblkFreeMap → Type 0
IsSubblkFreeMap m = IsPlaced m.exts_bin m.fr_by_nr

pub subblk_cnt-ones : (e : Extent) → subblk_cnt e ≡ ones 16 e.raw_blk_cnt
unfolding subblk_cnt
subblk_cnt-ones e = u16_count_bits-ones e.raw_blk_cnt

pub blk_nr-entry : (nr : ℕ) (e : Extent) → IsFreeBlock nr e → blk_nr e ≡ nr
blk_nr-entry nr e v =
    ap (λ (x : Extent). blk_nr x) v.made ∙ blk_nr-extent_of nr e.raw_blk_cnt true v.nr_fits

pub is_suballoc-entry : (nr : ℕ) (e : Extent) → IsFreeBlock nr e → is_suballoc e ≡ true
is_suballoc-entry nr e v =
    ap (λ (x : Extent). is_suballoc x) v.made
    ∙ is_suballoc-extent_of nr e.raw_blk_cnt true v.nr_fits

pub some_ones : (x : ℕ) → 0 < x → x < 2 ^ 16 → 0 < ones 16 x
some_ones x h k = elim (Bool-cases (ones 16 x == 0)) [
  | inl y ↦ absurd (omega (arith, h, ones-zero 16 x k (ground (arith, y))))
  | inr o ↦ ground (arith, o)
]

pub bin_of-entry :
    (nr : ℕ) (e : Extent) → IsFreeBlock nr e → (bin_of e + 1 ≡ subblk_cnt e) × (bin_of e < 16)
bin_of-entry nr e v = omega (
  arith,
  subblk_cnt-ones e,
  ones-le 16 e.raw_blk_cnt,
  some_ones e.raw_blk_cnt v.some_free v.cnt_fits,
)

-- A block of the map is in its bin.
pub found_in_bin :
    (bins : Bins) (fr : Table Extent) (nr : ℕ) (e : Extent)
    → IsPlaced bins fr
    → map_find nr fr ≡ some e
    → map_find nr (bins (bin_of e)) ≡ some e
found_in_bin bins fr nr e v f = ground (arith, v.placed (bin_of e) nr, f)

-- The entry found after one was set.
entry_after :
    (k nr : ℕ) (e d : Extent) (o : Option Extent)
    → (if k == nr then some e else o) ≡ some d
    → IsFreeBlock nr e
    → (o ≡ some d → IsFreeBlock k d)
    → IsFreeBlock k d
entry_after k nr e d o h new old = elim (Bool-cases (k == nr)) [
  | inl y ↦
      let same : nr ≡ k = ground (arith, y) in
      let it : e ≡ d = ground (arith, h, y) in
      subst (λ (x : Extent). IsFreeBlock k x) it (subst (λ (t : ℕ). IsFreeBlock t e) same new)
  | inr n ↦ old (rw n at h)
]

-- A block leaves both maps.
pub removed-IsPlaced :
    (bins : Bins) (fr : Table Extent) (nr : ℕ) (old : Extent)
    → IsPlaced bins fr
    → map_find nr fr ≡ some old
    → IsPlaced (bin_erase (bin_of old) nr bins) (map_erase nr fr)
removed-IsPlaced bins fr nr old v f =
    let b : ℕ = bin_of old in
    let (_, lt) = bin_of-entry nr old (v.entries nr old f) in
    let here = found_in_bin bins fr nr old v f in
    record {
      keys = Keys-map_erase nr 0 fr v.keys;
      bin_keys = Keys-bin_erase b nr bins v.bin_keys;
      placed = λ i k. ground (
        arith,
        map_find-bin_erase k i b nr bins (v.bin_keys b),
        map_find-map_erase k nr 0 fr v.keys,
        v.placed i k,
        f,
      );
      entries = λ k e h. v.entries k e (ground (arith, map_find-map_erase k nr 0 fr v.keys, h));
      sizes =
          omega
            (arith, v.sizes, length-map_erase nr old fr f, count-bin_erase b nr old bins lt here);
    }

-- A new block comes into both maps.
pub inserted-IsPlaced :
    (bins : Bins) (fr : Table Extent) (nr : ℕ) (e : Extent)
    → IsPlaced bins fr
    → map_find nr fr ≡ none
    → IsFreeBlock nr e
    → IsPlaced (bin_insert e bins) (map_insert nr e fr)
inserted-IsPlaced bins fr nr e v f new =
    let at = blk_nr-entry nr e new in
    let (_, lt) = bin_of-entry nr e new in
    let fresh : map_find (blk_nr e) (bins (bin_of e)) ≡ none =
      rw at (ground (arith, v.placed (bin_of e) nr, f)) in
    record {
      keys = Keys-map_insert nr 0 e fr v.keys (omega arith);
      bin_keys = Keys-bin_insert e bins v.bin_keys;
      placed = λ i k. ground (
        arith,
        map_find-bin_insert k i e bins fresh,
        map_find-map_insert k nr e fr f,
        v.placed i k,
        f,
        at,
      );
      entries = λ k d h.
          entry_after k nr e d (map_find k fr) (rw (map_find-map_insert k nr e fr f) at h) new
            (λ g. v.entries k d g);
      sizes = omega (arith, v.sizes, length-map_insert nr e fr f, count-bin_insert e bins lt fresh);
    }

-- A block changes its sub-blocks, and so its bin.
pub replaced-IsPlaced :
    (bins : Bins) (fr : Table Extent) (nr : ℕ) (old e : Extent)
    → IsPlaced bins fr
    → map_find nr fr ≡ some old
    → IsFreeBlock nr e
    → IsPlaced (bin_insert e (bin_erase (bin_of old) nr bins)) (map_update nr e fr)
replaced-IsPlaced bins fr nr old e v f new =
    let b : ℕ = bin_of old in
    let left : Bins = bin_erase b nr bins in
    let at = blk_nr-entry nr e new in
    let (_, lt) = bin_of-entry nr e new in
    let (_, lt') = bin_of-entry nr old (v.entries nr old f) in
    let fresh : map_find (blk_nr e) (left (bin_of e)) ≡ none = rw at (
      ground (
        arith,
        map_find-bin_erase nr (bin_of e) b nr bins (v.bin_keys b),
        v.placed (bin_of e) nr,
        f,
      )) in
    record {
      keys = Keys-map_update nr 0 e fr v.keys;
      bin_keys = Keys-bin_insert e left (Keys-bin_erase b nr bins v.bin_keys);
      placed = λ i k. ground (
        arith,
        map_find-bin_insert k i e left fresh,
        map_find-bin_erase k i b nr bins (v.bin_keys b),
        map_find-map_update k nr old e fr f,
        v.placed i k,
        f,
        at,
      );
      entries = λ k d h.
          entry_after k nr e d (map_find k fr) (rw (map_find-map_update k nr old e fr f) at h) new
            (λ g. v.entries k d g);
      sizes = omega (
        arith,
        v.sizes,
        length-map_update nr e fr,
        count-bin_insert e left lt fresh,
        count-bin_erase b nr old bins lt' (found_in_bin bins fr nr old v f),
      );
    }
