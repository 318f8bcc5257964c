-- ===== src/Alloc/Subblocks/Rest.antt =====
-- What is left of a block of which sub-blocks are taken.
use xoz.Base.{
  ℕ, ◌+◌, ◌-◌, ◌%◌, ◌^◌, ◌≤◌, ◌<◌, ◌≡◌, refl, sym, ap, ◌∙◌, arith, bit_and, true, ◌==◌,
  if◌then◌else◌, Option, some, none, ok, Bool-cases, inl, inr,
}
use xoz.Base.Binary.{bit, ones, zero_bit, zero_ones, ones-zero}
use xoz.Alloc.Chunks.{map_erase, map_find, map_update}
use xoz.Alloc.Chunks.Keyed.{map_find-map_erase, map_find-map_update}
use xoz.Alloc.Subblocks.{
  SubblkFreeMap, Picking, bin_of, bin_insert, bin_erase, put_rest, assert_entries, alloc_from,
}
use xoz.Alloc.Subblocks.Invariant.{
  IsSubblkFreeMap, IsFreeBlock, subblk_cnt-ones, blk_nr-entry, is_suballoc-entry, removed-IsPlaced,
  replaced-IsPlaced,
}
use xoz.Alloc.Subblocks.Chosen.{apart_bits}
use xoz.Alloc.Subblocks.Takes.{IsPicking, pick_down-IsPicking}
use xoz.Extent.{Extent, blk_nr, blk_bitmap, subblk_cnt, set_bitmap}
use xoz.Extent.Laws.{blk_nr-lt, extent_of, make_extent-ok, blk_nr-extent_of}

-- The free sub-blocks of a block, as a bitmap.
abbrev pub bits_of : Option Extent → ℕ
bits_of none = 0
bits_of (some e) = blk_bitmap e

abbrev pub free_bits : ℕ → SubblkFreeMap → ℕ
free_bits nr m = bits_of (map_find nr m.fr_by_nr)

-- What an allocation did.
pub record IsTaken (cnt : ℕ) (e : Extent) (m m' : SubblkFreeMap) : Type 0 where
  pub kept : IsSubblkFreeMap m'
  pub block : IsFreeBlock (blk_nr e) e
  pub amount : subblk_cnt e ≡ cnt
  pub moved :
      (nr j : ℕ)
      → bit j (free_bits nr m)
        ≡ (if nr == blk_nr e then bit j (blk_bitmap e) else 0) + bit j (free_bits nr m')

abbrev pub without_bin : ℕ → Extent → SubblkFreeMap → SubblkFreeMap
without_bin nr old m = record m { exts_bin = bin_erase (bin_of old) nr m.exts_bin }

pub assert_entries-ok : (m : SubblkFreeMap) → IsSubblkFreeMap m → assert_entries m ≡ ok tt
unfolding assert_entries
assert_entries-ok m v = ground (arith, v.sizes)

pub some_bits : (x : ℕ) → 0 < ones 16 x → 0 < x
some_bits x h = elim (Bool-cases (x == 0)) [
  | inl y ↦
      let e : x ≡ 0 = ground (arith, y) in
      absurd (omega (arith, h, zero_ones 16, ap (λ (t : ℕ). ones 16 t) e))
  | inr o ↦ ground (arith, o)
]

put_rest-ok :
    (m : SubblkFreeMap) (nr : ℕ) (old rest : Extent)
    → IsSubblkFreeMap m
    → map_find nr m.fr_by_nr ≡ some old
    → rest ≡ extent_of nr rest.raw_blk_cnt true
    → rest.raw_blk_cnt < 2 ^ 16
    → (m' : SubblkFreeMap) × (put_rest rest (without_bin nr old m) ≡ ok m')
      × IsSubblkFreeMap m'
      × (m'.allocated_subblk_cnt ≡ m.allocated_subblk_cnt)
      × ((k : ℕ) → free_bits k m' ≡ (if k == nr then rest.raw_blk_cnt else free_bits k m))
unfolding put_rest
put_rest-ok m nr old rest v f made small =
    let fits = (v.entries nr old f).nr_fits in
    let at : blk_nr rest ≡ nr =
      ap (λ (x : Extent). blk_nr x) made ∙ blk_nr-extent_of nr rest.raw_blk_cnt true fits in
    let cnt = subblk_cnt-ones rest in
    elim (Bool-cases (subblk_cnt rest == 0)) [
      | inl y ↦
          let gone = ones-zero 16 rest.raw_blk_cnt small (ground (arith, y, cnt)) in
          (
            record (without_bin nr old m) { fr_by_nr = map_erase nr m.fr_by_nr },
            rw (put_rest, at, f, y, at) refl,
            removed-IsPlaced m.exts_bin m.fr_by_nr nr old v f,
            refl,
            λ k. ground (arith, map_find-map_erase k nr 0 m.fr_by_nr v.keys, gone),
          )
      | inr o ↦
          let entry : IsFreeBlock nr rest = record {
            made = made;
            nr_fits = fits;
            some_free = some_bits rest.raw_blk_cnt (ground (arith, o, cnt));
            cnt_fits = small;
          } in
          (
            record (without_bin nr old m) {
              exts_bin = bin_insert rest (bin_erase (bin_of old) nr m.exts_bin);
              fr_by_nr = map_update nr rest m.fr_by_nr;
            },
            rw (put_rest, at, f, o, at) refl,
            replaced-IsPlaced m.exts_bin m.fr_by_nr nr old rest v f entry,
            refl,
            λ k. ground (arith, map_find-map_update k nr old rest m.fr_by_nr f),
          )
    ]

-- The loop's start.
abbrev all_free : ℕ → Extent → Picking
all_free cnt old = record {
  free_bitmask = blk_bitmap old;
  allocated_bitmask = 0;
  to_take = cnt;
  free_cnt = subblk_cnt old;
}

all_free-IsPicking :
    (cnt : ℕ) (old : Extent)
    → old.raw_blk_cnt < 2 ^ 16
    → cnt ≤ subblk_cnt old
    → IsPicking old.raw_blk_cnt cnt 16 (all_free cnt old)
all_free-IsPicking cnt old small le = record {
  shares = λ j. omega (arith, zero_bit j);
  free_fits = small;
  allocated_fits = omega arith;
  below = λ j h. zero_bit j;
  counted = subblk_cnt-ones old;
  taken = omega (arith, zero_ones 16);
  enough = omega (arith, subblk_cnt-ones old, le);
}

moved_bits :
    (k nr j : ℕ) (m m' : SubblkFreeMap) (e : Extent) (s : Picking) (old : Extent)
    → map_find nr m.fr_by_nr ≡ some old
    → blk_nr e ≡ nr
    → ((z : ℕ) → free_bits z m' ≡ (if z == nr then s.free_bitmask else free_bits z m))
    → bit j s.free_bitmask + bit j (blk_bitmap e) ≡ bit j old.raw_blk_cnt
    → bit j (free_bits k m)
      ≡ (if k == blk_nr e then bit j (blk_bitmap e) else 0) + bit j (free_bits k m')
moved_bits k nr j m m' e s old f at law split = elim (Bool-cases (k == nr)) [
  | inl y ↦
      let same : k ≡ nr = ground (arith, y) in
      let before : free_bits k m ≡ old.raw_blk_cnt =
        ap (λ (t : ℕ). free_bits t m) same ∙ ap bits_of f in
      let after : free_bits k m' ≡ s.free_bitmask = rw y at (law k) in
      rw (at, y, before, after) (omega (arith, split))
  | inr o ↦
      let after : free_bits k m' ≡ free_bits k m = rw o at (law k) in
      rw (at, o, after) (omega arith)
]

pub alloc_from-IsTaken :
    (m : SubblkFreeMap) (cnt nr : ℕ) (old : Extent)
    → IsSubblkFreeMap m
    → map_find nr m.fr_by_nr ≡ some old
    → 0 < cnt
    → cnt ≤ subblk_cnt old
    → (e : Extent) × (m' : SubblkFreeMap) × (alloc_from cnt old (without_bin nr old m)
        ≡ ok (e, true, m'))
      × IsTaken cnt e m m'
unfolding alloc_from set_bitmap
alloc_from-IsTaken m cnt nr old v f pos le =
    let w : ℕ = old.raw_blk_cnt in
    let entry = v.entries nr old f in
    let (s, run, picked) =
      pick_down-IsPicking w cnt 16 (all_free cnt old) (all_free-IsPicking cnt old entry.cnt_fits le)
        (omega arith) in
    let e : Extent = extent_of nr s.allocated_bitmask true in
    let rest : Extent = record old { raw_blk_cnt = s.free_bitmask } in
    let at = blk_nr-entry nr old entry in
    let kind = is_suballoc-entry nr old entry in
    let is_made = make_extent-ok nr s.allocated_bitmask true entry.nr_fits in
    let rest_made : rest ≡ extent_of nr rest.raw_blk_cnt true =
      ap (λ (x : Extent). record x { raw_blk_cnt = s.free_bitmask }) entry.made in
    let (m2, put, kept, same, law) = put_rest-ok m nr old rest v f rest_made picked.free_fits in
    let all_taken : (s.to_take == 0) ≡ true = ground (arith, picked.enough) in
    let counted : (subblk_cnt rest == s.free_cnt) ≡ true =
      ground (arith, subblk_cnt-ones rest, picked.counted) in
    let apart : (bit_and s.allocated_bitmask (0xffff - s.free_bitmask) == s.allocated_bitmask)
        ≡ true =
      ground (
        arith,
        apart_bits s.free_bitmask s.allocated_bitmask w picked.free_fits picked.allocated_fits
            picked.shares,
      ) in
    let at_e = blk_nr-extent_of nr s.allocated_bitmask true entry.nr_fits in
    (
      e,
      record m2 { allocated_subblk_cnt = (m2.allocated_subblk_cnt + subblk_cnt e) % 2 ^ 64 },
      rw (run, all_taken, at, is_made, kind, counted, apart, put, assert_entries-ok m2 kept) refl,
      record {
        kept = kept;
        block = record {
          made = ap (λ (t : ℕ). extent_of t s.allocated_bitmask true) (sym at_e);
          nr_fits = blk_nr-lt e;
          some_free =
              some_bits s.allocated_bitmask (omega (arith, picked.taken, picked.enough, pos));
          cnt_fits = picked.allocated_fits;
        };
        amount = omega (arith, subblk_cnt-ones e, picked.taken, picked.enough);
        moved = λ k j. moved_bits k nr j m m2 e s old f at_e law (picked.shares j);
      },
    )
