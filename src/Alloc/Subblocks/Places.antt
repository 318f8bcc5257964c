-- ===== src/Alloc/Subblocks/Places.antt =====
-- The bins after one entry is put into one of them, or taken out of one.
use xoz.Base.{
  ℕ, zero, suc, ◌+◌, ◌<◌, ◌≡◌, refl, ap, arith, true, ◌&&◌, ltb, leb, ◌==◌, if◌then◌else◌, some,
  none, length, Bool-cases, inl, inr,
}
use xoz.Alloc.Chunks.{Table, map_insert, map_erase, map_find}
use xoz.Alloc.Chunks.Keyed.{
  Keys, Keys-map_insert, Keys-map_erase, map_find-map_insert, map_find-map_erase, length-map_insert,
  length-map_erase,
}
use xoz.Alloc.Subblocks.{
  Bins, set_bin, entries_from, count_entries_in_bins, bin_of, bin_insert, bin_erase,
}
use xoz.Extent.{Extent, blk_nr}

map_find-set_bin :
    (k i bin : ℕ) (exts : Table Extent) (bins : Bins)
    → map_find k (set_bin bin exts bins i)
      ≡ (if i == bin then map_find k exts else map_find k (bins i))
map_find-set_bin k i bin exts bins = elim (Bool-cases (i == bin)) [
  | inl y ↦ rw y refl
  | inr o ↦ rw o refl
]

Keys-set_bin :
    (i bin : ℕ) (exts : Table Extent) (bins : Bins)
    → Keys 0 exts
    → Keys 0 (bins i)
    → Keys 0 (set_bin bin exts bins i)
Keys-set_bin i bin exts bins h k = elim (Bool-cases (i == bin)) [ inl y ↦ rw y h | inr o ↦ rw o k ]

entries_from-set_bin :
    (n from bin : ℕ) (exts : Table Extent) (bins : Bins)
    → (if leb from bin && ltb bin (from + n)
        then entries_from n from (set_bin bin exts bins) + length (bins bin)
        else entries_from n from (set_bin bin exts bins))
      ≡ (if leb from bin && ltb bin (from + n)
          then entries_from n from bins + length exts
          else entries_from n from bins)
entries_from-set_bin zero from bin exts bins = ground arith
entries_from-set_bin (suc n) from bin exts bins = elim (Bool-cases (from == bin)) [
  | inl y ↦
      let same : from ≡ bin = ground (arith, y) in
      ground (arith, y, same, entries_from-set_bin n (from + 1) bin exts bins)
  | inr o ↦ ground (arith, o, entries_from-set_bin n (from + 1) bin exts bins)
]

same_index :
    (i bin k : ℕ) (bins : Bins) → (i == bin) ≡ true → map_find k (bins i) ≡ map_find k (bins bin)
same_index i bin k bins h =
    let e : i ≡ bin = ground (arith, h) in ap (λ (t : ℕ). map_find k (bins t)) e

pub map_find-bin_erase :
    (k i bin nr : ℕ) (bins : Bins)
    → Keys 0 (bins bin)
    → map_find k (bin_erase bin nr bins i)
      ≡ (if i == bin && k == nr then none else map_find k (bins i))
map_find-bin_erase k i bin nr bins v =
    let set = map_find-set_bin k i bin (map_erase nr (bins bin)) bins in
    let law = map_find-map_erase k nr 0 (bins bin) v in
    elim (Bool-cases (i == bin)) [
      | inl y ↦ ground (arith, set, law, y, same_index i bin k bins y)
      | inr o ↦ ground (arith, set, o)
    ]

pub map_find-bin_insert :
    (k i : ℕ) (e : Extent) (bins : Bins)
    → map_find (blk_nr e) (bins (bin_of e)) ≡ none
    → map_find k (bin_insert e bins i)
      ≡ (if i == bin_of e && k == blk_nr e then some e else map_find k (bins i))
map_find-bin_insert k i e bins h =
    let set = map_find-set_bin k i (bin_of e) (map_insert (blk_nr e) e (bins (bin_of e))) bins in
    let law = map_find-map_insert k (blk_nr e) e (bins (bin_of e)) h in
    elim (Bool-cases (i == bin_of e)) [
      | inl y ↦ ground (arith, set, law, y, same_index i (bin_of e) k bins y)
      | inr o ↦ ground (arith, set, o)
    ]

pub Keys-bin_erase :
    (bin nr : ℕ) (bins : Bins)
    → ((i : ℕ) → Keys 0 (bins i))
    → (i : ℕ) → Keys 0 (bin_erase bin nr bins i)
Keys-bin_erase bin nr bins v i =
    Keys-set_bin i bin (map_erase nr (bins bin)) bins (Keys-map_erase nr 0 (bins bin) (v bin)) (v i)

pub Keys-bin_insert :
    (e : Extent) (bins : Bins)
    → ((i : ℕ) → Keys 0 (bins i))
    → (i : ℕ) → Keys 0 (bin_insert e bins i)
Keys-bin_insert e bins v i =
    Keys-set_bin i (bin_of e) (map_insert (blk_nr e) e (bins (bin_of e))) bins
      (Keys-map_insert (blk_nr e) 0 e (bins (bin_of e)) (v (bin_of e)) (omega arith)) (v i)

pub count-bin_erase :
    (bin nr : ℕ) (e : Extent) (bins : Bins)
    → bin < 16
    → map_find nr (bins bin) ≡ some e
    → count_entries_in_bins (bin_erase bin nr bins) + 1 ≡ count_entries_in_bins bins
unfolding count_entries_in_bins
count-bin_erase bin nr e bins lt f =
    let sum = entries_from-set_bin 16 0 bin (map_erase nr (bins bin)) bins in
    ground (arith, sum, lt, length-map_erase nr e (bins bin) f)

pub count-bin_insert :
    (e : Extent) (bins : Bins)
    → bin_of e < 16
    → map_find (blk_nr e) (bins (bin_of e)) ≡ none
    → count_entries_in_bins (bin_insert e bins) ≡ count_entries_in_bins bins + 1
unfolding count_entries_in_bins
count-bin_insert e bins lt f =
    let sum =
      entries_from-set_bin 16 0 (bin_of e) (map_insert (blk_nr e) e (bins (bin_of e))) bins in
    ground (arith, sum, lt, length-map_insert (blk_nr e) e (bins (bin_of e)) f)
