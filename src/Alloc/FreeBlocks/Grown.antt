-- ===== src/Alloc/FreeBlocks/Grown.antt =====
-- The chunk before a freed run, grown by it while the chunk behind is taken out.
use xoz.Base.{
  ℕ, ◌+◌, ◌^◌, ◌<◌, ◌≡◌, sym, ap, ◌∙◌, arith, Bool, true, false, Option, some, none, All, ok,
  ok-injective,
}
use mathlib.Core.Path.{subst}
use xoz.Alloc.Chunks.{Chunks, map_erase, map_find, map_update, multimap_erase, multimap_insert}
use xoz.Alloc.Chunks.Apart.{Apart, Beside, holds, free_at, free_at-map_update, Apart-map_update}
use xoz.Alloc.Chunks.Keyed.{Keys-map_update, map_find-map_update, map_find-map_erase}
use xoz.Alloc.Chunks.Tally.{
  Listed-erase, Listed-update, Ascending-multimap_insert, Ascending-multimap_erase, Apart-Keys,
}
use xoz.Alloc.FreeBlocks.{FreeMap, erase_next}
use xoz.Alloc.FreeBlocks.Invariant.{IsFreeMap, without, without-IsFreeMap, erase_both-ok}
use xoz.Alloc.FreeBlocks.Joins.{map_erase-map_update}

abbrev pub taken : Option (ℕ × ℕ) → Bool → FreeMap → FreeMap
taken (some (n, c)) true m = without n c m
taken (some (n, c)) false m = m
taken none with_next m = m

-- The entry of an iterator is a chunk.
abbrev pub Found : Chunks → Option (ℕ × ℕ) → Type 0
Found xs none = Unit {0}
Found xs (some (n, c)) = map_find n xs ≡ some c

abbrev pub grown : ℕ → ℕ → ℕ → FreeMap → FreeMap
grown p w cnt m = record m {
  fr_by_nr = map_update p (w + cnt) m.fr_by_nr;
  fr_by_cnt = multimap_insert (w + cnt) p (multimap_erase w p m.fr_by_cnt);
}

-- What is left of a map after a run became free, and how often a block is free in it.
abbrev pub Freed : ℕ → ℕ → ℕ → FreeMap → FreeMap → Type 0
Freed b nr cnt left m =
    IsFreeMap m × (free_at b m.fr_by_nr ≡ holds b nr cnt + free_at b left.fr_by_nr)

grown_alone :
    (b p w cnt : ℕ) (m : FreeMap)
    → IsFreeMap m
    → map_find p m.fr_by_nr ≡ some w
    → w + cnt < 2 ^ 16
    → p + (w + cnt) < 2 ^ 32
    → All (Beside (p + w) cnt) m.fr_by_nr
    → Freed b (p + w) cnt m (grown p w cnt m)
grown_alone b p w cnt m v f small fits s = (
  record {
    apart = Apart-map_update p w cnt 0 m.fr_by_nr v.apart f small fits s;
    listed = Listed-update p w (w + cnt) m.fr_by_nr m.fr_by_cnt f v.listed;
    ordered =
        Ascending-multimap_insert (w + cnt) p 0 (multimap_erase w p m.fr_by_cnt)
          (Ascending-multimap_erase w p 0 m.fr_by_cnt v.ordered) (omega arith) small;
  },
  free_at-map_update b p w cnt m.fr_by_nr f,
)

other_found :
    (n c p w cnt : ℕ) (xs : Chunks)
    → map_find p xs ≡ some w
    → map_find n xs ≡ some c
    → p < n
    → map_find n (map_update p cnt xs) ≡ some c
other_found n c p w cnt xs f g lt = ground (arith, map_find-map_update n p w cnt xs f, g, lt)

other_stays :
    (n c p w low : ℕ) (xs : Chunks)
    → Apart low xs
    → map_find p xs ≡ some w
    → p < n
    → map_find p (map_erase n xs) ≡ some w
other_stays n c p w low xs v f lt =
    ground (arith, map_find-map_erase p n low xs (Apart-Keys low xs v), f, lt)

grown-without :
    (b n c p w cnt : ℕ) (m : FreeMap)
    → IsFreeMap m
    → map_find n m.fr_by_nr ≡ some c
    → map_find p m.fr_by_nr ≡ some w
    → p < n
    → w + cnt < 2 ^ 16
    → p + (w + cnt) < 2 ^ 32
    → All (Beside (p + w) cnt) (map_erase n m.fr_by_nr)
    → Freed b (p + w) cnt (without n c m) (without n c (grown p w cnt m))
grown-without b n c p w cnt m v g f lt small fits s =
    let xs : Chunks = m.fr_by_nr in
    let turned = sym (map_erase-map_update n p (w + cnt) xs lt) in
    let left : IsFreeMap (without n c m) = without-IsFreeMap m n c v g in
    let still = other_stays n c p w 0 xs v.apart f lt in
    let both = Listed-update p w (w + cnt) xs m.fr_by_cnt f v.listed in
    let keys = Keys-map_update p 0 (w + cnt) xs (Apart-Keys 0 xs v.apart) in
    (
      record {
        apart =
            subst (λ (t : Chunks). Apart 0 t) turned
              (Apart-map_update p w cnt 0 (map_erase n xs) left.apart still small fits s);
        listed =
            Listed-erase n c 0 (map_update p (w + cnt) xs) (grown p w cnt m).fr_by_cnt keys
              (other_found n c p w (w + cnt) xs f g lt) both;
        ordered = Ascending-multimap_erase c n 0 (grown p w cnt m).fr_by_cnt (
            Ascending-multimap_insert (w + cnt) p 0 (multimap_erase w p m.fr_by_cnt)
              (Ascending-multimap_erase w p 0 m.fr_by_cnt v.ordered) (omega arith) small);
      },
      ap (λ (t : Chunks). free_at b t) (sym turned)
          ∙ free_at-map_update b p w cnt (map_erase n xs) still,
    )

-- The entry of an iterator is behind a position.
abbrev pub Behind : ℕ → Option (ℕ × ℕ) → Type 0
Behind nr none = Unit {0}
Behind nr (some (n, c)) = nr < n

pub erase_next-grown :
    (b p w cnt : ℕ) (m m' : FreeMap) (o : Option (ℕ × ℕ)) (joined : Bool)
    → IsFreeMap m
    → Found m.fr_by_nr o
    → Behind p o
    → map_find p m.fr_by_nr ≡ some w
    → w + cnt < 2 ^ 16
    → p + (w + cnt) < 2 ^ 32
    → All (Beside (p + w) cnt) (taken o joined m).fr_by_nr
    → erase_next o joined (grown p w cnt m) ≡ ok m'
    → Freed b (p + w) cnt (taken o joined m) m'
unfolding erase_next
erase_next-grown b p w cnt m m' none joined v g lt f small fits s h =
    subst (Freed b (p + w) cnt m) (ok-injective h) (grown_alone b p w cnt m v f small fits s)
erase_next-grown b p w cnt m m' (some (n, c)) false v g lt f small fits s h =
    subst (Freed b (p + w) cnt m) (ok-injective h) (grown_alone b p w cnt m v f small fits s)
erase_next-grown b p w cnt m m' (some (n, c)) true v g lt f small fits s h =
    let both = Listed-update p w (w + cnt) m.fr_by_nr m.fr_by_cnt f v.listed in
    let done =
      erase_both-ok (grown p w cnt m) n c both (other_found n c p w (w + cnt) m.fr_by_nr f g lt) in
    subst (Freed b (p + w) cnt (without n c m)) (ok-injective (sym done ∙ h))
      (grown-without b n c p w cnt m v g f lt small fits s)

pub erase_next-taken :
    (m m' : FreeMap) (o : Option (ℕ × ℕ)) (joined : Bool)
    → IsFreeMap m
    → Found m.fr_by_nr o
    → erase_next o joined m ≡ ok m'
    → taken o joined m ≡ m'
unfolding erase_next
erase_next-taken m m' none joined v g h = ok-injective h
erase_next-taken m m' (some (n, c)) false v g h = ok-injective h
erase_next-taken m m' (some (n, c)) true v g h =
    ok-injective (sym (erase_both-ok m n c v.listed g) ∙ h)
