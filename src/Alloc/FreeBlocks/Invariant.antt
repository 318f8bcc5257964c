-- ===== src/Alloc/FreeBlocks/Invariant.antt =====
-- What holds of a FreeMap between its operations, and the steps on both maps that keep it.
use xoz.Base.{
  ℕ, ◌+◌, ◌^◌, ◌<◌, ◌≡◌, refl, arith, ◌==◌, [], ◌∷◌, some, none, All, ok, Bool-cases, inl, inr,
}
use xoz.Alloc.Chunks.{Chunks, map_erase, map_find, multimap_erase}
use xoz.Alloc.Chunks.Apart.{Apart, Beside, Apart-map_insert, Apart-map_erase}
use xoz.Alloc.Chunks.Tally.{
  Ascending, Listed, Apart-Keys, occurs, Listed-insert, Listed-erase, Ascending-multimap_insert,
  Ascending-multimap_erase,
}
use xoz.Alloc.FreeBlocks.{FreeMap, insert_chunk, erase_by_cnt, erase_both, erase_from_fr_by_cnt}

-- The chunks lie apart, and each stands just once in the map by count, which is in order.
pub record IsFreeMap (m : FreeMap) : Type 0 where
  pub apart : Apart 0 m.fr_by_nr
  pub listed : Listed m.fr_by_nr m.fr_by_cnt
  pub ordered : Ascending 0 m.fr_by_cnt

only_count :
    (nr cnt c n : ℕ) (ys : Chunks)
    → ((k : ℕ) → 0 < occurs k nr ((c, n) ∷ ys) → k ≡ cnt)
    → n ≡ nr
    → c ≡ cnt
only_count nr cnt c n ys h e = h c (ground (arith, e))

-- The search from the count on finds the one entry of the chunk.
pub erase_by_cnt-ok :
    (nr cnt : ℕ) (ys : Chunks)
    → ((k : ℕ) → 0 < occurs k nr ys → k ≡ cnt)
    → erase_by_cnt nr cnt ys ≡ ok (multimap_erase cnt nr ys)
unfolding erase_by_cnt multimap_erase
erase_by_cnt-ok nr cnt [] h = refl
erase_by_cnt-ok nr cnt ((c, n) ∷ ys) h =
    let rest = erase_by_cnt-ok nr cnt ys (λ k p. h k (omega (arith, p))) in
    elim (Bool-cases (n == nr)) [
      | inl y ↦
          let e : c ≡ cnt = only_count nr cnt c n ys h (ground (arith, y)) in
          ground (arith, y, e, rest)
      | inr o ↦ ground (arith, o, rest)
    ]

pub one_count :
    (nr cnt : ℕ) (xs ys : Chunks)
    → Listed xs ys
    → map_find nr xs ≡ some cnt
    → (k : ℕ) → 0 < occurs k nr ys
    → k ≡ cnt
one_count nr cnt xs ys l f k h = ground (arith, l nr k, f, h)

pub Beside-none :
    (nr cnt low : ℕ) (xs : Chunks)
    → Apart low xs
    → 0 < cnt
    → All (Beside nr cnt) xs
    → map_find nr xs ≡ none
unfolding map_find
Beside-none nr cnt low [] v h s = refl
Beside-none nr cnt low ((n, c) ∷ xs) (a, b, d, e, v) h (s, ss) =
    ground (arith, s, b, h, Beside-none nr cnt (n + c) xs v h ss)

pub insert_chunk-IsFreeMap :
    (m : FreeMap) (nr cnt : ℕ)
    → IsFreeMap m
    → 0 < cnt
    → cnt < 2 ^ 16
    → nr + cnt < 2 ^ 32
    → All (Beside nr cnt) m.fr_by_nr
    → IsFreeMap (insert_chunk nr cnt m)
unfolding insert_chunk
insert_chunk-IsFreeMap m nr cnt v pos small fits s =
    let fresh = Beside-none nr cnt 0 m.fr_by_nr v.apart pos s in
    record {
      apart = Apart-map_insert nr cnt 0 m.fr_by_nr v.apart (omega arith) pos small fits s;
      listed = Listed-insert nr cnt m.fr_by_nr m.fr_by_cnt fresh v.listed;
      ordered = Ascending-multimap_insert cnt nr 0 m.fr_by_cnt v.ordered (omega arith) small;
    }

-- The map without one of its chunks.
abbrev pub without : ℕ → ℕ → FreeMap → FreeMap
without nr cnt m = record m {
  fr_by_nr = map_erase nr m.fr_by_nr;
  fr_by_cnt = multimap_erase cnt nr m.fr_by_cnt;
}

pub without-IsFreeMap :
    (m : FreeMap) (nr cnt : ℕ)
    → IsFreeMap m
    → map_find nr m.fr_by_nr ≡ some cnt
    → IsFreeMap (without nr cnt m)
without-IsFreeMap m nr cnt v f = record {
  apart = Apart-map_erase nr 0 m.fr_by_nr v.apart;
  listed =
      Listed-erase nr cnt 0 m.fr_by_nr m.fr_by_cnt (Apart-Keys 0 m.fr_by_nr v.apart) f v.listed;
  ordered = Ascending-multimap_erase cnt nr 0 m.fr_by_cnt v.ordered;
}

-- The erasure from both maps, where the map by count lists the chunks.
pub erase_both-ok :
    (m : FreeMap) (nr cnt : ℕ)
    → Listed m.fr_by_nr m.fr_by_cnt
    → map_find nr m.fr_by_nr ≡ some cnt
    → erase_both nr cnt m ≡ ok (without nr cnt m)
unfolding erase_both erase_from_fr_by_cnt
erase_both-ok m nr cnt l f =
    rw (erase_by_cnt-ok nr cnt m.fr_by_cnt (one_count nr cnt m.fr_by_nr m.fr_by_cnt l f)) refl
