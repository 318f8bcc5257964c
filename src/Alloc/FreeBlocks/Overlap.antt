-- ===== src/Alloc/FreeBlocks/Overlap.antt =====
-- What `fail_if_overlap` lets through: it looks at two chunks, and so at all.
use xoz.Base.{
  ℕ, ◌+◌, ◌≤◌, ◌<◌, ◌≡◌, ◌^◌, arith, false, ltb, [], ◌∷◌, Option, some, none, All, ok, >>=-eq-ok,
  Bool-cases, inl, inr, ltb→lt,
}
use xoz.Alloc.Chunks.{Chunks, lower_bound, before_lower}
use xoz.Alloc.Chunks.Apart.{Apart, Beside, behind}
use xoz.Alloc.FreeBlocks.{FreeMap, fail_if_chunk_overlaps, fail_if_overlap}
use xoz.Extent.{
  Extent, Distance, is_suballoc, blk_nr, blk_cnt, span_cnt, past_end_blk_nr, make_extent,
  distance_in_blks,
}
use xoz.Extent.Laws.{make_extent-made, blk_nr-extent_of, is_suballoc-extent_of}
use xoz.Extent.Gaps.{distance_in_blks-Locates}

abbrev Clear : ℕ → ℕ → Option (ℕ × ℕ) → Type 0
Clear nr cnt none = Unit {0}
Clear nr cnt (some p) = Beside nr cnt p

-- The entry of an iterator, with a bound on its end.
abbrev Bounded : Option (ℕ × ℕ) → Type 0
Bounded none = Unit {0}
Bounded (some (n, c)) = n + c < 2 ^ 32

chunk-Beside :
    (n c : ℕ) (e chunk : Extent) (d : Distance)
    → is_suballoc e ≡ false
    → n + c < 2 ^ 32
    → make_extent n c false ≡ ok chunk
    → distance_in_blks chunk e ≡ ok d
    → Beside (blk_nr e) (blk_cnt e) (n, c)
unfolding past_end_blk_nr span_cnt
chunk-Beside n c e chunk d plain fits is_made h =
    let (small, made) = make_extent-made n c chunk (omega (arith, fits)) is_made in
    let at = blk_nr-extent_of n c false small in
    let kind = is_suballoc-extent_of n c false small in
    ground (arith, rw made at (distance_in_blks-Locates chunk e d h), plain, at, kind)

fail_if_chunk_overlaps-Clear :
    (o : Option (ℕ × ℕ)) (e : Extent)
    → is_suballoc e ≡ false
    → Bounded o
    → fail_if_chunk_overlaps o e ≡ ok tt
    → Clear (blk_nr e) (blk_cnt e) o
unfolding fail_if_chunk_overlaps
fail_if_chunk_overlaps-Clear none e plain b h = tt
fail_if_chunk_overlaps-Clear (some (n, c)) e plain b h =
    let (chunk, is_made, h1) = >>=-eq-ok (make_extent n c false) _ h in
    let (d, measured, _) = >>=-eq-ok (distance_in_blks chunk e) _ h1 in
    chunk-Beside n c e chunk d plain b is_made measured

lower_bound-Bounded : (key low : ℕ) (xs : Chunks) → Apart low xs → Bounded (lower_bound key xs)
unfolding lower_bound
lower_bound-Bounded key low [] v = tt
lower_bound-Bounded key low ((n, c) ∷ xs) (a, b, d, e, v) = elim (Bool-cases (ltb n key)) [
  | inl y ↦ rw y (lower_bound-Bounded key (n + c) xs v)
  | inr o ↦ rw o e
]

before_lower-Bounded :
    (key low : ℕ) (prev : Option (ℕ × ℕ)) (xs : Chunks)
    → Apart low xs
    → Bounded prev
    → Bounded (before_lower key prev xs)
unfolding before_lower
before_lower-Bounded key low prev [] v h = h
before_lower-Bounded key low prev ((n, c) ∷ xs) (a, b, d, e, v) h = elim (Bool-cases (ltb n key)) [
  | inl y ↦ rw y (before_lower-Bounded key (n + c) (some (n, c)) xs v e)
  | inr o ↦ rw o h
]

-- From the first chunk that is not before the run on.
after-Beside :
    (nr cnt n c : ℕ) (xs : Chunks)
    → Apart (n + c) xs
    → 0 < c
    → nr ≤ n
    → Beside nr cnt (n, c)
    → All (Beside nr cnt) ((n, c) ∷ xs)
after-Beside nr cnt n c xs v pos le s = (s, behind nr cnt (n + c) xs v (ground (arith, s, pos, le)))

-- The chunk before a position, and those from there on.
neighbours-Beside :
    (nr cnt k w : ℕ) (xs : Chunks)
    → Apart (k + w) xs
    → k < nr
    → Clear nr cnt (before_lower nr (some (k, w)) xs)
    → Clear nr cnt (lower_bound nr xs)
    → Beside nr cnt (k, w) × All (Beside nr cnt) xs
unfolding before_lower lower_bound
neighbours-Beside nr cnt k w [] v lt h1 h2 = (h1, tt)
neighbours-Beside nr cnt k w ((n, c) ∷ xs) (a, b, d, e, v) lt h1 h2 = elim (Bool-cases (ltb n nr)) [
  | inl y ↦
      let before = ltb→lt n nr y in
      (
        inl (omega (arith, a, before)),
        neighbours-Beside nr cnt n c xs v before (rw y at h1) (rw y at h2),
      )
  | inr o ↦ (rw o at h1, after-Beside nr cnt n c xs v b (ground (arith, o)) (rw o at h2))
]

neighbours-Clear :
    (nr cnt low : ℕ) (xs : Chunks)
    → Apart low xs
    → Clear nr cnt (before_lower nr none xs)
    → Clear nr cnt (lower_bound nr xs)
    → All (Beside nr cnt) xs
unfolding before_lower lower_bound
neighbours-Clear nr cnt low [] v h1 h2 = tt
neighbours-Clear nr cnt low ((n, c) ∷ xs) (a, b, d, e, v) h1 h2 = elim (Bool-cases (ltb n nr)) [
  | inl y ↦ neighbours-Beside nr cnt n c xs v (ltb→lt n nr y) (rw y at h1) (rw y at h2)
  | inr o ↦ after-Beside nr cnt n c xs v b (ground (arith, o)) (rw o at h2)
]

-- What passes the test of the two neighbours shares no block with any chunk.
pub fail_if_overlap-Beside :
    (m : FreeMap) (e : Extent)
    → Apart 0 m.fr_by_nr
    → is_suballoc e ≡ false
    → fail_if_overlap e m ≡ ok tt
    → All (Beside (blk_nr e) (blk_cnt e)) m.fr_by_nr
unfolding fail_if_overlap
fail_if_overlap-Beside m e v plain h =
    let xs : Chunks = m.fr_by_nr in
    let (_, one, two) =
      >>=-eq-ok (fail_if_chunk_overlaps (before_lower (blk_nr e) none xs) e) _ h in
    neighbours-Clear (blk_nr e) (blk_cnt e) 0 xs v
      (fail_if_chunk_overlaps-Clear (before_lower (blk_nr e) none xs) e plain
        (before_lower-Bounded (blk_nr e) 0 none xs v tt) one)
      (fail_if_chunk_overlaps-Clear (lower_bound (blk_nr e) xs) e plain
        (lower_bound-Bounded (blk_nr e) 0 xs v) two)
