-- ===== src/Alloc/Chunks/Apart.antt =====
-- Chunks that lie apart in the map by number, and which blocks they hold.
use xoz.Base.{
  ℕ, ◌+◌, ◌^◌, ◌≤◌, ◌<◌, ◌≡◌, ◌⊎◌, refl, arith, ◌&&◌, leb, ltb, ◌==◌, if◌then◌else◌, [], ◌∷◌, some,
  none, All, Bool-cases, inl, inr,
}
use mathlib.Core.Path.{subst}
use xoz.Alloc.Chunks.{Chunks, map_insert, map_erase, map_find, map_update}

-- Chunks one after another, from a bound on, none empty.
abbrev pub Apart : ℕ → Chunks → Type 0
Apart low [] = Unit {0}
Apart low ((nr, cnt) ∷ xs) =
    (low ≤ nr) × (0 < cnt) × (cnt < 2 ^ 16) × (nr + cnt < 2 ^ 32) × Apart (nr + cnt) xs

-- Whether a block is in a run of blocks, and in how many chunks it is.
abbrev pub holds : ℕ → ℕ → ℕ → ℕ
holds b nr cnt = if leb nr b && ltb b (nr + cnt) then 1 else 0

abbrev pub free_at : ℕ → Chunks → ℕ
free_at b [] = 0
free_at b ((nr, cnt) ∷ xs) = holds b nr cnt + free_at b xs

pub below_none : (key low : ℕ) (xs : Chunks) → Apart low xs → key < low → map_find key xs ≡ none
unfolding map_find
below_none key low [] v h = refl
below_none key low ((k, c) ∷ xs) (a, b, _, _, d) h =
    ground (arith, below_none key (k + c) xs d (omega arith))

pub found-le : (key c low : ℕ) (xs : Chunks) → Apart low xs → map_find key xs ≡ some c → low ≤ key
found-le key c low xs v h = elim (Bool-cases (ltb key low)) [
  | inl y ↦ absurd (ground (arith, h, below_none key low xs v (ground arith)))
  | inr n ↦ ground arith
]

pub found_fits :
    (key c low : ℕ) (xs : Chunks)
    → Apart low xs
    → map_find key xs ≡ some c
    → (c < 2 ^ 16) × (key + c < 2 ^ 32)
unfolding map_find
found_fits key c low [] v h = absurd (ground (arith, h))
found_fits key c low ((k, n) ∷ xs) (a, b, d, e, f) h =
    ground (arith, h, found_fits key c (k + n) xs f)

pub inside_none :
    (key nr c low : ℕ) (xs : Chunks)
    → Apart low xs
    → map_find nr xs ≡ some c
    → nr < key
    → key < nr + c
    → map_find key (map_erase nr xs) ≡ none
unfolding map_find map_erase
inside_none key nr c low [] v f h k = refl
inside_none key nr c low ((n, m) ∷ xs) (a, b, d, g, e) f h k = elim (Bool-cases (nr == n)) [
  | inl y ↦ ground (arith, f, below_none key (n + m) xs e)
  | inr o ↦ ground (arith, f, found-le nr c (n + m) xs e, inside_none key nr c (n + m) xs e)
]

pub free_at-map_erase :
    (b nr c : ℕ) (xs : Chunks)
    → map_find nr xs ≡ some c
    → free_at b xs ≡ holds b nr c + free_at b (map_erase nr xs)
unfolding map_find map_erase
free_at-map_erase b nr c [] h = absurd (ground (arith, h))
free_at-map_erase b nr c ((n, m) ∷ xs) h = ground (arith, h, free_at-map_erase b nr c xs)

pub free_at-map_insert :
    (b nr c : ℕ) (xs : Chunks)
    → map_find nr xs ≡ none
    → free_at b (map_insert nr c xs) ≡ holds b nr c + free_at b xs
unfolding map_find map_insert
free_at-map_insert b nr c [] h = refl
free_at-map_insert b nr c ((n, m) ∷ xs) h = ground (arith, h, free_at-map_insert b nr c xs)

-- A run of blocks and a chunk share no block.
abbrev pub Beside : ℕ → ℕ → ℕ × ℕ → Type 0
Beside nr cnt (n, c) = (n + c ≤ nr) ⊎ (nr + cnt ≤ n)

pub Apart-lower : (low low' : ℕ) (xs : Chunks) → low' ≤ low → Apart low xs → Apart low' xs
Apart-lower low low' [] h v = tt
Apart-lower low low' ((n, c) ∷ xs) h (a, b, d, e, v) = (omega (arith, h, a), b, d, e, v)

-- Chunks behind a run that are beside a longer run are behind that.
pub Apart-raise :
    (nr cnt low : ℕ) (xs : Chunks)
    → Apart low xs
    → nr ≤ low
    → All (Beside nr cnt) xs
    → Apart (nr + cnt) xs
Apart-raise nr cnt low [] v h s = tt
Apart-raise nr cnt low ((n, c) ∷ xs) (a, b, d, e, v) h (s, ss) =
    (ground (arith, a, b, h, s), b, d, e, v)

pub Apart-map_insert :
    (nr cnt low : ℕ) (xs : Chunks)
    → Apart low xs
    → low ≤ nr
    → 0 < cnt
    → cnt < 2 ^ 16
    → nr + cnt < 2 ^ 32
    → All (Beside nr cnt) xs
    → Apart low (map_insert nr cnt xs)
unfolding map_insert
Apart-map_insert nr cnt low [] v h pos small fits s = (h, pos, small, fits, tt)
Apart-map_insert nr cnt low ((n, c) ∷ xs) (a, b, d, e, v) h pos small fits (s, ss) =
    elim (Bool-cases (ltb nr n)) [
      | inl y ↦ rw y (h, pos, small, fits, (ground (arith, s, b, y), b, d, e, v))
      | inr o ↦ elim (Bool-cases (ltb n nr)) [
        | inl y ↦
            rw (o, y)
              (
                a,
                b,
                d,
                e,
                Apart-map_insert nr cnt (n + c) xs v (ground (arith, s, pos, y)) pos small fits ss,
              )
        | inr p ↦ absurd (ground (arith, s, b, pos, o, p))
      ]
    ]

pub Apart-map_erase : (nr low : ℕ) (xs : Chunks) → Apart low xs → Apart low (map_erase nr xs)
unfolding map_erase
Apart-map_erase nr low [] v = tt
Apart-map_erase nr low ((n, c) ∷ xs) (a, b, d, e, v) = elim (Bool-cases (nr == n)) [
  | inl y ↦ rw y (Apart-lower (n + c) low xs (omega (arith, a)) v)
  | inr o ↦ rw o (a, b, d, e, Apart-map_erase nr (n + c) xs v)
]

pub All-map_erase : (P : ℕ × ℕ → Type 0) (nr : ℕ) (xs : Chunks) → All P xs → All P (map_erase nr xs)
unfolding map_erase
All-map_erase P nr [] v = tt
All-map_erase P nr (x ∷ xs) (a, v) = elim (Bool-cases (nr == x.0)) [
  | inl y ↦ rw y v
  | inr o ↦ rw o (a, All-map_erase P nr xs v)
]

-- Chunks behind a bound are beside what ends before it.
pub behind : (nr cnt low : ℕ) (xs : Chunks) → Apart low xs → nr + cnt ≤ low → All (Beside nr cnt) xs
behind nr cnt low [] v h = tt
behind nr cnt low ((n, c) ∷ xs) (a, b, d, e, v) h =
    (inr (omega (arith, a, h)), behind nr cnt (n + c) xs v (omega (arith, a, h)))

-- A chunk is beside all the others.
pub others-Beside :
    (nr c low : ℕ) (xs : Chunks)
    → Apart low xs
    → map_find nr xs ≡ some c
    → All (Beside nr c) (map_erase nr xs)
unfolding map_find map_erase
others-Beside nr c low [] v f = tt
others-Beside nr c low ((n, m) ∷ xs) (a, b, d, e, v) f = elim (Bool-cases (nr == n)) [
  | inl y ↦ rw y (behind nr c (n + m) xs v (ground (arith, f, y)))
  | inr o ↦
      let f' : map_find nr xs ≡ some c = rw o at f in
      rw o (inl (found-le nr c (n + m) xs v f'), others-Beside nr c (n + m) xs v f')
]

-- A chunk grows at its end by a run that is beside all chunks.
pub Apart-map_update :
    (nr c cnt low : ℕ) (xs : Chunks)
    → Apart low xs
    → map_find nr xs ≡ some c
    → c + cnt < 2 ^ 16
    → nr + (c + cnt) < 2 ^ 32
    → All (Beside (nr + c) cnt) xs
    → Apart low (map_update nr (c + cnt) xs)
unfolding map_find map_update
Apart-map_update nr c cnt low [] v f small fits s = tt
Apart-map_update nr c cnt low ((n, m) ∷ xs) (a, b, d, e, v) f small fits (s, ss) =
    elim (Bool-cases (nr == n)) [
      | inl y ↦
          let same : m ≡ c = ground (arith, f, y) in
          let at : nr ≡ n = ground (arith, y) in
          let on : Apart (nr + c + cnt) xs =
            Apart-raise (nr + c) cnt (n + m) xs v (omega (arith, same, at)) ss in
          rw y (
            a,
            ground (arith, b, same),
            small,
            ground (arith, fits, at),
            subst (λ (t : ℕ). Apart t xs) (omega (arith, at)) on,
          )
      | inr o ↦ rw o (a, b, d, e, Apart-map_update nr c cnt (n + m) xs v (rw o at f) small fits ss)
    ]

pub free_at-map_update :
    (b nr c cnt : ℕ) (xs : Chunks)
    → map_find nr xs ≡ some c
    → free_at b (map_update nr (c + cnt) xs) ≡ holds b (nr + c) cnt + free_at b xs
unfolding map_find map_update
free_at-map_update b nr c cnt [] h = absurd (ground (arith, h))
free_at-map_update b nr c cnt ((n, m) ∷ xs) h = ground (arith, h, free_at-map_update b nr c cnt xs)

-- A block beside every chunk is in none.
pub free_at-zero :
    (b nr cnt : ℕ) (xs : Chunks) → All (Beside nr cnt) xs → nr ≤ b → b < nr + cnt → free_at b xs ≡ 0
free_at-zero b nr cnt [] s h k = refl
free_at-zero b nr cnt ((n, c) ∷ xs) (s, ss) h k = ground (arith, s, free_at-zero b nr cnt xs ss h k)
