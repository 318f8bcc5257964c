-- ===== src/Alloc/Chunks/Tally.antt =====
-- The multimap by count lists just the chunks of the map by number, in the order of their counts.
use xoz.Base.{
  ℕ, ◌+◌, ◌^◌, ◌≤◌, ◌<◌, ◌≡◌, refl, arith, ◌&&◌, ltb, ◌==◌, if◌then◌else◌, [], ◌∷◌, Option, some,
  none, Bool-cases, inl, inr,
}
use xoz.Alloc.Chunks.{
  Chunks, map_insert, map_erase, map_find, map_update, multimap_insert, multimap_erase, lower_bound,
}
use xoz.Alloc.Chunks.Keyed.{
  Keys, Keys-lower, map_find-map_insert, map_find-map_erase, map_find-map_update,
}
use xoz.Alloc.Chunks.Apart.{Apart}

-- The entries by count, in order, and of 16 bits.
abbrev pub Ascending : ℕ → Chunks → Type 0
Ascending low [] = Unit {0}
Ascending low ((cnt, nr) ∷ xs) = (low ≤ cnt) × (cnt < 2 ^ 16) × Ascending cnt xs

abbrev pub is_entry : ℕ → ℕ → ℕ × ℕ → ℕ
is_entry key val (k, v) = if key == k && val == v then 1 else 0

-- How often an entry stands in a multimap, and whether a look-up gave the value.
abbrev pub occurs : ℕ → ℕ → Chunks → ℕ
occurs key val [] = 0
occurs key val (x ∷ xs) = is_entry key val x + occurs key val xs

abbrev pub says : Option ℕ → ℕ → ℕ
says none val = 0
says (some v) val = if val == v then 1 else 0

abbrev pub Listed : Chunks → Chunks → Type 0
Listed by_nr by_cnt = (nr cnt : ℕ) → occurs cnt nr by_cnt ≡ says (map_find nr by_nr) cnt

pub Apart-Keys : (low : ℕ) (xs : Chunks) → Apart low xs → Keys low xs
Apart-Keys low [] v = tt
Apart-Keys low ((n, c) ∷ xs) (a, b, d, e, v) =
    (a, Keys-lower (n + c) (n + 1) xs (omega (arith, b)) (Apart-Keys (n + c) xs v))

occurs-multimap_insert :
    (key val cnt nr : ℕ) (ys : Chunks)
    → occurs key val (multimap_insert cnt nr ys) ≡ is_entry key val (cnt, nr) + occurs key val ys
unfolding multimap_insert
occurs-multimap_insert key val cnt nr [] = refl
occurs-multimap_insert key val cnt nr ((k, v) ∷ ys) =
    ground (arith, occurs-multimap_insert key val cnt nr ys)

occurs-multimap_erase :
    (key val cnt nr : ℕ) (ys : Chunks)
    → 0 < occurs cnt nr ys
    → occurs key val ys ≡ is_entry key val (cnt, nr) + occurs key val (multimap_erase cnt nr ys)
unfolding multimap_erase
occurs-multimap_erase key val cnt nr [] h = absurd (omega (arith, h))
occurs-multimap_erase key val cnt nr ((k, v) ∷ ys) h =
    ground (arith, h, occurs-multimap_erase key val cnt nr ys)

pub Listed-insert :
    (nr cnt : ℕ) (xs ys : Chunks)
    → map_find nr xs ≡ none
    → Listed xs ys
    → Listed (map_insert nr cnt xs) (multimap_insert cnt nr ys)
Listed-insert nr cnt xs ys f l z c = ground (
  arith,
  map_find-map_insert z nr cnt xs f,
  occurs-multimap_insert c z cnt nr ys,
  l z c,
  l nr c,
  f,
)

pub Listed-erase :
    (nr cnt low : ℕ) (xs ys : Chunks)
    → Keys low xs
    → map_find nr xs ≡ some cnt
    → Listed xs ys
    → Listed (map_erase nr xs) (multimap_erase cnt nr ys)
Listed-erase nr cnt low xs ys v f l z c =
    let once : occurs cnt nr ys ≡ 1 = ground (arith, l nr cnt, f) in
    ground (
      arith,
      map_find-map_erase z nr low xs v,
      occurs-multimap_erase c z cnt nr ys (omega (arith, once)),
      l z c,
      l nr c,
      f,
    )

pub Listed-update :
    (nr cnt more : ℕ) (xs ys : Chunks)
    → map_find nr xs ≡ some cnt
    → Listed xs ys
    → Listed (map_update nr more xs) (multimap_insert more nr (multimap_erase cnt nr ys))
Listed-update nr cnt more xs ys f l z c =
    let once : occurs cnt nr ys ≡ 1 = ground (arith, l nr cnt, f) in
    ground (
      arith,
      map_find-map_update z nr cnt more xs f,
      occurs-multimap_insert c z more nr (multimap_erase cnt nr ys),
      occurs-multimap_erase c z cnt nr ys (omega (arith, once)),
      l z c,
      l nr c,
      f,
    )

occurs-lower_bound :
    (key c nr : ℕ) (ys : Chunks) → lower_bound key ys ≡ some (c, nr) → 0 < occurs c nr ys
unfolding lower_bound
occurs-lower_bound key c nr [] h = absurd (ground (arith, h))
occurs-lower_bound key c nr ((k, v) ∷ ys) h = ground (arith, h, occurs-lower_bound key c nr ys)

-- What is looked up by count is a chunk.
pub lower_bound-Listed :
    (key c nr : ℕ) (xs ys : Chunks)
    → Listed xs ys
    → lower_bound key ys ≡ some (c, nr)
    → map_find nr xs ≡ some c
lower_bound-Listed key c nr xs ys l h = ground (arith, l nr c, occurs-lower_bound key c nr ys h)

pub Ascending-multimap_insert :
    (cnt nr low : ℕ) (ys : Chunks)
    → Ascending low ys
    → low ≤ cnt
    → cnt < 2 ^ 16
    → Ascending low (multimap_insert cnt nr ys)
unfolding multimap_insert
Ascending-multimap_insert cnt nr low [] v h small = (h, small, tt)
Ascending-multimap_insert cnt nr low ((k, n) ∷ ys) (a, b, v) h small =
    elim (Bool-cases (ltb cnt k)) [
      | inl y ↦ rw y (h, small, (ground (arith, y), b, v))
      | inr o ↦ rw o (a, b, Ascending-multimap_insert cnt nr k ys v (ground (arith, o)) small)
    ]

Ascending-lower : (low low' : ℕ) (ys : Chunks) → low' ≤ low → Ascending low ys → Ascending low' ys
Ascending-lower low low' [] h v = tt
Ascending-lower low low' ((k, n) ∷ ys) h (a, b, v) = (omega (arith, a, h), b, v)

pub Ascending-multimap_erase :
    (cnt nr low : ℕ) (ys : Chunks) → Ascending low ys → Ascending low (multimap_erase cnt nr ys)
unfolding multimap_erase
Ascending-multimap_erase cnt nr low [] v = tt
Ascending-multimap_erase cnt nr low ((k, n) ∷ ys) (a, b, v) =
    elim (Bool-cases (cnt == k && nr == n)) [
      | inl y ↦ rw y (Ascending-lower k low ys a v)
      | inr o ↦ rw o (a, b, Ascending-multimap_erase cnt nr k ys v)
    ]
