-- ===== src/Alloc/Chunks/Keyed.antt =====
-- The laws of the map: what is found after a change, and how many entries there are.
use xoz.Base.{
  ℕ, ◌+◌, ◌≤◌, ◌<◌, ◌≡◌, refl, arith, ltb, ◌==◌, if◌then◌else◌, [], ◌∷◌, some, none, length,
  Bool-cases, inl, inr,
}
use xoz.Alloc.Chunks.{Table, map_insert, map_erase, map_find, map_update}

module _ {ℓ} {V : Type ℓ} where
  -- Keys one above another, from a bound on.
  abbrev pub Keys : ℕ → Table V → Type 0
  Keys low [] = Unit {0}
  Keys low ((n, c) ∷ xs) = (low ≤ n) × Keys (n + 1) xs

module _ {ℓ} {V : Type ℓ} where
  pub Keys-lower : (low low' : ℕ) (xs : Table V) → low' ≤ low → Keys low xs → Keys low' xs
  Keys-lower low low' [] h v = tt
  Keys-lower low low' ((n, c) ∷ xs) h (a, v) = (omega (arith, a, h), v)

  pub Keys-map_insert :
      (key low : ℕ) (val : V) (xs : Table V)
      → Keys low xs
      → low ≤ key
      → Keys low (map_insert key val xs)
  unfolding map_insert
  Keys-map_insert key low val [] v h = (h, tt)
  Keys-map_insert key low val ((n, c) ∷ xs) (a, v) h = elim (Bool-cases (ltb key n)) [
    | inl y ↦ rw y (h, (ground (arith, y), v))
    | inr o ↦ elim (Bool-cases (ltb n key)) [
      | inl y ↦ rw (o, y) (a, Keys-map_insert key (n + 1) val xs v (ground (arith, y)))
      | inr p ↦ rw (o, p) (a, v)
    ]
  ]

  pub Keys-map_erase : (key low : ℕ) (xs : Table V) → Keys low xs → Keys low (map_erase key xs)
  unfolding map_erase
  Keys-map_erase key low [] v = tt
  Keys-map_erase key low ((n, c) ∷ xs) (a, v) = elim (Bool-cases (key == n)) [
    | inl y ↦ rw y (Keys-lower (n + 1) low xs (omega (arith, a)) v)
    | inr o ↦ rw o (a, Keys-map_erase key (n + 1) xs v)
  ]

  pub Keys-map_update :
      (key low : ℕ) (val : V) (xs : Table V) → Keys low xs → Keys low (map_update key val xs)
  unfolding map_update
  Keys-map_update key low val [] v = tt
  Keys-map_update key low val ((n, c) ∷ xs) (a, v) = elim (Bool-cases (key == n)) [
    | inl y ↦ rw y (a, v)
    | inr o ↦ rw o (a, Keys-map_update key (n + 1) val xs v)
  ]

  none_below : (key low : ℕ) (xs : Table V) → Keys low xs → key < low → map_find key xs ≡ none
  unfolding map_find
  none_below key low [] v h = refl
  none_below key low ((n, c) ∷ xs) (a, v) h =
      ground (arith, a, h, none_below key (n + 1) xs v (omega (arith, a, h)))

  pub map_find-map_insert :
      (z key : ℕ) (val : V) (xs : Table V)
      → map_find key xs ≡ none
      → map_find z (map_insert key val xs) ≡ (if z == key then some val else map_find z xs)
  unfolding map_find map_insert
  map_find-map_insert z key val [] h = refl
  map_find-map_insert z key val ((n, c) ∷ xs) h =
      ground (arith, h, map_find-map_insert z key val xs)

  pub map_find-map_erase :
      (z key low : ℕ) (xs : Table V)
      → Keys low xs
      → map_find z (map_erase key xs) ≡ (if z == key then none else map_find z xs)
  unfolding map_find map_erase
  map_find-map_erase z key low [] v = ground arith
  map_find-map_erase z key low ((n, c) ∷ xs) (a, v) =
      ground (arith, map_find-map_erase z key (n + 1) xs v, none_below z (n + 1) xs v)

  pub map_find-map_update :
      (z key : ℕ) (old val : V) (xs : Table V)
      → map_find key xs ≡ some old
      → map_find z (map_update key val xs) ≡ (if z == key then some val else map_find z xs)
  unfolding map_find map_update
  map_find-map_update z key old val [] h = absurd (ground (arith, h))
  map_find-map_update z key old val ((n, m) ∷ xs) h =
      ground (arith, h, map_find-map_update z key old val xs)

  pub length-map_insert :
      (key : ℕ) (val : V) (xs : Table V)
      → map_find key xs ≡ none
      → length (map_insert key val xs) ≡ length xs + 1
  unfolding map_find map_insert
  length-map_insert key val [] h = refl
  length-map_insert key val ((n, c) ∷ xs) h = ground (arith, h, length-map_insert key val xs)

  pub length-map_erase :
      (key : ℕ) (old : V) (xs : Table V)
      → map_find key xs ≡ some old
      → length (map_erase key xs) + 1 ≡ length xs
  unfolding map_find map_erase
  length-map_erase key old [] h = absurd (ground (arith, h))
  length-map_erase key old ((n, c) ∷ xs) h = ground (arith, h, length-map_erase key old xs)

  pub length-map_update :
      (key : ℕ) (val : V) (xs : Table V) → length (map_update key val xs) ≡ length xs
  unfolding map_update
  length-map_update key val [] = refl
  length-map_update key val ((n, c) ∷ xs) = ground (arith, length-map_update key val xs)

  pub map_erase-map_insert :
      (key low : ℕ) (val : V) (xs : Table V)
      → Keys low xs
      → map_find key xs ≡ none
      → map_erase key (map_insert key val xs) ≡ xs
  unfolding map_find map_insert map_erase
  map_erase-map_insert key low val [] v h = ground arith
  map_erase-map_insert key low val ((n, c) ∷ xs) (a, v) h =
      ground (arith, h, map_erase-map_insert key (n + 1) val xs v)
