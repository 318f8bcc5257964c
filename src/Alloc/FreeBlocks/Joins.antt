-- ===== src/Alloc/FreeBlocks/Joins.antt =====
-- A run of blocks joined with the chunk behind it and the chunk before it.
use xoz.Base.{
  ℕ, ◌+◌, ◌≤◌, ◌<◌, ◌≡◌, ◌⊎◌, refl, arith, leb, [], ◌∷◌, some, none, All, Bool-cases, inl, inr,
}
use xoz.Alloc.Chunks.{Chunks, map_erase, map_find, map_update, upper_bound, before_upper}
use xoz.Alloc.Chunks.Apart.{Apart, Beside, holds}

pub upper_bound-found :
    (key n c low : ℕ) (xs : Chunks)
    → Apart low xs
    → upper_bound key xs ≡ some (n, c)
    → (key < n) × (low ≤ n) × (map_find n xs ≡ some c)
unfolding upper_bound map_find
upper_bound-found key n c low [] v h = absurd (ground (arith, h))
upper_bound-found key n c low ((k, w) ∷ xs) (a, b, d, e, v) h = elim (Bool-cases (leb k key)) [
  | inl y ↦ ground (arith, a, b, upper_bound-found key n c (k + w) xs v (rw y at h))
  | inr o ↦ ground (arith, a, h, o)
]

before_upper-found :
    (key p w low k0 w0 : ℕ) (xs : Chunks)
    → Apart low xs
    → k0 < low
    → before_upper key (some (k0, w0)) xs ≡ some (p, w)
    → ((p ≡ k0) × (w ≡ w0)) ⊎ ((p ≤ key) × (low ≤ p) × (map_find p xs ≡ some w))
unfolding before_upper map_find
before_upper-found key p w low k0 w0 [] v lt h = ground (arith, h)
before_upper-found key p w low k0 w0 ((k, c) ∷ xs) (a, b, d, e, v) lt h =
    elim (Bool-cases (leb k key)) [
      | inl y ↦ ground (
        arith,
        y,
        a,
        b,
        before_upper-found key p w (k + c) k c xs v (omega (arith, b)) (rw y at h),
      )
      | inr o ↦ ground (arith, h, o)
    ]

pub before_upper-first :
    (key p w low : ℕ) (xs : Chunks)
    → Apart low xs
    → before_upper key none xs ≡ some (p, w)
    → (p ≤ key) × (map_find p xs ≡ some w)
unfolding before_upper map_find
before_upper-first key p w low [] v h = absurd (ground (arith, h))
before_upper-first key p w low ((k, c) ∷ xs) (a, b, d, e, v) h = elim (Bool-cases (leb k key)) [
  | inl y ↦
      ground
        (arith, y, a, b, before_upper-found key p w (k + c) k c xs v (omega (arith, b)) (rw y at h))
  | inr o ↦ absurd (ground (arith, h, o))
]

-- Two runs one after the other, each beside the chunks, are one run beside them.
pub joined-Beside :
    (nr cnt more low : ℕ) (xs : Chunks)
    → Apart low xs
    → All (Beside nr cnt) xs
    → All (Beside (nr + cnt) more) xs
    → All (Beside nr (cnt + more)) xs
joined-Beside nr cnt more low [] v s t = tt
joined-Beside nr cnt more low ((n, c) ∷ xs) (a, b, d, e, v) (s, ss) (t, ts) =
    (ground (arith, s, t, b), joined-Beside nr cnt more (n + c) xs v ss ts)

pub holds-joined :
    (b nr cnt more : ℕ) → holds b nr (cnt + more) ≡ holds b nr cnt + holds b (nr + cnt) more
holds-joined b nr cnt more = ground arith

-- Two chunks of the map are changed in either order.
pub map_erase-map_update :
    (nr p v : ℕ) (xs : Chunks)
    → p < nr
    → map_erase nr (map_update p v xs) ≡ map_update p v (map_erase nr xs)
unfolding map_erase map_update
map_erase-map_update nr p v [] lt = refl
map_erase-map_update nr p v ((k, w) ∷ xs) lt = ground (arith, lt, map_erase-map_update nr p v xs lt)
