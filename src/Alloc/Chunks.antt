-- ===== src/Alloc/Chunks.antt =====
-- The maps of xoz/alloc/free_map.h: `std::map` from the first block of a chunk to its count, and
-- `std::multimap` from counts to first blocks, each a list in the order of its keys. Equal keys of
-- the multimap stand in the order of insertion.
pub mod Keyed
pub mod Apart
pub mod Tally
use xoz.Base.{ℕ, ◌&&◌, ltb, leb, ◌==◌, if◌then◌else◌, List, [], ◌∷◌, Option, some, none}

abbrev pub Table {ℓ} : Type ℓ → Type ℓ
Table V = List (ℕ × V)

abbrev pub Chunks : Type 0
Chunks = Table ℕ

-- `std::map::insert`: a key that is there stays as it is.
unfoldable pub map_insert {ℓ} : {V : Type ℓ} → ℕ → V → Table V → Table V
map_insert key val [] = (key, val) ∷ []
map_insert key val ((k, v) ∷ xs) =
    let rest = map_insert key val xs in
    if ltb key k
    then (key, val) ∷ (k, v) ∷ xs
    else (if ltb k key then (k, v) ∷ rest else (k, v) ∷ xs)

unfoldable pub map_erase {ℓ} : {V : Type ℓ} → ℕ → Table V → Table V
map_erase key [] = []
map_erase key ((k, v) ∷ xs) = let rest = map_erase key xs in if key == k then xs else (k, v) ∷ rest

unfoldable pub map_find {ℓ} : {V : Type ℓ} → ℕ → Table V → Option V
map_find key [] = none
map_find key ((k, v) ∷ xs) = let rest = map_find key xs in if key == k then some v else rest

-- The value at a key that is there.
unfoldable pub map_update {ℓ} : {V : Type ℓ} → ℕ → V → Table V → Table V
map_update key val [] = []
map_update key val ((k, v) ∷ xs) =
    let rest = map_update key val xs in if key == k then (k, val) ∷ xs else (k, v) ∷ rest

-- `std::multimap::insert`: after the equal keys.
unfoldable pub multimap_insert : ℕ → ℕ → Chunks → Chunks
multimap_insert key val [] = (key, val) ∷ []
multimap_insert key val ((k, v) ∷ xs) =
    let rest = multimap_insert key val xs in
    if ltb key k then (key, val) ∷ (k, v) ∷ xs else (k, v) ∷ rest

-- The erasure of the entry that an iterator points to.
unfoldable pub multimap_erase : ℕ → ℕ → Chunks → Chunks
multimap_erase key val [] = []
multimap_erase key val ((k, v) ∷ xs) =
    let rest = multimap_erase key val xs in if key == k && val == v then xs else (k, v) ∷ rest

-- The entry at `lower_bound`, the first whose key is not below the given one.
unfoldable pub lower_bound : ℕ → Chunks → Option (ℕ × ℕ)
lower_bound key [] = none
lower_bound key ((k, v) ∷ xs) =
    let rest = lower_bound key xs in if ltb k key then rest else some (k, v)

-- The entry at `upper_bound`, the first whose key is above the given one.
unfoldable pub upper_bound : ℕ → Chunks → Option (ℕ × ℕ)
upper_bound key [] = none
upper_bound key ((k, v) ∷ xs) =
    let rest = upper_bound key xs in if leb k key then rest else some (k, v)

-- The entry before `lower_bound`, if that is not `begin()`.
unfoldable pub before_lower : ℕ → Option (ℕ × ℕ) → Chunks → Option (ℕ × ℕ)
before_lower key prev [] = prev
before_lower key prev ((k, v) ∷ xs) =
    let rest = before_lower key (some (k, v)) xs in if ltb k key then rest else prev

-- The entry before `upper_bound`, if that is not `begin()`.
unfoldable pub before_upper : ℕ → Option (ℕ × ℕ) → Chunks → Option (ℕ × ℕ)
before_upper key prev [] = prev
before_upper key prev ((k, v) ∷ xs) =
    let rest = before_upper key (some (k, v)) xs in if leb k key then rest else prev
