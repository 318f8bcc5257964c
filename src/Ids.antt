-- ===== src/Ids.antt =====
-- xoz/file/id_manager.h: which identifiers are taken. The set of 32-bit numbers that it keeps is a
-- list in ascending order.
pub mod Laws
use xoz.Base.{
  ℕ, ◌+◌, ◌%◌, ◌^◌, bit_and, Bool, true, false, not, ◌&&◌, ◌||◌, ◌==◌, ltb, leb, if◌then◌else◌,
  List, [], ◌∷◌, Result, ok, err, runtime_error, require, assert, ◌>>=◌, ◌>>◌,
}

pub record IdManager : Type 0 where
  pub next_temporal_id : ℕ
  pub persistent_ids : List ℕ

-- `std::set::insert`: the new set, and whether the number was not in it.
unfoldable pub set_insert : ℕ → List ℕ → List ℕ × Bool
set_insert id [] = (id ∷ [], true)
set_insert id (x ∷ xs) =
    let (rest, inserted) = set_insert id xs in
    if ltb id x
    then (id ∷ x ∷ xs, true)
    else (if ltb x id then (x ∷ rest, inserted) else (x ∷ xs, false))

unfoldable pub set_contains : ℕ → List ℕ → Bool
set_contains id [] = false
set_contains id (x ∷ xs) = id == x || set_contains id xs

unfoldable pub set_erase : ℕ → List ℕ → List ℕ
set_erase id [] = []
set_erase id (x ∷ xs) = let rest = set_erase id xs in if id == x then xs else x ∷ rest

-- `*rbegin()` of the set with the given first element.
unfoldable pub greatest : ℕ → List ℕ → ℕ
greatest x [] = x
greatest x (y ∷ ys) = greatest y ys

unfoldable pub is_undefined : ℕ → Bool
is_undefined id = id == 0

unfoldable pub is_temporal : ℕ → Bool
unfolding is_undefined
is_temporal id = not (is_undefined id) && not (bit_and id 0x80000000 == 0)

unfoldable pub is_persistent : ℕ → Bool
unfolding is_undefined is_temporal
is_persistent id = not (is_undefined id) && not (is_temporal id)

unfoldable pub reset : ℕ → IdManager → Result IdManager
reset init m = do
  assert (leb 0x80000000 init)
  ok (record { next_temporal_id = init; persistent_ids = [] })

unfoldable pub request_temporal_id : IdManager → ℕ × IdManager
request_temporal_id m =
    (m.next_temporal_id, record m { next_temporal_id = (m.next_temporal_id + 1) % 2 ^ 32 })

unfoldable pub register_persistent_id : ℕ → IdManager → Result (IdManager × Bool)
register_persistent_id id m = do
  require (not (is_undefined id)) runtime_error
  require (not (is_temporal id)) runtime_error
  let (ids, inserted) = set_insert id m.persistent_ids
  ok (record m { persistent_ids = ids }, inserted)

-- One above the greatest identifier in use, in uint32_t.
unfoldable pub next_id : List ℕ → ℕ
next_id [] = 1
next_id (x ∷ xs) = (greatest x xs + 1) % 2 ^ 32

unfoldable pub request_persistent_id : IdManager → Result (ℕ × IdManager)
request_persistent_id m = do
  let id = next_id m.persistent_ids
  (m, _) ← register_persistent_id id m
  ok (id, m)

unfoldable pub is_registered : ℕ → IdManager → Result Bool
is_registered id m = do
  require (not (is_undefined id)) runtime_error
  require (not (is_temporal id)) runtime_error
  ok (set_contains id m.persistent_ids)

unfoldable pub unregister_persistent_id : ℕ → IdManager → Result IdManager
unregister_persistent_id id m = do
  registered ← is_registered id m
  require registered runtime_error
  ok (record m { persistent_ids = set_erase id m.persistent_ids })
