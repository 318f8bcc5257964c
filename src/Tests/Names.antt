-- ===== src/Tests/Names.antt =====
-- Names of descriptors, at concrete inputs.
use xoz.Base.{
  ℕ, All, some, ◌<◌, ◌≤◌, ◌≡◌, refl, arith, true, false, ◌||◌, List, [], ◌∷◌, length, ok, err,
  runtime_error,
}
use xoz.Ids.{IdManager, is_registered, is_undefined, is_temporal, set_contains}
use xoz.Mem.Endian.{little, big}
use xoz.Names.{NameMap, name_less, same_name, assign}
use xoz.Names.IdMapping.{IdMapping, store, load, is_reserved}
use xoz.Names.Order.{IsSorted}
use xoz.Names.StoreLoad.{IsEntry, load-store}
use xoz.Names.Index.{
  Index, init_index, add_name, find_id, flush, find_name, fail_if_bad_name, fail_if_not_initialized,
  fail_if_taken,
}
use xoz.Names.Index.Adds.{find_id-add_name}
use xoz.Names.Index.Flush.{flush-add_name}
use xoz.Names.Index.Restore.{init_index-flush}

-- "a" is 7, "b" is 3, and "~t" is temporal.
abbrev three_names : NameMap
three_names = (97 ∷ [], 7) ∷ (98 ∷ [], 3) ∷ (126 ∷ 116 ∷ [], 7) ∷ []

three_names-IsSorted : IsSorted three_names
unfolding name_less
three_names-IsSorted = ((refl, (refl, tt)), ((refl, tt), (tt, tt)))

named-IsEntry :
    (name : List ℕ) (id : ℕ)
    → 0 < id
    → id < 2000
    → 0 < length name
    → length name ≤ 255
    → is_reserved name ≡ false
    → IsEntry (name, id)
named-IsEntry name id pos small named short free = record {
  id_pos = pos;
  id_small = omega arith;
  named = named;
  short = short;
  free = free;
}

three_names-IsEntry : All IsEntry three_names
unfolding same_name
three_names-IsEntry = (
  named-IsEntry (97 ∷ []) 7 (omega arith) (omega arith) (omega arith) (omega arith) refl,
  (
    named-IsEntry (98 ∷ []) 3 (omega arith) (omega arith) (omega arith) (omega arith) refl,
    (
      named-IsEntry (126 ∷ 116 ∷ []) 7 (omega arith) (omega arith) (omega arith) (omega arith) refl,
      tt,
    ),
  ),
)

load-store_example :
    (d : IdMapping) × (store big three_names ≡ ok d)
    × (load little d ≡ ok ((97 ∷ [], 7) ∷ (98 ∷ [], 3) ∷ []))
load-store_example =
    load-store big little three_names three_names-IsSorted three_names-IsEntry (omega arith)

abbrev taken_ids : IdManager
taken_ids = record { next_temporal_id = 2147483648; persistent_ids = 3 ∷ 7 ∷ [] }

abbrev index : Index
index = record { initialized = true; id_by_name = (97 ∷ [], 7) ∷ (98 ∷ [], 3) ∷ [] }

abbrev with_c : Index
with_c = record { initialized = true; id_by_name = (97 ∷ [], 7) ∷ (98 ∷ [], 3) ∷ (99 ∷ [], 3) ∷ [] }

find_id-add_name_example :
    (find_id (99 ∷ []) with_c ≡ ok 3)
    × ((name_less (97 ∷ []) (99 ∷ []) || name_less (99 ∷ []) (97 ∷ [])) ≡ true
        → find_id (97 ∷ []) with_c ≡ find_id (97 ∷ []) index)
    × (IsSorted index.id_by_name → IsSorted with_c.id_by_name)
unfolding add_name assign name_less find_name fail_if_bad_name is_registered is_undefined
    is_temporal set_contains fail_if_not_initialized fail_if_taken
find_id-add_name_example =
    find_id-add_name taken_ids (99 ∷ []) (97 ∷ []) 3 false false index with_c refl

-- ".." is accepted as a name.
abbrev with_reserved : Index
with_reserved = record {
  initialized = true;
  id_by_name = (46 ∷ 46 ∷ [], 3) ∷ (97 ∷ [], 7) ∷ (98 ∷ [], 3) ∷ [];
}

flush-add_name_example : flush little with_reserved ≡ err runtime_error
unfolding add_name assign name_less find_name fail_if_bad_name is_registered is_undefined
    is_temporal set_contains fail_if_not_initialized fail_if_taken same_name
flush-add_name_example =
    flush-add_name little taken_ids (46 ∷ 46 ∷ []) 3 false false index with_reserved refl refl

abbrev full_index : Index
full_index = record { initialized = true; id_by_name = three_names }

abbrev fresh_index : Index
fresh_index = record { initialized = false; id_by_name = [] }

init_index-flush_example :
    (d : IdMapping) × (out : Index) × (flush big full_index ≡ ok d)
    × (init_index little taken_ids (some d) fresh_index ≡ ok out)
    × (find_id (98 ∷ []) out ≡ find_id (98 ∷ []) full_index)
unfolding is_registered is_undefined is_temporal set_contains
init_index-flush_example =
    init_index-flush big little taken_ids full_index fresh_index (98 ∷ []) refl refl
      three_names-IsSorted three_names-IsEntry (refl, (refl, tt)) (omega arith)
