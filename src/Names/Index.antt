-- ===== src/Names/Index.antt =====
-- xoz/file/index.h and xoz/file/index.cpp: the names of descriptors, and their identifiers.
pub mod Adds
pub mod Flush
pub mod Restore
use xoz.Base.{
  ℕ, Bool, true, false, not, ◌&&◌, ◌||◌, leb, ◌==◌, if◌then◌else◌, List, [], ◌∷◌, length, Option,
  some, none, Result, ok, err, runtime_error, invalid_argument, require, ◌>>=◌, ◌>>◌,
}
use xoz.Ids.{IdManager, is_registered}
use xoz.Mem.Endian.{Host}
use xoz.Names.{NameMap, name_less, first_char, temp_name_prefix, assign}
use xoz.Names.IdMapping.{IdMapping, store, load}

unfoldable pub find_name : List ℕ → NameMap → Option ℕ
find_name name [] = none
find_name name ((k, v) ∷ m) =
    let rest = find_name name m in if name_less name k || name_less k name then rest else some v

unfoldable pub erase_name : List ℕ → NameMap → NameMap
erase_name name [] = []
erase_name name ((k, v) ∷ m) =
    let rest = erase_name name m in
    if name_less name k || name_less k name then (k, v) ∷ rest else m

abbrev pub has_name {ℓ} : {A : Type ℓ} → Option A → Bool
has_name none = false
has_name (some v) = true

-- The set of descriptors is known by whether it is there, and the cache of descriptors is left out:
-- the operations below do not use it.
pub record Index : Type 0 where
  pub initialized : Bool
  pub id_by_name : NameMap

unfoldable pub fail_if_not_initialized : Index → Result (Unit {0})
fail_if_not_initialized index = require index.initialized runtime_error

unfoldable pub fail_if_bad_name : IdManager → List ℕ → ℕ → Bool → Result (Unit {0})
fail_if_bad_name ids name id is_temporal_name = do
  require (leb (length name) 255) runtime_error
  require (not (length name == 0)) runtime_error
  registered ← is_registered id ids
  require registered runtime_error
  require (not (first_char name == temp_name_prefix && not is_temporal_name)) runtime_error
  require (not (not (first_char name == temp_name_prefix) && is_temporal_name)) runtime_error

unfoldable pub fail_if_bad_names : IdManager → NameMap → Result (Unit {0})
unfolding fail_if_bad_name
fail_if_bad_names ids [] = ok tt
fail_if_bad_names ids ((name, id) ∷ m) =
    fail_if_bad_name ids name id false >> fail_if_bad_names ids m

-- A missing `idmap` is none.
unfoldable pub init_index : Host → IdManager → Option IdMapping → Index → Result Index
unfolding fail_if_bad_names
init_index host ids none index = do require (not index.initialized) runtime_error; err runtime_error
init_index host ids (some idmap) index = do
  require (not index.initialized) runtime_error
  id_by_name ← load host idmap
  fail_if_bad_names ids id_by_name
  ok (record { initialized = true; id_by_name = id_by_name })

-- Another identifier under the name is an error, unless it may be overridden.
unfoldable pub fail_if_taken : Option ℕ → ℕ → Bool → Result (Unit {0})
fail_if_taken none id override_if_exists = ok tt
fail_if_taken (some other_id) id override_if_exists =
    require (override_if_exists || other_id == id) runtime_error

unfoldable pub add_name : IdManager → List ℕ → ℕ → Bool → Bool → Index → Result Index
unfolding fail_if_not_initialized fail_if_bad_name fail_if_taken
add_name ids name id override_if_exists is_temporal_name index = do
  fail_if_not_initialized index
  fail_if_bad_name ids name id is_temporal_name
  fail_if_taken (find_name name index.id_by_name) id override_if_exists
  ok (record index { id_by_name = assign name id index.id_by_name })

-- The overload on a descriptor, of which only the identifier is used; none is a null pointer.
unfoldable pub add_name_of : IdManager → List ℕ → Option ℕ → Bool → Bool → Index → Result Index
unfolding fail_if_not_initialized add_name
add_name_of ids name none override_if_exists is_temporal_name index =
    fail_if_not_initialized index >> err runtime_error
add_name_of ids name (some id) override_if_exists is_temporal_name index =
    fail_if_not_initialized index >> add_name ids name id override_if_exists is_temporal_name index

unfoldable pub delete_name : List ℕ → Index → Result Index
unfolding fail_if_not_initialized erase_name
delete_name name index = do
  fail_if_not_initialized index
  require (has_name (find_name name index.id_by_name)) runtime_error
  ok (record index { id_by_name = erase_name name index.id_by_name })

unfoldable pub contains : List ℕ → Index → Result Bool
unfolding fail_if_not_initialized
contains name index =
    fail_if_not_initialized index >> ok (has_name (find_name name index.id_by_name))

-- The identifier that `find(name)` looks up; the search of a descriptor by it is not modelled.
unfoldable pub find_id : List ℕ → Index → Result ℕ
unfolding fail_if_not_initialized
find_id name index = do
  fail_if_not_initialized index
  elim (find_name name index.id_by_name) [ none ↦ err invalid_argument | some id ↦ ok id ]

unfoldable pub flush : Host → Index → Result IdMapping
flush host index = store host index.id_by_name
