-- ===== src/Names/Index/Flush.antt =====
-- Reserved names in the index.
use xoz.Base.{
  ℕ, ◌+◌, ◌%◌, ◌^◌, ◌≡◌, refl, ap, arith, Bool, true, ◌==◌, List, [], ◌∷◌, length, Result, ok, err,
  runtime_error, ok-injective, >>-eq-ok, Error, ◌⊎◌, ◌≤◌, Bool-cases, inl, inr,
}
use xoz.Ids.{IdManager}
use xoz.Mem.Ints.Casts.{assert_integral_cast-fits}
use xoz.Mem.Endian.{Host}
use xoz.Names.{NameMap, name_less, assign, first_char, temp_name_prefix}
use xoz.Names.IdMapping.{is_reserved, fail_if_bad_values, calculate_store_mapping_size, store}
use xoz.Names.Index.{
  Index, find_name, fail_if_not_initialized, fail_if_bad_name, fail_if_taken, add_name, flush,
}
use xoz.Names.Index.Adds.{name_less-total}
use mathlib.Core.Path.{subst}

-- A bad entry, whatever goes before it.
bad_entry :
    (name : List ℕ) (id : ℕ)
    → is_reserved name ≡ true
    → fail_if_bad_values id name ≡ err runtime_error
unfolding fail_if_bad_values
bad_entry name id h = ground (arith, h)

only_runtime_error :
    (name : List ℕ) (id : ℕ) (why : Error)
    → fail_if_bad_values id name ≡ err why
    → why ≡ runtime_error
unfolding fail_if_bad_values
only_runtime_error name id why h = ground (arith, h)

good_length : (name : List ℕ) (id : ℕ) → fail_if_bad_values id name ≡ ok tt → length name ≤ 255
unfolding fail_if_bad_values
good_length name id h = ground (arith, h)

check_cases : (r : Result (Unit {0})) → (r ≡ ok tt) ⊎ ((why : Error) × (r ≡ err why))
check_cases (ok tt) = inl refl
check_cases (err why) = inr (why, refl)

-- The size of a map that fails does so whatever good entry goes before.
fails_later :
    (k : List ℕ) (v : ℕ) (m : NameMap) (sz : ℕ)
    → ((n : ℕ) → calculate_store_mapping_size m n ≡ err runtime_error)
    → calculate_store_mapping_size ((k, v) ∷ m) sz ≡ err runtime_error
unfolding calculate_store_mapping_size
fails_later k v m sz later = elim (check_cases (fail_if_bad_values v k)) [
  | inl good ↦ elim (Bool-cases (first_char k == temp_name_prefix)) [
    | inl temp ↦ rw (good, temp) (later ((sz + 0) % 2 ^ 32))
    | inr kept ↦
        rw
          (good, kept, assert_integral_cast-fits 8 (length k) (omega (arith, good_length k v good)))
          (later ((sz + (5 + length k)) % 2 ^ 32))
  ]
  | inr (why, bad) ↦ rw (bad, only_runtime_error k v why bad) refl
]

assigned_bad :
    (name : List ℕ) (id : ℕ) (m : NameMap)
    → is_reserved name ≡ true
    → (sz : ℕ) → calculate_store_mapping_size (assign name id m) sz ≡ err runtime_error
unfolding calculate_store_mapping_size assign
assigned_bad name id [] h sz = rw (bad_entry name id h) refl
assigned_bad name id ((k, v) ∷ m) h sz = elim (Bool-cases (name_less name k)) [
  | inl before ↦ rw (before, bad_entry name id h) refl
  | inr not_before ↦ elim (Bool-cases (name_less k name)) [
    | inl after ↦
        rw (not_before, after) (fails_later k v (assign name id m) sz (assigned_bad name id m h))
    | inr same ↦
        let e : is_reserved k ≡ true =
          subst (λ (n : List ℕ). is_reserved n ≡ true) (name_less-total name k not_before same) h in
        rw (not_before, same, bad_entry k id e) refl
  ]
]

-- Where a reserved name, which is `/`, `.` or `..`, was added without an error, the index cannot be
-- flushed.
pub flush-add_name :
    (host : Host) (ids : IdManager) (name : List ℕ) (id : ℕ) (override_if_exists temporal : Bool)
    (index out : Index)
    → is_reserved name ≡ true
    → add_name ids name id override_if_exists temporal index ≡ ok out
    → flush host out ≡ err runtime_error
unfolding add_name flush store
flush-add_name host ids name id override_if_exists temporal index out h added =
    let (_, a) = >>-eq-ok (fail_if_not_initialized index) _ added in
    let (_, b) = >>-eq-ok (fail_if_bad_name ids name id temporal) _ a in
    let (_, done) =
      >>-eq-ok (fail_if_taken (find_name name index.id_by_name) id override_if_exists) _ b in
    let same : assign name id index.id_by_name ≡ out.id_by_name =
      ap (λ (x : Index). x.id_by_name) (ok-injective done) in
    rw
      (subst (λ (m : NameMap). calculate_store_mapping_size m 0 ≡ err runtime_error) same
        (assigned_bad name id index.id_by_name h 0))
      refl
