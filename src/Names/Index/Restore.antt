-- ===== src/Names/Index/Restore.antt =====
-- An index that is flushed and initialized again.
use xoz.Base.{
  ℕ, ◌^◌, ◌<◌, ◌≡◌, refl, sym, ap, ◌∙◌, arith, true, false, ◌||◌, leb, ◌==◌, if◌then◌else◌, List,
  [], ◌∷◌, length, some, none, ok, err, invalid_argument, All, Bool-cases, inl, inr,
}
use xoz.Ids.{IdManager, is_registered}
use xoz.Mem.Endian.{Host}
use xoz.Names.{NameMap, name_less, first_char, temp_name_prefix}
use xoz.Names.IdMapping.{IdMapping}
use xoz.Names.Order.{IsSorted, stored}
use xoz.Names.StoreLoad.{IsEntry, load-store}
use xoz.Names.Index.{
  Index, find_name, find_id, flush, fail_if_not_initialized, fail_if_bad_name, fail_if_bad_names,
  init_index,
}
use xoz.Names.Index.Adds.{name_less-total}

abbrev pub IsRegistered : IdManager → (List ℕ × ℕ) → Type 0
IsRegistered ids e = is_registered e.1 ids ≡ ok true

-- Of two names that are not apart the one is temporal where the other is.
same_first :
    (name k : List ℕ)
    → (name_less name k || name_less k name) ≡ false
    → first_char name ≡ first_char k
same_first name k h = ap first_char (name_less-total name k (ground (arith, h)) (ground (arith, h)))

find_name-temporal :
    (name : List ℕ) (m : NameMap)
    → (first_char name == temp_name_prefix) ≡ true
    → find_name name (stored m) ≡ none
unfolding find_name
find_name-temporal name [] h = refl
find_name-temporal name ((k, v) ∷ m) h = elim (Bool-cases (first_char k == temp_name_prefix)) [
  | inl temp ↦ rw temp (find_name-temporal name m h)
  | inr kept ↦ elim (Bool-cases (name_less name k || name_less k name)) [
    | inl apart ↦ rw (kept, apart) (find_name-temporal name m h)
    | inr same ↦ ground (arith, same_first name k same)
  ]
]

find_name-stored :
    (name : List ℕ) (m : NameMap)
    → (first_char name == temp_name_prefix) ≡ false
    → find_name name (stored m) ≡ find_name name m
unfolding find_name
find_name-stored name [] h = refl
find_name-stored name ((k, v) ∷ m) h = elim (Bool-cases (name_less name k || name_less k name)) [
  | inl apart ↦ elim (Bool-cases (first_char k == temp_name_prefix)) [
    | inl temp ↦ rw (temp, apart) (find_name-stored name m h)
    | inr kept ↦ rw (kept, apart) (find_name-stored name m h)
  ]
  | inr same ↦ rw (ap (λ c. c == temp_name_prefix) (sym (same_first name k same)) ∙ h, same) refl
]

good_name :
    (ids : IdManager) (name : List ℕ) (id : ℕ)
    → IsEntry (name, id)
    → IsRegistered ids (name, id)
    → (first_char name == temp_name_prefix) ≡ false
    → fail_if_bad_name ids name id false ≡ ok tt
unfolding fail_if_bad_name
good_name ids name id v known h =
    let short : leb (length name) 255 ≡ true = ground (arith, v.short) in
    let named : (length name == 0) ≡ false = ground (arith, v.named) in
    rw (short, named, known, h) refl

good_names :
    (ids : IdManager) (m : NameMap)
    → All IsEntry m
    → All (IsRegistered ids) (stored m)
    → fail_if_bad_names ids (stored m) ≡ ok tt
unfolding fail_if_bad_names
good_names ids [] v known = refl
good_names ids ((name, id) ∷ m) (v, vs) known =
    elim (Bool-cases (first_char name == temp_name_prefix)) [
      | inl temp ↦ rw temp (good_names ids m vs (rw temp at known))
      | inr kept ↦
          let both : All (IsRegistered ids) ((name, id) ∷ stored m) = rw kept at known in
          rw (kept, good_name ids name id v both.0 kept) (good_names ids m vs both.1)
    ]

-- An index whose names are in order, good, and, but for the temporal ones, fewer than 2 ^ 16 and of
-- registered identifiers, is flushed without an error. An index that is initialized from what was
-- flushed, on a host of the same or the other byte order, looks up by a name the identifier that
-- the first one looks up, but for a temporal name, which it does not have.
pub init_index-flush :
    (host other : Host) (ids : IdManager) (index fresh : Index) (name : List ℕ)
    → index.initialized ≡ true
    → fresh.initialized ≡ false
    → IsSorted index.id_by_name
    → All IsEntry index.id_by_name
    → All (IsRegistered ids) (stored index.id_by_name)
    → length (stored index.id_by_name) < 2 ^ 16
    → (d : IdMapping) × (out : Index) × (flush host index ≡ ok d)
      × (init_index other ids (some d) fresh ≡ ok out)
      × (find_id name out ≡ (
          if first_char name == temp_name_prefix then err invalid_argument else find_id name index))
unfolding flush init_index find_id fail_if_not_initialized
init_index-flush host other ids index fresh name ready idle s v known few =
    let m : NameMap = index.id_by_name in
    let (d, flushed, loaded) = load-store host other m s v few in
    (
      d,
      record { initialized = true; id_by_name = stored m },
      flushed,
      rw (idle, loaded, good_names ids m v known) refl,
      elim (Bool-cases (first_char name == temp_name_prefix)) [
        | inl temp ↦ rw (temp, find_name-temporal name m temp) refl
        | inr kept ↦ rw (kept, ready, find_name-stored name m kept) refl
      ],
    )
