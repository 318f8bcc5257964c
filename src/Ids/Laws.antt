-- ===== src/Ids/Laws.antt =====
-- Fresh identifiers are fresh, and the set stays in order.
use xoz.Base.{
  ℕ, ◌+◌, ◌%◌, ◌-◌, ◌^◌, ◌<◌, ◌≤◌, ◌≡◌, ◌↔◌, refl, sym, ◌∙◌, ap, arith, Bool, true, false, ◌||◌,
  ◌==◌, ltb, leb, List, [], ◌∷◌, Result, ok, err, runtime_error, ◌>>=◌, Bool-cases, inl, inr,
}
use xoz.Base.Bits.{bit_and_field}
use mathlib.Core.Path.{subst}
use xoz.Ids.{
  IdManager, set_insert, set_contains, set_erase, greatest, is_undefined, is_temporal,
  is_persistent, register_persistent_id, next_id, request_persistent_id, is_registered,
  unregister_persistent_id,
}

-- Ascending, above a bound, and below the temporal identifiers.
abbrev pub Ascends : ℕ → List ℕ → Type 0
Ascends low [] = Unit {0}
Ascends low (x ∷ xs) = (low < x) × (x < 2 ^ 31) × Ascends x xs

abbrev pub IsManager : IdManager → Type 0
IsManager m = Ascends 0 m.persistent_ids

pub is_temporal-leb : (id : ℕ) → id < 2 ^ 32 → is_temporal id ≡ leb (2 ^ 31) id
unfolding is_temporal is_undefined
is_temporal-leb id h = ground (arith, bit_and_field 31 1 id)

set_insert-Ascends :
    (id low : ℕ) (xs : List ℕ)
    → low < id
    → id < 2 ^ 31
    → Ascends low xs
    → Ascends low (set_insert id xs).0
unfolding set_insert
set_insert-Ascends id low [] h k v = (h, k, tt)
set_insert-Ascends id low (x ∷ xs) h k (a, b, c) = grind (arith, set_insert-Ascends id x xs)

set_contains-set_insert :
    (z id : ℕ) (xs : List ℕ) → set_contains z (set_insert id xs).0 ≡ (z == id || set_contains z xs)
unfolding set_insert set_contains
set_contains-set_insert z id [] = refl
set_contains-set_insert z id (x ∷ xs) = ground (arith, set_contains-set_insert z id xs)

-- What was not in the set is inserted.
pub set_insert-new :
    (id : ℕ) (xs : List ℕ) → set_contains id xs ≡ false → (set_insert id xs).1 ≡ true
unfolding set_insert set_contains
set_insert-new id [] h = refl
set_insert-new id (x ∷ xs) h = ground (arith, h, set_insert-new id xs)

greatest-le : (x : ℕ) (xs : List ℕ) (low : ℕ) → Ascends low (x ∷ xs) → low < greatest x xs
unfolding greatest
greatest-le x [] low (a, b, c) = a
greatest-le x (y ∷ ys) low (a, b, c) = omega (arith, greatest-le y ys x c)

above_all : (z low : ℕ) (xs : List ℕ) → Ascends low xs → z ≤ low → set_contains z xs ≡ false
unfolding set_contains
above_all z low [] v h = refl
above_all z low (x ∷ xs) (a, b, c) h = ground (arith, above_all z x xs c (omega arith))

past_greatest :
    (z x : ℕ) (xs : List ℕ) {low : ℕ}
    → Ascends low (x ∷ xs)
    → greatest x xs < z
    → set_contains z (x ∷ xs) ≡ false
unfolding set_contains greatest
past_greatest z x [] v h = ground arith
past_greatest z x (y ∷ ys) (a, b, c) h =
    ground (arith, past_greatest z y ys c h, greatest-le y ys x c)

greatest-lt : (x : ℕ) (xs : List ℕ) {low : ℕ} → Ascends low (x ∷ xs) → greatest x xs < 2 ^ 31
unfolding greatest
greatest-lt x [] (a, b, c) = b
greatest-lt x (y ∷ ys) (a, b, c) = greatest-lt y ys c

contains-greatest : (x : ℕ) (xs : List ℕ) → set_contains (greatest x xs) (x ∷ xs) ≡ true
unfolding set_contains greatest
contains-greatest x [] = ground arith
contains-greatest x (y ∷ ys) = ground (arith, contains-greatest y ys)

-- The identifier that follows the greatest one.
next_id_cases :
    (xs : List ℕ)
    → Ascends 0 xs
    → (0 < next_id xs)
      × (next_id xs ≤ 2 ^ 31)
      × (set_contains (next_id xs) xs ≡ false)
      × ((next_id xs ≡ 2 ^ 31) ↔ (set_contains (2 ^ 31 - 1) xs ≡ true))
unfolding next_id
next_id_cases [] v =
    unfold set_contains in
    (omega arith, omega arith, refl, ((λ e. absurd (omega (arith, e))), (λ e. ground arith)))
next_id_cases (x ∷ xs) v =
    let top = greatest-lt x xs v in
    let small : (greatest x xs + 1) % 2 ^ 32 ≡ greatest x xs + 1 = omega arith in
    rw small (
      omega arith,
      omega arith,
      past_greatest (greatest x xs + 1) x xs v (omega arith),
      (
        (λ e. ground (arith, contains-greatest x xs)),
        (λ e. ground (arith, past_greatest (2 ^ 31 - 1) x xs v)),
      ),
    )

-- The identifiers after a request, given those before it.
abbrev pub Hands : IdManager → ℕ → ℕ × IdManager → Type 0
Hands m z (id, m') =
    (set_contains id m.persistent_ids ≡ false)
    × (is_persistent id ≡ true)
    × (set_contains z m'.persistent_ids ≡ (z == id || set_contains z m.persistent_ids))
    × IsManager m'

request_persistent_id-ok :
    (m : IdManager)
    → next_id m.persistent_ids < 2 ^ 31
    → 0 < next_id m.persistent_ids
    → request_persistent_id m
      ≡ ok (
        next_id m.persistent_ids,
        record m { persistent_ids = (set_insert (next_id m.persistent_ids) m.persistent_ids).0 },
      )
unfolding request_persistent_id register_persistent_id is_undefined
request_persistent_id-ok m h k =
    ground (arith, is_temporal-leb (next_id m.persistent_ids) (omega arith))

handed :
    (m : IdManager) (z : ℕ)
    → IsManager m
    → next_id m.persistent_ids < 2 ^ 31
    → Hands m z (
      next_id m.persistent_ids,
      record m { persistent_ids = (set_insert (next_id m.persistent_ids) m.persistent_ids).0 },
    )
unfolding is_persistent is_undefined
handed m z v h =
    let xs : List ℕ = m.persistent_ids in
    let (pos, _, new, _) = next_id_cases xs v in
    (
      new,
      ground (arith, is_temporal-leb (next_id xs) (omega arith)),
      set_contains-set_insert z (next_id xs) xs,
      set_insert-Ascends (next_id xs) 0 xs pos h v,
    )

abbrev value_or {ℓ} : {A : Type ℓ} → A → Result A → A
value_or a (ok b) = b
value_or a (err e) = a

request_fails :
    (m : IdManager)
    → IsManager m
    → ltb (next_id m.persistent_ids) (2 ^ 31) ≡ false
    → request_persistent_id m ≡ err runtime_error
unfolding request_persistent_id register_persistent_id is_undefined
request_fails m v n =
    let (pos, le, _, _) = next_id_cases m.persistent_ids v in
    ground (arith, is_temporal-leb (next_id m.persistent_ids) (omega arith))

-- A persistent identifier that is handed out was not taken and is persistent; from then on just it
-- and those taken before are taken, and the set stays in order.
pub request_persistent_id-fresh :
    (m m' : IdManager) (id z : ℕ)
    → IsManager m
    → request_persistent_id m ≡ ok (id, m')
    → Hands m z (id, m')
request_persistent_id-fresh m m' id z v h =
    let xs : List ℕ = m.persistent_ids in
    let new : IdManager = record m { persistent_ids = (set_insert (next_id xs) xs).0 } in
    let (pos, _, _, _) = next_id_cases xs v in
    elim (Bool-cases (ltb (next_id xs) (2 ^ 31))) [
      | inl y ↦
          let small : next_id xs < 2 ^ 31 = ground arith in
          let e = sym (request_persistent_id-ok m small pos) ∙ h in
          let same : (next_id xs, new) ≡ (id, m') =
            ap (λ (r : Result (ℕ × IdManager)). value_or (next_id xs, new) r) e in
          subst (λ p. Hands m z p) same (handed m z v small)
      | inr n ↦ absurd (ground (arith, h, request_fails m v n))
    ]

-- Handing out a persistent identifier fails just if 2 ^ 31 - 1 is taken, however many below it are
-- free.
pub request_persistent_id-exhausted :
    (m : IdManager)
    → IsManager m
    → (request_persistent_id m ≡ err runtime_error)
      ↔ (set_contains (2 ^ 31 - 1) m.persistent_ids ≡ true)
request_persistent_id-exhausted m v =
    let (pos, le, _, full) = next_id_cases m.persistent_ids v in
    elim (Bool-cases (ltb (next_id m.persistent_ids) (2 ^ 31))) [
      | inl y ↦
          let fine = request_persistent_id-ok m (ground arith) pos in
          ((λ e. absurd (ground (arith, fine, e))), (λ e. absurd (ground (arith, full.1 e))))
      | inr n ↦ ((λ e. full.0 (ground arith)), (λ e. request_fails m v n))
    ]

set_erase-set_insert :
    (id low : ℕ) (xs : List ℕ)
    → Ascends low xs
    → set_contains id xs ≡ false
    → set_erase id (set_insert id xs).0 ≡ xs
unfolding set_erase set_insert set_contains
set_erase-set_insert id low [] v h = ground arith
set_erase-set_insert id low (x ∷ xs) (a, b, c) h = ground (arith, set_erase-set_insert id x xs c)

-- Registering a persistent identifier that is not taken, and taking it away again, gives the manager
-- back without an error.
pub unregister-register :
    (m : IdManager) (id : ℕ)
    → IsManager m
    → is_persistent id ≡ true
    → set_contains id m.persistent_ids ≡ false
    → (register_persistent_id id m >>= λ (p : IdManager × Bool). unregister_persistent_id id p.0)
      ≡ ok m
unfolding register_persistent_id unregister_persistent_id is_registered is_persistent
unregister-register m id v h n =
    let back = set_erase-set_insert id 0 m.persistent_ids v n in
    let there = set_contains-set_insert id id m.persistent_ids in ground (arith, back, there)
