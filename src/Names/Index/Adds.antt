-- ===== src/Names/Index/Adds.antt =====
-- What adding a name to the index does.
use xoz.Base.{
  ℕ, ◌≡◌, refl, arith, Bool, true, false, ◌||◌, if◌then◌else◌, List, [], ◌∷◌, Option, some, ok,
  runtime_error, ok-injective, >>-eq-ok, require-ok, All, All-map, Bool-cases, inl, inr,
}
use xoz.Ids.{IdManager}
use xoz.Names.{NameMap, name_less, assign}
use xoz.Names.Index.{
  Index, find_name, fail_if_not_initialized, fail_if_bad_name, fail_if_taken, add_name, find_id,
}
use xoz.Names.Order.{IsAbove, IsSorted}
use mathlib.Core.Path.{subst}

name_less_trans :
    (xs ys zs : List ℕ) → name_less xs ys ≡ true → name_less ys zs ≡ true → name_less xs zs ≡ true
unfolding name_less
name_less_trans [] [] zs h k = cc
name_less_trans [] (y ∷ ys) [] h k = cc
name_less_trans [] (y ∷ ys) (z ∷ zs) h k = refl
name_less_trans (x ∷ xs) [] zs h k = cc
name_less_trans (x ∷ xs) (y ∷ ys) [] h k = cc
name_less_trans (x ∷ xs) (y ∷ ys) (z ∷ zs) h k = ground (arith, h, k, name_less_trans xs ys zs)

pub name_less-total : (xs ys : List ℕ) → name_less xs ys ≡ false → name_less ys xs ≡ false → xs ≡ ys
unfolding name_less
name_less-total [] [] h k = refl
name_less-total [] (y ∷ ys) h k = cc
name_less-total (x ∷ xs) [] h k = cc
name_less-total (x ∷ xs) (y ∷ ys) h k =
    let same : x ≡ y = ground (arith, h, k) in
    let rest : xs ≡ ys = ground (arith, h, k, name_less-total xs ys) in λ i. same i ∷ rest i

nested :
    (b : Bool) (x y z : Option ℕ) → (if b then x else z) ≡ (if b then (if b then x else y) else z)
nested true x y z = refl
nested false x y z = refl

find_name-assign :
    (other name : List ℕ) (id : ℕ) (m : NameMap)
    → find_name other (assign name id m)
      ≡ (if name_less other name || name_less name other then find_name other m else some id)
unfolding find_name assign
find_name-assign other name id [] = refl
find_name-assign other name id ((k, v) ∷ m) = elim (Bool-cases (name_less name k)) [
  | inl before ↦ rw before refl
  | inr not_before ↦ elim (Bool-cases (name_less k name)) [
    | inl after ↦ elim (Bool-cases (name_less other k || name_less k other)) [
      | inl apart ↦ rw (not_before, after, apart) (find_name-assign other name id m)
      | inr together ↦
          let same =
            name_less-total k other (ground (arith, together)) (ground (arith, together)) in
          let less : name_less other name ≡ true =
            subst (λ (n : List ℕ). name_less n name ≡ true) same after in
          rw (not_before, after, together, less) refl
    ]
    | inr not_after ↦
        let same = name_less-total name k not_before not_after in
        rw (not_before, not_after, same)
          (nested (name_less other k || name_less k other) (find_name other m) (some v) (some id))
  ]
]

assign-IsAbove :
    (low name : List ℕ) (id : ℕ) (m : NameMap)
    → name_less low name ≡ true
    → All (IsAbove low) m
    → All (IsAbove low) (assign name id m)
unfolding assign
assign-IsAbove low name id [] h v = (h, tt)
assign-IsAbove low name id ((k, v) ∷ m) h (a, rest) = elim (Bool-cases (name_less name k)) [
  | inl before ↦ rw before (h, (a, rest))
  | inr not_before ↦ elim (Bool-cases (name_less k name)) [
    | inl after ↦ rw (not_before, after) (a, assign-IsAbove low name id m h rest)
    | inr not_after ↦ rw (not_before, not_after) (a, rest)
  ]
]

assign-IsSorted : (name : List ℕ) (id : ℕ) (m : NameMap) → IsSorted m → IsSorted (assign name id m)
unfolding assign
assign-IsSorted name id [] s = (tt, tt)
assign-IsSorted name id ((k, v) ∷ m) (h, hs) = elim (Bool-cases (name_less name k)) [
  | inl before ↦ rw before (
    (before, All-map (λ e (below : IsAbove k e). name_less_trans name k e.0 before below) m h),
    (h, hs),
  )
  | inr not_before ↦ elim (Bool-cases (name_less k name)) [
    | inl after ↦
        rw (not_before, after) (assign-IsAbove k name id m after h, assign-IsSorted name id m hs)
    | inr not_after ↦ rw (not_before, not_after) (h, hs)
  ]
]

name_less_irrefl : (xs : List ℕ) → name_less xs xs ≡ false
unfolding name_less
name_less_irrefl [] = refl
name_less_irrefl (x ∷ xs) = ground (arith, name_less_irrefl xs)

-- Where a name is added without an error, the index looks up the identifier by it, looks up by every
-- other name what it did before, and keeps its names in order.
pub find_id-add_name :
    (ids : IdManager) (name other : List ℕ) (id : ℕ) (override_if_exists temporal : Bool)
    (index out : Index)
    → add_name ids name id override_if_exists temporal index ≡ ok out
    → (find_id name out ≡ ok id)
      × ((name_less other name || name_less name other) ≡ true
          → find_id other out ≡ find_id other index)
      × (IsSorted index.id_by_name → IsSorted out.id_by_name)
unfolding add_name find_id fail_if_not_initialized
find_id-add_name ids name other id override_if_exists temporal index out h =
    let (ready, a) = >>-eq-ok (fail_if_not_initialized index) _ h in
    let (_, b) = >>-eq-ok (fail_if_bad_name ids name id temporal) _ a in
    let (_, done) =
      >>-eq-ok (fail_if_taken (find_name name index.id_by_name) id override_if_exists) _ b in
    let m : NameMap = index.id_by_name in
    let initialized = require-ok index.initialized runtime_error ready in
    let self : (name_less name name || name_less name name) ≡ false =
      ground (arith, name_less_irrefl name) in
    let mine : find_name name (assign name id m) ≡ some id =
      rw self at (find_name-assign name name id m) in
    subst
      (λ (x : Index).
        (find_id name x ≡ ok id)
        × ((name_less other name || name_less name other) ≡ true
            → find_id other x ≡ find_id other index)
        × (IsSorted index.id_by_name → IsSorted x.id_by_name))
      (ok-injective done)
      (
        rw (initialized, mine) refl,
        (λ apart. rw (initialized, rw apart at (find_name-assign other name id m)) refl),
        (λ sorted. assign-IsSorted name id m sorted),
      )
