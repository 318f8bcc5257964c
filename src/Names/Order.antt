-- ===== src/Names/Order.antt =====
-- Maps in the order of their names.
use xoz.Base.{ℕ, ◌≡◌, refl, arith, true, false, ◌==◌, if◌then◌else◌, List, [], ◌∷◌, ◌++◌, All}
use xoz.Names.{name_less, first_char, temp_name_prefix, NameMap, assign}

pub name_less-asym : (xs ys : List ℕ) → name_less xs ys ≡ true → name_less ys xs ≡ false
unfolding name_less
name_less-asym [] [] h = refl
name_less-asym [] (y ∷ ys) h = refl
name_less-asym (x ∷ xs) [] h = cc
name_less-asym (x ∷ xs) (y ∷ ys) h = ground (arith, h, name_less-asym xs ys)

abbrev pub IsAbove : List ℕ → (List ℕ × ℕ) → Type 0
IsAbove low e = name_less low e.0 ≡ true

-- Each name is below all those that follow it.
abbrev pub IsSorted : NameMap → Type 0
IsSorted [] = Unit {0}
IsSorted (e ∷ m) = All (IsAbove e.0) m × IsSorted m

abbrev pub IsBelow : List ℕ → (List ℕ × ℕ) → Type 0
IsBelow name e = name_less e.0 name ≡ true

-- A name above all others goes to the end.
pub assign-last :
    (name : List ℕ) (id : ℕ) (m : NameMap)
    → All (IsBelow name) m
    → assign name id m ≡ m ++ (name, id) ∷ []
unfolding assign
assign-last name id [] v = refl
assign-last name id ((k, v) ∷ m) (h, hs) =
    rw (name_less-asym k name h, h, assign-last name id m hs) refl

-- The entries that are stored.
abbrev pub stored : NameMap → NameMap
stored [] = []
stored ((name, id) ∷ m) =
    if first_char name == temp_name_prefix then stored m else (name, id) ∷ stored m

pub All-stored : (P : List ℕ × ℕ → Type 0) (m : NameMap) → All P m → All P (stored m)
All-stored P [] v = tt
All-stored P ((name, id) ∷ m) (h, hs) =
    elim (first_char name == temp_name_prefix)
      as (λ b. All P (if b then stored m else (name, id) ∷ stored m)) [
        | true ↦ All-stored P m hs
        | false ↦ (h, All-stored P m hs)
      ]

pub stored-IsSorted : (m : NameMap) → IsSorted m → IsSorted (stored m)
stored-IsSorted [] v = tt
stored-IsSorted ((name, id) ∷ m) (h, hs) =
    elim (first_char name == temp_name_prefix)
      as (λ b. IsSorted (if b then stored m else (name, id) ∷ stored m)) [
        | true ↦ stored-IsSorted m hs
        | false ↦ (All-stored (IsAbove name) m h, stored-IsSorted m hs)
      ]
