-- ===== src/Names.antt =====
-- xoz/dsc/id_mapping.h and xoz/file/index.h: names, and maps from names to identifiers. A name is the
-- list of its bytes, and a map is a list in the order of its names, as `std::map` keeps it.
pub mod IdMapping
pub mod Order
pub mod StoreLoad
pub mod Index
use xoz.Base.{
  ℕ, Bool, true, false, not, ◌&&◌, ◌||◌, ltb, ◌==◌, if◌then◌else◌, List, [], ◌∷◌, Option, some,
  none,
}

-- `<` on strings: by the first byte that differs.
unfoldable pub name_less : List ℕ → List ℕ → Bool
name_less [] [] = false
name_less [] (y ∷ ys) = true
name_less (x ∷ xs) [] = false
name_less (x ∷ xs) (y ∷ ys) =
    let rest = name_less xs ys in if ltb x y then true else (if ltb y x then false else rest)

unfoldable pub same_name : List ℕ → List ℕ → Bool
same_name [] [] = true
same_name [] (y ∷ ys) = false
same_name (x ∷ xs) [] = false
same_name (x ∷ xs) (y ∷ ys) = let rest = same_name xs ys in x == y && rest

-- `name[0]`, which is the terminator of an empty name.
abbrev pub first_char : List ℕ → ℕ
first_char [] = 0
first_char (c ∷ name) = c

-- '~'
abbrev pub temp_name_prefix : ℕ
temp_name_prefix = 126

abbrev pub NameMap : Type 0
NameMap = List (List ℕ × ℕ)

-- `id_by_name[name] = id`
unfoldable pub assign : List ℕ → ℕ → NameMap → NameMap
assign name id [] = (name, id) ∷ []
assign name id ((k, v) ∷ m) =
    let rest = assign name id m in
    if name_less name k
    then (name, id) ∷ (k, v) ∷ m
    else (if name_less k name then (k, v) ∷ rest else (k, id) ∷ m)
