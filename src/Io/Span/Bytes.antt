-- ===== src/Io/Span/Bytes.antt =====
-- The bytes of a buffer by their place, after a part is read out or written over.
use xoz.Base.{
  ℕ, zero, suc, ◌+◌, ◌-◌, ◌≤◌, ◌<◌, ◌≡◌, refl, ap, ◌∙◌, arith, ltb, leb, ◌&&◌, if◌then◌else◌, List,
  [], ◌∷◌, ◌++◌, length, take, drop, length-append, length-take, length-drop, Bool-cases, inl, inr,
}
use xoz.Io.Span.{overwrite}

abbrev pub byte_at : ℕ → List ℕ → ℕ
byte_at i [] = 0
byte_at zero (x ∷ xs) = x
byte_at (suc i) (x ∷ xs) = byte_at i xs

byte_at-drop : (i n : ℕ) (xs : List ℕ) → byte_at i (drop n xs) ≡ byte_at (n + i) xs
byte_at-drop i zero xs = let e : i ≡ 0 + i = omega arith in ap (λ (t : ℕ). byte_at t xs) e
byte_at-drop i (suc n) [] = refl
byte_at-drop i (suc n) (x ∷ xs) =
    let e : suc (n + i) ≡ suc n + i = omega arith in
    byte_at-drop i n xs ∙ ap (λ (t : ℕ). byte_at t (x ∷ xs)) e

byte_at-take : (i n : ℕ) (xs : List ℕ) → i < n → byte_at i (take n xs) ≡ byte_at i xs
byte_at-take i zero xs h = absurd (omega (arith, h))
byte_at-take i (suc n) [] h = refl
byte_at-take zero (suc n) (x ∷ xs) h = refl
byte_at-take (suc i) (suc n) (x ∷ xs) h = byte_at-take i n xs (omega (arith, h))

pub byte_at-slice :
    (i r n : ℕ) (xs : List ℕ) → i < n → byte_at i (take n (drop r xs)) ≡ byte_at (r + i) xs
byte_at-slice i r n xs h = byte_at-take i n (drop r xs) h ∙ byte_at-drop i r xs

pub length-slice : (r n : ℕ) (xs : List ℕ) → r + n ≤ length xs → length (take n (drop r xs)) ≡ n
length-slice r n xs h = omega (arith, length-take n (drop r xs), length-drop r xs)

byte_at-append :
    (i : ℕ) (xs ys : List ℕ)
    → byte_at i (xs ++ ys)
      ≡ (if ltb i (length xs) then byte_at i xs else byte_at (i - length xs) ys)
byte_at-append i [] ys = ground arith
byte_at-append zero (x ∷ xs) ys = ground arith
byte_at-append (suc i) (x ∷ xs) ys = ground (arith, byte_at-append i xs ys)

pub length-overwrite :
    (w : ℕ) (bytes xs : List ℕ)
    → w + length bytes ≤ length xs
    → length (overwrite w bytes xs) ≡ length xs
length-overwrite w bytes xs h =
    let front = length-take w xs in
    let back = length-drop (w + length bytes) xs in
    let inner = length-append bytes (drop (w + length bytes) xs) in
    let outer : length (overwrite w bytes xs)
        ≡ length (take w xs) + length (bytes ++ drop (w + length bytes) xs) =
      length-append (take w xs) (bytes ++ drop (w + length bytes) xs) in
    omega (arith, front, back, inner, outer)

pub byte_at-overwrite :
    (i w : ℕ) (bytes xs : List ℕ)
    → w + length bytes ≤ length xs
    → byte_at i (overwrite w bytes xs)
      ≡ (if leb w i && ltb i (w + length bytes) then byte_at (i - w) bytes else byte_at i xs)
byte_at-overwrite i w bytes xs h =
    let n : ℕ = length bytes in
    let rest : List ℕ = bytes ++ drop (w + n) xs in
    let front = length-take w xs in
    let outer : byte_at i (overwrite w bytes xs) ≡ (
        if ltb i (length (take w xs))
        then byte_at i (take w xs)
        else byte_at (i - length (take w xs)) rest) =
      byte_at-append i (take w xs) rest in
    elim (Bool-cases (ltb i w)) [
      | inl y ↦ ground (arith, y, front, outer, byte_at-take i w xs (ground (arith, y)), h)
      | inr o ↦
          let inner = byte_at-append (i - w) bytes (drop (w + n) xs) in
          let place : byte_at (i - length (take w xs)) rest ≡ byte_at (i - w) rest =
            ap (λ (t : ℕ). byte_at t rest) (omega (arith, front, h)) in
          elim (Bool-cases (ltb i (w + n))) [
            | inl y ↦ ground (arith, o, y, front, outer, inner, place, h)
            | inr p ↦
                let deep : byte_at (i - w - n) (drop (w + n) xs) ≡ byte_at i xs =
                  byte_at-drop (i - w - n) (w + n) xs
                  ∙ ap (λ (t : ℕ). byte_at t xs) (ground (arith, o, p)) in
                ground (arith, o, p, front, outer, inner, place, deep, h)
          ]
    ]
