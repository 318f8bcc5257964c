-- ===== src/Mem/Checksum/Laws.antt =====
-- Sums in ones' complement: a fold keeps the value modulo 0xffff, and so does every other step.
use xoz.Base.{
  ℕ, ◌+◌, ◌-◌, ◌*◌, ◌/◌, ◌%◌, ◌^◌, ◌≤◌, ◌<◌, lt_wf, arith, List, [], ◌∷◌, ◌++◌, true, ◌≡◌, refl, ap,
  length, All, ok, ◌↔◌, ◌⊎◌, length-append, All-append,
}
use xoz.Mem.Checksum.{
  inet_checksum_val, inet_checksum_val-mod, val_shrinks, fold_loop, fold_inet_checksum, sum_words,
  inet_checksum_words, inet_add, inet_remove, is_inet_checksum_good,
}
use mathlib.Core.WellFounded.{Acc}
use mathlib.Core.Logic.{dif_pos, dif_neg}
use native.Mathlib.Decide.{dec_lt}
use native.Mathlib.Bridge.{le_prop}
use native.Mathlib.Nat.{mod-eq_of_lt}

-- Two values that stand for one number in ones' complement, of which 0 alone is written 0.
pub record Folds (x y : ℕ) : Type 0 where
  pub fits : y < 2 ^ 16
  pub same : y % 0xffff ≡ x % 0xffff
  pub zero_only : (y ≡ 0) ↔ (x ≡ 0)

val-Folds : (x y : ℕ) → Folds (inet_checksum_val x) y → Folds x y
val-Folds x y f = record {
  fits = f.fits;
  same = omega (arith, inet_checksum_val-mod x);
  zero_only = (
    (λ e. omega (arith, f.zero_only.0 e, inet_checksum_val-mod x)),
    (λ e. f.zero_only.1 (omega (arith, inet_checksum_val-mod x))),
  );
}

fold_loop-Folds : (x : ℕ) (w : Acc ◌<◌ x) → Folds x (fold_loop x w)
unfolding fold_loop
fold_loop-Folds x (Acc.intro _ smaller) = elim (dec_lt 0 (x / 2 ^ 16)) [
  | yes more ↦
      rw (dif_pos _ le_prop more _ _)
        (val-Folds x _ (fold_loop-Folds (inet_checksum_val x) (smaller _ (val_shrinks x more))))
  | no done ↦
      rw (dif_neg _ done _ _)
        (record { fits = omega arith; same = refl; zero_only = ((λ e. e), (λ e. e)) })
]

-- There is one such value.
Folds-unique : (x y z : ℕ) → Folds x y → Folds x z → y ≡ z
Folds-unique x y z p q = grind arith

pub fold_inet_checksum-Folds : (x : ℕ) → Folds x (fold_inet_checksum x)
unfolding fold_inet_checksum
fold_inet_checksum-Folds x = fold_loop-Folds x (lt_wf.apply x)

abbrev pub IsWord : ℕ → Type 0
IsWord x = x < 2 ^ 16

abbrev pub total : List ℕ → ℕ
total [] = 0
total (x ∷ xs) = x + total xs

total-le : (xs : List ℕ) → All IsWord xs → total xs ≤ 0xffff * length xs
total-le [] h = omega arith
total-le (x ∷ xs) h = omega (arith, total-le xs h.1)

total-append : (xs ys : List ℕ) → total (xs ++ ys) ≡ total xs + total ys
total-append [] ys = omega arith
total-append (x ∷ xs) ys = omega (arith, total-append xs ys)

sum_words-total : (c : ℕ) (xs : List ℕ) → c + total xs < 2 ^ 32 → sum_words c xs ≡ c + total xs
unfolding sum_words
sum_words-total c [] h = omega arith
sum_words-total c (x ∷ xs) h = omega (
  arith,
  ap (λ t. sum_words t xs) (mod-eq_of_lt {n = c + x} {m = 2 ^ 32} (omega arith)),
  sum_words-total (c + x) xs (omega arith),
)

-- The checksum of at most 0xffff words is the ones' complement sum of the words: it fits 16 bits,
-- it is congruent to the exact sum modulo 0xffff, and it is 0 just if the exact sum is 0, so the
-- 32-bit accumulator never wraps.
pub inet_checksum_words-Folds :
    (xs : List ℕ) → All IsWord xs → length xs ≤ 0xffff → Folds (total xs) (inet_checksum_words xs)
unfolding inet_checksum_words
inet_checksum_words-Folds xs h n =
    let e : sum_words 0 xs ≡ total xs =
      omega (arith, sum_words-total 0 xs (omega (arith, total-le xs h)), total-le xs h) in
    rw e (fold_inet_checksum-Folds (total xs))

Folds-shift : (s y : ℕ) → 0 < s → Folds (s + 0xffff) y → Folds s y
Folds-shift s y hs f = record {
  fits = f.fits;
  same = omega (arith, f.same);
  zero_only = ((λ e. absurd (omega (arith, f.zero_only.0 e))), (λ e. absurd (omega arith)));
}

-- Removing a checksum that was added gives the folded value back, if the value was above 0 and the
-- sums fit 32 bits.
pub remove-add :
    (s a : ℕ)
    → 0 < s
    → IsWord a
    → s + a + 0xffff < 2 ^ 32
    → fold_inet_checksum (inet_remove (inet_add s a) a) ≡ fold_inet_checksum s
unfolding inet_add inet_remove
remove-add s a hs ha h =
    let e : ((s + a) % 2 ^ 32 + (0xffff - a)) % 2 ^ 32 ≡ s + 0xffff = omega arith in
    rw e (
      Folds-unique s _ _ (Folds-shift s _ hs (fold_inet_checksum-Folds (s + 0xffff)))
        (fold_inet_checksum-Folds s))

good_cases :
    (t c d : ℕ) → Folds t c → Folds (t + (0xffff - c + 0)) d → is_inet_checksum_good d ≡ ok true
unfolding is_inet_checksum_good
good_cases t c d f g =
    let e : (d ≡ 0) ⊎ (d ≡ 0xffff) = grind (arith, f.fits, f.same, g.fits, g.same) in ground arith

-- Less than 0xffff words of 16 bits followed by the complement of their checksum check as good.
pub is_inet_checksum_good-complement :
    (xs : List ℕ)
    → All IsWord xs
    → length xs < 0xffff
    → is_inet_checksum_good (inet_checksum_words (xs ++ (0xffff - inet_checksum_words xs) ∷ []))
      ≡ ok true
unfolding is_inet_checksum_good
is_inet_checksum_good-complement xs h n =
    let c : ℕ = inet_checksum_words xs in
    let f = inet_checksum_words-Folds xs h (omega arith) in
    let ys : List ℕ = xs ++ (0xffff - c) ∷ [] in
    let g =
      inet_checksum_words-Folds ys (All-append IsWord xs _ h (omega arith, tt))
        (omega (arith, length-append xs ((0xffff - c) ∷ []))) in
    good_cases (total xs) c (inet_checksum_words ys) f
      (rw (total-append xs ((0xffff - c) ∷ [])) at g)
