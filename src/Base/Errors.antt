-- ===== src/Base/Errors.antt =====
-- Results of code that throws or aborts. `abort` is a failed assertion of a debug build; each other
-- error is the exception class, or the plain value, that the source throws.
use mathlib.Core.Path.{◌≡◌, refl, ap}
use mathlib.Core.Bool.{Bool, true, false}

pub data Error : Type 0 where
  abort : Error
  runtime_error : Error
  overflow_error : Error
  invalid_argument : Error
  text_thrown : Error
  extent_overlap : Error
  extent_out_of_bounds : Error
  not_enough_room : Error
  unexpected_shorten : Error
  inconsistent_xoz : Error
  would_end_up_inconsistent : Error

pub data Result {ℓ} (A : Type ℓ) : Type ℓ where
  err : Error → Result A
  ok : A → Result A

-- Goes on when the test holds, and fails with the given error otherwise.
abbrev pub require : Bool → Error → Result (Unit {0})
require true why = ok tt
require false why = err why

abbrev pub assert : Bool → Result (Unit {0})
assert b = require b abort

-- An error ends the code that follows it.
infixl 5 ◌>>=◌ ◌>>◌
abbrev pub ◌>>=◌ {ℓ ℓ'} :
    {In : Type ℓ} {Out : Type ℓ'} (first : Result In) (next : In → Result Out) → Result Out
err why >>= next = err why
ok value >>= next = next value

abbrev pub ◌>>◌ {ℓ'} : {Out : Type ℓ'} (first : Result (Unit {0})) (next : Result Out) → Result Out
first >> next = first >>= λ done. next

-- Where a chain succeeds its first step did, and what follows succeeds on its value.
pub >>=-eq-ok {ℓ ℓ'} :
    {In : Type ℓ} {Out : Type ℓ'} (first : Result In) (next : In → Result Out) {out : Out}
    → (first >>= next) ≡ ok out
    → (mid : In) × (first ≡ ok mid) × (next mid ≡ ok out)
>>=-eq-ok (err why) next done = cc
>>=-eq-ok (ok mid) next done = (mid, refl, done)

-- Where a check and what follows it succeed, the check held.
pub require-ok : (b : Bool) (why : Error) → require b why ≡ ok tt → b ≡ true
require-ok true why h = refl
require-ok false why h = cc

pub >>-eq-ok {ℓ} :
    {Out : Type ℓ} (first : Result (Unit {0})) (next : Result Out) {out : Out}
    → (first >> next) ≡ ok out
    → (first ≡ ok tt) × (next ≡ ok out)
>>-eq-ok (err why) next done = cc
>>-eq-ok (ok mid) next done = (refl, done)

abbrev pub value_or {ℓ} : {A : Type ℓ} → A → Result A → A
value_or a (err why) = a
value_or a (ok value) = value

pub ok-injective {ℓ} : {A : Type ℓ} {x y : A} → ok x ≡ ok y → x ≡ y
ok-injective {A = A} {x = x} e = ap (λ (r : Result A). value_or x r) e
