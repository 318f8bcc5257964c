-- ===== src/Mem/Checksum.antt =====
-- xoz/mem/inet_checksum.h: the internet checksum, RFC 1071.
pub mod Laws
pub mod Stream
use xoz.Base.{
  ℕ, ◌+◌, ◌-◌, ◌*◌, ◌/◌, ◌%◌, ◌^◌, ◌≤◌, ◌<◌, lt_wf, arith, bit_and, List, [], ◌∷◌, Bool, ◌||◌, ◌==◌,
  Result, ok, err, runtime_error, if◌then◌else◌, ◌≡◌,
}
use xoz.Base.Bits.{bit_and_mod}
use xoz.Mem.Endian.{Host, load_u16}
use mathlib.Core.Logic.{dite}
use mathlib.Core.WellFounded.{Acc}
use native.Mathlib.Decide.{dec_lt}

-- `(val >> 16) + (val & 0xffff)`
unfoldable pub inet_checksum_val : ℕ → ℕ
inet_checksum_val val = val / 2 ^ 16 + bit_and val 0xffff

pub inet_checksum_val-mod : (x : ℕ) → inet_checksum_val x ≡ x / 2 ^ 16 + x % 2 ^ 16
unfolding inet_checksum_val
inet_checksum_val-mod x = omega (arith, bit_and_mod 16 x)

pub val_shrinks : (x : ℕ) → 0 < x / 2 ^ 16 → inet_checksum_val x < x
val_shrinks x h = omega (arith, inet_checksum_val-mod x)

-- `while (checksum >> 16) checksum = inet_checksum(checksum);`
fold_loop : (x : ℕ) → Acc ◌<◌ x → ℕ
fold_loop x (Acc.intro _ smaller) =
    dite (dec_lt 0 (x / 2 ^ 16))
      (λ more. fold_loop (inet_checksum_val x) (smaller _ (val_shrinks x more))) (λ _. x)

unfoldable pub fold_inet_checksum : ℕ → ℕ
unfolding fold_loop lt_wf dec_lt
fold_inet_checksum checksum = fold_loop checksum (lt_wf.apply checksum)

-- `checksum += buf[ix]` over 16-bit words, in uint32_t.
sum_words : ℕ → List ℕ → ℕ
sum_words checksum [] = checksum
sum_words checksum (x ∷ buf) = sum_words ((checksum + x) % 2 ^ 32) buf

unfoldable pub inet_checksum_words : List ℕ → ℕ
unfolding sum_words
inet_checksum_words buf = fold_inet_checksum (sum_words 0 buf)

-- The bytes of a buffer read as 16-bit words, the way the host loads them.
unfoldable pub words_of : Host → List ℕ → List ℕ
words_of host [] = []
words_of host (b ∷ []) = []
words_of host (b0 ∷ b1 ∷ bytes) = load_u16 host b0 b1 ∷ words_of host bytes

-- The overload on bytes. The caller passes an even count of them, at most twice 0xffff.
unfoldable pub inet_checksum_bytes : Host → List ℕ → ℕ
unfolding words_of
inet_checksum_bytes host buf = inet_checksum_words (words_of host buf)

unfoldable pub is_inet_checksum_good : ℕ → Result Bool
is_inet_checksum_good checksum =
    if checksum / 2 ^ 16 == 0
    then ok (checksum % 2 ^ 16 == 0 || checksum % 2 ^ 16 == 0xffff)
    else err runtime_error

unfoldable pub inet_add : ℕ → ℕ → ℕ
inet_add checksum add_checksum = (checksum + add_checksum) % 2 ^ 32

-- `checksum + uint16_t(~remove_checksum)`
unfoldable pub inet_remove : ℕ → ℕ → ℕ
inet_remove checksum remove_checksum = (checksum + (0xffff - remove_checksum)) % 2 ^ 32

unfoldable pub inet_to_u16 : ℕ → ℕ
inet_to_u16 checksum = fold_inet_checksum checksum % 2 ^ 16
