-- ===== src/Mem/Checksum/Stream.antt =====
-- xoz/mem/inet_checksum.cpp: the checksum of a part of a stream, in batches of 64 bytes.
use xoz.Base.{
  ℕ, zero, suc, ◌+◌, ◌*◌, ◌/◌, ◌%◌, ◌^◌, bit_or, List, [], ◌∷◌, length, take, drop, Result, ok,
  ◌==◌, assert, ◌>>=◌, ◌>>◌,
}
use xoz.Mem.Checksum.{fold_inet_checksum}
use xoz.Mem.Endian.{Host, read_u16_from_le}
use xoz.Mem.Ints.{assert_integral_cast}

unfoldable pub sum_batch : ℕ → List ℕ → ℕ
sum_batch checksum [] = checksum
sum_batch checksum (b0 ∷ []) = checksum
sum_batch checksum (b0 ∷ b1 ∷ buf) =
    sum_batch ((checksum + bit_or (b1 * 2 ^ 8) b0 % 2 ^ 16) % 2 ^ 32) buf

-- What is left after the batches is read by the host's loads.
unfoldable pub sum_remain : Host → ℕ → List ℕ → ℕ
sum_remain host checksum [] = checksum
sum_remain host checksum (b0 ∷ []) = checksum
sum_remain host checksum (b0 ∷ b1 ∷ buf) =
    sum_remain host ((checksum + read_u16_from_le host b0 b1) % 2 ^ 32) buf

unfoldable pub sum_batches : Host → ℕ → ℕ → List ℕ → ℕ
unfolding sum_batch sum_remain
sum_batches host zero checksum bytes = fold_inet_checksum (sum_remain host checksum bytes)
sum_batches host (suc batches) checksum bytes =
    sum_batches host batches (fold_inet_checksum (sum_batch checksum (take 64 bytes)))
      (drop 64 bytes)

-- The bytes are those from the begin position to the end position.
unfoldable pub inet_checksum_io : Host → List ℕ → Result ℕ
unfolding sum_batches
inet_checksum_io host bytes = do
  assert (length bytes % 2 == 0)
  _ ← assert_integral_cast 16 (length bytes / 2)
  ok (sum_batches host (length bytes / 64) 0 bytes)
