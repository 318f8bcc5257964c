-- ===== src/Names/IdMapping.antt =====
-- xoz/dsc/id_mapping.cpp: the descriptor that stores which name stands for which identifier.
use xoz.Base.{
  ℕ, zero, suc, Bool, ◌+◌, ◌%◌, ◌^◌, bit_and, not, ◌||◌, leb, ◌==◌, if◌then◌else◌, List, [], ◌∷◌,
  length, Result, ok, runtime_error, require, assert, ◌>>=◌, ◌>>◌,
}
use xoz.Io.Stream.{Writer, writeall, readall, write_u32, read_u32, write_u8, read_u8}
use xoz.Mem.Endian.{Host}
use xoz.Mem.Ints.{assert_integral_cast}
use xoz.Names.{NameMap, first_char, temp_name_prefix, same_name, assign}

-- The entries count of the structure, and the bytes of the content part `Map`. The part itself, which
-- is resized to the exact count of bytes, belongs to the descriptor.
pub record IdMapping : Type 0 where
  pub num_entries : ℕ
  pub content : List ℕ

abbrev pub is_reserved : List ℕ → Bool
is_reserved name =
    same_name name (47 ∷ []) || same_name name (46 ∷ []) || same_name name (46 ∷ 46 ∷ [])

unfoldable pub fail_if_bad_values : ℕ → List ℕ → Result (Unit {0})
fail_if_bad_values id name = do
  require (not (id == 0)) runtime_error
  require (bit_and id 0x80000000 == 0) runtime_error
  require (leb (length name) 255) runtime_error
  require (not (length name == 0)) runtime_error
  require (not (is_reserved name)) runtime_error

-- The bytes that the map takes. Temporal names are not stored.
unfoldable pub calculate_store_mapping_size : NameMap → ℕ → Result ℕ
unfolding fail_if_bad_values
calculate_store_mapping_size [] sz = ok sz
calculate_store_mapping_size ((name, id) ∷ m) sz = do
  fail_if_bad_values id name
  n ←
      (if first_char name == temp_name_prefix
        then ok 0
        else (do n ← assert_integral_cast 8 (length name); ok (5 + n)))
  calculate_store_mapping_size m ((sz + n) % 2 ^ 32)

unfoldable pub store_entry : Host → List ℕ → ℕ → Writer → Result Writer
store_entry host name id io = do
  io ← write_u32 host id io
  n ← assert_integral_cast 8 (length name)
  io ← write_u8 n io
  writeall name io

-- The count of the entries that are written, and the stream.
unfoldable pub store_entries : Host → NameMap → ℕ → Writer → Result (ℕ × Writer)
unfolding store_entry
store_entries host [] cnt io = ok (cnt, io)
store_entries host ((name, id) ∷ m) cnt io = do
  (cnt, io) ←
      (if first_char name == temp_name_prefix
        then ok (cnt, io)
        else (do io ← store_entry host name id io; ok ((cnt + 1) % 2 ^ 32, io)))
  store_entries host m cnt io

unfoldable pub store : Host → NameMap → Result IdMapping
unfolding calculate_store_mapping_size store_entries
store host id_by_name = do
  content_sz ← calculate_store_mapping_size id_by_name 0
  (cnt, io) ← store_entries host id_by_name 0 (record { written = []; room = content_sz })
  num_entries ← assert_integral_cast 16 cnt
  ok (record { num_entries = num_entries; content = io.written })

unfoldable pub load_entry : Host → List ℕ → Result ((List ℕ × ℕ) × List ℕ)
load_entry host input = do
  (id, input) ← read_u32 host input
  (len, input) ← read_u8 input
  assert (leb len 256)
  (name, input) ← readall len input
  fail_if_bad_values id name
  ok ((name, id), input)

unfoldable pub load_entries : Host → ℕ → List ℕ → NameMap → Result NameMap
unfolding load_entry
load_entries host zero input m = ok m
load_entries host (suc n) input m = do
  ((name, id), input) ← load_entry host input
  load_entries host n input (assign name id m)

unfoldable pub load : Host → IdMapping → Result NameMap
unfolding load_entries
load host d = load_entries host d.num_entries d.content []
