-- ===== src/Dsc/Codec/Fields.antt =====
-- The fields of the header: what is written into them is what is read from them.
use xoz.Base.{
  ℕ, ◌+◌, ◌*◌, ◌/◌, ◌%◌, ◌^◌, ◌<◌, ◌≤◌, ◌≡◌, refl, arith, Bool, true, false, not, ltb, ◌==◌,
  if◌then◌else◌, bit_or,
}
use xoz.Base.Bits.{bit_or_low, zero-bit_or}
use xoz.Dsc.{ContentPart, Header, stores_id, extended_type_val_threshold}
use xoz.Dsc.Parts.{size_field}
use xoz.Dsc.Write.{first_field}
use xoz.Dsc.Load.{isize_of}
use xoz.Mem.Ints.{
  countr_zero, read_bits, write_bits, countr_zero_u32, read_bits_u32, write_bits_u32,
}
use xoz.Mem.Ints.Fields.{
  read_bits-field, write_bits-field, write_bits-cut, read_bits_u32-field, write_bits_u32-field,
}
use xoz.Segment.Read.{flag}

abbrev pub digit : Bool → ℕ
digit b = if b then 1 else 0

pub digit-le : (b : Bool) → digit b ≤ 1
digit-le b = ground arith

digit-zero : (b : Bool) → not (digit b == 0) ≡ b
digit-zero true = refl
digit-zero false = refl

size_field-eq :
    (part : ContentPart) (large : Bool)
    → part.csize < 2 ^ 32
    → size_field part large ≡ digit large * 2 ^ 15 + part.csize % 2 ^ 15
unfolding size_field countr_zero
size_field-eq part large h =
    let s = digit-le large in
    rw (write_bits-field 15 1 0 (digit large) refl refl (omega arith) (omega arith)) (
      omega (
        arith,
        write_bits-cut 0 15 (0 + digit large * 2 ^ 15) part.csize refl (omega arith) (omega arith)
            (omega arith),
      ))

-- The flag and the low digits of a size.
pub size_field-read :
    (part : ContentPart) (large : Bool)
    → part.csize < 2 ^ 32
    → (flag (size_field part large) 0x8000 ≡ large)
      × (read_bits (size_field part large) 0x7fff ≡ part.csize % 2 ^ 15)
unfolding countr_zero
size_field-read part large h =
    let x : ℕ = digit large * 2 ^ 15 + part.csize % 2 ^ 15 in
    let s = digit-le large in
    let top : read_bits x 0x8000 ≡ digit large = omega (arith, read_bits-field 15 1 x refl) in
    let low : read_bits x 0x7fff ≡ part.csize % 2 ^ 15 =
      omega (arith, read_bits-field 0 15 x refl) in
    (rw (size_field-eq part large h, top) (digit-zero large), rw (size_field-eq part large h) low)

-- The field of the high digits.
pub large_field-read : (hi : ℕ) → hi < 2 ^ 16 → read_bits (write_bits 0 hi 0xffff) 0xffff ≡ hi
unfolding countr_zero
large_field-read hi h =
    let e : write_bits 0 hi 0xffff ≡ hi =
      omega (arith, write_bits-field 0 16 0 hi refl refl h (omega arith)) in
    rw e (omega (arith, read_bits-field 0 16 hi refl))

-- The parts of a size, put together.
pub csize_of :
    (csize : ℕ)
    → csize < 2 ^ 31
    → bit_or (csize / 2 ^ 15 * 2 ^ 15 % 2 ^ 32) (csize % 2 ^ 15) ≡ csize
csize_of csize h =
    let e : csize / 2 ^ 15 * 2 ^ 15 % 2 ^ 32 ≡ csize / 2 ^ 15 * 2 ^ 15 = omega arith in
    rw e (omega (arith, bit_or_low 15 (csize / 2 ^ 15) (csize % 2 ^ 15) (omega arith)))

pub small_csize_of : (csize : ℕ) → csize < 2 ^ 15 → bit_or 0 (csize % 2 ^ 15) ≡ csize
small_csize_of csize h = omega (arith, zero-bit_or (csize % 2 ^ 15))

-- The type that the first field holds.
abbrev pub short_type : Header → ℕ
short_type hdr =
    if ltb hdr.type extended_type_val_threshold then hdr.type else extended_type_val_threshold

pub short_type-le : (hdr : Header) → short_type hdr ≤ 511
short_type-le hdr = ground arith

abbrev first_word : Header → ℕ → ℕ
first_word hdr n =
    digit (ltb 0 n) * 2 ^ 15
    + hdr.isize / 2 % 2 ^ 5 * 2 ^ 10
    + digit (stores_id hdr) * 2 ^ 9
    + short_type hdr

first_field-eq : (hdr : Header) (n : ℕ) → hdr.isize < 128 → first_field hdr n ≡ first_word hdr n
unfolding first_field countr_zero
first_field-eq hdr n h =
    let own : ℕ = digit (ltb 0 n) in
    let own_le = digit-le (ltb 0 n) in
    let has : ℕ = digit (stores_id hdr) in
    let has_le = digit-le (stores_id hdr) in
    let lo : ℕ = hdr.isize / 2 % 2 ^ 5 in
    let t_le = short_type-le hdr in
    rw
      (
        write_bits-field 15 1 0 own refl refl (omega arith) (omega arith),
        write_bits-cut 10 5 (0 + own * 2 ^ 15) (hdr.isize / 2) refl (omega arith) (omega arith)
            (omega arith),
        write_bits-field 9 1 (0 + own * 2 ^ 15 + lo * 2 ^ 10) has refl (omega arith) (omega arith)
            (omega arith),
        write_bits-field 0 9 (0 + own * 2 ^ 15 + lo * 2 ^ 10 + has * 2 ^ 9) (short_type hdr) refl
            (omega arith) (omega arith) (omega arith),
      )
      (omega arith)

pub record FirstField (hdr : Header) (cparts_cnt x : ℕ) : Type 0 where
  pub own_content : flag x 0x8000 ≡ ltb 0 cparts_cnt
  pub has_id : flag x 0x0200 ≡ stores_id hdr
  pub lo_isize : read_bits x 0x7c00 ≡ hdr.isize / 2 % 2 ^ 5
  pub type : read_bits x 0x01ff ≡ short_type hdr

-- What is read from the first field.
pub first_field-read :
    (hdr : Header) (n : ℕ) → hdr.isize < 128 → FirstField hdr n (first_field hdr n)
unfolding countr_zero
first_field-read hdr n h =
    let x : ℕ = first_word hdr n in
    let own_le = digit-le (ltb 0 n) in
    let has_le = digit-le (stores_id hdr) in
    let t_le = short_type-le hdr in
    let own : read_bits x 0x8000 ≡ digit (ltb 0 n) = omega (arith, read_bits-field 15 1 x refl) in
    let has : read_bits x 0x0200 ≡ digit (stores_id hdr) =
      omega (arith, read_bits-field 9 1 x refl) in
    rw (first_field-eq hdr n h) (record {
      own_content = rw own (digit-zero (ltb 0 n));
      has_id = rw has (digit-zero (stores_id hdr));
      lo_isize = omega (arith, read_bits-field 10 5 x refl);
      type = omega (arith, read_bits-field 0 9 x refl);
    })

-- What is read from the second field: one bit and a number of 31.
pub id_field-read :
    (b i : ℕ)
    → b ≤ 1
    → i < 2 ^ 31
    → (read_bits_u32 (write_bits_u32 (write_bits_u32 0 b 0x80000000) i 0x7fffffff) 0x7fffffff ≡ i)
      × (read_bits_u32 (write_bits_u32 (write_bits_u32 0 b 0x80000000) i 0x7fffffff) 0x80000000 ≡ b)
unfolding countr_zero_u32
id_field-read b i hb hi =
    let first : write_bits_u32 0 b 0x80000000 ≡ b * 2 ^ 31 =
      omega (arith, write_bits_u32-field 31 1 0 b refl refl (omega arith) (omega arith)) in
    let second : write_bits_u32 (b * 2 ^ 31) i 0x7fffffff ≡ b * 2 ^ 31 + i = omega (
      arith,
      write_bits_u32-field 0 31 (b * 2 ^ 31) i refl (omega arith) (omega arith) (omega arith),
    ) in
    rw (first, second)
      (
        omega (arith, read_bits_u32-field 0 31 (b * 2 ^ 31 + i) refl),
        omega (arith, read_bits_u32-field 31 1 (b * 2 ^ 31 + i) refl),
      )

-- The size of the internal data, from its two fields.
pub isize_of-fields :
    (isize : ℕ)
    → isize < 128
    → isize % 2 ≡ 0
    → isize_of (digit (ltb 0 (isize / 64))) (isize / 2 % 2 ^ 5) ≡ isize
unfolding isize_of
isize_of-fields isize h even =
    let b : ℕ = digit (ltb 0 (isize / 64)) in
    let b_le = digit-le (ltb 0 (isize / 64)) in
    let value : b ≡ isize / 64 = ground arith in
    let e : b * 2 ^ 5 % 2 ^ 8 ≡ b * 2 ^ 5 = omega arith in
    rw e (omega (arith, bit_or_low 5 b (isize / 2 % 2 ^ 5) (omega arith)))
