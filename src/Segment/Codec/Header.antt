-- ===== src/Segment/Codec/Header.antt =====
-- The header words: what is written into their fields, and what is read back.
use xoz.Base.{
  ℕ, ◌+◌, ◌*◌, ◌/◌, ◌%◌, ◌^◌, ◌≤◌, ◌<◌, ◌≡◌, refl, arith, Bool, true, false, ◌&&◌, ◌==◌,
  if◌then◌else◌, List, length, bit_and,
}
use xoz.Base.Bits.{bit_and_mod}
use xoz.Extent.{Extent, Distance, is_suballoc, blk_nr}
use xoz.Extent.Laws.{blk_nr-lt}
use xoz.Mem.Ints.{countr_zero, read_bits, write_bits}
use xoz.Mem.Ints.Fields.{read_bits-field, write_bits-field}
use xoz.Segment.Write.{smallcnt_of, header_start, near_header, far_header, inline_header, last_byte}
use xoz.Segment.Read.{flag}
use xoz.Segment.Codec.Layout.{bit, near_word, far_word, inline_word}

pub smallcnt_of-le : (e : Extent) → smallcnt_of e ≤ 15
unfolding smallcnt_of
smallcnt_of-le e = ground arith

bit-le : (b : Bool) → bit b ≤ 1
bit-le b = ground arith

header_start-eq :
    (e : Extent) → header_start e ≡ bit (is_suballoc e) * 2 ^ 15 + smallcnt_of e * 2 ^ 11
unfolding header_start countr_zero
header_start-eq e =
    let s = bit-le (is_suballoc e) in
    let first =
      write_bits-field 15 1 0 (bit (is_suballoc e)) refl refl (omega arith) (omega arith) in
    rw first (
      omega (
        arith,
        smallcnt_of-le e,
        write_bits-field 11 4 (0 + bit (is_suballoc e) * 2 ^ 15) (smallcnt_of e) refl (omega arith)
            (omega (arith, smallcnt_of-le e)) (omega (arith, smallcnt_of-le e)),
      ))

near_fields :
    (x g b : ℕ)
    → x % 2 ^ 11 ≡ 0
    → x < 2 ^ 16
    → g ≤ 511
    → b ≤ 1
    → write_bits (write_bits (write_bits x 1 0x0400) g 0x01ff) b 0x0200 ≡ x + 2 ^ 10 + g + b * 2 ^ 9
unfolding countr_zero
near_fields x g b hx hs hg hb =
    rw
      (
        write_bits-field 10 1 x 1 refl (omega arith) (omega arith) (omega arith),
        write_bits-field 0 9 (x + 1 * 2 ^ 10) g refl (omega arith) (omega arith) (omega arith),
        write_bits-field 9 1 (x + 1 * 2 ^ 10 + g * 2 ^ 0) b refl (omega arith) (omega arith)
            (omega arith),
      )
      (omega arith)

pub near_header-eq : (e : Extent) (d : Distance) → d.gap ≤ 511 → near_header e d ≡ near_word e d
unfolding near_header
near_header-eq e d h =
    let s = bit-le (is_suballoc e) in
    let k = smallcnt_of-le e in
    rw (header_start-eq e) (
      near_fields (bit (is_suballoc e) * 2 ^ 15 + smallcnt_of e * 2 ^ 11) d.gap (bit d.is_backwards)
        (omega arith) (omega arith) h (bit-le d.is_backwards))

pub far_header-eq : (e : Extent) → far_header e ≡ far_word e
unfolding far_header countr_zero
far_header-eq e =
    let s = bit-le (is_suballoc e) in
    let k = smallcnt_of-le e in
    let n = blk_nr-lt e in
    let hi : bit_and (blk_nr e / 2 ^ 16) 0x03ff ≡ blk_nr e / 2 ^ 16 =
      omega (arith, bit_and_mod 10 (blk_nr e / 2 ^ 16)) in
    rw (header_start-eq e, hi)
      (omega (
        arith,
        write_bits-field 0 10 (bit (is_suballoc e) * 2 ^ 15 + smallcnt_of e * 2 ^ 11)
            (blk_nr e / 2 ^ 16) refl (omega arith) (omega arith) (omega arith),
      ))

inline_fields :
    (n b : ℕ)
    → n ≤ 63
    → b < 256
    → write_bits (write_bits (write_bits (write_bits 0 1 0x8000) 1 0x4000) n 0x3f00) b 0x00ff
      ≡ 2 ^ 15 + 2 ^ 14 + n * 2 ^ 8 + b
unfolding countr_zero
inline_fields n b hn hb =
    rw
      (
        write_bits-field 15 1 0 1 refl refl (omega arith) (omega arith),
        write_bits-field 14 1 (2 ^ 15) 1 refl refl (omega arith) (omega arith),
        write_bits-field 8 6 (2 ^ 15 + 2 ^ 14) n refl refl (omega arith) (omega arith),
        write_bits-field 0 8 (2 ^ 15 + 2 ^ 14 + n * 2 ^ 8) b refl (omega arith) (omega arith)
            (omega arith),
      )
      (omega arith)

abbrev pub odd_byte : List ℕ → ℕ
odd_byte raw = if length raw % 2 == 1 then last_byte raw else 0

pub inline_header-eq :
    (raw : List ℕ) → length raw ≤ 63 → odd_byte raw < 256 → inline_header raw ≡ inline_word raw
unfolding inline_header
inline_header-eq raw h k = inline_fields (length raw) (odd_byte raw) h k

pub bits_15 : (x : ℕ) → read_bits x 0x8000 ≡ x / 2 ^ 15 % 2
unfolding countr_zero
bits_15 x = read_bits-field 15 1 x refl

pub bits_14 : (x : ℕ) → read_bits x 0x4000 ≡ x / 2 ^ 14 % 2
unfolding countr_zero
bits_14 x = read_bits-field 14 1 x refl

bits_11 : (x : ℕ) → read_bits x 0x7800 ≡ x / 2 ^ 11 % 16
unfolding countr_zero
bits_11 x = read_bits-field 11 4 x refl

bits_10 : (x : ℕ) → read_bits x 0x0400 ≡ x / 2 ^ 10 % 2
unfolding countr_zero
bits_10 x = read_bits-field 10 1 x refl

pub bits_9 : (x : ℕ) → read_bits x 0x0200 ≡ x / 2 ^ 9 % 2
unfolding countr_zero
bits_9 x = read_bits-field 9 1 x refl

pub bits_low9 : (x : ℕ) → read_bits x 0x01ff ≡ x / 2 ^ 0 % 2 ^ 9
unfolding countr_zero
bits_low9 x = read_bits-field 0 9 x refl

pub bits_low10 : (x : ℕ) → read_bits x 0x03ff ≡ x / 2 ^ 0 % 2 ^ 10
unfolding countr_zero
bits_low10 x = read_bits-field 0 10 x refl

pub bits_8 : (x : ℕ) → read_bits x 0x3f00 ≡ x / 2 ^ 8 % 64
unfolding countr_zero
bits_8 x = read_bits-field 8 6 x refl

pub bits_low8 : (x : ℕ) → read_bits x 0x00ff ≡ x / 2 ^ 0 % 2 ^ 8
unfolding countr_zero
bits_low8 x = read_bits-field 0 8 x refl

-- The flags and fields of the header of an extent.
pub record HeaderOf (e : Extent) (near : Bool) (low : ℕ) (hdr : ℕ) : Type 0 where
  pub fits : hdr < 2 ^ 16
  pub suballoc : flag hdr 0x8000 ≡ is_suballoc e
  pub not_inline : (flag hdr 0x8000 && flag hdr 0x4000) ≡ false
  pub near_flag : flag hdr 0x0400 ≡ near
  pub smallcnt : read_bits hdr 0x7800 ≡ smallcnt_of e
  pub low_bits : hdr % 2 ^ 10 ≡ low

pub smallcnt_of-suballoc : (e : Extent) → is_suballoc e ≡ true → smallcnt_of e ≡ 0
unfolding smallcnt_of
smallcnt_of-suballoc e h = ground arith

header_fields :
    (e : Extent) (near : Bool) (low hdr : ℕ)
    → low < 2 ^ 10
    → hdr ≡ bit (is_suballoc e) * 2 ^ 15 + smallcnt_of e * 2 ^ 11 + bit near * 2 ^ 10 + low
    → HeaderOf e near low hdr
header_fields e near low hdr h eq = record {
  fits = ground (arith, smallcnt_of-le e);
  suballoc = ground (arith, smallcnt_of-le e, bits_15 hdr);
  not_inline = ground (arith, smallcnt_of-suballoc e, smallcnt_of-le e, bits_15 hdr, bits_14 hdr);
  near_flag = ground (arith, smallcnt_of-le e, bits_10 hdr);
  smallcnt = ground (arith, smallcnt_of-le e, bits_11 hdr);
  low_bits = ground (arith, smallcnt_of-le e);
}

pub near_word-HeaderOf :
    (e : Extent) (d : Distance)
    → d.gap ≤ 511
    → HeaderOf e true (d.gap + bit d.is_backwards * 2 ^ 9) (near_word e d)
near_word-HeaderOf e d h =
    header_fields e true _ (near_word e d) (omega (arith, bit-le d.is_backwards)) (omega arith)

pub far_word-HeaderOf : (e : Extent) → HeaderOf e false (blk_nr e / 2 ^ 16) (far_word e)
far_word-HeaderOf e =
    header_fields e false _ (far_word e) (omega (arith, blk_nr-lt e)) (omega arith)
