-- ===== src/Dsc/Codec/Header.antt =====
-- The header of a descriptor is read back as it was written.
use xoz.Base.{
  ℕ, zero, suc, ◌+◌, ◌-◌, ◌%◌, ◌^◌, ◌<◌, ◌≤◌, ◌≡◌, refl, sym, arith, Bool, true, false, leb, ltb,
  ◌==◌, List, [], ◌++◌, length, ok, >>=-eq-ok, All, Bool-cases, inl, inr,
}
use xoz.Dsc.{ContentPart, Header, extended_type_val_threshold}
use xoz.Dsc.Parts.{Put, write_content_parts, read_content_parts, put_parts, take_parts}
use xoz.Dsc.Write.{put_content, put_ex_type}
use xoz.Dsc.Load.{take_content, take_type}
use xoz.Dsc.Codec.Fields.{short_type}
use xoz.Dsc.Codec.Parts.{IsPart, loaded_parts, put_parts-Reads}
use xoz.Dsc.Codec.Reads.{Reads, Reads-at, Reads-nothing, put_word-Reads}
use xoz.Io.Stream.{Writer, write_u16}
use xoz.Io.Stream.Appends.{Appends, Appends-trans, u16_bytes, write_u16-Appends, read_u16-bytes}
use xoz.Mem.Checksum.{inet_checksum_val, inet_checksum_val-mod}
use xoz.Mem.Ints.Casts.{assert_integral_cast-fits}
use xoz.Mem.Endian.{little}
use mathlib.Core.Path.{subst}
use mathlib.Core.List.{append_assoc}

pub put_ex_type-Reads :
    (hdr : Header) (p q : Put)
    → put_ex_type little hdr p ≡ ok q
    → Reads
        (take_type little (short_type hdr))
        (hdr.type, leb extended_type_val_threshold hdr.type)
        p
        q
unfolding put_ex_type take_type
put_ex_type-Reads hdr p q h = elim (Bool-cases (leb extended_type_val_threshold hdr.type)) [
  | inl extended ↦
      let word = put_word-Reads hdr.type p q (rw extended at h) in
      let short : ltb hdr.type extended_type_val_threshold ≡ false = ground (arith, extended) in
      record {
        bytes = word.bytes;
        appends = word.appends;
        back = λ rest. rw (short, word.back rest, extended) refl;
      }
  | inr plain ↦
      let short : ltb hdr.type extended_type_val_threshold ≡ true = ground (arith, plain) in
      let other : (hdr.type == extended_type_val_threshold) ≡ false = ground (arith, plain) in
      let nothing =
        Reads-at {A = ℕ × Bool} _ _ p (rw plain at h) (Reads-nothing (hdr.type, false) p) in
      record {
        bytes = nothing.bytes;
        appends = nothing.appends;
        back = λ rest. rw (short, other, plain) (nothing.back rest);
      }
]

counted :
    (blk_sz_order m : ℕ) (ps : List ContentPart) (p w : Put) (io : Writer)
    → suc m < 2 ^ 16
    → Appends p.io (u16_bytes m) io
    → Reads (take_parts little blk_sz_order (suc m)) ps (record { io = io; checksum = 0 }) w
    → Reads (take_content little blk_sz_order true) ps p (record {
      io = w.io;
      checksum =
          ((p.checksum + inet_checksum_val m) % 2 ^ 32 + inet_checksum_val w.checksum) % 2 ^ 32;
    })
unfolding take_content read_content_parts
counted order m ps p w io small written parts =
    let unreserved : (m == 0xffff) ≡ false = ground (arith, small) in
    let count : (m + 1) % 2 ^ 16 ≡ suc m = omega arith in
    let value : inet_checksum_val m ≡ m = omega (arith, inet_checksum_val-mod m) in
    record {
      bytes = u16_bytes m ++ parts.bytes;
      appends = Appends-trans written parts.appends;
      back = λ rest.
          rw
            (
              append_assoc (u16_bytes m) parts.bytes rest,
              read_u16-bytes m (parts.bytes ++ rest),
              unreserved,
              count,
              parts.back rest,
              value,
            )
            refl;
    }

pub put_content-Reads :
    (blk_sz_order : ℕ) (hdr : Header) (n : ℕ) (p q : Put)
    → All (IsPart blk_sz_order) hdr.cparts
    → n ≤ length hdr.cparts
    → n < 2 ^ 16
    → put_content little hdr n p ≡ ok q
    → Reads
        (take_content little blk_sz_order (ltb 0 n))
        (loaded_parts blk_sz_order hdr.cparts n)
        p
        q
unfolding put_content take_content write_content_parts read_content_parts
put_content-Reads order hdr zero p q v le small h = Reads-at _ [] p h (Reads-nothing [] p)
put_content-Reads order hdr (suc m) p q v le small h =
    let present : ltb 0 (suc m) ≡ true = ground arith in
    let before : suc m - 1 ≡ m = omega arith in
    let enough : leb (suc m) (length hdr.cparts) ≡ true = ground (arith, le) in
    let (io, written, k) =
      >>=-eq-ok (write_u16 little m p.io) _
        (rw (present, before, assert_integral_cast-fits 16 m (omega arith), enough) at h) in
    let start : Put = record { io = io; checksum = 0 } in
    let (w, parts_written, done) = >>=-eq-ok (put_parts little hdr.cparts (suc m) start) _ k in
    let parts = put_parts-Reads order hdr.cparts (suc m) start w v le parts_written in
    let whole =
      counted order m (loaded_parts order hdr.cparts (suc m)) p w io small
        (write_u16-Appends m p.io io written) parts in
    let ps : List ContentPart = loaded_parts order hdr.cparts (suc m) in
    subst (λ (b : Bool). Reads (take_content little order b) ps p q) (sym present)
      (Reads-at (take_content little order true) ps p done whole)
