-- ===== src/Dsc/Codec/RoundTrip.antt =====
-- What `write_struct_into` writes, `load_header_from` loads.
use xoz.Base.{
  ℕ, ◌+◌, ◌/◌, ◌%◌, ◌^◌, ◌<◌, ◌≤◌, ◌≡◌, refl, arith, true, false, not, leb, ltb, ◌==◌, List, ◌++◌,
  length, take, ok, All, Bool-cases, inl, inr,
}
use xoz.Dsc.{
  Header, extended_type_val_threshold, stores_id, incompressible, chk_content_parts_consistency,
}
use xoz.Dsc.Parts.{Put, take_word}
use xoz.Dsc.Write.{first_field}
use xoz.Dsc.Load.{load_header_from, take_id, take_content, take_type, isize_of}
use xoz.Dsc.Codec.Checks.{chk_content_parts_consistency-loaded}
use xoz.Dsc.Codec.Fields.{first_field-read, short_type, isize_of-fields}
use xoz.Dsc.Codec.Id.{found_id, loaded_id, resolve_id-found}
use xoz.Dsc.Codec.Parts.{IsPart, loaded_parts}
use xoz.Dsc.Codec.Reads.{Reads}
use xoz.Ids.{IdManager, set_contains}
use xoz.Io.Stream.Appends.{Appends, Appends-trans}
use xoz.Mem.Checksum.{inet_add, inet_to_u16}
use xoz.Mem.Checksum.Stream.{inet_checksum_io}
use xoz.Mem.Endian.{little}
use mathlib.Core.List.{append_assoc}

-- A header that can be loaded where `ids` are taken: its numbers are in range, its parts can be
-- read, and its identifier is not taken if it is persistent.
pub record IsHeader (blk_sz_order : ℕ) (ids : IdManager) (hdr : Header) : Type 0 where
  pub id_small : hdr.id < 2 ^ 32
  pub cparts : All (IsPart blk_sz_order) hdr.cparts
  pub id_new : hdr.id < 2 ^ 31 → set_contains hdr.id ids.persistent_ids ≡ false
  pub temporal : 0 < ids.next_temporal_id

-- What the checks before the write make sure of.
pub record Checked (hdr : Header) : Type 0 where
  pub even : hdr.isize % 2 ≡ 0
  pub small : hdr.isize < 128
  pub id : 0 < hdr.id
  pub consistent : chk_content_parts_consistency true hdr.cparts ≡ ok tt

-- The header as it is loaded: the empty parts at the end are gone.
abbrev pub loaded_header : ℕ → IdManager → Header → Header
loaded_header blk_sz_order ids hdr = record {
  type = hdr.type;
  id = (loaded_id hdr.id ids).0;
  isize = hdr.isize;
  cparts = loaded_parts blk_sz_order hdr.cparts (incompressible hdr.cparts);
}

found_isize :
    (hdr : Header)
    → hdr.isize < 128
    → hdr.isize % 2 ≡ 0
    → isize_of (found_id hdr).1 (hdr.isize / 2 % 2 ^ 5) ≡ hdr.isize
unfolding stores_id
found_isize hdr h even = elim (Bool-cases (stores_id hdr)) [
  | inl stored ↦ rw stored (isize_of-fields hdr.isize h even)
  | inr none ↦
      let low : ltb 0 (hdr.isize / 64) ≡ false = ground (arith, none) in
      rw none (rw low at (isize_of-fields hdr.isize h even))
]

loaded_id-nonzero :
    (id : ℕ) (ids : IdManager)
    → 0 < id
    → 0 < ids.next_temporal_id
    → not ((loaded_id id ids).0 == 0) ≡ true
loaded_id-nonzero id ids h k = ground arith

module _ (blk_sz_order : ℕ) (ids : IdManager) (hdr : Header) (v : IsHeader blk_sz_order ids hdr)
    (checked : Checked hdr) where
  pub header-loads :
      (start p1 p2 p3 q : Put)
      → start.checksum ≡ 0
      → Reads (take_word little) (first_field hdr (incompressible hdr.cparts)) start p1
      → Reads (take_id little (stores_id hdr)) (found_id hdr) p1 p2
      → Reads
          (take_content little blk_sz_order (ltb 0 (incompressible hdr.cparts)))
          (loaded_parts blk_sz_order hdr.cparts (incompressible hdr.cparts))
          p2
          p3
      → Reads
          (take_type little (short_type hdr))
          (hdr.type, leb extended_type_val_threshold hdr.type)
          p3
          q
      → (head : List ℕ) × Appends start.io head q.io
        × ((c n : ℕ) (rest : List ℕ)
            → hdr.isize ≤ length rest
            → inet_checksum_io little (take hdr.isize rest) ≡ ok n
            → load_header_from little blk_sz_order ids c (head ++ rest)
              ≡ ok (record {
                hdr = loaded_header blk_sz_order ids hdr;
                ex_type_used = leb extended_type_val_threshold hdr.type;
                checksum = inet_add c (inet_to_u16 ((q.checksum + n) % 2 ^ 32));
                input = rest;
                ids = (loaded_id hdr.id ids).1;
              }))
  unfolding load_header_from
  header-loads start p1 p2 p3 q zeroed r1 r2 r3 r4 =
      let b3 : List ℕ = r3.bytes ++ r4.bytes in
      let b2 : List ℕ = r2.bytes ++ b3 in
      let fields = first_field-read hdr (incompressible hdr.cparts) checked.small in
      let isize = found_isize hdr checked.small checked.even in
      let id = resolve_id-found hdr ids checked.id v.id_small v.id_new in
      let nonzero = loaded_id-nonzero hdr.id ids checked.id v.temporal in
      let parts =
        chk_content_parts_consistency-loaded blk_sz_order hdr.cparts (incompressible hdr.cparts)
          v.cparts checked.consistent in
      (
        r1.bytes ++ b2,
        Appends-trans r1.appends (Appends-trans r2.appends (Appends-trans r3.appends r4.appends)),
        (λ c n rest enough sum.
            let fits : leb hdr.isize (length rest) ≡ true = ground (arith, enough) in
            let no_less : not (ltb (length rest) hdr.isize) ≡ true = ground (arith, enough) in
            let first = rw zeroed at (r1.back (b2 ++ rest)) in
            let second = r2.back (b3 ++ rest) in
            let third = r3.back (r4.bytes ++ rest) in
            rw
              (
                append_assoc r1.bytes b2 rest,
                first,
                fields.has_id,
                append_assoc r2.bytes b3 rest,
                second,
                fields.lo_isize,
                isize,
                fields.own_content,
                append_assoc r3.bytes r4.bytes rest,
                third,
                id,
                nonzero,
                parts,
                fields.type,
                r4.back rest,
                fits,
                no_less,
                sum,
              )
              refl),
      )
