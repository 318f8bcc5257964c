-- ===== src/Dsc/Codec/Written.antt =====
-- A descriptor that was written without an error can be loaded.
use xoz.Base.{
  ℕ, ◌+◌, ◌%◌, ◌^◌, ◌<◌, ◌≤◌, ◌≡◌, refl, sym, ap, ◌∙◌, arith, true, false, not, leb, ◌==◌, List,
  ◌++◌, length, length-append, take, drop, take-append, drop-append, Result, ok, ok-injective,
  >>=-eq-ok, >>-eq-ok, require-ok, assert, require, abort, would_end_up_inconsistent,
  not_enough_room,
}
use xoz.Dsc.{
  Header, Descriptor, Subclass, extended_type_val_threshold, stores_id, incompressible,
  count_incompressible_cparts, chk_content_parts_consistency, chk_hdr_isize_fit_or_fail,
  does_hdr_isize_fit, chk_rw_specifics_on_idata, chk_struct_footprint,
}
use xoz.Dsc.Parts.{Put, put_word}
use xoz.Dsc.Write.{
  first_field, put_id, put_content, put_header, put_idata, chk_before_write, write_struct_into,
}
use xoz.Dsc.Load.{load_header_from}
use xoz.Dsc.Codec.Checks.{incompressible-le}
use xoz.Dsc.Codec.Header.{put_content-Reads, put_ex_type-Reads}
use xoz.Dsc.Codec.Id.{loaded_id, put_id-Reads}
use xoz.Dsc.Codec.Reads.{put_word-Reads}
use xoz.Dsc.Codec.RoundTrip.{IsHeader, Checked, loaded_header, header-loads}
use xoz.Ids.{IdManager}
use xoz.Io.Stream.{Writer, writeall}
use xoz.Io.Stream.Appends.{Appends, Appends-trans, writeall-Appends}
use xoz.Mem.Checksum.{inet_add, inet_to_u16}
use xoz.Mem.Checksum.Stream.{inet_checksum_io}
use xoz.Mem.Endian.{little}
use xoz.Mem.Ints.{assert_integral_cast}
use mathlib.Core.Path.{subst}
use mathlib.Core.List.{append_assoc}

chk_before_write-Checked :
    (subclass : Subclass) (dsc : Descriptor)
    → chk_before_write subclass dsc ≡ ok tt
    → Checked dsc.hdr
unfolding chk_before_write does_hdr_isize_fit
chk_before_write-Checked subclass dsc h =
    let (a, h1) = >>-eq-ok (require (dsc.hdr.isize % 2 == 0) would_end_up_inconsistent) _ h in
    let (b, h2) = >>-eq-ok (require (leb dsc.hdr.isize 127) would_end_up_inconsistent) _ h1 in
    let (c, h3) = >>-eq-ok (require (not (dsc.hdr.id == 0)) would_end_up_inconsistent) _ h2 in
    let (d, _) = >>-eq-ok (chk_content_parts_consistency true dsc.hdr.cparts) _ h3 in
    let even = require-ok (dsc.hdr.isize % 2 == 0) would_end_up_inconsistent a in
    let small = require-ok (leb dsc.hdr.isize 127) would_end_up_inconsistent b in
    let nonzero = require-ok (not (dsc.hdr.id == 0)) would_end_up_inconsistent c in
    record {
      even = ground (arith, even);
      small = ground (arith, small);
      id = ground (arith, nonzero);
      consistent = d;
    }

counts :
    (hdr : Header) (n : ℕ)
    → count_incompressible_cparts hdr ≡ ok n
    → (count_incompressible_cparts hdr ≡ ok (incompressible hdr.cparts))
      × (length hdr.cparts < 2 ^ 16)
unfolding count_incompressible_cparts assert_integral_cast
counts hdr n h =
    let (x, cast, _) = >>=-eq-ok (assert_integral_cast 16 (length hdr.cparts)) _ h in
    let (a, _) = >>-eq-ok (assert (length hdr.cparts % 2 ^ 16 == length hdr.cparts)) _ cast in
    let same = require-ok (length hdr.cparts % 2 ^ 16 == length hdr.cparts) _ a in
    (rw same refl, ground (arith, same))

-- Where the header was written its bytes can be loaded.
put_header-loads :
    (blk_sz_order : ℕ) (ids : IdManager) (hdr : Header) (io : Writer) (q : Put)
    → IsHeader blk_sz_order ids hdr
    → Checked hdr
    → put_header little hdr io ≡ ok q
    → (head : List ℕ) × Appends io head q.io
      × ((c n : ℕ) (rest : List ℕ)
          → hdr.isize ≤ length rest
          → inet_checksum_io little (take hdr.isize rest) ≡ ok n
          → load_header_from little blk_sz_order ids c (head ++ rest)
            ≡ ok (record {
              hdr = loaded_header blk_sz_order ids hdr;
              ex_type_used = leb extended_type_val_threshold hdr.type;
              checksum = inet_add c (inet_to_u16 ((q.checksum + n) % 2 ^ 32));
              input = rest;
              ids = (loaded_id hdr.id ids).1;
            }))
unfolding put_header
put_header-loads order ids hdr io q v checked h =
    let cnt : ℕ = incompressible hdr.cparts in
    let start : Put = record { io = io; checksum = 0 } in
    let (n, hc, _) = >>=-eq-ok (count_incompressible_cparts hdr) _ h in
    let (count, few) = counts hdr n hc in
    let le = incompressible-le hdr.cparts in
    let (p1, h1, k1) = >>=-eq-ok (put_word little (first_field hdr cnt) start) _ (rw count at h) in
    let (_, k2) = >>-eq-ok (chk_hdr_isize_fit_or_fail (stores_id hdr) hdr) _ k1 in
    let (p2, h2, k3) = >>=-eq-ok (put_id little hdr p1) _ k2 in
    let (p3, h3, h4) = >>=-eq-ok (put_content little hdr cnt p2) _ k3 in
    header-loads order ids hdr v checked start p1 p2 p3 q refl
      (put_word-Reads (first_field hdr cnt) start p1 h1) (put_id-Reads hdr p1 p2 v.id_small h2)
      (put_content-Reads order hdr cnt p2 p3 v.cparts le (omega arith) h3)
      (put_ex_type-Reads hdr p3 q h4)

-- A subclass that only appends.
abbrev pub IsAppending : Subclass → Type 0
IsAppending subclass =
    (w out : Writer)
    → subclass.write_struct_specifics_into w ≡ ok out
    → (bytes : List ℕ) × Appends w bytes out

put_idata-appends :
    (subclass : Subclass) (dsc : Descriptor) (io out : Writer)
    → IsAppending subclass
    → put_idata subclass dsc io ≡ ok out
    → (idata : List ℕ) × (out.written ≡ io.written ++ idata)
unfolding put_idata
put_idata-appends subclass dsc io out v h =
    let (_, h1) = >>-eq-ok (require (leb dsc.hdr.isize io.room) not_enough_room) _ h in
    let limited : Writer = record { written = io.written; room = dsc.hdr.isize } in
    let (w1, written, h2) = >>=-eq-ok (subclass.write_struct_specifics_into limited) _ h1 in
    let (w2, future, done) = >>=-eq-ok (writeall dsc.future_idata w1) _ h2 in
    let (bytes, a) = v limited w1 written in
    let b = writeall-Appends dsc.future_idata w1 w2 future in
    (
      bytes ++ dsc.future_idata,
      sym (ap (λ (w : Writer). w.written) (ok-injective done)) ∙ (Appends-trans a b).written,
    )

dropped : (ws bs idata : List ℕ) → ws ≡ bs ++ idata → drop (length bs) ws ≡ idata
dropped ws bs idata e = rw e (drop-append bs idata)

taken : (idata rest : List ℕ) (n : ℕ) → length idata ≡ n → take n (idata ++ rest) ≡ idata
taken idata rest n e = subst (λ (k : ℕ). take k (idata ++ rest) ≡ idata) e (take-append idata rest)

pair_ok :
    {a b : Writer} {c d : Descriptor}
    → ◌≡◌ {A = Result (Writer × Descriptor)} (ok (a, c)) (ok (b, d))
    → (a ≡ b) × (c ≡ d)
pair_ok e = (
  ap (λ (p : Writer × Descriptor). p.0) (ok-injective e),
  ap (λ (p : Writer × Descriptor). p.1) (ok-injective e),
)

-- The steps of a write without an error.
record Ran (subclass : Subclass) (dsc dsc' : Descriptor) (io out : Writer) : Type 0 where
  header : Put
  sum : ℕ
  checked : Checked dsc.hdr
  wrote_header : put_header little dsc.hdr io ≡ ok header
  wrote_idata : put_idata subclass dsc header.io ≡ ok out
  whole : length out.written ≡ length header.io.written + dsc.hdr.isize
  summed : inet_checksum_io little (drop (length header.io.written) out.written) ≡ ok sum
  checksum : dsc'.checksum ≡ inet_to_u16 ((header.checksum + sum) % 2 ^ 32)

write_struct_into-Ran :
    (subclass : Subclass) (dsc dsc' : Descriptor) (io out : Writer)
    → write_struct_into little subclass dsc io ≡ ok (out, dsc')
    → Ran subclass dsc dsc' io out
unfolding write_struct_into
write_struct_into-Ran subclass dsc dsc' io out h =
    let (h0, h1) = >>-eq-ok (chk_before_write subclass dsc) _ h in
    let (p, hp, h2) = >>=-eq-ok (put_header little dsc.hdr io) _ h1 in
    let (w, hw, h3) = >>=-eq-ok (put_idata subclass dsc p.io) _ h2 in
    let (_, h4) =
      >>-eq-ok
        (chk_rw_specifics_on_idata false (length p.io.written) (length w.written) dsc.hdr.isize) _
        h3 in
    let (_, h5) =
      >>-eq-ok
        (chk_struct_footprint false (length io.written) (length w.written) dsc.hdr
          (leb extended_type_val_threshold dsc.hdr.type))
        _ h4 in
    let (whole, h6) =
      >>-eq-ok (assert (length w.written == length p.io.written + dsc.hdr.isize)) _ h5 in
    let (n, hn, done) =
      >>=-eq-ok (inet_checksum_io little (drop (length p.io.written) w.written)) _ h6 in
    let (same, new) = pair_ok done in
    let e : length w.written ≡ length p.io.written + dsc.hdr.isize =
      ground
        (arith, require-ok (length w.written == length p.io.written + dsc.hdr.isize) abort whole) in
    subst (Ran subclass dsc dsc' io) same (record {
      header = p;
      sum = n;
      checked = chk_before_write-Checked subclass dsc h0;
      wrote_header = hp;
      wrote_idata = hw;
      whole = e;
      summed = hn;
      checksum = sym (ap (λ (d : Descriptor). d.checksum) new);
    })

inet_add-zero : (x : ℕ) → inet_add 0 (inet_to_u16 x) ≡ inet_to_u16 x
unfolding inet_add inet_to_u16
inet_add-zero x = omega arith

-- On a little-endian host: take a descriptor whose parts have good segments, each with an end of
-- segment and with the order of the block size that the reader has, whose numbers fit their types,
-- and whose identifier, if it is persistent, is not taken yet in a manager whose next temporal
-- identifier is not 0. Where it is written without an error, by a subclass that only appends, the
-- stream gets some bytes of a header and as many bytes of internal data as the header says. From
-- these bytes, whatever follows, the header is loaded with its type, isize and content parts but
-- for the empty ones at the end, with its identifier if that is persistent and a fresh temporal one
-- if not; the checksum is that of the written descriptor, and the stream stands at the internal
-- data.
pub load_header_from-write_struct_into :
    (blk_sz_order : ℕ) (ids : IdManager) (subclass : Subclass) (dsc dsc' : Descriptor)
    (io out : Writer) (rest : List ℕ)
    → IsHeader blk_sz_order ids dsc.hdr
    → IsAppending subclass
    → write_struct_into little subclass dsc io ≡ ok (out, dsc')
    → (head : List ℕ) × (idata : List ℕ) × (out.written ≡ io.written ++ (head ++ idata))
      × (length idata ≡ dsc.hdr.isize)
      × (load_header_from little blk_sz_order ids 0 (head ++ (idata ++ rest))
          ≡ ok (record {
            hdr = loaded_header blk_sz_order ids dsc.hdr;
            ex_type_used = leb extended_type_val_threshold dsc.hdr.type;
            checksum = dsc'.checksum;
            input = idata ++ rest;
            ids = (loaded_id dsc.hdr.id ids).1;
          }))
load_header_from-write_struct_into order ids subclass dsc dsc' io out rest v appending h =
    let r = write_struct_into-Ran subclass dsc dsc' io out h in
    let (head, a, back) =
      put_header-loads order ids dsc.hdr io r.header v r.checked r.wrote_header in
    let (idata, b) = put_idata-appends subclass dsc r.header.io out appending r.wrote_idata in
    let size : length idata ≡ dsc.hdr.isize =
      omega (arith, r.whole, ap length b, length-append r.header.io.written idata) in
    let cut = dropped out.written r.header.io.written idata b in
    let taken_back = taken idata rest dsc.hdr.isize size in
    let sum : inet_checksum_io little (take dsc.hdr.isize (idata ++ rest)) ≡ ok r.sum =
      rw taken_back (rw cut at r.summed) in
    let loads = back 0 r.sum (idata ++ rest) (omega (arith, size, length-append idata rest)) sum in
    let checksum = inet_add-zero ((r.header.checksum + r.sum) % 2 ^ 32) ∙ sym r.checksum in
    (
      head,
      idata,
      rw (b, a.written) (append_assoc io.written head idata),
      size,
      rw checksum at loads,
    )
