-- ===== src/Dsc/Codec/Parts.antt =====
-- The content parts are read back as they were written.
use xoz.Base.{
  ℕ, zero, suc, ◌/◌, ◌^◌, ◌<◌, ◌≤◌, ◌≡◌, refl, arith, true, false, ltb, List, [], ◌∷◌, ◌++◌, length,
  ok, >>=-eq-ok, All, Bool-cases, inl, inr,
}
use xoz.Dsc.{ContentPart}
use xoz.Dsc.Parts.{
  Put, put_word, put_size, take_size, put_segment, take_segment, put_parts, take_parts, size_field,
}
use xoz.Dsc.Codec.Fields.{size_field-read, large_field-read, csize_of, small_csize_of}
use xoz.Dsc.Codec.Reads.{Reads, Reads-at, Reads-nothing, put_word-Reads}
use xoz.Io.Stream.Appends.{Appends-trans}
use xoz.Mem.Ints.Casts.{assert_integral_cast-fits}
use xoz.Mem.Endian.{little}
use xoz.Mem.Ints.{write_bits}
use xoz.Segment.{Segment, make_segment, has_end_of_segment}
use xoz.Segment.Write.{write_struct_into as write_segment}
use mathlib.Core.List.{append_assoc}
use xoz.Segment.Codec.ReadBack.{IsSegment, written_back}

-- A part that can be written: its segment has an end, as every descriptor gives it.
pub record IsPart (blk_sz_order : ℕ) (part : ContentPart) : Type 0 where
  pub segm : IsSegment part.segm
  pub ended : has_end_of_segment part.segm ≡ true
  pub order : part.segm.blk_sz_order ≡ blk_sz_order
  pub small : part.csize < 2 ^ 32

-- A segment as it is read: an explicit end comes back as inline data of no bytes.
abbrev pub loaded_segment : ℕ → Segment → Segment
loaded_segment blk_sz_order s = record {
  arr = s.arr;
  blk_sz_order = blk_sz_order;
  inline_present = true;
  explicit_end_of_segment_present = false;
  raw = s.raw;
}

abbrev pub loaded_part : ℕ → ContentPart → ContentPart
loaded_part blk_sz_order part = record {
  pending = false;
  future_csize = 0;
  csize = part.csize;
  segm = loaded_segment blk_sz_order part.segm;
}

abbrev pub loaded_parts : ℕ → List ContentPart → ℕ → List ContentPart
loaded_parts blk_sz_order parts zero = []
loaded_parts blk_sz_order [] (suc n) = []
loaded_parts blk_sz_order (part ∷ parts) (suc n) =
    loaded_part blk_sz_order part ∷ loaded_parts blk_sz_order parts n

put_segment-Reads :
    (blk_sz_order : ℕ) (s : Segment) (p q : Put)
    → IsSegment s
    → has_end_of_segment s ≡ true
    → put_segment little s p ≡ ok q
    → Reads (take_segment little blk_sz_order) (loaded_segment blk_sz_order s) p q
unfolding put_segment take_segment make_segment
put_segment-Reads blk_sz_order s p q v ended h =
    let ((io, n), written, done) = >>=-eq-ok (write_segment little s p.io) _ h in
    let (bytes, appended, room, _, back) = written_back s p.io io n v written in
    Reads-at (take_segment little blk_sz_order) (loaded_segment blk_sz_order s) p done (record {
      bytes = bytes;
      appends = record { written = appended; room = room };
      back =
          λ rest. rw (back (make_segment blk_sz_order) rest (λ none. cc (none, ended)), ended) refl;
    })

put_large-Reads :
    (part : ContentPart) (p q : Put)
    → ltb part.csize (2 ^ 15) ≡ false
    → ltb part.csize 0x80000000 ≡ true
    → put_size little part p ≡ ok q
    → Reads (take_size little) part.csize p q
unfolding put_size take_size
put_large-Reads part p q long fits h =
    let hi : ℕ = part.csize / 2 ^ 15 in
    let below : part.csize < 2 ^ 31 = ground (arith, fits) in
    let (flagged, low) = size_field-read part true (omega arith) in
    let (mid, h1, h2) =
      >>=-eq-ok (put_word little (size_field part true) p) _
        (rw (long, fits, assert_integral_cast-fits 16 hi (omega arith)) at h) in
    let first = put_word-Reads (size_field part true) p mid h1 in
    let second = put_word-Reads (write_bits 0 hi 0xffff) mid q h2 in
    record {
      bytes = first.bytes ++ second.bytes;
      appends = Appends-trans first.appends second.appends;
      back = λ rest.
          rw
            (
              append_assoc first.bytes second.bytes rest,
              first.back (second.bytes ++ rest),
              flagged,
              second.back rest,
              low,
              large_field-read hi (omega arith),
              csize_of part.csize below,
            )
            refl;
    }

put_size-Reads :
    (part : ContentPart) (p q : Put)
    → part.csize < 2 ^ 32
    → put_size little part p ≡ ok q
    → Reads (take_size little) part.csize p q
unfolding put_size take_size
put_size-Reads part p q small h = elim (Bool-cases (ltb part.csize (2 ^ 15))) [
  | inl short ↦
      let (flagged, low) = size_field-read part false small in
      let word = put_word-Reads (size_field part false) p q (rw short at h) in
      record {
        bytes = word.bytes;
        appends = word.appends;
        back = λ rest.
            rw (word.back rest, flagged, low, small_csize_of part.csize (ground (arith, short)))
              refl;
      }
  | inr long ↦ elim (Bool-cases (ltb part.csize 0x80000000)) [
    | inl fits ↦ put_large-Reads part p q long fits h
    | inr large ↦ cc (h, long, large)
  ]
]

-- The first n parts.
pub put_parts-Reads :
    (blk_sz_order : ℕ) (parts : List ContentPart) (n : ℕ) (p q : Put)
    → All (IsPart blk_sz_order) parts
    → n ≤ length parts
    → put_parts little parts n p ≡ ok q
    → Reads (take_parts little blk_sz_order n) (loaded_parts blk_sz_order parts n) p q
unfolding put_parts take_parts
put_parts-Reads order parts zero p q v le h = Reads-at _ [] p h (Reads-nothing [] p)
put_parts-Reads order [] (suc n) p q v le h = absurd (omega arith)
put_parts-Reads order (part ∷ parts) (suc n) p q (v, vs) le h =
    let (p1, h1, k1) = >>=-eq-ok (put_size little part p) _ h in
    let (p2, h2, k2) = >>=-eq-ok (put_segment little part.segm p1) _ k1 in
    let size = put_size-Reads part p p1 v.small h1 in
    let segm = put_segment-Reads order part.segm p1 p2 v.segm v.ended h2 in
    let rest_parts = put_parts-Reads order parts n p2 q vs (omega arith) k2 in
    let after_size : List ℕ = segm.bytes ++ rest_parts.bytes in
    record {
      bytes = size.bytes ++ after_size;
      appends = Appends-trans size.appends (Appends-trans segm.appends rest_parts.appends);
      back = λ rest.
          rw
            (
              append_assoc size.bytes after_size rest,
              size.back (after_size ++ rest),
              append_assoc segm.bytes rest_parts.bytes rest,
              segm.back (rest_parts.bytes ++ rest),
              rest_parts.back rest,
            )
            refl;
    }
