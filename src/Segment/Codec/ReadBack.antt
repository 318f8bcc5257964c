-- ===== src/Segment/Codec/ReadBack.antt =====
-- The round trip of a segment, from the writer's success alone.
use xoz.Base.{
  ℕ, ◌+◌, ◌*◌, ◌^◌, ◌≤◌, ◌<◌, ◌≡◌, sym, ap, ◌∙◌, arith, false, leb, List, [], ◌∷◌, ◌++◌, length,
  length-append, Result, ok, err, not_enough_room, >>=-eq-ok, Bool-cases, inl, inr, All,
}
use xoz.Extent.{Extent, Distance, empty_extent}
use xoz.Extent.Laws.{IsExtent}
use xoz.Io.Stream.{Writer}
use xoz.Mem.Endian.{little}
use xoz.Segment.{Segment, has_end_of_segment, exts_footprint, calc_struct_footprint_size}
use xoz.Segment.Write.{write_struct_into}
use xoz.Segment.Read.{any_end, no_len, read_struct_from}
use xoz.Segment.Codec.Layout.{nr_words, cnt_words, exts_words, exts_of}
use xoz.Segment.Codec.Footprint.{placed, end_size, calc_struct_footprint_size-length}
use xoz.Segment.Codec.Written.{IsByte, segment_bytes, write_struct_into-bytes}
use xoz.Segment.Codec.RoundTrip.{Encodable, length-segment_bytes, read_struct_from-bytes}

-- A segment whose parts are in range: its extents are extents, its inline data are at most 63 bytes,
-- and it has some only with an end of segment.
pub record IsSegment (s : Segment) : Type 0 where
  pub exts_ok : All IsExtent s.arr
  pub raw_bytes : All IsByte s.raw
  pub raw_small : length s.raw ≤ 63
  pub count_fits : 6 * length s.arr + 66 < 2 ^ 32
  pub no_stray_data : has_end_of_segment s ≡ false → s.raw ≡ []

exts_words-le : (ps : List (Extent × Distance)) → length (exts_words ps) ≤ 3 * length (exts_of ps)
exts_words-le [] = omega arith
exts_words-le ((e, d) ∷ ps) = ground (
  arith,
  length-append (nr_words e d ++ cnt_words e) (exts_words ps),
  length-append (nr_words e d) (cnt_words e),
  exts_words-le ps,
)

-- A segment that was written can be placed, and its structure is below 2 ^ 32 bytes.
written-Encodable :
    (s : Segment) (io io' : Writer) (c : ℕ)
    → IsSegment s
    → write_struct_into little s io ≡ ok (io', c)
    → (ps : List (Extent × Distance)) × Encodable s ps
unfolding write_struct_into calc_struct_footprint_size
written-Encodable s io io' c v h =
    let (sz, hsz, _) = >>=-eq-ok (calc_struct_footprint_size s) _ h in
    let (n, hn, _) = >>=-eq-ok (exts_footprint empty_extent s.arr 0) _ hsz in
    let (ps, p, eq) = placed empty_extent s.arr 0 v.exts_ok hn in
    (
      ps,
      record {
        placed = p;
        same_arr = eq;
        small = v.raw_small;
        bytes = v.raw_bytes;
        fits = omega (arith, exts_words-le ps, ap length eq, v.count_fits);
        tidy = v.no_stray_data;
      },
    )

ok_pair :
    {a a' : Writer} {c c' : ℕ}
    → ◌≡◌ {A = Result (Writer × ℕ)} (ok (a, c)) (ok (a', c'))
    → (a ≡ a') × (c ≡ c')
ok_pair e = ground arith

too_small :
    (s : Segment) (ps : List (Extent × Distance)) (io : Writer)
    → Encodable s ps
    → leb (2 * length (exts_words ps) + end_size s) io.room ≡ false
    → write_struct_into little s io ≡ err not_enough_room
unfolding write_struct_into
too_small s ps io v h =
    simp (calc_struct_footprint_size-length s ps v.placed v.same_arr v.small v.fits, h)

-- The bytes that are written do not depend on what will follow them.
pub written_back :
    (s : Segment) (io io' : Writer) (c : ℕ)
    → IsSegment s
    → write_struct_into little s io ≡ ok (io', c)
    → (bytes : List ℕ) × (io'.written ≡ io.written ++ bytes)
      × (io'.room + length bytes ≡ io.room)
      × (calc_struct_footprint_size s ≡ ok (length bytes))
      × ((t : Segment) (rest : List ℕ)
          → (has_end_of_segment s ≡ false → rest ≡ [])
          → read_struct_from little t any_end no_len (bytes ++ rest)
            ≡ ok (
              record t { arr = s.arr; raw = s.raw; inline_present = has_end_of_segment s },
              rest,
              c,
            ))
written_back s io io' c v h =
    let (ps, w) = written-Encodable s io io' c v h in
    elim (Bool-cases (leb (2 * length (exts_words ps) + end_size s) io.room)) [
      | inl y ↦
          let out =
            write_struct_into-bytes s ps io w.placed w.same_arr w.small w.bytes w.fits
              (ground arith) in
          let (same_io, same_sum) = ok_pair (sym h ∙ out) in
          let size = length-segment_bytes s ps in
          let foot = calc_struct_footprint_size-length s ps w.placed w.same_arr w.small w.fits in
          (
            segment_bytes s ps,
            ap (λ (w : Writer). w.written) same_io,
            ground (arith, ap (λ (w : Writer). w.room) same_io, size),
            foot ∙ ap ok (sym size),
            (λ t rest none_left. rw same_sum (read_struct_from-bytes s t ps rest w none_left)),
          )
      | inr n ↦ absurd (ground (arith, h, too_small s ps io w n))
    ]

-- On a little-endian host: where `write_struct_into` writes without an error a segment of
-- well-formed extents, with at most 63 bytes of inline data, and some only with an end of segment,
-- and with fewer extents than would take 2 ^ 32 bytes, it appends some bytes from which
-- `read_struct_from` gets back its extents, its inline data and its end, leaves what follows, and
-- computes the checksum that the writer computed. What follows must be nothing if the segment has
-- no end. (An explicit end comes back as inline data of no bytes.)
pub read-write :
    (s t : Segment) (io io' : Writer) (c : ℕ) (rest : List ℕ)
    → IsSegment s
    → (has_end_of_segment s ≡ false → rest ≡ [])
    → write_struct_into little s io ≡ ok (io', c)
    → (bytes : List ℕ) × (io'.written ≡ io.written ++ bytes)
      × (io'.room + length bytes ≡ io.room)
      × (calc_struct_footprint_size s ≡ ok (length bytes))
      × (read_struct_from little t any_end no_len (bytes ++ rest)
          ≡ ok (
            record t { arr = s.arr; raw = s.raw; inline_present = has_end_of_segment s },
            rest,
            c,
          ))
read-write s t io io' c rest v none_left h =
    let (bytes, written, room, size, back) = written_back s io io' c v h in
    (bytes, written, room, size, back t rest none_left)
