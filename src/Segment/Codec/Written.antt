-- ===== src/Segment/Codec/Written.antt =====
-- What `write_struct_into` leaves in the stream.
use xoz.Base.{
  ℕ, ◌+◌, ◌-◌, ◌*◌, ◌^◌, ◌≤◌, ◌<◌, ◌≡◌, arith, true, ◌==◌, leb, if◌then◌else◌, List, [], ◌∷◌, ◌++◌,
  length, length-take, take, ok, All, Bool-cases, inl, inr,
}
use xoz.Extent.{Extent, Distance, empty_extent}
use xoz.Io.Stream.{Writer, writeall}
use xoz.Mem.Checksum.{fold_inet_checksum}
use xoz.Mem.Endian.{little}
use xoz.Segment.{Segment, has_end_of_segment, even_part, fail_if_bad_inline_sz}
use xoz.Segment.Write.{
  WriteState, consume_room, write_exts, write_inline, write_struct_into, last_byte,
}
use xoz.Segment.Codec.Layout.{
  words_bytes, add_words, exts_words, exts_of, last_of, Placed, end_bytes, end_checksum,
  inline_word,
}
use xoz.Segment.Codec.Header.{inline_header-eq, odd_byte}
use xoz.Segment.Codec.Encode.{sent, HasRoom, write_exts-sent, put_u16-eq}
use xoz.Segment.Codec.Footprint.{end_size, calc_struct_footprint_size-length}
use mathlib.Core.Path.{subst}
use mathlib.Core.List.{append_assoc, append-nil}

abbrev pub IsByte : ℕ → Type 0
IsByte b = b < 256

pub odd_byte-IsByte : (raw : List ℕ) → All IsByte raw → odd_byte raw < 256
odd_byte-IsByte raw h = ground (arith, last raw h)
  where
    last : (bs : List ℕ) → All IsByte bs → last_byte bs < 256
    last [] h = omega arith
    last (b ∷ []) h = h.0
    last (b ∷ c ∷ bs) h = last (c ∷ bs) h.1

abbrev finish : Segment → WriteState → WriteState
finish s st = record st {
  io = record { written = st.io.written ++ end_bytes s; room = st.io.room - end_size s };
  remain_sz = st.remain_sz - end_size s;
  checksum = end_checksum s st.checksum;
}

write_inline-finish :
    (s : Segment) (st : WriteState)
    → has_end_of_segment s ≡ true
    → length s.raw ≤ 63
    → All IsByte s.raw
    → HasRoom (end_size s) st
    → write_inline little s st ≡ ok (finish s st)
unfolding write_inline consume_room fail_if_bad_inline_sz writeall
write_inline-finish s st e small bytes r =
    let r' : HasRoom (2 + even_part (length s.raw)) st = simp e at r in
    simp e (
      ground (
        arith,
        inline_header-eq s.raw small (odd_byte-IsByte s.raw bytes),
        put_u16-eq (inline_word s.raw)
            (record st { remain_sz = st.remain_sz - (2 + even_part (length s.raw)) })
            (ground (arith, odd_byte-IsByte s.raw bytes)) (ground arith),
        length-take (even_part (length s.raw)) s.raw,
        append_assoc st.io.written (words_bytes (inline_word s.raw ∷ []))
            (take (even_part (length s.raw)) s.raw),
      ))

-- The end of the segment, if it has one.
write_end-finish :
    (s : Segment) (st : WriteState)
    → length s.raw ≤ 63
    → All IsByte s.raw
    → HasRoom (end_size s) st
    → (if has_end_of_segment s then write_inline little s st else ok st) ≡ ok (finish s st)
write_end-finish s st small bytes r = elim (Bool-cases (has_end_of_segment s)) [
  | inl y ↦ rw (write_inline-finish s st y small bytes r, y)
  | inr n ↦ simp (n, append-nil) (ground arith)
]

abbrev pub segment_bytes : Segment → List (Extent × Distance) → List ℕ
segment_bytes s ps = words_bytes (exts_words ps) ++ end_bytes s

-- On a little-endian host, writing a segment whose extents have a distance each from the one
-- before, with at most 63 bytes of inline data and a structure below 2 ^ 32 bytes for which there
-- is room, appends its bytes, takes their size of the room, and returns the folded sum of their
-- words; no assertion fails.
pub write_struct_into-bytes :
    (s : Segment) (ps : List (Extent × Distance)) (io : Writer)
    → Placed empty_extent ps
    → exts_of ps ≡ s.arr
    → length s.raw ≤ 63
    → All IsByte s.raw
    → 2 * length (exts_words ps) + 66 < 2 ^ 32
    → 2 * length (exts_words ps) + end_size s ≤ io.room
    → write_struct_into little s io
      ≡ ok (
        record {
          written = io.written ++ segment_bytes s ps;
          room = io.room - (2 * length (exts_words ps) + end_size s);
        },
        fold_inet_checksum (end_checksum s (add_words 0 (exts_words ps))),
      )
unfolding write_struct_into
write_struct_into-bytes s ps io v eq small bytes fits room =
    let n : ℕ = 2 * length (exts_words ps) in
    let st : WriteState = record {
      io = io;
      remain_sz = n + end_size s;
      checksum = 0;
      prev = empty_extent;
    } in
    let mid : WriteState = record (sent (exts_words ps) st) { prev = last_of empty_extent ps } in
    let loop : write_exts little s.arr st ≡ ok mid =
      subst (λ es. write_exts little es st ≡ ok mid) eq
        (write_exts-sent ps st v (omega arith, omega arith)) in
    let enough : leb (n + end_size s) io.room ≡ true = ground arith in
    let done : (n + end_size s - n - end_size s == 0) ≡ true = ground arith in
    simp
      (
        calc_struct_footprint_size-length s ps v eq small fits,
        enough,
        loop,
        write_end-finish s mid small bytes (omega arith, omega arith),
        done,
      )
      (ground (arith, append_assoc io.written (words_bytes (exts_words ps)) (end_bytes s)))
