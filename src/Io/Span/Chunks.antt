-- ===== src/Io/Span/Chunks.antt =====
-- Reads and writes that fit, and one round of the loops that copy.
use xoz.Base.{
  ℕ, ◌+◌, ◌-◌, ◌≤◌, ◌≡◌, refl, ap, ◌∙◌, arith, min, true, false, ltb, leb, ◌==◌, ◌&&◌,
  if◌then◌else◌, List, [], ◌∷◌, length, take, drop, ok, Bool-cases, inl, inr,
}
use xoz.Io.Span.{
  Pointer, Span, remain, src_sz, is_within, overwrite, read_operation, write_operation, readall,
  writeall, copy_chunk,
}
use xoz.Io.Span.Bytes.{byte_at, byte_at-slice, length-slice, length-overwrite, byte_at-overwrite}
use xoz.Io.Span.Limits.{IsWithin, IsSpan}

-- The bytes from a place on.
abbrev pub slice : ℕ → ℕ → List ℕ → List ℕ
slice r n xs = take n (drop r xs)

abbrev pub at_pos : ℕ → Pointer → Pointer
at_pos pos p = record p { pos = pos }

pub readall-slice :
    (n : ℕ) (io : Span)
    → IsSpan io
    → n ≤ remain io.rd
    → readall n io
      ≡ ok (slice io.rd.pos n io.dataspan, record io { rd = at_pos (io.rd.pos + n) io.rd })
unfolding readall read_operation
readall-slice n io v h =
    let r : IsWithin (src_sz io) io.rd = v.rd_within in
    let enough : leb n (remain io.rd) ≡ true = ground (arith, h) in
    let all : min n (remain io.rd) ≡ n = omega (arith, h) in
    let inside : is_within (at_pos (io.rd.pos + n) io.rd) ≡ true =
      ground (arith, r.starts, r.ends, h) in
    let whole : (length (slice io.rd.pos n io.dataspan) == n) ≡ true =
      ground (arith, length-slice io.rd.pos n io.dataspan (omega (arith, r.ends, r.fits, h))) in
    rw (enough, all, inside, whole) refl

take_all : (xs : List ℕ) → take (length xs) xs ≡ xs
take_all [] = refl
take_all (x ∷ xs) = rw (take_all xs) refl

pub writeall-overwrite :
    (bytes : List ℕ) (io : Span)
    → IsSpan io
    → io.read_only ≡ false
    → length bytes ≤ remain io.wr
    → writeall bytes io
      ≡ ok (record io {
        dataspan = overwrite io.wr.pos bytes io.dataspan;
        wr = at_pos (io.wr.pos + length bytes) io.wr;
      })
unfolding writeall write_operation
writeall-overwrite bytes io v writable h =
    let r : IsWithin (src_sz io) io.wr = v.wr_within in
    let enough : leb (length bytes) (remain io.wr) ≡ true = ground (arith, h) in
    let all : min (length bytes) (remain io.wr) ≡ length bytes = omega (arith, h) in
    let inside : is_within (at_pos (io.wr.pos + length bytes) io.wr) ≡ true =
      ground (arith, r.starts, r.ends, h) in
    let whole : (length bytes == length bytes) ≡ true = ground arith in
    rw (writable, enough, all, take_all bytes, inside, whole) refl

-- The stream with the pointers at two places and other bytes.
abbrev pub set_to : ℕ → ℕ → List ℕ → Span → Span
set_to r w bytes io = record io { dataspan = bytes; rd = at_pos r io.rd; wr = at_pos w io.wr }

pub set_to-IsSpan :
    (r w : ℕ) (bytes : List ℕ) (io : Span)
    → IsSpan io
    → length bytes ≡ src_sz io
    → io.rd.min_pos ≤ r
    → r ≤ io.rd.end_pos
    → io.wr.min_pos ≤ w
    → w ≤ io.wr.end_pos
    → IsSpan (set_to r w bytes io)
set_to-IsSpan r w bytes io v e a b c d = record {
  rd_within = record { starts = a; ends = b; fits = omega (arith, v.rd_within.fits, e) };
  wr_within = record { starts = c; ends = d; fits = omega (arith, v.wr_within.fits, e) };
  sz_fits = omega (arith, v.sz_fits, e);
}

-- The bytes after n of them were copied from one place to another.
abbrev pub moved : ℕ → ℕ → ℕ → List ℕ → List ℕ
moved r w n xs = overwrite w (slice r n xs) xs

pub length-moved :
    (r w n : ℕ) (xs : List ℕ)
    → r + n ≤ length xs
    → w + n ≤ length xs
    → length (moved r w n xs) ≡ length xs
length-moved r w n xs h k =
    let sz = length-slice r n xs h in length-overwrite w (slice r n xs) xs (omega (arith, sz, k))

pub byte_at-moved :
    (i r w n : ℕ) (xs : List ℕ)
    → r + n ≤ length xs
    → w + n ≤ length xs
    → byte_at i (moved r w n xs)
      ≡ (if leb w i && ltb i (w + n) then byte_at (r + (i - w)) xs else byte_at i xs)
byte_at-moved i r w n xs h k =
    let sz = length-slice r n xs h in
    let step : byte_at i (moved r w n xs) ≡ (
        if leb w i && ltb i (w + length (slice r n xs))
        then byte_at (i - w) (slice r n xs)
        else byte_at i xs) =
      byte_at-overwrite i w (slice r n xs) xs (omega (arith, sz, k)) in
    let bound : ltb i (w + length (slice r n xs)) ≡ ltb i (w + n) =
      ap (λ (t : ℕ). ltb i (w + t)) sz in
    elim (Bool-cases (leb w i && ltb i (w + n))) [
      | inl y ↦ rw y (step ∙ rw (bound, y) (byte_at-slice (i - w) r n xs (ground (arith, y))))
      | inr o ↦ rw o (step ∙ rw (bound, o) refl)
    ]

pub copy_chunk-moved :
    (n : ℕ) (io : Span)
    → IsSpan io
    → io.read_only ≡ false
    → n ≤ remain io.rd
    → n ≤ remain io.wr
    → copy_chunk n io
      ≡ ok (set_to (io.rd.pos + n) (io.wr.pos + n) (moved io.rd.pos io.wr.pos n io.dataspan) io)
unfolding copy_chunk
copy_chunk-moved n io v writable h k =
    let r : IsWithin (src_sz io) io.rd = v.rd_within in
    let buf : List ℕ = slice io.rd.pos n io.dataspan in
    let sz = length-slice io.rd.pos n io.dataspan (omega (arith, r.ends, r.fits, h)) in
    let io1 : Span = record io { rd = at_pos (io.rd.pos + n) io.rd } in
    let v1 =
      set_to-IsSpan (io.rd.pos + n) io.wr.pos io.dataspan io v refl (omega (arith, r.starts))
        (omega (arith, r.ends, h)) v.wr_within.starts v.wr_within.ends in
    let written = writeall-overwrite buf io1 v1 writable (omega (arith, sz, k)) in
    rw (readall-slice n io v h) (
      written
      ∙ ap
          (λ (t : ℕ).
            ok
              (set_to (io.rd.pos + n) (io.wr.pos + t) (moved io.rd.pos io.wr.pos n io.dataspan) io))
          sz)
