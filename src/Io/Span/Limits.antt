-- ===== src/Io/Span/Limits.antt =====
-- The pointers stay within their limits, and where a seek puts them.
use xoz.Base.{
  ℕ, ◌+◌, ◌-◌, ◌^◌, ◌≤◌, ◌<◌, ◌≡◌, refl, ap, ◌∙◌, arith, min, max, true, leb, Result, ok, ◌>>=◌,
}
use xoz.Io.Span.{
  Pointer, Span, Seekdir, calc_seek, seek, limit, limit_rd, limit_wr, seek_rd, seek_wr, rewind,
  restore_limits, src_sz, is_within,
}

-- The limits are within the source, and the pointer within the limits.
pub record IsWithin (sz : ℕ) (p : Pointer) : Type 0 where
  pub starts : p.min_pos ≤ p.pos
  pub ends : p.pos ≤ p.end_pos
  pub fits : p.end_pos ≤ sz

pub record IsSpan (io : Span) : Type 0 where
  pub rd_within : IsWithin (src_sz io) io.rd
  pub wr_within : IsWithin (src_sz io) io.wr
  pub sz_fits : src_sz io < 2 ^ 32

-- The position nearest to one, between the limits.
abbrev pub nearest : Pointer → ℕ → ℕ
nearest p pos = max p.min_pos (min p.end_pos pos)

-- The position that a seek means, if no limit is in the way; from the start where it would lie
-- before it.
abbrev pub meant : ℕ → ℕ → Pointer → Seekdir → ℕ
meant sz pos p Seekdir.beg = pos
meant sz pos p Seekdir.end = sz - pos
meant sz pos p Seekdir.fwd = p.pos + pos
meant sz pos p Seekdir.bwd = p.pos - pos

calc_seek-nearest :
    (sz pos : ℕ) (way : Seekdir) (p : Pointer)
    → IsWithin sz p
    → sz < 2 ^ 32
    → pos < 2 ^ 32
    → calc_seek sz pos p way ≡ nearest p (meant sz pos p way)
unfolding calc_seek
calc_seek-nearest sz pos Seekdir.beg p v h k = ground (arith, v.starts, v.ends)
calc_seek-nearest sz pos Seekdir.end p v h k = ground (arith, v.starts, v.ends)
calc_seek-nearest sz pos Seekdir.fwd p v h k = ground (arith, v.starts, v.ends, v.fits)
calc_seek-nearest sz pos Seekdir.bwd p v h k = ground (arith, v.starts, v.ends, v.fits)

-- The pointer moved to the place nearest to one.
abbrev pub moved_to : Pointer → ℕ → Pointer
moved_to p pos = record p { pos = nearest p pos }

pub moved_to-IsWithin : (sz pos : ℕ) (p : Pointer) → IsWithin sz p → IsWithin sz (moved_to p pos)
moved_to-IsWithin sz pos p v = record {
  starts = omega arith;
  ends = omega (arith, v.starts, v.ends);
  fits = v.fits;
}

-- A seek of a pointer that is within its limits never fails its assertion, and goes to the place
-- between the limits that is nearest to the one meant, however large the distance in uint32_t; the
-- limits stay, and the pointer is within them.
pub seek-nearest :
    (sz pos : ℕ) (way : Seekdir) (p : Pointer)
    → IsWithin sz p
    → sz < 2 ^ 32
    → pos < 2 ^ 32
    → (seek sz pos way p ≡ ok (moved_to p (meant sz pos p way)))
      × IsWithin sz (moved_to p (meant sz pos p way))
unfolding seek
seek-nearest sz pos way p v h k =
    let w = moved_to-IsWithin sz (meant sz pos p way) p v in
    let inside : is_within (moved_to p (meant sz pos p way)) ≡ true =
      ground (arith, w.starts, w.ends) in
    (rw (calc_seek-nearest sz pos way p v h k, inside) refl, w)

-- New limits are cut to the source, and the pointer is within them.
pub limit-IsWithin : (sz min_pos new_sz : ℕ) (p : Pointer) → IsWithin sz (limit sz min_pos new_sz p)
unfolding limit
limit-IsWithin sz min_pos new_sz p = record {
  starts = ground arith;
  ends = ground arith;
  fits = ground arith;
}

same_pointer :
    (sz : ℕ) (kept p : Pointer)
    → IsWithin sz kept
    → moved_to (limit sz kept.min_pos (kept.end_pos - kept.min_pos) p) kept.pos ≡ kept
unfolding limit
same_pointer sz kept p v = ground (arith, v.starts, v.ends, v.fits)

-- The limits of a pointer set back, and then its position.
restored :
    (sz : ℕ) (kept p : Pointer)
    → IsWithin sz kept
    → sz < 2 ^ 32
    → seek sz kept.pos Seekdir.beg (limit sz kept.min_pos (kept.end_pos - kept.min_pos) p) ≡ ok kept
restored sz kept p v h =
    let back : Pointer = limit sz kept.min_pos (kept.end_pos - kept.min_pos) p in
    let within = limit-IsWithin sz kept.min_pos (kept.end_pos - kept.min_pos) p in
    let (done, _) =
      seek-nearest sz kept.pos Seekdir.beg back within h (omega (arith, v.ends, v.fits, h)) in
    done ∙ ap ok (same_pointer sz kept p v)

-- What both guards do at their ends, the one that restores the limits first.
abbrev pub leave_guards : Span → Span → Result Span
leave_guards kept io = do io ← restore_limits kept io; rewind kept io

-- When both guards end, on a stream over as many bytes, the pointers and their limits are those that
-- the guards found, whatever was done in between; the bytes written stay.
pub leave_guards-kept :
    (kept io : Span)
    → IsSpan kept
    → src_sz io ≡ src_sz kept
    → leave_guards kept io ≡ ok (record io { rd = kept.rd; wr = kept.wr })
unfolding restore_limits rewind limit_rd limit_wr seek_rd seek_wr limit calc_seek
leave_guards-kept kept io v e =
    let rd_order : leb kept.rd.min_pos kept.rd.end_pos ≡ true =
      ground (arith, v.rd_within.starts, v.rd_within.ends) in
    let wr_order : leb kept.wr.min_pos kept.wr.end_pos ≡ true =
      ground (arith, v.wr_within.starts, v.wr_within.ends) in
    rw
      (
        rd_order,
        wr_order,
        e,
        restored (src_sz kept) kept.rd io.rd v.rd_within v.sz_fits,
        restored (src_sz kept) kept.wr io.wr v.wr_within v.sz_fits,
      )
      refl
