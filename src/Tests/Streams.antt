-- ===== src/Tests/Streams.antt =====
-- A stream over a buffer at concrete inputs.
use xoz.Base.{
  ℕ, ◌+◌, ◌≤◌, ◌<◌, ◌≡◌, ◌⊎◌, refl, arith, false, List, [], ◌∷◌, ok, err, not_enough_room,
}
use xoz.Io.Stream
use xoz.Io.Span
use xoz.Io.Span.{Pointer, Seekdir, remain, seek, copy_into_self, limit_rd}
use xoz.Io.Span.Limits.{
  IsWithin, IsSpan, seek-nearest, moved_to, meant, leave_guards, leave_guards-kept,
}
use xoz.Io.Span.Chunks.{set_to}
use xoz.Io.Span.Regions.{IsCopied}
use xoz.Io.Span.Copies.{copy_into_self-IsCopied}
use xoz.Io.Span.Refines.{unread, readall-refines}

abbrev some_bytes : List ℕ
some_bytes = 1 ∷ 2 ∷ 3 ∷ 4 ∷ 5 ∷ 6 ∷ []

-- Reading starts at the first byte, and writing at the third.
abbrev io : Span.Span
io = record {
  dataspan = some_bytes;
  rd = record { min_pos = 0; end_pos = 6; pos = 0 };
  wr = record { min_pos = 1; end_pos = 6; pos = 2 };
  read_only = false;
}

io-IsSpan : IsSpan io
io-IsSpan = record {
  rd_within = record { starts = omega arith; ends = omega arith; fits = omega arith };
  wr_within = record { starts = omega arith; ends = omega arith; fits = omega arith };
  sz_fits = omega arith;
}

-- Far past the end.
seek-nearest_example :
    (seek 6 4294967295 Seekdir.fwd io.wr
      ≡ ok (moved_to io.wr (meant 6 4294967295 io.wr Seekdir.fwd)))
    × IsWithin 6 (moved_to io.wr (meant 6 4294967295 io.wr Seekdir.fwd))
seek-nearest_example =
    seek-nearest 6 4294967295 Seekdir.fwd io.wr io-IsSpan.wr_within (omega arith) (omega arith)

leave_guards-kept_example :
    leave_guards io (limit_rd 3 1 io) ≡ ok (record (limit_rd 3 1 io) { rd = io.rd; wr = io.wr })
unfolding limit_rd
leave_guards-kept_example = leave_guards-kept io (limit_rd 3 1 io) io-IsSpan refl

-- The two parts of four bytes overlap.
copy_into_self-IsCopied_example :
    ((4 ≤ remain io.rd)
      × (4 ≤ remain io.wr)
      × ((ys : List ℕ) × (copy_into_self 4 io ≡ ok (set_to (0 + 4) (2 + 4) ys io))
          × IsCopied 0 2 4 some_bytes ys))
    ⊎ (((remain io.rd < 4) ⊎ (remain io.wr < 4)) × (copy_into_self 4 io ≡ err not_enough_room))
copy_into_self-IsCopied_example = copy_into_self-IsCopied 4 io io-IsSpan refl

readall-refines_example :
    ((bytes : List ℕ) × (io' : Span.Span) × (Span.readall 2 io ≡ ok (bytes, io'))
      × (Stream.readall 2 (unread io) ≡ ok (bytes, unread io')))
    ⊎ ((Span.readall 2 io ≡ err not_enough_room)
        × (Stream.readall 2 (unread io) ≡ err not_enough_room))
readall-refines_example = readall-refines 2 io io-IsSpan
