-- ===== src/Io/Span/Forward.antt =====
-- The loop that copies from the start, and the seeks of both pointers.
use xoz.Base.{
  ℕ, zero, suc, ◌+◌, ◌-◌, ◌^◌, ◌≤◌, ◌<◌, ◌≡◌, ◌⊎◌, ap, ◌∙◌, arith, min, false, ◌==◌, List, length,
  Result, ok, Bool-cases, inl, inr,
}
use mathlib.Core.Path.{subst}
use xoz.Io.Span.{Span, Seekdir, remain, src_sz, seek_rd, seek_wr, seek_both, from_start, tmp_buf_sz}
use xoz.Io.Span.Chunks.{set_to, set_to-IsSpan, moved, length-moved, copy_chunk-moved}
use xoz.Io.Span.Limits.{IsSpan, seek-nearest, nearest}
use xoz.Io.Span.Regions.{IsCopied, none-IsCopied, first-IsCopied}

-- How a copy of n bytes ends, which starts at r and w: with both pointers behind the copied bytes.
abbrev pub Ends : ℕ → ℕ → ℕ → Span → Result Span → Type 0
Ends r w n io end =
    (ys : List ℕ) × (end ≡ ok (set_to (r + n) (w + n) ys io)) × IsCopied r w n io.dataspan ys

nothing-Ends : (n : ℕ) (io : Span) → n ≡ 0 → Ends io.rd.pos io.wr.pos n io (ok io)
nothing-Ends n io e =
    let er : io.rd.pos ≡ io.rd.pos + n = omega (arith, e) in
    let ew : io.wr.pos ≡ io.wr.pos + n = omega (arith, e) in
    (
      io.dataspan,
      ap (λ (t : ℕ). ok (set_to t io.wr.pos io.dataspan io)) er
          ∙ ap (λ (t : ℕ). ok (set_to (io.rd.pos + n) t io.dataspan io)) ew,
      none-IsCopied io.rd.pos io.wr.pos n io.dataspan e,
    )

-- The pointers may be named by equal numbers.
pub same_place :
    (a b c d : ℕ) (ys : List ℕ) (io : Span)
    → a ≡ c
    → b ≡ d
    → ◌≡◌ {A = Result Span} (ok (set_to a b ys io)) (ok (set_to c d ys io))
same_place a b c d ys io e f =
    ap (λ (t : ℕ). ok (set_to t b ys io)) e ∙ ap (λ (t : ℕ). ok (set_to c t ys io)) f

pub from_start-Ends :
    (fuel n : ℕ) (io : Span)
    → n ≤ fuel
    → IsSpan io
    → io.read_only ≡ false
    → n ≤ remain io.rd
    → n ≤ remain io.wr
    → (io.wr.pos ≤ io.rd.pos) ⊎ (io.rd.pos + n ≤ io.wr.pos)
    → Ends io.rd.pos io.wr.pos n io (from_start fuel n io)
unfolding from_start
from_start-Ends zero n io le v writable h k apart = nothing-Ends n io (omega (arith, le))
from_start-Ends (suc fuel) n io le v writable h k apart = elim (Bool-cases (n == 0)) [
  | inl y ↦ let (ys, e, copied) = nothing-Ends n io (ground (arith, y)) in (ys, rw y e, copied)
  | inr o ↦
      let c : ℕ = min tmp_buf_sz n in
      let r : ℕ = io.rd.pos in
      let w : ℕ = io.wr.pos in
      let xs : List ℕ = io.dataspan in
      let vr = v.rd_within in
      let vw = v.wr_within in
      let io1 : Span = set_to (r + c) (w + c) (moved r w c xs) io in
      let rd_room : r + n ≤ length xs = omega (arith, h, vr.ends, vr.fits) in
      let wr_room : w + n ≤ length xs = omega (arith, k, vw.ends, vw.fits) in
      let v1 =
        set_to-IsSpan (r + c) (w + c) (moved r w c xs) io v
          (length-moved r w c xs (omega (arith, rd_room)) (omega (arith, wr_room)))
          (omega (arith, vr.starts)) (omega (arith, vr.ends, h)) (omega (arith, vw.starts))
          (omega (arith, vw.ends, k)) in
      let (ys, rest, copied) =
        from_start-Ends fuel (n - c) io1 (ground (arith, le, o)) v1 writable (omega (arith, h))
          (omega (arith, k)) (ground (arith, apart)) in
      let sum : c + (n - c) ≡ n = omega arith in
      let one = copy_chunk-moved c io v writable (omega (arith, h)) (omega (arith, k)) in
      (
        ys,
        rw (o, one)
            (rest
              ∙ same_place (r + c + (n - c)) (w + c + (n - c)) (r + n) (w + n) ys io (omega arith)
                  (omega arith)),
        subst (λ (t : ℕ). IsCopied r w t xs ys) sum
            (first-IsCopied r w c (n - c) xs ys (omega (arith, rd_room)) (omega (arith, wr_room))
              (ground (arith, apart)) copied),
      )
]

-- Both pointers go back, or on, by as much as there is.
pub seek_both-bwd :
    (c : ℕ) (io : Span)
    → IsSpan io
    → c < 2 ^ 32
    → io.rd.min_pos + c ≤ io.rd.pos
    → io.wr.min_pos + c ≤ io.wr.pos
    → seek_both c Seekdir.bwd io ≡ ok (set_to (io.rd.pos - c) (io.wr.pos - c) io.dataspan io)
unfolding seek_both seek_rd seek_wr
seek_both-bwd c io v lt a b =
    let (one, _) = seek-nearest (src_sz io) c Seekdir.bwd io.rd v.rd_within v.sz_fits lt in
    let (two, _) = seek-nearest (src_sz io) c Seekdir.bwd io.wr v.wr_within v.sz_fits lt in
    let at : nearest io.rd (io.rd.pos - c) ≡ io.rd.pos - c = omega (arith, a, v.rd_within.ends) in
    let at' : nearest io.wr (io.wr.pos - c) ≡ io.wr.pos - c = omega (arith, b, v.wr_within.ends) in
    rw (one, two)
      (same_place (nearest io.rd (io.rd.pos - c)) (nearest io.wr (io.wr.pos - c)) (io.rd.pos - c)
        (io.wr.pos - c) io.dataspan io at at')

pub seek_both-fwd :
    (n : ℕ) (io : Span)
    → IsSpan io
    → n ≤ remain io.rd
    → n ≤ remain io.wr
    → seek_both n Seekdir.fwd io ≡ ok (set_to (io.rd.pos + n) (io.wr.pos + n) io.dataspan io)
unfolding seek_both seek_rd seek_wr
seek_both-fwd n io v a b =
    let lt : n < 2 ^ 32 = omega (arith, a, v.rd_within.fits, v.sz_fits) in
    let (one, _) = seek-nearest (src_sz io) n Seekdir.fwd io.rd v.rd_within v.sz_fits lt in
    let (two, _) = seek-nearest (src_sz io) n Seekdir.fwd io.wr v.wr_within v.sz_fits lt in
    let at : nearest io.rd (io.rd.pos + n) ≡ io.rd.pos + n =
      omega (arith, a, v.rd_within.starts, v.rd_within.ends) in
    let at' : nearest io.wr (io.wr.pos + n) ≡ io.wr.pos + n =
      omega (arith, b, v.wr_within.starts, v.wr_within.ends) in
    rw (one, two)
      (same_place (nearest io.rd (io.rd.pos + n)) (nearest io.wr (io.wr.pos + n)) (io.rd.pos + n)
        (io.wr.pos + n) io.dataspan io at at')
