-- ===== src/Io/Span/Copies.antt =====
-- `copy_into_self` moves bytes as if all were read before any is written.
use xoz.Base.{
  ℕ, zero, suc, ◌+◌, ◌-◌, ◌^◌, ◌≤◌, ◌<◌, ◌≡◌, ◌⊎◌, refl, ap, ◌∙◌, arith, min, true, false, ltb, leb,
  ◌==◌, ◌&&◌, List, length, ok, err, not_enough_room, Bool-cases, inl, inr,
}
use mathlib.Core.Path.{subst}
use xoz.Io.Span.{
  Span, remain, back_chunk, from_end, tmp_buf_sz, copy_into_self, copy_into_self_from_start,
  copy_into_self_from_end,
}
use xoz.Io.Span.Bytes.{byte_at}
use xoz.Io.Span.Chunks.{set_to, set_to-IsSpan, moved, length-moved, copy_chunk-moved}
use xoz.Io.Span.Limits.{IsSpan}
use xoz.Io.Span.Regions.{IsCopied, none-IsCopied, last-IsCopied}
use xoz.Io.Span.Forward.{Ends, same_place, from_start-Ends, seek_both-bwd, seek_both-fwd}

back_chunk-moved :
    (r w m c : ℕ) (xs : List ℕ) (io : Span)
    → IsSpan (set_to (r + m + c) (w + m + c) xs io)
    → io.read_only ≡ false
    → io.rd.min_pos ≤ r
    → io.wr.min_pos ≤ w
    → c < 2 ^ 32
    → back_chunk c (set_to (r + m + c) (w + m + c) xs io)
      ≡ ok (set_to (r + m) (w + m) (moved (r + m) (w + m) c xs) io)
unfolding back_chunk
back_chunk-moved r w m c xs io v writable a b lt =
    let io0 : Span = set_to (r + m + c) (w + m + c) xs io in
    let vr = v.rd_within in
    let vw = v.wr_within in
    let back = seek_both-bwd c io0 v lt (omega (arith, a)) (omega (arith, b)) in
    let at_start =
      same_place (r + m + c - c) (w + m + c - c) (r + m) (w + m) xs io (omega arith)
        (omega arith) in
    let io1 : Span = set_to (r + m) (w + m) xs io in
    let v1 : IsSpan io1 =
      set_to-IsSpan (r + m) (w + m) xs io0 v refl (omega (arith, a)) (omega (arith, vr.ends))
        (omega (arith, b)) (omega (arith, vw.ends)) in
    let one =
      copy_chunk-moved c io1 v1 writable (omega (arith, vr.ends)) (omega (arith, vw.ends)) in
    let ys : List ℕ = moved (r + m) (w + m) c xs in
    let v2 =
      set_to-IsSpan (r + m + c) (w + m + c) ys io0 v
        (length-moved (r + m) (w + m) c xs (omega (arith, vr.ends, vr.fits))
          (omega (arith, vw.ends, vw.fits)))
        (omega (arith, a)) vr.ends (omega (arith, b)) vw.ends in
    let again =
      seek_both-bwd c (set_to (r + m + c) (w + m + c) ys io) v2 lt (omega (arith, a))
        (omega (arith, b)) in
    let at_end =
      same_place (r + m + c - c) (w + m + c - c) (r + m) (w + m) ys io (omega arith)
        (omega arith) in
    rw (back ∙ at_start, one) (again ∙ at_end)

from_end-Ends :
    (fuel n r w : ℕ) (xs : List ℕ) (io : Span)
    → n ≤ fuel
    → IsSpan (set_to (r + n) (w + n) xs io)
    → io.read_only ≡ false
    → io.rd.min_pos ≤ r
    → io.wr.min_pos ≤ w
    → r < w
    → (ys : List ℕ) × (from_end fuel n (set_to (r + n) (w + n) xs io) ≡ ok (set_to r w ys io))
      × IsCopied r w n xs ys
unfolding from_end
from_end-Ends zero n r w xs io le v writable a b lt = (
  xs,
  same_place (r + n) (w + n) r w xs io (omega (arith, le)) (omega (arith, le)),
  none-IsCopied r w n xs (omega (arith, le)),
)
from_end-Ends (suc fuel) n r w xs io le v writable a b lt = elim (Bool-cases (n == 0)) [
  | inl y ↦
      let e : n ≡ 0 = ground (arith, y) in
      (
        xs,
        rw y (same_place (r + n) (w + n) r w xs io (omega (arith, e)) (omega (arith, e))),
        none-IsCopied r w n xs e,
      )
  | inr o ↦
      let c : ℕ = min tmp_buf_sz n in
      let m : ℕ = n - c in
      let er : r + n ≡ r + m + c = omega arith in
      let ew : w + n ≡ w + m + c = omega arith in
      let vr = v.rd_within in
      let vw = v.wr_within in
      let v0 =
        set_to-IsSpan (r + m + c) (w + m + c) xs (set_to (r + n) (w + n) xs io) v refl
          (omega (arith, a)) (omega (arith, er, vr.ends)) (omega (arith, b))
          (omega (arith, ew, vw.ends)) in
      let rd_room : r + (m + c) ≤ length xs = omega (arith, vr.ends, vr.fits) in
      let wr_room : w + (m + c) ≤ length xs = omega (arith, vw.ends, vw.fits) in
      let xs1 : List ℕ = moved (r + m) (w + m) c xs in
      let v1 =
        set_to-IsSpan (r + m) (w + m) xs1 (set_to (r + n) (w + n) xs io) v
          (length-moved (r + m) (w + m) c xs (omega (arith, rd_room)) (omega (arith, wr_room)))
          (omega (arith, a)) (omega (arith, vr.ends)) (omega (arith, b)) (omega (arith, vw.ends)) in
      let same : set_to (r + n) (w + n) xs io ≡ set_to (r + m + c) (w + m + c) xs io =
        ap (λ (t : ℕ). set_to t (w + n) xs io) er ∙ ap (λ (t : ℕ). set_to (r + m + c) t xs io) ew in
      let one =
        ap (λ (t : Span). back_chunk c t) same
        ∙ back_chunk-moved r w m c xs io v0 writable a b (omega arith) in
      let (ys, rest, copied) =
        from_end-Ends fuel m r w xs1 io (ground (arith, le, o)) v1 writable a b lt in
      let sum : m + c ≡ n = omega arith in
      (
        ys,
        rw (o, one) rest,
        subst (λ (t : ℕ). IsCopied r w t xs ys) sum
            (last-IsCopied r w c m xs ys rd_room wr_room lt copied),
      )
]

same-IsCopied : (r w n : ℕ) (xs : List ℕ) → r ≡ w → IsCopied r w n xs xs
same-IsCopied r w n xs e = record {
  same_size = refl;
  bytes = λ i. elim (Bool-cases (leb w i && ltb i (w + n))) [
    | inl y ↦ rw y (ap (λ (t : ℕ). byte_at t xs) (ground (arith, e, y)))
    | inr o ↦ rw o refl
  ];
}

overlap-Ends :
    (n : ℕ) (io : Span)
    → IsSpan io
    → io.read_only ≡ false
    → n ≤ remain io.rd
    → n ≤ remain io.wr
    → io.rd.pos < io.wr.pos
    → Ends io.rd.pos io.wr.pos n io (copy_into_self_from_end n io)
unfolding copy_into_self_from_end
overlap-Ends n io v writable h k lt =
    let r : ℕ = io.rd.pos in
    let w : ℕ = io.wr.pos in
    let vr = v.rd_within in
    let vw = v.wr_within in
    let v1 =
      set_to-IsSpan (r + n) (w + n) io.dataspan io v refl (omega (arith, vr.starts))
        (omega (arith, vr.ends, h)) (omega (arith, vw.starts)) (omega (arith, vw.ends, k)) in
    let (ys, looped, copied) =
      from_end-Ends n n r w io.dataspan io (omega arith) v1 writable vr.starts vw.starts lt in
    let v2 = set_to-IsSpan r w ys io v copied.same_size vr.starts vr.ends vw.starts vw.ends in
    (ys, rw (seek_both-fwd n io v h k, looped) (seek_both-fwd n (set_to r w ys io) v2 h k), copied)

copies-Ends :
    (n : ℕ) (io : Span)
    → IsSpan io
    → io.read_only ≡ false
    → n ≤ remain io.rd
    → n ≤ remain io.wr
    → Ends io.rd.pos io.wr.pos n io (copy_into_self n io)
unfolding copy_into_self copy_into_self_from_start
copies-Ends n io v writable h k =
    let enough : leb n (remain io.rd) ≡ true = ground (arith, h) in
    let room : leb n (remain io.wr) ≡ true = ground (arith, k) in
    let r : ℕ = io.rd.pos in
    let w : ℕ = io.wr.pos in
    elim (Bool-cases (r == w)) [
      | inl y ↦ (
        io.dataspan,
        rw (enough, room, y) (seek_both-fwd n io v h k),
        same-IsCopied r w n io.dataspan (ground (arith, y)),
      )
      | inr o ↦ elim (Bool-cases (ltb r w && ltb w (r + n))) [
        | inl y ↦
            let (ys, done, copied) = overlap-Ends n io v writable h k (ground (arith, y)) in
            (ys, rw (enough, room, o, y) done, copied)
        | inr p ↦
            let (ys, done, copied) =
              from_start-Ends n n io (omega arith) v writable h k (ground (arith, o, p)) in
            (ys, rw (enough, room, o, p) done, copied)
      ]
    ]

-- On a well-formed stream that may be written, a copy within the stream ends without an error if both
-- the bytes left to read and the room left are enough, whether or not the two parts overlap: the
-- bytes from the write pointer on become those that were at the read pointer on before the copy, all
-- others stay, and both pointers are behind the parts. Otherwise it fails before anything is changed.
pub copy_into_self-IsCopied :
    (n : ℕ) (io : Span)
    → IsSpan io
    → io.read_only ≡ false
    → ((n ≤ remain io.rd)
        × (n ≤ remain io.wr)
        × Ends io.rd.pos io.wr.pos n io (copy_into_self n io))
      ⊎ (((remain io.rd < n) ⊎ (remain io.wr < n)) × (copy_into_self n io ≡ err not_enough_room))
unfolding copy_into_self
copy_into_self-IsCopied n io v writable = elim (Bool-cases (leb n (remain io.rd))) [
  | inr few ↦ inr (inl (ground (arith, few)), rw few refl)
  | inl enough ↦ elim (Bool-cases (leb n (remain io.wr))) [
    | inr few ↦ inr (inr (ground (arith, few)), rw (enough, few) refl)
    | inl room ↦ inl (
      ground (arith, enough),
      ground (arith, room),
      copies-Ends n io v writable (ground (arith, enough)) (ground (arith, room)),
    )
  ]
]
