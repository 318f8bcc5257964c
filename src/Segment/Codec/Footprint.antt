-- ===== src/Segment/Codec/Footprint.antt =====
-- The footprint is the size of what is written.
use xoz.Base.{
  ℕ, ◌+◌, ◌*◌, ◌%◌, ◌^◌, ◌≤◌, ◌<◌, ◌≡◌, refl, ap, arith, if◌then◌else◌, List, [], ◌∷◌, ◌++◌, length,
  length-append, length-take, ok, >>=-eq-ok, All,
}
use xoz.Extent.{Extent, Distance, empty_extent, distance_in_blks}
use xoz.Extent.Laws.{IsExtent}
use xoz.Mem.Ints.{assert_integral_cast}
use xoz.Segment.{
  Segment, has_end_of_segment, even_part, ext_footprint, exts_footprint, fail_if_bad_inline_sz,
  calc_struct_footprint_size,
}
use xoz.Segment.Write.{smallcnt_of}
use xoz.Segment.Codec.Layout.{nr_words, cnt_words, exts_words, exts_of, Placed, end_bytes}
use native.Mathlib.Nat.{mod-eq_of_lt}

ext_footprint-length :
    (prev e : Extent) (d : Distance)
    → distance_in_blks prev e ≡ ok d
    → ext_footprint prev e ≡ ok (2 * length (nr_words e d ++ cnt_words e))
unfolding ext_footprint smallcnt_of
ext_footprint-length prev e d h = ground (arith, length-append (nr_words e d) (cnt_words e))

exts_footprint-length :
    (prev : Extent) (ps : List (Extent × Distance)) (sz : ℕ)
    → Placed prev ps
    → sz + 2 * length (exts_words ps) < 2 ^ 32
    → exts_footprint prev (exts_of ps) sz ≡ ok (sz + 2 * length (exts_words ps))
unfolding exts_footprint
exts_footprint-length prev [] sz v h = ground arith
exts_footprint-length prev ((e, d) ∷ ps) sz (h, v, more) fits =
    let n : ℕ = 2 * length (nr_words e d ++ cnt_words e) in
    let l = length-append (nr_words e d ++ cnt_words e) (exts_words ps) in
    let small : (sz + n) % 2 ^ 32 ≡ sz + n = mod-eq_of_lt (omega (arith, l)) in
    rw
      (
        ext_footprint-length prev e d h,
        small,
        exts_footprint-length e ps (sz + n) more (omega (arith, l)),
      )
      (ground (arith, l))

-- A distance for each extent, where the footprint could be computed.
pub placed :
    (prev : Extent) (es : List Extent) (sz : ℕ) {n : ℕ}
    → All IsExtent es
    → exts_footprint prev es sz ≡ ok n
    → (ps : List (Extent × Distance)) × Placed prev ps × (exts_of ps ≡ es)
unfolding exts_footprint ext_footprint
placed prev [] sz v h = ([], tt, refl)
placed prev (e ∷ es) sz v h =
    let (m, hm, h1) = >>=-eq-ok (ext_footprint prev e) _ h in
    let (d, hd, _) = >>=-eq-ok (distance_in_blks prev e) _ hm in
    let (ps, more, eq) = placed e es ((sz + m) % 2 ^ 32) v.1 h1 in
    ((e, d) ∷ ps, (hd, v.0, more), ap (λ (t : List Extent). e ∷ t) eq)

abbrev pub end_size : Segment → ℕ
end_size s = if has_end_of_segment s then 2 + even_part (length s.raw) else 0

pub length-end_bytes : (s : Segment) → length (end_bytes s) ≡ end_size s
length-end_bytes s = ground (arith, length-take (even_part (length s.raw)) s.raw)

-- The footprint of a segment whose extents have a distance each from the one before, with at most
-- 63 bytes of inline data and a structure below 2 ^ 32 bytes, is twice the count of the words that
-- stand for its extents and the size of its end; no cast or assertion fails.
pub calc_struct_footprint_size-length :
    (s : Segment) (ps : List (Extent × Distance))
    → Placed empty_extent ps
    → exts_of ps ≡ s.arr
    → length s.raw ≤ 63
    → 2 * length (exts_words ps) + 66 < 2 ^ 32
    → calc_struct_footprint_size s ≡ ok (2 * length (exts_words ps) + end_size s)
unfolding calc_struct_footprint_size fail_if_bad_inline_sz assert_integral_cast
calc_struct_footprint_size-length s ps v eq small fits =
    rw (← eq, exts_footprint-length empty_extent ps 0 v (omega arith)) (ground arith)
