-- ===== src/Segment/Codec/RoundTrip.antt =====
-- Reading back what was written, on a little-endian host.
use xoz.Base.{
  ℕ, suc, ◌+◌, ◌-◌, ◌*◌, ◌^◌, ◌≤◌, ◌<◌, ◌≡◌, refl, sym, ap, ◌∙◌, arith, true, false, ◌&&◌, ltb,
  if◌then◌else◌, List, [], ◌∷◌, ◌++◌, length, length-append, take, some, none, ok, Bool-cases, inl,
  inr, All,
}
use xoz.Extent.{Extent, Distance, empty_extent, span_cnt}
use xoz.Mem.Checksum.{fold_inet_checksum}
use xoz.Mem.Endian.{little}
use xoz.Segment.{Segment, has_end_of_segment, even_part}
use xoz.Segment.Read.{
  ReadState, any_end, no_len, start_state, read_loop, check_end, read_struct_from, flag,
}
use xoz.Segment.Codec.Layout.{
  words_bytes, add_words, nr_words, cnt_words, exts_words, exts_of, Placed, end_bytes, end_checksum,
  inline_word,
}
use xoz.Segment.Codec.Header.{bits_15, bits_14}
use xoz.Segment.Codec.Footprint.{end_size, length-end_bytes}
use xoz.Segment.Codec.Written.{IsByte, odd_byte-IsByte, segment_bytes}
use xoz.Segment.Codec.Inline.{read_inline-raw}
use xoz.Segment.Codec.Decode.{got, take_u16-got, added_all, read_loop-exts}
use mathlib.Core.Path.{subst}
use mathlib.Core.List.{append_assoc}

-- The state after the end of the segment was read.
abbrev ended : Segment → List ℕ → ReadState → ReadState
ended s rest st = record st {
  input = rest;
  available_sz = st.available_sz - (2 + even_part (length s.raw));
  checksum = end_checksum s st.checksum;
  inline_data = some s.raw;
}

read_loop_end :
    (s : Segment) (k : ℕ) (rest : List ℕ) (st : ReadState)
    → has_end_of_segment s ≡ true
    → length s.raw ≤ 63
    → All IsByte s.raw
    → 2 + even_part (length s.raw) ≤ st.available_sz
    → read_loop little (suc k) (record st { input = end_bytes s ++ rest }) ≡ ok (ended s rest st, k)
unfolding read_loop
read_loop_end s k rest st e small bytes r =
    let b = odd_byte-IsByte s.raw bytes in
    let hdr : ℕ = inline_word s.raw in
    let front : List ℕ = take (even_part (length s.raw)) s.raw in
    let fits : hdr < 2 ^ 16 = omega arith in
    let flags : (flag hdr 0x8000 && flag hdr 0x4000) ≡ true =
      ground (arith, bits_15 hdr, bits_14 hdr) in
    let go : ltb st.available_sz 2 ≡ false = ground arith in
    simp
      (
        e,
        go,
        take_u16-got hdr (front ++ rest) st fits (omega arith),
        flags,
        read_inline-raw s rest (got (hdr ∷ []) (front ++ rest) st) small bytes (omega arith),
      )
      (ground arith)

-- A segment that its structure can hold: the extents do not overlap their neighbours, the inline
-- data fits its header, and there is none without an end of segment.
pub record Encodable (s : Segment) (ps : List (Extent × Distance)) : Type 0 where
  pub placed : Placed empty_extent ps
  pub same_arr : exts_of ps ≡ s.arr
  pub small : length s.raw ≤ 63
  pub bytes : All IsByte s.raw
  pub fits : 2 * length (exts_words ps) + 66 < 2 ^ 32
  pub tidy : has_end_of_segment s ≡ false → s.raw ≡ []

empty_span : span_cnt empty_extent < 2 ^ 16
empty_span = unfold span_cnt in ground arith

abbrev all_read : Segment → List (Extent × Distance) → List ℕ → ReadState → ReadState
all_read s ps rest st = added_all ps (got (exts_words ps) rest st)

abbrev segment_checksum : Segment → List (Extent × Distance) → ℕ
segment_checksum s ps = end_checksum s (add_words 0 (exts_words ps))

length-words_bytes : (ws : List ℕ) → length (words_bytes ws) ≡ 2 * length ws
length-words_bytes [] = refl
length-words_bytes (w ∷ ws) = omega (arith, length-words_bytes ws)

pub length-segment_bytes :
    (s : Segment) (ps : List (Extent × Distance))
    → length (segment_bytes s ps) ≡ 2 * length (exts_words ps) + end_size s
length-segment_bytes s ps = omega (
  arith,
  length-append (words_bytes (exts_words ps)) (end_bytes s),
  length-words_bytes (exts_words ps),
  length-end_bytes s,
)

read_loop_short :
    (k : ℕ) (st : ReadState) → st.available_sz < 2 → read_loop little (suc k) st ≡ ok (st, suc k)
unfolding read_loop
read_loop_short k st h = let go : ltb st.available_sz 2 ≡ true = ground arith in simp go

-- The loop ends with inline data, or with the input used up.
read_loop_all :
    (s : Segment) (ps : List (Extent × Distance)) (k : ℕ) (rest : List ℕ)
    → Encodable s ps
    → (has_end_of_segment s ≡ false → rest ≡ [])
    → (st : ReadState) × (left : ℕ) × (read_loop little
          (length (exts_of ps) + suc k)
          (start_state (segment_bytes s ps ++ rest))
        ≡ ok (st, left))
      × (st.input ≡ rest)
      × (st.arr ≡ exts_of ps)
      × (st.checksum ≡ segment_checksum s ps)
      × (st.inline_data ≡ (if has_end_of_segment s then some s.raw else none))
read_loop_all s ps k rest v none_left =
    let ws : List ℕ = exts_words ps in
    let whole : List ℕ = segment_bytes s ps ++ rest in
    let start : ReadState = start_state whole in
    let mid : List ℕ = end_bytes s ++ rest in
    let st : ReadState = added_all ps (got ws mid start) in
    let size : length whole ≡ 2 * length ws + end_size s + length rest =
      omega (arith, length-append (segment_bytes s ps) rest, length-segment_bytes s ps) in
    let regroup : whole ≡ words_bytes ws ++ mid =
      append_assoc (words_bytes ws) (end_bytes s) rest in
    let loop = read_loop-exts ps (suc k) mid start v.placed empty_span (omega (arith, size)) in
    let first : read_loop little (length (exts_of ps) + suc k) start ≡ read_loop little (suc k) st =
      subst
        (λ i.
          read_loop little (length (exts_of ps) + suc k) (record start { input = i })
          ≡ read_loop little (suc k) st)
        (sym regroup) loop in
    elim (Bool-cases (has_end_of_segment s)) [
      | inl y ↦
          let ends : end_size s ≡ 2 + even_part (length s.raw) = simp y refl in
          (
            ended s rest st,
            k,
            first ∙ read_loop_end s k rest st y v.small v.bytes (omega (arith, size, ends)),
            refl,
            refl,
            refl,
            simp y refl,
          )
      | inr n ↦
          let e = none_left n in
          let ends : end_size s ≡ 0 = simp n refl in
          (
            st,
            suc k,
            first ∙ read_loop_short k st (omega (arith, size, ends, ap length e)),
            simp n refl,
            refl,
            simp n refl,
            simp n refl,
          )
    ]

pub exts_words-length :
    (ps : List (Extent × Distance)) → length (exts_of ps) ≤ length (exts_words ps)
exts_words-length [] = omega arith
exts_words-length ((e, d) ∷ ps) = ground (
  arith,
  length-append (nr_words e d ++ cnt_words e) (exts_words ps),
  length-append (nr_words e d) (cnt_words e),
  exts_words-length ps,
)

-- On a little-endian host, from the bytes of a segment that its structure can hold, reading with
-- the default parameters (any end, no length) ends, with the segment's extents, inline data and
-- end, leaves what follows, and computes the folded sum of the words. What follows must be nothing
-- if the segment has no end.
pub read_struct_from-bytes :
    (s t : Segment) (ps : List (Extent × Distance)) (rest : List ℕ)
    → Encodable s ps
    → (has_end_of_segment s ≡ false → rest ≡ [])
    → read_struct_from little t any_end no_len (segment_bytes s ps ++ rest)
      ≡ ok (
        record t { arr = s.arr; raw = s.raw; inline_present = has_end_of_segment s },
        rest,
        fold_inet_checksum (segment_checksum s ps),
      )
unfolding read_struct_from check_end
read_struct_from-bytes s t ps rest v none_left =
    let k : ℕ = no_len - length (exts_of ps) - 1 in
    let count : length (exts_of ps) + suc k ≡ no_len =
      omega (arith, exts_words-length ps, v.fits) in
    let (st, left, loop, input, arr, sum, data') = read_loop_all s ps k rest v none_left in
    let loop' : read_loop little no_len (start_state (segment_bytes s ps ++ rest)) ≡ ok (st, left) =
      subst (λ n. read_loop little n (start_state (segment_bytes s ps ++ rest)) ≡ ok (st, left))
        count loop in
    rw (loop', input, sum, arr ∙ v.same_arr) (ground (arith, data', v.tidy, none_left))
