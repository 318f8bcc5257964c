-- ===== src/Segment/Codec/Decode.antt =====
-- What the reader makes of the words of an extent, on a little-endian host.
use xoz.Base.{
  ℕ, suc, ◌+◌, ◌-◌, ◌*◌, ◌/◌, ◌%◌, ◌^◌, ◌≤◌, ◌<◌, ◌≡◌, ap, ◌∙◌, arith, Bool, true, false, leb, ltb,
  if◌then◌else◌, List, [], ◌∷◌, ◌++◌, length, length-append, ok, Bool-cases, inl, inr, bit_and,
  bit_or,
}
use xoz.Base.Bits.{bit_and_mod, bit_or_low}
use xoz.Extent.{
  Extent, Distance, is_suballoc, blk_nr, blk_cnt, span_cnt, past_end_blk_nr, distance_in_blks,
  make_extent,
}
use xoz.Extent.Laws.{IsExtent, blk_nr-lt, make_extent-ok, extent_of-fields}
use xoz.Extent.Gaps.{distance_in_blks-Locates}
use xoz.Io.Stream.{read_u16}
use xoz.Mem.Endian.{little}
use xoz.Mem.Endian.Laws.{read_u16_from_le_lem}
use xoz.Mem.Ints.{read_bits}
use xoz.Segment.Write.{smallcnt_of}
use xoz.Segment.Read.{ReadState, take_u16, read_far_nr, read_cnt, near_nr, read_ext, read_loop}
use xoz.Segment.Codec.Layout.{
  bit, near_word, far_word, nr_words, cnt_words, words_bytes, add_words, exts_words, exts_of,
  last_of, Placed,
}
use xoz.Segment.Codec.Encode.{near_gap, add_words-append, words_bytes-append}
use xoz.Segment.Codec.Header.{
  HeaderOf, near_word-HeaderOf, far_word-HeaderOf, bits_9, bits_low9, bits_low10,
}
use mathlib.Core.List.{append_assoc, append-nil}

-- The state before some words are read, and after.
abbrev pub facing : List ℕ → List ℕ → ReadState → ReadState
facing ws rest st = record st { input = words_bytes ws ++ rest }

abbrev pub got : List ℕ → List ℕ → ReadState → ReadState
got ws rest st = record st {
  input = rest;
  available_sz = st.available_sz - 2 * length ws;
  checksum = add_words st.checksum ws;
}

pub take_u16-got :
    (x : ℕ) (rest : List ℕ) (st : ReadState)
    → x < 2 ^ 16
    → 2 ≤ st.available_sz
    → take_u16 little (facing (x ∷ []) rest st) ≡ ok (x, got (x ∷ []) rest st)
unfolding take_u16 read_u16
take_u16-got x rest st h r =
    ground (arith, read_u16_from_le_lem little (x % 256) (x / 256) (omega arith) (omega arith))

-- The count is in the header, or is the next word.
read_cnt-got :
    (e : Extent) (near : Bool) (low hdr : ℕ) (rest : List ℕ) (st : ReadState)
    → HeaderOf e near low hdr
    → blk_cnt e < 2 ^ 16
    → 2 * length (cnt_words e) ≤ st.available_sz
    → read_cnt little hdr (facing (cnt_words e) rest st) ≡ ok (blk_cnt e, got (cnt_words e) rest st)
unfolding read_cnt smallcnt_of
read_cnt-got e near low hdr rest st h v r =
    ground (arith, h.suballoc, h.smallcnt, take_u16-got (blk_cnt e) rest st v)

read_far_nr-got :
    (e : Extent) (hdr : ℕ) (rest : List ℕ) (st : ReadState)
    → HeaderOf e false (blk_nr e / 2 ^ 16) hdr
    → 2 ≤ st.available_sz
    → read_far_nr little hdr (facing ((blk_nr e % 2 ^ 16) ∷ []) rest st)
      ≡ ok (blk_nr e, got ((blk_nr e % 2 ^ 16) ∷ []) rest st)
unfolding read_far_nr
read_far_nr-got e hdr rest st h r =
    let hi : ℕ = blk_nr e / 2 ^ 16 in
    let high : bit_and (read_bits hdr 0x03ff) 0x03ff ≡ hi =
      omega (arith, bit_and_mod 10 (read_bits hdr 0x03ff), bits_low10 hdr, h.low_bits) in
    let whole : bit_or (hi * 2 ^ 16) (blk_nr e % 2 ^ 16) ≡ blk_nr e =
      omega (arith, bit_or_low 16 hi (blk_nr e % 2 ^ 16) (omega arith)) in
    simp (take_u16-got (blk_nr e % 2 ^ 16) rest st (omega arith) r, high, whole)

-- The jump leads back from the extent before to the extent that was written.
near_nr-ok :
    (prev e : Extent) (d : Distance) (hdr : ℕ)
    → distance_in_blks prev e ≡ ok d
    → d.is_near ≡ true
    → hdr % 2 ^ 10 ≡ d.gap + bit d.is_backwards * 2 ^ 9
    → span_cnt prev < 2 ^ 16
    → near_nr hdr (span_cnt e) prev ≡ ok (blk_nr e)
unfolding near_nr past_end_blk_nr
near_nr-ok prev e d hdr h n low s = ground (
  arith,
  distance_in_blks-Locates prev e d h,
  bits_9 hdr,
  bits_low9 hdr,
  blk_nr-lt prev,
  blk_nr-lt e,
)

-- The state after an extent was added.
abbrev pub added : Extent → ReadState → ReadState
added e st = record st { arr = st.arr ++ e ∷ []; prev = e }

rebuilt : (e : Extent) → IsExtent e → make_extent (blk_nr e) (blk_cnt e) (is_suballoc e) ≡ ok e
rebuilt e v =
    make_extent-ok (blk_nr e) (blk_cnt e) (is_suballoc e) (blk_nr-lt e)
    ∙ ap ok (extent_of-fields e v)

in_range : (e : Extent) → leb (blk_nr e) (2 ^ 26 - 1) ≡ true
in_range e = ground (arith, blk_nr-lt e)

read_ext_near :
    (e : Extent) (d : Distance) (hdr : ℕ) (rest : List ℕ) (st : ReadState)
    → IsExtent e
    → distance_in_blks st.prev e ≡ ok d
    → d.is_near ≡ true
    → HeaderOf e true (d.gap + bit d.is_backwards * 2 ^ 9) hdr
    → span_cnt st.prev < 2 ^ 16
    → 2 * length (cnt_words e) ≤ st.available_sz
    → read_ext little hdr (facing (cnt_words e) rest st) ≡ ok (added e (got (cnt_words e) rest st))
unfolding read_ext
read_ext_near e d hdr rest st v h n hd s r =
    let nr : near_nr hdr (if is_suballoc e then 1 else blk_cnt e) st.prev ≡ ok (blk_nr e) =
      unfold span_cnt in near_nr-ok st.prev e d hdr h n hd.low_bits s in
    simp (
      hd.suballoc,
      hd.near_flag,
      read_cnt-got e true _ hdr rest st hd v.cnt_fits r,
      nr,
      in_range e,
      rebuilt e v,
    )

read_ext_far :
    (e : Extent) (hdr : ℕ) (rest : List ℕ) (st : ReadState)
    → IsExtent e
    → HeaderOf e false (blk_nr e / 2 ^ 16) hdr
    → 2 + 2 * length (cnt_words e) ≤ st.available_sz
    → read_ext little hdr (facing ((blk_nr e % 2 ^ 16) ∷ cnt_words e) rest st)
      ≡ ok (added e (got ((blk_nr e % 2 ^ 16) ∷ cnt_words e) rest st))
unfolding read_ext
read_ext_far e hdr rest st v hd r =
    let lo : ℕ = blk_nr e % 2 ^ 16 in
    let after : List ℕ = words_bytes (cnt_words e) ++ rest in
    simp
      (
        hd.suballoc,
        hd.near_flag,
        read_far_nr-got e hdr after st hd (omega arith),
        read_cnt-got e false _ hdr rest (got (lo ∷ []) after st) hd v.cnt_fits (omega arith),
        in_range e,
        rebuilt e v,
      )
      (ground arith)

got-append :
    (xs ys mid rest : List ℕ) (st : ReadState)
    → got ys rest (got xs mid st) ≡ got (xs ++ ys) rest st
got-append xs ys mid rest st =
    ground (arith, add_words-append st.checksum xs ys, length-append xs ys)

added-append :
    (e : Extent) (xs ys mid rest : List ℕ) (st : ReadState)
    → added e (got ys rest (got xs mid st)) ≡ added e (got (xs ++ ys) rest st)
added-append e xs ys mid rest st = ap (added e) (got-append xs ys mid rest st)

-- One round of the loop reads one extent.
read_loop_round :
    (e : Extent) (d : Distance) (k : ℕ) (rest : List ℕ) (st : ReadState)
    → IsExtent e
    → distance_in_blks st.prev e ≡ ok d
    → span_cnt st.prev < 2 ^ 16
    → 2 * length (nr_words e d ++ cnt_words e) ≤ st.available_sz
    → read_loop little (suc k) (facing (nr_words e d ++ cnt_words e) rest st)
      ≡ read_loop little k (added e (got (nr_words e d ++ cnt_words e) rest st))
unfolding read_loop
read_loop_round e d k rest st v h s r = elim (Bool-cases d.is_near) [
  | inl y ↦
      let hd = near_word-HeaderOf e d (near_gap st.prev e d h y) in
      let after : List ℕ = words_bytes (cnt_words e) ++ rest in
      let room : 2 + 2 * length (cnt_words e) ≤ st.available_sz = ground (arith, y) in
      let go : ltb st.available_sz 2 ≡ false = ground arith in
      simp
        (
          y,
          go,
          take_u16-got (near_word e d) after st hd.fits (omega arith),
          hd.not_inline,
          read_ext_near e d (near_word e d) rest (got (near_word e d ∷ []) after st) v h y hd s
              (omega arith),
        )
        (ap (read_loop little k) (added-append e (near_word e d ∷ []) (cnt_words e) after rest st))
  | inr n ↦
      let hd = far_word-HeaderOf e in
      let lo : ℕ = blk_nr e % 2 ^ 16 in
      let after : List ℕ = words_bytes (lo ∷ cnt_words e) ++ rest in
      let room : 4 + 2 * length (cnt_words e) ≤ st.available_sz = ground (arith, n) in
      let go : ltb st.available_sz 2 ≡ false = ground arith in
      simp
        (
          n,
          go,
          take_u16-got (far_word e) after st hd.fits (omega arith),
          hd.not_inline,
          read_ext_far e (far_word e) rest (got (far_word e ∷ []) after st) v hd (omega arith),
        )
        (ap (read_loop little k)
          (added-append e (far_word e ∷ []) (lo ∷ cnt_words e) after rest st))
]

-- The state after all the extents were added.
abbrev pub added_all : List (Extent × Distance) → ReadState → ReadState
added_all ps st = record st { arr = st.arr ++ exts_of ps; prev = last_of st.prev ps }

span_cnt-lt : (e : Extent) → IsExtent e → span_cnt e < 2 ^ 16
span_cnt-lt e v = unfold span_cnt in ground (arith, v.cnt_fits)

-- The loop reads the extents that were written, one by one.
pub read_loop-exts :
    (ps : List (Extent × Distance)) (k : ℕ) (rest : List ℕ) (st : ReadState)
    → Placed st.prev ps
    → span_cnt st.prev < 2 ^ 16
    → 2 * length (exts_words ps) ≤ st.available_sz
    → read_loop little (length (exts_of ps) + k) (facing (exts_words ps) rest st)
      ≡ read_loop little k (added_all ps (got (exts_words ps) rest st))
read_loop-exts [] k rest st v s r = ground (arith, append-nil st.arr)
read_loop-exts ((e, d) ∷ ps) k rest st (h, v, more) s r =
    let front : List ℕ = nr_words e d ++ cnt_words e in
    let tail : List ℕ = exts_words ps in
    let l = length-append front tail in
    let mid : List ℕ = words_bytes tail ++ rest in
    let first = read_loop_round e d (length (exts_of ps) + k) mid st v h s (omega (arith, l)) in
    let next =
      read_loop-exts ps k rest (added e (got front mid st)) more (span_cnt-lt e v)
        (omega (arith, l)) in
    let input : words_bytes (front ++ tail) ++ rest ≡ words_bytes front ++ mid =
      rw (words_bytes-append front tail)
        (append_assoc (words_bytes front) (words_bytes tail) rest) in
    let count : suc (length (exts_of ps)) + k ≡ suc (length (exts_of ps) + k) = omega arith in
    rw (count, input) first
    ∙ next
    ∙ ap (read_loop little k) (
        ground (
          arith,
          add_words-append st.checksum front tail,
          l,
          append_assoc st.arr (e ∷ []) (exts_of ps),
        ))
