-- ===== src/Segment/Codec/Encode.antt =====
-- What the writer sends, on a little-endian host, when there is room for it.
use xoz.Base.{
  ℕ, ◌+◌, ◌-◌, ◌*◌, ◌/◌, ◌%◌, ◌^◌, ◌≤◌, ◌<◌, ◌≡◌, refl, ap, ◌∙◌, arith, true, not, ◌&&◌, ◌||◌, ◌==◌,
  leb, List, [], ◌∷◌, ◌++◌, length, length-append, ok, ◌>>=◌, Bool-cases, inl, inr,
}
use xoz.Base.Bits.{bit_and_mod}
use xoz.Extent.{
  Extent, Distance, is_suballoc, blk_nr, blk_cnt, distance_in_blks, distance_at_same_start,
}
use xoz.Extent.Laws.{IsExtent}
use xoz.Io.Stream.{writeall, write_u16}
use xoz.Mem.Endian.{little, u16_to_le}
use xoz.Mem.Endian.Laws.{write_u16_to_le_lem}
use xoz.Segment.Write.{
  WriteState, consume_room, put_u16, smallcnt_of, write_nr, write_cnt, write_ext, write_exts,
}
use xoz.Segment.Codec.Layout.{
  near_word, far_word, nr_words, cnt_words, words_bytes, add_words, exts_words, exts_of, last_of,
  Placed,
}
use xoz.Segment.Codec.Header.{
  near_header-eq, far_header-eq, near_word-HeaderOf, far_word-HeaderOf, smallcnt_of-suballoc,
}
use mathlib.Core.List.{append_assoc, append-nil}

-- The state after some words were written and their room was accounted for.
abbrev pub sent : List ℕ → WriteState → WriteState
sent ws st = record st {
  io = record { written = st.io.written ++ words_bytes ws; room = st.io.room - 2 * length ws };
  remain_sz = st.remain_sz - 2 * length ws;
  checksum = add_words st.checksum ws;
}

-- There is room for the bytes, in the stream and in the footprint.
abbrev pub HasRoom : ℕ → WriteState → Type 0
HasRoom n st = (n ≤ st.remain_sz) × (n ≤ st.io.room)

pub put_u16-eq :
    (x : ℕ) (st : WriteState)
    → x < 2 ^ 16
    → 2 ≤ st.io.room
    → put_u16 little x st
      ≡ ok (record st {
        io = record {
          written = st.io.written ++ (x % 256) ∷ (x / 256) ∷ [];
          room = st.io.room - 2;
        };
        checksum = (st.checksum + x) % 2 ^ 32;
      })
unfolding put_u16 write_u16 writeall
put_u16-eq x st h r = rw (write_u16_to_le_lem little x h) (ground arith)

consume_room-eq :
    (n : ℕ) (st : WriteState)
    → n ≤ st.remain_sz
    → consume_room n st ≡ ok (record st { remain_sz = st.remain_sz - n })
unfolding consume_room
consume_room-eq n st h = ground arith

send_one :
    (x : ℕ) (st : WriteState)
    → x < 2 ^ 16
    → HasRoom 2 st
    → (consume_room 2 st >>= put_u16 little x) ≡ ok (sent (x ∷ []) st)
send_one x st h r =
    rw (consume_room-eq 2 st r.0) (put_u16-eq x (record st { remain_sz = st.remain_sz - 2 }) h r.1)

send_two :
    (x y : ℕ) (st : WriteState)
    → x < 2 ^ 16
    → y < 2 ^ 16
    → HasRoom 4 st
    → (consume_room 4 st >>= λ st'. put_u16 little x st' >>= put_u16 little y)
      ≡ ok (sent (x ∷ y ∷ []) st)
send_two x y st h k r =
    rw
      (
        consume_room-eq 4 st r.0,
        put_u16-eq x (record st { remain_sz = st.remain_sz - 4 }) h (omega arith),
      )
      (put_u16-eq y _ k (omega arith)
        ∙ ground (
          arith,
          append_assoc st.io.written ((x % 256) ∷ (x / 256) ∷ []) ((y % 256) ∷ (y / 256) ∷ []),
        ))

write_nr-sent :
    (e : Extent) (d : Distance) (st : WriteState)
    → (d.is_near ≡ true → d.gap ≤ 511)
    → HasRoom (2 * length (nr_words e d)) st
    → write_nr little e d st ≡ ok (sent (nr_words e d) st)
unfolding write_nr
write_nr-sent e d st near r = elim (Bool-cases d.is_near) [
  | inl y ↦
      simp (y, near_header-eq e d (near y))
        (send_one (near_word e d) st (near_word-HeaderOf e d (near y)).fits (simp y at r))
  | inr n ↦
      simp (n, far_header-eq e, bit_and_mod 16)
        (send_two (far_word e) (blk_nr e % 2 ^ 16) st (far_word-HeaderOf e).fits (omega arith)
          (simp n at r))
]

write_cnt-sent :
    (e : Extent) (st : WriteState)
    → blk_cnt e < 2 ^ 16
    → HasRoom (2 * length (cnt_words e)) st
    → write_cnt little e st ≡ ok (sent (cnt_words e) st)
unfolding write_cnt u16_to_le
write_cnt-sent e st h r = elim (Bool-cases (is_suballoc e || smallcnt_of e == 0)) [
  | inl y ↦ simp y (send_one (blk_cnt e) st h (simp y at r))
  | inr n ↦ simp (n, append-nil) (ground arith)
]

pub add_words-append :
    (c : ℕ) (xs ys : List ℕ) → add_words c (xs ++ ys) ≡ add_words (add_words c xs) ys
add_words-append c [] ys = refl
add_words-append c (x ∷ xs) ys = add_words-append ((c + x) % 2 ^ 32) xs ys

pub words_bytes-append :
    (xs ys : List ℕ) → words_bytes (xs ++ ys) ≡ words_bytes xs ++ words_bytes ys
words_bytes-append [] ys = refl
words_bytes-append (x ∷ xs) ys = simp (words_bytes-append xs ys)

sent-append : (xs ys : List ℕ) (st : WriteState) → sent ys (sent xs st) ≡ sent (xs ++ ys) st
sent-append xs ys st = ground (
  arith,
  add_words-append st.checksum xs ys,
  words_bytes-append xs ys,
  append_assoc st.io.written (words_bytes xs) (words_bytes ys),
  length-append xs ys,
)

pub near_gap :
    (prev e : Extent) (d : Distance)
    → distance_in_blks prev e ≡ ok d
    → d.is_near ≡ true
    → d.gap ≤ 511
unfolding distance_in_blks distance_at_same_start
near_gap prev e d h n = ground arith

nr_words-pos : (e : Extent) (d : Distance) → 1 ≤ length (nr_words e d)
nr_words-pos e d = ground arith

write_ext-sent :
    (e : Extent) (d : Distance) (st : WriteState)
    → IsExtent e
    → distance_in_blks st.prev e ≡ ok d
    → HasRoom (2 * length (nr_words e d ++ cnt_words e)) st
    → write_ext little e st ≡ ok (record (sent (nr_words e d ++ cnt_words e) st) { prev = e })
unfolding write_ext
write_ext-sent e d st v h r =
    let n : ℕ = length (nr_words e d) in
    let l = length-append (nr_words e d) (cnt_words e) in
    let first : leb 2 st.remain_sz ≡ true = ground (arith, nr_words-pos e d, l) in
    let flags : not (is_suballoc e && not (smallcnt_of e == 0)) ≡ true =
      ground (arith, smallcnt_of-suballoc e) in
    simp
      (
        first,
        h,
        write_nr-sent e d st (near_gap st.prev e d h) (omega (arith, l)),
        flags,
        write_cnt-sent e (sent (nr_words e d) st) v.cnt_fits (omega (arith, l)),
      )
      (ap (λ (t : WriteState). ok (record t { prev = e }))
        (sent-append (nr_words e d) (cnt_words e) st))

-- The loop over the extents sends their words.
pub write_exts-sent :
    (ps : List (Extent × Distance)) (st : WriteState)
    → Placed st.prev ps
    → HasRoom (2 * length (exts_words ps)) st
    → write_exts little (exts_of ps) st
      ≡ ok (record (sent (exts_words ps) st) { prev = last_of st.prev ps })
unfolding write_exts
write_exts-sent [] st v r = rw append-nil (ground arith)
write_exts-sent ((e, d) ∷ ps) st (h, v, more) r =
    let front : List ℕ = nr_words e d ++ cnt_words e in
    let tail : List ℕ = exts_words ps in
    let l = length-append front tail in
    rw (write_ext-sent e d st v h (omega (arith, l))) (
      write_exts-sent ps (record (sent front st) { prev = e }) more (omega (arith, l))
      ∙ ap (λ (t : WriteState). ok (record t { prev = last_of e ps })) (sent-append front tail st))
