-- ===== src/Tests/Runs.antt =====
-- The structure of a segment, the gaps between extents, and the checksum, at concrete inputs.
use xoz.Base.{
  ℕ, ◌+◌, ◌-◌, ◌^◌, ◌<◌, ◌≡◌, refl, arith, true, false, List, [], ◌∷◌, ◌++◌, length, ok, err,
  extent_overlap, ◌↔◌, All,
}
use xoz.Extent.{
  Extent, Distance, distance_in_blks, distance_at_same_start, is_suballoc, blk_nr, span_cnt,
  past_end_blk_nr, empty_extent, split,
}
use xoz.Extent.Laws.{IsExtent, extent_of}
use xoz.Extent.Gaps.{Locates, Overlaps, distance_in_blks-Locates, distance_in_blks-Overlaps}
use xoz.Extent.Splits.{split-blocks}
use xoz.Io.Stream.{Writer}
use xoz.Mem.Checksum.{
  inet_checksum_bytes, inet_checksum_val, fold_inet_checksum, inet_checksum_words, inet_add,
  inet_remove, is_inet_checksum_good,
}
use xoz.Mem.Checksum.Laws.{
  Folds, inet_checksum_words-Folds, is_inet_checksum_good-complement, remove-add,
}
use xoz.Mem.Endian.{load_u16, little}
use xoz.Segment.{Segment, calc_struct_footprint_size}
use xoz.Segment.Write.{smallcnt_of, write_struct_into}
use xoz.Segment.Read.{any_end, no_len, read_struct_from}
use xoz.Segment.Codec.Layout.{Placed}
use xoz.Segment.Codec.Footprint.{calc_struct_footprint_size-length}
use xoz.Segment.Codec.Written.{segment_bytes, write_struct_into-bytes}
use xoz.Segment.Codec.RoundTrip.{Encodable, read_struct_from-bytes}
use xoz.Segment.Codec.ReadBack.{IsSegment, read-write}

abbrev run : Extent
run = record { raw_blk_nr = 10; raw_blk_cnt = 3 }

abbrev part : Extent
part = record { raw_blk_nr = 2 ^ 31 + 13; raw_blk_cnt = 5 }

-- Three blocks, two sub-blocks of the block after them, and three bytes.
abbrev small : Segment
small = record {
  arr = run ∷ part ∷ [];
  blk_sz_order = 10;
  inline_present = true;
  explicit_end_of_segment_present = false;
  raw = 1 ∷ 2 ∷ 3 ∷ [];
}

abbrev empty : Segment
empty = record {
  arr = [];
  blk_sz_order = 10;
  inline_present = false;
  explicit_end_of_segment_present = false;
  raw = [];
}

abbrev room : Writer
room = record { written = []; room = 100 }

abbrev near_run : Distance
near_run = record { gap = 10; is_backwards = false; is_near = true }

abbrev near_part : Distance
near_part = record { gap = 0; is_backwards = false; is_near = true }

abbrev parts : List (Extent × Distance)
parts = (run, near_run) ∷ (part, near_part) ∷ []

run-IsExtent : IsExtent run
run-IsExtent = record { nr_fits = omega arith; word_fits = omega arith; cnt_fits = omega arith }

part-IsExtent : IsExtent part
part-IsExtent = record { nr_fits = omega arith; word_fits = omega arith; cnt_fits = omega arith }

parts-Placed : Placed empty_extent parts
unfolding distance_in_blks distance_at_same_start past_end_blk_nr span_cnt blk_nr is_suballoc
parts-Placed = (refl, run-IsExtent, (refl, part-IsExtent, tt))

small-bytes : All (λ b. b < 256) small.raw
small-bytes = (omega arith, (omega arith, (omega arith, tt)))

small-IsSegment : IsSegment small
small-IsSegment = record {
  exts_ok = (run-IsExtent, (part-IsExtent, tt));
  raw_bytes = small-bytes;
  raw_small = omega arith;
  count_fits = omega arith;
  no_stray_data = λ e. ground arith;
}

small-Encodable : Encodable small parts
unfolding is_suballoc smallcnt_of
small-Encodable = record {
  placed = parts-Placed;
  same_arr = refl;
  small = omega arith;
  bytes = small-bytes;
  fits = omega arith;
  tidy = λ e. ground arith;
}

abbrev on_disk : List ℕ
on_disk = 10 ∷ 28 ∷ 0 ∷ 132 ∷ 5 ∷ 0 ∷ 3 ∷ 195 ∷ 1 ∷ 2 ∷ []

small-written :
    write_struct_into little small room ≡ ok (record { written = on_disk; room = 90 }, 25876)
unfolding is_suballoc smallcnt_of inet_checksum_bytes inet_checksum_words fold_inet_checksum
    load_u16 inet_checksum_val
small-written =
    write_struct_into-bytes small parts room parts-Placed refl (omega arith) small-bytes
      (omega arith) (omega arith)

read-write_example :
    (bytes : List ℕ) × (on_disk ≡ [] ++ bytes)
    × (90 + length bytes ≡ 100)
    × (calc_struct_footprint_size small ≡ ok (length bytes))
    × (read_struct_from little empty any_end no_len (bytes ++ 7 ∷ []) ≡ ok (small, 7 ∷ [], 25876))
read-write_example =
    read-write small empty room (record { written = on_disk; room = 90 }) 25876 (7 ∷ [])
      small-IsSegment (λ e. ground arith) small-written

write_struct_into-bytes_example :
    write_struct_into little small room
    ≡ ok (record { written = on_disk; room = 90 }, fold_inet_checksum 91411)
unfolding is_suballoc smallcnt_of inet_checksum_bytes inet_checksum_words fold_inet_checksum
    load_u16
write_struct_into-bytes_example =
    write_struct_into-bytes small parts room parts-Placed refl (omega arith) small-bytes
      (omega arith) (omega arith)

read_struct_from-bytes_example :
    read_struct_from little empty any_end no_len (segment_bytes small parts ++ [])
    ≡ ok (small, [], fold_inet_checksum 91411)
unfolding is_suballoc smallcnt_of inet_checksum_bytes inet_checksum_words fold_inet_checksum
    load_u16
read_struct_from-bytes_example =
    read_struct_from-bytes small empty parts [] small-Encodable (λ e. refl)

calc_struct_footprint_size-length_example : calc_struct_footprint_size small ≡ ok 10
unfolding is_suballoc smallcnt_of inet_checksum_bytes inet_checksum_words fold_inet_checksum
    load_u16
calc_struct_footprint_size-length_example =
    calc_struct_footprint_size-length small parts parts-Placed refl (omega arith) (omega arith)

distance_in_blks-Locates_example : Locates run part near_part
unfolding distance_in_blks distance_at_same_start past_end_blk_nr span_cnt blk_nr is_suballoc
distance_in_blks-Locates_example = distance_in_blks-Locates run part near_part refl

distance_in_blks-Overlaps_example :
    (distance_in_blks run run ≡ err extent_overlap) ↔ Overlaps run run
unfolding span_cnt is_suballoc
distance_in_blks-Overlaps_example = distance_in_blks-Overlaps run run (omega arith) (omega arith)

split-blocks_example : split run 2 ≡ ok (extent_of 10 2 false, extent_of 12 1 false)
unfolding blk_nr is_suballoc
split-blocks_example = split-blocks run 2 run-IsExtent refl (omega arith) (omega arith)

inet_checksum_words-Folds_example : Folds 65538 (inet_checksum_words (65535 ∷ 3 ∷ []))
inet_checksum_words-Folds_example =
    inet_checksum_words-Folds (65535 ∷ 3 ∷ []) (omega arith, (omega arith, tt)) (omega arith)

is_inet_checksum_good-complement_example :
    is_inet_checksum_good (
      inet_checksum_words
        ((65535 ∷ 3 ∷ []) ++ (0xffff - inet_checksum_words (65535 ∷ 3 ∷ [])) ∷ []))
    ≡ ok true
is_inet_checksum_good-complement_example =
    is_inet_checksum_good-complement (65535 ∷ 3 ∷ []) (omega arith, (omega arith, tt)) (omega arith)

remove-add_example :
    fold_inet_checksum (inet_remove (inet_add 70000 9) 9) ≡ fold_inet_checksum 70000
remove-add_example = remove-add 70000 9 (omega arith) (omega arith) (omega arith)
