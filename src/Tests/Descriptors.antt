-- ===== src/Tests/Descriptors.antt =====
-- A descriptor at concrete inputs.
use xoz.Base.{
  ℕ, ◌<◌, ◌≤◌, Bool, ◌^◌, ◌≡◌, refl, arith, ◌++◌, length, All, true, false, List, [], ◌∷◌, ok,
}
use xoz.Dsc.Codec.Written.{IsAppending, load_header_from-write_struct_into}
use xoz.Dsc.Codec.RoundTrip.{IsHeader, loaded_header}
use xoz.Dsc.Load.{load_header_from}
use xoz.Ids.{IdManager, set_contains, set_insert}
use xoz.Segment.Codec.ReadBack.{IsSegment}
use xoz.Io.Stream.Appends.{writeall-Appends}
use xoz.Dsc.{
  Header, Descriptor, Subclass, does_hdr_isize_fit, chk_content_parts_consistency, chk_content_part,
  chk_content_parts_count, chk_dset_type, count_incompressible_cparts, chk_hdr_isize_fit_or_fail,
  stores_id, is_id_temporal, is_id_persistent, chk_rw_specifics_on_idata, chk_struct_footprint,
  calc_struct_footprint_size, parts_footprint, part_footprint, does_hdr_csize_fit, should_be_dset,
  incompressible,
}
use xoz.Dsc.Write.{
  write_struct_into, chk_before_write, put_header, put_idata, first_field, put_id, put_content,
  put_ex_type, id_field,
}
use xoz.Dsc.Parts.{put_word, write_content_parts, put_parts, put_size, put_segment, size_field}
use xoz.Segment.{
  Segment, segment_data_space_size, sum_data_space, fail_if_bad_inline_sz, exts_footprint,
  calc_struct_footprint_size as segment_footprint,
}
use xoz.Segment.Write.{
  write_struct_into as write_segment, write_exts, write_inline, inline_header, consume_room,
  put_u16,
}
use xoz.Mem.Ints.{assert_integral_cast, write_bits, write_bits_u32, countr_zero, countr_zero_u32}
use xoz.Io.Stream.{Writer, writeall, write_u16, write_u32}
use xoz.Mem.Endian.{
  little, write_u16_to_le, u16_to_le, store_u16, u32_to_le, store_u32, load_u16, read_u16_from_le,
}
use xoz.Mem.Checksum.{
  inet_checksum_val, inet_to_u16, fold_inet_checksum, inet_checksum_bytes, inet_checksum_words,
}
use xoz.Mem.Checksum.Stream.{inet_checksum_io, sum_batches, sum_batch, sum_remain}

abbrev five_bytes : Segment
five_bytes = record {
  arr = [];
  blk_sz_order = 10;
  inline_present = true;
  explicit_end_of_segment_present = true;
  raw = 1 ∷ 2 ∷ 3 ∷ 4 ∷ 5 ∷ [];
}

-- It writes two bytes of its own.
abbrev pub pair_writer : Subclass
pair_writer = record {
  write_struct_specifics_into = writeall (8 ∷ 9 ∷ []);
  is_descriptor_set = false;
}

pair_writer-IsAppending : IsAppending pair_writer
pair_writer-IsAppending w out h = (8 ∷ 9 ∷ [], writeall-Appends (8 ∷ 9 ∷ []) w out h)

-- A type that needs its own field, a persistent identifier, one part in use and one empty part.
abbrev sample_header : Header
sample_header = record {
  type = 4096;
  id = 7;
  isize = 4;
  cparts =
      record { pending = false; future_csize = 0; csize = 5; segm = five_bytes }
      ∷ record {
        pending = false;
        future_csize = 0;
        csize = 0;
        segm = record five_bytes { inline_present = false; raw = [] };
      }
      ∷ [];
}

abbrev pub sample : Descriptor
sample = record { hdr = sample_header; decl_cpart_cnt = 2; future_idata = 6 ∷ 7 ∷ []; checksum = 0 }

abbrev page : Writer
page = record { written = []; room = 100 }

abbrev on_disk : List ℕ
on_disk =
    255 ∷ 139 ∷ 7 ∷ 0 ∷ 0 ∷ 0 ∷ 0 ∷ 0 ∷ 5 ∷ 0 ∷ 5 ∷ 197 ∷ 1 ∷ 2 ∷ 3 ∷ 4 ∷ 0 ∷ 16 ∷ 8 ∷ 9 ∷ 6 ∷ 7
    ∷ []

sample-written :
    write_struct_into little pair_writer sample page
    ≡ ok (record { written = on_disk; room = 78 }, record sample { checksum = 30499 })
unfolding does_hdr_isize_fit chk_content_parts_consistency chk_content_part chk_content_parts_count
    chk_dset_type count_incompressible_cparts chk_hdr_isize_fit_or_fail stores_id is_id_temporal
    is_id_persistent chk_rw_specifics_on_idata chk_struct_footprint calc_struct_footprint_size
    parts_footprint part_footprint does_hdr_csize_fit should_be_dset incompressible
    write_struct_into chk_before_write put_header put_idata first_field put_id put_content
    put_ex_type id_field put_word write_content_parts put_parts put_size put_segment size_field
    segment_data_space_size sum_data_space fail_if_bad_inline_sz exts_footprint segment_footprint
    write_segment write_exts write_inline inline_header consume_room put_u16 assert_integral_cast
    write_bits write_bits_u32 countr_zero countr_zero_u32 write_u16 write_u32 write_u16_to_le
    u16_to_le store_u16 u32_to_le store_u32 load_u16 read_u16_from_le inet_checksum_val inet_to_u16
    fold_inet_checksum inet_checksum_bytes inet_checksum_words inet_checksum_io sum_batches
    sum_batch sum_remain writeall
sample-written = refl

five_bytes-IsSegment :
    (present : Bool) (raw : List ℕ)
    → All (λ b. b < 256) raw
    → length raw ≤ 5
    → IsSegment (record five_bytes { inline_present = present; raw = raw })
five_bytes-IsSegment present raw v le = record {
  exts_ok = tt;
  raw_bytes = v;
  raw_small = omega arith;
  count_fits = omega arith;
  no_stray_data = λ none. ground (arith, none);
}

abbrev taken_ids : IdManager
taken_ids = record { next_temporal_id = 2 ^ 31; persistent_ids = 3 ∷ [] }

sample-IsHeader : IsHeader 10 taken_ids sample_header
unfolding set_contains
sample-IsHeader = record {
  id_small = omega arith;
  cparts = (
    record {
      segm = five_bytes-IsSegment true five_bytes.raw (omega arith) (omega arith);
      ended = refl;
      order = refl;
      small = omega arith;
    },
    (
      record {
        segm = five_bytes-IsSegment false [] tt (omega arith);
        ended = refl;
        order = refl;
        small = omega arith;
      },
      tt,
    ),
  );
  id_new = λ small. refl;
  temporal = omega arith;
}

load_header_from-write_struct_into_example :
    (head : List ℕ) × (idata : List ℕ) × (on_disk ≡ [] ++ (head ++ idata))
    × (length idata ≡ 4)
    × (load_header_from little 10 taken_ids 0 (head ++ (idata ++ 42 ∷ []))
        ≡ ok (record {
          hdr = loaded_header 10 taken_ids sample_header;
          ex_type_used = true;
          checksum = 30499;
          input = idata ++ 42 ∷ [];
          ids = record taken_ids { persistent_ids = 3 ∷ 7 ∷ [] };
        }))
unfolding set_insert
load_header_from-write_struct_into_example =
    load_header_from-write_struct_into 10 taken_ids pair_writer sample
      (record sample { checksum = 30499 }) page (record { written = on_disk; room = 78 }) (42 ∷ [])
      sample-IsHeader pair_writer-IsAppending sample-written
