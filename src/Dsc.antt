-- ===== src/Dsc.antt =====
-- xoz/dsc/descriptor.h, xoz/dsc/descriptor.cpp, xoz/dsc/internals.h: the header of a descriptor, its
-- checks, and the size of its structure.
pub mod Parts
pub mod Write
pub mod Load
pub mod Update
pub mod Codec
use xoz.Base.{
  ℕ, zero, suc, ◌+◌, ◌-◌, ◌/◌, ◌%◌, ◌^◌, bit_and, Bool, true, false, not, ◌&&◌, ◌||◌, leb, ltb,
  ◌==◌, if◌then◌else◌, List, [], ◌∷◌, length, Error, Result, ok, err, inconsistent_xoz,
  would_end_up_inconsistent, require, assert, ◌>>=◌, ◌>>◌,
}
use xoz.Io.Stream.{Writer}
use xoz.Mem.Ints.{assert_integral_cast}
use xoz.Segment.{Segment, segment_data_space_size, calc_struct_footprint_size as segment_footprint}

pub record ContentPart : Type 0 where
  pub pending : Bool
  pub future_csize : ℕ
  pub csize : ℕ
  pub segm : Segment

pub record Header : Type 0 where
  pub type : ℕ
  pub id : ℕ
  pub isize : ℕ
  pub cparts : List ContentPart

pub record Descriptor : Type 0 where
  pub hdr : Header
  pub decl_cpart_cnt : ℕ
  pub future_idata : List ℕ
  pub checksum : ℕ

-- The virtual methods that a subclass gives.
pub record Subclass : Type 0 where
  pub write_struct_specifics_into : Writer → Result Writer
  pub is_descriptor_set : Bool

abbrev pub extended_type_val_threshold : ℕ
extended_type_val_threshold = 0x1ff

-- The exception of a check: that the file is inconsistent, or that it would end up so.
abbrev pub inconsistency : Bool → Error
inconsistency true = would_end_up_inconsistent
inconsistency false = inconsistent_xoz

unfoldable pub is_id_temporal : ℕ → Bool
is_id_temporal id = not (bit_and id 0x80000000 == 0)

unfoldable pub is_id_persistent : ℕ → Bool
unfolding is_id_temporal
is_id_persistent id = not (is_id_temporal id)

unfoldable pub does_hdr_isize_fit : ℕ → Bool
does_hdr_isize_fit hdr_isize = leb hdr_isize 127

unfoldable pub does_hdr_csize_fit : ℕ → Bool
does_hdr_csize_fit hdr_csize = leb hdr_csize 0x7fffffff

unfoldable pub chk_content_part : Bool → ContentPart → Result (Unit {0})
unfolding does_hdr_csize_fit
chk_content_part would_be cpart = do
  require (leb cpart.future_csize cpart.csize) (inconsistency would_be)
  space ← segment_data_space_size cpart.segm true
  require (leb cpart.csize space) (inconsistency would_be)
  require (does_hdr_csize_fit cpart.csize) (inconsistency would_be)

unfoldable pub chk_content_parts_consistency : Bool → List ContentPart → Result (Unit {0})
chk_content_parts_consistency would_be [] = ok tt
chk_content_parts_consistency would_be (cpart ∷ cparts) =
    chk_content_part would_be cpart >> chk_content_parts_consistency would_be cparts

unfoldable pub chk_content_parts_count : Bool → Header → ℕ → Result (Unit {0})
chk_content_parts_count would_be hdr decl_cpart_cnt =
    require (length hdr.cparts == decl_cpart_cnt) (inconsistency would_be)

unfoldable pub should_be_dset : ℕ → Bool
should_be_dset type = type == 0x0001 || leb 0x01e0 type && leb type (0x01e0 + 2048)

unfoldable pub chk_dset_type : Bool → Bool → Header → Result (Unit {0})
unfolding should_be_dset
chk_dset_type is_read_op is_descriptor_set hdr = do
  require (not (should_be_dset hdr.type && not is_descriptor_set)) (inconsistency (not is_read_op))
  require (not (not (should_be_dset hdr.type) && is_descriptor_set))
      (inconsistency (not is_read_op))

-- Whether the id is stored: it is persistent, or its field is needed for the high bit of isize.
unfoldable pub stores_id : Header → Bool
unfolding is_id_persistent
stores_id hdr = is_id_persistent hdr.id || leb 64 hdr.isize

unfoldable pub chk_hdr_isize_fit_or_fail : Bool → Header → Result (Unit {0})
chk_hdr_isize_fit_or_fail has_id hdr =
    require (ltb hdr.isize (if has_id then 128 else 64)) would_end_up_inconsistent

-- The parts up to the last one that has a size; the loop goes down from the end.
unfoldable pub incompressible : List ContentPart → ℕ
incompressible [] = 0
incompressible (cpart ∷ cparts) =
    let rest = incompressible cparts in if ltb 0 rest || ltb 0 cpart.csize then suc rest else 0

unfoldable pub count_incompressible_cparts : Header → Result ℕ
unfolding incompressible
count_incompressible_cparts hdr = do
  _ ← assert_integral_cast 16 (length hdr.cparts)
  ok (incompressible hdr.cparts)

unfoldable pub part_footprint : ContentPart → Result ℕ
part_footprint part = do
  n ← segment_footprint part.segm
  ok ((if ltb part.csize (2 ^ 15) then 2 else 4) + n)

unfoldable pub parts_footprint : List ContentPart → ℕ → ℕ → Result ℕ
unfolding part_footprint
parts_footprint parts zero sz = ok sz
parts_footprint [] (suc cnt) sz = ok sz
parts_footprint (part ∷ parts) (suc cnt) sz = do
  n ← part_footprint part
  parts_footprint parts cnt ((sz + n) % 2 ^ 32)

unfoldable pub calc_struct_footprint_size : Header → Result ℕ
unfolding parts_footprint
calc_struct_footprint_size hdr = do
  require (hdr.isize % 2 == 0) would_end_up_inconsistent
  let has_id = stores_id hdr
  chk_hdr_isize_fit_or_fail has_id hdr
  let sz = if has_id then 6 else 2
  cparts_cnt ← count_incompressible_cparts hdr
  sz ← (if ltb 0 cparts_cnt then parts_footprint hdr.cparts cparts_cnt (sz + 2) else ok sz)
  let sz = if leb extended_type_val_threshold hdr.type then (sz + 2) % 2 ^ 32 else sz
  ok ((sz + hdr.isize) % 2 ^ 32)

-- The positions that a subclass left, against the size that the header gives.
unfoldable pub chk_rw_specifics_on_idata : Bool → ℕ → ℕ → ℕ → Result (Unit {0})
chk_rw_specifics_on_idata is_read_op idata_begin subclass_end idata_sz = do
  require (leb idata_begin subclass_end) (inconsistency (not is_read_op))
  require (leb (subclass_end - idata_begin) idata_sz) (inconsistency (not is_read_op))
  require (leb idata_sz (subclass_end - idata_begin)) (inconsistency (not is_read_op))

-- A type that was read from the extended field, but would fit the first one, is no mismatch.
unfoldable pub chk_struct_footprint : Bool → ℕ → ℕ → Header → Bool → Result (Unit {0})
chk_struct_footprint is_read_op dsc_begin dsc_end hdr ex_type_used = do
  let based_io = (dsc_end + 2 ^ 32 - dsc_begin) % 2 ^ 32
  calc_footprint ← calc_struct_footprint_size hdr
  require (leb dsc_begin dsc_end) (inconsistency (not is_read_op))
  (if dsc_end % 2 == 0
      then ok tt
      else (do assert (dsc_begin % 2 == 0); err (inconsistency (not is_read_op))))
  require
      (based_io == calc_footprint
        || ex_type_used
          && ltb calc_footprint based_io
          && based_io - calc_footprint == 2
          && ltb hdr.type extended_type_val_threshold
          && is_read_op)
      (inconsistency (not is_read_op))
