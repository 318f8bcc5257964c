-- ===== src/Dsc/Update.antt =====
-- xoz/dsc/descriptor.cpp: the sizes of the data of future versions, and the update of the sizes in the
-- header.
pub mod Ready
pub mod Futures
use xoz.Base.{
  ℕ, ◌%◌, ◌^◌, bit_and, Bool, true, false, ◌&&◌, if◌then◌else◌, leb, ◌==◌, List, [], ◌∷◌, length,
  Result, ok, abort, err, would_end_up_inconsistent, require, assert, ◌>>=◌, ◌>>◌,
}
use xoz.Dsc.{
  Header, ContentPart, Descriptor, does_hdr_isize_fit, does_hdr_csize_fit,
  chk_content_parts_consistency, chk_content_parts_count,
}
use xoz.Mem.Ints.{assert_integral_cast, assert_add_nowrap, assert_sub_nonneg, is_u64_add_ok}
use xoz.Segment.{add_end_of_segment}
use mathlib.Core.List.{map}

-- The virtual methods of a subclass that have to do with sizes. Each changes what it is given.
pub record Sizing : Type 0 where
  pub declare_used_content_space_on_load : List ℕ → Result (List ℕ)
  pub update_isize : ℕ → Result ℕ
  pub update_content_parts : List ContentPart → Result (List ContentPart)

-- What a subclass inherits.
abbrev pub inherited : (ℕ → Result ℕ) → Sizing
inherited update_isize = record {
  declare_used_content_space_on_load = ok;
  update_isize = update_isize;
  update_content_parts = ok;
}

unfoldable pub future_idata_size : Descriptor → Result ℕ
future_idata_size dsc = assert_integral_cast 8 (length dsc.future_idata)

unfoldable pub does_present_isize_fit : Descriptor → ℕ → Result Bool
does_present_isize_fit dsc present_isize = do
  future ← future_idata_size dsc
  if is_u64_add_ok present_isize future
      then (do
        hdr_isize ← assert_add_nowrap 64 present_isize future
        ok (does_hdr_isize_fit hdr_isize && hdr_isize % 2 == 0))
      else ok false

unfoldable pub does_present_csize_fit : ContentPart → ℕ → Result Bool
does_present_csize_fit cpart present_csize =
    if is_u64_add_ok present_csize cpart.future_csize
    then (do
      hdr_csize ← assert_add_nowrap 64 present_csize cpart.future_csize
      ok (does_hdr_csize_fit hdr_csize))
    else ok false

unfoldable pub future_part : ContentPart → ℕ → Result ContentPart
future_part cpart present_csize = do
  require (leb present_csize cpart.csize) would_end_up_inconsistent
  present ← assert_integral_cast 32 present_csize
  f ← assert_sub_nonneg cpart.csize present
  ok (record cpart { future_csize = bit_and f 0x7fffffff })

-- The vector of sizes has an element for each part. That a subclass would make it shorter is not
-- foreseen: the loop would read out of its bounds.
unfoldable pub future_parts : List ContentPart → List ℕ → Result (List ContentPart)
unfolding future_part
future_parts [] sizes = ok []
future_parts (cpart ∷ cparts) [] = err abort
future_parts (cpart ∷ cparts) (present_csize ∷ sizes) = do
  cpart ← future_part cpart present_csize
  cparts ← future_parts cparts sizes
  ok (cpart ∷ cparts)

unfoldable pub compute_future_content_parts_sizes : Sizing → Descriptor → Result Descriptor
unfolding future_parts
compute_future_content_parts_sizes sizing dsc = do
  sizes ←
      sizing.declare_used_content_space_on_load
        (map (λ (cpart : ContentPart). cpart.csize) dsc.hdr.cparts)
  cparts ← future_parts dsc.hdr.cparts sizes
  let hdr = dsc.hdr
  ok (record dsc { hdr = record hdr { cparts = cparts } })

abbrev pub end_part : ContentPart → ContentPart
end_part cpart = record cpart { segm = add_end_of_segment cpart.segm }

-- The isize of the header, from that of the present version.
unfoldable pub whole_isize : ℕ → ℕ → Result ℕ
whole_isize present_isize future = do
  require (is_u64_add_ok present_isize future) would_end_up_inconsistent
  require (present_isize % 2 == 0) would_end_up_inconsistent
  hdr_isize ← assert_add_nowrap 64 present_isize future
  require (does_hdr_isize_fit hdr_isize) would_end_up_inconsistent
  assert (hdr_isize % 2 == 0)
  assert_integral_cast 8 hdr_isize

abbrev pub resized_to : Descriptor → List ContentPart → ℕ → Descriptor
resized_to dsc cparts isize =
    let hdr = dsc.hdr in record dsc { hdr = record hdr { isize = isize; cparts = cparts } }

unfoldable pub update_sizes_of_header : Sizing → Descriptor → Result Descriptor
unfolding whole_isize
update_sizes_of_header sizing dsc = do
  future ← future_idata_size dsc
  present_isize ← assert_sub_nonneg dsc.hdr.isize future
  present_isize ← sizing.update_isize present_isize
  cparts ← sizing.update_content_parts dsc.hdr.cparts
  let hdr = dsc.hdr
  let cparts = map end_part cparts
  chk_content_parts_consistency true cparts
  chk_content_parts_count true (record hdr { cparts = cparts }) dsc.decl_cpart_cnt
  isize ← whole_isize present_isize future
  ok (resized_to dsc cparts isize)

unfoldable pub update_header : Sizing → Descriptor → Result Descriptor
update_header = update_sizes_of_header
