-- ===== src/Dsc/Update/Ready.antt =====
-- A descriptor whose sizes were updated can be written.
use xoz.Base.{
  ℕ, ◌+◌, ◌-◌, ◌%◌, ◌^◌, ◌≤◌, ◌<◌, ◌≡◌, ◌∙◌, List, refl, arith, true, false, ◌==◌, leb, length, ok,
  ap, require, would_end_up_inconsistent, >>=-eq-ok, >>-eq-ok, require-ok, ok-injective,
}
use xoz.Dsc.{
  ContentPart, Descriptor, Subclass, does_hdr_isize_fit, chk_content_parts_consistency,
  chk_content_parts_count, chk_dset_type,
}
use xoz.Dsc.Write.{chk_before_write}
use xoz.Dsc.Update.{
  Sizing, resized_to, future_idata_size, whole_isize, update_sizes_of_header, end_part,
}
use xoz.Mem.Ints.{
  assert_integral_cast, assert_add_nowrap, assert_sub_nonneg, is_u64_add_ok, is_unsigned_int_add_ok,
}
use mathlib.Core.Path.{subst}
use mathlib.Core.List.{map}

whole_isize-sum :
    (present future isize : ℕ)
    → present < 2 ^ 64
    → future < 256
    → whole_isize present future ≡ ok isize
    → (isize ≡ present + future) × (isize ≤ 127) × (isize % 2 ≡ 0) × (present % 2 ≡ 0)
unfolding whole_isize is_u64_add_ok is_unsigned_int_add_ok assert_add_nowrap assert_integral_cast
    does_hdr_isize_fit
whole_isize-sum present future isize small short h = ground (arith, h)

-- What the checks before a write ask of the header, its identifier aside.
chk_before_write-passes :
    (subclass : Subclass) (dsc : Descriptor)
    → dsc.hdr.isize % 2 ≡ 0
    → dsc.hdr.isize ≤ 127
    → (dsc.hdr.id == 0) ≡ false
    → chk_content_parts_consistency true dsc.hdr.cparts ≡ ok tt
    → chk_content_parts_count true dsc.hdr dsc.decl_cpart_cnt ≡ ok tt
    → chk_dset_type false subclass.is_descriptor_set dsc.hdr ≡ ok tt
    → chk_before_write subclass dsc ≡ ok tt
unfolding chk_before_write does_hdr_isize_fit
chk_before_write-passes subclass dsc even fits id parts count dset =
    let even' : (dsc.hdr.isize % 2 == 0) ≡ true = ground (arith, even) in
    let fits' : leb dsc.hdr.isize 127 ≡ true = ground (arith, fits) in
    rw (even', fits', id, parts, count, dset) refl

-- The steps of an update without an error.
record Updated (sizing : Sizing) (dsc dsc' : Descriptor) : Type 0 where
  future : ℕ
  before : ℕ
  present : ℕ
  cparts : List ContentPart
  isize : ℕ
  size : future_idata_size dsc ≡ ok future
  left : assert_sub_nonneg dsc.hdr.isize future ≡ ok before
  called : sizing.update_isize before ≡ ok present
  checked : chk_content_parts_consistency true (map end_part cparts) ≡ ok tt
  counted : (length (map end_part cparts) == dsc.decl_cpart_cnt) ≡ true
  whole : whole_isize present future ≡ ok isize
  done : resized_to dsc (map end_part cparts) isize ≡ dsc'

update_sizes_of_header-Updated :
    (sizing : Sizing) (dsc dsc' : Descriptor)
    → update_sizes_of_header sizing dsc ≡ ok dsc'
    → Updated sizing dsc dsc'
unfolding update_sizes_of_header chk_content_parts_count
update_sizes_of_header-Updated sizing dsc dsc' h =
    let (future, hf, h1) = >>=-eq-ok (future_idata_size dsc) _ h in
    let (before, hb, h2) = >>=-eq-ok (assert_sub_nonneg dsc.hdr.isize future) _ h1 in
    let (present, hp, h3) = >>=-eq-ok (sizing.update_isize before) _ h2 in
    let (cparts, hc, h4) = >>=-eq-ok (sizing.update_content_parts dsc.hdr.cparts) _ h3 in
    let (parts, h5) = >>-eq-ok (chk_content_parts_consistency true (map end_part cparts)) _ h4 in
    let (count, h6) =
      >>-eq-ok
        (require (length (map end_part cparts) == dsc.decl_cpart_cnt) would_end_up_inconsistent) _
        h5 in
    let (isize, hw, done) = >>=-eq-ok (whole_isize present future) _ h6 in
    record {
      future = future;
      before = before;
      present = present;
      cparts = cparts;
      isize = isize;
      size = hf;
      left = hb;
      called = hp;
      checked = parts;
      counted =
          require-ok (length (map end_part cparts) == dsc.decl_cpart_cnt) would_end_up_inconsistent
            count;
      whole = hw;
      done = ok-injective done;
    }

future_idata_size-length :
    (dsc : Descriptor) (n : ℕ)
    → future_idata_size dsc ≡ ok n
    → (n ≡ length dsc.future_idata) × (n < 256)
unfolding future_idata_size assert_integral_cast
future_idata_size-length dsc n h = ground (arith, h)

difference : (a b n : ℕ) → assert_sub_nonneg a b ≡ ok n → n ≡ a - b
unfolding assert_sub_nonneg
difference a b n h = ground (arith, h)

-- Whatever descriptor has its sizes updated without an error, the checks that come before a write
-- pass, if it has an identifier and its type is of the kind that its class asks for. Its isize is then
-- the sum of what the subclass gives for the present version, which is even, and the size of the data
-- of a future version. The subclass is told what isize is left without that data.
pub update_sizes_of_header-chk_before_write :
    (subclass : Subclass) (sizing : Sizing) (dsc dsc' : Descriptor)
    → ((n m : ℕ) → sizing.update_isize n ≡ ok m → m < 2 ^ 64)
    → (dsc.hdr.id == 0) ≡ false
    → chk_dset_type false subclass.is_descriptor_set dsc.hdr ≡ ok tt
    → update_sizes_of_header sizing dsc ≡ ok dsc'
    → (chk_before_write subclass dsc' ≡ ok tt)
      × (present_isize : ℕ) × (sizing.update_isize (dsc.hdr.isize - length dsc.future_idata)
          ≡ ok present_isize)
      × (dsc'.hdr.isize ≡ present_isize + length dsc'.future_idata)
      × (present_isize % 2 ≡ 0)
unfolding chk_dset_type chk_content_parts_count
update_sizes_of_header-chk_before_write subclass sizing dsc dsc' small id dset h =
    let u = update_sizes_of_header-Updated sizing dsc dsc' h in
    let (future, short) = future_idata_size-length dsc u.future u.size in
    let below = small u.before u.present u.called in
    let (sum, fits, even, even_present) =
      whole_isize-sum u.present u.future u.isize below short u.whole in
    let new : Descriptor = resized_to dsc (map end_part u.cparts) u.isize in
    let before : u.before ≡ dsc.hdr.isize - length dsc.future_idata =
      difference dsc.hdr.isize u.future u.before u.left ∙ ap (λ n. dsc.hdr.isize - n) future in
    let called = subst (λ n. sizing.update_isize n ≡ ok u.present) before u.called in
    let passes : chk_before_write subclass new ≡ ok tt =
      chk_before_write-passes subclass new even fits id u.checked (rw u.counted refl) dset in
    subst
      (λ (d : Descriptor).
        (chk_before_write subclass d ≡ ok tt)
        × (present_isize : ℕ) × (sizing.update_isize (dsc.hdr.isize - length dsc.future_idata)
            ≡ ok present_isize)
        × (d.hdr.isize ≡ present_isize + length d.future_idata)
        × (present_isize % 2 ≡ 0))
      u.done (passes, u.present, called, sum ∙ ap (λ n. u.present + n) future, even_present)
