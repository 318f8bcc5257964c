-- ===== src/Dsc/Codec/Checks.antt =====
-- The checks that a descriptor passes when it is written hold again when it is loaded.
use xoz.Base.{
  ℕ, zero, suc, ◌≤◌, ◌≡◌, refl, arith, true, false, leb, List, [], ◌∷◌, length, ok, require,
  >>=-eq-ok, >>-eq-ok, require-ok, ◌∙◌, All,
}
use xoz.Dsc.{
  ContentPart, inconsistency, does_hdr_csize_fit, chk_content_part, chk_content_parts_consistency,
  incompressible,
}
use xoz.Dsc.Codec.Parts.{IsPart, loaded_segment, loaded_part, loaded_parts}
use mathlib.Core.Path.{subst}
use xoz.Segment.{Segment, segment_data_space_size, fail_if_bad_inline_sz}

same_space :
    (s : Segment)
    → segment_data_space_size (loaded_segment s.blk_sz_order s) true
      ≡ segment_data_space_size s true
unfolding segment_data_space_size fail_if_bad_inline_sz
same_space s = refl

chk_content_part-loaded :
    (blk_sz_order : ℕ) (part : ContentPart)
    → IsPart blk_sz_order part
    → chk_content_part true part ≡ ok tt
    → chk_content_part false (loaded_part blk_sz_order part) ≡ ok tt
unfolding chk_content_part does_hdr_csize_fit
chk_content_part-loaded order part v h =
    let (_, h1) = >>-eq-ok (require (leb part.future_csize part.csize) (inconsistency true)) _ h in
    let (space, hs, h2) = >>=-eq-ok (segment_data_space_size part.segm true) _ h1 in
    let (a, b) = >>-eq-ok (require (leb part.csize space) (inconsistency true)) _ h2 in
    let within = require-ok (leb part.csize space) (inconsistency true) a in
    let fits = require-ok (leb part.csize 0x7fffffff) (inconsistency true) b in
    let none : leb 0 part.csize ≡ true = ground arith in
    let same : segment_data_space_size (loaded_segment order part.segm) true ≡ ok space =
      subst (λ o. segment_data_space_size (loaded_segment o part.segm) true ≡ ok space) v.order
        (same_space part.segm ∙ hs) in
    rw (none, same, within, fits) refl

pub chk_content_parts_consistency-loaded :
    (blk_sz_order : ℕ) (parts : List ContentPart) (n : ℕ)
    → All (IsPart blk_sz_order) parts
    → chk_content_parts_consistency true parts ≡ ok tt
    → chk_content_parts_consistency false (loaded_parts blk_sz_order parts n) ≡ ok tt
unfolding chk_content_parts_consistency
chk_content_parts_consistency-loaded order parts zero v h = refl
chk_content_parts_consistency-loaded order [] (suc n) v h = refl
chk_content_parts_consistency-loaded order (part ∷ parts) (suc n) (v, vs) h =
    let (h1, h2) = >>-eq-ok (chk_content_part true part) _ h in
    rw (chk_content_part-loaded order part v h1)
      (chk_content_parts_consistency-loaded order parts n vs h2)

pub incompressible-le : (parts : List ContentPart) → incompressible parts ≤ length parts
unfolding incompressible
incompressible-le [] = omega arith
incompressible-le (part ∷ parts) = ground (arith, incompressible-le parts)
