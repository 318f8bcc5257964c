-- ===== src/Dsc/Update/Futures.antt =====
-- The sizes of the data of future versions.
use xoz.Base.{
  ℕ, ◌-◌, ◌^◌, ◌/◌, ◌%◌, ◌*◌, ◌≤◌, ◌<◌, ◌≡◌, sym, arith, bit_and, leb, List, [], ◌∷◌, ok, All,
  >>=-eq-ok, >>-eq-ok, require-ok, ok-injective, require, would_end_up_inconsistent,
}
use xoz.Base.Bits.{bit_and_field}
use xoz.Dsc.{ContentPart, Descriptor}
use xoz.Dsc.Update.{Sizing, future_part, future_parts, compute_future_content_parts_sizes}
use xoz.Mem.Ints.Casts.{assert_integral_cast-fits}
use xoz.Mem.Ints.{assert_integral_cast, assert_sub_nonneg}
use mathlib.Core.List.{map}
use mathlib.Core.Path.{subst}

-- Of each part, the bytes up to the present size are of the present version, and the others are not.
abbrev pub Splits : List ContentPart → List ℕ → List ContentPart → Type 0
Splits [] sizes [] = Unit {0}
Splits [] sizes (q ∷ qs) = ⊥
Splits (p ∷ ps) [] qs = ⊥
Splits (p ∷ ps) (n ∷ ns) [] = ⊥
Splits (p ∷ ps) (n ∷ ns) (q ∷ qs) =
    (n ≤ p.csize) × (q ≡ record p { future_csize = p.csize - n }) × Splits ps ns qs

future_of : (f : ℕ) → f < 2 ^ 31 → bit_and f 0x7fffffff ≡ f
future_of f small =
    let e : bit_and f 0x7fffffff ≡ f / 1 % 2 ^ 31 * 1 = bit_and_field 0 31 f in
    omega (arith, e, small)

no_wrap : (a b : ℕ) → b ≤ a → assert_sub_nonneg a b ≡ ok (a - b)
unfolding assert_sub_nonneg
no_wrap a b le = ground (arith, le)

future_part-splits :
    (p q : ContentPart) (n : ℕ)
    → p.csize < 2 ^ 31
    → future_part p n ≡ ok q
    → (n ≤ p.csize) × (q ≡ record p { future_csize = p.csize - n })
unfolding future_part
future_part-splits p q n small h =
    let (a, h1) = >>-eq-ok (require (leb n p.csize) would_end_up_inconsistent) _ h in
    let le : n ≤ p.csize = ground (arith, require-ok (leb n p.csize) would_end_up_inconsistent a) in
    let cast : assert_integral_cast 32 n ≡ ok n =
      assert_integral_cast-fits 32 n (omega (arith, le, small)) in
    let rest = no_wrap p.csize n le in
    let cut = future_of (p.csize - n) (omega (arith, small)) in
    (le, sym (ok-injective (rw (cast, rest, cut) at h1)))

future_parts-Splits :
    (ps qs : List ContentPart) (ns : List ℕ)
    → All (λ p. p.csize < 2 ^ 31) ps
    → future_parts ps ns ≡ ok qs
    → Splits ps ns qs
unfolding future_parts
future_parts-Splits [] qs ns v h = subst (Splits [] ns) (ok-injective h) tt
future_parts-Splits (p ∷ ps) qs [] v h = absurd (cc h)
future_parts-Splits (p ∷ ps) qs (n ∷ ns) (v, vs) h =
    let (q, hq, h1) = >>=-eq-ok (future_part p n) _ h in
    let (rest, hr, h2) = >>=-eq-ok (future_parts ps ns) _ h1 in
    let (le, same) = future_part-splits p q n v hq in
    subst (Splits (p ∷ ps) (n ∷ ns)) (ok-injective h2)
      (le, same, future_parts-Splits ps rest ns vs hr)

-- Where the sizes of the data of a future version are computed without an error, each part's is what
-- its size is above that which the subclass declares, which is no more than the part has; the parts
-- and their count are otherwise the same.
pub compute_future_content_parts_sizes-Splits :
    (sizing : Sizing) (dsc dsc' : Descriptor)
    → All (λ p. p.csize < 2 ^ 31) dsc.hdr.cparts
    → compute_future_content_parts_sizes sizing dsc ≡ ok dsc'
    → (sizes : List ℕ) × (sizing.declare_used_content_space_on_load
          (map (λ (cpart : ContentPart). cpart.csize) dsc.hdr.cparts)
        ≡ ok sizes)
      × Splits dsc.hdr.cparts sizes dsc'.hdr.cparts
unfolding compute_future_content_parts_sizes
compute_future_content_parts_sizes-Splits sizing dsc dsc' v h =
    let csizes : List ℕ = map (λ (cpart : ContentPart). cpart.csize) dsc.hdr.cparts in
    let (sizes, hs, h1) = >>=-eq-ok (sizing.declare_used_content_space_on_load csizes) _ h in
    let (cparts, hc, h2) = >>=-eq-ok (future_parts dsc.hdr.cparts sizes) _ h1 in
    (
      sizes,
      hs,
      subst (λ (d : Descriptor). Splits dsc.hdr.cparts sizes d.hdr.cparts) (ok-injective h2)
          (future_parts-Splits dsc.hdr.cparts cparts sizes v hc),
    )
