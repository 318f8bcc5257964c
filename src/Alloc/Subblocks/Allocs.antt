-- ===== src/Alloc/Subblocks/Allocs.antt =====
-- `alloc` of sub-blocks always ends, and takes what was free.
use xoz.Base.{
  ℕ, ◌-◌, ◌≤◌, ◌<◌, ◌≡◌, ◌⊎◌, refl, sym, ap, ◌∙◌, arith, true, false, ltb, leb, ◌==◌, some, none,
  ok, Bool-cases, Option-cases, inl, inr,
}
use xoz.Alloc.{fail_alloc_if_empty}
use xoz.Base.Binary.{ones, zero_ones}
use xoz.Alloc.Chunks.{map_find}
use xoz.Alloc.Subblocks.{SubblkFreeMap, bin_of, first_fit, alloc, alloc_fails}
use xoz.Alloc.Subblocks.Invariant.{IsSubblkFreeMap, subblk_cnt-ones, bin_of-entry, found_in_bin}
use xoz.Alloc.Subblocks.Chosen.{first_fit-found, first_fit-none}
use xoz.Extent.{Extent, subblk_cnt}
use xoz.Extent.Laws.{extent_of, make_extent-ok}
use xoz.Alloc.Subblocks.Rest.{free_bits, IsTaken, assert_entries-ok, alloc_from-IsTaken}

-- What the search gives is a block of the map with as many free sub-blocks.
placed_back :
    (m : SubblkFreeMap) (b nr : ℕ) (e : Extent)
    → IsSubblkFreeMap m
    → map_find nr (m.exts_bin b) ≡ some e
    → (map_find nr m.fr_by_nr ≡ some e) × (bin_of e ≡ b)
placed_back m b nr e v f = elim (Option-cases (map_find nr m.fr_by_nr)) [
  | inl gone ↦ absurd (ground (arith, v.placed b nr, f, gone))
  | inr (d, g) ↦ elim (Bool-cases (b == bin_of d)) [
    | inl y ↦
        let same : d ≡ e = ground (arith, rw (g, y) at (sym (v.placed b nr) ∙ f)) in
        (g ∙ ap some same, ap bin_of (sym same) ∙ ground (arith, y))
    | inr o ↦ absurd (ground (arith, rw (g, o) at (sym (v.placed b nr) ∙ f)))
  ]
]

chosen-fits :
    (m : SubblkFreeMap) (cnt b nr : ℕ) (e : Extent)
    → IsSubblkFreeMap m
    → 0 < cnt
    → first_fit (17 - cnt) (cnt - 1) m.exts_bin ≡ some (b, nr, e)
    → (map_find nr m.fr_by_nr ≡ some e) × (bin_of e ≡ b) × (cnt ≤ subblk_cnt e)
chosen-fits m cnt b nr e v pos h =
    let (le, lt, f) = first_fit-found (17 - cnt) (cnt - 1) b nr e m.exts_bin h in
    let there : (map_find nr m.fr_by_nr ≡ some e) × (bin_of e ≡ b) = placed_back m b nr e v f in
    let (one_less, _) = bin_of-entry nr e (v.entries nr e there.0) in
    (there.0, there.1, omega (arith, le, one_less, there.1, pos))

too_few :
    (m : SubblkFreeMap) (cnt nr : ℕ)
    → IsSubblkFreeMap m
    → 0 < cnt
    → cnt ≤ 16
    → first_fit (17 - cnt) (cnt - 1) m.exts_bin ≡ none
    → ones 16 (free_bits nr m) < cnt
too_few m cnt nr v pos le h = elim (Option-cases (map_find nr m.fr_by_nr)) [
  | inl gone ↦ rw gone (omega (arith, zero_ones 16, pos))
  | inr (e, f) ↦ rw f (elim (Bool-cases (ltb (subblk_cnt e) cnt)) [
    | inl y ↦ ground (arith, subblk_cnt-ones e, y)
    | inr o ↦
        let (one_less, lt) = bin_of-entry nr e (v.entries nr e f) in
        let here = found_in_bin m.exts_bin m.fr_by_nr nr e v f in
        let gone =
          first_fit-none (17 - cnt) (cnt - 1) (bin_of e) nr m.exts_bin h
            (ground (arith, o, one_less)) (omega (arith, lt, pos, le)) in
        absurd (ground (arith, here, gone))
  ])
]

-- A request of 1 to 16 sub-blocks on a well-formed map never fails an assertion. Either it gives an
-- extent with just that many sub-blocks, each of which was free and is not free any more while all
-- others stay as they were, and the new map is well formed; or it changes nothing, and no block has
-- so many sub-blocks free.
pub alloc-ends :
    (m : SubblkFreeMap) (cnt : ℕ)
    → IsSubblkFreeMap m
    → 0 < cnt
    → cnt ≤ 16
    → ((e : Extent) × (m' : SubblkFreeMap) × (alloc cnt m ≡ ok (e, true, m')) × IsTaken cnt e m m')
      ⊎ ((alloc cnt m ≡ ok (extent_of 0 0 true, false, m))
          × ((nr : ℕ) → ones 16 (free_bits nr m) < cnt))
unfolding alloc alloc_fails fail_alloc_if_empty
alloc-ends m cnt v pos le =
    let asked : (cnt == 0) ≡ false = ground (arith, pos) in
    let bounded : leb cnt 16 ≡ true = ground (arith, le) in
    let nothing = make_extent-ok 0 0 true (omega arith) in
    elim (Option-cases (first_fit (17 - cnt) (cnt - 1) m.exts_bin)) [
      | inl none_fits ↦ inr (
        rw (asked, bounded, nothing, none_fits, assert_entries-ok m v) refl,
        λ nr. too_few m cnt nr v pos le none_fits,
      )
      | inr ((b, nr, old), found) ↦
          let (f, at, fits) = chosen-fits m cnt b nr old v pos found in
          let some_free : (subblk_cnt old == 0) ≡ false = ground (arith, fits, pos) in
          let (e, m', done, taken) = alloc_from-IsTaken m cnt nr old v f pos fits in
          inl (e, m', rw (asked, bounded, nothing, found, ← at, some_free) done, taken)
    ]
