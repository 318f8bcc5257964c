-- ===== src/Alloc/Subblocks/Returns.antt =====
-- What `alloc` of sub-blocks gave, `dealloc` takes back.
use xoz.Base.{ℕ, ◌≤◌, ◌<◌, ◌≡◌, sym, ◌∙◌, arith, bit_and, Bool, true, ok, ok-injective, inl, inr}
use mathlib.Core.Path.{subst}
use xoz.Base.Binary.{bit, bit-lt, bit-bit_and, same_bits, bit_and-lt, zero_bit}
use xoz.Alloc.Subblocks.{SubblkFreeMap, alloc, dealloc}
use xoz.Alloc.Subblocks.Invariant.{IsSubblkFreeMap}
use xoz.Alloc.Subblocks.Rest.{free_bits, IsTaken}
use xoz.Alloc.Subblocks.Allocs.{alloc-ends}
use xoz.Alloc.Subblocks.Frees.{dealloc-ends}
use xoz.Extent.{Extent, blk_nr, blk_bitmap}

got-IsTaken :
    (m m' : SubblkFreeMap) (e : Extent) (cnt : ℕ)
    → IsSubblkFreeMap m
    → 0 < cnt
    → cnt ≤ 16
    → alloc cnt m ≡ ok (e, true, m')
    → IsTaken cnt e m m'
got-IsTaken m m' e cnt v pos le h = elim (alloc-ends m cnt v pos le) [
  | inl (d, n, done, taken) ↦
      let same : ◌≡◌ {A = Extent × Bool × SubblkFreeMap} (d, true, n) (e, true, m') =
        ok-injective (sym done ∙ h) in
      subst (λ (t : Extent × Bool × SubblkFreeMap). IsTaken cnt t.0 m t.2) same taken
  | inr (failed, _) ↦ absurd (ground (arith, ok-injective (sym failed ∙ h)))
]

-- What was taken is not free.
not_free :
    (m m' : SubblkFreeMap) (e : Extent) (cnt : ℕ)
    → IsTaken cnt e m m'
    → bit_and (blk_bitmap e) (free_bits (blk_nr e) m') ≡ 0
not_free m m' e cnt t =
    let f : ℕ = free_bits (blk_nr e) m' in
    same_bits 16 (bit_and (blk_bitmap e) f) 0 (bit_and-lt 16 (blk_bitmap e) f t.block.cnt_fits)
      (omega arith)
      (λ j. ground (
        arith,
        bit-bit_and j (blk_bitmap e) f,
        zero_bit j,
        t.moved (blk_nr e) j,
        bit-lt j (free_bits (blk_nr e) m),
        bit-lt j f,
      ))

-- The extent of 1 to 16 sub-blocks that `alloc` gives on a well-formed map can be given back at once:
-- `dealloc` succeeds, the map is well formed, and the same sub-blocks are free as before both.
pub dealloc-alloc_subblks :
    (m m' : SubblkFreeMap) (e : Extent) (cnt : ℕ)
    → IsSubblkFreeMap m
    → 0 < cnt
    → cnt ≤ 16
    → alloc cnt m ≡ ok (e, true, m')
    → (m'' : SubblkFreeMap) × (dealloc e m' ≡ ok m'')
      × IsSubblkFreeMap m''
      × ((nr j : ℕ) → bit j (free_bits nr m'') ≡ bit j (free_bits nr m))
dealloc-alloc_subblks m m' e cnt v pos le h =
    let t = got-IsTaken m m' e cnt v pos le h in
    elim (dealloc-ends m' e t.kept t.block) [
      | inl (m'', done, given) ↦
          (m'', done, given.kept, λ nr j. omega (arith, given.moved nr j, t.moved nr j))
      | inr (_, twice) ↦ absurd (twice (not_free m m' e cnt t))
    ]
