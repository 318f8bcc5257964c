-- ===== src/Alloc/Tail/Laws.antt =====
-- What the tail allocator gives, it can take back.
use xoz.Base.{
  ℕ, ◌+◌, ◌^◌, ◌≤◌, ◌<◌, ◌≡◌, refl, sym, ap, ◌∙◌, arith, true, false, Result, ok, err, >>=-eq-ok,
}
use mathlib.Core.Path.{subst}
use xoz.Alloc.{fail_alloc_if_empty, fail_if_suballoc_or_zero_cnt}
use xoz.Alloc.Tail.{alloc, dealloc, is_at_the_end}
use xoz.Blk.{
  BlockArray, Backend, grow_by_blocks, shrink_by_blocks, fail_if_out_of_boundaries,
  is_extent_within_boundaries, fail_if_not_initialized,
}
use xoz.Blk.Growth.{
  IsArray, KeepsContract, Grown, Same, Same-trans, grow_by_blocks-Same, shrink_by_blocks-Same,
  grow_by_blocks-Grown, shrink_by_blocks-Grown,
}
use xoz.Extent.{Extent, make_extent, blk_nr, blk_cnt, past_end_blk_nr, span_cnt}
use xoz.Extent.Laws.{extent_of, make_extent-made, blk_nr-extent_of, is_suballoc-extent_of}

past_end_blk_nr-extent_of :
    (nr cnt : ℕ) → nr < 2 ^ 26 → past_end_blk_nr (extent_of nr cnt false) ≡ nr + cnt
unfolding past_end_blk_nr span_cnt
past_end_blk_nr-extent_of nr cnt h =
    ground (arith, blk_nr-extent_of nr cnt false h, is_suballoc-extent_of nr cnt false h)

-- An extent of blocks whose end is the end of the array.
at_the_end :
    (a : BlockArray) (nr cnt : ℕ)
    → IsArray a
    → nr < 2 ^ 26
    → 0 < cnt
    → a.begin_nr ≤ nr
    → a.past_end ≡ nr + cnt
    → is_at_the_end a (extent_of nr cnt false) ≡ ok true
unfolding is_at_the_end fail_if_suballoc_or_zero_cnt fail_if_out_of_boundaries
    is_extent_within_boundaries fail_if_not_initialized
at_the_end a nr cnt v h pos begin past = ground (
  arith,
  v.ready,
  past_end_blk_nr-extent_of nr cnt h,
  blk_nr-extent_of nr cnt false h,
  is_suballoc-extent_of nr cnt false h,
)

abbrev value_or {ℓ} : {A : Type ℓ} → A → Result A → A
value_or a (ok b) = b
value_or a (err e) = a

gives_back :
    {S : Type 0} (backend : Backend S) (e : Extent) (b c : BlockArray) (t u : S)
    → is_at_the_end b e ≡ ok true
    → shrink_by_blocks backend (blk_cnt e) b t ≡ ok (c, u)
    → dealloc backend e b t ≡ ok (true, c, u)
unfolding dealloc
gives_back backend e b c t u last shrank = simp (last, shrank) refl

-- An allocated extent is the run of blocks by which the array grew.
pub alloc-Grown :
    {S : Type 0} (backend : Backend S) (cnt : ℕ) (e : Extent) (a b : BlockArray) (s t : S)
    → KeepsContract backend
    → IsArray a
    → cnt < 2 ^ 16
    → alloc backend cnt a s ≡ ok (e, b, t)
    → (e ≡ extent_of a.past_end cnt false) × (a.past_end < 2 ^ 26) × Grown a cnt b × Same a b
unfolding alloc
alloc-Grown {S = S} backend cnt e a b s t k v small h =
    let (_, _, h1) = >>=-eq-ok (fail_alloc_if_empty cnt) _ h in
    let ((nr, b', t'), grew, h2) = >>=-eq-ok (grow_by_blocks backend cnt a s) _ h1 in
    let (e', is_made, h3) = >>=-eq-ok (make_extent nr cnt false) _ h2 in
    let (first, g) = grow_by_blocks-Grown backend cnt nr a b' s t' k v small grew in
    let (fits, same) = make_extent-made nr cnt e' (omega (arith, first, v.slack, v.fits)) is_made in
    let out : (e', b', t') ≡ (e, b, t) =
      ap (λ (r : Result (Extent × BlockArray × S)). value_or (e', b', t') r) h3 in
    let same_e : e' ≡ e = ap (λ (p : Extent × BlockArray × S). p.0) out in
    let same_b : b' ≡ b = ap (λ (p : Extent × BlockArray × S). p.1) out in
    (
      sym same_e ∙ same ∙ ap (λ (x : ℕ). extent_of x cnt false) first,
      omega (arith, first, fits),
      subst (λ x. Grown a cnt x) same_b g,
      subst (Same a) same_b (grow_by_blocks-Same backend cnt nr a b' s t' grew),
    )

-- On an array whose window is in order: an extent that was allocated starts where the array ended.
-- Giving it back at once, where the backend can shrink, shrinks the array to the window that it
-- had, and nothing else of the array is changed but for the slack behind its end and the counts of
-- calls; the caller is told so, and no assertion fails.
pub dealloc-alloc :
    {S : Type 0} (backend : Backend S) (cnt n : ℕ) (e : Extent) (a b : BlockArray) (s t u : S)
    → KeepsContract backend
    → IsArray a
    → 0 < cnt
    → cnt < 2 ^ 16
    → alloc backend cnt a s ≡ ok (e, b, t)
    → backend.impl_shrink (record b { shrink_call_cnt = b.shrink_call_cnt + 1 }) cnt t ≡ ok (n, u)
    → (c : BlockArray) × (blk_nr e ≡ a.past_end)
      × (dealloc backend e b t ≡ ok (true, c, u))
      × (c.past_end ≡ a.past_end)
      × Same a c
      × IsArray c
dealloc-alloc backend cnt n e a b s t u k v pos small h shrinks =
    let (same, fits, g, kept) = alloc-Grown backend cnt e a b s t k v small h in
    let (c, shrank, back, valid) =
      shrink_by_blocks-Grown backend cnt n b t u k g.valid pos
        (omega (arith, g.past, g.begin_same, v.begins)) shrinks in
    let tail =
      at_the_end b a.past_end cnt g.valid fits pos (omega (arith, g.begin_same, v.begins)) g.past in
    (
      c,
      ap blk_nr same ∙ blk_nr-extent_of a.past_end cnt false fits,
      gives_back backend e b c t u (ap (λ (x : Extent). is_at_the_end b x) same ∙ tail)
          (ap (λ (x : Extent). shrink_by_blocks backend (blk_cnt x) b t) same ∙ shrank),
      omega (arith, back.past, g.past),
      Same-trans kept (shrink_by_blocks-Same backend cnt b c t u shrank),
      valid,
    )
