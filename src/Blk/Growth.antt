-- ===== src/Blk/Growth.antt =====
-- The window of a block array over time, on any backend that does what it rests on.
use xoz.Base.{
  ℕ, ◌+◌, ◌-◌, ◌%◌, ◌^◌, ◌≤◌, ◌<◌, ◌≡◌, refl, ◌∙◌, arith, Bool, true, not, ltb, leb, ◌==◌, Result,
  ok, require, assert, runtime_error, would_end_up_inconsistent, >>=-eq-ok, Bool-cases, inl, inr,
}
use xoz.Blk.{
  BlockArray, Backend, array_blk_cnt, grow_by_blocks, grow_capacity, lacking_cnt, adopt_grown,
  shrink_by_blocks, assert_window, fail_if_not_initialized, blk_nr_exhaust,
}
use xoz.Blk.Vector.{vector_grow, vector_shrink, vector_backend}
use xoz.Mem.Ints.{is_u32_add_ok, is_unsigned_int_add_ok}

pub record IsArray (a : BlockArray) : Type 0 where
  pub ready : a.is_initialized ≡ true
  pub begins : a.begin_nr ≤ a.past_end
  pub slack : a.past_end ≤ a.real_past_end
  pub fits : a.real_past_end < 2 ^ 32

-- What the window rests on of that which block_array.h asks of the methods: the first new block is the
-- one past the end, the count of new ones fits uint16_t, and a shrink gives back no more than was
-- asked for and is owed. That enough blocks are added is asserted by grow_by_blocks itself.
pub record KeepsContract {S : Type 0} (backend : Backend S) : Type 0 where
  pub grows :
      (a : BlockArray) (cnt nr n : ℕ) (s t : S)
      → cnt < 2 ^ 16
      → backend.impl_grow a cnt s ≡ ok (nr, n, t)
      → (nr ≡ a.past_end) × (n < 2 ^ 16)
  pub shrinks :
      (a : BlockArray) (cnt n : ℕ) (s t : S)
      → backend.impl_shrink a cnt s ≡ ok (n, t)
      → n ≤ cnt + (a.real_past_end - a.past_end)

-- A window, and the same one with more blocks at its end.
pub record Grown (a : BlockArray) (cnt : ℕ) (b : BlockArray) : Type 0 where
  pub past : b.past_end ≡ a.past_end + cnt
  pub begin_same : b.begin_nr ≡ a.begin_nr
  pub valid : IsArray b

abbrev counted : BlockArray → BlockArray
counted a = record a { grow_expand_capacity_call_cnt = a.grow_expand_capacity_call_cnt + 1 }

adopt_grown-Grown :
    {S : Type 0} (cnt nr nr' n : ℕ) (a b : BlockArray) (s t : S)
    → IsArray a
    → a.past_end + cnt < 2 ^ 32
    → n < 2 ^ 16
    → adopt_grown cnt a (nr', n, s) ≡ ok (nr, b, t)
    → (nr ≡ nr') × (b.past_end ≡ a.past_end + cnt) × (b.begin_nr ≡ a.begin_nr) × IsArray b
unfolding adopt_grown is_u32_add_ok is_unsigned_int_add_ok
adopt_grown-Grown cnt nr nr' n a b s t v f g h =
    ground (arith, h, v.ready, v.begins, v.slack, v.fits)

grow_capacity-Grown :
    {S : Type 0} (backend : Backend S) (cnt nr : ℕ) (a b : BlockArray) (s t : S)
    → KeepsContract backend
    → IsArray a
    → a.past_end + cnt < 2 ^ 32
    → grow_capacity backend cnt a s ≡ ok (nr, b, t)
    → (nr ≡ a.past_end) × Grown a cnt b
unfolding grow_capacity lacking_cnt adopt_grown
grow_capacity-Grown backend cnt nr a b s t k v f h =
    let room : Bool = ltb ((a.real_past_end + lacking_cnt cnt a) % 2 ^ 32) blk_nr_exhaust in
    let (_, _, h1) = >>=-eq-ok (require room would_end_up_inconsistent) _ h in
    let ((nr', n, s'), called, h2) =
      >>=-eq-ok (backend.impl_grow (counted a) (lacking_cnt cnt a) s) (adopt_grown cnt (counted a))
        h1 in
    let (first, small) = k.grows (counted a) (lacking_cnt cnt a) nr' n s s' (ground arith) called in
    let v' : IsArray (counted a) = record {
      ready = v.ready;
      begins = v.begins;
      slack = v.slack;
      fits = v.fits;
    } in
    let (same, past, begin, valid) =
      adopt_grown-Grown cnt nr nr' n (counted a) b s' t v' f small h2 in
    (same ∙ first, record { past = past; begin_same = begin; valid = valid })

abbrev pub called : BlockArray → BlockArray
called a = record a { grow_call_cnt = a.grow_call_cnt + 1 }

pub called-IsArray : (a : BlockArray) → IsArray a → IsArray (called a)
called-IsArray a v = record { ready = v.ready; begins = v.begins; slack = v.slack; fits = v.fits }

-- The slack holds all the blocks.
within_slack :
    {S : Type 0} (cnt nr : ℕ) (a b : BlockArray) (s t : S)
    → IsArray a
    → cnt ≤ a.real_past_end - a.past_end
    → ◌≡◌ {A = Result (ℕ × BlockArray × S)}
        (ok (a.past_end, record (called a) { past_end = (a.past_end + cnt) % 2 ^ 32 }, s))
        (ok (nr, b, t))
    → (nr ≡ a.past_end) × Grown a cnt b
within_slack cnt nr a b s t v le h =
    let facts : (nr ≡ a.past_end)
        × (b.past_end ≡ a.past_end + cnt)
        × (b.begin_nr ≡ a.begin_nr)
        × IsArray b =
      ground (arith, h, v.ready, v.begins, v.slack, v.fits) in
    (facts.0, record { past = facts.1; begin_same = facts.2; valid = facts.3 })

-- What never changes of an array once it is initialized.
pub record Same (a b : BlockArray) : Type 0 where
  pub blk_sz : b.blk_sz ≡ a.blk_sz
  pub blk_sz_order : b.blk_sz_order ≡ a.blk_sz_order
  pub begin_nr : b.begin_nr ≡ a.begin_nr
  pub is_initialized : b.is_initialized ≡ a.is_initialized
  pub allow_suballoc : b.allow_suballoc ≡ a.allow_suballoc
  pub managed : b.managed ≡ a.managed

pub Same-trans : {a b c : BlockArray} → Same a b → Same b c → Same a c
Same-trans p q = record {
  blk_sz = q.blk_sz ∙ p.blk_sz;
  blk_sz_order = q.blk_sz_order ∙ p.blk_sz_order;
  begin_nr = q.begin_nr ∙ p.begin_nr;
  is_initialized = q.is_initialized ∙ p.is_initialized;
  allow_suballoc = q.allow_suballoc ∙ p.allow_suballoc;
  managed = q.managed ∙ p.managed;
}

pub grow_by_blocks-Same :
    {S : Type 0} (backend : Backend S) (cnt nr : ℕ) (a b : BlockArray) (s t : S)
    → grow_by_blocks backend cnt a s ≡ ok (nr, b, t)
    → Same a b
unfolding grow_by_blocks grow_capacity adopt_grown fail_if_not_initialized
grow_by_blocks-Same backend cnt nr a b s t h = record {
  blk_sz = ground (arith, h);
  blk_sz_order = ground (arith, h);
  begin_nr = ground (arith, h);
  is_initialized = ground (arith, h);
  allow_suballoc = ground (arith, h);
  managed = ground (arith, h);
}

pub shrink_by_blocks-Same :
    {S : Type 0} (backend : Backend S) (cnt : ℕ) (a b : BlockArray) (s t : S)
    → shrink_by_blocks backend cnt a s ≡ ok (b, t)
    → Same a b
unfolding shrink_by_blocks fail_if_not_initialized
shrink_by_blocks-Same backend cnt a b s t h = record {
  blk_sz = ground (arith, h);
  blk_sz_order = ground (arith, h);
  begin_nr = ground (arith, h);
  is_initialized = ground (arith, h);
  allow_suballoc = ground (arith, h);
  managed = ground (arith, h);
}

-- Blocks that are added are those past the end: the call returns the first, and the window has them
-- all from then on; it stays in order.
pub grow_by_blocks-Grown :
    {S : Type 0} (backend : Backend S) (cnt nr : ℕ) (a b : BlockArray) (s t : S)
    → KeepsContract backend
    → IsArray a
    → cnt < 2 ^ 16
    → grow_by_blocks backend cnt a s ≡ ok (nr, b, t)
    → (nr ≡ a.past_end) × Grown a cnt b
unfolding grow_by_blocks is_u32_add_ok is_unsigned_int_add_ok assert_window fail_if_not_initialized
grow_by_blocks-Grown backend cnt nr a b s t k v small h =
    let (_, _, h1) = >>=-eq-ok (require a.is_initialized runtime_error) _ h in
    let (_, _, h2) = >>=-eq-ok (require (not (cnt == 0)) runtime_error) _ h1 in
    let (_, adds, h3) = >>=-eq-ok (assert (is_u32_add_ok a.past_end cnt)) _ h2 in
    let (_, _, h4) = >>=-eq-ok (assert (is_u32_add_ok a.real_past_end cnt)) _ h3 in
    let (_, _, h5) = >>=-eq-ok (assert_window a) _ h4 in
    let fits : a.past_end + cnt < 2 ^ 32 = ground (arith, adds, v.slack, v.fits) in
    elim (Bool-cases (leb cnt (a.real_past_end - a.past_end))) [
      | inl y ↦ within_slack cnt nr a b s t v (ground arith) (rw y at h5)
      | inr n ↦
          let (first, g) =
            grow_capacity-Grown backend cnt nr (called a) b s t k (called-IsArray a v) fits
              (rw n at h5) in
          (first, record { past = g.past; begin_same = g.begin_same; valid = g.valid })
    ]

-- Where the backend can shrink, the window loses just the given blocks at its end, and stays in
-- order; no assertion fails.
pub shrink_by_blocks-Grown :
    {S : Type 0} (backend : Backend S) (cnt n : ℕ) (a : BlockArray) (s t : S)
    → KeepsContract backend
    → IsArray a
    → 0 < cnt
    → a.begin_nr + cnt ≤ a.past_end
    → backend.impl_shrink (record a { shrink_call_cnt = a.shrink_call_cnt + 1 }) cnt s ≡ ok (n, t)
    → (b : BlockArray) × (shrink_by_blocks backend cnt a s ≡ ok (b, t)) × Grown b cnt a × IsArray b
unfolding shrink_by_blocks array_blk_cnt assert_window fail_if_not_initialized
shrink_by_blocks-Grown backend cnt n a s t k v pos le h =
    let small = k.shrinks _ cnt n s t h in
    (
      record a {
        shrink_call_cnt = a.shrink_call_cnt + 1;
        past_end = (a.past_end + 2 ^ 32 - cnt) % 2 ^ 32;
        real_past_end = (a.real_past_end + 2 ^ 32 - n) % 2 ^ 32;
      },
      ground (arith, h, small, v.ready, v.slack, v.begins, v.fits),
      record { past = omega (arith, v.slack, v.fits, v.begins); begin_same = refl; valid = v },
      record {
        ready = v.ready;
        begins = omega (arith, v.slack, v.fits, v.begins);
        slack = omega (arith, small, v.slack, v.fits, v.begins);
        fits = omega arith;
      },
    )

-- The array in memory is such a backend, whether it allocates more than it is asked for or not.
pub vector_backend-KeepsContract :
    (over_allocate : Bool) → KeepsContract (vector_backend over_allocate)
unfolding vector_grow vector_shrink
vector_backend-KeepsContract over_allocate = record {
  grows = λ a cnt nr n s t small h. ground (arith, small, h);
  shrinks = λ a cnt n s t h. ground (arith, h);
}
