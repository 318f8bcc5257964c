-- ===== src/Extent/Laws.antt =====
-- The fields of an extent in plain arithmetic, and the constructor on every input.
use xoz.Base.{
  ℕ, ◌+◌, ◌*◌, ◌/◌, ◌%◌, ◌^◌, ◌≤◌, ◌<◌, bit_and, bit_or, ◌≡◌, ap, arith, Bool, true, false, leb,
  if◌then◌else◌, ok, err, runtime_error, Bool-cases, inl, inr, ltb,
}
use xoz.Base.Bits.{bit_and_mod, bit_and_field, bit_or_high}
use xoz.Extent.{Extent, is_suballoc, blk_nr, make_extent, move_to}

-- What the constructor makes: the number has 26 bits and the count 16, and of the 6 other bits of
-- the number's field only the top one may be set.
pub record IsExtent (e : Extent) : Type 0 where
  pub nr_fits : e.raw_blk_nr % 2 ^ 31 < 2 ^ 26
  pub word_fits : e.raw_blk_nr < 2 ^ 32
  pub cnt_fits : e.raw_blk_cnt < 2 ^ 16

-- The extent with the given number, count and kind.
abbrev pub extent_of : ℕ → ℕ → Bool → Extent
extent_of nr cnt suballoc = record {
  raw_blk_nr = if suballoc then 2 ^ 31 + nr else nr;
  raw_blk_cnt = cnt;
}

pub blk_nr-mod : (e : Extent) → blk_nr e ≡ e.raw_blk_nr % 2 ^ 26
unfolding blk_nr
blk_nr-mod e = bit_and_mod 26 e.raw_blk_nr

pub is_suballoc-leb :
    (e : Extent) → e.raw_blk_nr < 2 ^ 32 → is_suballoc e ≡ leb (2 ^ 31) e.raw_blk_nr
unfolding is_suballoc
is_suballoc-leb e h = ground (arith, bit_and_field 31 1 e.raw_blk_nr)

high_bits : (nr : ℕ) → nr < 2 ^ 32 → bit_and nr 0xfc000000 ≡ nr / 2 ^ 26 * 2 ^ 26
high_bits nr h = omega (arith, bit_and_field 26 6 nr)

pub extent_of-IsExtent :
    (nr cnt : ℕ) (s : Bool) → nr < 2 ^ 26 → cnt < 2 ^ 16 → IsExtent (extent_of nr cnt s)
extent_of-IsExtent nr cnt true h k = omega arith
extent_of-IsExtent nr cnt false h k = omega arith

pub blk_nr-extent_of : (nr cnt : ℕ) (s : Bool) → nr < 2 ^ 26 → blk_nr (extent_of nr cnt s) ≡ nr
blk_nr-extent_of nr cnt true h = omega (arith, blk_nr-mod (extent_of nr cnt true))
blk_nr-extent_of nr cnt false h = omega (arith, blk_nr-mod (extent_of nr cnt false))

pub is_suballoc-extent_of :
    (nr cnt : ℕ) (s : Bool) → nr < 2 ^ 26 → is_suballoc (extent_of nr cnt s) ≡ s
is_suballoc-extent_of nr cnt true h = ground (arith, is_suballoc-leb (extent_of nr cnt true))
is_suballoc-extent_of nr cnt false h = ground (arith, is_suballoc-leb (extent_of nr cnt false))

-- Every extent is made of its number, its count and its kind.
pub extent_of-fields :
    (e : Extent) → IsExtent e → extent_of (blk_nr e) e.raw_blk_cnt (is_suballoc e) ≡ e
extent_of-fields e v = rw (blk_nr-mod e, is_suballoc-leb e v.word_fits) (ground arith)

pub blk_nr-lt : (e : Extent) → blk_nr e < 2 ^ 26
blk_nr-lt e = omega (arith, blk_nr-mod e)

pub make_extent-ok :
    (nr cnt : ℕ) (s : Bool) → nr < 2 ^ 26 → make_extent nr cnt s ≡ ok (extent_of nr cnt s)
unfolding make_extent
make_extent-ok nr cnt true h =
    ground (
      arith,
      high_bits nr (omega arith),
      bit_and_mod 26 nr,
      bit_or_high 31 (bit_and nr 0x03ffffff) 1,
    )
make_extent-ok nr cnt false h = ground (arith, high_bits nr (omega arith), bit_and_mod 26 nr)

pub make_extent-too_large :
    (nr cnt : ℕ) (s : Bool) → 2 ^ 26 ≤ nr → nr < 2 ^ 32 → make_extent nr cnt s ≡ err runtime_error
unfolding make_extent
make_extent-too_large nr cnt s h k = ground (arith, high_bits nr k)

-- A run of blocks that could be made has a number in range.
pub make_extent-made :
    (nr cnt : ℕ) (e : Extent)
    → nr < 2 ^ 32
    → make_extent nr cnt false ≡ ok e
    → (nr < 2 ^ 26) × (e ≡ extent_of nr cnt false)
make_extent-made nr cnt e w h = elim (Bool-cases (ltb nr (2 ^ 26))) [
  | inl y ↦
      let small : nr < 2 ^ 26 = ground arith in (small, cc (h, make_extent-ok nr cnt false small))
  | inr n ↦ absurd (cc (h, make_extent-too_large nr cnt false (ground arith) w))
]

-- A sub-allocated extent moves to another block with its bitmap.
pub move_to-suballoc :
    (nr nr' cnt : ℕ)
    → nr < 2 ^ 26
    → nr' < 2 ^ 26
    → move_to (extent_of nr cnt true) nr' ≡ extent_of nr' cnt true
unfolding move_to
move_to-suballoc nr nr' cnt h k =
    let low : bit_and nr' 0x03ffffff ≡ nr' = omega (arith, bit_and_mod 26 nr', k) in
    let top : bit_and (2 ^ 31 + nr) 0xfc000000 ≡ 1 * 2 ^ 31 =
      omega (arith, high_bits (2 ^ 31 + nr) (omega (arith, h)), h) in
    let word : bit_or (bit_and nr' 0x03ffffff) (bit_and (2 ^ 31 + nr) 0xfc000000) ≡ 2 ^ 31 + nr' =
      rw (low, top) (omega (arith, bit_or_high 31 nr' 1 (omega (arith, k)))) in
    ap (λ (t : ℕ). record { raw_blk_nr = t; raw_blk_cnt = cnt }) word
