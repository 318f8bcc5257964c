-- ===== src/Segment/Codec/Layout.antt =====
-- The words that stand for an extent and for inline data, in plain arithmetic.
use xoz.Base.{
  ℕ, ◌+◌, ◌*◌, ◌/◌, ◌%◌, ◌^◌, Bool, ◌||◌, ◌==◌, if◌then◌else◌, List, [], ◌∷◌, ◌++◌, length, take,
  ltb, ok, ◌≡◌,
}
use xoz.Extent.{Extent, Distance, is_suballoc, blk_nr, blk_cnt, distance_in_blks}
use xoz.Extent.Laws.{IsExtent}
use xoz.Segment.{Segment, has_end_of_segment, even_part}
use xoz.Mem.Checksum.{inet_checksum_bytes}
use xoz.Mem.Endian.{little}
use xoz.Segment.Write.{smallcnt_of, last_byte}

abbrev pub bit : Bool → ℕ
bit b = if b then 1 else 0

abbrev pub near_word : Extent → Distance → ℕ
near_word e d =
    bit (is_suballoc e) * 2 ^ 15
    + smallcnt_of e * 2 ^ 11
    + 2 ^ 10
    + d.gap
    + bit d.is_backwards * 2 ^ 9

abbrev pub far_word : Extent → ℕ
far_word e = bit (is_suballoc e) * 2 ^ 15 + smallcnt_of e * 2 ^ 11 + blk_nr e / 2 ^ 16

abbrev pub nr_words : Extent → Distance → List ℕ
nr_words e d = if d.is_near then near_word e d ∷ [] else far_word e ∷ (blk_nr e % 2 ^ 16) ∷ []

abbrev pub cnt_words : Extent → List ℕ
cnt_words e = if is_suballoc e || smallcnt_of e == 0 then blk_cnt e ∷ [] else []

abbrev pub inline_word : List ℕ → ℕ
inline_word raw =
    2 ^ 15 + 2 ^ 14 + length raw * 2 ^ 8 + (if length raw % 2 == 1 then last_byte raw else 0)

-- Words in memory, low byte first.
abbrev pub words_bytes : List ℕ → List ℕ
words_bytes [] = []
words_bytes (x ∷ xs) = (x % 256) ∷ (x / 256) ∷ words_bytes xs

abbrev pub add_words : ℕ → List ℕ → ℕ
add_words c [] = c
add_words c (x ∷ xs) = add_words ((c + x) % 2 ^ 32) xs

-- Extents, each with its distance from the one before it.
abbrev pub Placed : Extent → List (Extent × Distance) → Type 0
Placed prev [] = Unit {0}
Placed prev ((e, d) ∷ ps) = (distance_in_blks prev e ≡ ok d) × IsExtent e × Placed e ps

abbrev pub exts_of : List (Extent × Distance) → List Extent
exts_of [] = []
exts_of ((e, d) ∷ ps) = e ∷ exts_of ps

abbrev pub exts_words : List (Extent × Distance) → List ℕ
exts_words [] = []
exts_words ((e, d) ∷ ps) = (nr_words e d ++ cnt_words e) ++ exts_words ps

abbrev pub last_of : Extent → List (Extent × Distance) → Extent
last_of prev [] = prev
last_of prev ((e, d) ∷ ps) = last_of e ps

-- The end of a segment: a header, and the inline data but for an odd last byte.
abbrev pub end_bytes : Segment → List ℕ
end_bytes s =
    if has_end_of_segment s
    then words_bytes (inline_word s.raw ∷ []) ++ take (even_part (length s.raw)) s.raw
    else []

-- The sum of the words that are written or read at the end.
abbrev pub end_checksum : Segment → ℕ → ℕ
end_checksum s c =
    if has_end_of_segment s
    then (if ltb 0 (even_part (length s.raw))
        then ((c + inline_word s.raw) % 2 ^ 32
            + inet_checksum_bytes little (take (even_part (length s.raw)) s.raw))
          % 2 ^ 32
        else (c + inline_word s.raw) % 2 ^ 32)
    else c
