-- ===== src/Io/Span/Refines.antt =====
-- Reading by pointers, seen as reading from the bytes that are left.
use xoz.Base.{
  ℕ, zero, suc, ◌+◌, ◌-◌, ◌≤◌, ◌≡◌, ◌⊎◌, refl, sym, ap, ◌∙◌, arith, leb, List, [], ◌∷◌, length,
  take, drop, ok, err, not_enough_room, Bool-cases, inl, inr,
}
use xoz.Io.Stream
use xoz.Io.Span.{Span, remain, readall}
use xoz.Io.Span.Bytes.{length-slice}
use xoz.Io.Span.Chunks.{slice, at_pos, readall-slice}
use xoz.Io.Span.Limits.{IsSpan}

-- The bytes between the read pointer and its limit.
abbrev pub unread : Span → List ℕ
unread io = slice io.rd.pos (remain io.rd) io.dataspan

take-take : (n m : ℕ) (xs : List ℕ) → n ≤ m → take n (take m xs) ≡ take n xs
take-take zero m xs h = refl
take-take (suc n) zero xs h = absurd (omega (arith, h))
take-take (suc n) (suc m) [] h = refl
take-take (suc n) (suc m) (x ∷ xs) h =
    ap (λ (t : List ℕ). x ∷ t) (take-take n m xs (omega (arith, h)))

take_nil : (n : ℕ) → take {A = ℕ} n [] ≡ []
take_nil zero = refl
take_nil (suc n) = refl

drop_nil : (n : ℕ) → drop {A = ℕ} n [] ≡ []
drop_nil zero = refl
drop_nil (suc n) = refl

drop-take : (n m : ℕ) (xs : List ℕ) → drop n (take (n + m) xs) ≡ take m (drop n xs)
drop-take zero m xs = let e : 0 + m ≡ m = omega arith in ap (λ (t : ℕ). take t xs) e
drop-take (suc n) m [] =
    ap (λ (t : List ℕ). drop (suc n) t) (take_nil (suc n + m)) ∙ sym (take_nil m)
drop-take (suc n) m (x ∷ xs) =
    let e : suc n + m ≡ suc (n + m) = omega arith in
    ap (λ (t : ℕ). drop (suc n) (take t (x ∷ xs))) e ∙ drop-take n m xs

drop-drop : (n r : ℕ) (xs : List ℕ) → drop n (drop r xs) ≡ drop (r + n) xs
drop-drop n zero xs = let e : n ≡ 0 + n = omega arith in ap (λ (t : ℕ). drop t xs) e
drop-drop n (suc r) [] = drop_nil n ∙ sym (drop_nil (suc r + n))
drop-drop n (suc r) (x ∷ xs) =
    let e : suc (r + n) ≡ suc r + n = omega arith in
    drop-drop n r xs ∙ ap (λ (t : ℕ). drop t (x ∷ xs)) e

-- What is left after a part was read.
rest-slice : (r n m : ℕ) (xs : List ℕ) → n ≤ m → drop n (slice r m xs) ≡ slice (r + n) (m - n) xs
rest-slice r n m xs h =
    let e : m ≡ n + (m - n) = omega (arith, h) in
    ap (λ (t : ℕ). drop n (take t (drop r xs))) e
    ∙ drop-take n (m - n) (drop r xs)
    ∙ ap (λ (t : List ℕ). take (m - n) t) (drop-drop n r xs)

-- On a well-formed stream the read of an exact count of bytes is the one that the readers of
-- structures use, on the bytes between the read pointer and its limit: it gives the same bytes and
-- leaves the same ones, or both fail for want of room.
pub readall-refines :
    (n : ℕ) (io : Span)
    → IsSpan io
    → ((bytes : List ℕ) × (io' : Span) × (readall n io ≡ ok (bytes, io'))
        × (Stream.readall n (unread io) ≡ ok (bytes, unread io')))
      ⊎ ((readall n io ≡ err not_enough_room)
          × (Stream.readall n (unread io) ≡ err not_enough_room))
unfolding readall Stream.readall
readall-refines n io v =
    let r : ℕ = io.rd.pos in
    let sz : length (unread io) ≡ remain io.rd =
      length-slice r (remain io.rd) io.dataspan
        (omega (arith, v.rd_within.ends, v.rd_within.fits)) in
    elim (Bool-cases (leb n (remain io.rd))) [
      | inl y ↦
          let le : n ≤ remain io.rd = ground (arith, y) in
          let less : remain io.rd - n ≡ remain (at_pos (r + n) io.rd) = omega (arith, le) in
          let left : drop n (unread io)
              ≡ slice (r + n) (remain (at_pos (r + n) io.rd)) io.dataspan =
            rest-slice r n (remain io.rd) io.dataspan le
            ∙ ap (λ (t : ℕ). slice (r + n) t io.dataspan) less in
          inl (
            slice r n io.dataspan,
            record io { rd = at_pos (r + n) io.rd },
            readall-slice n io v le,
            rw (sz, y)
                (ap (λ (t : List ℕ). ok (t, drop n (unread io)))
                    (take-take n (remain io.rd) (drop r io.dataspan) le)
                  ∙ ap (λ (t : List ℕ). ok (slice r n io.dataspan, t)) left),
          )
      | inr o ↦ inr (rw o refl, rw (sz, o) refl)
    ]
