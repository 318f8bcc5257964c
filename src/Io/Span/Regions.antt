-- ===== src/Io/Span/Regions.antt =====
-- Bytes that are copied in chunks, from the start or from the end, within one buffer.
use xoz.Base.{
  ℕ, ◌+◌, ◌-◌, ◌≤◌, ◌<◌, ◌≡◌, ◌⊎◌, refl, ap, ◌∙◌, arith, ltb, leb, ◌&&◌, if◌then◌else◌, List,
  length, Bool-cases, inl, inr,
}
use xoz.Io.Span.Bytes.{byte_at}
use xoz.Io.Span.Chunks.{moved, length-moved, byte_at-moved}

-- The bytes ys are xs, but for n bytes from w on, which are those of xs from r on.
pub record IsCopied (r w n : ℕ) (xs ys : List ℕ) : Type 0 where
  pub same_size : length ys ≡ length xs
  pub bytes :
      (i : ℕ)
      → byte_at i ys ≡ (if leb w i && ltb i (w + n) then byte_at (r + (i - w)) xs else byte_at i xs)

pub none-IsCopied : (r w n : ℕ) (xs : List ℕ) → n ≡ 0 → IsCopied r w n xs xs
none-IsCopied r w n xs e = record { same_size = refl; bytes = λ i. ground (arith, e) }

-- A chunk from the start, and then the rest; no byte that is still to be read is overwritten.
pub first-IsCopied :
    (r w c m : ℕ) (xs ys : List ℕ)
    → r + (c + m) ≤ length xs
    → w + (c + m) ≤ length xs
    → (w ≤ r) ⊎ (r + (c + m) ≤ w)
    → IsCopied (r + c) (w + c) m (moved r w c xs) ys
    → IsCopied r w (c + m) xs ys
first-IsCopied r w c m xs ys h k apart t = record {
  same_size = t.same_size ∙ length-moved r w c xs (omega (arith, h)) (omega (arith, k));
  bytes = λ i.
      let here = byte_at-moved i r w c xs (omega (arith, h)) (omega (arith, k)) in
      let from =
        byte_at-moved (r + c + (i - (w + c))) r w c xs (omega (arith, h)) (omega (arith, k)) in
      elim (Bool-cases (leb (w + c) i && ltb i (w + (c + m)))) [
        | inl y ↦
            let place : byte_at (r + c + (i - (w + c))) xs ≡ byte_at (r + (i - w)) xs =
              ap (λ (t : ℕ). byte_at t xs) (ground (arith, y)) in
            ground (arith, t.bytes i, from, place, y, apart)
        | inr o ↦ ground (arith, t.bytes i, here, o)
      ];
}

-- A chunk from the end, and then what is before it.
pub last-IsCopied :
    (r w c m : ℕ) (xs ys : List ℕ)
    → r + (m + c) ≤ length xs
    → w + (m + c) ≤ length xs
    → r < w
    → IsCopied r w m (moved (r + m) (w + m) c xs) ys
    → IsCopied r w (m + c) xs ys
last-IsCopied r w c m xs ys h k lt t = record {
  same_size = t.same_size ∙ length-moved (r + m) (w + m) c xs (omega (arith, h)) (omega (arith, k));
  bytes = λ i.
      let here = byte_at-moved i (r + m) (w + m) c xs (omega (arith, h)) (omega (arith, k)) in
      let from =
        byte_at-moved (r + (i - w)) (r + m) (w + m) c xs (omega (arith, h)) (omega (arith, k)) in
      elim (Bool-cases (leb w i && ltb i (w + m))) [
        | inl y ↦ ground (arith, t.bytes i, from, y, lt)
        | inr o ↦ elim (Bool-cases (leb (w + m) i && ltb i (w + (m + c)))) [
          | inl y ↦
              let place : byte_at (r + m + (i - (w + m))) xs ≡ byte_at (r + (i - w)) xs =
                ap (λ (t : ℕ). byte_at t xs) (ground (arith, y)) in
              ground (arith, t.bytes i, here, place, o, y)
          | inr p ↦ ground (arith, t.bytes i, here, o, p)
        ]
      ];
}
