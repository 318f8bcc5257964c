-- ===== src/Segment/Codec/Inline.antt =====
-- Inline data read back: the even part from the stream, and the last byte from the header.
use xoz.Base.{
  ℕ, suc, ◌+◌, ◌-◌, ◌%◌, ◌^◌, ◌≤◌, ◌≡◌, refl, sym, ap, ◌∙◌, arith, ◌==◌, ltb, if◌then◌else◌, List,
  [], ◌∷◌, ◌++◌, length, length-append, length-take, take, drop, take-append, drop-append, some, ok,
  Bool-cases, inl, inr, All,
}
use xoz.Io.Stream.{readall}
use xoz.Mem.Checksum.{inet_checksum_bytes}
use xoz.Mem.Endian.{little}
use xoz.Mem.Ints.{read_bits}
use xoz.Segment.{Segment, even_part}
use xoz.Segment.Write.{last_byte}
use xoz.Segment.Read.{ReadState, read_inline}
use xoz.Segment.Codec.Layout.{inline_word}
use xoz.Segment.Codec.Header.{odd_byte, bits_8, bits_low8}
use xoz.Segment.Codec.Written.{IsByte, odd_byte-IsByte}
use mathlib.Core.List.{append-nil}

take_all : (xs : List ℕ) → take (length xs) xs ≡ xs
take_all [] = refl
take_all (x ∷ xs) = rw (take_all xs)

take_front : (x : ℕ) (xs : List ℕ) → take (length xs) (x ∷ xs) ++ last_byte (x ∷ xs) ∷ [] ≡ x ∷ xs
take_front x [] = refl
take_front x (y ∷ xs) = rw (take_front y xs)

-- The even part and the byte from the header make up the data.
even_part-odd_byte :
    (raw : List ℕ)
    → take (even_part (length raw)) raw ++ (if length raw % 2 == 1 then odd_byte raw ∷ [] else [])
      ≡ raw
even_part-odd_byte [] = refl
even_part-odd_byte (x ∷ xs) = elim (Bool-cases (length (x ∷ xs) % 2 == 1)) [
  | inl y ↦ let n : suc (length xs) - 1 ≡ length xs = omega arith in simp (y, n) (take_front x xs)
  | inr n ↦ simp n (rw (append-nil, take_all xs))
]

pub read_inline-raw :
    (s : Segment) (rest : List ℕ) (st : ReadState)
    → length s.raw ≤ 63
    → All IsByte s.raw
    → even_part (length s.raw) ≤ st.available_sz
    → read_inline little
        (inline_word s.raw)
        (record st { input = take (even_part (length s.raw)) s.raw ++ rest })
      ≡ ok (record st {
        input = rest;
        available_sz = st.available_sz - even_part (length s.raw);
        checksum =
            if ltb 0 (even_part (length s.raw))
            then (st.checksum + inet_checksum_bytes little (take (even_part (length s.raw)) s.raw))
              % 2 ^ 32
            else st.checksum;
        inline_data = some s.raw;
      })
unfolding read_inline readall
read_inline-raw s rest st small bytes r =
    let b = odd_byte-IsByte s.raw bytes in
    let front : List ℕ = take (even_part (length s.raw)) s.raw in
    let l : length front ≡ even_part (length s.raw) =
      ground (arith, length-take (even_part (length s.raw)) s.raw) in
    let size : read_bits (inline_word s.raw) 0x3f00 ≡ length s.raw =
      ground (arith, bits_8 (inline_word s.raw)) in
    let last : read_bits (inline_word s.raw) 0x00ff ≡ odd_byte s.raw =
      ground (arith, bits_low8 (inline_word s.raw)) in
    let cut : take (even_part (length s.raw)) (front ++ rest) ≡ front =
      ap (λ (n : ℕ). take n (front ++ rest)) (sym l) ∙ take-append front rest in
    let left : drop (even_part (length s.raw)) (front ++ rest) ≡ rest =
      ap (λ (n : ℕ). drop n (front ++ rest)) (sym l) ∙ drop-append front rest in
    ground (arith, size, last, cut, left, l, length-append front rest, even_part-odd_byte s.raw)
