-- ===== src/Io/Stream/Appends.antt =====
-- A write appends its bytes and takes their room; a read of them gives the number back.
use xoz.Base.{
  ℕ, ◌+◌, ◌*◌, ◌/◌, ◌%◌, ◌^◌, ◌≡◌, arith, leb, List, [], ◌∷◌, ◌++◌, length, length-append, ◌-◌, sym,
  ap, ok, ok-injective, Bool-cases, inl, inr,
}
use xoz.Io.Stream.{Writer, writeall, write_u16, write_u32, read_u16, read_u32}
use xoz.Mem.Endian.{
  little, write_u16_to_le, read_u16_from_le, u16_to_le, u32_to_le, store_u16, store_u32, load_u16,
  load_u32,
}
use mathlib.Core.List.{append_assoc}

pub record Appends (w : Writer) (bytes : List ℕ) (out : Writer) : Type 0 where
  pub written : out.written ≡ w.written ++ bytes
  pub room : out.room + length bytes ≡ w.room

pub writeall-Appends :
    (bytes : List ℕ) (w out : Writer) → writeall bytes w ≡ ok out → Appends w bytes out
unfolding writeall
writeall-Appends bytes w out h = elim (Bool-cases (leb (length bytes) w.room)) [
  | inl fits ↦
      let e : record { written = w.written ++ bytes; room = w.room - length bytes } ≡ out =
        ok-injective ((rw fits at h)) in
      record {
        written = sym (ap (λ (w : Writer). w.written) e);
        room = ground (arith, fits, ap (λ (w : Writer). w.room) e);
      }
  | inr short ↦ cc (h, short)
]

pub Appends-trans :
    {u v w : Writer} {xs ys : List ℕ} → Appends u xs v → Appends v ys w → Appends u (xs ++ ys) w
Appends-trans {u} {v} {w} {xs} {ys} a b = record {
  written = rw (b.written, a.written) (append_assoc u.written xs ys);
  room = omega (arith, a.room, b.room, length-append xs ys);
}

abbrev pub u16_bytes : ℕ → List ℕ
u16_bytes x = (x % 256) ∷ (x / 256) ∷ []

abbrev pub u32_bytes : ℕ → List ℕ
u32_bytes x = (x % 256) ∷ (x / 2 ^ 8 % 256) ∷ (x / 2 ^ 16 % 256) ∷ (x / 2 ^ 24) ∷ []

pub write_u16-Appends :
    (x : ℕ) (w out : Writer) → write_u16 little x w ≡ ok out → Appends w (u16_bytes x) out
unfolding write_u16 write_u16_to_le u16_to_le store_u16
write_u16-Appends x w out h = writeall-Appends (u16_bytes x) w out h

pub write_u32-Appends :
    (x : ℕ) (w out : Writer) → write_u32 little x w ≡ ok out → Appends w (u32_bytes x) out
unfolding write_u32 u32_to_le store_u32
write_u32-Appends x w out h = writeall-Appends (u32_bytes x) w out h

pub read_u16-bytes : (x : ℕ) (rest : List ℕ) → read_u16 little (u16_bytes x ++ rest) ≡ ok (x, rest)
unfolding read_u16 read_u16_from_le u16_to_le load_u16
read_u16-bytes x rest = let e : x % 256 + x / 256 * 256 ≡ x = omega arith in rw e

pub read_u32-bytes : (x : ℕ) (rest : List ℕ) → read_u32 little (u32_bytes x ++ rest) ≡ ok (x, rest)
unfolding read_u32 u32_to_le load_u32
read_u32-bytes x rest =
    let e : x % 256 + x / 2 ^ 8 % 256 * 2 ^ 8 + x / 2 ^ 16 % 256 * 2 ^ 16 + x / 2 ^ 24 * 2 ^ 24
        ≡ x =
      omega arith in
    rw e
