-- ===== src/Dsc/Codec/Id.antt =====
-- The identifier is read back as it was written, or is found to be temporal.
use xoz.Base.{
  ℕ, ◌+◌, ◌*◌, ◌/◌, ◌%◌, ◌^◌, ◌<◌, ◌≡◌, refl, arith, bit_and, true, false, not, ◌&&◌, leb, ltb,
  ◌==◌, if◌then◌else◌, ok, >>=-eq-ok, Bool-cases, inl, inr, assert,
}
use xoz.Base.Bits.{bit_and_field}
use xoz.Dsc.{Header, stores_id, is_id_temporal, is_id_persistent}
use xoz.Dsc.Parts.{Put}
use xoz.Dsc.Write.{put_id, id_field}
use xoz.Dsc.Load.{take_id, resolve_id}
use xoz.Dsc.Codec.Fields.{digit, digit-le, id_field-read}
use xoz.Dsc.Codec.Reads.{Reads, Reads-at, Reads-nothing}
use xoz.Ids.{
  IdManager, request_temporal_id, register_persistent_id, set_insert, set_contains, is_temporal,
  is_undefined,
}
use xoz.Ids.Laws.{is_temporal-leb, set_insert-new}
use xoz.Io.Stream.{write_u32}
use xoz.Io.Stream.Appends.{u32_bytes, write_u32-Appends, read_u32-bytes}
use xoz.Mem.Endian.{little}
use xoz.Mem.Ints.{read_bits_u32}

pub is_id_temporal-half : (id : ℕ) → id < 2 ^ 32 → is_id_temporal id ≡ leb (2 ^ 31) id
unfolding is_id_temporal
is_id_temporal-half id h =
    let e : bit_and id 0x80000000 ≡ id / 2 ^ 31 % 2 * 2 ^ 31 = bit_and_field 31 1 id in
    rw e (ground arith)

-- The identifier in the structure: 0 stands for a temporal one.
abbrev pub stored_id : Header → ℕ
stored_id hdr = if leb (2 ^ 31) hdr.id then 0 else hdr.id

abbrev pub hi_isize_of : Header → ℕ
hi_isize_of hdr = digit (ltb 0 (hdr.isize / 64))

id_field-parts :
    (hdr : Header)
    → hdr.id < 2 ^ 32
    → (read_bits_u32 (id_field hdr) 0x7fffffff ≡ stored_id hdr)
      × (read_bits_u32 (id_field hdr) 0x80000000 ≡ hi_isize_of hdr)
unfolding id_field
id_field-parts hdr h = rw (is_id_temporal-half hdr.id h) (
    id_field-read (hi_isize_of hdr) (stored_id hdr) (digit-le (ltb 0 (hdr.isize / 64)))
      (ground arith))

-- What the fields hold where they are stored, and zeros where they are not.
abbrev pub found_id : Header → ℕ × ℕ
found_id hdr = if stores_id hdr then (stored_id hdr, hi_isize_of hdr) else (0, 0)

pub put_id-Reads :
    (hdr : Header) (p q : Put)
    → hdr.id < 2 ^ 32
    → put_id little hdr p ≡ ok q
    → Reads (take_id little (stores_id hdr)) (found_id hdr) p q
unfolding put_id take_id
put_id-Reads hdr p q small h = elim (Bool-cases (stores_id hdr)) [
  | inl stored ↦
      let (_, _, k) =
        >>=-eq-ok (assert (not (is_id_temporal hdr.id && hdr.isize / 64 == 0))) _
          (rw stored at h) in
      let (io, written, done) = >>=-eq-ok (write_u32 little (id_field hdr) p.io) _ k in
      let (id, hi) = id_field-parts hdr small in
      rw stored (
        Reads-at (take_id little true) (stored_id hdr, hi_isize_of hdr) p done
          (record {
            bytes = u32_bytes (id_field hdr);
            appends = write_u32-Appends (id_field hdr) p.io io written;
            back = λ rest. rw (read_u32-bytes (id_field hdr) rest, id, hi) refl;
          }))
  | inr none ↦
      rw none (Reads-at (take_id little false) (0, 0) p (rw none at h) (Reads-nothing (0, 0) p))
]

-- The identifier that a loaded descriptor gets, and the manager that knows it.
abbrev pub loaded_id : ℕ → IdManager → ℕ × IdManager
loaded_id id ids =
    if leb (2 ^ 31) id
    then (
      ids.next_temporal_id,
      record ids { next_temporal_id = (ids.next_temporal_id + 1) % 2 ^ 32 },
    )
    else (id, record ids { persistent_ids = (set_insert id ids.persistent_ids).0 })

register-new :
    (id : ℕ) (ids : IdManager)
    → 0 < id
    → id < 2 ^ 31
    → set_contains id ids.persistent_ids ≡ false
    → register_persistent_id id ids
      ≡ ok (record ids { persistent_ids = (set_insert id ids.persistent_ids).0 }, true)
unfolding register_persistent_id is_undefined
register-new id ids pos small new =
    let half : is_temporal id ≡ false = rw (is_temporal-leb id (omega arith)) (ground arith) in
    let nonzero : (id == 0) ≡ false = ground arith in
    rw (nonzero, half, set_insert-new id ids.persistent_ids new) refl

pub resolve_id-found :
    (hdr : Header) (ids : IdManager)
    → 0 < hdr.id
    → hdr.id < 2 ^ 32
    → (hdr.id < 2 ^ 31 → set_contains hdr.id ids.persistent_ids ≡ false)
    → resolve_id (stores_id hdr) (found_id hdr).0 hdr.isize (found_id hdr).1 ids
      ≡ ok (loaded_id hdr.id ids)
unfolding resolve_id stores_id is_id_persistent request_temporal_id
resolve_id-found hdr ids pos small new = elim (Bool-cases (leb (2 ^ 31) hdr.id)) [
  | inl temporal ↦ elim (Bool-cases (leb 64 hdr.isize)) [
    | inl big ↦
        let high : ltb 0 (hdr.isize / 64) ≡ true = ground arith in
        rw (is_id_temporal-half hdr.id small, temporal, big, high) refl
    | inr little_data ↦ rw (is_id_temporal-half hdr.id small, temporal, little_data) refl
  ]
  | inr persistent ↦
      let nonzero : (hdr.id == 0) ≡ false = ground arith in
      rw
        (
          is_id_temporal-half hdr.id small,
          persistent,
          nonzero,
          register-new hdr.id ids pos (ground (arith, persistent))
              (new (ground (arith, persistent))),
        )
        refl
]
