-- ===== src/Names/StoreLoad.antt =====
-- What `store` stores, `load` loads.
use xoz.Base.{
  ℕ, suc, ◌+◌, ◌*◌, ◌-◌, ◌/◌, ◌%◌, ◌^◌, ◌<◌, ◌≤◌, ◌≡◌, refl, sym, ap, ◌∙◌, arith, bit_and, true,
  false, leb, ◌==◌, List, [], ◌∷◌, ◌++◌, length, length-append, take-append, drop-append, Result,
  ok, All, All-append, All-map, Bool-cases, inl, inr,
}
use xoz.Base.Bits.{bit_and_field}
use xoz.Io.Stream.{Writer, writeall, readall, write_u32, read_u32, write_u8, read_u8}
use xoz.Io.Stream.Appends.{u32_bytes}
use xoz.Mem.Ints.Casts.{assert_integral_cast-fits}
use xoz.Mem.Endian.{Host}
use xoz.Mem.Endian.Words.{store_u32-to_le, load_u32-to_le}
use xoz.Names.{NameMap, first_char, temp_name_prefix}
use xoz.Names.IdMapping.{
  IdMapping, is_reserved, fail_if_bad_values, calculate_store_mapping_size, store_entry,
  store_entries, store, load_entry, load_entries, load,
}
use xoz.Names.Order.{IsAbove, IsBelow, IsSorted, assign-last, stored, All-stored, stored-IsSorted}
use mathlib.Core.List.{append_assoc, append-nil}

-- A name and an identifier that may be stored.
pub record IsEntry (e : List ℕ × ℕ) : Type 0 where
  pub id_pos : 0 < e.1
  pub id_small : e.1 < 2 ^ 31
  pub named : 0 < length e.0
  pub short : length e.0 ≤ 255
  pub free : is_reserved e.0 ≡ false

good_values : (name : List ℕ) (id : ℕ) → IsEntry (name, id) → fail_if_bad_values id name ≡ ok tt
unfolding fail_if_bad_values
good_values name id v =
    let nonzero : (id == 0) ≡ false = ground (arith, v.id_pos) in
    let half : bit_and id 0x80000000 ≡ id / 2 ^ 31 % 2 * 2 ^ 31 = bit_and_field 31 1 id in
    let low : bit_and id 0x80000000 ≡ 0 = omega (arith, half, v.id_small) in
    let short : leb (length name) 255 ≡ true = ground (arith, v.short) in
    let named : (length name == 0) ≡ false = ground (arith, v.named) in
    rw (nonzero, low, short, named, v.free) refl

abbrev entry_bytes : List ℕ → ℕ → List ℕ
entry_bytes name id = u32_bytes id ++ (length name ∷ name)

abbrev map_bytes : NameMap → List ℕ
map_bytes [] = []
map_bytes ((name, id) ∷ m) = entry_bytes name id ++ map_bytes m

read_id :
    (host : Host) (id : ℕ) (rest : List ℕ)
    → id < 2 ^ 32
    → read_u32 host (u32_bytes id ++ rest) ≡ ok (id, rest)
unfolding read_u32
read_id host id rest small = rw (load_u32-to_le host id small) refl

load_entry-bytes :
    (host : Host) (name : List ℕ) (id : ℕ) (rest : List ℕ)
    → IsEntry (name, id)
    → load_entry host (entry_bytes name id ++ rest) ≡ ok ((name, id), rest)
unfolding load_entry read_u8 readall
load_entry-bytes host name id rest v =
    let tail : List ℕ = length name ∷ (name ++ rest) in
    let fits : leb (length name) 256 ≡ true = ground (arith, v.short) in
    let enough : leb (length name) (length (name ++ rest)) ≡ true =
      ground (arith, length-append name rest) in
    rw
      (
        read_id host id tail (omega (arith, v.id_small)),
        fits,
        enough,
        take-append name rest,
        drop-append name rest,
        good_values name id v,
      )
      refl

load_entries-bytes :
    (host : Host) (es acc : NameMap)
    → All IsEntry es
    → IsSorted es
    → All (λ a. All (IsAbove a.0) es) acc
    → load_entries host (length es) (map_bytes es) acc ≡ ok (acc ++ es)
unfolding load_entries
load_entries-bytes host [] acc v s b = rw (append-nil acc) refl
load_entries-bytes host ((name, id) ∷ es) acc (v, vs) (s, ss) b =
    let below : All (IsBelow name) acc =
      All-map (λ a (h : All (IsAbove a.0) ((name, id) ∷ es)). h.0) acc b in
    let next : All (λ a. All (IsAbove a.0) es) (acc ++ (name, id) ∷ []) =
      All-append (λ a. All (IsAbove a.0) es) acc ((name, id) ∷ [])
        (All-map (λ a (h : All (IsAbove a.0) ((name, id) ∷ es)). h.1) acc b) (s, tt) in
    let rest = load_entries-bytes host es (acc ++ (name, id) ∷ []) vs ss next in
    rw (load_entry-bytes host name id (map_bytes es) v, assign-last name id acc below)
      (rest ∙ ap ok (append_assoc acc ((name, id) ∷ []) es))

length-entry_bytes : (name : List ℕ) (id : ℕ) → length (entry_bytes name id) ≡ 5 + length name
length-entry_bytes name id = omega arith

calculate_store_mapping_size-length :
    (m : NameMap) (sz : ℕ)
    → All IsEntry m
    → sz + length (map_bytes (stored m)) < 2 ^ 32
    → calculate_store_mapping_size m sz ≡ ok (sz + length (map_bytes (stored m)))
unfolding calculate_store_mapping_size
calculate_store_mapping_size-length [] sz v small = ap ok (omega arith)
calculate_store_mapping_size-length ((name, id) ∷ m) sz (v, vs) small =
    elim (Bool-cases (first_char name == temp_name_prefix)) [
      | inl temp ↦
          let same : (sz + 0) % 2 ^ 32 ≡ sz = omega (arith, (rw temp at small)) in
          rw (good_values name id v, temp, same)
            (calculate_store_mapping_size-length m sz vs (rw temp at small))
      | inr kept ↦
          let es : List ℕ = map_bytes (stored m) in
          let split = length-append (entry_bytes name id) es in
          let fits : sz + length (entry_bytes name id ++ es) < 2 ^ 32 = rw kept at small in
          let n : ℕ = sz + (5 + length name) in
          let same : n % 2 ^ 32 ≡ n = omega (arith, fits, split) in
          let whole : n + length es ≡ sz + length (entry_bytes name id ++ es) =
            omega (arith, split) in
          rw
            (
              good_values name id v,
              kept,
              assert_integral_cast-fits 8 (length name) (omega (arith, v.short)),
              same,
            )
            (calculate_store_mapping_size-length m n vs (omega (arith, fits, split)) ∙ ap ok whole)
    ]

store_entry-bytes :
    (host : Host) (name : List ℕ) (id : ℕ) (io : Writer)
    → IsEntry (name, id)
    → 5 + length name ≤ io.room
    → store_entry host name id io
      ≡ ok (record {
        written = io.written ++ entry_bytes name id;
        room = io.room - (5 + length name);
      })
unfolding store_entry write_u32 write_u8 writeall
store_entry-bytes host name id io v room =
    let a : leb 4 io.room ≡ true = ground (arith, room) in
    let b : leb 1 (io.room - 4) ≡ true = ground (arith, room) in
    let c : leb (length name) (io.room - 4 - 1) ≡ true = ground (arith, room) in
    let left : io.room - 4 - 1 - length name ≡ io.room - (5 + length name) = omega arith in
    let first = append_assoc (io.written ++ u32_bytes id) (length name ∷ []) name in
    let second = append_assoc io.written (u32_bytes id) (length name ∷ name) in
    let bytes = store_u32-to_le host id (omega (arith, v.id_small)) in
    rw (bytes, a, assert_integral_cast-fits 8 (length name) (omega (arith, v.short)), b, c, left)
      (ap (λ (bytes : List ℕ). ok (record { written = bytes; room = io.room - (5 + length name) }))
        (first ∙ second))

same_sent :
    {n m : ℕ} {xs ys : List ℕ} {a b : ℕ}
    → n ≡ m
    → xs ≡ ys
    → a ≡ b
    → ◌≡◌ {A = Result (ℕ × Writer)}
        (ok (n, record { written = xs; room = a }))
        (ok (m, record { written = ys; room = b }))
same_sent e f g = λ i. ok (e i, record { written = f i; room = g i })

store_entries-bytes :
    (host : Host) (m : NameMap) (cnt : ℕ) (io : Writer)
    → All IsEntry m
    → length (map_bytes (stored m)) ≤ io.room
    → cnt + length (stored m) < 2 ^ 32
    → store_entries host m cnt io
      ≡ ok (
        cnt + length (stored m),
        record {
          written = io.written ++ map_bytes (stored m);
          room = io.room - length (map_bytes (stored m));
        },
      )
unfolding store_entries
store_entries-bytes host [] cnt io v room small =
    same_sent (omega arith) (sym (append-nil io.written)) (omega arith)
store_entries-bytes host ((name, id) ∷ m) cnt io (v, vs) room small =
    elim (Bool-cases (first_char name == temp_name_prefix)) [
      | inl temp ↦
          rw temp (store_entries-bytes host m cnt io vs (rw temp at room) (rw temp at small))
      | inr kept ↦
          let es : List ℕ = map_bytes (stored m) in
          let split = length-append (entry_bytes name id) es in
          let enough : length (entry_bytes name id ++ es) ≤ io.room = rw kept at room in
          let few : cnt + suc (length (stored m)) < 2 ^ 32 = rw kept at small in
          let next : (cnt + 1) % 2 ^ 32 ≡ cnt + 1 = omega (arith, few) in
          let one = store_entry-bytes host name id io v (omega (arith, enough, split)) in
          let after : Writer = record {
            written = io.written ++ entry_bytes name id;
            room = io.room - (5 + length name);
          } in
          let rest =
            store_entries-bytes host m (cnt + 1) after vs (omega (arith, enough, split))
              (omega (arith, few)) in
          rw (kept, one, next)
            (rest
              ∙ same_sent (omega arith) (append_assoc io.written (entry_bytes name id) es)
                  (omega (arith, split)))
    ]

map_bytes-le : (es : NameMap) → All IsEntry es → length (map_bytes es) ≤ 260 * length es
map_bytes-le [] v = omega arith
map_bytes-le ((name, id) ∷ es) (v, vs) =
    omega (arith, v.short, length-append (entry_bytes name id) (map_bytes es), map_bytes-le es vs)

-- A map in the order of its names, with good names and identifiers, of which fewer than 2 ^ 16 are
-- not temporal, is stored without an error, and what is loaded from it is the map but for the
-- temporal names. Each host may have either byte order, and they need not have the same.
pub load-store :
    (host other : Host) (m : NameMap)
    → IsSorted m
    → All IsEntry m
    → length (stored m) < 2 ^ 16
    → (d : IdMapping) × (store host m ≡ ok d) × (load other d ≡ ok (stored m))
unfolding store load
load-store host other m s v few =
    let es : NameMap = stored m in
    let le = map_bytes-le es (All-stored IsEntry m v) in
    let size : calculate_store_mapping_size m 0 ≡ ok (length (map_bytes es)) =
      calculate_store_mapping_size-length m 0 v (omega (arith, le, few)) ∙ ap ok (omega arith) in
    let io : Writer = record { written = []; room = length (map_bytes es) } in
    let all =
      store_entries-bytes host m 0 io v (omega arith) (omega (arith, few))
      ∙ same_sent {m = length es} (omega arith) refl refl in
    (
      record { num_entries = length es; content = map_bytes es },
      rw (size, all, assert_integral_cast-fits 16 (length es) few) refl,
      load_entries-bytes other es [] (All-stored IsEntry m v) (stored-IsSorted m s) tt,
    )
