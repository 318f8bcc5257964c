-- ===== src/Dsc/Codec/Reads.antt =====
-- What a writer appends, a reader gets back with the same sum.
use xoz.Base.{ℕ, ◌≡◌, arith, [], refl, sym, List, ◌++◌, Result, ok, ok-injective, >>=-eq-ok, ◌>>=◌}
use xoz.Dsc.Parts.{Put, Got, put_word, take_word}
use xoz.Io.Stream.{write_u16}
use xoz.Io.Stream.Appends.{Appends, Appends-trans, u16_bytes, write_u16-Appends, read_u16-bytes}
use xoz.Mem.Endian.{little}
use mathlib.Core.Path.{subst}
use mathlib.Core.List.{append_assoc, append-nil}

pub record Reads {A : Type 0} (read : Got → Result (A × Got)) (value : A) (p q : Put) : Type 0 where
  pub bytes : List ℕ
  pub appends : Appends p.io bytes q.io
  pub back :
      (rest : List ℕ)
      → read (record { input = bytes ++ rest; checksum = p.checksum })
        ≡ ok (value, record { input = rest; checksum = q.checksum })

-- One read after another.
pub Reads-then :
    {A B : Type 0} (read : Got → Result (A × Got)) (next : A × Got → Result (B × Got)) {a : A}
    {b : B} {p q r : Put}
    → Reads read a p q
    → Reads (λ g. next (a, g)) b q r
    → Reads (λ g. read g >>= next) b p r
Reads-then read next {a} {b} {p} {q} {r} first second = record {
  bytes = first.bytes ++ second.bytes;
  appends = Appends-trans first.appends second.appends;
  back = λ rest.
      rw (append_assoc first.bytes second.bytes rest, first.back (second.bytes ++ rest))
        (second.back rest);
}

-- Nothing is written, and nothing is read.
pub Reads-nothing : {A : Type 0} (a : A) (p : Put) → Reads (λ g. ok (a, g)) a p p
Reads-nothing a p = record {
  bytes = [];
  appends = record { written = sym (append-nil p.io.written); room = omega arith };
  back = λ rest. refl;
}

pub Reads-at :
    {A : Type 0} (read : Got → Result (A × Got)) (a : A) (p : Put) {q r : Put}
    → ok q ≡ ok r
    → Reads read a p q
    → Reads read a p r
Reads-at read a p e = subst (Reads read a p) (ok-injective e)

pub put_word-Reads :
    (x : ℕ) (p q : Put) → put_word little x p ≡ ok q → Reads (take_word little) x p q
unfolding put_word take_word
put_word-Reads x p q h =
    let (io, written, done) = >>=-eq-ok (write_u16 little x p.io) _ h in
    Reads-at (take_word little) x p done (record {
      bytes = u16_bytes x;
      appends = write_u16-Appends x p.io io written;
      back = λ rest. rw (read_u16-bytes x rest) refl;
    })
