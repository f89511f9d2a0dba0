-- ===== src/Buffer/Words.antt =====
-- What the readers take from a buffer and what the writers put into it, and how that composes.
use mathlib.Core.Path.{subst}
use sizigy.Base.{
  ℕ, ◌/◌, ◌%◌, ◌^◌, ◌≤◌, ◌<◌, ◌≡◌, refl, Option, none, some, List, [], ◌∷◌, ◌++◌, arith, append-nil,
  append_assoc, length, drop, take, length-append, length-drop,
}
use sizigy.Buffer.{
  Buffer, Buf, ◌>>=◌, ◌>>◌, pure, bytes, stores, read_uint8, read_uint16, read_uint32, read_uint64,
  read_string, strlen, write_uint8, write_uint16, write_uint32, write_uint64, write_string,
}
use sizigy.Buffer.Endian.{
  big_endian, of_big_endian, length-big_endian, of_big_endian-16, of_big_endian-32,
  of_big_endian-64,
}
use sizigy.Buffer.Cursor.{cursor, byte-cursor, bytes-cursor, bytes-short, stores-cursor}

drop-append_length :
    (xs ys back : List ℕ) → drop (length ys) (drop (length xs) back) ≡ drop (length (xs ++ ys)) back
drop-append_length [] ys back = refl
drop-append_length (x ∷ xs) [] [] = refl
drop-append_length (x ∷ xs) (y ∷ ys) [] = refl
drop-append_length (x ∷ xs) ys (b ∷ back) = drop-append_length xs ys back

-- On a buffer of size `n` with room for them, `m` writes the bytes `ws` and steps behind them.
pub record Emits (n : ℕ) (m : Buf (Unit {0})) (ws : List ℕ) : Type 0 where
  pub emits :
      (front back : List ℕ)
      → length ws ≤ length back
      → m (cursor n front back) ≡ some (tt, cursor n (front ++ ws) (drop (length ws) back))

-- On a buffer that goes on with the bytes `ws`, `m` reads them and returns `a`.
pub record Takes {A : Type 0} (m : Buf A) (ws : List ℕ) (a : A) : Type 0 where
  pub takes :
      (n : ℕ) (front back : List ℕ)
      → m (cursor n front (ws ++ back)) ≡ some (a, cursor n (front ++ ws) back)

-- On a buffer that ends with the bytes `ws`, `m` leaves the block.
pub record Overruns {A : Type 0} (m : Buf A) (ws : List ℕ) : Type 0 where
  pub overruns : (n : ℕ) (front : List ℕ) → m (cursor n front ws) ≡ none

pub Emits-then :
    {n : ℕ} {m k : Buf (Unit {0})} {ws vs : List ℕ}
    → Emits n m ws
    → Emits n k vs
    → Emits n (m >> k) (ws ++ vs)
Emits-then {ws} {vs} p q = record {
  emits = λ front back h.
      let total = length-append ws vs in
      rw (
        ◌>>=◌,
        p.emits front back (omega (arith, total)),
        q.emits (front ++ ws) (drop (length ws) back)
            (omega (arith, total, length-drop (length ws) back)),
        drop-append_length ws vs back,
        append_assoc front ws vs,
      );
}

pub Takes-pure : {A : Type 0} (a : A) → Takes (pure a) [] a
Takes-pure a = record { takes = λ n front back. rw append-nil }

pub Takes-then :
    {A B : Type 0} {m : Buf A} (f : A → Buf B) {ws vs : List ℕ} {a : A} {b : B}
    → Takes m ws a
    → Takes (f a) vs b
    → Takes (m >>= f) (ws ++ vs) b
Takes-then f {ws} {vs} p q = record {
  takes = λ n front back. rw (
    append_assoc ws vs back,
    ◌>>=◌,
    p.takes n front (vs ++ back),
    q.takes n (front ++ ws) back,
    append_assoc front ws vs,
  );
}

-- The last read of a block.
pub Takes-last :
    {A B : Type 0} {m : Buf A} (f : A → B) {ws : List ℕ} {a : A}
    → Takes m ws a
    → Takes (m >>= λ x. pure (f x)) ws (f a)
Takes-last f {a} p =
    rw append-nil at (Takes-then (λ x. pure (f x)) {vs = []} {b = f a} p (Takes-pure (f a)))

pub Overruns-here :
    {A B : Type 0} {m : Buf A} (f : A → Buf B) {ws : List ℕ} → Overruns m ws → Overruns (m >>= f) ws
Overruns-here f p = record { overruns = λ n front. rw (◌>>=◌, p.overruns n front) }

pub Overruns-then :
    {A B : Type 0} {m : Buf A} (f : A → Buf B) {ws vs : List ℕ} {a : A}
    → Takes m ws a
    → Overruns (f a) vs
    → Overruns (m >>= f) (ws ++ vs)
Overruns-then f {ws} {vs} p q = record {
  overruns = λ n front. rw (◌>>=◌, p.takes n front vs, q.overruns n (front ++ ws));
}

Takes-bytes : (xs : List ℕ) → Takes (bytes (length xs)) xs xs
Takes-bytes xs = record { takes = λ n front back. bytes-cursor n xs front back }

-- A number in network byte order is read back.
Takes-number :
    (w v : ℕ)
    → of_big_endian (big_endian w v) ≡ v
    → Takes (bytes w >>= λ xs. pure (of_big_endian xs)) (big_endian w v) v
Takes-number w v e =
    let xs = big_endian w v in
    let got : Takes (bytes w) xs xs = rw (length-big_endian w v) at (Takes-bytes xs) in
    subst (λ k. Takes (bytes w >>= λ ys. pure (of_big_endian ys)) xs k) e
      (Takes-last of_big_endian got)

pub Takes-uint8 : (v : ℕ) → Takes read_uint8 (v ∷ []) v
unfolding read_uint8
Takes-uint8 v = record { takes = λ n front back. byte-cursor n front back v }

pub Takes-uint16 : (v : ℕ) → v < 2 ^ 16 → Takes read_uint16 (big_endian 2 v) v
unfolding read_uint16
Takes-uint16 v h = Takes-number 2 v (of_big_endian-16 v h)

pub Takes-uint16_bytes : (x y : ℕ) → Takes read_uint16 (x ∷ y ∷ []) (of_big_endian (x ∷ y ∷ []))
unfolding read_uint16
Takes-uint16_bytes x y = Takes-last of_big_endian (Takes-bytes (x ∷ y ∷ []))

pub Takes-uint32 : (v : ℕ) → v < 2 ^ 32 → Takes read_uint32 (big_endian 4 v) v
unfolding read_uint32
Takes-uint32 v h = Takes-number 4 v (of_big_endian-32 v h)

pub Takes-uint64 : (v : ℕ) → v < 2 ^ 64 → Takes read_uint64 (big_endian 8 v) v
unfolding read_uint64
Takes-uint64 v h = Takes-number 8 v (of_big_endian-64 v h)

pub Takes-string : (xs : List ℕ) (len : ℕ) → len ≡ length xs → Takes (read_string len) xs xs
unfolding read_string
Takes-string xs len e = rw e (Takes-bytes xs)

pub Overruns-string : (xs : List ℕ) (len : ℕ) → length xs < len → Overruns (read_string len) xs
unfolding read_string
Overruns-string xs len h = record { overruns = λ n front. bytes-short n len front xs h }

Emits-stores : (n : ℕ) (xs : List ℕ) → Emits n (stores xs) xs
Emits-stores n xs = record { emits = stores-cursor n xs }

Emits-byte : (n v : ℕ) → Emits n (write_uint8 v) ((v % 2 ^ 8) ∷ [])
unfolding write_uint8
Emits-byte n v =
    let low : v % 2 ^ 8 / 2 ^ 0 % 256 ≡ v % 2 ^ 8 = omega arith in
    rw low (Emits-stores n ((v % 2 ^ 8) ∷ []))

pub Emits-uint8 : (n v : ℕ) → v < 2 ^ 8 → Emits n (write_uint8 v) (v ∷ [])
Emits-uint8 n v h = let low : v % 2 ^ 8 ≡ v = omega arith in rw low at (Emits-byte n v)

big_endian-16 : (v : ℕ) → big_endian 2 (v % 2 ^ 16) ≡ big_endian 2 v
big_endian-16 v = ground arith

big_endian-32 : (v : ℕ) → big_endian 4 (v % 2 ^ 32) ≡ big_endian 4 v
big_endian-32 v = ground arith

pub Emits-uint16 : (n v : ℕ) → Emits n (write_uint16 v) (big_endian 2 v)
unfolding write_uint16
Emits-uint16 n v = rw (big_endian-16 v) (Emits-stores n (big_endian 2 v))

pub Emits-uint32 : (n v : ℕ) → Emits n (write_uint32 v) (big_endian 4 v)
unfolding write_uint32
Emits-uint32 n v = rw (big_endian-32 v) (Emits-stores n (big_endian 4 v))

-- The bytes that C string functions see of a block.
abbrev pub text : List ℕ → List ℕ
text str = take (strlen str) str

pub Emits-string : (n : ℕ) (str : List ℕ) → Emits n (write_string str) (text str)
unfolding write_string
Emits-string n str = Emits-stores n (text str)

-- A write, and a read from the position where it began.
abbrev pub put_then_get : Buf (Unit {0}) → Buf ℕ → Buffer → Option ℕ
put_then_get put get b = elim (put b) [
  | none ↦ none
  | some (_, b') ↦ elim (get (record b' { pos = b.pos })) [ none ↦ none | some (v, _) ↦ some v ]
]

put_then_get-eq :
    (put : Buf (Unit {0})) (get : Buf ℕ) {ws : List ℕ} {v : ℕ} (n : ℕ) (front back : List ℕ)
    → Emits n put ws
    → Takes get ws v
    → length ws ≤ length back
    → put_then_get put get (cursor n front back) ≡ some v
put_then_get-eq put get {ws} n front back p q h = rw (
  put_then_get,
  p.emits front back h,
  append_assoc front ws (drop (length ws) back),
  q.takes n front (drop (length ws) back),
)

-- Each read_uint* returns what its write_uint* has put at the same place, cut to the width. The
-- buffer has 8 bytes behind its position.
pub words_roundtrip :
    (n : ℕ) (front back : List ℕ) (v : ℕ)
    → 8 ≤ length back
    → (put_then_get (write_uint8 v) read_uint8 (cursor n front back) ≡ some (v % 2 ^ 8))
      × (put_then_get (write_uint16 v) read_uint16 (cursor n front back) ≡ some (v % 2 ^ 16))
      × (put_then_get (write_uint32 v) read_uint32 (cursor n front back) ≡ some (v % 2 ^ 32))
      × (put_then_get (write_uint64 v) read_uint64 (cursor n front back) ≡ some (v % 2 ^ 64))
unfolding write_uint8 write_uint16 write_uint32 write_uint64
words_roundtrip n front back v h = (
  put_then_get-eq (write_uint8 v) read_uint8 n front back (Emits-byte n v) (Takes-uint8 (v % 2 ^ 8))
      (omega arith),
  put_then_get-eq (write_uint16 v) read_uint16 n front back
      (Emits-stores n (big_endian 2 (v % 2 ^ 16))) (Takes-uint16 (v % 2 ^ 16) (omega arith))
      (omega arith),
  put_then_get-eq (write_uint32 v) read_uint32 n front back
      (Emits-stores n (big_endian 4 (v % 2 ^ 32))) (Takes-uint32 (v % 2 ^ 32) (omega arith))
      (omega arith),
  put_then_get-eq (write_uint64 v) read_uint64 n front back
      (Emits-stores n (big_endian 8 (v % 2 ^ 64))) (Takes-uint64 (v % 2 ^ 64) (omega arith))
      (omega arith),
)
