-- ===== src/Buffer.antt =====
-- The byte buffers of src/protocol.c: `Buffer`, its readers and its writers.
-- A reader or a writer is a step on the buffer; `none` is an access outside `data`, which C leaves
-- undefined.
pub mod Endian
pub mod Cursor
pub mod Words
mod Tests
use sizigy.Base.{
  ℕ, zero, suc, ◌+◌, ◌%◌, ◌^◌, ◌≡◌, Option, none, some, List, [], ◌∷◌, ◌==◌, ltb, leb,
  if◌then◌else◌, length, get_elem?, set, take,
}
use sizigy.Buffer.Endian.{big_endian, of_big_endian}

pub record Buffer : Type 0 where
  pub size : ℕ
  pub pos : ℕ
  pub data_ : List ℕ

-- `malloc`: a block of `n` bytes that nobody has written. Where it fails the process ends in `oom`,
-- and nothing of what follows runs.
pub record Allocator : Type 0 where
  pub malloc : ℕ → List ℕ
  pub malloc_size : (n : ℕ) → length (malloc n) ≡ n

unfoldable pub buffer_init : Allocator → ℕ → Buffer
buffer_init a len = record { size = len; pos = 0; data_ = a.malloc len }

abbrev pub Buf : Type 0 → Type 0
Buf A = Buffer → Option (A × Buffer)

infixl 5 ◌>>=◌ ◌>>◌
abbrev pub ◌>>=◌ : {A B : Type 0} → Buf A → (A → Buf B) → Buf B
◌>>=◌ m f b = elim (m b) [ none ↦ none | some (a, b') ↦ f a b' ]

abbrev pub ◌>>◌ : {B : Type 0} → Buf (Unit {0}) → Buf B → Buf B
m >> k = m >>= λ _. k

abbrev pub pure : {A : Type 0} → A → Buf A
pure a b = some (a, b)

-- `*(b->data + b->pos)`, and one step on
unfoldable pub byte : Buf ℕ
byte b = elim (get_elem? b.data_ b.pos) [
  | none ↦ none
  | some x ↦ some (x, record b { pos = b.pos + 1 })
]

unfoldable pub bytes : ℕ → Buf (List ℕ)
bytes zero = pure []
bytes (suc n) = do x ← byte; xs ← bytes n; pure (x ∷ xs)

-- `*(b->data + b->pos) = x`, and one step on
unfoldable pub store : ℕ → Buf (Unit {0})
store x b =
    if ltb b.pos (length b.data_)
    then some (tt, record b { data_ = set b.data_ b.pos x; pos = b.pos + 1 })
    else none

unfoldable pub stores : List ℕ → Buf (Unit {0})
stores [] = pure tt
stores (x ∷ xs) = store x >> stores xs

unfoldable pub read_uint8 : Buf ℕ
read_uint8 = byte

unfoldable pub read_uint16 : Buf ℕ
read_uint16 = do xs ← bytes 2; pure (of_big_endian xs)

unfoldable pub read_uint32 : Buf ℕ
read_uint32 = do xs ← bytes 4; pure (of_big_endian xs)

unfoldable pub read_uint64 : Buf ℕ
read_uint64 = do xs ← bytes 8; pure (of_big_endian xs)

-- The new block holds these bytes and a zero behind them, which the list leaves out.
unfoldable pub read_string : ℕ → Buf (List ℕ)
read_string len = bytes len

-- The bytes of a block up to its first zero; a zero stands behind the last byte of the list.
unfoldable pub strlen : List ℕ → ℕ
strlen [] = 0
strlen (x ∷ xs) = if x == 0 then 0 else suc (strlen xs)

-- The value is converted to the parameter's width, and its bytes go out highest first.
unfoldable pub write_uint8 : ℕ → Buf (Unit {0})
write_uint8 v = stores (big_endian 1 (v % 2 ^ 8))

unfoldable pub write_uint16 : ℕ → Buf (Unit {0})
write_uint16 v = stores (big_endian 2 (v % 2 ^ 16))

unfoldable pub write_uint32 : ℕ → Buf (Unit {0})
write_uint32 v = stores (big_endian 4 (v % 2 ^ 32))

unfoldable pub write_uint64 : ℕ → Buf (Unit {0})
write_uint64 v = stores (big_endian 8 (v % 2 ^ 64))

unfoldable pub write_string : List ℕ → Buf (Unit {0})
write_string str = stores (take (strlen str) str)

-- The two assertions end the process: `none`.
unfoldable pub advance_pos : ℕ → Buf (Unit {0})
advance_pos offset b =
    if leb (b.pos + offset) b.size then some (tt, record b { pos = b.pos + offset }) else none
