-- ===== src/Buffer/Tests.antt =====
-- Buffers at a few bytes.
use sizigy.Base.{ℕ, ◌%◌, ◌^◌, ◌≡◌, refl, none, some, List, [], ◌∷◌, arith}
use sizigy.Buffer.{
  Buffer, read_uint8, read_uint16, read_uint32, read_uint64, strlen, write_uint8, write_uint16,
  write_uint32, write_uint64, write_string, advance_pos, byte, bytes, store, stores,
}
use sizigy.Buffer.Cursor.{cursor}
use sizigy.Buffer.Words.{put_then_get, words_roundtrip}

abbrev block : Buffer
block = record { size = 4; pos = 1; data_ = 7 ∷ 1 ∷ 2 ∷ 3 ∷ [] }

reads : (read_uint16 block ≡ some (0x0102, record block { pos = 3 })) × (read_uint32 block ≡ none)
unfolding read_uint16 read_uint32 bytes byte
reads = (refl, refl)

writes :
    (write_uint16 0x1fffe block
      ≡ some (tt, record block { pos = 3; data_ = 7 ∷ 0xff ∷ 0xfe ∷ 3 ∷ [] }))
    × (write_uint64 5 block ≡ none)
unfolding write_uint16 write_uint64 stores store
writes = (refl, refl)

-- The bytes up to the first zero are what is written.
text_stops :
    write_string (5 ∷ 0 ∷ 6 ∷ []) block
    ≡ some (tt, record block { pos = 2; data_ = 7 ∷ 5 ∷ 2 ∷ 3 ∷ [] })
unfolding write_string strlen stores store
text_stops = refl

advance_asserts :
    (advance_pos 3 block ≡ some (tt, record block { pos = 4 })) × (advance_pos 4 block ≡ none)
unfolding advance_pos
advance_asserts = (refl, refl)

abbrev zeros : List ℕ
zeros = 0 ∷ 0 ∷ 0 ∷ 0 ∷ 0 ∷ 0 ∷ 0 ∷ 0 ∷ 0 ∷ []

words_roundtrip_example :
    (put_then_get (write_uint8 0x12345) read_uint8 (cursor 10 (9 ∷ []) zeros)
      ≡ some (0x12345 % 2 ^ 8))
    × (put_then_get (write_uint16 0x12345) read_uint16 (cursor 10 (9 ∷ []) zeros)
        ≡ some (0x12345 % 2 ^ 16))
    × (put_then_get (write_uint32 0x12345) read_uint32 (cursor 10 (9 ∷ []) zeros)
        ≡ some (0x12345 % 2 ^ 32))
    × (put_then_get (write_uint64 0x12345) read_uint64 (cursor 10 (9 ∷ []) zeros)
        ≡ some (0x12345 % 2 ^ 64))
words_roundtrip_example = words_roundtrip 10 (9 ∷ []) zeros 0x12345 (omega arith)
