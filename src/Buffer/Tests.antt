-- ===== src/Buffer/Tests.antt =====
-- Runs on a buffer of eight bytes whose cursor stands at 2.
use ledger_babylon_app.Common.{
  ℕ, ◌+◌, ◌%◌, ◌≡◌, ◌≤◌, ◌<◌, ◌⊎◌, arith, [], ◌∷◌, ◌++◌, true, take, drop, some, none,
}
use ledger_babylon_app.Buffer.{
  Buffer, le, buffer_read_u8, buffer_read_u16, buffer_read_u32, buffer_read_u64, buffer_read_varint,
  buffer_read_bytes, buffer_write_u8, buffer_write_u16, buffer_write_u32, buffer_write_u64,
  buffer_write_bytes, buffer_alloc, padding,
}
use ledger_babylon_app.Buffer.Bounds.{IsValid, IsAdvance, IsWritten, ops-IsValid, alloc_block}
use ledger_babylon_app.Buffer.Contents.{contents, write_bytes_lem}

abbrev eight : Buffer
eight = record { ptr = 1 ∷ 2 ∷ 3 ∷ 4 ∷ 5 ∷ 6 ∷ 7 ∷ 8 ∷ []; size = 8; offset = 2 }

eight-IsValid : IsValid eight
eight-IsValid = omega arith

ops-IsValid_example :
    (IsAdvance eight 1 (buffer_read_u8 eight).0 (buffer_read_u8 eight).2
      × IsAdvance eight 2 (buffer_read_u16 eight le).0 (buffer_read_u16 eight le).2
      × IsAdvance eight 4 (buffer_read_u32 eight le).0 (buffer_read_u32 eight le).2
      × IsAdvance eight 8 (buffer_read_u64 eight le).0 (buffer_read_u64 eight le).2
      × IsValid (buffer_read_varint eight).2
      × IsAdvance eight 3 (buffer_read_bytes eight 3).0 (buffer_read_bytes eight 3).2)
    × (IsWritten eight 1 (buffer_write_u8 eight 9).0 (buffer_write_u8 eight 9).1
        × IsWritten eight 2 (buffer_write_u16 eight 9 le).0 (buffer_write_u16 eight 9 le).1
        × IsWritten eight 4 (buffer_write_u32 eight 9 le).0 (buffer_write_u32 eight 9 le).1
        × IsWritten eight 8 (buffer_write_u64 eight 9 le).0 (buffer_write_u64 eight 9 le).1
        × IsWritten eight 1
            (buffer_write_bytes eight (7 ∷ [])).0
            (buffer_write_bytes eight (7 ∷ [])).1)
ops-IsValid_example = ops-IsValid le 3 9 (7 ∷ []) eight-IsValid (omega arith)

alloc_block_example :
    ((p : ℕ) × (buffer_alloc 1000 eight 3 true ≡ (some p, record eight { offset = p + 3 }))
      × (2 ≤ p)
      × (p + 3 ≤ 8)
      × (true ≡ true → (1000 + p) % 4 ≡ 0))
    ⊎ ((buffer_alloc 1000 eight 3 true ≡ (none, eight)) × (8 < 2 + padding 1000 eight true + 3))
alloc_block_example = alloc_block 1000 3 true eight-IsValid (omega arith)

write_bytes_lem_example :
    let (done, b') = buffer_write_bytes eight (9 ∷ 9 ∷ []) in
    (done ≡ true)
    × (b'.offset ≡ 4)
    × (contents (record b' { offset = 2 }) ≡ (9 ∷ 9 ∷ []) ++ drop 2 (contents eight))
    × (take 2 b'.ptr ≡ take 2 eight.ptr)
write_bytes_lem_example = write_bytes_lem (9 ∷ 9 ∷ []) eight-IsValid (omega arith)
