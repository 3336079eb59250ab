-- ===== src/Bytes/Tests.antt =====
-- Runs of the byte reads and writes.
use ledger_babylon_app.Common.{ℕ, ◌≡◌, arith, List, replicate}
use ledger_babylon_app.Bytes.{
  read_u16_be, read_u16_le, read_u32_be, read_u32_le, read_u64_be, read_u64_le, write_u16_be,
  write_u16_le, write_u32_be, write_u32_le, write_u64_be, write_u64_le,
}
use ledger_babylon_app.Bytes.RoundTrip.{read-write}

abbrev nine : List ℕ
nine = replicate 9 0xaa

read-write_example :
    (read_u16_be (write_u16_be nine 1 0x1234) 1 ≡ 0x1234)
    × (read_u16_le (write_u16_le nine 1 0x1234) 1 ≡ 0x1234)
    × (read_u32_be (write_u32_be nine 1 0x12345678) 1 ≡ 0x12345678)
    × (read_u32_le (write_u32_le nine 1 0x12345678) 1 ≡ 0x12345678)
    × (read_u64_be (write_u64_be nine 1 0x123456789abcdef0) 1 ≡ 0x123456789abcdef0)
    × (read_u64_le (write_u64_le nine 1 0x123456789abcdef0) 1 ≡ 0x123456789abcdef0)
read-write_example =
    read-write nine 1 0x1234 0x12345678 0x123456789abcdef0 (omega arith) (omega arith) (omega arith)
      (omega arith)
