-- ===== src/Varint.antt =====
-- src/common/varint.c: Bitcoin's variable-length integers, 1, 3, 5 or 9 bytes.
pub mod RoundTrip
mod Tests
use ledger_babylon_app.Common.{
  ℕ, ◌+◌, ◌%◌, ◌^◌, List, [], ◌∷◌, Option, none, some, if◌then◌else◌, leb, ltb, ◌==◌, set,
}
use ledger_babylon_app.Bytes.{byte_at, read_u16_le, read_u32_le, read_u64_le}
use ledger_babylon_app.Bytes.{write_u16_le, write_u32_le, write_u64_le}

unfoldable pub varint_size : ℕ → ℕ
varint_size value =
    if leb value 0xfc
    then 1
    else if leb value 0xffff
    then 3
    else if leb value 0xffff_ffff
    then 5
    else 9

-- The number of bytes read and the value; `none` is -1. `in_len` bytes of the array count.
unfoldable pub varint_read : List ℕ → ℕ → Option (ℕ × ℕ)
varint_read input in_len =
    if ltb in_len 1
    then none
    else let prefix = byte_at input 0 in
      if prefix == 0xfd
      then (if ltb in_len 3 then none else some (3, read_u16_le input 1))
      else if prefix == 0xfe
      then (if ltb in_len 5 then none else some (5, read_u32_le input 1))
      else if prefix == 0xff
      then (if ltb in_len 9 then none else some (9, read_u64_le input 1))
      else some (1, prefix)

-- The array and the number of bytes written. The lengths other than these four, for which the code
-- returns -1, are not values of `varint_size`.
unfoldable pub varint_write : List ℕ → ℕ → ℕ → List ℕ × ℕ
unfolding varint_size
varint_write out offset value =
    let varint_len = varint_size value in
    if varint_len == 1
    then (set out offset (value % 256), varint_len)
    else if varint_len == 3
    then (write_u16_le (set out offset 0xfd) (offset + 1) (value % 2 ^ 16), varint_len)
    else if varint_len == 5
    then (write_u32_le (set out offset 0xfe) (offset + 1) (value % 2 ^ 32), varint_len)
    else (write_u64_le (set out offset 0xff) (offset + 1) value, varint_len)
