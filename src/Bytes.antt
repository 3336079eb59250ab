-- ===== src/Bytes.antt =====
-- src/common/read.c and src/common/write.c: fixed-width integers in byte arrays, in both orders.
-- A byte array is a list of numbers. A read past the array (undefined in C) is modelled as 0, and a
-- write past it as no change; the callers' bounds are proved where they are modelled.
pub mod RoundTrip
mod Tests
use ledger_babylon_app.Common.{ℕ, ◌+◌, ◌*◌, ◌/◌, ◌%◌, ◌^◌, List, get_or, set, bit_or}

-- `ptr[i]`
abbrev pub byte_at : List ℕ → ℕ → ℕ
byte_at ptr i = get_or ptr i 0

-- `(uint8_t) (value >> k)`
abbrev pub byte_of : ℕ → ℕ → ℕ
byte_of value k = value / 2 ^ k % 256

unfoldable pub read_u16_be : List ℕ → ℕ → ℕ
read_u16_be ptr offset = bit_or (byte_at ptr offset * 2 ^ 8) (byte_at ptr (offset + 1))

unfoldable pub read_u32_be : List ℕ → ℕ → ℕ
read_u32_be ptr offset =
    bit_or
      (bit_or (bit_or (byte_at ptr offset * 2 ^ 24) (byte_at ptr (offset + 1) * 2 ^ 16))
        (byte_at ptr (offset + 2) * 2 ^ 8))
      (byte_at ptr (offset + 3))

unfoldable pub read_u64_be : List ℕ → ℕ → ℕ
read_u64_be ptr offset =
    bit_or
      (bit_or
        (bit_or
          (bit_or
            (bit_or
              (bit_or (bit_or (byte_at ptr offset * 2 ^ 56) (byte_at ptr (offset + 1) * 2 ^ 48))
                (byte_at ptr (offset + 2) * 2 ^ 40))
              (byte_at ptr (offset + 3) * 2 ^ 32))
            (byte_at ptr (offset + 4) * 2 ^ 24))
          (byte_at ptr (offset + 5) * 2 ^ 16))
        (byte_at ptr (offset + 6) * 2 ^ 8))
      (byte_at ptr (offset + 7))

unfoldable pub read_u16_le : List ℕ → ℕ → ℕ
read_u16_le ptr offset = bit_or (byte_at ptr offset) (byte_at ptr (offset + 1) * 2 ^ 8)

unfoldable pub read_u32_le : List ℕ → ℕ → ℕ
read_u32_le ptr offset =
    bit_or
      (bit_or (bit_or (byte_at ptr offset) (byte_at ptr (offset + 1) * 2 ^ 8))
        (byte_at ptr (offset + 2) * 2 ^ 16))
      (byte_at ptr (offset + 3) * 2 ^ 24)

unfoldable pub read_u64_le : List ℕ → ℕ → ℕ
read_u64_le ptr offset =
    bit_or
      (bit_or
        (bit_or
          (bit_or
            (bit_or
              (bit_or (bit_or (byte_at ptr offset) (byte_at ptr (offset + 1) * 2 ^ 8))
                (byte_at ptr (offset + 2) * 2 ^ 16))
              (byte_at ptr (offset + 3) * 2 ^ 24))
            (byte_at ptr (offset + 4) * 2 ^ 32))
          (byte_at ptr (offset + 5) * 2 ^ 40))
        (byte_at ptr (offset + 6) * 2 ^ 48))
      (byte_at ptr (offset + 7) * 2 ^ 56)

unfoldable pub write_u16_be : List ℕ → ℕ → ℕ → List ℕ
write_u16_be ptr offset value =
    set (set ptr offset (byte_of value 8)) (offset + 1) (byte_of value 0)

unfoldable pub write_u32_be : List ℕ → ℕ → ℕ → List ℕ
write_u32_be ptr offset value =
    let p0 = set ptr offset (byte_of value 24) in
    let p1 = set p0 (offset + 1) (byte_of value 16) in
    let p2 = set p1 (offset + 2) (byte_of value 8) in set p2 (offset + 3) (byte_of value 0)

unfoldable pub write_u64_be : List ℕ → ℕ → ℕ → List ℕ
write_u64_be ptr offset value =
    let p0 = set ptr offset (byte_of value 56) in
    let p1 = set p0 (offset + 1) (byte_of value 48) in
    let p2 = set p1 (offset + 2) (byte_of value 40) in
    let p3 = set p2 (offset + 3) (byte_of value 32) in
    let p4 = set p3 (offset + 4) (byte_of value 24) in
    let p5 = set p4 (offset + 5) (byte_of value 16) in
    let p6 = set p5 (offset + 6) (byte_of value 8) in set p6 (offset + 7) (byte_of value 0)

unfoldable pub write_u16_le : List ℕ → ℕ → ℕ → List ℕ
write_u16_le ptr offset value =
    set (set ptr offset (byte_of value 0)) (offset + 1) (byte_of value 8)

unfoldable pub write_u32_le : List ℕ → ℕ → ℕ → List ℕ
write_u32_le ptr offset value =
    let p0 = set ptr offset (byte_of value 0) in
    let p1 = set p0 (offset + 1) (byte_of value 8) in
    let p2 = set p1 (offset + 2) (byte_of value 16) in set p2 (offset + 3) (byte_of value 24)

unfoldable pub write_u64_le : List ℕ → ℕ → ℕ → List ℕ
write_u64_le ptr offset value =
    let p0 = set ptr offset (byte_of value 0) in
    let p1 = set p0 (offset + 1) (byte_of value 8) in
    let p2 = set p1 (offset + 2) (byte_of value 16) in
    let p3 = set p2 (offset + 3) (byte_of value 24) in
    let p4 = set p3 (offset + 4) (byte_of value 32) in
    let p5 = set p4 (offset + 5) (byte_of value 40) in
    let p6 = set p5 (offset + 6) (byte_of value 48) in set p6 (offset + 7) (byte_of value 56)
