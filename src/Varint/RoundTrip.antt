-- ===== src/Varint/RoundTrip.antt =====
-- Encoding and decoding of varints.
use native.Mathlib.Nat.{suc-add}
use ledger_babylon_app.Common.{
  suc, zero, drop, set, ◌+◌, All, IsByte, ℕ, ◌%◌, ◌^◌, ◌≤◌, ◌≡◌, arith, List, [], ◌∷◌, length,
  IsU64, some,
}
use ledger_babylon_app.Bytes.{write_u16_le, write_u32_le, write_u64_le}
use ledger_babylon_app.Bytes.RoundTrip.{
  read_u16_le-lt, read_u32_le-lt, read_u64_le-lt, read_u16_le-suc, read_u32_le-suc, read_u64_le-suc,
  write_u16_le-suc, write_u32_le-suc, write_u64_le-suc, read_u16_le-write_u16_le,
  read_u32_le-write_u32_le, read_u64_le-write_u64_le,
}
use ledger_babylon_app.Varint.{varint_size, varint_read, varint_write}

-- The four forms, by the size of the value.
varint_read-write_zero :
    (out : List ℕ) (v n : ℕ)
    → IsU64 v
    → varint_size v ≤ length out
    → varint_size v ≤ n
    → varint_read (varint_write out 0 v).0 n ≡ some (varint_size v, v)
unfolding varint_write varint_read varint_size
varint_read-write_zero [] v n hv hl hn = ground arith
varint_read-write_zero (x ∷ out) v n hv hl hn = ground (
  arith,
  read_u16_le-suc 0xfd (write_u16_le out 0 (v % 2 ^ 16)) 0,
  read_u32_le-suc 0xfe (write_u32_le out 0 (v % 2 ^ 32)) 0,
  read_u64_le-suc 0xff (write_u64_le out 0 v) 0,
  write_u16_le-suc 0xfd out 0 (v % 2 ^ 16),
  write_u32_le-suc 0xfe out 0 (v % 2 ^ 32),
  write_u64_le-suc 0xff out 0 v,
  read_u16_le-write_u16_le out 0 (v % 2 ^ 16),
  read_u32_le-write_u32_le out 0 (v % 2 ^ 32),
  read_u64_le-write_u64_le out 0 v,
)

varint_write-suc :
    (x : ℕ) (out : List ℕ) (o v : ℕ)
    → (varint_write (x ∷ out) (suc o) v).0 ≡ x ∷ (varint_write out o v).0
unfolding varint_write
varint_write-suc x out o v = ground (
  arith,
  suc-add o 1,
  write_u16_le-suc x (set out o 0xfd) (o + 1) (v % 2 ^ 16),
  write_u32_le-suc x (set out o 0xfe) (o + 1) (v % 2 ^ 32),
  write_u64_le-suc x (set out o 0xff) (o + 1) v,
)

-- A varint written at any position of an array that has room is read back from there with its size,
-- whatever number of bytes from that size on is offered to the reader.
pub varint_read-varint_write :
    (out : List ℕ) (o v n : ℕ)
    → IsU64 v
    → o + varint_size v ≤ length out
    → varint_size v ≤ n
    → varint_read (drop o (varint_write out o v).0) n ≡ some (varint_size v, v)
varint_read-varint_write out zero v n hv hl hn = varint_read-write_zero out v n hv (omega arith) hn
varint_read-varint_write [] (suc o) v n hv hl hn = absurd (omega arith)
varint_read-varint_write (x ∷ out) (suc o) v n hv hl hn =
    rw varint_write-suc (varint_read-varint_write out o v n hv (omega arith) hn)

-- What a successful read of an array that holds the bytes offered reports: a length of no more than
-- the bytes offered, at least that of the shortest form of the value, and a value of 64 bits.
pub varint_read_bounds :
    (input : List ℕ) (n len v : ℕ)
    → All IsByte input
    → n ≤ length input
    → varint_read input n ≡ some (len, v)
    → (len ≤ n) × IsU64 v × (varint_size v ≤ len)
unfolding varint_read varint_size
varint_read_bounds [] n len v hb hn e = ground arith
varint_read_bounds (x ∷ input) n len v hb hn e = ground (
  arith,
  read_u16_le-suc x input 0,
  read_u32_le-suc x input 0,
  read_u64_le-suc x input 0,
  read_u16_le-lt input hb.1,
  read_u32_le-lt input hb.1,
  read_u64_le-lt input hb.1,
)
