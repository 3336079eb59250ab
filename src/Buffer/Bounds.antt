-- ===== src/Buffer/Bounds.antt =====
-- The cursor of a buffer stays inside its array.
use ledger_babylon_app.Common.{
  ℕ, ◌+◌, leb, if◌then◌else◌, ◌%◌, ◌≤◌, ◌<◌, ◌≡◌, ◌⊎◌, inl, inr, arith, List, length, Bool, true,
  Bool-cases, some, none, size_mod, drop, length-drop, length-take, length-set,
}
use ledger_babylon_app.Buffer.{
  Buffer, Endianness, buffer_can_read, buffer_seek_set, buffer_seek_cur, buffer_seek_end,
  buffer_read_u8, buffer_read_u16, buffer_read_u32, buffer_read_u64, buffer_read_varint,
  buffer_read_bytes, buffer_write_u8, buffer_write_u16, buffer_write_u32, buffer_write_u64,
  buffer_write_bytes, buffer_alloc, padding,
}
use ledger_babylon_app.Buffer.Lengths.{
  length-write_u16_be, length-write_u32_be, length-write_u64_be, length-write_u16_le,
  length-write_u32_le, length-write_u64_le, length-memmove_at,
}

-- The cursor lies within the size, and the array holds that many bytes.
pub record IsValid (b : Buffer) : Type 0 where
  pub cursor : b.offset ≤ b.size
  pub backed : b.size ≤ length b.ptr
  pub small : b.size < size_mod

-- With a valid cursor the test asks for `n` bytes between the cursor and the end.
pub can_read_lem :
    {b : Buffer} (n : ℕ) → IsValid b → buffer_can_read b n ≡ true → b.offset + n ≤ b.size
unfolding buffer_can_read
can_read_lem n v h = ground arith

pub can_read_iff :
    {b : Buffer} (n : ℕ) → IsValid b → b.offset + n ≤ b.size → buffer_can_read b n ≡ true
unfolding buffer_can_read
can_read_iff n v h = ground arith

-- Every seek keeps the cursor valid.
pub seek-IsValid :
    {b : Buffer} (n : ℕ)
    → IsValid b
    → IsValid (buffer_seek_set b n).1
      × IsValid (buffer_seek_cur b n).1
      × IsValid (buffer_seek_end b n).1
unfolding buffer_seek_set buffer_seek_cur buffer_seek_end
seek-IsValid n v = (ground arith, ground arith, ground arith)

pub read_u8-IsValid : {b : Buffer} → IsValid b → IsValid (buffer_read_u8 b).2
unfolding buffer_read_u8
read_u8-IsValid v = ground arith

pub offset-read_u8 :
    {b : Buffer}
    → IsValid b
    → (buffer_read_u8 b).0 ≡ true
    → (buffer_read_u8 b).2.offset ≡ b.offset + 1
unfolding buffer_read_u8
offset-read_u8 v e = ground arith

pub read_bytes-IsValid : {b : Buffer} (n : ℕ) → IsValid b → IsValid (buffer_read_bytes b n).2
unfolding buffer_read_bytes
read_bytes-IsValid n v = ground arith

pub length-read_bytes :
    {b : Buffer} (n : ℕ)
    → IsValid b
    → (buffer_read_bytes b n).0 ≡ true
    → length (buffer_read_bytes b n).1 ≡ n
unfolding buffer_read_bytes
length-read_bytes {b} n v e =
    ground (arith, length-take n (drop b.offset b.ptr), length-drop b.offset b.ptr)

pub read_varint-IsValid : {b : Buffer} → IsValid b → IsValid (buffer_read_varint b).2
unfolding buffer_read_varint
read_varint-IsValid v = ground arith

-- The buffer after a read of `n` bytes: valid, and the read succeeds exactly if the bytes are there;
-- then the cursor stands behind them, and else the buffer is unchanged.
abbrev pub IsAdvance : Buffer → ℕ → Bool → Buffer → Type 0
IsAdvance b n done b' =
    IsValid b'
    × (done ≡ leb (b.offset + n) b.size)
    × (b' ≡ (if done then record b { offset = b.offset + n } else b))

-- The same of a write, which may also change the bytes of the array, but not how many there are.
abbrev pub IsWritten : Buffer → ℕ → Bool → Buffer → Type 0
IsWritten b n done b' =
    IsValid b'
    × (done ≡ leb (b.offset + n) b.size)
    × (b' ≡ (if done then record b { ptr = b'.ptr; offset = b.offset + n } else b))
    × (length b'.ptr ≡ length b.ptr)

module _ {b : Buffer} (v : IsValid b) where
  read_u8-IsAdvance : let (done, out, b') = buffer_read_u8 b in IsAdvance b 1 done b'
  unfolding buffer_read_u8
  read_u8-IsAdvance = ground arith

  read_u16-IsAdvance :
      (e : Endianness) → let (done, out, b') = buffer_read_u16 b e in IsAdvance b 2 done b'
  unfolding buffer_read_u16
  read_u16-IsAdvance e = ground arith

  read_u32-IsAdvance :
      (e : Endianness) → let (done, out, b') = buffer_read_u32 b e in IsAdvance b 4 done b'
  unfolding buffer_read_u32
  read_u32-IsAdvance e = ground arith

  read_u64-IsAdvance :
      (e : Endianness) → let (done, out, b') = buffer_read_u64 b e in IsAdvance b 8 done b'
  unfolding buffer_read_u64
  read_u64-IsAdvance e = ground arith

  read_bytes-IsAdvance :
      (n : ℕ) → let (done, out, b') = buffer_read_bytes b n in IsAdvance b n done b'
  unfolding buffer_read_bytes
  read_bytes-IsAdvance n = ground arith

  write_u8-IsWritten : (x : ℕ) → let (done, b') = buffer_write_u8 b x in IsWritten b 1 done b'
  unfolding buffer_write_u8
  write_u8-IsWritten x = ground (arith, length-set b.ptr b.offset x)

  write_u16-IsWritten :
      (x : ℕ) (e : Endianness) → let (done, b') = buffer_write_u16 b x e in IsWritten b 2 done b'
  unfolding buffer_write_u16
  write_u16-IsWritten x e =
      ground (arith, length-write_u16_be b.ptr b.offset x, length-write_u16_le b.ptr b.offset x)

  write_u32-IsWritten :
      (x : ℕ) (e : Endianness) → let (done, b') = buffer_write_u32 b x e in IsWritten b 4 done b'
  unfolding buffer_write_u32
  write_u32-IsWritten x e =
      ground (arith, length-write_u32_be b.ptr b.offset x, length-write_u32_le b.ptr b.offset x)

  write_u64-IsWritten :
      (x : ℕ) (e : Endianness) → let (done, b') = buffer_write_u64 b x e in IsWritten b 8 done b'
  unfolding buffer_write_u64
  write_u64-IsWritten x e =
      ground (arith, length-write_u64_be b.ptr b.offset x, length-write_u64_le b.ptr b.offset x)

  write_bytes-IsWritten :
      (bs : List ℕ)
      → length bs < size_mod
      → let (done, b') = buffer_write_bytes b bs in IsWritten b (length bs) done b'
  unfolding buffer_write_bytes
  write_bytes-IsWritten bs h = ground (arith, length-memmove_at b.ptr b.offset bs)

-- Every read and write operation on a valid buffer leaves a valid buffer, with the cursor within the
-- size and the size within the array. Fixed-width ones in both orders, and those of blocks of bytes
-- shorter than 2 ^ 32, succeed exactly if the bytes lie between the cursor and the size; then the
-- cursor moves behind them, and else the buffer is unchanged. No write changes the number of bytes in
-- the array.
pub ops-IsValid :
    {b : Buffer} (e : Endianness) (n x : ℕ) (bs : List ℕ)
    → IsValid b
    → length bs < size_mod
    → (IsAdvance b 1 (buffer_read_u8 b).0 (buffer_read_u8 b).2
        × IsAdvance b 2 (buffer_read_u16 b e).0 (buffer_read_u16 b e).2
        × IsAdvance b 4 (buffer_read_u32 b e).0 (buffer_read_u32 b e).2
        × IsAdvance b 8 (buffer_read_u64 b e).0 (buffer_read_u64 b e).2
        × IsValid (buffer_read_varint b).2
        × IsAdvance b n (buffer_read_bytes b n).0 (buffer_read_bytes b n).2)
      × (IsWritten b 1 (buffer_write_u8 b x).0 (buffer_write_u8 b x).1
          × IsWritten b 2 (buffer_write_u16 b x e).0 (buffer_write_u16 b x e).1
          × IsWritten b 4 (buffer_write_u32 b x e).0 (buffer_write_u32 b x e).1
          × IsWritten b 8 (buffer_write_u64 b x e).0 (buffer_write_u64 b x e).1
          × IsWritten b (length bs) (buffer_write_bytes b bs).0 (buffer_write_bytes b bs).1)
ops-IsValid e n x bs v h = (
  (
    read_u8-IsAdvance v,
    read_u16-IsAdvance v e,
    read_u32-IsAdvance v e,
    read_u64-IsAdvance v e,
    read_varint-IsValid v,
    read_bytes-IsAdvance v n,
  ),
  (
    write_u8-IsWritten v x,
    write_u16-IsWritten v x e,
    write_u32-IsWritten v x e,
    write_u64-IsWritten v x e,
    write_bytes-IsWritten v bs h,
  ),
)

-- A block that `buffer_alloc` hands out, when padding and size together do not wrap, starts at or
-- after the old cursor, ends at the new one, stays within the size, and is aligned to 4 if asked;
-- the buffer is unchanged if there is no room.
pub alloc_block :
    {b : Buffer} (base n : ℕ) (aligned : Bool)
    → IsValid b
    → n + 3 < size_mod
    → ((p : ℕ) × (buffer_alloc base b n aligned ≡ (some p, record b { offset = p + n }))
        × (b.offset ≤ p)
        × (p + n ≤ b.size)
        × (aligned ≡ true → (base + p) % 4 ≡ 0))
      ⊎ ((buffer_alloc base b n aligned ≡ (none, b))
          × (b.size < b.offset + padding base b aligned + n))
unfolding buffer_alloc
alloc_block {b} base n aligned v h =
    elim (Bool-cases (buffer_can_read b (padding base b aligned + n))) [
      | inl e ↦
          inl (
            b.offset + padding base b aligned,
            ground arith,
            omega arith,
            ground arith,
            ground arith,
          )
      | inr e ↦ inr (ground arith, ground arith)
    ]
