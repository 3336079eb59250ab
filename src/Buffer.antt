-- ===== src/Buffer.antt =====
-- src/common/buffer.c: a cursor over a byte array. `buffer_t` is the array behind `ptr`, the size and
-- the offset of the cursor; `size_t` has 32 bits. An operation returns its result, its out parameter
-- where it has one, and the buffer after it.
pub mod Lengths
pub mod Bounds
pub mod Contents
mod Tests
use ledger_babylon_app.Common.{
  ℕ, ◌+◌, ◌-◌, ◌*◌, ◌%◌, List, [], ◌++◌, Bool, true, false, ◌||◌, Option, none, some, if◌then◌else◌,
  leb, ltb, ◌==◌, add_size, sub_size, take, drop, set, length,
}
use ledger_babylon_app.Bytes.{
  byte_at, read_u16_be, read_u32_be, read_u64_be, read_u16_le, read_u32_le, read_u64_le,
  write_u16_be, write_u32_be, write_u64_be, write_u16_le, write_u32_le, write_u64_le,
}
use ledger_babylon_app.Varint.{varint_read}

pub data Endianness : Type 0 where
  be le : Endianness

pub record Buffer : Type 0 where
  pub ptr : List ℕ
  pub size : ℕ
  pub offset : ℕ

abbrev pub buffer_create : List ℕ → ℕ → Buffer
buffer_create ptr size = record { ptr = ptr; size = size; offset = 0 }

unfoldable pub buffer_can_read : Buffer → ℕ → Bool
buffer_can_read b n = leb n (sub_size b.size b.offset)

unfoldable pub buffer_seek_set : Buffer → ℕ → Bool × Buffer
buffer_seek_set b offset =
    if ltb b.size offset then (false, b) else (true, record b { offset = offset })

unfoldable pub buffer_seek_cur : Buffer → ℕ → Bool × Buffer
buffer_seek_cur b offset =
    if ltb (add_size b.offset offset) b.offset || ltb b.size (add_size b.offset offset)
    then (false, b)
    else (true, record b { offset = add_size b.offset offset })

unfoldable pub buffer_seek_end : Buffer → ℕ → Bool × Buffer
buffer_seek_end b offset =
    if ltb b.size offset then (false, b) else (true, record b { offset = sub_size b.size offset })

-- The bytes from the cursor on: `buffer->ptr + buffer->offset`.
abbrev pub buffer_get_cur : Buffer → List ℕ
buffer_get_cur b = drop b.offset b.ptr

-- A read of `n` bytes by `get`: the value is 0 if they are not there.
read_value : ℕ → (Buffer → ℕ) → Buffer → Bool × ℕ × Buffer
unfolding buffer_can_read buffer_seek_cur
read_value n get b =
    if buffer_can_read b n then (true, get b, (buffer_seek_cur b n).1) else (false, 0, b)

unfoldable pub buffer_read_u8 : Buffer → Bool × ℕ × Buffer
unfolding read_value
buffer_read_u8 = read_value 1 (λ b. byte_at b.ptr b.offset)

-- `none` is `false`, which leaves the out parameter unchanged.
unfoldable pub buffer_peek_n : Buffer → ℕ → Option ℕ
unfolding buffer_can_read
buffer_peek_n b n =
    if buffer_can_read b (add_size n 1) then some (byte_at b.ptr (add_size b.offset n)) else none

unfoldable pub buffer_peek : Buffer → Option ℕ
unfolding buffer_peek_n
buffer_peek b = buffer_peek_n b 0

by_order : Endianness → (List ℕ → ℕ → ℕ) → (List ℕ → ℕ → ℕ) → Buffer → ℕ
by_order be big little b = big b.ptr b.offset
by_order le big little b = little b.ptr b.offset

unfoldable pub buffer_read_u16 : Buffer → Endianness → Bool × ℕ × Buffer
unfolding read_value by_order
buffer_read_u16 b e = read_value 2 (by_order e read_u16_be read_u16_le) b

unfoldable pub buffer_read_u32 : Buffer → Endianness → Bool × ℕ × Buffer
unfolding read_value by_order
buffer_read_u32 b e = read_value 4 (by_order e read_u32_be read_u32_le) b

unfoldable pub buffer_read_u64 : Buffer → Endianness → Bool × ℕ × Buffer
unfolding read_value by_order
buffer_read_u64 b e = read_value 8 (by_order e read_u64_be read_u64_le) b

unfoldable pub buffer_read_varint : Buffer → Bool × ℕ × Buffer
unfolding buffer_seek_cur
buffer_read_varint b = elim (varint_read (buffer_get_cur b) (sub_size b.size b.offset)) [
  | none ↦ (false, 0, b)
  | some r ↦ (true, r.1, (buffer_seek_cur b r.0).1)
]

-- The bytes copied to `out`.
unfoldable pub buffer_read_bytes : Buffer → ℕ → Bool × List ℕ × Buffer
unfolding buffer_seek_cur
buffer_read_bytes b n =
    if ltb (sub_size b.size b.offset) n
    then (false, [], b)
    else (true, take n (buffer_get_cur b), (buffer_seek_cur b n).1)

-- A write of `n` bytes by `put`.
write_value : ℕ → (List ℕ → ℕ → List ℕ) → Buffer → Bool × Buffer
unfolding buffer_can_read buffer_seek_cur
write_value n put b =
    if buffer_can_read b n
    then (true, (buffer_seek_cur (record b { ptr = put b.ptr b.offset }) n).1)
    else (false, b)

unfoldable pub buffer_write_u8 : Buffer → ℕ → Bool × Buffer
unfolding write_value
buffer_write_u8 b value = write_value 1 (λ p o. set p o value) b

either_order : {A : Type 0} → Endianness → A → A → A
either_order be big little = big
either_order le big little = little

unfoldable pub buffer_write_u16 : Buffer → ℕ → Endianness → Bool × Buffer
unfolding write_value either_order
buffer_write_u16 b value e =
    write_value 2 (λ p o. either_order e (write_u16_be p o value) (write_u16_le p o value)) b

unfoldable pub buffer_write_u32 : Buffer → ℕ → Endianness → Bool × Buffer
unfolding write_value either_order
buffer_write_u32 b value e =
    write_value 4 (λ p o. either_order e (write_u32_be p o value) (write_u32_le p o value)) b

unfoldable pub buffer_write_u64 : Buffer → ℕ → Endianness → Bool × Buffer
unfolding write_value either_order
buffer_write_u64 b value e =
    write_value 8 (λ p o. either_order e (write_u64_be p o value) (write_u64_le p o value)) b

-- `memmove(ptr + offset, data, n)` with `data` of `n` bytes.
abbrev pub memmove_at : List ℕ → ℕ → List ℕ → List ℕ
memmove_at p o bytes = take o p ++ (bytes ++ drop (o + length bytes) p)

unfoldable pub buffer_write_bytes : Buffer → List ℕ → Bool × Buffer
unfolding write_value
buffer_write_bytes b bytes = write_value (length bytes) (λ p o. memmove_at p o bytes) b

-- `base` is the address of `ptr`; the block is given by its position in the array.
unfoldable pub padding : ℕ → Buffer → Bool → ℕ
padding base b false = 0
padding base b true = let d = (base + b.offset) % 4 in if d == 0 then 0 else 4 - d

unfoldable pub buffer_alloc : ℕ → Buffer → ℕ → Bool → Option ℕ × Buffer
unfolding padding buffer_can_read buffer_seek_cur
buffer_alloc base b size aligned =
    let p = padding base b aligned in
    if buffer_can_read b (add_size p size)
    then (some (b.offset + p), (buffer_seek_cur b (add_size p size)).1)
    else (none, b)
