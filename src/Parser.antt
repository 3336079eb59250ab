-- ===== src/Parser.antt =====
-- src/common/parser.c: reading from two buffers as if they were one, and the parser that runs its
-- steps on them.
pub mod Joined
pub mod Consolidate
pub mod Steps
mod Tests
use ledger_babylon_app.Common.{
  ℕ, zero, suc, ◌+◌, ◌-◌, List, [], ◌∷◌, ◌++◌, Bool, true, false, if◌then◌else◌, leb, ltb, ◌==◌,
  add_size, sub_size, take, drop, replicate, length,
}
use ledger_babylon_app.Bytes.{
  byte_at, read_u16_be, read_u16_le, read_u32_be, read_u32_le, read_u64_le,
}
use ledger_babylon_app.Buffer.{
  Buffer, Endianness, be, le, buffer_can_read, buffer_read_bytes, buffer_get_cur, memmove_at,
}

-- `buffer_t *buffers[2]`
abbrev pub Buffers : Type 0
Buffers = Buffer × Buffer

-- `size - offset`
abbrev pub left_in : Buffer → ℕ
left_in b = sub_size b.size b.offset

unfoldable pub dbuffer_get_length : Buffers → ℕ
dbuffer_get_length bs = add_size (left_in bs.0) (left_in bs.1)

unfoldable pub dbuffer_can_read : Buffers → ℕ → Bool
dbuffer_can_read bs n = leb n (dbuffer_get_length bs)

-- The bytes read, and the buffers.
unfoldable pub dbuffer_read_bytes : Buffers → ℕ → Bool × List ℕ × Buffers
dbuffer_read_bytes (b0, b1) n =
    let n0 = if leb n (left_in b0) then n else left_in b0 in
    let n1 = sub_size n n0 in
    let (done0, out0, c0) = buffer_read_bytes b0 n0 in
    let (done1, out1, c1) = buffer_read_bytes b1 n1 in
    if ltb (add_size (left_in b0) (left_in b1)) n then (false, [], (b0, b1)) else (
      true,
      (if ltb 0 n0 then out0 else []) ++ (if ltb 0 n1 then out1 else []),
      ((if ltb 0 n0 then c0 else b0), (if ltb 0 n1 then c1 else b1)),
    )

unfoldable pub dbuffer_read_u8 : Buffers → Bool × ℕ × Buffers
dbuffer_read_u8 bs = let (done, out, bs') = dbuffer_read_bytes bs 1 in (done, byte_at out 0, bs')

unfoldable pub read_ordered : Endianness → (List ℕ → ℕ → ℕ) → (List ℕ → ℕ → ℕ) → List ℕ → ℕ
read_ordered be big little out = big out 0
read_ordered le big little out = little out 0

unfoldable pub dbuffer_read_u16 : Buffers → Endianness → Bool × ℕ × Buffers
dbuffer_read_u16 bs e =
    let (done, out, bs') = dbuffer_read_bytes bs 2 in
    if dbuffer_can_read bs 2
    then (true, read_ordered e read_u16_be read_u16_le out, bs')
    else (false, 0, bs)

unfoldable pub dbuffer_read_u32 : Buffers → Endianness → Bool × ℕ × Buffers
dbuffer_read_u32 bs e =
    let (done, out, bs') = dbuffer_read_bytes bs 4 in
    if dbuffer_can_read bs 4
    then (true, read_ordered e read_u32_be read_u32_le out, bs')
    else (false, 0, bs)

-- The number of bytes after the prefix.
unfoldable pub varint_rest : ℕ → ℕ
varint_rest first_byte =
    if first_byte == 0xfd
    then 2
    else if first_byte == 0xfe
    then 4
    else if first_byte == 0xff
    then 8
    else 0

unfoldable pub dbuffer_read_varint : Buffers → Bool × ℕ × Buffers
dbuffer_read_varint bs =
    let first_byte =
      if buffer_can_read bs.0 1
      then byte_at bs.0.ptr bs.0.offset
      else byte_at bs.1.ptr bs.1.offset in
    let len = varint_rest first_byte in
    let (done, prefix, bs') = dbuffer_read_u8 bs in
    let (done', bytes, bs'') = dbuffer_read_bytes bs' len in
    if dbuffer_can_read bs 1
    then (if dbuffer_can_read bs (1 + len)
        then (if leb prefix 0xfc
            then (true, prefix, bs')
            else (true, read_u64_le (bytes ++ replicate (8 - len) 0) 0, bs''))
        else (false, 0, bs))
    else (false, 0, bs)

-- The two buffers do not overlap; the array of the first one has `max_size` bytes.
unfoldable pub parser_consolidate_buffers : Buffers → ℕ → Bool × Buffers
parser_consolidate_buffers (b0, b1) max_size =
    let length0 = left_in b0 in
    let length1 = left_in b1 in
    let moved = memmove_at b0.ptr 0 (take length0 (buffer_get_cur b0)) in
    let joined = memmove_at moved length0 (take length1 (buffer_get_cur b1)) in
    if ltb max_size (add_size length0 length1)
    then (false, (b0, b1))
    else (true, (record { ptr = joined; size = add_size length0 length1; offset = 0 }, b1))

-- The result of a step or of the parser: a positive number, 0 or a negative one.
pub data StepResult : Type 0 where
  finished needs_more : StepResult
  failed : ℕ → StepResult

abbrev pub Step : Type 0 → Type 0
Step S = S → Buffers → StepResult × S × Buffers

-- `after` is what follows a step that ends with the given result.
unfoldable pub continue_with :
    {S : Type 0}
    → StepResult × S × Buffers
    → ℕ
    → (S → Buffers → StepResult × ℕ × S × Buffers)
    → StepResult × ℕ × S × Buffers
continue_with (finished, s, bs) cur after = after s bs
continue_with (needs_more, s, bs) cur after = (needs_more, cur, s, bs)
continue_with (failed n, s, bs) cur after = (failed n, cur, s, bs)

-- The loop over the steps from `cur_step` on. `pic_fn` only relocates the function pointers.
unfoldable pub steps_from :
    {S : Type 0} → List (Step S) → ℕ → S → Buffers → StepResult × ℕ × S × Buffers
unfolding continue_with
steps_from [] cur_step s bs = (finished, cur_step, s, bs)
steps_from (f ∷ rest) cur_step s bs =
    continue_with (f s bs) cur_step (λ s' bs'. steps_from rest (cur_step + 1) s' bs')

-- The result, and the parser's context (the step and the state) with the buffers.
unfoldable pub parser_run :
    {S : Type 0} → List (Step S) → ℕ → S → Buffers → StepResult × ℕ × S × Buffers
parser_run parsing_steps cur_step s bs = steps_from (drop cur_step parsing_steps) cur_step s bs
