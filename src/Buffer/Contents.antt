-- ===== src/Buffer/Contents.antt =====
-- A buffer as the queue of the bytes between its cursor and its end.
use ledger_babylon_app.Common.{
  drop-drop, drop-take, take-take, take-append_add, drop-append, take-append, ap₂, sym, ℕ, ◌+◌, ◌-◌,
  ◌≤◌, ◌≡◌, refl, arith, List, [], ◌++◌, length, Bool, true, false, take, drop, ltb, if◌then◌else◌,
  ap, ◌∙◌, length-take, length-drop,
}
use ledger_babylon_app.Buffer.{memmove_at, Buffer, buffer_read_bytes, buffer_write_bytes}
use ledger_babylon_app.Buffer.Bounds.{IsValid}

-- What is left to read.
abbrev pub contents : Buffer → List ℕ
contents b = take (b.size - b.offset) (drop b.offset b.ptr)

pub length-contents : {b : Buffer} → IsValid b → length (contents b) ≡ b.size - b.offset
length-contents {b} v =
    omega (arith, length-take (b.size - b.offset) (drop b.offset b.ptr), length-drop b.offset b.ptr)

module _ {b : Buffer} (v : IsValid b) (n : ℕ) where
  taken : n ≤ b.size - b.offset → take n (contents b) ≡ take n (drop b.offset b.ptr)
  taken h = take-take n (b.size - b.offset) (drop b.offset b.ptr) h

  advanced :
      n ≤ b.size - b.offset → contents (record b { offset = b.offset + n }) ≡ drop n (contents b)
  advanced h =
      ap₂ take (let e : b.size - (b.offset + n) ≡ b.size - b.offset - n = omega arith in e)
        (sym (drop-drop n b.offset b.ptr))
      ∙ sym (drop-take n (b.size - b.offset) (drop b.offset b.ptr))

  -- `buffer_read_bytes` splits `n` bytes off the front of what is left, or fails and changes nothing
  -- if there are fewer.
  pub read_bytes_lem :
      let (done, out, b') = buffer_read_bytes b n in
      let seen : Bool × List ℕ × List ℕ = (done, out, contents b') in
      seen ≡ (
        if ltb (length (contents b)) n
        then (false, [], contents b)
        else (true, take n (contents b), drop n (contents b)))
  unfolding buffer_read_bytes
  read_bytes_lem = ground (arith, length-contents v, taken, advanced)

pub write_bytes-eq :
    {b : Buffer} (bs : List ℕ)
    → IsValid b
    → b.offset + length bs ≤ b.size
    → buffer_write_bytes b bs
      ≡ (true, record b { ptr = memmove_at b.ptr b.offset bs; offset = b.offset + length bs })
unfolding buffer_write_bytes
write_bytes-eq bs v h = ground arith

-- If the bytes fit between the cursor and the size of a valid buffer, `buffer_write_bytes` succeeds and
-- puts them at the cursor, which moves behind them: seen from the old cursor
-- the buffer holds the bytes and then what followed; what stands before the cursor is unchanged.
pub write_bytes_lem :
    {b : Buffer} (bs : List ℕ)
    → IsValid b
    → b.offset + length bs ≤ b.size
    → let (done, b') = buffer_write_bytes b bs in
      (done ≡ true)
      × (b'.offset ≡ b.offset + length bs)
      × (contents (record b' { offset = b.offset }) ≡ bs ++ drop (length bs) (contents b))
      × (take b.offset b'.ptr ≡ take b.offset b.ptr)
write_bytes_lem {b} bs v h =
    rw (write_bytes-eq bs v h)
      (refl, refl, held, take-append (take b.offset b.ptr) _ b.offset before)
  where
    before : b.offset ≡ length (take b.offset b.ptr)
    before = omega (arith, length-take b.offset b.ptr)

    rest : List ℕ
    rest = drop (b.offset + length bs) b.ptr

    held :
        contents (record b { ptr = memmove_at b.ptr b.offset bs })
        ≡ bs ++ drop (length bs) (contents b)
    held =
        ap (take (b.size - b.offset))
          (drop-append (take b.offset b.ptr) (bs ++ rest) b.offset before)
        ∙ ap (λ k. take k (bs ++ rest))
            (let e : b.size - b.offset ≡ length bs + (b.size - b.offset - length bs) =
                omega arith in
              e)
        ∙ take-append_add bs rest (b.size - b.offset - length bs)
        ∙ ap (λ t. bs ++ t)
            (ap (take (b.size - b.offset - length bs)) (sym (drop-drop (length bs) b.offset b.ptr))
              ∙ sym (drop-take (length bs) (b.size - b.offset) (drop b.offset b.ptr)))
