-- ===== src/Buffer/Lengths.antt =====
-- No write changes the number of bytes in an array.
use ledger_babylon_app.Common.{
  ℕ, ◌+◌, ◌≤◌, ◌≡◌, arith, List, ◌++◌, length, take, drop, length-append, length-take, length-drop,
  length-set,
}
use ledger_babylon_app.Buffer.{memmove_at}
use ledger_babylon_app.Bytes.{
  write_u16_be, write_u32_be, write_u64_be, write_u16_le, write_u32_le, write_u64_le,
}

pub length-write_u16_be : (p : List ℕ) (o v : ℕ) → length (write_u16_be p o v) ≡ length p
unfolding write_u16_be
length-write_u16_be p o v = simp length-set

pub length-write_u32_be : (p : List ℕ) (o v : ℕ) → length (write_u32_be p o v) ≡ length p
unfolding write_u32_be
length-write_u32_be p o v = simp length-set

pub length-write_u64_be : (p : List ℕ) (o v : ℕ) → length (write_u64_be p o v) ≡ length p
unfolding write_u64_be
length-write_u64_be p o v = simp length-set

pub length-write_u16_le : (p : List ℕ) (o v : ℕ) → length (write_u16_le p o v) ≡ length p
unfolding write_u16_le
length-write_u16_le p o v = simp length-set

pub length-write_u32_le : (p : List ℕ) (o v : ℕ) → length (write_u32_le p o v) ≡ length p
unfolding write_u32_le
length-write_u32_le p o v = simp length-set

pub length-write_u64_le : (p : List ℕ) (o v : ℕ) → length (write_u64_le p o v) ≡ length p
unfolding write_u64_le
length-write_u64_le p o v = simp length-set

pub length-memmove_at :
    (p : List ℕ) (o : ℕ) (bs : List ℕ)
    → o + length bs ≤ length p
    → length (memmove_at p o bs) ≡ length p
length-memmove_at p o bs h = omega (
  arith,
  length-append (take o p) (bs ++ drop (o + length bs) p),
  length-append bs (drop (o + length bs) p),
  length-take o p,
  length-drop (o + length bs) p,
)
