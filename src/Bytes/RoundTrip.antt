-- ===== src/Bytes/RoundTrip.antt =====
-- The readers return what the writers stored, at every position of an array that has room.
mod Joins
mod Shifts
pub use Joins.*
pub use Shifts.*
use ledger_babylon_app.Common.{
  All, IsByte, ℕ, zero, suc, ◌+◌, ◌%◌, ◌^◌, ◌≤◌, ◌≡◌, arith, List, ◌∷◌, length, IsU16, IsU32, IsU64,
  ◌∙◌,
}
use ledger_babylon_app.Bytes.{
  read_u16_be, read_u32_be, read_u64_be, read_u16_le, read_u32_le, read_u64_le, write_u16_be,
  write_u32_be, write_u64_be, write_u16_le, write_u32_le, write_u64_le,
}

pub read_u16_be-write_u16_be :
    (ptr : List ℕ) (o v : ℕ)
    → o + 2 ≤ length ptr
    → IsU16 v
    → read_u16_be (write_u16_be ptr o v) o ≡ v
read_u16_be-write_u16_be (a ∷ b ∷ r) zero v hl hv =
    unfold write_u16_be in read_u16_be_sum _ _ r (omega arith) ∙ omega arith
read_u16_be-write_u16_be (x ∷ ptr) (suc o) v hl hv =
    rw (write_u16_be-suc, read_u16_be-suc) (read_u16_be-write_u16_be ptr o v (omega arith) hv)
read_u16_be-write_u16_be _ o v hl hv = absurd (omega arith)

pub read_u16_le-write_u16_le :
    (ptr : List ℕ) (o v : ℕ)
    → o + 2 ≤ length ptr
    → IsU16 v
    → read_u16_le (write_u16_le ptr o v) o ≡ v
read_u16_le-write_u16_le (a ∷ b ∷ r) zero v hl hv =
    unfold write_u16_le in read_u16_le_sum _ _ r (omega arith) ∙ omega arith
read_u16_le-write_u16_le (x ∷ ptr) (suc o) v hl hv =
    rw (write_u16_le-suc, read_u16_le-suc) (read_u16_le-write_u16_le ptr o v (omega arith) hv)
read_u16_le-write_u16_le _ o v hl hv = absurd (omega arith)

pub read_u32_be-write_u32_be :
    (ptr : List ℕ) (o v : ℕ)
    → o + 4 ≤ length ptr
    → IsU32 v
    → read_u32_be (write_u32_be ptr o v) o ≡ v
read_u32_be-write_u32_be (a ∷ b ∷ c ∷ d ∷ r) zero v hl hv =
    unfold write_u32_be in read_u32_be_sum _ _ _ _ r (omega arith) ∙ omega arith
read_u32_be-write_u32_be (x ∷ ptr) (suc o) v hl hv =
    rw (write_u32_be-suc, read_u32_be-suc) (read_u32_be-write_u32_be ptr o v (omega arith) hv)
read_u32_be-write_u32_be _ o v hl hv = absurd (omega arith)

pub read_u32_le-write_u32_le :
    (ptr : List ℕ) (o v : ℕ)
    → o + 4 ≤ length ptr
    → IsU32 v
    → read_u32_le (write_u32_le ptr o v) o ≡ v
read_u32_le-write_u32_le (a ∷ b ∷ c ∷ d ∷ r) zero v hl hv =
    unfold write_u32_le in read_u32_le_sum _ _ _ _ r (omega arith) ∙ omega arith
read_u32_le-write_u32_le (x ∷ ptr) (suc o) v hl hv =
    rw (write_u32_le-suc, read_u32_le-suc) (read_u32_le-write_u32_le ptr o v (omega arith) hv)
read_u32_le-write_u32_le _ o v hl hv = absurd (omega arith)

pub read_u64_be-write_u64_be :
    (ptr : List ℕ) (o v : ℕ)
    → o + 8 ≤ length ptr
    → IsU64 v
    → read_u64_be (write_u64_be ptr o v) o ≡ v
read_u64_be-write_u64_be (a ∷ b ∷ c ∷ d ∷ e ∷ f ∷ g ∷ h ∷ r) zero v hl hv =
    unfold write_u64_be in read_u64_be_sum _ _ _ _ _ _ _ _ r (omega arith) ∙ omega arith
read_u64_be-write_u64_be (x ∷ ptr) (suc o) v hl hv =
    rw (write_u64_be-suc, read_u64_be-suc) (read_u64_be-write_u64_be ptr o v (omega arith) hv)
read_u64_be-write_u64_be _ o v hl hv = absurd (omega arith)

pub read_u64_le-write_u64_le :
    (ptr : List ℕ) (o v : ℕ)
    → o + 8 ≤ length ptr
    → IsU64 v
    → read_u64_le (write_u64_le ptr o v) o ≡ v
read_u64_le-write_u64_le (a ∷ b ∷ c ∷ d ∷ e ∷ f ∷ g ∷ h ∷ r) zero v hl hv =
    unfold write_u64_le in read_u64_le_sum _ _ _ _ _ _ _ _ r (omega arith) ∙ omega arith
read_u64_le-write_u64_le (x ∷ ptr) (suc o) v hl hv =
    rw (write_u64_le-suc, read_u64_le-suc) (read_u64_le-write_u64_le ptr o v (omega arith) hv)
read_u64_le-write_u64_le _ o v hl hv = absurd (omega arith)

-- In both orders and at all three widths, reading back at the position where an integer was written
-- returns it, if the array holds eight bytes from there on and the integer fits the width.
pub read-write :
    (ptr : List ℕ) (o a b c : ℕ)
    → o + 8 ≤ length ptr
    → IsU16 a
    → IsU32 b
    → IsU64 c
    → (read_u16_be (write_u16_be ptr o a) o ≡ a)
      × (read_u16_le (write_u16_le ptr o a) o ≡ a)
      × (read_u32_be (write_u32_be ptr o b) o ≡ b)
      × (read_u32_le (write_u32_le ptr o b) o ≡ b)
      × (read_u64_be (write_u64_be ptr o c) o ≡ c)
      × (read_u64_le (write_u64_le ptr o c) o ≡ c)
read-write ptr o a b c h ha hb hc = (
  read_u16_be-write_u16_be ptr o a (omega arith) ha,
  read_u16_le-write_u16_le ptr o a (omega arith) ha,
  read_u32_be-write_u32_be ptr o b (omega arith) hb,
  read_u32_le-write_u32_le ptr o b (omega arith) hb,
  read_u64_be-write_u64_be ptr o c h hc,
  read_u64_le-write_u64_le ptr o c h hc,
)

-- What bytes give fits the width.
pub read_u16_le-lt : (p : List ℕ) → All IsByte p → 2 ≤ length p → IsU16 (read_u16_le p 0)
read_u16_le-lt (a ∷ b ∷ r) hb h = rw (read_u16_le_sum a b r (omega arith)) (omega arith)
read_u16_le-lt _ hb h = absurd (omega arith)

pub read_u32_le-lt : (p : List ℕ) → All IsByte p → 4 ≤ length p → IsU32 (read_u32_le p 0)
read_u32_le-lt (a ∷ b ∷ c ∷ d ∷ r) hb h = rw (read_u32_le_sum a b c d r (omega arith)) (omega arith)
read_u32_le-lt _ hb h = absurd (omega arith)

pub read_u64_le-lt : (p : List ℕ) → All IsByte p → 8 ≤ length p → IsU64 (read_u64_le p 0)
read_u64_le-lt (a ∷ b ∷ c ∷ d ∷ e ∷ f ∷ g ∷ h ∷ r) hb hl =
    rw (read_u64_le_sum a b c d e f g h r (omega arith)) (omega arith)
read_u64_le-lt _ hb h = absurd (omega arith)
