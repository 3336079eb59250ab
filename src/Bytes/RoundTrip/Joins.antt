-- ===== src/Bytes/RoundTrip/Joins.antt =====
-- Each reader on a concrete front of bytes is the sum of the bytes at their weights.
use ledger_babylon_app.Common.{
  ℕ, ◌+◌, ◌*◌, ◌^◌, ◌<◌, ◌≡◌, arith, List, [], ◌∷◌, IsByte, All, bit_or, ◌∙◌,
}
use ledger_babylon_app.Common.Bits.{bit_or_shift, bit_or_comm}
use ledger_babylon_app.Bytes.{
  read_u16_be, read_u32_be, read_u64_be, read_u16_le, read_u32_le, read_u64_le,
}

-- A new field above those already joined, and one below them.
above : (k a b : ℕ) → b < 2 ^ k → bit_or b (a * 2 ^ k) ≡ b + a * 2 ^ k
above k a b h = bit_or_comm b (a * 2 ^ k) ∙ bit_or_shift k a b h ∙ omega arith

pub read_u16_le_sum :
    (a b : ℕ) (r : List ℕ) → All IsByte (a ∷ b ∷ []) → read_u16_le (a ∷ b ∷ r) 0 ≡ a + b * 2 ^ 8
unfolding read_u16_le
read_u16_le_sum a b r hb = rw (above 8 b (a) (omega arith))

pub read_u32_le_sum :
    (a b c d : ℕ) (r : List ℕ)
    → All IsByte (a ∷ b ∷ c ∷ d ∷ [])
    → read_u32_le (a ∷ b ∷ c ∷ d ∷ r) 0 ≡ a + b * 2 ^ 8 + c * 2 ^ 16 + d * 2 ^ 24
unfolding read_u32_le
read_u32_le_sum a b c d r hb = rw (
  above 8 b (a) (omega arith),
  above 16 c (a + b * 2 ^ 8) (omega arith),
  above 24 d (a + b * 2 ^ 8 + c * 2 ^ 16) (omega arith),
)

pub read_u64_le_sum :
    (a b c d e f g h : ℕ) (r : List ℕ)
    → All IsByte (a ∷ b ∷ c ∷ d ∷ e ∷ f ∷ g ∷ h ∷ [])
    → read_u64_le (a ∷ b ∷ c ∷ d ∷ e ∷ f ∷ g ∷ h ∷ r) 0
      ≡ a + b * 2 ^ 8 + c * 2 ^ 16 + d * 2 ^ 24 + e * 2 ^ 32 + f * 2 ^ 40 + g * 2 ^ 48 + h * 2 ^ 56
unfolding read_u64_le
read_u64_le_sum a b c d e f g h r hb = rw (
  above 8 b (a) (omega arith),
  above 16 c (a + b * 2 ^ 8) (omega arith),
  above 24 d (a + b * 2 ^ 8 + c * 2 ^ 16) (omega arith),
  above 32 e (a + b * 2 ^ 8 + c * 2 ^ 16 + d * 2 ^ 24) (omega arith),
  above 40 f (a + b * 2 ^ 8 + c * 2 ^ 16 + d * 2 ^ 24 + e * 2 ^ 32) (omega arith),
  above 48 g (a + b * 2 ^ 8 + c * 2 ^ 16 + d * 2 ^ 24 + e * 2 ^ 32 + f * 2 ^ 40) (omega arith),
  above 56 h (a + b * 2 ^ 8 + c * 2 ^ 16 + d * 2 ^ 24 + e * 2 ^ 32 + f * 2 ^ 40 + g * 2 ^ 48)
      (omega arith),
)

below : (k q b hi : ℕ) → hi ≡ q * 2 ^ k → b < 2 ^ k → bit_or hi b ≡ hi + b
below k q b hi e h = rw e (bit_or_shift k q b h)

pub read_u16_be_sum :
    (a b : ℕ) (r : List ℕ) → All IsByte (a ∷ b ∷ []) → read_u16_be (a ∷ b ∷ r) 0 ≡ a * 2 ^ 8 + b
unfolding read_u16_be
read_u16_be_sum a b r hb = rw (below 8 (a) (b) (a * 2 ^ 8) (omega arith) (omega arith))

pub read_u32_be_sum :
    (a b c d : ℕ) (r : List ℕ)
    → All IsByte (a ∷ b ∷ c ∷ d ∷ [])
    → read_u32_be (a ∷ b ∷ c ∷ d ∷ r) 0 ≡ a * 2 ^ 24 + b * 2 ^ 16 + c * 2 ^ 8 + d
unfolding read_u32_be
read_u32_be_sum a b c d r hb = rw (
  below 24 (a) (b * 2 ^ 16) (a * 2 ^ 24) (omega arith) (omega arith),
  below 16 (a * 2 ^ 8 + b) (c * 2 ^ 8) (a * 2 ^ 24 + b * 2 ^ 16) (omega arith) (omega arith),
  below 8 (a * 2 ^ 16 + b * 2 ^ 8 + c) (d) (a * 2 ^ 24 + b * 2 ^ 16 + c * 2 ^ 8) (omega arith)
      (omega arith),
)

pub read_u64_be_sum :
    (a b c d e f g h : ℕ) (r : List ℕ)
    → All IsByte (a ∷ b ∷ c ∷ d ∷ e ∷ f ∷ g ∷ h ∷ [])
    → read_u64_be (a ∷ b ∷ c ∷ d ∷ e ∷ f ∷ g ∷ h ∷ r) 0
      ≡ a * 2 ^ 56 + b * 2 ^ 48 + c * 2 ^ 40 + d * 2 ^ 32 + e * 2 ^ 24 + f * 2 ^ 16 + g * 2 ^ 8 + h
unfolding read_u64_be
read_u64_be_sum a b c d e f g h r hb = rw (
  below 56 (a) (b * 2 ^ 48) (a * 2 ^ 56) (omega arith) (omega arith),
  below 48 (a * 2 ^ 8 + b) (c * 2 ^ 40) (a * 2 ^ 56 + b * 2 ^ 48) (omega arith) (omega arith),
  below 40 (a * 2 ^ 16 + b * 2 ^ 8 + c) (d * 2 ^ 32) (a * 2 ^ 56 + b * 2 ^ 48 + c * 2 ^ 40)
      (omega arith) (omega arith),
  below 32 (a * 2 ^ 24 + b * 2 ^ 16 + c * 2 ^ 8 + d) (e * 2 ^ 24)
      (a * 2 ^ 56 + b * 2 ^ 48 + c * 2 ^ 40 + d * 2 ^ 32) (omega arith) (omega arith),
  below 24 (a * 2 ^ 32 + b * 2 ^ 24 + c * 2 ^ 16 + d * 2 ^ 8 + e) (f * 2 ^ 16)
      (a * 2 ^ 56 + b * 2 ^ 48 + c * 2 ^ 40 + d * 2 ^ 32 + e * 2 ^ 24) (omega arith) (omega arith),
  below 16 (a * 2 ^ 40 + b * 2 ^ 32 + c * 2 ^ 24 + d * 2 ^ 16 + e * 2 ^ 8 + f) (g * 2 ^ 8)
      (a * 2 ^ 56 + b * 2 ^ 48 + c * 2 ^ 40 + d * 2 ^ 32 + e * 2 ^ 24 + f * 2 ^ 16) (omega arith)
      (omega arith),
  below 8 (a * 2 ^ 48 + b * 2 ^ 40 + c * 2 ^ 32 + d * 2 ^ 24 + e * 2 ^ 16 + f * 2 ^ 8 + g) (h)
      (a * 2 ^ 56 + b * 2 ^ 48 + c * 2 ^ 40 + d * 2 ^ 32 + e * 2 ^ 24 + f * 2 ^ 16 + g * 2 ^ 8)
      (omega arith) (omega arith),
)
