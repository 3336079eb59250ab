-- ===== src/Bytes/RoundTrip/Shifts.antt =====
-- A reader or writer at `offset + 1` of a longer array is the one at `offset` of its tail.
use native.Mathlib.Nat.{suc-add}
use ledger_babylon_app.Common.{ℕ, suc, ◌≡◌, List, ◌∷◌}
use ledger_babylon_app.Bytes.{
  read_u16_be, read_u32_be, read_u64_be, read_u16_le, read_u32_le, read_u64_le, write_u16_be,
  write_u32_be, write_u64_be, write_u16_le, write_u32_le, write_u64_le,
}

module _ (x : ℕ) (ptr : List ℕ) (o : ℕ) where
  pub read_u16_be-suc : read_u16_be (x ∷ ptr) (suc o) ≡ read_u16_be ptr o
  unfolding read_u16_be
  read_u16_be-suc = simp suc-add

  pub write_u16_be-suc : (v : ℕ) → write_u16_be (x ∷ ptr) (suc o) v ≡ x ∷ write_u16_be ptr o v
  unfolding write_u16_be
  write_u16_be-suc v = simp suc-add

  pub read_u16_le-suc : read_u16_le (x ∷ ptr) (suc o) ≡ read_u16_le ptr o
  unfolding read_u16_le
  read_u16_le-suc = simp suc-add

  pub write_u16_le-suc : (v : ℕ) → write_u16_le (x ∷ ptr) (suc o) v ≡ x ∷ write_u16_le ptr o v
  unfolding write_u16_le
  write_u16_le-suc v = simp suc-add

  pub read_u32_be-suc : read_u32_be (x ∷ ptr) (suc o) ≡ read_u32_be ptr o
  unfolding read_u32_be
  read_u32_be-suc = simp suc-add

  pub write_u32_be-suc : (v : ℕ) → write_u32_be (x ∷ ptr) (suc o) v ≡ x ∷ write_u32_be ptr o v
  unfolding write_u32_be
  write_u32_be-suc v = simp suc-add

  pub read_u32_le-suc : read_u32_le (x ∷ ptr) (suc o) ≡ read_u32_le ptr o
  unfolding read_u32_le
  read_u32_le-suc = simp suc-add

  pub write_u32_le-suc : (v : ℕ) → write_u32_le (x ∷ ptr) (suc o) v ≡ x ∷ write_u32_le ptr o v
  unfolding write_u32_le
  write_u32_le-suc v = simp suc-add

  pub read_u64_be-suc : read_u64_be (x ∷ ptr) (suc o) ≡ read_u64_be ptr o
  unfolding read_u64_be
  read_u64_be-suc = simp suc-add

  pub write_u64_be-suc : (v : ℕ) → write_u64_be (x ∷ ptr) (suc o) v ≡ x ∷ write_u64_be ptr o v
  unfolding write_u64_be
  write_u64_be-suc v = simp suc-add

  pub read_u64_le-suc : read_u64_le (x ∷ ptr) (suc o) ≡ read_u64_le ptr o
  unfolding read_u64_le
  read_u64_le-suc = simp suc-add

  pub write_u64_le-suc : (v : ℕ) → write_u64_le (x ∷ ptr) (suc o) v ≡ x ∷ write_u64_le ptr o v
  unfolding write_u64_le
  write_u64_le-suc v = simp suc-add
