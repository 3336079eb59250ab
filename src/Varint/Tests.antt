-- ===== src/Varint/Tests.antt =====
-- Runs of the varint codec.
use ledger_babylon_app.Common.{
  ℕ, ◌≡◌, ◌≤◌, refl, arith, List, [], ◌∷◌, replicate, drop, some, IsU64,
}
use ledger_babylon_app.Bytes.{read_u16_le}
use ledger_babylon_app.Varint.{varint_size, varint_read, varint_write}
use ledger_babylon_app.Varint.RoundTrip.{varint_read-varint_write, varint_read_bounds}

abbrev room : List ℕ
room = replicate 10 0

size_70000 : varint_size 70000 ≡ 5
unfolding varint_size
size_70000 = refl

varint_read-varint_write_example :
    varint_read (drop 2 (varint_write room 2 70000).0) 6 ≡ some (varint_size 70000, 70000)
varint_read-varint_write_example =
    varint_read-varint_write room 2 70000 6 (omega arith) (omega (arith, size_70000))
      (omega (arith, size_70000))

reads_two : varint_read (0xfd ∷ 2 ∷ 0 ∷ []) 3 ≡ some (3, 2)
unfolding varint_read read_u16_le
reads_two = refl

varint_read_bounds_example : (3 ≤ 3) × IsU64 2 × (varint_size 2 ≤ 3)
varint_read_bounds_example =
    varint_read_bounds (0xfd ∷ 2 ∷ 0 ∷ []) 3 3 2 (omega arith, (omega arith, (omega arith, tt)))
      (omega arith) reads_two
