-- ===== src/Merkle/Hang.antt =====
-- `ceil_lg` on sizes above 2 ^ 31: `t` doubles to 2 ^ 31 and then wraps to 0, and stays there.
use ledger_babylon_app.Common.{ℕ, zero, suc, ◌+◌, ◌*◌, ◌%◌, ◌^◌, ◌<◌, ◌≡◌, arith, none, refl}
use ledger_babylon_app.Merkle.{ceil_lg_loop}
use ledger_babylon_app.Merkle.Directions.{twice, factor_le}

stuck_at_zero : (fuel n r : ℕ) → 0 < n → ceil_lg_loop fuel n r 0 ≡ none
unfolding ceil_lg_loop
stuck_at_zero zero n r h = refl
stuck_at_zero (suc f) n r h = ground (arith, stuck_at_zero f n ((r + 1) % 256) h)

doubling : (d fuel n r t : ℕ) → 2 ^ 31 < n → t * 2 ^ d ≡ 2 ^ 31 → ceil_lg_loop fuel n r t ≡ none
unfolding ceil_lg_loop
doubling d zero n r t h e = refl
doubling zero (suc f) n r t h e = ground (arith, stuck_at_zero f n ((r + 1) % 256))
doubling (suc d) (suc f) n r t h e = ground (
  arith,
  twice t d,
  factor_le t (suc d),
  factor_le (2 * t) d,
  doubling d f n ((r + 1) % 256) (2 * t) h (omega (arith, twice t d)),
)

-- For every size above 2 ^ 31 the loop of `ceil_lg` never ends, whatever the number of turns.
pub ceil_lg_hangs : (n fuel : ℕ) → 2 ^ 31 < n → ceil_lg_loop fuel n 0 1 ≡ none
ceil_lg_hangs n fuel h = doubling 31 fuel n 0 1 h refl
