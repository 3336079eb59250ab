-- ===== src/Base58/Ends.antt =====
-- The division loop of `base58_decode` ends: every turn takes a digit off.
use ledger_babylon_app.Common.{
  ℕ, zero, suc, ◌+◌, ◌*◌, ◌/◌, ◌%◌, ◌≡◌, ◌<◌, arith, refl, ap, List, [], ◌∷◌, some, length, All,
  ◌==◌, true,
}
use ledger_babylon_app.Base58.{divide, base58_loop}

length-divide : (r : ℕ) (digits : List ℕ) → length (divide r digits).0 ≡ length digits
unfolding divide
length-divide r [] = refl
length-divide r (d ∷ digits) = ap suc (length-divide ((r * 58 + d) % 65536 % 256) digits)

quotient_digit : (r d : ℕ) → r < 256 → d < 58 → (r * 58 + d) % 65536 / 256 % 256 < 58
quotient_digit r d h g = omega arith

divide-small :
    (r : ℕ) (digits : List ℕ)
    → r < 256
    → All (λ d. d < 58) digits
    → All (λ d. d < 58) (divide r digits).0
unfolding divide
divide-small r [] h a = tt
divide-small r (d ∷ digits) h a =
    (quotient_digit r d h a.0, divide-small ((r * 58 + d) % 65536 % 256) digits (omega arith) a.1)

-- With a turn for each digit and one more the loop has a result.
pub base58_loop_ends :
    (fuel : ℕ) (digits out : List ℕ)
    → All (λ d. d < 58) digits
    → length digits < fuel
    → (bytes : List ℕ) × (base58_loop fuel digits out ≡ some bytes)
unfolding base58_loop
base58_loop_ends zero digits out a h = absurd (omega arith)
base58_loop_ends (suc fuel) [] out a h = (out, refl)
base58_loop_ends (suc fuel) (d ∷ digits) out a h =
    let first : ((0 * 58 + d) % 65536 / 256 % 256 == 0) ≡ true = ground (arith, a.0) in
    let r = (0 * 58 + d) % 65536 % 256 in
    let small = divide-small r digits (omega arith) a.1 in
    let fewer : length (divide r digits).0 < fuel = omega (arith, length-divide r digits) in
    rw first (base58_loop_ends fuel (divide r digits).0 ((divide r digits).1 ∷ out) small fewer)
