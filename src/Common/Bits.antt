-- ===== src/Common/Bits.antt =====
-- Bit operations as arithmetic: the step laws of `bit_or` and `bit_and` at the lowest digit, and the
-- two uses the code makes of them, joining disjoint fields and masking.
use Prim.Native.Nat.{
  ℕ, zero, suc, ◌+◌, ◌-◌, ◌*◌, ◌/◌, ◌%◌, ◌^◌, ◌≤◌, ◌<◌, min, max, bit_and, bit_or,
}
use mathlib.Core.Logic.{◌⊎◌, inl, inr}
use Prim.Native.Nat.{
  differ, bit_xor, bit_xor-bitwise, digits, bitwise, bit_and-bitwise, bit_or-bitwise,
}
use mathlib.Core.Path.{◌≡◌, refl, ap, sym, ◌∙◌}
use native.Mathlib.Nat.{
  le_refl, pow-suc, div-add-mod, mod-eq_of_lt, mul-add-mod_self_left, div-div-eq-div-mul,
}
use native.Mathlib.Decide.{dec_lt}
use native.Mathlib.Omega.{arith}

-- The native operations are defined by fuel, of which one unit per digit is enough: more changes
-- nothing.
module _ (rest : ℕ → ℕ) (digit : ℕ → ℕ → ℕ) where
  one_more :
      (fuel x y : ℕ) → x ≤ fuel → digits rest digit (suc fuel) x y ≡ digits rest digit fuel x y
  one_more zero zero y h = refl
  one_more (suc fuel) zero y h = refl
  one_more zero (suc x) y h = absurd (omega arith)
  one_more (suc fuel) (suc x) y h =
      ap (λ high. high * 2 + digit (suc x % 2) (y % 2))
        (one_more fuel (suc x / 2) (y / 2)
          (let smaller : suc x / 2 ≤ fuel = omega arith in smaller))

  enough : (x y fuel : ℕ) → x ≤ fuel → digits rest digit fuel x y ≡ bitwise rest digit x y
  enough x y zero h = let none : x ≡ 0 = omega arith in rw none refl
  enough x y (suc fuel) h = elim (dec_lt x (suc fuel)) [
    | yes less ↦ one_more fuel x y (omega arith) ∙ enough x y fuel (omega arith)
    | no not_less ↦ ap (λ k. digits rest digit k x y) (let all : suc fuel ≡ x = omega arith in all)
  ]

  lowest_digit :
      (x y : ℕ)
      → 0 < x
      → bitwise rest digit x y ≡ bitwise rest digit (x / 2) (y / 2) * 2 + digit (x % 2) (y % 2)
  lowest_digit zero y h = absurd (omega arith)
  lowest_digit (suc x) y h =
      ap (λ high. high * 2 + digit (suc x % 2) (y % 2)) (enough (suc x / 2) (y / 2) x (omega arith))

pub bit_and_step : (x y : ℕ) → bit_and x y ≡ bit_and (x / 2) (y / 2) * 2 + min (x % 2) (y % 2)
bit_and_step x y = elim (dec_lt 0 x) [
  | yes some_digit ↦ simp bit_and-bitwise (lowest_digit (λ _. 0) min x y some_digit)
  | no empty ↦ let none : x ≡ 0 = omega arith in rw none (simp bit_and-bitwise (omega arith))
]

pub bit_or_step : (x y : ℕ) → bit_or x y ≡ bit_or (x / 2) (y / 2) * 2 + max (x % 2) (y % 2)
bit_or_step x y = elim (dec_lt 0 x) [
  | yes some_digit ↦ simp bit_or-bitwise (lowest_digit (λ high. high) max x y some_digit)
  | no empty ↦ let none : x ≡ 0 = omega arith in rw none (simp bit_or-bitwise (omega arith))
]

bit_or_zero_fuel : (fuel x : ℕ) → x ≤ fuel → bit_or x 0 ≡ x
bit_or_zero_fuel fuel zero h = simp bit_or-bitwise (omega arith)
bit_or_zero_fuel zero (suc x) h = absurd (omega arith)
bit_or_zero_fuel (suc fuel) (suc x) h =
    omega (arith, bit_or_step (suc x) 0, bit_or_zero_fuel fuel (suc x / 2) (omega arith))

-- Joining a field above bit `k` with one below it is a sum.
pub bit_or_shift : (k x y : ℕ) → y < 2 ^ k → bit_or (x * 2 ^ k) y ≡ x * 2 ^ k + y
bit_or_shift zero x zero h = omega (arith, bit_or_zero_fuel (x * 2 ^ 0) (x * 2 ^ 0) (le_refl _))
bit_or_shift zero x (suc y) h = absurd (omega arith)
bit_or_shift (suc k) x y h =
    let e : x * 2 ^ suc k ≡ x * 2 ^ k * 2 = rw pow-suc (omega arith) in
    let half : x * 2 ^ suc k / 2 ≡ x * 2 ^ k = omega arith in
    let low : y / 2 < 2 ^ k = omega (arith, pow-suc 2 k) in
    omega (
      arith,
      bit_or_step (x * 2 ^ suc k) y,
      ap (λ t. bit_or t (y / 2)) half,
      bit_or_shift k x (y / 2) low,
    )

bit_and-zero_fuel : (fuel x : ℕ) → x ≤ fuel → bit_and x 0 ≡ 0
bit_and-zero_fuel fuel zero h = simp bit_and-bitwise (omega arith)
bit_and-zero_fuel zero (suc x) h = absurd (omega arith)
bit_and-zero_fuel (suc fuel) (suc x) h =
    omega (arith, bit_and_step (suc x) 0, bit_and-zero_fuel fuel (suc x / 2) (omega arith))

pub pow_pos : (k : ℕ) → 1 ≤ 2 ^ k
pow_pos zero = omega arith
pow_pos (suc k) = omega (arith, pow_pos k, pow-suc 2 k)

mod_double : (q x : ℕ) → 1 ≤ q → x % (q * 2) ≡ x / 2 % q * 2 + x % 2
mod_double q x h =
    let e : x ≡ q * 2 * (x / 2 / q) + (x / 2 % q * 2 + x % 2) =
      omega (arith, div-add-mod (x / 2) q) in
    let low : x / 2 % q * 2 + x % 2 < q * 2 = omega arith in
    ap (λ t. t % (q * 2)) e ∙ mul-add-mod_self_left _ _ _ ∙ mod-eq_of_lt low

-- Masking with `k` ones.
pub bit_and_mask : (k x : ℕ) → bit_and x (2 ^ k - 1) ≡ x % 2 ^ k
bit_and_mask zero x = omega (arith, bit_and-zero_fuel x x (le_refl _))
bit_and_mask (suc k) x =
    let half : (2 ^ suc k - 1) / 2 ≡ 2 ^ k - 1 = omega (arith, pow_pos k, pow-suc 2 k) in
    omega (
      arith,
      pow-suc 2 k,
      pow_pos k,
      bit_and_step x (2 ^ suc k - 1),
      ap (λ t. bit_and (x / 2) t) half,
      bit_and_mask k (x / 2),
      mod_double (2 ^ k) x (pow_pos k),
      ap (λ t. x % t) (pow-suc 2 k),
    )

-- Testing bit `k`.
pub bit_and_single : (k x : ℕ) → bit_and x (2 ^ k) ≡ x / 2 ^ k % 2 * 2 ^ k
bit_and_single zero x =
    omega (arith, bit_and_step x 1, bit_and-zero_fuel (x / 2) (x / 2) (le_refl _))
bit_and_single (suc k) x =
    let half : 2 ^ suc k / 2 ≡ 2 ^ k = omega (arith, pow-suc 2 k) in
    let even : 2 ^ suc k % 2 ≡ 0 = omega (arith, pow-suc 2 k) in
    let shift : x / 2 ^ suc k ≡ x / 2 / 2 ^ k =
      ap (λ t. x / t) (omega (arith, pow-suc 2 k)) ∙ sym (div-div-eq-div-mul x 2 (2 ^ k)) in
    omega (
      arith,
      bit_and_step x (2 ^ suc k),
      ap (λ t. bit_and (x / 2) t) half,
      bit_and_single k (x / 2),
      ap (λ t. t % 2 * 2 ^ suc k) shift,
      ap (λ t. x / 2 / 2 ^ k % 2 * t) (pow-suc 2 k),
    )

bit_or_zero : (x : ℕ) → bit_or x 0 ≡ x
bit_or_zero x = bit_or_zero_fuel x x (le_refl _)

zero-bit_or : (x : ℕ) → bit_or 0 x ≡ x
zero-bit_or x = simp bit_or-bitwise

bit_or_comm_fuel : (fuel x y : ℕ) → x ≤ fuel → bit_or x y ≡ bit_or y x
bit_or_comm_fuel fuel zero y h = zero-bit_or y ∙ sym (bit_or_zero y)
bit_or_comm_fuel zero (suc x) y h = absurd (omega arith)
bit_or_comm_fuel (suc fuel) (suc x) y h = omega (
  arith,
  bit_or_step (suc x) y,
  bit_or_step y (suc x),
  bit_or_comm_fuel fuel (suc x / 2) (y / 2) (omega arith),
)

pub bit_or_comm : (x y : ℕ) → bit_or x y ≡ bit_or y x
bit_or_comm x y = bit_or_comm_fuel x x y (le_refl _)

differ_lem : (x y : ℕ) → x < 2 → y < 2 → differ x y ≡ (x + y) % 2
differ_lem zero zero ha hb = refl
differ_lem zero (suc zero) ha hb = refl
differ_lem (suc zero) zero ha hb = refl
differ_lem (suc zero) (suc zero) ha hb = refl
differ_lem zero (suc (suc y)) ha hb = absurd (omega arith)
differ_lem (suc zero) (suc (suc y)) ha hb = absurd (omega arith)
differ_lem (suc (suc x)) y ha hb = absurd (omega arith)

pub bit_xor_step : (x y : ℕ) → bit_xor x y ≡ bit_xor (x / 2) (y / 2) * 2 + (x % 2 + y % 2) % 2
bit_xor_step zero y = simp bit_xor-bitwise (omega arith)
bit_xor_step (suc x) y =
    simp bit_xor-bitwise (lowest_digit (λ high. high) differ (suc x) y (omega arith))
    ∙ ap (λ t. bit_xor (suc x / 2) (y / 2) * 2 + t)
        (differ_lem (suc x % 2) (y % 2) (omega arith) (omega arith))

bit_xor_zero_fuel : (fuel x : ℕ) → x ≤ fuel → bit_xor x 0 ≡ x
bit_xor_zero_fuel fuel zero h = simp bit_xor-bitwise (omega arith)
bit_xor_zero_fuel zero (suc x) h = absurd (omega arith)
bit_xor_zero_fuel (suc fuel) (suc x) h =
    omega (arith, bit_xor_step (suc x) 0, bit_xor_zero_fuel fuel (suc x / 2) (omega arith))

-- Flipping bit `k` of a number below `2 ^ (k + 1)`: it is added, or taken away.
pub bit_xor_single :
    (k x : ℕ)
    → x < 2 ^ suc k
    → ((x < 2 ^ k) × (bit_xor x (2 ^ k) ≡ x + 2 ^ k))
      ⊎ ((2 ^ k ≤ x) × (bit_xor x (2 ^ k) ≡ x - 2 ^ k))
bit_xor_single zero zero h = inl (omega arith, refl)
bit_xor_single zero (suc zero) h = inr (omega arith, refl)
bit_xor_single zero (suc (suc x)) h = absurd (omega arith)
bit_xor_single (suc k) x h =
    let half : 2 ^ suc k / 2 ≡ 2 ^ k = omega (arith, pow-suc 2 k) in
    let e = ap (λ t. bit_xor (x / 2) t) half in
    elim (bit_xor_single k (x / 2) (omega (arith, pow-suc 2 k, pow-suc 2 (suc k)))) [
      | inl p ↦ inl (
        omega (arith, p, pow-suc 2 k),
        omega (arith, p, e, bit_xor_step x (2 ^ suc k), pow-suc 2 k),
      )
      | inr p ↦ inr (
        omega (arith, p, pow-suc 2 k),
        omega (arith, p, e, bit_xor_step x (2 ^ suc k), pow-suc 2 k),
      )
    ]

bit_or-ge_fuel : (fuel x y : ℕ) → x ≤ fuel → x ≤ bit_or x y
bit_or-ge_fuel fuel zero y h = omega arith
bit_or-ge_fuel zero (suc x) y h = absurd (omega arith)
bit_or-ge_fuel (suc fuel) (suc x) y h =
    omega (arith, bit_or_step (suc x) y, bit_or-ge_fuel fuel (suc x / 2) (y / 2) (omega arith))

pub bit_or-ge : (x y : ℕ) → (x ≤ bit_or x y) × (y ≤ bit_or x y)
bit_or-ge x y = (
  bit_or-ge_fuel x x y (le_refl _),
  omega (arith, bit_or_comm x y, bit_or-ge_fuel y y x (le_refl _)),
)
