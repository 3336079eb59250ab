-- ===== src/Bip32/Standard.antt =====
-- Standard paths.
use ledger_babylon_app.Common.{
  ℕ, zero, suc, ◌+◌, ◌^◌, ◌≤◌, ◌<◌, ◌≡◌, ◌⊎◌, inl, inr, arith, List, [], ◌∷◌, All, IsU32, true,
  Bool-cases, length, get_or, bit_xor, ◌==◌,
}
use ledger_babylon_app.Common.Bits.{bit_xor_single}
use ledger_babylon_app.Bip32.{hardened, coin_type_listed, is_pubkey_path_standard}

-- Some element of the list, hardened, is the coin type.
abbrev pub Listed : ℕ → List ℕ → Type 0
Listed coin [] = ⊥
Listed coin (c ∷ cs) = (coin ≡ c + hardened) ⊎ Listed coin cs

coin_type_listed-Listed :
    (coin : ℕ) (cs : List ℕ)
    → All (λ c. c < hardened) cs
    → coin_type_listed coin cs ≡ true
    → Listed coin cs
unfolding coin_type_listed
coin_type_listed-Listed coin [] a h = cc
coin_type_listed-Listed coin (c ∷ cs) (lt, a) h = elim (Bool-cases (coin == bit_xor c hardened)) [
  | inl e ↦ inl (ground (arith, bit_xor_single 31 c (omega arith)))
  | inr e ↦ inr (coin_type_listed-Listed coin cs a (ground arith))
]

All-get_or : (path : List ℕ) (i : ℕ) → All IsU32 path → get_or path i 0 < 2 ^ 32
All-get_or [] i u = omega arith
All-get_or (x ∷ path) zero u = u.0
All-get_or (x ∷ path) (suc i) u = All-get_or path i u.1

-- What the tests say of a path that passes them.
standard-tests :
    (path : List ℕ) (purpose : ℕ) (coins : List ℕ)
    → is_pubkey_path_standard path purpose coins ≡ true
    → ((length path ≡ 2) ⊎ (length path ≡ 3))
      × (get_or path 0 0 ≡ bit_xor purpose hardened)
      × (hardened ≤ get_or path 1 0)
      × (0 < length coins → coin_type_listed (get_or path 1 0) coins ≡ true)
      × (length path ≡ 3 → bit_xor (get_or path 2 0) hardened ≤ 100)
unfolding is_pubkey_path_standard
standard-tests path purpose coins e =
    (ground arith, ground arith, ground arith, λ h. ground arith, λ h. ground arith)

-- A path that passes has two or three steps: the hardened purpose, a hardened coin type, one of the
-- expected ones if some are, and at most a hardened account number up to 100.
pub standard_path :
    (path : List ℕ) (purpose : ℕ) (coins : List ℕ)
    → All IsU32 path
    → purpose < hardened
    → All (λ c. c < hardened) coins
    → is_pubkey_path_standard path purpose coins ≡ true
    → ((length path ≡ 2) ⊎ (length path ≡ 3))
      × (get_or path 0 0 ≡ purpose + hardened)
      × (hardened ≤ get_or path 1 0)
      × (0 < length coins → Listed (get_or path 1 0) coins)
      × (length path ≡ 3 → (hardened ≤ get_or path 2 0) × (get_or path 2 0 ≤ hardened + 100))
standard_path path purpose coins u hp hc e =
    let (steps, first, second, listed, third) = standard-tests path purpose coins e in
    let account = get_or path 2 0 in
    (
      steps,
      ground (arith, bit_xor_single 31 purpose (omega arith)),
      second,
      λ h. coin_type_listed-Listed (get_or path 1 0) coins hc (listed h),
      λ h. ground (arith, third h, bit_xor_single 31 account (All-get_or path 2 u)),
    )
