-- ===== src/Base58.antt =====
-- `base58_decode` of src/common/base58.c. A character is its code.
pub mod Ends
mod Tests
use ledger_babylon_app.Common.{
  ℕ, zero, suc, ◌+◌, ◌-◌, ◌*◌, ◌/◌, ◌%◌, ◌≡◌, ◌<◌, ◌≤◌, arith, refl, List, [], ◌∷◌, ◌++◌, Bool,
  true, false, Option, none, some, if◌then◌else◌, leb, ltb, ◌==◌, ◌||◌, length, replicate, get_or,
  All,
}

abbrev pub base58_table : List ℕ
base58_table =
    0xff ∷ 0xff ∷ 0xff ∷ 0xff ∷ 0xff ∷ 0xff ∷ 0xff ∷ 0xff ∷ 0xff ∷ 0xff ∷ 0xff ∷ 0xff ∷ 0xff ∷ 0xff
    ∷ 0xff ∷ 0xff ∷ 0xff ∷ 0xff ∷ 0xff ∷ 0xff ∷ 0xff ∷ 0xff ∷ 0xff ∷ 0xff ∷ 0xff ∷ 0xff ∷ 0xff
    ∷ 0xff ∷ 0xff ∷ 0xff ∷ 0xff ∷ 0xff ∷ 0xff ∷ 0xff ∷ 0xff ∷ 0xff ∷ 0xff ∷ 0xff ∷ 0xff ∷ 0xff
    ∷ 0xff ∷ 0xff ∷ 0xff ∷ 0xff ∷ 0xff ∷ 0xff ∷ 0xff ∷ 0xff ∷ 0xff ∷ 0x00 ∷ 0x01 ∷ 0x02 ∷ 0x03
    ∷ 0x04 ∷ 0x05 ∷ 0x06 ∷ 0x07 ∷ 0x08 ∷ 0xff ∷ 0xff ∷ 0xff ∷ 0xff ∷ 0xff ∷ 0xff ∷ 0xff ∷ 0x09
    ∷ 0x0a ∷ 0x0b ∷ 0x0c ∷ 0x0d ∷ 0x0e ∷ 0x0f ∷ 0x10 ∷ 0xff ∷ 0x11 ∷ 0x12 ∷ 0x13 ∷ 0x14 ∷ 0x15
    ∷ 0xff ∷ 0x16 ∷ 0x17 ∷ 0x18 ∷ 0x19 ∷ 0x1a ∷ 0x1b ∷ 0x1c ∷ 0x1d ∷ 0x1e ∷ 0x1f ∷ 0x20 ∷ 0xff
    ∷ 0xff ∷ 0xff ∷ 0xff ∷ 0xff ∷ 0xff ∷ 0x21 ∷ 0x22 ∷ 0x23 ∷ 0x24 ∷ 0x25 ∷ 0x26 ∷ 0x27 ∷ 0x28
    ∷ 0x29 ∷ 0x2a ∷ 0x2b ∷ 0xff ∷ 0x2c ∷ 0x2d ∷ 0x2e ∷ 0x2f ∷ 0x30 ∷ 0x31 ∷ 0x32 ∷ 0x33 ∷ 0x34
    ∷ 0x35 ∷ 0x36 ∷ 0x37 ∷ 0x38 ∷ 0x39 ∷ 0xff ∷ 0xff ∷ 0xff ∷ 0xff ∷ 0xff ∷ []

abbrev pub max_dec_input_size : ℕ
max_dec_input_size = 164

-- The digits of the characters; `none` if one of them is no digit.
unfoldable pub base58_digits : List ℕ → Option (List ℕ)
base58_digits [] = some []
base58_digits (c ∷ text) =
    let digit = get_or base58_table c 0xff in
    let rest = base58_digits text in
    if leb (length base58_table) c || digit == 0xff
    then none
    else elim rest [ none ↦ none | some digits ↦ some (digit ∷ digits) ]

-- The leading zeros are counted and left behind.
unfoldable pub leading_zeros : List ℕ → ℕ
leading_zeros [] = 0
leading_zeros (d ∷ digits) = let n = leading_zeros digits in if d == 0 then suc n else 0

unfoldable pub without_zeros : List ℕ → List ℕ
without_zeros [] = []
without_zeros (d ∷ digits) = let rest = without_zeros digits in if d == 0 then rest else d ∷ digits

-- A division of the number by 256: the quotient's digits, and the remainder.
unfoldable pub divide : ℕ → List ℕ → List ℕ × ℕ
divide remainder [] = ([], remainder)
divide remainder (digit256 ∷ digits) =
    let tmp_div = (remainder * 58 + digit256) % 65536 in
    let (quotient, last) = divide (tmp_div % 256) digits in (tmp_div / 256 % 256 ∷ quotient, last)

-- `start_at` moves past a digit that has become 0.
unfoldable pub advance : List ℕ → List ℕ
advance [] = []
advance (d ∷ digits) = if d == 0 then digits else d ∷ digits

-- `while (start_at < in_len)` on fuel: `out` is the buffer from `j` on.
unfoldable pub base58_loop : ℕ → List ℕ → List ℕ → Option (List ℕ)
unfolding divide advance
base58_loop zero digits out = none
base58_loop (suc fuel) [] out = some out
base58_loop (suc fuel) (d ∷ digits) out =
    let (quotient, remainder) = divide 0 (d ∷ digits) in
    base58_loop fuel (advance quotient) (remainder ∷ out)

-- `none` is -1; the length is that of the result.
unfoldable pub base58_decode : List ℕ → ℕ → Option (List ℕ)
unfolding base58_digits leading_zeros without_zeros base58_loop
base58_decode text out_len =
    if ltb max_dec_input_size (length text) || ltb (length text) 2
    then none
    else elim (base58_digits text) [
      | none ↦ none
      | some digits ↦
          let zero_count = leading_zeros digits in
          elim (base58_loop (suc (length digits)) (without_zeros digits) []) [
            | none ↦ none
            | some bytes ↦
                let out = replicate zero_count 0 ++ without_zeros bytes in
                if ltb out_len (length out) then none else some out
          ]
    ]
