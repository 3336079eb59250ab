-- ===== src/Bip32/Reading.antt =====
-- What `bip32_path_read` of src/common/bip32.c accepts, and what it reads.
use ledger_babylon_app.Common.{
  ℕ, zero, suc, ◌+◌, ◌-◌, ◌*◌, ◌≤◌, ◌<◌, ◌≡◌, ◌⊎◌, inl, inr, refl, arith, List, none, some, ltb,
  Bool-cases, ltb→lt, ltb-false, le→ltb, false,
}
use ledger_babylon_app.Bip32.{read_words, bip32_path_read, path_words}

read_words-eq :
    (input : List ℕ) (in_len n offset : ℕ)
    → (n ≡ 0) ⊎ (offset + 4 * (n - 1) ≤ in_len)
    → read_words input in_len n offset ≡ some (path_words input n offset)
unfolding read_words path_words
read_words-eq input in_len zero offset h = refl
read_words-eq input in_len (suc n) offset h =
    let here : ltb in_len offset ≡ false = le→ltb in_len offset (ground arith) in
    let rest = read_words-eq input in_len n (offset + 4) (ground arith) in rw (here, rest) refl

read_words-none :
    (input : List ℕ) (in_len n offset : ℕ)
    → 0 < n
    → in_len < offset + 4 * (n - 1)
    → read_words input in_len n offset ≡ none
unfolding read_words
read_words-none input in_len zero offset p h = absurd (omega arith)
read_words-none input in_len (suc zero) offset p h = ground arith
read_words-none input in_len (suc (suc n)) offset p h =
    let rest = read_words-none input in_len (suc n) (offset + 4) (omega arith) (omega arith) in
    ground arith

-- `bip32_path_read` accepts a path of at most 8 steps of which the last one starts at the latest at
-- the end of the input (so that up to four bytes past the end are read), and then returns the big
-- endian words at 0, 4, 8, ...; it refuses all else.
pub path_read_lem :
    (input : List ℕ) (in_len out_len : ℕ)
    → ((out_len ≤ 8)
        × ((out_len ≡ 0) ⊎ (4 * (out_len - 1) ≤ in_len))
        × (bip32_path_read input in_len out_len ≡ some (path_words input out_len 0)))
      ⊎ (((8 < out_len) ⊎ ((0 < out_len) × (in_len < 4 * (out_len - 1))))
          × (bip32_path_read input in_len out_len ≡ none))
unfolding bip32_path_read
path_read_lem input in_len out_len = elim (Bool-cases (ltb 8 out_len)) [
  | inl long ↦ inr (inl (ltb→lt 8 out_len long), rw long refl)
  | inr short ↦ elim (Bool-cases (ltb in_len (4 * (out_len - 1)))) [
    | inl out ↦
        let before : in_len < 4 * (out_len - 1) = ltb→lt _ _ out in
        inr (
          inr (omega arith, before),
          rw short (read_words-none input in_len out_len 0 (omega arith) (omega arith)),
        )
    | inr inside ↦
        let within : 4 * (out_len - 1) ≤ in_len = ltb-false _ _ inside in
        inl (
          ltb-false 8 out_len short,
          inr within,
          rw short (read_words-eq input in_len out_len 0 (inr (omega arith))),
        )
  ]
]
