-- ===== src/Client/Map/Order.antt =====
-- The order of byte arrays.
use ledger_babylon_app.Common.{
  ℕ, zero, suc, ◌≡◌, refl, arith, List, [], ◌∷◌, if◌then◌else◌, ltb, length,
}
use ledger_babylon_app.Client.Map.{
  Sign, negative, same, positive, memcmp, compare_lengths, by_prefix, compare_byte_arrays,
}

-- The lexicographic order, where a prefix comes first.
abbrev pub lex : List ℕ → List ℕ → Sign
lex [] [] = same
lex [] (y ∷ ys) = negative
lex (x ∷ xs) [] = positive
lex (x ∷ xs) (y ∷ ys) =
    let rest = lex xs ys in if ltb x y then negative else if ltb y x then positive else rest

by_prefix-lex :
    (n : ℕ) (a b : List ℕ)
    → (n ≡ (if ltb (length a) (length b) then length a else length b))
    → by_prefix (memcmp n a b) (compare_lengths (length a) (length b)) ≡ lex a b
unfolding memcmp by_prefix compare_lengths
by_prefix-lex zero [] [] e = refl
by_prefix-lex zero [] (y ∷ b) e = ground arith
by_prefix-lex zero (x ∷ a) [] e = ground arith
by_prefix-lex zero (x ∷ a) (y ∷ b) e = ground arith
by_prefix-lex (suc n) [] [] e = ground arith
by_prefix-lex (suc n) [] (y ∷ b) e = ground arith
by_prefix-lex (suc n) (x ∷ a) [] e = ground arith
by_prefix-lex (suc n) (x ∷ a) (y ∷ b) e = ground (arith, by_prefix-lex n a b)

-- `compare_byte_arrays` is the lexicographic comparison.
pub compare_byte_arrays_lem : (a b : List ℕ) → compare_byte_arrays a b ≡ lex a b
unfolding compare_byte_arrays memcmp by_prefix
compare_byte_arrays_lem a b =
    ground (arith, by_prefix-lex (if ltb (length a) (length b) then length a else length b) a b)

pub lex_trans : (a b c : List ℕ) → lex a b ≡ negative → lex b c ≡ negative → lex a c ≡ negative
lex_trans a [] [] h k = ground arith
lex_trans a (y ∷ b) [] h k = ground arith
lex_trans [] b (z ∷ c) h k = refl
lex_trans (x ∷ a) [] (z ∷ c) h k = ground arith
lex_trans (x ∷ a) (y ∷ b) (z ∷ c) h k = ground (arith, lex_trans a b c)
