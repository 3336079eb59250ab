-- ===== src/Parser/Joined.antt =====
-- Two buffers as one queue of bytes.
use ledger_babylon_app.Common.{
  ℕ, zero, suc, ◌+◌, ◌-◌, ◌≤◌, ◌<◌, ◌≡◌, refl, sym, ap, ap₂, ◌∙◌, arith, List, [], ◌∷◌, ◌++◌, Bool,
  true, false, if◌then◌else◌, leb, ltb, size_mod, take, drop, length, length-append, Bool-cases,
  inl, inr, append-nil, leb→le, lt→ltb, ltb-false, take_all, drop_all, add_size, sub_size,
}
use native.Mathlib.Nat.{le_refl}
use ledger_babylon_app.Buffer.{Buffer, buffer_read_bytes}
use ledger_babylon_app.Buffer.Bounds.{IsValid}
use ledger_babylon_app.Buffer.Contents.{contents, length-contents, read_bytes_lem}
use ledger_babylon_app.Parser.{Buffers, left_in, dbuffer_read_bytes}

-- What is left in both, one after the other.
abbrev pub joined : Buffers → List ℕ
joined bs = contents bs.0 ++ contents bs.1

-- Both are valid, and their lengths do not overflow together.
pub record AreValid (bs : Buffers) : Type 0 where
  pub first : IsValid bs.0
  pub second : IsValid bs.1
  pub small : bs.0.size + bs.1.size < size_mod

pub left_in-contents : {b : Buffer} → IsValid b → left_in b ≡ length (contents b)
left_in-contents {b} v = omega (arith, length-contents v)

take-append_le : (n : ℕ) (xs ys : List ℕ) → n ≤ length xs → take n (xs ++ ys) ≡ take n xs
take-append_le zero xs ys h = refl
take-append_le (suc n) [] ys h = absurd (omega arith)
take-append_le (suc n) (x ∷ xs) ys h = ap (λ t. x ∷ t) (take-append_le n xs ys (omega arith))

drop-append_le : (n : ℕ) (xs ys : List ℕ) → n ≤ length xs → drop n (xs ++ ys) ≡ drop n xs ++ ys
drop-append_le zero xs ys h = refl
drop-append_le (suc n) [] ys h = absurd (omega arith)
drop-append_le (suc n) (x ∷ xs) ys h = drop-append_le n xs ys (omega arith)

take-append_ge :
    (n : ℕ) (xs ys : List ℕ) → length xs ≤ n → take n (xs ++ ys) ≡ xs ++ take (n - length xs) ys
take-append_ge n [] ys h = ap (λ k. take k ys) (let e : n ≡ n - 0 = omega arith in e)
take-append_ge zero (x ∷ xs) ys h = absurd (omega arith)
take-append_ge (suc n) (x ∷ xs) ys h =
    let e : n - length xs ≡ suc n - suc (length xs) = omega arith in
    ap (λ t. x ∷ t) (take-append_ge n xs ys (omega arith) ∙ ap (λ k. xs ++ take k ys) e)

drop-append_ge :
    (n : ℕ) (xs ys : List ℕ) → length xs ≤ n → drop n (xs ++ ys) ≡ drop (n - length xs) ys
drop-append_ge n [] ys h = ap (λ k. drop k ys) (let e : n ≡ n - 0 = omega arith in e)
drop-append_ge zero (x ∷ xs) ys h = absurd (omega arith)
drop-append_ge (suc n) (x ∷ xs) ys h =
    let e : n - length xs ≡ suc n - suc (length xs) = omega arith in
    drop-append_ge n xs ys (omega arith) ∙ ap (λ k. drop k ys) e

split_take :
    (n m k : ℕ) (xs ys : List ℕ)
    → m ≡ (if leb n (length xs) then n else length xs)
    → k ≡ n - m
    → take m xs ++ take k ys ≡ take n (xs ++ ys)
split_take n m k xs ys em ek = elim (Bool-cases (leb n (length xs))) [
  | inl le ↦
      let a : m ≡ n = ground arith in
      let b : k ≡ 0 = omega arith in
      rw (a, b) (append-nil (take n xs) ∙ sym (take-append_le n xs ys (leb→le _ _ le)))
  | inr gt ↦
      let a : m ≡ length xs = ground arith in
      let b : k ≡ n - length xs = omega arith in
      let h : length xs ≤ n = ground arith in
      rw (a, b)
        (ap (λ t. t ++ take (n - length xs) ys) (take_all xs (length xs) (le_refl _))
          ∙ sym (take-append_ge n xs ys h))
]

split_drop :
    (n m k : ℕ) (xs ys : List ℕ)
    → m ≡ (if leb n (length xs) then n else length xs)
    → k ≡ n - m
    → drop m xs ++ drop k ys ≡ drop n (xs ++ ys)
split_drop n m k xs ys em ek = elim (Bool-cases (leb n (length xs))) [
  | inl le ↦
      let a : m ≡ n = ground arith in
      let b : k ≡ 0 = omega arith in rw (a, b) (sym (drop-append_le n xs ys (leb→le _ _ le)))
  | inr gt ↦
      let a : m ≡ length xs = ground arith in
      let b : k ≡ n - length xs = omega arith in
      let h : length xs ≤ n = ground arith in
      rw (a, b)
        (ap (λ t. t ++ drop (n - length xs) ys) (drop_all xs (length xs) (le_refl _))
          ∙ sym (drop-append_ge n xs ys h))
]

-- A read of `m` bytes that is skipped for 0.
part :
    {b : Buffer} (m : ℕ)
    → IsValid b
    → m ≤ length (contents b)
    → ((if ltb 0 m then (buffer_read_bytes b m).1 else []) ≡ take m (contents b))
      × (contents (if ltb 0 m then (buffer_read_bytes b m).2 else b) ≡ drop m (contents b))
part zero v h = (refl, refl)
part {b} (suc m) v h =
    let enough : ltb (length (contents b)) (suc m) ≡ false = ground arith in
    let e = rw enough at (read_bytes_lem v (suc m)) in
    let some_bytes : ltb 0 (suc m) ≡ true = lt→ltb 0 (suc m) (omega arith) in
    rw some_bytes (ap (λ p. p.1) e, ap (λ p. p.2) e)

smaller : (n l : ℕ) → ((if leb n l then n else l) ≤ n) × ((if leb n l then n else l) ≤ l)
smaller n l = ground arith

second_part : (n m a b : ℕ) {k : ℕ} → m ≡ (if leb n a then n else a) → k ≡ n - m → n ≤ a + b → k ≤ b
second_part n m a b e f h = ground arith

sub_exact : (n m : ℕ) → m ≤ n → n < size_mod → sub_size n m ≡ n - m
sub_exact n m h k = omega arith

pub total-joined :
    {bs : Buffers} → AreValid bs → add_size (left_in bs.0) (left_in bs.1) ≡ length (joined bs)
total-joined {bs} v = omega (
  arith,
  left_in-contents v.first,
  left_in-contents v.second,
  length-contents v.first,
  length-contents v.second,
  length-append (contents bs.0) (contents bs.1),
  v.small,
)

-- `dbuffer_read_bytes` splits `n` bytes off the front of what is left in both buffers, or fails and
-- changes nothing if there are fewer.
pub dbuffer_read_bytes_lem :
    (bs : Buffers) (n : ℕ)
    → AreValid bs
    → n < size_mod
    → let (done, out, bs') = dbuffer_read_bytes bs n in
      let seen : Bool × List ℕ × List ℕ = (done, out, joined bs') in
      seen ≡ (
        if ltb (length (joined bs)) n
        then (false, [], joined bs)
        else (true, take n (joined bs), drop n (joined bs)))
unfolding dbuffer_read_bytes
dbuffer_read_bytes_lem (b0, b1) n v small =
    let c0 = contents b0 in
    let c1 = contents b1 in
    let l0 : left_in b0 ≡ length c0 = left_in-contents v.first in
    let l1 : left_in b1 ≡ length c1 = left_in-contents v.second in
    let total : add_size (left_in b0) (left_in b1) ≡ length (c0 ++ c1) = total-joined v in
    let n0 = if leb n (left_in b0) then n else left_in b0 in
    let n1 = sub_size n n0 in
    let e0 : n0 ≡ (if leb n (length c0) then n else length c0) =
      ap (λ l. if leb n l then n else l) l0 in
    let e1 : n1 ≡ n - n0 = sub_exact n n0 (smaller n (left_in b0)).0 small in
    elim (Bool-cases (ltb (length (c0 ++ c1)) n)) [
      | inl short ↦ rw (total, short) refl
      | inr enough ↦
          let (out0, rest0) =
            part {b = b0} n0 v.first (omega (arith, (smaller n (left_in b0)).1, l0)) in
          let (out1, rest1) = part {b = b1} n1 v.second (
            second_part n n0 (length c0) (length c1) e0 e1
              (omega (arith, ltb-false _ _ enough, length-append c0 c1))) in
          rw (total, enough)
            (ap₂ (λ a b. (true, a, b))
              (ap₂ (λ a b. a ++ b) out0 out1 ∙ split_take n n0 n1 c0 c1 e0 e1)
              (ap₂ (λ a b. a ++ b) rest0 rest1 ∙ split_drop n n0 n1 c0 c1 e0 e1))
    ]
