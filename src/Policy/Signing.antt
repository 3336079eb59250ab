-- ===== src/Policy/Signing.antt =====
-- Solutions that hold a signature, and the count of scripts that ask for one in src/common/wallet.c.
use ledger_babylon_app.Common.{
  ℕ, zero, suc, ◌+◌, ◌<◌, ◌≡◌, arith, refl, List, [], ◌∷◌, ◌++◌, All, inl, inr, ◌⊎◌, true, false,
  ◌&&◌, ◌||◌, Bool, Bool-cases, replicate,
}
use ledger_babylon_app.Policy.{ScriptList, script_end, script_next}
use ledger_babylon_app.Policy.Costs.{ExtInfo}
use ledger_babylon_app.Policy.Wrappers.{bit, thresh_loop, thresh_turn, ThreshLoop}
use ledger_babylon_app.Policy.Solutions.{
  Solution, Item, both, item, item_one, item_zero, item_signature, item_key, item_preimage, choose,
  list_length, has_signature, IsSigned, satisfy, dissatisfy, placed,
}
use ledger_babylon_app.Policy.Rules.{Each, Judgement}
use ledger_babylon_app.Policy.Alls.{All-append, All-both}

abbrev pub AllSigned : List Solution → Type 0
AllSigned xs = All IsSigned xs

abbrev pub Signed : Judgement
Signed x S D = (x.s ≡ true → AllSigned S) × (x.f ≡ true → AllSigned D)

pub and_both : (a b : Bool) → (a && b) ≡ true → (a ≡ true) × (b ≡ true)
and_both a b h = ground arith

pub or_either : (a b : Bool) → (a || b) ≡ true → (a ≡ true) ⊎ (b ≡ true)
or_either a b h = ground arith

signed-append_left : (xs ys : List Item) → has_signature xs ≡ true → has_signature (xs ++ ys) ≡ true
unfolding has_signature
signed-append_left [] ys h = cc
signed-append_left (item_signature ∷ xs) ys h = refl
signed-append_left (item_key ∷ xs) ys h = signed-append_left xs ys h
signed-append_left (item_preimage ∷ xs) ys h = signed-append_left xs ys h
signed-append_left (item_zero ∷ xs) ys h = signed-append_left xs ys h
signed-append_left (item_one ∷ xs) ys h = signed-append_left xs ys h

signed-append_right :
    (xs ys : List Item) → has_signature ys ≡ true → has_signature (xs ++ ys) ≡ true
unfolding has_signature
signed-append_right [] ys h = h
signed-append_right (item_signature ∷ xs) ys h = refl
signed-append_right (item_key ∷ xs) ys h = signed-append_right xs ys h
signed-append_right (item_preimage ∷ xs) ys h = signed-append_right xs ys h
signed-append_right (item_zero ∷ xs) ys h = signed-append_right xs ys h
signed-append_right (item_one ∷ xs) ys h = signed-append_right xs ys h

All-any : (xs : List Solution) → All (λ w. Unit {0}) xs
All-any [] = tt
All-any (x ∷ xs) = (tt, All-any xs)

pub both-left : (xs ys : List Solution) → AllSigned xs → AllSigned (both xs ys)
both-left xs ys p =
    All-both IsSigned (λ w. Unit {0}) IsSigned xs ys
      (λ x y q u. signed-append_left x.items y.items q) p (All-any ys)

pub both-right : (xs ys : List Solution) → AllSigned ys → AllSigned (both xs ys)
both-right xs ys p =
    All-both (λ w. Unit {0}) IsSigned IsSigned xs ys
      (λ x y u q. signed-append_right x.items y.items q) (All-any xs) p

pub append : (xs ys : List Solution) → AllSigned xs → AllSigned ys → AllSigned (xs ++ ys)
append xs ys = All-append IsSigned xs ys

both-either : (xs ys : List Solution) → AllSigned xs ⊎ AllSigned ys → AllSigned (both xs ys)
both-either xs ys (inl p) = both-left xs ys p
both-either xs ys (inr p) = both-right xs ys p

pub placed-signed : (n k : ℕ) → 0 < k → AllSigned (placed n k)
unfolding placed has_signature
placed-signed n zero h = absurd (omega arith)
placed-signed zero (suc k) h = tt
placed-signed (suc n) (suc k) h =
    append (both (item item_signature) (placed n k)) (both (item item_zero) (placed n (suc k)))
      (both-left (item item_signature) (placed n k) (refl, tt))
      (both-right (item item_zero) (placed n (suc k)) (placed-signed n (suc k) h))

pub row-signed :
    (k : ℕ) → 0 < k → has_signature (replicate k item_signature ++ item_zero ∷ []) ≡ true
unfolding has_signature
row-signed zero h = absurd (omega arith)
row-signed (suc k) h = refl

-- The children that have the flag.
abbrev count_signed : List ExtInfo → ℕ
count_signed [] = 0
count_signed (x ∷ xs) = bit x.s + count_signed xs

pub thresh_loop-count :
    (k : ℕ) (xs : List ExtInfo) (l : ThreshLoop)
    → (thresh_loop k xs l).count_s ≡ count_signed xs + l.count_s
unfolding thresh_loop
thresh_loop-count k [] l = omega arith
thresh_loop-count k (x ∷ xs) l = omega (arith, thresh_loop-count k xs (thresh_turn k x l))

pub thresh_loop-f :
    (k : ℕ) (xs : List ExtInfo) (l : ThreshLoop) → (thresh_loop k xs l).out.f ≡ l.out.f
unfolding thresh_loop
thresh_loop-f k [] l = refl
thresh_loop-f k (x ∷ xs) l = thresh_loop-f k xs (thresh_turn k x l)

after_child : (b : Bool) (k n c : ℕ) → suc n < k + (bit b + c) → n < k + c
after_child b k n c h = ground arith

unsigned_child : (b : Bool) (k n c : ℕ) → b ≡ false → suc n < suc k + (bit b + c) → n < k + c
unsigned_child b k n c e h = ground arith

-- Fewer scripts than `k` do without a signature, so that `k` satisfied ones hold one.
pub choose-signed :
    (k : ℕ) (list : ScriptList) (xs : List ExtInfo)
    → Each Signed xs list
    → list_length list < k + count_signed xs
    → AllSigned (choose k list)
unfolding choose list_length
choose-signed zero script_end [] each h = absurd (omega arith)
choose-signed (suc k) script_end [] each h = tt
choose-signed k script_end (x ∷ xs) each h = absurd each
choose-signed k (script_next a rest) [] each h = absurd each
choose-signed zero (script_next a rest) (x ∷ xs) each h =
    both-right (dissatisfy a) (choose 0 rest)
      (choose-signed 0 rest xs each.1 (after_child x.s 0 _ _ h))
choose-signed (suc k) (script_next a rest) (x ∷ xs) each h =
    append (both (satisfy a) (choose k rest)) (both (dissatisfy a) (choose (suc k) rest))
      (both-either (satisfy a) (choose k rest) (elim (Bool-cases x.s) [
        | inl e ↦ inl (each.0.0 e)
        | inr e ↦ inr (choose-signed k rest xs each.1 (unsigned_child x.s k _ _ e h))
      ]))
      (both-right (dissatisfy a) (choose (suc k) rest)
        (choose-signed (suc k) rest xs each.1 (after_child x.s (suc k) _ _ h)))
