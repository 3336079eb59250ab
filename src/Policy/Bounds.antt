-- ===== src/Policy/Bounds.antt =====
-- Bounds by the int16_t values that src/common/wallet.c computes: `sumcheck` bounds sums, `maxcheck`
-- bounds either of two numbers.
use ledger_babylon_app.Common.{
  ℕ, zero, suc, ◌+◌, ◌≤◌, ◌<◌, ◌≡◌, arith, refl, sym, ap, ◌∙◌, subst, List, [], ◌∷◌, ◌++◌, length,
  length-append, All, replicate, length-replicate,
}
use ledger_babylon_app.Policy.Costs.{sumcheck, maxcheck, int16_max, u16}
use ledger_babylon_app.Policy.Solutions.{
  Solution, Item, both, item, placed, item_signature, item_zero,
}
use ledger_babylon_app.Policy.Alls.{All-append, All-both, All-weaken}

-- An int16_t that is not -1 and, unless it is saturated, bounds a number.
abbrev pub IsBound : ℕ → ℕ → Type 0
IsBound v n = (v ≤ int16_max) × (v < int16_max → n ≤ v)

pub sumcheck-IsBound : (a b m n : ℕ) → IsBound a m → IsBound b n → IsBound (sumcheck a b) (m + n)
unfolding sumcheck
sumcheck-IsBound a b m n p q = ground (arith, p.0, p.1, q.0, q.1)

pub maxcheck-IsBound_left : (a b n : ℕ) → IsBound a n → IsBound (maxcheck a b) n
unfolding maxcheck
maxcheck-IsBound_left a b n p = ground (arith, p.0, p.1)

pub maxcheck-IsBound_right : (a b n : ℕ) → IsBound b n → IsBound (maxcheck a b) n
unfolding maxcheck
maxcheck-IsBound_right a b n p = ground (arith, p.0, p.1)

pub IsBound-exact : (n : ℕ) → n ≤ int16_max → IsBound (u16 n) n
IsBound-exact n h = ground arith

abbrev pub Fits : ℕ → Solution → Type 0
Fits v w = IsBound v (length w.items)

abbrev pub AllFit : ℕ → List Solution → Type 0
AllFit v xs = All (Fits v) xs

pub AllFit-both :
    (a b : ℕ) (xs ys : List Solution)
    → AllFit a xs
    → AllFit b ys
    → AllFit (sumcheck a b) (both xs ys)
AllFit-both a b xs ys = All-both (Fits a) (Fits b) (Fits (sumcheck a b)) xs ys (λ x y p q.
    subst (IsBound (sumcheck a b)) (sym (length-append x.items y.items))
      (sumcheck-IsBound a b (length x.items) (length y.items) p q))

pub push-IsBound : (a n : ℕ) → IsBound a n → IsBound (sumcheck a 1) (1 + n)
unfolding sumcheck
push-IsBound a n p = ground (arith, p.0, p.1)

pub AllFit-push :
    (a : ℕ) (it : Item) (xs : List Solution)
    → AllFit a xs
    → AllFit (sumcheck a 1) (both (item it) xs)
AllFit-push a it xs p =
    All-both (λ w. length w.items ≡ 1) (Fits a) (Fits (sumcheck a 1)) (item it) xs
      (λ x y e q.
        subst (IsBound (sumcheck a 1))
          (sym (length-append x.items y.items ∙ ap (λ n. n + length y.items) e))
          (push-IsBound a (length y.items) q))
      (refl, tt) p

pub AllFit-left : (a b : ℕ) (xs : List Solution) → AllFit a xs → AllFit (maxcheck a b) xs
AllFit-left a b xs =
    All-weaken (Fits a) (Fits (maxcheck a b)) xs (λ x. maxcheck-IsBound_left a b (length x.items))

pub AllFit-right : (a b : ℕ) (xs : List Solution) → AllFit b xs → AllFit (maxcheck a b) xs
AllFit-right a b xs =
    All-weaken (Fits b) (Fits (maxcheck a b)) xs (λ x. maxcheck-IsBound_right a b (length x.items))

pub AllFit-either :
    (a b : ℕ) (xs ys : List Solution) → AllFit a xs → AllFit b ys → AllFit (maxcheck a b) (xs ++ ys)
AllFit-either a b xs ys p q =
    All-append (Fits (maxcheck a b)) xs ys (AllFit-left a b xs p) (AllFit-right a b ys q)

placed-length : (n k : ℕ) → All (λ w. length w.items ≡ n) (placed n k)
unfolding placed
placed-length zero zero = (refl, tt)
placed-length zero (suc k) = tt
placed-length (suc n) zero =
    All-both (λ w. length w.items ≡ 1) (λ w. length w.items ≡ n) (λ w. length w.items ≡ suc n)
      (item item_zero) (placed n 0) (λ x y p q. omega (arith, length-append x.items y.items, p, q))
      (refl, tt) (placed-length n 0)
placed-length (suc n) (suc k) =
    All-append (λ w. length w.items ≡ suc n) (both (item item_signature) (placed n k))
      (both (item item_zero) (placed n (suc k)))
      (All-both (λ w. length w.items ≡ 1) (λ w. length w.items ≡ n) (λ w. length w.items ≡ suc n)
        (item item_signature) (placed n k)
        (λ x y p q. omega (arith, length-append x.items y.items, p, q)) (refl, tt)
        (placed-length n k))
      (All-both (λ w. length w.items ≡ 1) (λ w. length w.items ≡ n) (λ w. length w.items ≡ suc n)
        (item item_zero) (placed n (suc k))
        (λ x y p q. omega (arith, length-append x.items y.items, p, q)) (refl, tt)
        (placed-length n (suc k)))

pub placed-AllFit : (n k : ℕ) → n ≤ int16_max → AllFit (u16 n) (placed n k)
placed-AllFit n k h =
    All-weaken (λ w. length w.items ≡ n) (Fits (u16 n)) (placed n k)
      (λ w e. subst (IsBound (u16 n)) (sym e) (IsBound-exact n h)) (placed-length n k)

pub row-IsBound :
    (k : ℕ) (it : Item)
    → k < int16_max
    → IsBound (u16 (k + 1)) (length (replicate k it ++ item_zero ∷ []))
row-IsBound k it h =
    subst (IsBound (u16 (k + 1)))
      (sym
        (length-append (replicate k it) (item_zero ∷ []) ∙ ap (λ n. n + 1) (length-replicate k it)))
      (IsBound-exact (k + 1) (omega arith))
