-- ===== src/Policy/Alls.antt =====
-- Predicates of all the solutions of a list.
use ledger_babylon_app.Common.{List, [], ◌∷◌, ◌++◌, map, All}
use ledger_babylon_app.Policy.Solutions.{Solution, both, join}

pub All-append :
    (P : Solution → Type 0) (xs ys : List Solution) → All P xs → All P ys → All P (xs ++ ys)
All-append P [] ys p q = q
All-append P (x ∷ xs) ys p q = (p.0, All-append P xs ys p.1 q)

pub All-map :
    (P Q : Solution → Type 0) (f : Solution → Solution) (xs : List Solution)
    → ((x : Solution) → P x → Q (f x))
    → All P xs
    → All Q (map f xs)
All-map P Q f [] h p = tt
All-map P Q f (x ∷ xs) h p = (h x p.0, All-map P Q f xs h p.1)

pub All-weaken :
    (P Q : Solution → Type 0) (xs : List Solution)
    → ((x : Solution) → P x → Q x)
    → All P xs
    → All Q xs
All-weaken P Q [] h p = tt
All-weaken P Q (x ∷ xs) h p = (h x p.0, All-weaken P Q xs h p.1)

pub All-both :
    (P Q R : Solution → Type 0) (xs ys : List Solution)
    → ((x y : Solution) → P x → Q y → R (join x y))
    → All P xs
    → All Q ys
    → All R (both xs ys)
unfolding both
All-both P Q R [] ys h p q = tt
All-both P Q R (x ∷ xs) ys h p q =
    All-append R (map (join x) ys) (both xs ys) (All-map Q R (join x) ys (λ y. h x y p.0) q)
      (All-both P Q R xs ys h p.1 q)

-- The same where what holds of the second solution depends on the first.
pub All-spread :
    (P R : Solution → Type 0) (xs ys : List Solution)
    → ((x : Solution) → P x → All (λ y. R (join x y)) ys)
    → All P xs
    → All R (both xs ys)
unfolding both
All-spread P R [] ys h p = tt
All-spread P R (x ∷ xs) ys h p =
    All-append R (map (join x) ys) (both xs ys)
      (All-map (λ y. R (join x y)) R (join x) ys (λ y q. q) (h x p.0)) (All-spread P R xs ys h p.1)
