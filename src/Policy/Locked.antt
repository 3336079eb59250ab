-- ===== src/Policy/Locked.antt =====
-- The timelocks of a solution and the flags of src/common/wallet.c for them.
use ledger_babylon_app.Common.{
  ◌≡◌, arith, refl, sym, ap, ◌∙◌, subst, List, All, true, false, ◌&&◌, ◌||◌, Bool,
}
use ledger_babylon_app.Policy.Costs.{ExtInfo}
use ledger_babylon_app.Policy.Joints.{with_locks, crossed}
use ledger_babylon_app.Policy.Solutions.{Solution, Locks, no_locks, union, both}
use ledger_babylon_app.Policy.Alls.{All-both, All-weaken}

-- No height-based lock beside a time-based one of the same kind.
abbrev pub IsUnmixed : Locks → Type 0
IsUnmixed l = ((l.csv_time && l.csv_height) ≡ false) × ((l.cltv_time && l.cltv_height) ≡ false)

-- The flags name the locks, and with `k` these are not mixed.
abbrev pub Covers : ExtInfo → Locks → Type 0
Covers x l =
    (l.csv_time ≡ true → x.g ≡ true)
    × (l.csv_height ≡ true → x.h ≡ true)
    × (l.cltv_time ≡ true → x.i ≡ true)
    × (l.cltv_height ≡ true → x.j ≡ true)

abbrev pub Locked : ExtInfo → Locks → Type 0
Locked x l = Covers x l × (x.k ≡ true → IsUnmixed l)

abbrev pub Above : ExtInfo → ExtInfo → Type 0
Above y x =
    (x.g ≡ true → y.g ≡ true)
    × (x.h ≡ true → y.h ≡ true)
    × (x.i ≡ true → y.i ≡ true)
    × (x.j ≡ true → y.j ≡ true)

pub or_left : (a b : Bool) → a ≡ true → (a || b) ≡ true
or_left a b h = ground arith

pub or_right : (a b : Bool) → b ≡ true → (a || b) ≡ true
or_right a b h = ground arith

pub Above-left : (x y o : ExtInfo) → Above (with_locks x y o) x
Above-left x y o = (or_left x.g y.g, or_left x.h y.h, or_left x.i y.i, or_left x.j y.j)

pub Above-right : (x y o : ExtInfo) → Above (with_locks x y o) y
Above-right x y o = (or_right x.g y.g, or_right x.h y.h, or_right x.i y.i, or_right x.j y.j)

either : (a b c : Bool) → (a ≡ true → c ≡ true) → (b ≡ true → c ≡ true) → (a || b) ≡ true → c ≡ true
either true b c p q h = p refl
either false b c p q h = q h

axis :
    (a b c d g h g' h' : Bool)
    → (a ≡ true → g ≡ true)
    → (b ≡ true → h ≡ true)
    → (c ≡ true → g' ≡ true)
    → (d ≡ true → h' ≡ true)
    → (a && b) ≡ false
    → (c && d) ≡ false
    → (g && h') ≡ false
    → (h && g') ≡ false
    → ((a || c) && (b || d)) ≡ false
axis a b c d g h g' h' p q r s e f u v = ground arith

pub not_crossed :
    (a b c d : Bool)
    → (a || b || c || d) ≡ false
    → (a ≡ false) × (b ≡ false) × (c ≡ false) × (d ≡ false)
not_crossed a b c d h = ground arith

pub Locked-union :
    (x y out : ExtInfo) (a b : Locks)
    → Above out x
    → Above out y
    → (out.k ≡ true → (x.k ≡ true) × (y.k ≡ true) × (crossed x y ≡ false))
    → Locked x a
    → Locked y b
    → Locked out (union a b)
Locked-union x y out a b up up' h p q = (
  (
    λ e. either a.csv_time b.csv_time out.g (λ u. up.0 (p.0.0 u)) (λ u. up'.0 (q.0.0 u)) e,
    λ e. either a.csv_height b.csv_height out.h (λ u. up.1 (p.0.1 u)) (λ u. up'.1 (q.0.1 u)) e,
    λ e. either a.cltv_time b.cltv_time out.i (λ u. up.2 (p.0.2 u)) (λ u. up'.2 (q.0.2 u)) e,
    λ e. either a.cltv_height b.cltv_height out.j (λ u. up.3 (p.0.3 u)) (λ u. up'.3 (q.0.3 u)) e,
  ),
  λ k.
      let (kx, ky, c) = h k in
      let (gh, hg, ij, ji) = not_crossed (x.g && y.h) (x.h && y.g) (x.i && y.j) (x.j && y.i) c in
      (
        axis a.csv_time a.csv_height b.csv_time b.csv_height x.g x.h y.g y.h p.0.0 p.0.1 q.0.0 q.0.1
            (p.1 kx).0 (q.1 ky).0 gh hg,
        axis a.cltv_time a.cltv_height b.cltv_time b.cltv_height x.i x.j y.i y.j p.0.2 p.0.3 q.0.2
            q.0.3 (p.1 kx).1 (q.1 ky).1 ij ji,
      ),
)

pub Locked-Above :
    (x out : ExtInfo) (a : Locks)
    → Above out x
    → (out.k ≡ true → x.k ≡ true)
    → Locked x a
    → Locked out a
Locked-Above x out a up h p = (
  (λ e. up.0 (p.0.0 e), λ e. up.1 (p.0.1 e), λ e. up.2 (p.0.2 e), λ e. up.3 (p.0.3 e)),
  λ k. p.1 (h k),
)

or_false : (a : Bool) → (a || false) ≡ a
or_false true = refl
or_false false = refl

pub union-no_locks : (a : Locks) → union a no_locks ≡ a
union-no_locks a i = record {
  csv_time = or_false a.csv_time i;
  csv_height = or_false a.csv_height i;
  cltv_time = or_false a.cltv_time i;
  cltv_height = or_false a.cltv_height i;
}

or_assoc : (a b c : Bool) → ((a || b) || c) ≡ (a || (b || c))
or_assoc true b c = refl
or_assoc false b c = refl

pub union_assoc : (a b c : Locks) → union (union a b) c ≡ union a (union b c)
union_assoc a b c i = record {
  csv_time = or_assoc a.csv_time b.csv_time c.csv_time i;
  csv_height = or_assoc a.csv_height b.csv_height c.csv_height i;
  cltv_time = or_assoc a.cltv_time b.cltv_time c.cltv_time i;
  cltv_height = or_assoc a.cltv_height b.cltv_height c.cltv_height i;
}

-- All solutions of a list.
abbrev pub AllLocked : ExtInfo → List Solution → Type 0
AllLocked x xs = All (λ w. Locked x w.locks) xs

abbrev pub IsFree : Solution → Type 0
IsFree w = w.locks ≡ no_locks

abbrev pub AllFree : List Solution → Type 0
AllFree xs = All IsFree xs

pub AllLocked-Above :
    (x out : ExtInfo) (xs : List Solution)
    → Above out x
    → (out.k ≡ true → x.k ≡ true)
    → AllLocked x xs
    → AllLocked out xs
AllLocked-Above x out xs up h =
    All-weaken (λ w. Locked x w.locks) (λ w. Locked out w.locks) xs
      (λ w. Locked-Above x out w.locks up h)

pub AllLocked-both :
    (x y out : ExtInfo) (xs ys : List Solution)
    → Above out x
    → Above out y
    → (out.k ≡ true → (x.k ≡ true) × (y.k ≡ true) × (crossed x y ≡ false))
    → AllLocked x xs
    → AllLocked y ys
    → AllLocked out (both xs ys)
AllLocked-both x y out xs ys up up' h =
    All-both (λ w. Locked x w.locks) (λ w. Locked y w.locks) (λ w. Locked out w.locks) xs ys
      (λ v w. Locked-union x y out v.locks w.locks up up' h)

pub AllLocked-free_left :
    (x : ExtInfo) (xs ys : List Solution) → AllFree xs → AllLocked x ys → AllLocked x (both xs ys)
AllLocked-free_left x xs ys =
    All-both IsFree (λ w. Locked x w.locks) (λ w. Locked x w.locks) xs ys
      (λ v w e p. subst (λ l. Locked x (union l w.locks)) (sym e) p)

pub AllLocked-free_right :
    (x : ExtInfo) (xs ys : List Solution) → AllLocked x xs → AllFree ys → AllLocked x (both xs ys)
AllLocked-free_right x xs ys =
    All-both (λ w. Locked x w.locks) IsFree (λ w. Locked x w.locks) xs ys
      (λ v w p e.
        subst (λ l. Locked x (union v.locks l)) (sym e)
          (subst (Locked x) (sym (union-no_locks v.locks)) p))

pub AllFree-both : (xs ys : List Solution) → AllFree xs → AllFree ys → AllFree (both xs ys)
AllFree-both xs ys =
    All-both IsFree IsFree IsFree xs ys (λ v w e f. ap (λ l. union l w.locks) e ∙ f)
