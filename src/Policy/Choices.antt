-- ===== src/Policy/Choices.antt =====
-- The timelock flags that the loop of src/common/wallet.c over the scripts of a `thresh` computes.
use ledger_babylon_app.Common.{
  ℕ, zero, suc, ◌≡◌, arith, refl, sym, ap, ◌∙◌, subst, List, [], ◌∷◌, All, some, leb, le→leb, inl,
  inr, ◌⊎◌, true, false, not, ◌&&◌, ◌||◌, Bool,
}
use ledger_babylon_app.Policy.{ScriptList, script_end, script_next}
use ledger_babylon_app.Policy.Costs.{ExtInfo}
use ledger_babylon_app.Policy.Joints.{crossed}
use ledger_babylon_app.Policy.Wrappers.{
  info_thresh, thresh_loop, thresh_turn, ThreshLoop, no_children, thresh_flags,
}
use ledger_babylon_app.Policy.Solutions.{
  Solution, Locks, no_locks, union, both, join, item, item_zero, item_signature, choose,
  list_length, satisfy, dissatisfy, placed,
}
use ledger_babylon_app.Policy.Rules.{Each, Judgement}
use ledger_babylon_app.Policy.Alls.{All-append, All-weaken, All-spread}
use ledger_babylon_app.Policy.Parts.{info_thresh-parts}
use ledger_babylon_app.Policy.Locked.{
  Locked, Above, AllLocked, AllFree, IsFree, or_left, or_right, Locked-union, Locked-Above,
  union_assoc, union-no_locks, AllFree-both, not_crossed,
}

abbrev pub Timed : Judgement
Timed x S D = AllLocked x S × AllFree D

pub false-true : false ≡ true → ⊥
false-true h = cc

same : (x : ExtInfo) → Above x x
same x = (λ e. e, λ e. e, λ e. e, λ e. e)

pub and_both : (a b : Bool) → (a && b) ≡ true → (a ≡ true) × (b ≡ true)
and_both a b h = ground arith

flip : (a b c : Bool) → (a && (b || c)) ≡ false → (b && a) ≡ false
flip a b c h = ground arith

and_false : (a b : Bool) → a ≡ true → (a && b) ≡ false → b ≡ false
and_false a b p h = ground arith

turn_flag : (a b c : Bool) → (a && b && not c) ≡ true → (a ≡ true) × (b ≡ true) × (c ≡ false)
turn_flag a b c h = ground arith

none_crossed :
    (a b c d : Bool) → a ≡ false → b ≡ false → c ≡ false → d ≡ false → (a || b || c || d) ≡ false
none_crossed a b c d p q r s = ground arith

module _ (threshold : ℕ) where
  -- What the flags of a turn say of the children before it and of its own.
  turn-Above : (t : ExtInfo) (l : ThreshLoop) → Above (thresh_turn threshold t l).out l.out
  unfolding thresh_turn
  turn-Above t l =
      (or_left l.out.g t.g, or_left l.out.h t.h, or_left l.out.i t.i, or_left l.out.j t.j)

  turn_child : (t : ExtInfo) (l : ThreshLoop) → Above (thresh_turn threshold t l).out t
  unfolding thresh_turn
  turn_child t l =
      (or_right l.out.g t.g, or_right l.out.h t.h, or_right l.out.i t.i, or_right l.out.j t.j)

  turn_k :
      (t : ExtInfo) (l : ThreshLoop)
      → (thresh_turn threshold t l).out.k ≡ true
      → (l.out.k ≡ true) × (t.k ≡ true)
  unfolding thresh_turn
  turn_k t l h = let (a, b, c) = turn_flag l.out.k t.k _ h in (a, b)

  turn_uncrossed :
      (t : ExtInfo) (l : ThreshLoop)
      → leb 2 threshold ≡ true
      → (thresh_turn threshold t l).out.k ≡ true
      → crossed l.out t ≡ false
  unfolding thresh_turn
  turn_uncrossed t l two h =
      let (a, b, c) = turn_flag l.out.k t.k _ h in
      let m = and_false (leb 2 threshold) _ two c in
      let (gh, hg, ij, ji) =
        not_crossed (t.g && (l.out.h || t.h)) (t.h && (l.out.g || t.g)) (t.i && (l.out.j || t.j))
          (t.j && (l.out.i || t.i)) m in
      none_crossed _ _ _ _ (flip t.h l.out.g t.g hg) (flip t.g l.out.h t.h gh)
        (flip t.j l.out.i t.i ji) (flip t.i l.out.j t.j ij)

  -- Where one script at most is to be satisfied, nothing was locked before it.
  abbrev Alone : ℕ → Locks → Type 0
  Alone k p = (leb 2 threshold ≡ true) ⊎ ((k ≡ 0) ⊎ ((k ≡ 1) × (p ≡ no_locks)))

  Alone-next : (k : ℕ) (p q : Locks) → Alone (suc k) p → Alone k q
  Alone-next k p q (inl h) = inl h
  Alone-next k p q (inr (inl h)) = absurd (omega arith)
  Alone-next k p q (inr (inr (h, e))) = inr (inl (omega arith))

  satisfied :
      (t : ExtInfo) (l : ThreshLoop) (k : ℕ) (p q : Locks)
      → Alone (suc k) p
      → Locked l.out p
      → Locked t q
      → Locked (thresh_turn threshold t l).out (union p q)
  satisfied t l k p q (inl two) u v =
      Locked-union l.out t (thresh_turn threshold t l).out p q (turn-Above t l) (turn_child t l)
        (λ h. let (a, b) = turn_k t l h in (a, b, turn_uncrossed t l two h)) u v
  satisfied t l k p q (inr (inl h)) u v = absurd (omega arith)
  satisfied t l k p q (inr (inr (h, e))) u v =
      subst (λ a. Locked (thresh_turn threshold t l).out (union a q)) (sym e)
        (Locked-Above t (thresh_turn threshold t l).out q (turn_child t l) (λ h. (turn_k t l h).1)
          v)

  -- The solutions of the scripts from here on, after those with locks `p`.
  abbrev After : ExtInfo → Locks → Solution → Type 0
  After out p w = Locked out (union p w.locks)

  After-join :
      (out : ExtInfo) (p : Locks) (x : Solution) (ys : List Solution)
      → All (After out (union p x.locks)) ys
      → All (λ y. After out p (join x y)) ys
  After-join out p x ys =
      All-weaken (After out (union p x.locks)) (λ y. After out p (join x y)) ys
        (λ y. subst (Locked out) (union_assoc p x.locks y.locks))

  dissatisfied :
      (t : ExtInfo) (l : ThreshLoop) (p q : Locks)
      → Locked l.out p
      → q ≡ no_locks
      → Locked (thresh_turn threshold t l).out (union p q)
  dissatisfied t l p q u e =
      let out = (thresh_turn threshold t l).out in
      subst (λ a. Locked out (union p a)) (sym e)
        (subst (Locked out) (sym (union-no_locks p))
          (Locked-Above l.out out p (turn-Above t l) (λ h. (turn_k t l h).0) u))

  Alone-same : (k : ℕ) (p q : Locks) → q ≡ no_locks → Alone k p → Alone k (union p q)
  Alone-same k p q e (inl h) = inl h
  Alone-same k p q e (inr (inl h)) = inr (inl h)
  Alone-same k p q e (inr (inr (h, f))) = inr (inr (h, ap (λ a. union a q) f ∙ e))

  choose-Locked :
      (list : ScriptList) (xs : List ExtInfo) (l : ThreshLoop) (k : ℕ) (p : Locks)
      → Each Timed xs list
      → Alone k p
      → Locked l.out p
      → All (After (thresh_loop threshold xs l).out p) (choose k list)
  unfolding choose thresh_loop
  choose-Locked script_end [] l zero p each c h =
      (subst (Locked l.out) (sym (union-no_locks p)) h, tt)
  choose-Locked script_end [] l (suc k) p each c h = tt
  choose-Locked script_end (x ∷ xs) l k p each c h = absurd each
  choose-Locked (script_next a rest) [] l k p each c h = absurd each
  choose-Locked (script_next a rest) (x ∷ xs) l zero p each c h =
      let out = (thresh_loop threshold (x ∷ xs) l).out in
      All-spread IsFree (After out p) (dissatisfy a) (choose 0 rest)
        (λ d q. After-join out p d (choose 0 rest) (
          choose-Locked rest xs (thresh_turn threshold x l) 0 (union p d.locks) each.1
            (Alone-same 0 p d.locks q c) (dissatisfied x l p d.locks h q)))
        each.0.1
  choose-Locked (script_next a rest) (x ∷ xs) l (suc k) p each c h =
      let out = (thresh_loop threshold (x ∷ xs) l).out in
      All-append (After out p) (both (satisfy a) (choose k rest))
        (both (dissatisfy a) (choose (suc k) rest))
        (All-spread (λ w. Locked x w.locks) (After out p) (satisfy a) (choose k rest)
          (λ d q. After-join out p d (choose k rest) (
            choose-Locked rest xs (thresh_turn threshold x l) k (union p d.locks) each.1
              (Alone-next k p (union p d.locks) c) (satisfied x l k p d.locks c h q)))
          each.0.0)
        (All-spread IsFree (After out p) (dissatisfy a) (choose (suc k) rest)
          (λ d q. After-join out p d (choose (suc k) rest) (
            choose-Locked rest xs (thresh_turn threshold x l) (suc k) (union p d.locks) each.1
              (Alone-same (suc k) p d.locks q c) (dissatisfied x l p d.locks h q)))
          each.0.1)

Alone-start : (k : ℕ) → Alone k k no_locks
Alone-start zero = inr (inl refl)
Alone-start (suc zero) = inr (inr (refl, refl))
Alone-start (suc (suc k)) = inl (le→leb 2 (suc (suc k)) (omega arith))

choose-free : (list : ScriptList) (xs : List ExtInfo) → Each Timed xs list → AllFree (choose 0 list)
unfolding choose
choose-free script_end xs each = (refl, tt)
choose-free (script_next a rest) [] each = absurd each
choose-free (script_next a rest) (x ∷ xs) each =
    AllFree-both (dissatisfy a) (choose 0 rest) each.0.1 (choose-free rest xs each.1)

pub thresh_timed :
    (k : ℕ) (list : ScriptList) (infos : List ExtInfo) (info : ExtInfo)
    → Each Timed infos list
    → info_thresh k (list_length list) infos ≡ some info
    → Timed info (choose k list) (choose 0 list)
unfolding thresh_flags
thresh_timed k list infos info each e =
    let (ops, all) = info_thresh-parts k (list_length list) infos info e in
    (
      subst (λ x. AllLocked x (choose k list)) all
          (choose-Locked k list infos no_children k no_locks each (Alone-start k)
            ((λ e. e, λ e. e, λ e. e, λ e. e), λ e. (refl, refl))),
      choose-free list infos each,
    )

pub placed-free : (n k : ℕ) → AllFree (placed n k)
unfolding placed
placed-free zero zero = (refl, tt)
placed-free zero (suc k) = tt
placed-free (suc n) zero = AllFree-both (item item_zero) (placed n 0) (refl, tt) (placed-free n 0)
placed-free (suc n) (suc k) =
    All-append IsFree (both (item item_signature) (placed n k))
      (both (item item_zero) (placed n (suc k)))
      (AllFree-both (item item_signature) (placed n k) (refl, tt) (placed-free n k))
      (AllFree-both (item item_zero) (placed n (suc k)) (refl, tt) (placed-free n (suc k)))
