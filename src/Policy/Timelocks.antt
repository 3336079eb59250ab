-- ===== src/Policy/Timelocks.antt =====
-- The timelock flags of src/common/wallet.c: with `k` no satisfaction mixes time-based and height-based
-- locks.
use ledger_babylon_app.Common.{
  ℕ, ◌≡◌, arith, refl, sym, subst, List, ◌++◌, leb, true, false, not, ◌&&◌, ◌||◌, Bool,
  if◌then◌else◌,
}
use ledger_babylon_app.Policy.{MiniscriptContext}
use ledger_babylon_app.Policy.Costs.{ExtInfo, blank}
use ledger_babylon_app.Policy.Leaves.{
  info_0, info_1, info_pk_k, info_pk_h, info_pk, info_pkh, info_multi, info_multi_a, info_older,
  info_after, info_hash, is_time_sequence, locktime_threshold,
}
use ledger_babylon_app.Policy.Joints.{
  info_andor, info_and_v, info_and_b, info_and_n, info_or_b, info_or_c, info_or_d, info_or_i,
  crossed,
}
use ledger_babylon_app.Policy.Wrappers.{
  info_a, info_s_n, info_c, info_d, info_t, info_v, info_j, info_l_u,
}
use ledger_babylon_app.Policy.Solutions.{
  Solution, Locks, no_locks, both, item, item_one, item_zero, placed, older_lock, after_lock,
}
use ledger_babylon_app.Policy.Rules.{Laws}
use ledger_babylon_app.Policy.Alls.{All-append, All-weaken}
use ledger_babylon_app.Policy.Locked.{
  Locked, Above, AllLocked, AllFree, IsFree, Above-left, Above-right, or_left, or_right,
  AllLocked-Above, AllLocked-both, AllLocked-free_left, AllLocked-free_right, AllFree-both,
}
use ledger_babylon_app.Policy.Choices.{Timed, false-true, and_both, thresh_timed, placed-free}

free-Locked : (x : ExtInfo) (l : Locks) → l ≡ no_locks → Locked x l
free-Locked x l e = subst (Locked x) (sym e) (
    let none : Locked x no_locks = (
      (
        λ h. absurd (false-true h),
        λ h. absurd (false-true h),
        λ h. absurd (false-true h),
        λ h. absurd (false-true h),
      ),
      λ h. (refl, refl),
    ) in
    none)

AllFree-Locked : (x : ExtInfo) (xs : List Solution) → AllFree xs → AllLocked x xs
AllFree-Locked x xs = All-weaken IsFree (λ w. Locked x w.locks) xs (λ w. free-Locked x w.locks)

and_flip : (a b : Bool) → (a && b) ≡ true → (b && a) ≡ true
and_flip a b h = ground arith

both_k : (a b c : Bool) → not (not (a && b) || c) ≡ true → (a ≡ true) × (b ≡ true) × (c ≡ false)
both_k a b c h = ground arith

andor_k :
    (a b d c : Bool)
    → not (not (a && b && d) || c) ≡ true
    → (a ≡ true) × (b ≡ true) × (d ≡ true) × (c ≡ false)
andor_k a b d c h = ground arith

-- Of a script that is satisfied alone.
left_or_right :
    (x y out : ExtInfo) (xs ys : List Solution)
    → Above out x
    → Above out y
    → (out.k ≡ true → (x.k && y.k) ≡ true)
    → AllLocked x xs
    → AllLocked y ys
    → AllLocked out (xs ++ ys)
left_or_right x y out xs ys up up' h p q =
    All-append (λ w. Locked out w.locks) xs ys
      (AllLocked-Above x out xs up (λ k. (and_both x.k y.k (h k)).0) p)
      (AllLocked-Above y out ys up' (λ k. (and_both x.k y.k (h k)).1) q)

Locked-if :
    (b : Bool) (x y : ExtInfo) (l l' : Locks)
    → Locked x l
    → Locked y l'
    → Locked (if b then x else y) (if b then l else l')
Locked-if true x y l l' p q = p
Locked-if false x y l l' p q = q

never : {b : Bool} → false ≡ true → b ≡ true
never e = absurd (false-true e)

older-Locked : (n : ℕ) → Locked (info_older n) (older_lock n)
unfolding info_older
older-Locked n =
    Locked-if (is_time_sequence n) _ _ _ _ ((λ e. refl, never, never, never), λ e. (refl, refl))
      ((never, λ e. refl, never, never), λ e. (refl, refl))

after-Locked : (n : ℕ) → Locked (info_after n) (after_lock n)
unfolding info_after
after-Locked n =
    Locked-if (leb locktime_threshold n) _ _ _ _
      ((never, never, λ e. refl, never), λ e. (refl, refl))
      ((never, never, never, λ e. refl), λ e. (refl, refl))

-- Of three scripts: the first with the second, or the third.
andor_locked :
    (x y z : ExtInfo) (SX DX SY SZ : List Solution)
    → AllLocked x SX
    → AllFree DX
    → AllLocked y SY
    → AllLocked z SZ
    → AllLocked (info_andor x y z) (both SX SY ++ both DX SZ)
unfolding info_andor
andor_locked x y z SX DX SY SZ p d q r =
    let out = info_andor x y z in
    let first : Above out x = (
      λ e. or_left (x.g || y.g) z.g (or_left x.g y.g e),
      λ e. or_left (x.h || y.h) z.h (or_left x.h y.h e),
      λ e. or_left (x.i || y.i) z.i (or_left x.i y.i e),
      λ e. or_left (x.j || y.j) z.j (or_left x.j y.j e),
    ) in
    let second : Above out y = (
      λ e. or_left (x.g || y.g) z.g (or_right x.g y.g e),
      λ e. or_left (x.h || y.h) z.h (or_right x.h y.h e),
      λ e. or_left (x.i || y.i) z.i (or_right x.i y.i e),
      λ e. or_left (x.j || y.j) z.j (or_right x.j y.j e),
    ) in
    let third : Above out z = (
      λ e. or_right (x.g || y.g) z.g e,
      λ e. or_right (x.h || y.h) z.h e,
      λ e. or_right (x.i || y.i) z.i e,
      λ e. or_right (x.j || y.j) z.j e,
    ) in
    All-append (λ w. Locked out w.locks) (both SX SY) (both DX SZ)
      (AllLocked-both x y out SX SY first second
        (λ k. let (a, b, d, c) = andor_k x.k y.k z.k (crossed x y) k in (a, b, c)) p q)
      (AllLocked-Above z out (both DX SZ) third
        (λ k. let (a, b, d, c) = andor_k x.k y.k z.k (crossed x y) k in d)
        (AllLocked-free_left z DX SZ d r))

pub Timed-Laws : (ctx : MiniscriptContext) → Laws ctx Timed
unfolding info_0 info_1 info_pk_k info_pk_h info_pk info_pkh info_multi info_multi_a info_hash
    info_andor info_and_v info_and_b info_and_n info_or_b info_or_c info_or_d info_or_i info_a
    info_s_n info_c info_d info_t info_v info_j info_l_u both
Timed-Laws ctx = record {
  law_0 = (tt, (refl, tt));
  law_1 = ((free-Locked info_1 no_locks refl, tt), tt);
  law_pk_k = ((free-Locked (info_pk_k ctx) no_locks refl, tt), (refl, tt));
  law_pk_h = ((free-Locked info_pk_h no_locks refl, tt), (refl, tt));
  law_pk = ((free-Locked (info_pk ctx) no_locks refl, tt), (refl, tt));
  law_pkh = ((free-Locked info_pkh no_locks refl, tt), (refl, tt));
  law_multi = λ k n h. ((free-Locked (info_multi k n) no_locks refl, tt), (refl, tt));
  law_multi_a =
      λ k n h. (AllFree-Locked (info_multi_a k n) (placed n k) (placed-free n k), placed-free n 0);
  law_older = λ n. ((older-Locked n, tt), tt);
  law_after = λ n. ((after-Locked n, tt), tt);
  law_hash = λ push. ((free-Locked (info_hash push) no_locks refl, tt), tt);
  law_andor = λ x y z SX DX SY DY SZ DZ p q r.
      (andor_locked x y z SX DX SY SZ p.0 p.1 q.0 r.0, AllFree-both DX DZ p.1 r.1);
  law_and_v = λ x y SX DX SY DY p q. (
    AllLocked-both x y (info_and_v x y) SX SY (Above-left x y blank) (Above-right x y blank)
        (both_k x.k y.k (crossed x y)) p.0 q.0,
    tt,
  );
  law_and_b = λ x y SX DX SY DY p q. (
    AllLocked-both x y (info_and_b x y) SX SY (Above-left x y blank) (Above-right x y blank)
        (both_k x.k y.k (crossed x y)) p.0 q.0,
    AllFree-both DX DY p.1 q.1,
  );
  law_and_n = λ x y SX DX SY DY p q. (
    AllLocked-both x y (info_and_n x y) SX SY (Above-left x y blank) (Above-right x y blank)
        (both_k x.k y.k (crossed x y)) p.0 q.0,
    p.1,
  );
  law_or_b = λ x y SX DX SY DY p q. (
    left_or_right y x (info_or_b x y) (both DX SY) (both SX DY) (Above-right x y blank)
        (Above-left x y blank) (λ k. and_flip x.k y.k k) (AllLocked-free_left y DX SY p.1 q.0)
        (AllLocked-free_right x SX DY p.0 q.1),
    AllFree-both DX DY p.1 q.1,
  );
  law_or_c = λ x y SX DX SY DY p q. (
    left_or_right x y (info_or_c x y) SX (both DX SY) (Above-left x y blank) (Above-right x y blank)
        (λ k. k) p.0 (AllLocked-free_left y DX SY p.1 q.0),
    tt,
  );
  law_or_d = λ x y SX DX SY DY p q. (
    left_or_right x y (info_or_d x y) SX (both DX SY) (Above-left x y blank) (Above-right x y blank)
        (λ k. k) p.0 (AllLocked-free_left y DX SY p.1 q.0),
    AllFree-both DX DY p.1 q.1,
  );
  law_or_i = λ x y SX DX SY DY p q. (
    left_or_right x y (info_or_i x y) (both (item item_one) SX) (both (item item_zero) SY)
        (Above-left x y blank) (Above-right x y blank) (λ k. k)
        (AllLocked-free_left x (item item_one) SX (refl, tt) p.0)
        (AllLocked-free_left y (item item_zero) SY (refl, tt) q.0),
    All-append IsFree (both (item item_one) DX) (both (item item_zero) DY)
        (AllFree-both (item item_one) DX (refl, tt) p.1)
        (AllFree-both (item item_zero) DY (refl, tt) q.1),
  );
  law_s_n = λ is_s x S D p. p;
  law_c = λ x S D e p. p;
  law_a = λ x S D p. p;
  law_d = λ x S D p. (AllLocked-free_left x (item item_one) S (refl, tt) p.0, (refl, tt));
  law_t = λ x S D p. (p.0, tt);
  law_v = λ x S D p. (p.0, tt);
  law_j = λ x S D p. (p.0, (refl, tt));
  law_l = λ x S D p. (
    AllLocked-free_left x (item item_zero) S (refl, tt) p.0,
    All-append IsFree (item item_one) (both (item item_zero) D) (refl, tt)
        (AllFree-both (item item_zero) D (refl, tt) p.1),
  );
  law_u = λ x S D p. (
    AllLocked-free_left x (item item_one) S (refl, tt) p.0,
    All-append IsFree (both (item item_one) D) (item item_zero)
        (AllFree-both (item item_one) D (refl, tt) p.1) (refl, tt),
  );
  law_thresh = thresh_timed;
}
