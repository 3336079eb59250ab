-- ===== src/Policy/Stack.antt =====
-- The stack sizes that src/common/wallet.c computes for a miniscript bound its solutions.
use ledger_babylon_app.Common.{
  ℕ, ◌≤◌, ◌<◌, ◌≡◌, arith, refl, ap, subst, List, [], ◌∷◌, get_or, some, Bool, leb, true, false,
  if◌then◌else◌,
}
use ledger_babylon_app.Policy.{MiniscriptContext, ScriptList}
use ledger_babylon_app.Policy.Costs.{ExtInfo, sumcheck, maxcheck, thresh_sats, ss_costs, int16_max}
use ledger_babylon_app.Policy.Leaves.{
  info_0, info_1, info_pk_k, info_pk_h, info_pk, info_pkh, info_multi, info_multi_a, info_older,
  info_after, info_hash, is_time_sequence, locktime_threshold,
}
use ledger_babylon_app.Policy.Joints.{
  info_andor, info_and_v, info_and_b, info_and_n, info_or_b, info_or_c, info_or_d, info_or_i,
}
use ledger_babylon_app.Policy.Wrappers.{
  info_a, info_s_n, info_c, info_d, info_t, info_v, info_j, info_l_u, info_thresh,
}
use ledger_babylon_app.Policy.Solutions.{
  both, item, item_one, item_zero, choose, list_length, item_signature,
}
use ledger_babylon_app.Policy.Rules.{Laws, Each}
use ledger_babylon_app.Policy.Alls.{All-append}
use ledger_babylon_app.Policy.Parts.{info_thresh-parts}
use ledger_babylon_app.Policy.Bounds.{
  IsBound, Fits, AllFit, AllFit-both, AllFit-push, AllFit-left, AllFit-right, AllFit-either,
  placed-AllFit, row-IsBound,
}
use ledger_babylon_app.Policy.Tables.{Stacked, thresh_sats-AllFit}

one : (v n : ℕ) → v ≡ n → n < int16_max → IsBound v n
one v n e h = omega (arith, e)

sat_if :
    (b : Bool) (x y : ExtInfo) (v : ℕ)
    → x.ss.sat ≡ v
    → y.ss.sat ≡ v
    → (if b then x else y).ss.sat ≡ v
sat_if true x y v p q = p
sat_if false x y v p q = q

thresh_table :
    (k n : ℕ) (infos : List ExtInfo) (info : ExtInfo)
    → info_thresh k n infos ≡ some info
    → (get_or (thresh_sats (ss_costs infos) (0 ∷ [])) k 0 ≡ info.ss.sat)
      × (get_or (thresh_sats (ss_costs infos) (0 ∷ [])) 0 0 ≡ info.ss.dsat)
thresh_table k n infos info e =
    let (ops, all) = info_thresh-parts k n infos info e in
    (ap (λ x. x.ss.sat) all, ap (λ x. x.ss.dsat) all)

thresh_stacked :
    (k : ℕ) (list : ScriptList) (infos : List ExtInfo) (info : ExtInfo)
    → Each Stacked infos list
    → info_thresh k (list_length list) infos ≡ some info
    → Stacked info (choose k list) (choose 0 list)
thresh_stacked k list infos info each e =
    let (sat, dsat) = thresh_table k (list_length list) infos info e in
    (
      subst (λ v. AllFit v (choose k list)) sat (thresh_sats-AllFit list infos k each),
      subst (λ v. AllFit v (choose 0 list)) dsat (thresh_sats-AllFit list infos 0 each),
    )

pub Stacked-Laws : (ctx : MiniscriptContext) → Laws ctx Stacked
unfolding info_0 info_1 info_pk_k info_pk_h info_pk info_pkh info_multi info_multi_a info_older
    info_after info_hash info_andor info_and_v info_and_b info_and_n info_or_b info_or_c info_or_d
    info_or_i info_a info_s_n info_c info_d info_t info_v info_j info_l_u both
Stacked-Laws ctx = record {
  law_0 = (tt, (one 0 0 refl (omega arith), tt));
  law_1 = ((one 0 0 refl (omega arith), tt), tt);
  law_pk_k = ((one 1 1 refl (omega arith), tt), (one 1 1 refl (omega arith), tt));
  law_pk_h = ((one 2 2 refl (omega arith), tt), (one 2 2 refl (omega arith), tt));
  law_pk = ((one 1 1 refl (omega arith), tt), (one 1 1 refl (omega arith), tt));
  law_pkh = ((one 2 2 refl (omega arith), tt), (one 2 2 refl (omega arith), tt));
  law_multi = λ k n h.
      let small : k < int16_max = omega (arith, h.1, h.2) in
      ((row-IsBound k item_signature small, tt), (row-IsBound k item_zero small, tt));
  law_multi_a = λ k n h.
      let small : n ≤ int16_max = omega (arith, h.2) in
      (placed-AllFit n k small, placed-AllFit n 0 small);
  law_older = λ n. (
    (one (info_older n).ss.sat 0 (sat_if (is_time_sequence n) _ _ 0 refl refl) (omega arith), tt),
    tt,
  );
  law_after = λ n. (
    (
      one (info_after n).ss.sat 0 (sat_if (leb locktime_threshold n) _ _ 0 refl refl) (omega arith),
      tt,
    ),
    tt,
  );
  law_hash = λ push. ((one 1 1 refl (omega arith), tt), tt);
  law_andor = λ x y z SX DX SY DY SZ DZ p q r. (
    AllFit-either (sumcheck x.ss.sat y.ss.sat) (sumcheck x.ss.dsat z.ss.sat) (both SX SY)
        (both DX SZ) (AllFit-both x.ss.sat y.ss.sat SX SY p.0 q.0)
        (AllFit-both x.ss.dsat z.ss.sat DX SZ p.1 r.0),
    AllFit-both x.ss.dsat z.ss.dsat DX DZ p.1 r.1,
  );
  law_and_v = λ x y SX DX SY DY p q. (AllFit-both x.ss.sat y.ss.sat SX SY p.0 q.0, tt);
  law_and_b = λ x y SX DX SY DY p q.
      (AllFit-both x.ss.sat y.ss.sat SX SY p.0 q.0, AllFit-both x.ss.dsat y.ss.dsat DX DY p.1 q.1);
  law_and_n = λ x y SX DX SY DY p q. (AllFit-both x.ss.sat y.ss.sat SX SY p.0 q.0, p.1);
  law_or_b = λ x y SX DX SY DY p q. (
    AllFit-either (sumcheck x.ss.dsat y.ss.sat) (sumcheck x.ss.sat y.ss.dsat) (both DX SY)
        (both SX DY) (AllFit-both x.ss.dsat y.ss.sat DX SY p.1 q.0)
        (AllFit-both x.ss.sat y.ss.dsat SX DY p.0 q.1),
    AllFit-both x.ss.dsat y.ss.dsat DX DY p.1 q.1,
  );
  law_or_c = λ x y SX DX SY DY p q. (
    AllFit-either x.ss.sat (sumcheck x.ss.dsat y.ss.sat) SX (both DX SY) p.0
        (AllFit-both x.ss.dsat y.ss.sat DX SY p.1 q.0),
    tt,
  );
  law_or_d = λ x y SX DX SY DY p q. (
    AllFit-either x.ss.sat (sumcheck x.ss.dsat y.ss.sat) SX (both DX SY) p.0
        (AllFit-both x.ss.dsat y.ss.sat DX SY p.1 q.0),
    AllFit-both x.ss.dsat y.ss.dsat DX DY p.1 q.1,
  );
  law_or_i = λ x y SX DX SY DY p q. (
    AllFit-either (sumcheck x.ss.sat 1) (sumcheck y.ss.sat 1) (both (item item_one) SX)
        (both (item item_zero) SY) (AllFit-push x.ss.sat item_one SX p.0)
        (AllFit-push y.ss.sat item_zero SY q.0),
    AllFit-either (sumcheck x.ss.dsat 1) (sumcheck y.ss.dsat 1) (both (item item_one) DX)
        (both (item item_zero) DY) (AllFit-push x.ss.dsat item_one DX p.1)
        (AllFit-push y.ss.dsat item_zero DY q.1),
  );
  law_s_n = λ is_s x S D p. p;
  law_c = λ x S D e p. p;
  law_a = λ x S D p. p;
  law_d = λ x S D p. (
    AllFit-both 1 x.ss.sat (item item_one) S (one 1 1 refl (omega arith), tt) p.0,
    (one 1 1 refl (omega arith), tt),
  );
  law_t = λ x S D p. (p.0, tt);
  law_v = λ x S D p. (p.0, tt);
  law_j = λ x S D p. (p.0, (one 1 1 refl (omega arith), tt));
  law_l = λ x S D p. (
    AllFit-push x.ss.sat item_zero S p.0,
    AllFit-either 1 (sumcheck x.ss.dsat 1) (item item_one) (both (item item_zero) D)
        (one 1 1 refl (omega arith), tt) (AllFit-push x.ss.dsat item_zero D p.1),
  );
  law_u = λ x S D p. (
    AllFit-push x.ss.sat item_one S p.0,
    All-append (Fits (maxcheck 1 (sumcheck x.ss.dsat 1))) (both (item item_one) D) (item item_zero)
        (AllFit-right 1 (sumcheck x.ss.dsat 1) (both (item item_one) D)
          (AllFit-push x.ss.dsat item_one D p.1))
        (AllFit-left 1 (sumcheck x.ss.dsat 1) (item item_zero) (one 1 1 refl (omega arith), tt)),
  );
  law_thresh = thresh_stacked;
}
