-- ===== src/Policy/Signatures.antt =====
-- The flags `s` and `f` of src/common/wallet.c: with `s` every satisfaction holds a signature, with `f`
-- every dissatisfaction does.
use ledger_babylon_app.Common.{
  ℕ, ◌+◌, ◌<◌, ◌≡◌, arith, refl, sym, ap, ◌∙◌, List, some, ltb→lt, inl, inr, true, false, ◌&&◌,
  ◌||◌, Bool, Bool-cases, if◌then◌else◌, leb,
}
use ledger_babylon_app.Policy.{MiniscriptContext, ScriptList}
use ledger_babylon_app.Policy.Costs.{ExtInfo}
use ledger_babylon_app.Policy.Leaves.{
  info_0, info_1, info_pk_k, info_pk_h, info_pk, info_pkh, info_multi, info_multi_a, info_older,
  info_after, info_hash, is_time_sequence, locktime_threshold,
}
use ledger_babylon_app.Policy.Joints.{
  info_andor, info_and_v, info_and_b, info_and_n, info_or_b, info_or_c, info_or_d, info_or_i,
}
use ledger_babylon_app.Policy.Wrappers.{
  info_a, info_s_n, info_c, info_d, info_t, info_v, info_j, info_l_u, info_thresh, thresh_loop,
  no_children, thresh_flags,
}
use ledger_babylon_app.Policy.Solutions.{
  Solution, both, item, item_one, item_zero, choose, list_length, has_signature,
}
use ledger_babylon_app.Policy.Rules.{Laws, Each}
use ledger_babylon_app.Policy.Parts.{info_thresh-parts}
use ledger_babylon_app.Policy.Signing.{
  AllSigned, Signed, and_both, or_either, both-left, both-right, append, placed-signed, row-signed,
  thresh_loop-count, thresh_loop-f, choose-signed,
}

false-true : false ≡ true → ⊥
false-true h = cc

s_if :
    (b : Bool) (x y : ExtInfo)
    → (if b then x else y).s ≡ true
    → x.s ≡ false
    → y.s ≡ false
    → false ≡ true
s_if true x y h p q = sym p ∙ h
s_if false x y h p q = sym q ∙ h

second : (a b c d : Bool) → ((a && c) || (b && a) || (d && c)) ≡ true → a ≡ false → c ≡ true
second a b c d h e = ground arith

either_of :
    (x y : ExtInfo) (SX SY : List Solution)
    → (x.s || y.s) ≡ true
    → (x.s ≡ true → AllSigned SX)
    → (y.s ≡ true → AllSigned SY)
    → AllSigned (both SX SY)
either_of x y SX SY s p q = elim (or_either x.s y.s s) [
  | inl sx ↦ both-left SX SY (p sx)
  | inr sy ↦ both-right SX SY (q sy)
]

forced_of :
    (x y : ExtInfo) (DX DY : List Solution)
    → ((x.f && y.f) || (x.s && x.f) || (y.s && y.f)) ≡ true
    → (x.f ≡ true → AllSigned DX)
    → (y.f ≡ true → AllSigned DY)
    → AllSigned (both DX DY)
forced_of x y DX DY f p q = elim (Bool-cases x.f) [
  | inl fx ↦ both-left DX DY (p fx)
  | inr nx ↦ both-right DX DY (q (second x.f x.s y.f y.s f nx))
]

thresh_signed :
    (k : ℕ) (list : ScriptList) (infos : List ExtInfo) (info : ExtInfo)
    → Each Signed infos list
    → info_thresh k (list_length list) infos ≡ some info
    → Signed info (choose k list) (choose 0 list)
unfolding thresh_flags
thresh_signed k list infos info each e =
    let (ops, all) = info_thresh-parts k (list_length list) infos info e in
    let loop = thresh_loop k infos no_children in
    let count = thresh_loop-count k infos no_children in
    (
      λ s. choose-signed k list infos each (
          let few : list_length list < k + loop.count_s =
            ltb→lt (list_length list) (k + loop.count_s) (ap (λ x. x.s) all ∙ s) in
          omega (arith, few, count)),
      λ f. absurd (false-true (sym (thresh_loop-f k infos no_children) ∙ ap (λ x. x.f) all ∙ f)),
    )

pub Signed-Laws : (ctx : MiniscriptContext) → Laws ctx Signed
unfolding info_0 info_1 info_pk_k info_pk_h info_pk info_pkh info_multi info_multi_a info_older
    info_after info_hash info_andor info_and_v info_and_b info_and_n info_or_b info_or_c info_or_d
    info_or_i info_a info_s_n info_c info_d info_t info_v info_j info_l_u both has_signature
Signed-Laws ctx = record {
  law_0 = (λ s. tt, λ f. absurd (false-true f));
  law_1 = (λ s. absurd (false-true s), λ f. tt);
  law_pk_k = (λ s. (refl, tt), λ f. absurd (false-true f));
  law_pk_h = (λ s. (refl, tt), λ f. absurd (false-true f));
  law_pk = (λ s. (refl, tt), λ f. absurd (false-true f));
  law_pkh = (λ s. (refl, tt), λ f. absurd (false-true f));
  law_multi = λ k n h. (λ s. (row-signed k h.0, tt), λ f. absurd (false-true f));
  law_multi_a = λ k n h. (λ s. placed-signed n k h.0, λ f. absurd (false-true f));
  law_older = λ n. (λ s. absurd (false-true (s_if (is_time_sequence n) _ _ s refl refl)), λ f. tt);
  law_after =
      λ n. (λ s. absurd (false-true (s_if (leb locktime_threshold n) _ _ s refl refl)), λ f. tt);
  law_hash = λ push. (λ s. absurd (false-true s), λ f. tt);
  law_andor = λ x y z SX DX SY DY SZ DZ p q r. (
    λ s.
        let (sz, sxy) = and_both z.s (x.s || y.s) s in
        append (both SX SY) (both DX SZ)
          (elim (or_either x.s y.s sxy) [
            | inl sx ↦ both-left SX SY (p.0 sx)
            | inr sy ↦ both-right SX SY (q.0 sy)
          ])
          (both-right DX SZ (r.0 sz)),
    λ f. both-right DX DZ (r.1 (and_both z.f (x.s || y.f) f).0),
  );
  law_and_v = λ x y SX DX SY DY p q. (λ s. either_of x y SX SY s p.0 q.0, λ f. tt);
  law_and_b = λ x y SX DX SY DY p q.
      (λ s. either_of x y SX SY s p.0 q.0, λ f. forced_of x y DX DY f p.1 q.1);
  law_and_n =
      λ x y SX DX SY DY p q. (λ s. either_of x y SX SY s p.0 q.0, λ f. absurd (false-true f));
  law_or_b = λ x y SX DX SY DY p q. (
    λ s.
        let (sx, sy) = and_both x.s y.s s in
        append (both DX SY) (both SX DY) (both-right DX SY (q.0 sy)) (both-left SX DY (p.0 sx)),
    λ f. absurd (false-true f),
  );
  law_or_c = λ x y SX DX SY DY p q. (
    λ s.
        let (sx, sy) = and_both x.s y.s s in
        append SX (both DX SY) (p.0 sx) (both-right DX SY (q.0 sy)),
    λ f. tt,
  );
  law_or_d = λ x y SX DX SY DY p q. (
    λ s.
        let (sx, sy) = and_both x.s y.s s in
        append SX (both DX SY) (p.0 sx) (both-right DX SY (q.0 sy)),
    λ f. both-right DX DY (q.1 f),
  );
  law_or_i = λ x y SX DX SY DY p q. (
    λ s.
        let (sx, sy) = and_both x.s y.s s in
        append (both (item item_one) SX) (both (item item_zero) SY)
          (both-right (item item_one) SX (p.0 sx)) (both-right (item item_zero) SY (q.0 sy)),
    λ f.
        let (fx, fy) = and_both x.f y.f f in
        append (both (item item_one) DX) (both (item item_zero) DY)
          (both-right (item item_one) DX (p.1 fx)) (both-right (item item_zero) DY (q.1 fy)),
  );
  law_s_n = λ is_s x S D p. p;
  law_c = λ x S D e p. (λ s. p.0 e, p.1);
  law_a = λ x S D p. p;
  law_d = λ x S D p. (λ s. both-right (item item_one) S (p.0 s), λ f. absurd (false-true f));
  law_t = λ x S D p. (p.0, λ f. tt);
  law_v = λ x S D p. (p.0, λ f. tt);
  law_j = λ x S D p. (p.0, λ f. absurd (false-true f));
  law_l = λ x S D p. (λ s. both-right (item item_zero) S (p.0 s), λ f. absurd (false-true f));
  law_u = λ x S D p. (λ s. both-right (item item_one) S (p.0 s), λ f. absurd (false-true f));
  law_thresh = thresh_signed;
}
